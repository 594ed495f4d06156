-- ===== src/Delivery.antt =====
-- service/stepstitch_service/delivery/base.py: the governed write of a draft to a system of record,
-- with the flatness check of service/stepstitch_service/integrations/base.py.
-- The redaction of egress.py and the host's writers are parameters: `guard` redacts a draft and
-- `create` answers a post; its answer may depend on the posts before, so that a retry may end
-- otherwise. Every post that is made is recorded in `posts`. A call ends before the next begins; the
-- source awaits the writer between the look into the store and the write to it.
pub mod Once
use stepstitch.Prelude.{
  ℕ, zero, suc, ◌+◌, ◌*◌, ◌≤◌, ◌<◌, ◌≡◌, refl, sym, ap, ◌∙◌, ◌↔◌, ◌⊎◌, inl, inr, String, Bool, true,
  false, not, ◌&&◌, ◌||◌, Option, none, some, List, [], ◌∷◌, ◌++◌, map, arith, ltb, leb, ◌==◌,
  str_eq, if◌then◌else◌, is_some, opt_is, get_or, Bool-cases, Option-cases, length, is_empty, head?,
  take, any, all, keep, count_if, sum_of, contains, sort_by, Result, ok, err, ◌>>=◌, ◌>>◌, raise_if,
  bind-eq-ok, eq_iff, min, max,
}
use Prim.Native.String.{◌++◌ as str_append}
use stepstitch.Json.{Json, Fields, end, field, null, bool, num, real, str, arr, obj}

abbrev pub forbidden_draft_keys : List String
forbidden_draft_keys =
    "footsteps" ∷ "explanation_raw" ∷ "user_id" ∷ "request_body" ∷ "response_body" ∷ "target"
    ∷ "selectors" ∷ "raw_url" ∷ []

abbrev pub is_scalar : Json → Bool
is_scalar (arr _) = false
is_scalar (obj _) = false
is_scalar _ = true

unfoldable pub assert_flat : Fields → Bool
assert_flat end = true
assert_flat (field key value draft) =
    not (contains key forbidden_draft_keys) && is_scalar value && assert_flat draft

pub record DeliveryResult : Type 0 where
  pub target : String
  pub record_id : String
  pub deduped : Bool
  pub receipt : Fields

pub data DeliveryError : Type 0 where
  no_writer not_flat refused : DeliveryError

pub record Post : Type 0 where
  pub key : String
  pub draft : Fields
  pub confirmed : Bool

-- The idempotency store, and the posts made so far.
pub record World : Type 0 where
  pub store : List (String × DeliveryResult)
  pub posts : List Post

abbrev pub cached : String → List (String × DeliveryResult) → Option DeliveryResult
cached key [] = none
cached key ((k, r) ∷ store) = if str_eq k key then some r else cached key store

abbrev pub delivery_key : String → String → String
delivery_key target idempotency_key = str_append target (str_append ":" idempotency_key)

module _ (writers : List String) (guard : Fields → Fields)
    (create : List Post → String → Fields → Result DeliveryError DeliveryResult) where
  -- `RecordWriter.deliver`: nothing but a flat draft is posted, and only as it is redacted.
  unfoldable pub write :
      String → String → Fields → World → Result DeliveryError DeliveryResult × World
  write key target draft w =
      if not (assert_flat draft)
      then (err not_flat, w)
      else elim (create w.posts target (guard draft)) [
        | err e ↦ (
          err e,
          record w {
            posts = record { key = key; draft = guard draft; confirmed = false } ∷ w.posts;
          },
        )
        | ok r ↦ (
          ok r,
          record {
            posts = record { key = key; draft = guard draft; confirmed = true } ∷ w.posts;
            store = (key, r) ∷ w.store;
          },
        )
      ]

  -- `DeliveryService.deliver`.
  unfoldable pub deliver :
      String → Fields → String → World → Result DeliveryError DeliveryResult × World
  deliver target draft idempotency_key w =
      let key = delivery_key target idempotency_key in
      if not (contains target writers) then (err no_writer, w) else elim (cached key w.store) [
        | some r ↦ (ok (record r { deduped = true }), w)
        | none ↦ write key target draft w
      ]

  -- Calls one after the other.
  unfoldable pub deliver_all : List (String × Fields × String) → World → World
  deliver_all [] w = w
  deliver_all ((target, draft, key) ∷ calls) w = deliver_all calls (deliver target draft key w).1
