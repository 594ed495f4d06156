-- ===== src/Egress.antt =====
-- service/stepstitch_service/egress.py: the guard on documents that leave toward an agent.
-- `redact_outbound_text`, passes with regular expressions, is the parameter `redact` of `Outbound`, with
-- the text of a number, `str.lower` and `str.endswith`. The keys of an object are texts.
pub mod Guarded
use stepstitch.Prelude.{
  ◌-◌, ℕ, zero, suc, ◌+◌, ◌*◌, ◌≤◌, ◌<◌, ◌≡◌, refl, sym, ap, ◌∙◌, ◌↔◌, ◌⊎◌, inl, inr, String, Bool,
  true, false, not, ◌&&◌, ◌||◌, Option, none, some, List, [], ◌∷◌, ◌++◌, map, arith, ltb, leb, ◌==◌,
  str_eq, if◌then◌else◌, is_some, opt_is, get_or, Bool-cases, Option-cases, length, is_empty, head?,
  take, any, all, keep, count_if, sum_of, contains, sort_by, Result, ok, err, ◌>>=◌, ◌>>◌, raise_if,
  bind-eq-ok, eq_iff, min, max,
}
use Prim.Native.String.{◌++◌ as str_append}
use stepstitch.Json.{
  Json, null, bool, num, real, str, arr, obj, Items, nil, cons, Fields, end, field,
}
use stepstitch.Scrub.Payload.{set_key, merge_counts}

pub record Outbound : Type 0 where
  pub redact : String → String × List (String × ℕ)
  pub decimal : ℕ → String
  pub lower : String → String
  pub ends_with : String → String → Bool

pub data Mode : Type 0 where
  redact_mode scan_mode : Mode

abbrev pub structural_keys : List String
structural_keys = "signature" ∷ "signatures" ∷ "sig" ∷ "public_key" ∷ "key_id" ∷ []

-- What was found where, in order.
abbrev pub Notes : Type 0
Notes = List (String × List (String × ℕ))

module _ (o : Outbound) where
  -- Values under these keys are the service's own digests and signatures.
  unfoldable pub is_structural : String → Bool
  is_structural key =
      let k = o.lower key in
      contains k structural_keys
      || str_eq k "digest"
      || o.ends_with k "sha256"
      || o.ends_with k "_digest"

  abbrev pub child_path : String → String → String
  child_path path key = if str_eq path "" then key else str_append path (str_append "." key)

  abbrev pub item_path : String → ℕ → String
  item_path path i = str_append path (str_append "[" (str_append (o.decimal i) "]"))

  -- The entry that is kept for a key, and what was found in key and value.
  abbrev pub entry : String → String → Json → Json × Notes → Json × Notes
  entry path key v walked =
      let (w, notes) = if is_structural key then (v, []) else walked in
      (w, (child_path path key, (o.redact key).1) ∷ notes)

  unfoldable mutual
    pub walk : String → Json → Json × Notes
    walk path (str s) = (str (o.redact s).0, (path, (o.redact s).1) ∷ [])
    walk path (arr vs) = let (ws, notes) = walk_items path 0 vs in (arr ws, notes)
    walk path (obj d) = let (e, notes) = walk_fields path end d in (obj e, notes)
    walk path null = (null, [])
    walk path (bool b) = (bool b, [])
    walk path (num n) = (num n, [])
    walk path (real r) = (real r, [])

    pub walk_items : String → ℕ → Items → Items × Notes
    walk_items path i nil = (nil, [])
    walk_items path i (cons v vs) =
        let (w, notes) = walk (item_path path i) v in
        let (ws, more) = walk_items path (suc i) vs in (cons w ws, notes ++ more)

    -- Two keys that are redacted to one text share an entry, as in a dictionary.
    pub walk_fields : String → Fields → Fields → Fields × Notes
    walk_fields path clean end = (clean, [])
    walk_fields path clean (field key v d) =
        let (w, notes) = entry path key v (walk (child_path path key) v) in
        let (e, more) = walk_fields path (set_key (o.redact key).0 w clean) d in (e, notes ++ more)

  abbrev pub kinds_of : Notes → List (String × ℕ) → List (String × ℕ)
  kinds_of [] kinds = kinds
  kinds_of ((path, counts) ∷ notes) kinds = kinds_of notes (merge_counts kinds counts)

  abbrev pub fields_of : Notes → List String → List String
  fields_of [] fields = fields
  fields_of ((path, counts) ∷ notes) fields =
      fields_of notes
        (if is_empty counts || contains path fields then fields else fields ++ path ∷ [])

pub record EgressReport : Type 0 where
  pub mode : Mode
  pub kinds : List (String × ℕ)
  pub fields : List String

abbrev pub chosen : Mode → Json → Json → Json
chosen scan_mode doc guarded = doc
chosen redact_mode doc guarded = guarded

unfoldable pub guard_outbound : Outbound → Json → Mode → Json × EgressReport
guard_outbound o doc mode =
    let (guarded, notes) = walk o "" doc in
    (
      chosen mode doc guarded,
      record { mode = mode; kinds = kinds_of o notes []; fields = fields_of o notes [] },
    )
