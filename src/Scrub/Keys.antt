-- ===== src/Scrub/Keys.antt =====
-- Which metadata scrubber.py stores, and what the operator's overrides can change of it.
use stepstitch.Prelude.{
  ◌≡◌, refl, String, Bool, true, false, not, ◌||◌, some, List, [], arith, Option-cases, is_empty,
  contains, eq_iff,
}
use stepstitch.Json.{Json, null, bool, num, real, str, arr, obj, Fields, end, field, lookup, get}
use stepstitch.Prelude.{contains-append}
use stepstitch.Scrub.Policy.{
  ScrubPolicy, all_forbidden_keys, apply_scrub_overrides, texts_of, items_of,
}
use stepstitch.Scrub.Metadata.{Place, Detectors, kept, scrub_entry, scrub_fields, scrub_metadata}

-- A value that is neither a list nor an object.
unfoldable pub is_flat : Json → Bool
is_flat (arr vs) = false
is_flat (obj d) = false
is_flat _ = true

unfoldable pub any_key : (String → Bool) → Fields → Bool
any_key p end = false
any_key p (field k v d) = p k || any_key p d

module _ (det : Detectors) (p : ScrubPolicy) where
  kept_flat :
      (place : Place) (k : String) (j v : Json)
      → (kept det p place k j).0 ≡ some v
      → is_flat v ≡ true
  unfolding kept is_flat
  kept_flat place k (str s) v h = ground (arith, h)
  kept_flat place k null v h = ground (arith, h)
  kept_flat place k (bool b) v h = ground (arith, h)
  kept_flat place k (num n) v h = ground (arith, h)
  kept_flat place k (real r) v h = ground (arith, h)
  kept_flat place k (arr vs) v h = ground (arith, h)
  kept_flat place k (obj d) v h = ground (arith, h)

  kept_accepts : (place : Place) (k : String) (j : Json) → (kept det p place k j).1.rejected ≡ []
  unfolding kept
  kept_accepts place k (str s) = ground arith
  kept_accepts place k null = refl
  kept_accepts place k (bool b) = refl
  kept_accepts place k (num n) = refl
  kept_accepts place k (real r) = refl
  kept_accepts place k (arr vs) = refl
  kept_accepts place k (obj d) = refl

  entry_kept :
      (allowlist : List String) (place : Place) (k : String) (j v : Json)
      → (scrub_entry det p allowlist place k j).0 ≡ some v
      → (contains k allowlist ≡ true)
        × (contains k (all_forbidden_keys p) ≡ false)
        × (is_flat v ≡ true)
  unfolding scrub_entry
  entry_kept allowlist place k j v h = ground (arith, kept_flat place k j v, h)

  fields_kept :
      (allowlist : List String) (place : String → Place) (d : Fields) (k : String) (v : Json)
      → lookup k (scrub_fields det p allowlist place d).0 ≡ some v
      → (contains k allowlist ≡ true)
        × (contains k (all_forbidden_keys p) ≡ false)
        × (is_flat v ≡ true)
  unfolding scrub_fields lookup
  fields_kept allowlist place end k v h = ground (arith, h)
  fields_kept allowlist place (field j w d) k v h = ground (
    arith,
    h,
    fields_kept allowlist place d k v,
    entry_kept allowlist (place j) j w v,
    eq_iff j k,
    Option-cases (scrub_entry det p allowlist (place j) j w).0,
  )

  entry_rejected :
      (allowlist : List String) (place : Place) (k : String) (j : Json)
      → is_empty (scrub_entry det p allowlist place k j).1.rejected
        ≡ not (contains k (all_forbidden_keys p))
  unfolding scrub_entry
  entry_rejected allowlist place k j = ground (arith, kept_accepts place k j)

  -- The metadata of a payload is reported as rejected exactly when one of its keys is forbidden.
  pub fields_rejected :
      (allowlist : List String) (place : String → Place) (d : Fields)
      → is_empty (scrub_fields det p allowlist place d).1.rejected
        ≡ not (any_key (λ k. contains k (all_forbidden_keys p)) d)
  unfolding scrub_fields any_key
  fields_rejected allowlist place end = refl
  fields_rejected allowlist place (field j w d) =
      ground (arith, fields_rejected allowlist place d, entry_rejected allowlist (place j) j w)

-- Whatever an operator's overrides say, an entry of the metadata is stored only under a key of the
-- allowlist that the base policy does not forbid and the overrides do not, and the value stored is
-- no list and no object.
pub scrub_metadata-apply_scrub_overrides :
    (to_text : Json → String) (det : Detectors) (base : ScrubPolicy) (cfg : Fields)
    (allowlist : List String) (place : String → Place) (metadata : Json) (k : String) (v : Json)
    → lookup k
        (scrub_metadata det (apply_scrub_overrides to_text base cfg) allowlist place metadata).0
      ≡ some v
    → (contains k allowlist ≡ true)
      × (contains k base.forbidden_keys ≡ false)
      × (contains k (texts_of to_text (items_of (get "extra_forbidden_keys" cfg))) ≡ false)
      × (is_flat v ≡ true)
unfolding scrub_metadata apply_scrub_overrides lookup
scrub_metadata-apply_scrub_overrides to_text det base cfg allowlist place (obj d) k v h =
    let p = apply_scrub_overrides to_text base cfg in
    let facts = fields_kept det p allowlist place d k v h in
    ground (
      arith,
      facts,
      contains-append k base.forbidden_keys
          (texts_of to_text (items_of (get "extra_forbidden_keys" cfg))),
    )
scrub_metadata-apply_scrub_overrides to_text det base cfg allowlist place null k v h =
    ground (arith, h)
scrub_metadata-apply_scrub_overrides to_text det base cfg allowlist place (str s) k v h =
    ground (arith, h)
scrub_metadata-apply_scrub_overrides to_text det base cfg allowlist place (bool b) k v h =
    ground (arith, h)
scrub_metadata-apply_scrub_overrides to_text det base cfg allowlist place (num n) k v h =
    ground (arith, h)
scrub_metadata-apply_scrub_overrides to_text det base cfg allowlist place (real r) k v h =
    ground (arith, h)
scrub_metadata-apply_scrub_overrides to_text det base cfg allowlist place (arr vs) k v h =
    ground (arith, h)
