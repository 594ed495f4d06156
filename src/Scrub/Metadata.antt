-- ===== src/Scrub/Metadata.antt =====
-- Metadata of a payload in scrubber.py: a strict allowlist, and redacted values.
use stepstitch.Prelude.{
  ℕ, zero, suc, String, Bool, false, not, ◌||◌, Option, none, some, List, [], ◌∷◌, ◌++◌, ltb,
  str_eq, if◌then◌else◌, is_empty, contains,
}
use Prim.Native.String.{String}
use stepstitch.Json.{Json, null, bool, num, real, str, arr, obj, Fields, end, field}
use stepstitch.Scrub.Policy.{ScrubPolicy, all_forbidden_keys}

-- Where the report says that something was touched.
pub data Place : Type 0 where
  explanation : Place
  of_step : ℕ → String → Place
  of_step_metadata : ℕ → String → Place
  of_metadata : String → Place

-- What one part of the scrubbing reports, in order.
pub record Found : Type 0 where
  pub scrubbed : List Place
  pub rejected : List Place
  pub kinds : List (String × ℕ)

abbrev pub nothing : Found
nothing = record { scrubbed = []; rejected = []; kinds = [] }

abbrev pub dropped : Place → Found
dropped p = record { scrubbed = p ∷ []; rejected = []; kinds = [] }

abbrev pub refused : Place → Found
refused p = record { scrubbed = p ∷ []; rejected = p ∷ []; kinds = [] }

infixr 60 ◌&◌
abbrev pub ◌&◌ : Found → Found → Found
f & g = record {
  scrubbed = f.scrubbed ++ g.scrubbed;
  rejected = f.rejected ++ g.rejected;
  kinds = f.kinds ++ g.kinds;
}

-- `redact_text_counted` with the policy's extra patterns, and whether the path pass is left out.
pub record Detectors : Type 0 where
  pub redact : List (String × String) → Bool → String → String × List (String × ℕ)
  pub route_template : String → String
  pub is_digit : ℕ → Bool

-- `len(s)` and `s[:n]`.
unfoldable pub str_length : String → ℕ
str_length String.[] = 0
str_length (String.◌∷◌ c s) = suc (str_length s)

unfoldable pub truncate : ℕ → String → String
truncate zero s = String.[]
truncate (suc n) String.[] = String.[]
truncate (suc n) (String.◌∷◌ c s) = String.◌∷◌ c (truncate n s)

abbrev pub shorten : ℕ → String → String
shorten n s = if ltb n (str_length s) then truncate n s else s

module _ (det : Detectors) (policy : ScrubPolicy) where
  abbrev pub kinds_of : String → List (String × ℕ)
  kinds_of s = (det.redact policy.extra_redactions false s).1

  abbrev pub redacted : String → String
  redacted s = shorten policy.max_text_len (det.redact policy.extra_redactions false s).0

  -- A value under an allowed key.
  unfoldable pub kept : Place → String → Json → Option Json × Found
  kept place key (str s) =
      if str_eq key "endpoint" || str_eq key "source_path"
      then (
        some (str (truncate policy.max_text_len (det.route_template s))),
        if str_eq (det.route_template s) s then nothing else dropped place,
      )
      else (
        some (str (redacted s)),
        if not (is_empty (kinds_of s)) || not (str_eq (redacted s) s)
            then record (dropped place) { kinds = kinds_of s }
            else nothing,
      )
  kept place key null = (some null, nothing)
  kept place key (bool b) = (some (bool b), nothing)
  kept place key (num n) = (some (num n), nothing)
  kept place key (real r) = (some (real r), nothing)
  kept place key (arr vs) = (none, dropped place)
  kept place key (obj d) = (none, dropped place)

  -- The value that is kept, if it is, and what is reported of it.
  unfoldable pub scrub_entry : List String → Place → String → Json → Option Json × Found
  scrub_entry allowlist place key value =
      if contains key (all_forbidden_keys policy)
      then (none, refused place)
      else if not (contains key allowlist)
      then (none, dropped place)
      else kept place key value

  abbrev pub with_entry : String → Option Json → Fields → Fields
  with_entry key none d = d
  with_entry key (some v) d = field key v d

  unfoldable pub scrub_fields : List String → (String → Place) → Fields → Fields × Found
  scrub_fields allowlist place end = (end, nothing)
  scrub_fields allowlist place (field key value d) =
      let (v, found) = scrub_entry allowlist (place key) key value in
      let (clean, more) = scrub_fields allowlist place d in (with_entry key v clean, found & more)

  unfoldable pub scrub_metadata : List String → (String → Place) → Json → Fields × Found
  scrub_metadata allowlist place (obj d) = scrub_fields allowlist place d
  scrub_metadata allowlist place _ = (end, nothing)
