-- ===== src/Policies/Profiles.antt =====
-- The built-in profiles of profiles.py and the policies they stand for. `str()` of a value that is no
-- text is the parameter `to_text`.
use stepstitch.Prelude.{
  ℕ, zero, suc, String, Bool, true, false, Option, none, some, List, [], ◌∷◌, str_eq, if◌then◌else◌,
  Result, ok, err, ◌>>=◌,
}
use stepstitch.Prelude.Int.{pos}
use stepstitch.Json.{Json, bool, num, str, Fields, end, field, lookup, truthy}
use stepstitch.Scrub.Policy.{ScrubPolicy, financial_services_enterprise, apply_scrub_overrides}

-- The `scrub` knobs of the profiles by name.
abbrev knobs : String → ℕ → Bool → Fields → Fields
knobs free_text max_len reject rest =
    field "free_text" (str free_text)
      (field "max_text_len" (num (pos max_len)) (field "reject_on_forbidden" (bool reject) rest))

abbrev strict_knobs : Fields
strict_knobs = field "selector_policy" (str "approved_testids") (
    field "route_policy" (str "operator_templates") (field "enforce_masked_labels" (bool true) end))

abbrev pub profiles : List (String × Fields)
profiles =
    ("financial-services-enterprise", knobs "scrub" 280 false end)
    ∷ ("financial-services-strict", knobs "disabled" 0 true strict_knobs)
    ∷ ("healthcare-strict", knobs "disabled" 0 true end)
    ∷ ("internal-enterprise", knobs "scrub" 1000 false end)
    ∷ ("open-source-default", knobs "scrub" 280 false end)
    ∷ []

unfoldable pub find_profile : String → List (String × Fields) → Option Fields
find_profile name [] = none
find_profile name ((n, scrub) ∷ ps) =
    let rest = find_profile name ps in if str_eq n name then some scrub else rest

-- An unknown profile raises.
unfoldable pub get_profile : String → Result String Fields
get_profile name = elim (find_profile name profiles) [ none ↦ err name | some scrub ↦ ok scrub ]

-- `scrub.get("max_text_len", 280) or 280`, of a number.
abbrev pub max_len_of : Option Json → ℕ
max_len_of (some (num (pos zero))) = 280
max_len_of (some (num (pos (suc n)))) = suc n
max_len_of _ = 280

module _ (to_text : Json → String) where
  abbrev pub text_or_default : Option Json → String → String
  text_or_default none default = default
  text_or_default (some v) default = to_text v

  abbrev pub flag : Option Json → Bool
  flag none = false
  flag (some v) = truthy v

  -- Only the knobs vary; allowlists and forbidden keys are the scrubber's own.
  unfoldable pub policy_from_profile : String → Fields → ScrubPolicy
  policy_from_profile name scrub = record financial_services_enterprise {
    name = name;
    free_text = text_or_default (lookup "free_text" scrub) "scrub";
    max_text_len = max_len_of (lookup "max_text_len" scrub);
    reject_on_forbidden = flag (lookup "reject_on_forbidden" scrub);
    selector_policy = text_or_default (lookup "selector_policy" scrub) "any";
    route_policy = text_or_default (lookup "route_policy" scrub) "any";
    enforce_masked_labels = flag (lookup "enforce_masked_labels" scrub);
  }

  unfoldable pub build_policy : String → Fields → Result String ScrubPolicy
  build_policy name overrides = get_profile name >>= λ scrub.
      ok (apply_scrub_overrides to_text (policy_from_profile name scrub) overrides)
