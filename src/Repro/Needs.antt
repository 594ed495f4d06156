-- ===== src/Repro/Needs.antt =====
-- `route_params_in` and `readiness` of repro_config.py. The items keep their id and their two flags;
-- titles and details are display text. A footstep is the fields of its object.
use stepstitch.Prelude.{
  ℕ, String, Bool, true, false, not, ◌&&◌, ◌||◌, Option, none, some, List, [], ◌∷◌, ◌++◌, leb, ◌==◌,
  str_eq, if◌then◌else◌, is_some, is_empty, keep,
}
use stepstitch.Prelude.Text.{Text, codes, text_eq}
use stepstitch.Json.{str, Fields, get, lookup, truthy}
use stepstitch.Runner.Run.{ReadinessItem}
use stepstitch.Repro.Config.{
  Python, AuthConfig, ReproConfig, no_config, synthetic_value, given, or_text,
}
use mathlib.Core.List.{reverse}

-- Where the search for `:([A-Za-z_][A-Za-z0-9_]*)` stands; a name is kept reversed.
pub data Scan : Type 0 where
  outside : Scan
  after_colon : Scan
  in_name : ℕ → Text → Scan

abbrev is_name_start : ℕ → Bool
is_name_start c = (leb b'a' c && leb c b'z') || (leb b'A' c && leb c b'Z') || c == b'_'

abbrev is_name_char : ℕ → Bool
is_name_char c = is_name_start c || (leb b'0' c && leb c b'9')

abbrev outside_or_colon : ℕ → Scan
outside_or_colon c = if c == b':' then after_colon else outside

abbrev scan_step : Scan → ℕ → Scan
scan_step outside c = outside_or_colon c
scan_step after_colon c = if is_name_start c then in_name c [] else outside_or_colon c
scan_step (in_name d acc) c = if is_name_char c then in_name c (d ∷ acc) else outside_or_colon c

-- The name that ends where `c` stands, or at the end.
abbrev ended : Scan → List Text
ended outside = []
ended after_colon = []
ended (in_name d acc) = reverse (d ∷ acc) ∷ []

abbrev ended_at : Scan → ℕ → List Text
ended_at s c = if is_name_char c then [] else ended s

-- `_PARAM.findall`.
unfoldable pub find_params : Scan → Text → List Text
find_params s [] = ended s
find_params s (c ∷ text) = ended_at s c ++ find_params (scan_step s c) text

unfoldable pub has_name : Text → List Text → Bool
has_name p [] = false
has_name p (q ∷ qs) = text_eq q p || has_name p qs

abbrev pub add_name : List Text → Text → List Text
add_name seen p = if has_name p seen then seen else seen ++ p ∷ []

unfoldable pub add_names : List Text → List Text → List Text
add_names seen [] = seen
add_names seen (p ∷ ps) = add_names (add_name seen p) ps

-- `str(step.get(k, ""))`.
abbrev pub text_at : Python → String → Fields → String
text_at py k step = elim (lookup k step) [ none ↦ "" | some (str s) ↦ s | some v ↦ py.str_of v ]

abbrev pub has_value : List (String × String) → Text → Bool
has_value [] p = false
has_value ((k, v) ∷ d) p = text_eq (codes k) p || has_value d p

abbrev pub settings : Option ReproConfig → ReproConfig
settings none = no_config
settings (some c) = c

abbrev pub has_fixture : Option AuthConfig → Bool
has_fixture none = false
has_fixture (some a) = given a.fixture

abbrev item : String → Bool → Bool → ReadinessItem
item id ready blocking = record { id = id; ready = ready; blocking = some blocking }

module _ (py : Python) where
  abbrev pub is_type : String → Fields → Bool
  is_type t step = str_eq (py.lower (text_at py "type" step)) t

  unfoldable pub params_from : List Text → List Fields → List Text
  params_from seen [] = seen
  params_from seen (step ∷ steps) =
      params_from
        (if is_type "navigation" step
          then add_names seen (find_params outside (codes (text_at py "route" step)))
          else seen)
        steps

  unfoldable pub route_params_in : List Fields → List Text
  route_params_in steps = params_from [] steps

  abbrev pub input_steps : List Fields → List Fields
  input_steps = keep (λ s. is_type "input" s && truthy (get "target" s))

  abbrev pub is_unresolved : ReproConfig → Fields → Bool
  is_unresolved cfg s = not (is_some (synthetic_value py (text_at py "target" s) (some cfg)).0)

  abbrev pub missing_params : ReproConfig → List Fields → List Text
  missing_params cfg steps = keep (λ p. not (has_value cfg.route_params p)) (route_params_in steps)

  abbrev items_for : ReproConfig → List Fields → Option String → List ReadinessItem
  items_for cfg steps fallback =
      item "base_url" (given (or_text cfg.base_url fallback)) true
      ∷ ((if is_empty (route_params_in steps)
            then []
            else item "route_params" (is_empty (missing_params cfg steps)) true ∷ [])
          ++ ((if is_empty (input_steps steps)
                then []
                else item "input_values" (is_empty (keep (is_unresolved cfg) (input_steps steps)))
                    true
                  ∷ [])
              ++ item "auth" (has_fixture cfg.auth) false ∷ []))

  unfoldable pub readiness : Option ReproConfig → List Fields → Option String → List ReadinessItem
  readiness config steps fallback = items_for (settings config) steps fallback
