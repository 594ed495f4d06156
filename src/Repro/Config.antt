-- ===== src/Repro/Config.antt =====
-- The settings of repro_config.py, the synthetic values and the pattern of an endpoint.
-- `re.search` with `re.I` and without, whether `re.compile` takes a pattern, `re.escape`, `str.lower` and `str()` of a value that is no text are the
-- record `Python`.
use stepstitch.Prelude.{
  ℕ, String, Bool, true, false, not, ◌&&◌, ◌||◌, Option, none, some, List, [], ◌∷◌, ◌++◌, leb, ◌==◌,
  str_eq, if◌then◌else◌, get_or, is_empty,
}
use stepstitch.Prelude.Text.{Text, codes, starts_with, drop}
use stepstitch.Json.{Json}

pub record Python : Type 0 where
  pub search : String → String → Bool
  pub search_cased : String → String → Bool
  pub compiles : String → Bool
  pub escape : Text → Text
  pub lower : String → String
  pub str_of : Json → String

pub record AuthConfig : Type 0 where
  pub fixture : Option String
  pub env_vars : List String

pub record ReproConfig : Type 0 where
  pub base_url : Option String
  pub auth : Option AuthConfig
  pub route_params : List (String × String)
  pub input_by_selector : List (String × String)
  pub input_by_kind : List (String × String)
  pub api_overrides : List (String × String)
  pub verify_workflow_url : Option String

abbrev pub no_config : ReproConfig
no_config = record {
  base_url = none;
  auth = none;
  route_params = [];
  input_by_selector = [];
  input_by_kind = [];
  api_overrides = [];
  verify_workflow_url = none;
}

-- `d.get(k)` of a dictionary of texts.
unfoldable pub find : String → List (String × String) → Option String
find k [] = none
find k ((j, v) ∷ d) = let rest = find k d in if str_eq j k then some v else rest

abbrev pub default_values : List (String × String)
default_values =
    ("email", "qa@example.test")
    ∷ ("tel", "555-0100")
    ∷ ("number", "1")
    ∷ ("date", "2024-01-15")
    ∷ ("url", "https://example.test")
    ∷ ("search", "stepstitch-test-value")
    ∷ ("text", "stepstitch-test-value")
    ∷ []

-- The first hint that matches wins.
abbrev pub kind_hints : List (String × String)
kind_hints =
    ("password", "passw|pwd|passcode")
    ∷ ("email", "e-?mail")
    ∷ ("tel", "\\btel\\b|phone|mobile")
    ∷ ("date", "\\bdate\\b|dob|birth")
    ∷ ("url", "\\burl\\b|website|\\blink\\b")
    ∷ ("number", "amount|qty|quantity|\\bnum\\b|number|price|total|count")
    ∷ ("search", "search|query")
    ∷ []

-- `x or y` of a text that may be missing.
abbrev pub or_text : Option String → Option String → Option String
or_text none other = other
or_text (some s) other = if str_eq s "" then other else some s

abbrev pub given : Option String → Bool
given none = false
given (some s) = not (str_eq s "")

module _ (py : Python) where
  abbrev pub first_hint : List (String × String) → String → String
  first_hint [] selector = "text"
  first_hint ((kind, pattern) ∷ hints) selector =
      let rest = first_hint hints selector in if py.search pattern selector then kind else rest

  unfoldable pub infer_input_kind : String → String
  infer_input_kind selector = first_hint kind_hints selector

  -- The built-in value; a password has none.
  abbrev pub default_value : String → Option String
  default_value kind =
      if str_eq kind "password"
      then none
      else some (get_or (find kind default_values) "stepstitch-test-value")

  unfoldable pub synthetic_value : String → Option ReproConfig → Option String × String
  synthetic_value selector none =
      (default_value (infer_input_kind selector), infer_input_kind selector)
  synthetic_value selector (some config) =
      let kind = infer_input_kind selector in
      elim (find selector config.input_by_selector) [
        | some exact ↦ (some exact, kind)
        | none ↦ elim (find kind config.input_by_kind) [
          | some by_kind ↦ (some by_kind, kind)
          | none ↦ (default_value kind, kind)
        ]
      ]

abbrev is_letter : ℕ → Bool
is_letter c = (leb b'a' c && leb c b'z') || (leb b'A' c && leb c b'Z')

abbrev is_digit : ℕ → Bool
is_digit c = leb b'0' c && leb c b'9'

abbrev is_scheme : ℕ → Bool
is_scheme c = is_letter c || is_digit c || c == b'+' || c == b'.' || c == b'-'

-- The text from the first "/" on.
abbrev from_slash : Text → Text
from_slash [] = []
from_slash (c ∷ s) = let rest = from_slash s in if c == b'/' then c ∷ s else rest

abbrev no_host : Text → Bool
no_host [] = true
no_host (c ∷ s) = c == b'/'

-- `://[^/]+` at the front taken off; none where it is not there.
abbrev after_host : Text → Option Text
after_host s =
    if starts_with (codes "://") s && not (no_host (drop 3 s))
    then some (from_slash (drop 3 s))
    else none

abbrev after_scheme : Text → Option Text
after_scheme [] = none
after_scheme (c ∷ s) = let rest = after_scheme s in if is_scheme c then rest else after_host (c ∷ s)

abbrev get_text : Option Text → Text → Text
get_text none s = s
get_text (some t) s = t

abbrev onto_first : ℕ → List Text → List Text
onto_first c [] = (c ∷ []) ∷ []
onto_first c (s ∷ ss) = (c ∷ s) ∷ ss

-- The leaked origin, `^[a-zA-Z][a-zA-Z0-9+.-]*://[^/]+`, taken off.
unfoldable pub strip_origin : Text → Text
strip_origin [] = []
strip_origin (c ∷ s) = if is_letter c then get_text (after_scheme s) (c ∷ s) else c ∷ s

unfoldable pub split_on_slash : Text → List Text
split_on_slash [] = [] ∷ []
split_on_slash (c ∷ s) =
    let rest = split_on_slash s in if c == b'/' then [] ∷ rest else onto_first c rest

abbrev pub override_of : String → Option ReproConfig → Option String
override_of endpoint none = none
override_of endpoint (some config) = find endpoint config.api_overrides

module _ (escape : Text → Text) where
  -- The path's pattern: every segment that is not empty behind a "/".
  unfoldable pub path_pattern : List Text → Text
  path_pattern [] = []
  path_pattern ([] ∷ segments) = path_pattern segments
  path_pattern ((c ∷ s) ∷ segments) =
      b'/' ∷ ((if c == b':' then codes "[^/]+" else escape (c ∷ s)) ++ path_pattern segments)

  -- The pattern, as code points. A leading "/" is not put in front first: it would only add an empty
  -- segment.
  unfoldable pub endpoint_match_regex : String → Option ReproConfig → Option Text
  endpoint_match_regex endpoint config =
      if given (override_of endpoint config)
      then some (codes (get_or (override_of endpoint config) ""))
      else if str_eq endpoint ""
      then none
      else let path = path_pattern (split_on_slash (strip_origin (codes endpoint))) in
        if is_empty path then none else some (path ++ codes "$")
