-- ===== src/Replay.antt =====
-- service/stepstitch_service/replayability.py: how well a trace can be replayed.
-- Scores are hundredths: every charge of the source is a whole number of them, and the source
-- rounds its sum to four places before it compares. `lost` is what was taken off the score 1.0.
-- Python's `str.lower()` and the white space of `strip` are the parameter `Chars`.
pub mod Bounds
pub mod Params
pub mod Fragility
use stepstitch.Prelude.{
  ℕ, zero, suc, ◌+◌, ◌*◌, ◌-◌, min, String, Bool, true, false, not, ◌&&◌, ◌||◌, Option, none, some,
  List, [], ◌∷◌, ◌++◌, any, keep, length, contains, is_empty, if◌then◌else◌, ltb, leb, ◌==◌,
  count_if, sort_by,
}
use stepstitch.Prelude.Text.{Text, codes, text_eq, starts_with, is_infix, strip}

pub record Footstep : Type 0 where
  pub type : String
  pub target : Option String
  pub route : Option String

pub record Chars : Type 0 where
  pub lower : String → String
  pub is_space : ℕ → Bool

abbrev pub supported_step_types : List String
supported_step_types = "navigation" ∷ "click" ∷ "input" ∷ "api_error" ∷ "exception" ∷ []

abbrev pub interactive_types : List String
interactive_types = "click" ∷ "input" ∷ []

abbrev pub terminal_types : List String
terminal_types = "click" ∷ "api_error" ∷ "exception" ∷ []

pub data Tier : Type 0 where
  testid id structural no_selector : Tier

pub data Grade : Type 0 where
  grade_a grade_b grade_c grade_d grade_f : Grade

pub data Warning : Type 0 where
  empty_trace : Warning
  unknown_step_type : ℕ → Warning
  unstable_selector : ℕ → Warning
  missing_selector : ℕ → Warning
  templated_route_needs_fixture : Text → ℕ → ℕ → Warning
  no_terminal_action : Warning
  long_trace : ℕ → Warning

unfoldable pub grade : ℕ → Grade
grade score =
    if leb 85 score
    then grade_a
    else if leb 70 score
    then grade_b
    else if leb 55 score
    then grade_c
    else if leb 40 score
    then grade_d
    else grade_f

-- `s.split("/")`.
abbrev cons_head : ℕ → List Text → List Text
cons_head c [] = (c ∷ []) ∷ []
cons_head c (s ∷ ss) = (c ∷ s) ∷ ss

pub split_path : Text → List Text
split_path [] = [] ∷ []
split_path (c ∷ s) = let rest = split_path s in if c == b'/' then [] ∷ rest else cons_head c rest

-- The parameter that a segment templates, as `:id` does.
abbrev param_of : Text → Option Text
param_of [] = none
param_of (c ∷ []) = none
param_of (c ∷ d ∷ s) = if c == b':' then some (d ∷ s) else none

abbrev params_of : List Text → List Text
params_of [] = []
params_of (s ∷ ss) =
    let rest = params_of ss in elim (param_of s) [ none ↦ rest | some p ↦ p ∷ rest ]

abbrev route_text : Footstep → Text
route_text s = elim s.route [ none ↦ [] | some r ↦ codes r ]

unfoldable pub step_params : Footstep → List Text
unfolding split_path
step_params s = params_of (split_path (route_text s))

abbrev pub has_param : Text → List (Text × ℕ) → Bool
has_param p [] = false
has_param p ((q, i) ∷ ps) = text_eq q p || has_param p ps

-- `templated_params.setdefault(name, i)`.
abbrev set_default : Text → ℕ → List (Text × ℕ) → List (Text × ℕ)
set_default p i ps = if has_param p ps then ps else ps ++ (p, i) ∷ []

abbrev set_defaults : List Text → ℕ → List (Text × ℕ) → List (Text × ℕ)
set_defaults [] i ps = ps
set_defaults (p ∷ more) i ps = set_defaults more i (set_default p i ps)

unfoldable pub templated_from : ℕ → List Footstep → List (Text × ℕ) → List (Text × ℕ)
templated_from i [] ps = ps
templated_from i (s ∷ steps) ps = templated_from (suc i) steps (set_defaults (step_params s) i ps)

abbrev pub has_text : Text → List Text → Bool
has_text p [] = false
has_text p (q ∷ qs) = text_eq q p || has_text p qs

-- Templated and not supplied by the project.
unfoldable pub missing : List Text → List (Text × ℕ) → List (Text × ℕ)
missing supplied ps = keep (λ q. not (has_text q.0 supplied)) ps

abbrev text_leb : Text → Text → Bool
text_leb [] t = true
text_leb (c ∷ s) [] = false
text_leb (c ∷ s) (d ∷ t) = ltb c d || (c == d && text_leb s t)

abbrev param_warnings : List Footstep → List (Text × ℕ) → List Warning
param_warnings steps [] = []
param_warnings steps ((p, i) ∷ ps) =
    templated_route_needs_fixture p (count_if (λ s. has_text p (step_params s)) steps) i
    ∷ param_warnings steps ps

pub record Tally : Type 0 where
  pub lost : ℕ
  pub interactive : ℕ
  pub stable_selectors : ℕ
  pub unknown_types : ℕ
  pub warnings : List Warning

pub record TraceScore : Type 0 where
  pub score : ℕ
  pub grade : Grade
  pub warnings : List Warning
  pub steps : ℕ
  pub interactive : ℕ
  pub stable_selectors : ℕ

-- An interactive step's selector.
unfoldable pub charge : Tier → ℕ → Tally → Tally
charge testid i t = record t {
  interactive = t.interactive + 1;
  stable_selectors = t.stable_selectors + 1;
}
charge id i t = record t {
  lost = t.lost + 5;
  interactive = t.interactive + 1;
  stable_selectors = t.stable_selectors + 1;
}
charge structural i t = record t {
  lost = t.lost + 12;
  interactive = t.interactive + 1;
  warnings = t.warnings ++ unstable_selector i ∷ [];
}
charge no_selector i t = record t {
  lost = t.lost + 20;
  interactive = t.interactive + 1;
  warnings = t.warnings ++ missing_selector i ∷ [];
}

abbrev pub no_tally : Tally
no_tally = record {
  lost = 0;
  interactive = 0;
  stable_selectors = 0;
  unknown_types = 0;
  warnings = [];
}

-- `max(0, min(1, …))`: the difference stops at 0, and never passes 100.
abbrev pub final_score : Tally → ℕ
final_score t = if t.unknown_types == 0 then 100 - t.lost else min (100 - t.lost) 60

module _ (c : Chars) where
  abbrev pub step_type : Footstep → String
  step_type s = c.lower s.type

  abbrev classify : Text → Tier
  classify t =
      if is_infix (codes "data-testid") t
      then testid
      else if starts_with (codes "#") t
          && not (is_infix (codes " ") t)
          && not (is_infix (codes ">") t)
      then id
      else structural

  unfoldable pub selector_stability : Option String → Tier
  selector_stability none = no_selector
  selector_stability (some target) =
      if is_empty (codes target) then no_selector else classify (strip c.is_space (codes target))

  unfoldable pub tally_step : ℕ → Footstep → Tally → Tally
  unfolding charge
  tally_step i s t =
      if not (contains (step_type s) supported_step_types)
      then record t {
        lost = t.lost + 20;
        unknown_types = t.unknown_types + 1;
        warnings = t.warnings ++ unknown_step_type i ∷ [];
      }
      else if contains (step_type s) interactive_types
      then charge (selector_stability s.target) i t
      else t

  unfoldable pub tally_from : ℕ → List Footstep → Tally → Tally
  tally_from i [] t = t
  tally_from i (s ∷ steps) t = tally_from (suc i) steps (tally_step i s t)

  abbrev pub is_terminal : Footstep → Bool
  is_terminal s = contains (step_type s) terminal_types

  -- Everything that is taken off, and the warnings, in the order of the source.
  unfoldable pub deductions : List Footstep → List Text → Tally
  deductions steps supplied =
      let t = tally_from 0 steps no_tally in
      let open_params = missing supplied (templated_from 0 steps []) in
      let no_terminal = not (any is_terminal steps) in
      let too_long = ltb 50 (length steps) in
      record t {
        lost =
            t.lost
            + 4 * length open_params
            + (if no_terminal then 50 else 0)
            + (if too_long then 10 else 0);
        warnings =
            t.warnings
            ++ (param_warnings steps (sort_by (λ p q. text_leb p.0 q.0) open_params)
                ++ ((if no_terminal then no_terminal_action ∷ [] else [])
                    ++ (if too_long then long_trace (length steps) ∷ [] else [])));
      }

  unfoldable pub score_trace : List Footstep → List Text → TraceScore
  score_trace [] supplied = record {
    score = 0;
    grade = grade_f;
    warnings = empty_trace ∷ [];
    steps = 0;
    interactive = 0;
    stable_selectors = 0;
  }
  score_trace (s ∷ steps) supplied =
      let t = deductions (s ∷ steps) supplied in
      let score = final_score t in
      record {
        score = score;
        grade = grade score;
        warnings = t.warnings;
        steps = length (s ∷ steps);
        interactive = t.interactive;
        stable_selectors = t.stable_selectors;
      }
