-- ===== src/Replay/Fragility.antt =====
-- service/stepstitch_service/fragility.py: the brittleness of each interactive step, and a trace
-- cut down to its failing route. Risks are thousandths.
pub mod Reduction
pub mod Ranking
use stepstitch.Prelude.{
  ℕ, zero, suc, ◌+◌, min, String, Bool, true, false, not, ◌&&◌, ◌||◌, Option, none, some, List, [],
  ◌∷◌, str_eq, contains, if◌then◌else◌, ltb, leb, ◌==◌, keep, length, head?, get_or, is_empty,
  sort_by, any,
}
use stepstitch.Prelude.Text.{codes, is_infix}
use stepstitch.Replay.{
  Footstep, Chars, Tier, testid, id, structural, no_selector, interactive_types, terminal_types,
  step_type, is_terminal, selector_stability,
}

abbrev pub risk_of : Tier → ℕ
risk_of no_selector = 1000
risk_of structural = 700
risk_of id = 300
risk_of testid = 100

-- `str(step.get("route", "/"))`.
abbrev pub route_of : Footstep → String
route_of s = get_or s.route "/"

pub record FragileStep : Type 0 where
  pub step_index : ℕ
  pub type : String
  pub route : String
  pub selector : Option String
  pub stability : Tier
  pub risk : ℕ

pub record FragilityMap : Type 0 where
  pub fragility : List FragileStep
  pub most_fragile : Option FragileStep
  pub interactive_steps : ℕ

-- The sort key `(-risk, step_index)`.
abbrev pub worse : FragileStep → FragileStep → Bool
worse a b = ltb b.risk a.risk || (a.risk == b.risk && leb a.step_index b.step_index)

pub record MinimalRepro : Type 0 where
  pub original_steps : ℕ
  pub reduced_steps : ℕ
  pub footsteps : List Footstep

module _ (c : Chars) where
  abbrev pub is_interactive : Footstep → Bool
  is_interactive s = contains (step_type c s) interactive_types

  -- A templated route needs a fixture id, which adds 0.1 up to 1.0.
  abbrev pub step_risk : Footstep → ℕ
  step_risk s =
      let risk = risk_of (selector_stability c s.target) in
      if is_infix (codes ":") (codes (route_of s)) then min 1000 (risk + 100) else risk

  unfoldable pub fragile_steps : ℕ → List Footstep → List FragileStep
  fragile_steps i [] = []
  fragile_steps i (s ∷ steps) =
      let rest = fragile_steps (suc i) steps in
      if is_interactive s
      then record {
        step_index = i;
        type = step_type c s;
        route = route_of s;
        selector = s.target;
        stability = selector_stability c s.target;
        risk = step_risk s;
      }
        ∷ rest
      else rest

  unfoldable pub compute_fragility_map : List Footstep → FragilityMap
  compute_fragility_map footsteps =
      let items = sort_by worse (fragile_steps 0 footsteps) in
      record { fragility = items; most_fragile = head? items; interactive_steps = length items }

  -- The route of the last terminal step; the loop over `reversed` finds it from the end.
  unfoldable pub failing_route : List Footstep → Option String
  failing_route [] = none
  failing_route (s ∷ steps) = elim (failing_route steps) [
    | some r ↦ some r
    | none ↦ if is_terminal c s then some (route_of s) else none
  ]

  abbrev pub on_route : String → Footstep → Bool
  on_route r s = str_eq (route_of s) r

  -- `if not reduced: reduced = original`.
  abbrev pub or_original : List Footstep → List Footstep → List Footstep
  or_original [] original = original
  or_original (s ∷ reduced) original = s ∷ reduced

  abbrev pub reduced_to : List Footstep → Option String → List Footstep
  reduced_to footsteps none = footsteps
  reduced_to footsteps (some r) = or_original (keep (on_route r) footsteps) footsteps

  unfoldable pub minimal_repro : List Footstep → MinimalRepro
  minimal_repro footsteps =
      let reduced = reduced_to footsteps (failing_route footsteps) in
      record {
        original_steps = length footsteps;
        reduced_steps = length reduced;
        footsteps = reduced;
      }
