-- ===== src/Execution.antt =====
-- service/stepstitch_service/execution.py: how far execution got for one trace, from the readiness
-- items, the frozen row and the verification rows. The sentences shown to an operator are left
-- out; `NextAction` keeps which one is chosen.
pub mod States
use stepstitch.Prelude.{
  String, Bool, true, false, not, ◌&&◌, ◌||◌, Option, none, some, List, [], ◌∷◌, str_eq, opt_is,
  get_or, if◌then◌else◌, is_empty, is_some, any, keep, head?, contains,
}
use stepstitch.Runner.Run.{ReadinessItem}

pub data ExecutionState : Type 0 where
  draft ready reproduced confirmed_fixed : ExecutionState

pub record VerificationRow : Type 0 where
  pub verdict : Option String
  pub pre_passed : Option Bool
  pub post_passed : Option Bool
  pub evidence_grade : Option String

pub record FrozenRow : Type 0 where
  pub red_verdict : Option String

-- Here an item that does not say whether it blocks does not.
unfoldable pub blocking_items : List ReadinessItem → List ReadinessItem
blocking_items = keep (λ i. get_or i.blocking false && not i.ready)

abbrev is : Option Bool → Bool → Bool
is none b = false
is (some true) b = b
is (some false) b = not b

abbrev pub confirmed : VerificationRow → Bool
confirmed r = opt_is r.verdict "confirmed_fixed"

-- `r.get("pre_passed") is False`: a missing value is no evidence.
abbrev pub went_red : VerificationRow → Bool
went_red r = is r.pre_passed false

abbrev pub went_green : VerificationRow → Bool
went_green r = is r.post_passed true

abbrev red_verdict_of : Option FrozenRow → Option String
red_verdict_of none = none
red_verdict_of (some f) = f.red_verdict

abbrev pub red_ran : Option FrozenRow → List VerificationRow → Bool
red_ran frozen rows = opt_is (red_verdict_of frozen) "reproduced" || any went_red rows

unfoldable pub derive_execution_state :
    List ReadinessItem → Option FrozenRow → List VerificationRow → ExecutionState
derive_execution_state items frozen rows =
    if any confirmed rows
    then confirmed_fixed
    else if red_ran frozen rows
    then reproduced
    else if is_empty (blocking_items items)
    then ready
    else draft

pub data NextAction : Type 0 where
  resolve : Option ReadinessItem → NextAction
  run_it hand_over nothing_left : NextAction

pub record ExecutionSummary : Type 0 where
  pub execution_state : ExecutionState
  pub next_action : NextAction
  pub blockers : List ReadinessItem
  pub red_ran : Bool
  pub green_ran : Bool
  pub frozen : Bool
  pub frozen_red_verdict : Option String
  pub evidence_grade : Option String

abbrev pub grades_of : List VerificationRow → List String
grades_of [] = []
grades_of (r ∷ rows) =
    let rest = grades_of rows in
    elim r.evidence_grade [ none ↦ rest | some g ↦ if str_eq g "" then rest else g ∷ rest ]

abbrev next_action_of : ExecutionState → List ReadinessItem → NextAction
next_action_of draft items = resolve (head? items)
next_action_of ready items = run_it
next_action_of reproduced items = hand_over
next_action_of confirmed_fixed items = nothing_left

unfoldable pub execution_summary :
    List ReadinessItem → Option FrozenRow → List VerificationRow → ExecutionSummary
execution_summary items frozen rows =
    let state = derive_execution_state items frozen rows in
    let grades = grades_of rows in
    record {
      execution_state = state;
      next_action = next_action_of state (blocking_items items);
      blockers = blocking_items items;
      red_ran = red_ran frozen rows;
      green_ran = any went_green rows;
      frozen = is_some frozen;
      frozen_red_verdict = red_verdict_of frozen;
      evidence_grade =
          if contains "measured" grades
          then some "measured"
          else if contains "signed" grades
          then some "signed"
          else if is_empty grades
          then none
          else some "asserted";
    }
