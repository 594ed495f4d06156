-- ===== src/Execution/States.antt =====
-- What the execution state of execution.py means, and that measurements are never undone.
use stepstitch.Prelude.{
  ◌≢◌, ◌⊎◌, ℕ, ◌≤◌, ◌≡◌, ◌↔◌, true, false, Option, List, ◌++◌, arith, is_empty, any, any-append,
  head?,
}
use stepstitch.Runner.Run.{ReadinessItem}
use stepstitch.Execution.{
  is_some, ExecutionState, draft, ready, reproduced, confirmed_fixed, VerificationRow, FrozenRow,
  confirmed, went_red, derive_execution_state, execution_summary, resolve,
}

-- The order of the states, worst to best.
abbrev pub rank : ExecutionState → ℕ
rank draft = 0
rank ready = 1
rank reproduced = 2
rank confirmed_fixed = 3

-- Each state has its own evidence: a confirmed row; else a red run that was frozen or reported;
-- else, with nothing run, whether an unready item blocks. A draft names its first blocker.
pub execution_summary_exact :
    (items : List ReadinessItem) (frozen : Option FrozenRow) (rows : List VerificationRow)
    → let s = execution_summary items frozen rows in
      ((s.execution_state ≡ confirmed_fixed) ↔ (any confirmed rows ≡ true))
      × ((s.execution_state ≡ reproduced) ↔ ((any confirmed rows ≡ false) × (s.red_ran ≡ true)))
      × ((s.execution_state ≡ draft)
          ↔ ((any confirmed rows ≡ false) × (s.red_ran ≡ false) × (is_empty s.blockers ≡ false)))
      × ((s.execution_state ≢ draft)
          ⊎ ((is_some (head? s.blockers) ≡ true) × (s.next_action ≡ resolve (head? s.blockers))))
unfolding execution_summary derive_execution_state
execution_summary_exact items frozen rows = ground arith

-- Once the state is `reproduced` or `confirmed_fixed`, with the same frozen row neither a change of the
-- configuration nor rows that are added before and after those that are there lower it.
pub derive_execution_state_monotone :
    (items items' : List ReadinessItem) (frozen : Option FrozenRow)
    (newer rows older : List VerificationRow)
    → 2 ≤ rank (derive_execution_state items frozen rows)
    → rank (derive_execution_state items frozen rows)
      ≤ rank (derive_execution_state items' frozen (newer ++ rows ++ older))
unfolding derive_execution_state
derive_execution_state_monotone items items' frozen newer rows older h = ground (
  arith,
  any-append confirmed newer rows,
  any-append confirmed (newer ++ rows) older,
  any-append went_red newer rows,
  any-append went_red (newer ++ rows) older,
)
