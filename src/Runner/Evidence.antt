-- ===== src/Runner/Evidence.antt =====
-- What an answer of `run_reproduction` in runner.py says about the child processes that ran.
use stepstitch.Prelude.{
  ◌∙◌, sym, ap, ◌⊎◌, inr, inl, ℕ, zero, suc, ◌≡◌, ◌≢◌, refl, Bool, true, false, some, List, [], ◌∷◌,
  arith, all, is_empty, ok,
}
use stepstitch.Prelude.Int.{ℤ, is_zero}
use stepstitch.Prelude.Text.{Text}
use stepstitch.Runner.{reproduced, RunAttempt, derive_verdict}
use stepstitch.Runner.Attempts.{red, derive_verdict_exact}
use stepstitch.Prelude.{any, false, length}
use stepstitch.Prelude.Text.{is_infix, codes}
use stepstitch.Runner.Classify.{never_ran_markers}
use stepstitch.Runner.Summaries.{IsSummary, classify_run_exact}
use stepstitch.Runner.Run.{
  refused_setup, Machine, Request, Outcome, completed, timeout_expired, file_not_found,
  ReproductionResult, attempt, run_loop, run_count, run_timeout, concluded, execute_runs,
  after_envelope, run_reproduction,
}

module _ (m : Machine) where
  -- The attempts are what the child processes came to, in order from the i-th on.
  abbrev pub Observed : ℕ → List RunAttempt → Type 0
  Observed i [] = Unit
  Observed i (a ∷ xs) =
      (m.execute i ≢ file_not_found) × (a ≡ attempt m i (m.execute i)) × Observed (suc i) xs

  -- The i-th child process and those after it ran the test to a summary and failed it.
  abbrev pub FailedFrom : ℕ → List RunAttempt → Type 0
  FailedFrom i [] = Unit
  FailedFrom i (a ∷ xs) =
      ((code : ℤ) × (output : Text) × (m.execute i ≡ completed code output)
        × (is_zero code ≡ false)
        × (any (λ w. is_infix (codes w) output) never_ran_markers ≡ false)
        × IsSummary m.chars output)
      × FailedFrom (suc i) xs

  run_loop_step :
      (t n i : ℕ) (a : RunAttempt) (xs : List RunAttempt) (c : Bool)
      → (run_loop m t (suc n) i).0 ≡ ok (a ∷ xs, c)
      → (m.execute i ≢ file_not_found)
        × (a ≡ attempt m i (m.execute i))
        × ((run_loop m t n (suc i)).0 ≡ ok (xs, c))
  unfolding run_loop
  run_loop_step t n i a xs c h = ground arith

  run_loop_goes : (t n i : ℕ) → (run_loop m t (suc n) i).0 ≢ ok ([], false)
  unfolding run_loop
  run_loop_goes t n i h = ground arith

  run_loop-Observed :
      (t n i : ℕ) (xs : List RunAttempt) (c : Bool)
      → (run_loop m t n i).0 ≡ ok (xs, c)
      → Observed i xs
  unfolding run_loop
  run_loop-Observed t zero i [] c h = tt
  run_loop-Observed t zero i (a ∷ xs) c h = absurd (ground arith)
  run_loop-Observed t (suc n) i [] c h = tt
  run_loop-Observed t (suc n) i (a ∷ xs) c h =
      let (found, same, rest) = run_loop_step t n i a xs c h in
      (found, same, run_loop-Observed t n (suc i) xs c rest)

  -- Where no run was cancelled, as many ran as were asked for.
  run_loop_complete :
      (t n i : ℕ) (xs : List RunAttempt) → (run_loop m t n i).0 ≡ ok (xs, false) → length xs ≡ n
  unfolding run_loop
  run_loop_complete t zero i [] h = refl
  run_loop_complete t zero i (a ∷ xs) h = absurd (ground arith)
  run_loop_complete t (suc n) i [] h = absurd (run_loop_goes t n i h)
  run_loop_complete t (suc n) i (a ∷ xs) h =
      ap suc (run_loop_complete t n (suc i) xs (run_loop_step t n i a xs false h).2)

  all-head :
      (p : RunAttempt → Bool) (a : RunAttempt) (xs : List RunAttempt)
      → all p (a ∷ xs) ≡ true
      → p a ≡ true
  all-head p a xs h = ground arith

  red_attempt :
      (i : ℕ) (o : Outcome)
      → o ≢ file_not_found
      → red (attempt m i o) ≡ true
      → (code : ℤ) × (output : Text) × (o ≡ completed code output)
        × (is_zero code ≡ false)
        × (any (λ w. is_infix (codes w) output) never_ran_markers ≡ false)
        × IsSummary m.chars output
  red_attempt i (completed code output) f h =
      let exact =
        (classify_run_exact m.chars (some code) output).1.0 (ground arith, ground arith) in
      (code, output, refl, exact.0, exact.1, exact.2)
  red_attempt i (timeout_expired output) f h = cc
  red_attempt i file_not_found f h = absurd (f refl)

  Observed-FailedFrom :
      (i : ℕ) (xs : List RunAttempt) → Observed i xs → all red xs ≡ true → FailedFrom i xs
  Observed-FailedFrom i [] o h = tt
  Observed-FailedFrom i (a ∷ xs) o h = (
    red_attempt i (m.execute i) o.0 (ap red (sym o.1) ∙ all-head red a xs h),
    Observed-FailedFrom (suc i) xs o.2 (ground arith),
  )

  -- A finished run is concluded from the loop, unless it was refused for its setup.
  run_reproduction_from_loop :
      (q : Request) (r : ReproductionResult)
      → (run_reproduction m q).0 ≡ ok r
      → (r ≡ refused_setup m q)
        ⊎ ((p : List RunAttempt × Bool) × ((run_loop m (run_timeout m q) (run_count m q) 0).0
              ≡ ok p)
            × (r ≡ concluded m q p))
  unfolding run_reproduction after_envelope execute_runs
  run_reproduction_from_loop q r h = ground arith

  concluded_reproduced :
      (q : Request) (xs : List RunAttempt) (c : Bool)
      → (concluded m q (xs, c)).verdict ≡ reproduced
      → (c ≡ false) × ((derive_verdict xs).0 ≡ reproduced)
  unfolding concluded
  concluded_reproduced q xs c h = ground arith

  evidence_of_loop :
      (q : Request) (xs : List RunAttempt) (c : Bool)
      → (run_loop m (run_timeout m q) (run_count m q) 0).0 ≡ ok (xs, c)
      → (concluded m q (xs, c)).verdict ≡ reproduced
      → (is_empty xs ≡ false) × (length xs ≡ run_count m q) × (c ≡ false) × FailedFrom 0 xs
  evidence_of_loop q xs c h v =
      let (ran_all, answer) = concluded_reproduced q xs c v in
      let (some_run, all_red) = (derive_verdict_exact xs).0.0 answer in
      (
        some_run,
        run_loop_complete (run_timeout m q) (run_count m q) 0 xs (rw ran_all at h),
        ran_all,
        Observed-FailedFrom 0 xs (run_loop-Observed (run_timeout m q) (run_count m q) 0 xs c h)
            all_red,
      )

  -- The answer "reproduced" rests on evidence: nothing was cancelled, as many runs are recorded as
  -- were asked for, within the limits, and at least one; and for each of them, in order, the child
  -- process exited with a code other than 0 and with a transcript that has a run summary and no
  -- marker of a run that never started.
  pub run_reproduction_reproduced :
      (q : Request) (r : ReproductionResult)
      → (run_reproduction m q).0 ≡ ok r
      → r.verdict ≡ reproduced
      → (is_empty r.runs ≡ false)
        × (length r.runs ≡ run_count m q)
        × (r.cancelled ≡ false)
        × FailedFrom 0 r.runs
  unfolding concluded
  run_reproduction_reproduced q r h v = elim (run_reproduction_from_loop q r h) [
    | inl setup ↦ absurd (ground arith)
    | inr ((xs, c), finished, same) ↦ rw same (evidence_of_loop q xs c finished (rw same at v))
  ]
