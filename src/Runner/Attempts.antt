-- ===== src/Runner/Attempts.antt =====
-- When `derive_verdict` of runner.py gives each of its answers.
use stepstitch.Prelude.{
  ◌≡◌, refl, ◌↔◌, ◌≢◌, Bool, true, false, not, ◌&&◌, ◌||◌, List, [], ◌∷◌, arith, any, all, is_empty,
}
use stepstitch.Runner.{reproduced, needs_setup, not_reproduced, RunAttempt, failed, derive_verdict}

-- A run that reached the end of the test.
abbrev pub ran : RunAttempt → Bool
ran a = not a.errored && not a.timed_out

abbrev pub red : RunAttempt → Bool
red a = ran a && not a.passed

abbrev pub green : RunAttempt → Bool
green a = ran a && a.passed

all-red :
    (xs : List RunAttempt)
    → all red xs ≡ (
        not (any (λ a. a.errored) xs)
        && not (any (λ a. a.timed_out) xs)
        && not (any (λ a. a.passed) xs))
all-red [] = refl
all-red (x ∷ xs) = ground (arith, all-red xs)

all-green :
    (xs : List RunAttempt)
    → all green xs
      ≡ (not (any (λ a. a.errored) xs) && not (any (λ a. a.timed_out) xs) && not (any failed xs))
all-green [] = refl
all-green (x ∷ xs) = ground (arith, all-green xs)

some_outcome :
    (xs : List RunAttempt) → is_empty xs ≡ false → (any (λ a. a.passed) xs || any failed xs) ≡ true
some_outcome [] h = cc
some_outcome (x ∷ xs) h = ground arith

-- "Reproduced" is answered exactly when there is a run and every run reached the end of the test
-- and failed it; "not reproduced" exactly when there is a run and every run reached the end and
-- passed; "needs setup" is never answered here.
pub derive_verdict_exact :
    (xs : List RunAttempt)
    → (((derive_verdict xs).0 ≡ reproduced) ↔ ((is_empty xs ≡ false) × (all red xs ≡ true)))
      × (((derive_verdict xs).0 ≡ not_reproduced) ↔ ((is_empty xs ≡ false) × (all green xs ≡ true)))
      × ((derive_verdict xs).0 ≢ needs_setup)
unfolding derive_verdict
derive_verdict_exact xs = ground (arith, all-red xs, all-green xs, some_outcome xs)
