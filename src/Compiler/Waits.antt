-- ===== src/Compiler/Waits.antt =====
-- What is asked of the order of waits and actions in a test that compiler.py emits.
use stepstitch.Prelude.{
  ℕ, ◌≡◌, refl, sym, ◌∙◌, inl, inr, Bool, true, false, ◌||◌, Option, none, some, List, [], ◌∷◌,
  ◌++◌, arith, ◌==◌, if◌then◌else◌, Bool-cases, all,
}
use stepstitch.Compiler.{
  ap, any, heading, go_to, click, fill_from_env, fill, Statement, expect_status, arm_wait,
  await_armed, wait_now,
}
use stepstitch.Compiler.Plain.{is_plain}

-- What happened so far: whether the step at hand has acted, and the number of the wait that is open.
abbrev pub Waits : Type 0
Waits = Bool × Option ℕ

abbrev pub is_act : Statement → Bool
is_act (go_to _) = true
is_act (click _) = true
is_act (fill_from_env _) = true
is_act (fill _ _) = true
is_act _ = false

-- A heading begins a step. A wait is armed where none is open and before the step acts, and what
-- is awaited is the open one; an answer is judged, or waited for after the fact, where none is open.
unfoldable pub step_wait : Waits → Statement → Option Waits
step_wait (acted, o) (heading _ _) = some (false, o)
step_wait (false, none) (arm_wait n _ _) = some (false, some n)
step_wait (true, none) (arm_wait _ _ _) = none
step_wait (acted, some _) (arm_wait _ _ _) = none
step_wait (acted, none) (await_armed _) = none
step_wait (acted, some k) (await_armed n) = if k == n then some (acted, none) else none
step_wait (acted, none) (wait_now _ _ _) = some (acted, none)
step_wait (acted, some _) (wait_now _ _ _) = none
step_wait (acted, none) (expect_status _ _ _) = some (acted, none)
step_wait (acted, some _) (expect_status _ _ _) = none
step_wait (acted, o) s = some (acted || is_act s, o)

unfoldable pub run_waits : Option Waits → List Statement → Option Waits
run_waits o [] = o
run_waits none (s ∷ ss) = none
run_waits (some w) (s ∷ ss) = run_waits (step_wait w s) ss

-- Nothing was out of order, and no wait is left open.
abbrev pub is_settled : Option Waits → Bool
is_settled none = false
is_settled (some (acted, none)) = true
is_settled (some (acted, some k)) = false

pub step_wait_plain :
    (acted : Bool) (o : Option ℕ) (s : Statement)
    → is_plain s ≡ true
    → step_wait (acted, o) s ≡ some (acted || is_act s, o)
unfolding step_wait
step_wait_plain a o (heading _ _) h = cc
step_wait_plain a o (arm_wait _ _ _) h = cc
step_wait_plain a o (await_armed _) h = cc
step_wait_plain a o (wait_now _ _ _) h = cc
step_wait_plain a o (expect_status _ _ _) h = cc
step_wait_plain a none _ h = refl
step_wait_plain a (some k) _ h = refl

pub or_assoc : (a b c : Bool) → ((a || b) || c) ≡ (a || (b || c))
or_assoc true b c = refl
or_assoc false b c = refl

pub or_false : (a : Bool) → (a || false) ≡ a
or_false true = refl
or_false false = refl

pub run_waits_plain :
    (acted : Bool) (o : Option ℕ) (xs : List Statement)
    → all is_plain xs ≡ true
    → run_waits (some (acted, o)) xs ≡ some (acted || any is_act xs, o)
unfolding run_waits
run_waits_plain a o [] h = rw (or_false a) refl
run_waits_plain a o (s ∷ xs) h = elim (Bool-cases (is_plain s)) [
  | inl e ↦ rw (step_wait_plain a o s e) (
      run_waits_plain (a || is_act s) o xs (ground (arith, h, e))
      ∙ ap (λ b. some (b, o)) (or_assoc a (is_act s) (any is_act xs)))
  | inr e ↦ ground (arith, h, e)
]

pub run_waits-none : (xs : List Statement) → run_waits none xs ≡ none
unfolding run_waits
run_waits-none [] = refl
run_waits-none (s ∷ xs) = refl

pub run_waits-append :
    (o : Option Waits) (xs ys : List Statement)
    → run_waits o (xs ++ ys) ≡ run_waits (run_waits o xs) ys
unfolding run_waits
run_waits-append o [] ys = refl
run_waits-append none (s ∷ xs) ys = sym (run_waits-none ys)
run_waits-append (some w) (s ∷ xs) ys = run_waits-append (step_wait w s) xs ys

-- What is in order from every settled state is so after anything that settles.
pub settle_then :
    (o : Option Waits) (ys : List Statement)
    → is_settled o ≡ true
    → ((a : Bool) → is_settled (run_waits (some (a, none)) ys) ≡ true)
    → is_settled (run_waits o ys) ≡ true
settle_then none ys h k = cc
settle_then (some (a, none)) ys h k = k a
settle_then (some (a, some n)) ys h k = cc

pub plain_settles :
    (a : Bool) (xs : List Statement)
    → all is_plain xs ≡ true
    → is_settled (run_waits (some (a, none)) xs) ≡ true
plain_settles a xs h = rw (run_waits_plain a none xs h) refl
