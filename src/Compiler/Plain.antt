-- ===== src/Compiler/Plain.antt =====
-- The statements of compiler.py that assert, and those that neither assert nor wait.
use stepstitch.Prelude.{
  ◌≡◌, refl, inl, inr, String, Bool, true, false, ◌||◌, List, [], ◌∷◌, ◌++◌, arith, str_eq,
  if◌then◌else◌, Bool-cases, all, count_if, eq_iff,
}
use stepstitch.Prelude.{count_if-append}
use stepstitch.Prelude.Text.{Text}
use stepstitch.Compiler.{
  heading, unsupported_step, Statement, expect_status, expect_no_exception, no_assertion, arm_wait,
  await_armed, wait_now,
}
use stepstitch.Compiler.Emit.{expected, judged}

abbrev pub is_status : Statement → Bool
is_status (expect_status _ _ _) = true
is_status _ = false

abbrev pub is_exception : Statement → Bool
is_exception (expect_no_exception _ _) = true
is_exception _ = false

abbrev pub is_nothing : Statement → Bool
is_nothing no_assertion = true
is_nothing _ = false

-- What neither asserts nor waits, and begins no step.
abbrev pub is_plain : Statement → Bool
is_plain (heading _ _) = false
is_plain (expect_status _ _ _) = false
is_plain (expect_no_exception _ _) = false
is_plain no_assertion = false
is_plain (arm_wait _ _ _) = false
is_plain (await_armed _) = false
is_plain (wait_now _ _ _) = false
is_plain _ = true

pub count_if_plain :
    (p : Statement → Bool) (ss : List Statement)
    → ((s : Statement) → is_plain s ≡ true → p s ≡ false)
    → all is_plain ss ≡ true
    → count_if p ss ≡ 0
count_if_plain p [] h a = refl
count_if_plain p (s ∷ ss) h a = ground (arith, h s, count_if_plain p ss h)

pub plain_status : (s : Statement) → is_plain s ≡ true → is_status s ≡ false
plain_status (expect_status _ _ _) h = cc
plain_status _ h = refl

pub plain_exception : (s : Statement) → is_plain s ≡ true → is_exception s ≡ false
plain_exception (expect_no_exception _ _) h = cc
plain_exception _ h = refl

pub plain_nothing : (s : Statement) → is_plain s ≡ true → is_nothing s ≡ false
plain_nothing no_assertion h = cc
plain_nothing _ h = refl

pub count_if_plain_append :
    (p : Statement → Bool) (xs ys : List Statement)
    → ((s : Statement) → is_plain s ≡ true → p s ≡ false)
    → all is_plain xs ≡ true
    → count_if p (xs ++ ys) ≡ count_if p ys
count_if_plain_append p xs ys h a = omega (arith, count_if-append p xs ys, count_if_plain p xs h a)

pub if_plain :
    (b : Bool) (t : Text) → all is_plain (if b then unsupported_step t ∷ [] else []) ≡ true
if_plain true t = refl
if_plain false t = refl

-- What stands around the matcher and the action is counted, and they are not.
pub around_action :
    (p : Statement → Bool)
    → ((s : Statement) → is_plain s ≡ true → p s ≡ false)
    → (lines acts : List Statement) → all is_plain lines ≡ true
    → all is_plain acts ≡ true
    → (before arm expected wait judged : Statement)
    → count_if p (before ∷ lines ++ arm ∷ acts ++ expected ∷ wait ∷ judged ∷ [])
      ≡ count_if p (before ∷ arm ∷ expected ∷ wait ∷ judged ∷ [])
around_action p h lines acts a b before arm expected wait judged = ground (
  arith,
  count_if-append p (before ∷ lines ++ arm ∷ acts) (expected ∷ wait ∷ judged ∷ []),
  count_if-append p (before ∷ lines) (arm ∷ acts),
  count_if_plain p lines h a,
  count_if_plain p acts h b,
)

pub action_apart :
    (k : String)
    → (str_eq k "navigation" || str_eq k "click" || str_eq k "input") ≡ true
    → (str_eq k "api_error" ≡ false) × (str_eq k "exception" ≡ false)
action_apart k h = elim (Bool-cases (str_eq k "navigation")) [
  | inl e ↦ rw ((eq_iff k "navigation").0 e) (refl, refl)
  | inr e ↦ elim (Bool-cases (str_eq k "click")) [
    | inl f ↦ rw ((eq_iff k "click").0 f) (refl, refl)
    | inr f ↦
        let last : str_eq k "input" ≡ true = ground (arith, h, e, f) in
        rw ((eq_iff k "input").0 last) (refl, refl)
  ]
]

pub error_apart : (k : String) → str_eq k "api_error" ≡ true → str_eq k "exception" ≡ false
error_apart k h = rw ((eq_iff k "api_error").0 h) refl
