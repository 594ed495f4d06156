-- ===== src/Evidence/Grades.antt =====
-- How the grades of evidence.py are earned and compared.
use stepstitch.Prelude.{
  inr, inl, Bool-cases, ◌≡◌, ◌↔◌, ◌≢◌, String, Bool, true, false, Option, none, some, arith, ok,
  eq_iff, get_or, str_eq,
}
use stepstitch.Evidence.{asserted, measured, signed, grade_at_least, derive_grade}

-- A derived grade is at least "measured" exactly when StepStitch measured the outcome, and it is
-- "signed" exactly when moreover there is a signature: a signature alone earns nothing.
pub derive_grade_exact :
    (by_stepstitch : Bool) (signature : Option String)
    → (grade_at_least (some (derive_grade by_stepstitch signature)) measured ≡ ok by_stepstitch)
      × ((derive_grade by_stepstitch signature ≡ signed)
          ↔ ((by_stepstitch ≡ true) × (get_or signature "" ≢ "")))
unfolding derive_grade grade_at_least
derive_grade_exact true none = ground (arith, eq_iff measured signed)
derive_grade_exact false none = ground (arith, eq_iff asserted signed)
derive_grade_exact true (some s) = elim (Bool-cases (str_eq s "")) [
  | inl e ↦ rw e (ground (arith, eq_iff measured signed, eq_iff s ""))
  | inr e ↦ rw e (ground (arith, eq_iff s ""))
]
derive_grade_exact false (some s) = ground (arith, eq_iff asserted signed)

-- "At least as strong" is transitive: a grade that reaches another reaches whatever that one
-- reaches.
pub grade_at_least_trans :
    (g h k : String)
    → grade_at_least (some g) h ≡ ok true
    → grade_at_least (some h) k ≡ ok true
    → grade_at_least (some g) k ≡ ok true
unfolding grade_at_least
grade_at_least_trans g h k p q = ground arith
