-- ===== src/Ed25519/Loop.antt =====
-- What the double-and-add loop of _ed25519.py computes, and the rounds it takes.
use mathlib.Core.Logic.{dif_pos, dif_neg}
use mathlib.Core.WellFounded.{Acc}
use native.Mathlib.Bridge.{le_prop}
use native.Mathlib.Decide.{dec_lt}
use native.Mathlib.Nat.{div-div-eq-div-mul, zero-div, div-one}
use Prim.Native.Nat.{◌^◌}
use native.Mathlib.Numerals.{unary_clauses}
use stepstitch.Prelude.{
  ℕ, zero, suc, ◌/◌, ◌%◌, ◌*◌, ◌<◌, ◌≡◌, refl, sym, ◌∙◌, arith, ◌==◌, if◌then◌else◌,
}
use stepstitch.Ed25519.Points.{Point, add, identity, scalar_mult, by_bits, lt_wf}

power_suc : (n : ℕ) → 2 ^ suc n ≡ 2 * 2 ^ n
power_suc n = simp unary_clauses (omega arith)

halved_small : (n e : ℕ) → e < 2 ^ suc n → e / 2 < 2 ^ n
halved_small n e h = omega (arith, power_suc n)

module _ {ℓ} {A : Type ℓ} (times : A → A → A) where
  -- `p` doubled `i` times.
  unfoldable pub doubled : ℕ → A → A
  doubled zero p = p
  doubled (suc i) p = doubled i (times p p)

  -- `p` doubled `i` times is taken exactly where bit `i` of `e` is set, for `i` from 0 to `n - 1`.
  unfoldable pub sum_bits : ℕ → ℕ → A → A → A
  sum_bits zero e p q = q
  sum_bits (suc n) e p q =
      let rest = sum_bits n e p q in if e / 2 ^ n % 2 == 1 then times rest (doubled n p) else rest

  sum_bits-halve :
      (n e : ℕ) (p q : A)
      → sum_bits (suc n) e p q
        ≡ sum_bits n (e / 2) (times p p) (if e % 2 == 1 then times q p else q)
  unfolding sum_bits doubled
  sum_bits-halve zero e p q = rw (div-one e) refl
  sum_bits-halve (suc n) e p q =
      let halved : e / 2 / 2 ^ n ≡ e / 2 ^ suc n =
        rw (div-div-eq-div-mul e 2 (2 ^ n), power_suc n) refl in
      rw (halved, ← sum_bits-halve n e p q) refl

  sum_bits-zero : (n : ℕ) (p q : A) → sum_bits n 0 p q ≡ q
  unfolding sum_bits
  sum_bits-zero zero p q = refl
  sum_bits-zero (suc n) p q = rw (zero-div (2 ^ n)) (sum_bits-zero n p q)

  pub by_bits-sum_bits :
      (n e : ℕ) (w : Acc ◌<◌ e) (p q : A) → e < 2 ^ n → by_bits times p q e w ≡ sum_bits n e p q
  unfolding by_bits sum_bits
  by_bits-sum_bits zero e (Acc.intro _ smaller) p q h =
      let none_left : ¬ 0 < e = omega arith in rw (dif_neg (dec_lt 0 e) none_left) refl
  by_bits-sum_bits (suc n) e (Acc.intro _ smaller) p q h = elim (dec_lt 0 e) [
    | no z ↦
        let done : e ≡ 0 = omega arith in
        rw (dif_neg (dec_lt 0 e) z) (rw done (sym (sum_bits-zero (suc n) p q)))
    | yes s ↦ rw (dif_pos (dec_lt 0 e) le_prop s) (
        by_bits-sum_bits n (e / 2) (smaller _ _) _ _ (halved_small n e h)
        ∙ sym (sum_bits-halve n e p q))
  ]

-- The loop ends: with `n` the number of bits of `e`, its result is the sum of the doublings of the
-- point that the bits of `e` name, lowest first, whichever way the points are added.
pub scalar_mult-sum_bits :
    (n e : ℕ) (p : Point) → e < 2 ^ n → scalar_mult p e ≡ sum_bits add n e p identity
unfolding scalar_mult
scalar_mult-sum_bits n e p h = by_bits-sum_bits add n e (lt_wf.apply e) p identity h
