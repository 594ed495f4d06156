-- ===== src/Ed25519/Curve.antt =====
-- What a point that _ed25519.py reads from its encoding satisfies.
use mathlib.Core.Logic.{dif_pos, dif_neg}
use mathlib.Core.Path.{subst}
use mathlib.Core.WellFounded.{Acc}
use native.Mathlib.Bridge.{le_prop}
use native.Mathlib.Decide.{dec_lt}
use native.Mathlib.Nat.{add-mul-mod_self_left, mod-lt, mod-add-mod, mod-eq_of_lt, mod-eq-sub-mod}
use Prim.Native.Nat.{◌^◌}
use stepstitch.Prelude.{
  [], ◌∷◌, none, some, Option, Bool, all, ltb, leb, length, none, ◌∷◌, Option, leb, ltb, length,
  all, Bool, ap, ℕ, ◌+◌, ◌-◌, ◌*◌, ◌/◌, ◌%◌, ◌<◌, ◌≤◌, ◌≡◌, refl, sym, ◌∙◌, arith, some, true,
  false, inl, inr, Bool-cases, ◌==◌, if◌then◌else◌,
}
use stepstitch.Ed25519.Points.{
  lt_wf, by_bits, pow_mod, Point, Bytes, field_prime, is_same, signed_root, root, x_squared,
  recover_x, point_at, decompress, from_bytes,
}

if_both {ℓ κ} :
    {A : Type ℓ} (P : A → Type κ) (b : Bool) {x y : A} → P x → P y → P (if b then x else y)
if_both P true h k = h
if_both P false h k = k

-- What the loop's running sum and its doublings keep.
pub by_bits-keeps {ℓ κ ι} :
    {A : Type ℓ} (P : A → Type κ) (Q : A → Type ι) (times : A → A → A)
    → ((a b : A) → P a → Q b → P (times a b))
    → ((a : A) → Q a → Q (times a a))
    → (p q : A) (e : ℕ) (w : Acc ◌<◌ e) → P q
    → Q p
    → P (by_bits times p q e w)
unfolding by_bits
by_bits-keeps P Q times made twice p q e (Acc.intro _ smaller) h k = elim (dec_lt 0 e) [
  | no z ↦ rw (dif_neg (dec_lt 0 e) z) h
  | yes s ↦ rw (dif_pos (dec_lt 0 e) le_prop s) (
      by_bits-keeps P Q times made twice (times p p) (if e % 2 == 1 then times q p else q) (e / 2)
        (smaller _ _) (if_both P (e % 2 == 1) (made q p h k) h) (twice p k))
]

pow_mod-lt : (b e m : ℕ) → 1 < m → pow_mod b e m < m
unfolding pow_mod
pow_mod-lt b e m h =
    by_bits-keeps (λ r. r < m) (λ r. 0 ≤ r) (λ x y. x * y % m) (λ x y _ _. omega arith)
      (λ x _. omega arith) b 1 e (lt_wf.apply e) h (omega arith)

pub pow_mod-one : (e m : ℕ) → 1 < m → pow_mod 1 e m ≡ 1
unfolding pow_mod
pow_mod-one e m h =
    let times_one : (x y : ℕ) → x ≡ 1 → y ≡ 1 → x * y % m ≡ 1 =
      λ x y one one'. rw (one, one') (mod-eq_of_lt h) in
    by_bits-keeps (λ r. r ≡ 1) (λ r. r ≡ 1) (λ x y. x * y % m) times_one
      (λ x one. times_one x x one one) 1 1 e (lt_wf.apply e) refl refl

only_multiple : (m s : ℕ) → 0 < s → s < m + m → s % m ≡ 0 → s ≡ m
only_multiple m s pos h z = elim (dec_lt s m) [
  | yes small ↦ absurd (omega (arith, z, mod-eq_of_lt small))
  | no large ↦
      let once : (s - m) % m ≡ s - m = mod-eq_of_lt (omega arith) in
      let less : s % m ≡ (s - m) % m = mod-eq-sub-mod (omega arith) in omega (arith, z)
]

eq_of : {n m : ℕ} → (n == m) ≡ true → n ≡ m
eq_of h = ground arith

is_same-mod : (m a b : ℕ) → 0 < m → is_same m a b ≡ true → a % m ≡ b % m
is_same-mod m a b pos h =
    let reduced : (a % m + (m - b % m)) % m ≡ 0 = mod-add-mod a m (m - b % m) ∙ eq_of h in
    ground (arith, mod-lt a pos, mod-lt b pos, only_multiple m (a % m + (m - b % m)))

square_sum : (k x : ℕ) → k * k + (k + x) * (2 * x) ≡ x * x + (k + x) * (k + x)
square_sum k x = grind arith

square_moved : (m x : ℕ) → x ≤ m → (m - x) * (m - x) + m * (2 * x) ≡ x * x + m * m
square_moved m x h =
    let split : m - x + x ≡ m = omega arith in
    subst (λ n. (m - x) * (m - x) + n * (2 * x) ≡ x * x + n * n) split (square_sum (m - x) x)

square_minus : (m x : ℕ) → x ≤ m → (m - x) * (m - x) % m ≡ x * x % m
square_minus m x h =
    sym (add-mul-mod_self_left ((m - x) * (m - x)) m (2 * x))
    ∙ ap (λ n. n % m) (square_moved m x h)
    ∙ add-mul-mod_self_left (x * x) m m

root-lt : (x2 : ℕ) → root x2 < field_prime
unfolding root
root-lt x2 = ground (arith, pow_mod-lt x2 ((field_prime + 3) / 8) field_prime (omega arith))

-- What the root is that `recover_x` returns.
record IsRoot (x2 sign x : ℕ) : Type 0 where
  below : x < field_prime
  squares : x * x % field_prime ≡ x2 % field_prime
  parity : x % 2 ≡ sign

signed_root-IsRoot :
    (x2 r sign x : ℕ)
    → r < field_prime
    → sign < 2
    → signed_root x2 r sign ≡ some x
    → IsRoot x2 sign x
signed_root-IsRoot x2 r sign x below bit h =
    ground (arith, is_same-mod field_prime (r * r) x2, square_minus field_prime r)

-- A point that is read from 32 bytes has the y coordinate that they spell below their top bit, which
-- is below the prime, and an x coordinate below the prime whose parity is the top bit and whose
-- square is the one that the curve has at that y; it is affine, and `t` is the product of the two.
abbrev pub IsOnCurve : Bytes → Point → Type 0
IsOnCurve bytes p =
    (length bytes ≡ 32)
    × (p.y ≡ from_bytes bytes % 2 ^ 255)
    × (p.y < field_prime)
    × (p.x < field_prime)
    × (p.x % 2 ≡ from_bytes bytes / 2 ^ 255)
    × (p.x * p.x % field_prime ≡ x_squared p.y % field_prime)
    × (p.z ≡ 1)
    × (p.t ≡ p.x * p.y % field_prime)

from_bytes-lt :
    (bytes : Bytes) → all (λ b. ltb b 256) bytes ≡ true → from_bytes bytes < 256 ^ length bytes
unfolding from_bytes
from_bytes-lt [] h = omega arith
from_bytes-lt (b ∷ bytes) h = ground (arith, from_bytes-lt bytes)

unless-eq-some {ℓ} :
    {A : Type ℓ} (b : Bool) (m : Option A) {x : A}
    → (if b then none else m) ≡ some x
    → (b ≡ false) × (m ≡ some x)
unless-eq-some true m h = cc
unless-eq-some false m h = (refl, h)

recover_x-IsRoot :
    (y sign : ℕ) {x : ℕ}
    → sign < 2
    → recover_x y sign ≡ some x
    → (y < field_prime) × IsRoot (x_squared y) sign x
unfolding recover_x
recover_x-IsRoot y sign {x} bit h =
    let x2 = x_squared y in
    let (small, signed) = unless-eq-some (leb field_prime y) (signed_root x2 (root x2) sign) h in
    (ground (arith, small), signed_root-IsRoot x2 (root x2) sign x (root-lt x2) bit signed)

top_bit-lt :
    (bytes : Bytes)
    → length bytes ≡ 32
    → all (λ b. ltb b 256) bytes ≡ true
    → from_bytes bytes / 2 ^ 255 < 2
top_bit-lt bytes l h =
    let small : from_bytes bytes < 256 ^ 32 =
      subst (λ n. from_bytes bytes < 256 ^ n) l (from_bytes-lt bytes h) in
    omega (arith, small)

point_at-some :
    (y : ℕ) (r : Option ℕ) {p : Point}
    → point_at y r ≡ some p
    → (r ≡ some p.x) × (p ≡ record { x = p.x; y = y; z = 1; t = p.x * y % field_prime })
point_at-some y none h = cc
point_at-some y (some x) h = (cc, cc)

unwrap :
    (bytes : Bytes) {p : Point}
    → decompress bytes ≡ some p
    → ((length bytes == 32) ≡ true)
      × (point_at
            (from_bytes bytes % 2 ^ 255)
            (recover_x (from_bytes bytes % 2 ^ 255) (from_bytes bytes / 2 ^ 255))
          ≡ some p)
unfolding decompress
unwrap bytes h = elim (Bool-cases (length bytes == 32)) [
  | inl long ↦ (long, sym (rw long refl) ∙ h)
  | inr short ↦ absurd (ground (arith, h, short))
]

pub decompress-IsOnCurve :
    (bytes : Bytes) {p : Point}
    → all (λ b. ltb b 256) bytes ≡ true
    → decompress bytes ≡ some p
    → IsOnCurve bytes p
decompress-IsOnCurve bytes {p} h d =
    let (long, found) = unwrap bytes d in
    let y = from_bytes bytes % 2 ^ 255 in
    let sign = from_bytes bytes / 2 ^ 255 in
    let (rooted, whole) = point_at-some y (recover_x y sign) found in
    let (small, is_root) = recover_x-IsRoot y sign (top_bit-lt bytes (eq_of long) h) rooted in
    rw whole (eq_of long, refl, small, is_root.below, is_root.parity, is_root.squares, refl, refl)
