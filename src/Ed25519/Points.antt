-- ===== src/Ed25519/Points.antt =====
-- The curve arithmetic of _ed25519.py, on numbers below the field's prime. A difference is taken
-- modulo the prime, as everything that uses one is. Bytes are numbers below 256.
use mathlib.Core.Logic.{dite}
use mathlib.Core.WellFounded.{Acc, WellFounded}
use native.Mathlib.Decide.{dec_lt}
use stepstitch.Prelude.{
  ℕ, zero, suc, ◌+◌, ◌-◌, ◌*◌, ◌/◌, ◌%◌, ◌<◌, Bool, not, ◌&&◌, Option, none, some, List, [], ◌∷◌,
  arith, leb, ◌==◌, if◌then◌else◌, length,
}
use Prim.Native.Nat.{◌^◌}

acc_below : (k n : ℕ) → n < k → Acc ◌<◌ n
acc_below zero n h = absurd (omega arith)
acc_below (suc k) n h = Acc.intro n (λ m below. acc_below k m (omega arith))

unfoldable pub lt_wf : WellFounded ◌<◌
unfolding acc_below
lt_wf = record { apply = λ n. acc_below (suc n) n (omega arith) }

-- `while e > 0: if e & 1: q = times(q, p); p = times(p, p); e >>= 1`.
unfoldable pub by_bits {ℓ} : {A : Type ℓ} → (A → A → A) → A → A → (e : ℕ) → Acc ◌<◌ e → A
by_bits times p q e (Acc.intro _ smaller) =
    dite (dec_lt 0 e)
      (λ h.
        by_bits times (times p p) (if e % 2 == 1 then times q p else q) (e / 2)
          (smaller (e / 2) (omega arith)))
      (λ _. q)

-- Python's `pow(b, e, m)`, for `m` above 1.
unfoldable pub pow_mod : ℕ → ℕ → ℕ → ℕ
unfolding by_bits lt_wf acc_below dec_lt
pow_mod b e m = by_bits (λ x y. x * y % m) b 1 e (lt_wf.apply e)

abbrev pub field_prime : ℕ
field_prime = 2 ^ 255 - 19

abbrev pub group_order : ℕ
group_order = 2 ^ 252 + 27742317777372353535851937790883648493

-- `a - b` modulo `m`.
abbrev pub minus : ℕ → ℕ → ℕ → ℕ
minus m a b = a + (m - b % m)

unfoldable pub curve_d : ℕ
curve_d = minus field_prime 0 (121665 * pow_mod 121666 (field_prime - 2) field_prime) % field_prime

unfoldable pub sqrt_m1 : ℕ
sqrt_m1 = pow_mod 2 ((field_prime - 1) / 4) field_prime

pub record Point : Type 0 where
  pub x : ℕ
  pub y : ℕ
  pub z : ℕ
  pub t : ℕ

abbrev pub identity : Point
identity = record { x = 0; y = 1; z = 1; t = 0 }

abbrev pub is_same : ℕ → ℕ → ℕ → Bool
is_same m a b = minus m a b % m == 0

-- The square of the x coordinate that the curve has at `y`.
unfoldable pub x_squared : ℕ → ℕ
x_squared y =
    minus field_prime (y * y) 1
    * pow_mod (curve_d * y * y + 1) (field_prime - 2) field_prime
    % field_prime

-- A root of `x2` if it has one: the first candidate, or that times the root of -1.
unfoldable pub root : ℕ → ℕ
root x2 =
    let r = pow_mod x2 ((field_prime + 3) / 8) field_prime in
    if is_same field_prime (r * r) x2 then r else r * sqrt_m1 % field_prime

-- `raise` is none.
abbrev pub signed_root : ℕ → ℕ → ℕ → Option ℕ
signed_root x2 r sign =
    if not (is_same field_prime (r * r) x2)
    then none
    else if r == 0 && sign == 1
    then none
    else if r % 2 == sign
    then some r
    else some (field_prime - r)

unfoldable pub recover_x : ℕ → ℕ → Option ℕ
recover_x y sign =
    if leb field_prime y then none else signed_root (x_squared y) (root (x_squared y)) sign

unfoldable pub add : Point → Point → Point
add p q =
    let a = minus field_prime p.y p.x * minus field_prime q.y q.x % field_prime in
    let b = (p.y + p.x) * (q.y + q.x) % field_prime in
    let c = 2 * p.t * q.t * curve_d % field_prime in
    let d = 2 * p.z * q.z % field_prime in
    let e = minus field_prime b a in
    let f = minus field_prime d c in
    let g = d + c in
    let h = b + a in
    record {
      x = e * f % field_prime;
      y = g * h % field_prime;
      z = f * g % field_prime;
      t = e * h % field_prime;
    }

unfoldable pub scalar_mult : Point → ℕ → Point
unfolding by_bits lt_wf acc_below dec_lt
scalar_mult p e = by_bits add p identity e (lt_wf.apply e)

abbrev pub Bytes : Type 0
Bytes = List ℕ

-- `int.from_bytes(data, "little")` and `int.to_bytes(n, count, "little")`.
unfoldable pub from_bytes : Bytes → ℕ
from_bytes [] = 0
from_bytes (b ∷ rest) = b + 256 * from_bytes rest

unfoldable pub to_bytes : ℕ → ℕ → Bytes
to_bytes zero n = []
to_bytes (suc count) n = n % 256 ∷ to_bytes count (n / 256)

-- The sign is put above the 255 bits of `y`, which is below the prime.
unfoldable pub compress : Point → Bytes
compress p =
    let zinv = pow_mod p.z (field_prime - 2) field_prime in
    let x = p.x * zinv % field_prime in
    let y = p.y * zinv % field_prime in to_bytes 32 (y + x % 2 * 2 ^ 255)

abbrev pub point_at : ℕ → Option ℕ → Option Point
point_at y none = none
point_at y (some x) = some (record { x = x; y = y; z = 1; t = x * y % field_prime })

unfoldable pub decompress : Bytes → Option Point
decompress bytes =
    let n = from_bytes bytes in
    let y = n % 2 ^ 255 in
    if length bytes == 32 then point_at y (recover_x y (n / 2 ^ 255)) else none

unfoldable pub equal : Point → Point → Bool
equal p q =
    is_same field_prime (p.x * q.z) (q.x * p.z) && is_same field_prime (p.y * q.z) (q.y * p.z)

unfoldable pub base_y : ℕ
base_y = 4 * pow_mod 5 (field_prime - 2) field_prime % field_prime

-- `_BASE`.
unfoldable pub base : Option Point
base = point_at base_y (recover_x base_y 0)
