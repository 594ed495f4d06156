-- ===== src/Ed25519/Encoding.antt =====
-- The encoding of a point in _ed25519.py, back and forth, and what a key that the gate lets through is.
use Prim.Native.Nat.{◌^◌}
use native.Mathlib.Nat.{mod-eq_of_lt, mul-one}
use mathlib.Core.Path.{subst}
use stepstitch.Prelude.{
  ◌-◌, [], ◌∷◌, ◌+◌, ◌*◌, ◌/◌, ◌%◌, ◌≡◌, refl, Bool, true, false, Option, none, some, all, ltb,
  length, arith,
}
use stepstitch.Ed25519.Points.{
  Bytes, Point, identity, group_order, field_prime, add, equal, decompress, compress, from_bytes,
  to_bytes, pow_mod, scalar_mult,
}
use stepstitch.Ed25519.Keys.{Library, is_usable_public_key, has_prime_order, verify}
use stepstitch.Ed25519.Curve.{IsOnCurve, decompress-IsOnCurve, pow_mod-one}
use stepstitch.Ed25519.Loop.{sum_bits, scalar_mult-sum_bits}

abbrev pub are_bytes : Bytes → Bool
are_bytes = all (λ b. ltb b 256)

to_bytes-from_bytes :
    (bytes : Bytes) → are_bytes bytes ≡ true → to_bytes (length bytes) (from_bytes bytes) ≡ bytes
unfolding to_bytes from_bytes
to_bytes-from_bytes [] h = refl
to_bytes-from_bytes (b ∷ bytes) h =
    let low : (b + 256 * from_bytes bytes) % 256 ≡ b = ground arith in
    let high : (b + 256 * from_bytes bytes) / 256 ≡ from_bytes bytes = ground arith in
    rw (low, high, to_bytes-from_bytes bytes (ground (arith, h))) refl

-- An encoding is canonical: from the point that was read, `compress` gives back the 32 bytes that
-- it was read from.
pub compress-decompress :
    (bytes : Bytes) {p : Point}
    → are_bytes bytes ≡ true
    → decompress bytes ≡ some p
    → compress p ≡ bytes
unfolding compress
compress-decompress bytes {p} h d =
    let (long, at_y, small, below, parity, _, affine, _) = decompress-IsOnCurve bytes h d in
    let one : pow_mod p.z (field_prime - 2) field_prime ≡ 1 =
      rw affine (pow_mod-one _ _ (omega arith)) in
    let x_kept : p.x * 1 % field_prime ≡ p.x = rw (mul-one p.x) (mod-eq_of_lt below) in
    let y_kept : p.y * 1 % field_prime ≡ p.y = rw (mul-one p.y) (mod-eq_of_lt small) in
    let whole : p.y + p.x % 2 * 2 ^ 255 ≡ from_bytes bytes = omega (arith, at_y, parity) in
    rw (one, x_kept, y_kept, whole)
      (subst (λ n. to_bytes n (from_bytes bytes) ≡ bytes) long (to_bytes-from_bytes bytes h))

-- The key is the canonical encoding of a point on the curve that is not the identity and that the
-- group order takes to it.
abbrev pub IsPrimeOrder : Bytes → Type 0
IsPrimeOrder bytes =
    (p : Point) × IsOnCurve bytes p
    × (compress p ≡ bytes)
    × (equal p identity ≡ false)
    × (equal (sum_bits add 253 group_order p identity) identity ≡ true)

prime_order :
    (r : Option Point)
    → has_prime_order r ≡ true
    → (p : Point) × (r ≡ some p)
      × (equal p identity ≡ false)
      × (equal (scalar_mult p group_order) identity ≡ true)
prime_order none h = cc
prime_order (some p) h = (p, refl, ground arith, ground arith)

-- A key that passes the gate is such a key; that `add` is the group law is not proved.
pub is_usable_public_key-IsPrimeOrder :
    (bytes : Bytes)
    → are_bytes bytes ≡ true
    → is_usable_public_key bytes ≡ true
    → IsPrimeOrder bytes
unfolding is_usable_public_key
is_usable_public_key-IsPrimeOrder bytes h usable =
    let (p, read, other, order) = prime_order (decompress bytes) (ground (arith, usable)) in
    let ended = scalar_mult-sum_bits 253 group_order p (omega arith) in
    (
      p,
      decompress-IsOnCurve bytes h read,
      compress-decompress bytes h read,
      other,
      rw (← ended) order,
    )

-- The key is the canonical encoding of a point as `IsOnCurve` describes it, not the identity.
abbrev pub IsCanonicalKey : Bytes → Type 0
IsCanonicalKey bytes =
    (p : Point) × IsOnCurve bytes p × (compress p ≡ bytes) × (equal p identity ≡ false)

-- `verify` is true only for 64 bytes that the library takes for a signature of the message by the
-- key, and only where the key is the canonical encoding, as `compress` writes it, of a point other
-- than the identity: its coordinates are below the prime, y is what the key spells, and x has the
-- parity of the key's top bit and the square that `x_squared` gives for y.
pub verify-IsCanonicalKey :
    (lib : Library) (public message signature : Bytes)
    → are_bytes public ≡ true
    → verify lib public message signature ≡ true
    → (length signature ≡ 64) × (lib.check public message signature ≡ true) × IsCanonicalKey public
unfolding verify
verify-IsCanonicalKey lib public message signature h v =
    let usable : is_usable_public_key public ≡ true = ground (arith, v) in
    let (p, on_curve, canonical, other, _) = is_usable_public_key-IsPrimeOrder public h usable in
    (ground (arith, v), ground (arith, v), (p, on_curve, canonical, other))
