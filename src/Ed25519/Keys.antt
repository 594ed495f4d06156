-- ===== src/Ed25519/Keys.antt =====
-- The keys and signatures of _ed25519.py. What the signature library is asked for is the record
-- `Library`: `check` is true where the library's `verify` returns, and false where it raises
-- InvalidSignature or ValueError.
use stepstitch.Prelude.{
  Bool, false, not, ◌&&◌, ◌||◌, Option, none, some, ◌==◌, if◌then◌else◌, length, Result, ok, err,
}
use stepstitch.Ed25519.Points.{Bytes, Point, identity, group_order, decompress, equal, scalar_mult}

pub record Library : Type 0 where
  pub public_of : Bytes → Bytes
  pub sign_with : Bytes → Bytes → Bytes
  pub check : Bytes → Bytes → Bytes → Bool

abbrev pub has_prime_order : Option Point → Bool
has_prime_order none = false
has_prime_order (some point) =
    not (equal point identity) && equal (scalar_mult point group_order) identity

unfoldable pub is_usable_public_key : Bytes → Bool
is_usable_public_key public = length public == 32 && has_prime_order (decompress public)

-- `ValueError`.
pub data SeedError : Type 0 where
  bad_seed : SeedError

module _ (lib : Library) where
  unfoldable pub public_key : Bytes → Result SeedError Bytes
  public_key seed = if length seed == 32 then ok (lib.public_of seed) else err bad_seed

  unfoldable pub sign : Bytes → Bytes → Result SeedError Bytes
  sign seed message = if length seed == 32 then ok (lib.sign_with seed message) else err bad_seed

  unfoldable pub verify : Bytes → Bytes → Bytes → Bool
  verify public message signature =
      if not (length public == 32) || not (length signature == 64)
      then false
      else if not (is_usable_public_key public)
      then false
      else lib.check public message signature
