-- ===== src/Examples/Keys.antt =====
-- The keys and signatures of _ed25519.py and host/signing.py on concrete bytes: the base point's key,
-- and a signature library that answers the same for everything.
use stepstitch.Prelude.{
  [], ◌∷◌, ◌≡◌, refl, none, some, true, false, String, length, ok, Result, arith,
}
use stepstitch.Prelude.Text.{codes}
use stepstitch.Json.{Fields, obj}
use stepstitch.Ed25519.Points.{
  Bytes, Point, identity, base_y, base, add, from_bytes, decompress, recover_x, root, x_squared,
  pow_mod, sqrt_m1, curve_d, equal, scalar_mult,
}
use stepstitch.Ed25519.Loop.{sum_bits, scalar_mult-sum_bits}
use stepstitch.Ed25519.Encoding.{IsCanonicalKey, verify-IsCanonicalKey}
use stepstitch.Ed25519.Keys.{SeedError, is_usable_public_key, verify}
use stepstitch.Fixproof.{Crypto}
use stepstitch.Fixproof.Policy.{Anchors, decode_hex, lookup_anchor, check_signature}
use stepstitch.Fixproof.Signing.{load_signing_seed, make_ed25519_signer}
use stepstitch.Fixproof.Signed.{check_signature-make_ed25519_signer}
use stepstitch.Examples.Evidence.{crypto, repeated}

abbrev base_key : Bytes
base_key = 88 ∷ repeated 31 102

abbrev base_point : Point
base_point = record {
  x = 15112221349535400772501151409588531511454012693041857206046113283949847762202;
  y = 46316835694926478169428394003475163141307993866256225615783033603165251855960;
  z = 1;
  t = 46827403850823179245072216630277197565144205554125654976674165829533817101731;
}

base_read : decompress base_key ≡ some base_point
unfolding decompress from_bytes recover_x root x_squared pow_mod sqrt_m1 curve_d
base_read = refl

-- The key of the base point is the base point's.
base_is : base ≡ some base_point
unfolding base base_y recover_x root x_squared pow_mod sqrt_m1 curve_d
base_is = refl

base_usable : is_usable_public_key base_key ≡ true
unfolding is_usable_public_key decompress from_bytes recover_x root x_squared pow_mod sqrt_m1
    curve_d equal scalar_mult add
base_usable = refl

-- The key that verifies every message is turned down.
identity_refused : is_usable_public_key (1 ∷ repeated 31 0) ≡ false
unfolding is_usable_public_key decompress from_bytes recover_x root x_squared pow_mod sqrt_m1
    curve_d equal scalar_mult add
identity_refused = refl

scalar_mult-sum_bits_example :
    scalar_mult base_point 1000 ≡ sum_bits add 10 1000 base_point identity
scalar_mult-sum_bits_example = scalar_mult-sum_bits 10 1000 base_point (omega arith)

accepted : verify crypto.library base_key (1 ∷ repeated 3 2) (repeated 64 0) ≡ true
unfolding verify is_usable_public_key decompress from_bytes recover_x root x_squared pow_mod sqrt_m1
    curve_d equal scalar_mult add
accepted = refl

verify-IsCanonicalKey_example :
    (length (repeated 64 0) ≡ 64)
    × (crypto.library.check base_key (1 ∷ repeated 3 2) (repeated 64 0) ≡ true)
    × IsCanonicalKey base_key
verify-IsCanonicalKey_example =
    verify-IsCanonicalKey crypto.library base_key (1 ∷ repeated 3 2) (repeated 64 0) refl accepted

abbrev seed_text : String
seed_text = "9d61b19deffd5a60ba844af492ec2cc44449c5697b326919703bac031cae7f60"

-- A library whose every public key is the base point's.
abbrev signing : Crypto
signing = record crypto { library = record crypto.library { public_of = λ seed. base_key } }

abbrev trusting : Anchors
trusting = ("host", base_key) ∷ []

abbrev host_seed : Bytes
host_seed = decode_hex (codes seed_text)

seed_loaded : load_signing_seed (λ s. s) (λ s. s) (λ s. none) (some seed_text) ≡ some host_seed
unfolding load_signing_seed decode_hex
seed_loaded = refl

trusted : lookup_anchor "host" trusting ≡ some base_key
unfolding lookup_anchor
trusted = refl

check_signature-make_ed25519_signer_example :
    (signer : Bytes → Result SeedError Fields) × (signature : Fields) × (make_ed25519_signer signing
        host_seed "host"
      ≡ ok signer)
    × (signer (codes "message") ≡ ok signature)
    × (check_signature signing (obj signature) trusting (codes "message") ≡ ok true)
check_signature-make_ed25519_signer_example =
    check_signature-make_ed25519_signer signing (λ _ _ _. refl) (λ _ _ _. refl) (λ _ _ _. refl)
      (λ s. s) (λ s. s) (λ s. none) (some seed_text) trusting "host" host_seed (codes "message")
      seed_loaded base_usable trusted
