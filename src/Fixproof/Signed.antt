-- ===== src/Fixproof/Signed.antt =====
-- What is signed by the host's key verifies under a policy that trusts it.
use stepstitch.Prelude.{
  ◌>>=◌, sym, refl, length, ◌≡◌, ℕ, zero, suc, ◌*◌, [], ◌∷◌, ap, arith, none, some, Option, String,
  true, Bool-cases, inl, inr, str_eq, Result, ok, eq_iff,
}
use stepstitch.Fixproof.Signing.{
  content_at, signature_object, seed_of, make_ed25519_signer, load_signing_seed, seed_in,
}
use stepstitch.Fixproof.Policy.{
  verifies, signature_text, check_by_key, decode_hex, Anchors, lookup_anchor, check_signature,
}
use stepstitch.Ed25519.Points.{Bytes}
use stepstitch.Ed25519.Keys.{sign, verify, SeedError, is_usable_public_key}
use stepstitch.Fixproof.{str, String, Option, ℕ, Crypto}
use stepstitch.Prelude.Text.{Text, codes}
use stepstitch.Json.{lookup, obj, Fields}

length-decode_hex : (n : ℕ) (s : Text) → length s ≡ n * 2 → length (decode_hex s) ≡ n
unfolding decode_hex
length-decode_hex zero [] h = refl
length-decode_hex (suc n) [] h = absurd (omega arith)
length-decode_hex n (c ∷ []) h = absurd (omega arith)
length-decode_hex zero (c ∷ d ∷ s) h = absurd (omega arith)
length-decode_hex (suc n) (c ∷ d ∷ s) h = ap suc (length-decode_hex n s (omega arith))

length-seed_in : (r : Option Text) {seed : Bytes} → seed_in r ≡ some seed → length seed ≡ 32
length-seed_in none h = cc
length-seed_in (some s) h = ground (arith, length-decode_hex 32 s)

module _ (strip lower : String → String) (read : String → Option String) where
  length-seed_of :
      (text : String) {seed : Bytes} → seed_of strip lower read text ≡ some seed → length seed ≡ 32
  length-seed_of text {seed} h = ground (
    arith,
    length-seed_in (content_at strip lower read text) {seed = seed},
    length-decode_hex 32 (codes (lower text)),
  )

  -- A seed that is loaded has 32 bytes.
  length-load_signing_seed :
      (value : Option String) {seed : Bytes}
      → load_signing_seed strip lower read value ≡ some seed
      → length seed ≡ 32
  unfolding load_signing_seed
  length-load_signing_seed none h = length-seed_of (strip "") h
  length-load_signing_seed (some value) h = length-seed_of (strip value) h

signature_text-is :
    (c : Crypto) (key_id hex : String) → signature_text c (signature_object key_id hex) ≡ hex
unfolding lookup
signature_text-is c key_id hex = elim (Bool-cases (str_eq hex "")) [
  | inl e ↦ rw e (sym ((eq_iff hex "").0 e))
  | inr e ↦ rw e refl
]

check_by_key-known :
    (c : Crypto) (anchors : Anchors) (key_id : String) (message : Bytes) (d : Fields) {key : Bytes}
    → lookup_anchor key_id anchors ≡ some key
    → verifies c key message (c.from_hex (signature_text c d)) ≡ true
    → check_by_key c (str key_id) anchors message d ≡ ok true
unfolding check_by_key
check_by_key-known c anchors key_id message d known v = rw (check_by_key, known, v) refl

module _ (c : Crypto)
    (spelled : (seed message : Bytes)
      → length seed ≡ 32
      → c.from_hex (c.to_hex (c.library.sign_with seed message))
        ≡ some (c.library.sign_with seed message))
    (sized : (seed message : Bytes)
      → length seed ≡ 32
      → length (c.library.sign_with seed message) ≡ 64)
    (sound : (seed message : Bytes)
      → length seed ≡ 32
      → c.library.check (c.library.public_of seed) message (c.library.sign_with seed message)
        ≡ true) where
  verify-sign_with :
      (seed message : Bytes)
      → length seed ≡ 32
      → is_usable_public_key (c.library.public_of seed) ≡ true
      → verify c.library (c.library.public_of seed) message (c.library.sign_with seed message)
        ≡ true
  unfolding verify is_usable_public_key
  verify-sign_with seed message l usable =
      ground (arith, sized seed message l, sound seed message l)

  check_signature-signed :
      (anchors : Anchors) (key_id : String) (seed message : Bytes)
      → length seed ≡ 32
      → is_usable_public_key (c.library.public_of seed) ≡ true
      → lookup_anchor key_id anchors ≡ some (c.library.public_of seed)
      → check_signature c
          (obj (signature_object key_id (c.to_hex (c.library.sign_with seed message))))
          anchors
          message
        ≡ ok true
  unfolding check_signature check_by_key lookup
  check_signature-signed anchors key_id seed message l usable known =
      let hex = c.to_hex (c.library.sign_with seed message) in
      let read_back : c.from_hex (signature_text c (signature_object key_id hex))
          ≡ some (c.library.sign_with seed message) =
        rw (signature_text-is c key_id hex) (spelled seed message l) in
      check_by_key-known c anchors key_id message (signature_object key_id hex) known
        (rw read_back (verify-sign_with seed message l usable))

  -- With the seed that the host loads, the signer is made and signs every message, and its
  -- signature passes the check of every policy that trusts the seed's public key under the signer's
  -- key id, where that key is usable as an anchor.
  pub check_signature-make_ed25519_signer :
      (strip lower : String → String) (read : String → Option String) (value : Option String)
      (anchors : Anchors) (key_id : String) (seed message : Bytes)
      → load_signing_seed strip lower read value ≡ some seed
      → is_usable_public_key (c.library.public_of seed) ≡ true
      → lookup_anchor key_id anchors ≡ some (c.library.public_of seed)
      → (signer : Bytes → Result SeedError Fields) × (signature : Fields) × (make_ed25519_signer c
            seed key_id
          ≡ ok signer)
        × (signer message ≡ ok signature)
        × (check_signature c (obj signature) anchors message ≡ ok true)
  unfolding make_ed25519_signer sign
  check_signature-make_ed25519_signer strip lower read value anchors key_id seed message h usable
        known =
      let l = length-load_signing_seed strip lower read value h in
      let raw = c.library.sign_with seed message in
      let signer : Bytes → Result SeedError Fields = λ blob.
        sign c.library seed blob >>= λ signed. ok (signature_object key_id (c.to_hex signed)) in
      (
        signer,
        signature_object key_id (c.to_hex raw),
        rw l refl,
        rw l refl,
        check_signature-signed anchors key_id seed message l usable known,
      )
