-- ===== src/Fixproof/Signing.antt =====
-- The signatures that are made: `sign_statement` of fixproof.py, and host/signing.py, which loads
-- the key of the host and closes over it. `str.strip()` is the parameter `strip`, and `read` what
-- the file at a path holds, if it is a file that can be read.
use stepstitch.Prelude.{
  String, Bool, Option, none, some, ◌&&◌, all, length, ◌==◌, if◌then◌else◌, str_eq, Result, ok, err,
  ◌>>=◌,
}
use stepstitch.Prelude.Text.{Text, codes}
use stepstitch.Json.{str, Fields, end, field}
use stepstitch.Ed25519.Points.{Bytes}
use stepstitch.Ed25519.Keys.{SeedError, bad_seed, sign}
use stepstitch.Fixproof.{Crypto, is_hex}
use stepstitch.Fixproof.Policy.{decode_hex}

abbrev pub signature_object : String → String → Fields
signature_object key_id hex =
    field "algorithm" (str "ed25519")
      (field "key_id" (str key_id) (field "signature" (str hex) end))

module _ (c : Crypto) where
  -- The seed as bytes; a text is decoded first.
  unfoldable pub sign_statement : Fields → Bytes → String → Result SeedError Fields
  sign_statement statement seed key_id =
      sign c.library seed (c.canonical_bytes statement) >>= λ raw.
      ok (signature_object key_id (c.to_hex raw))

  -- What the signer that is returned does with a blob.
  unfoldable pub make_ed25519_signer :
      Bytes → String → Result SeedError (Bytes → Result SeedError Fields)
  make_ed25519_signer seed key_id =
      if length seed == 32
      then ok
          (λ blob. sign c.library seed blob >>= λ raw. ok (signature_object key_id (c.to_hex raw)))
      else err bad_seed

abbrev is_seed_hex : Text → Bool
is_seed_hex s = length s == 64 && all is_hex s

-- Where the value is no seed itself, a file may hold it.
abbrev pub seed_in : Option Text → Option Bytes
seed_in none = none
seed_in (some content) = if is_seed_hex content then some (decode_hex content) else none

module _ (strip : String → String) (lower : String → String) (read : String → Option String) where
  -- The content of the file, stripped and in lower case.
  abbrev pub content_at : String → Option Text
  content_at text = elim (read text) [ none ↦ none | some s ↦ some (codes (lower (strip s))) ]

  abbrev pub seed_of : String → Option Bytes
  seed_of text =
      if str_eq text ""
      then none
      else if is_seed_hex (codes (lower text))
      then some (decode_hex (codes (lower text)))
      else seed_in (content_at text)

  unfoldable pub load_signing_seed : Option String → Option Bytes
  load_signing_seed none = seed_of (strip "")
  load_signing_seed (some value) = seed_of (strip value)
