-- ===== src/Fixproof.antt =====
-- service/stepstitch_service/fixproof.py: statements that bind a fix to its evidence, and their
-- verification against a policy. `Statement` builds them, `Policy` reads the trust anchors and the
-- signature, `Verify` is `verify_fixproof`.
-- The parameter `Crypto` stands for the hash, the signature library that `Ed25519.Keys` calls, and Python's `str.lower()`, `str.strip().lower()`, `str()`, `bytes.fromhex` and `bytes.hex`.
pub mod Statement
pub mod Policy
pub mod Verify
pub mod Checks
pub mod Soundness
pub mod Roundtrip
pub mod Signing
pub mod Signed
use stepstitch.Prelude.{
  ◌||◌, ◌&&◌, if◌then◌else◌, leb, ℕ, String, Bool, true, false, Option, none, some, List, [], ◌∷◌,
  Result, ok, err,
}
use stepstitch.Prelude.Text.{Text, codes, starts_with}
use stepstitch.Ed25519.Points.{Bytes}
use stepstitch.Ed25519.Keys.{Library}
use stepstitch.Json.{Json, str, obj, Fields, end, truthy}

pub record Crypto : Type 0 where
  pub canonical_bytes : Fields → Bytes
  pub hex : Fields → String
  pub normalize : String → String
  pub lower : String → String
  pub str_of : Json → String
  pub from_hex : String → Option Bytes
  pub to_hex : Bytes → String
  pub library : Library

-- `ValueError` for unusable input, `TamperError`, and what Python raises on a value of another
-- type than the code reads it as.
pub data ProofError : Type 0 where
  value_error tamper_error type_error : ProofError

-- `(v or {})`, on which the code then calls `.get`.
abbrev pub dict_of : Json → Result ProofError Fields
dict_of (obj d) = ok d
dict_of v = if truthy v then err type_error else ok end

-- `str(v)`.
abbrev pub text_of : Crypto → Json → String
text_of c (str s) = s
text_of c v = c.str_of v

abbrev pub is_hex : ℕ → Bool
is_hex c = (leb b'0' c && leb c b'9') || (leb b'a' c && leb c b'f')

abbrev pub mandatory_bindings : List String
mandatory_bindings =
    "subject.gitCommit" ∷ "base_commit" ∷ "failure.fingerprint" ∷ "failure.red_signature"
    ∷ "frozen_test.sha256" ∷ "execution_envelope.sha256" ∷ "privacy.policy_sha256"
    ∷ "privacy.structural_result" ∷ []

abbrev pub policy_keys : List String
policy_keys =
    "require_grade" ∷ "require_pre_red" ∷ "require_post_green" ∷ "require_signature"
    ∷ "trusted_keys" ∷ "require_bindings" ∷ "allowed_verifier_kinds" ∷ "allowed_verifier_identities"
    ∷ "require_privacy" ∷ "expected_head_sha" ∷ []
