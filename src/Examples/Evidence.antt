-- ===== src/Examples/Evidence.antt =====
-- Proof documents, bundles and execution states on concrete records (fixproof.py, evidence.py,
-- execution.py).
use stepstitch.Prelude.{
  ℕ, zero, suc, ◌≢◌, ◌≤◌, ◌≡◌, refl, String, true, false, none, some, List, [], ◌∷◌, ◌++◌, arith,
  Result, ok, err,
}
use stepstitch.Prelude.Text.{Text, codes, starts_with, text_eq, text_eq_iff}
use stepstitch.Json.{Json, bool, str, obj, Fields, end, field, get, lookup, is_true, is_false, keys}
use stepstitch.Evidence.{grade_at_least, remove_prefix, prefix, payload_of}
use stepstitch.Execution.{VerificationRow, derive_execution_state}
use stepstitch.Execution.States.{derive_execution_state_monotone, rank}
use stepstitch.Runner.Run.{ReadinessItem}
use stepstitch.Verdict.{derive_verdict}
use stepstitch.Ed25519.Points.{
  Bytes, from_bytes, decompress, recover_x, root, x_squared, pow_mod, sqrt_m1, curve_d, equal,
  scalar_mult, add,
}
use stepstitch.Ed25519.Keys.{is_usable_public_key, verify}
use stepstitch.Ed25519.Encoding.{IsPrimeOrder}
use stepstitch.Fixproof.{Crypto, ProofError, text_of}
use stepstitch.Fixproof.Policy.{
  Anchors, check_keys, trusted_keys_or_refuse, decode_anchors, decode_hex, lookup_anchor,
  check_by_key, check_signature, check_binding_names,
}
use stepstitch.Fixproof.Verify.{
  Outcome, Parts, passed, parts_of, binding_names, is_in, grade_of, commit_of, grade_check,
  signature_check, bindings_check, kind_check, identity_check, expected_head, collect, evaluate,
  check_integrity, verify_fixproof,
}
use stepstitch.Fixproof.Statement.{
  Inputs, build_fixproof_statement, wrap, prefixed, is_commit, commit_or_refuse, verifier_kind,
  structural_result, statement_of,
}
use stepstitch.Fixproof.Soundness.{verify_fixproof_sound}
use stepstitch.Fixproof.Roundtrip.{build-verify}

abbrev pub repeated : ℕ → ℕ → List ℕ
repeated zero b = []
repeated (suc n) b = b ∷ repeated n b

-- A hash and a signature library that answer the same for everything.
abbrev pub crypto : Crypto
crypto = record {
  canonical_bytes = λ d. 1 ∷ [];
  hex = λ d. "abc";
  normalize = λ s. s;
  lower = λ s. s;
  str_of = λ v. "";
  from_hex = λ s. some (repeated 64 0);
  to_hex = λ b. "00";
  library = record {
    public_of = λ seed. seed;
    sign_with = λ seed m. repeated 64 0;
    check = λ k m s. true;
  };
}

abbrev commit : String
commit = "0123456789abcdef0123456789abcdef01234567"

abbrev inputs : Inputs
inputs = record {
  trace_id = "t1";
  subject_name = "app";
  fixed_commit = some commit;
  base_commit = none;
  fingerprint = end;
  red_signature = "timeout";
  red_verdict = some "reproduced";
  frozen_test_sha256 = "aa";
  frozen_at = none;
  frozen_by = none;
  envelope_sha256 = some "bb";
  envelope_schema_version = some 3;
  pre_passed = false;
  post_passed = some true;
  verdict = "confirmed_fixed";
  fix_ref = none;
  fix_mechanism = none;
  policy = "default";
  policy_sha256 = some "cc";
  scrub_status = some "clean";
  schema_status = some "valid";
  verifier_identity = "ci";
  evidence_grade = "measured";
  issued_at = "2026-01-01";
  sdk_build = none;
}

abbrev statement : Fields
statement = statement_of crypto inputs (some commit) none

built : build_fixproof_statement crypto inputs ≡ ok statement
unfolding build_fixproof_statement commit_or_refuse
built = refl

abbrev signature : Json
signature = obj (
    field "algorithm" (str "ed25519")
      (field "key_id" (str "k1") (field "signature" (str "00") end)))

abbrev document : Fields
document = wrap crypto statement signature

abbrev public_key : String
public_key = "ed25519:5866666666666666666666666666666666666666666666666666666666666666"

abbrev policy : Fields
policy = field "require_pre_red" (bool true) (
    field "require_post_green" (bool true) (
      field "require_signature" (bool true) (
        field "require_grade" (str "measured") (
          field "trusted_keys" (obj (field "k1" (str public_key) end))
            (field "expected_head_sha" (str commit) end)))))

abbrev outcome : Result ProofError Outcome → Outcome
outcome (ok o) = o
outcome (err e) = []

verified :
    verify_fixproof crypto document policy none
    ≡ ok (outcome (verify_fixproof crypto document policy none))
unfolding verify_fixproof check_keys trusted_keys_or_refuse decode_anchors decode_hex lookup_anchor
    check_by_key check_signature check_binding_names parts_of binding_names grade_check
    signature_check bindings_check kind_check identity_check collect evaluate check_integrity wrap
    lookup keys verifier_kind grade_at_least remove_prefix prefix prefixed structural_result is_in
    is_usable_public_key decompress from_bytes recover_x root x_squared pow_mod sqrt_m1 curve_d
    equal scalar_mult add verify
verified = refl

all_passed : passed (outcome (verify_fixproof crypto document policy none)) ≡ true
unfolding passed verify_fixproof check_keys trusted_keys_or_refuse decode_anchors decode_hex
    lookup_anchor check_by_key check_signature check_binding_names parts_of binding_names
    grade_check signature_check bindings_check kind_check identity_check collect evaluate
    check_integrity wrap lookup keys verifier_kind grade_at_least remove_prefix prefix prefixed
    structural_result is_in is_usable_public_key decompress from_bytes recover_x root x_squared
    pow_mod sqrt_m1 curve_d equal scalar_mult add verify
all_passed = refl

verify_fixproof_sound_example :
    (found : Fields) × (p : Parts) × (anchors : Anchors) × (k : String) × (key : Bytes)
    × (raw : Bytes) × (get "statement" document ≡ obj found)
    × (remove_prefix (codes (text_of crypto (get "statement_sha256" document)))
        ≡ codes (crypto.hex found))
    × (parts_of found ≡ ok p)
    × (is_false (get "pre_passed" p.results) ≡ true)
    × (is_true (get "post_passed" p.results) ≡ true)
    × (grade_at_least (grade_of (get "evidence_grade" p.verifier)) "measured" ≡ ok true)
    × (commit_of crypto p ≡ crypto.normalize (text_of crypto (expected_head crypto policy none)))
    × (trusted_keys_or_refuse crypto policy ≡ ok anchors)
    × (lookup_anchor k anchors ≡ some key)
    × IsPrimeOrder key
    × (crypto.library.check key (crypto.canonical_bytes found) raw ≡ true)
unfolding lookup
verify_fixproof_sound_example =
    verify_fixproof_sound crypto document policy none "measured"
      (outcome (verify_fixproof crypto document policy none)) refl refl refl refl refl verified
      all_passed

abbrev altered : Fields
altered = field "statement" (obj end) (field "statement_sha256" (str "sha256:abd") end)

apart : (s t : Text) → text_eq s t ≡ false → s ≢ t
apart s t e h = ground (arith, (text_eq_iff s t).1 h, e)

other_hash :
    remove_prefix (codes (text_of crypto (get "statement_sha256" altered))) ≢ codes (crypto.hex end)
unfolding lookup remove_prefix prefix
other_hash =
    apart (remove_prefix (codes (text_of crypto (get "statement_sha256" altered))))
      (codes (crypto.hex end)) refl

build-verify_example :
    (check_integrity crypto (wrap crypto statement signature) ≡ ok statement)
    × ((p : Parts) × (c : String) × (parts_of statement ≡ ok p)
        × (get "pre_passed" p.results ≡ bool false)
        × (get "post_passed" p.results ≡ bool true)
        × (get "kind" p.verifier ≡ str (verifier_kind crypto "measured"))
        × (get "gitCommit" p.digest ≡ str c)
        × (is_commit c ≡ true))
build-verify_example = build-verify crypto inputs statement signature built

abbrev auth_item : ReadinessItem
auth_item = record { id = "auth"; ready = false; blocking = some true }

abbrev measured_fix : List VerificationRow
measured_fix =
    record {
      verdict = some "confirmed_fixed";
      pre_passed = some false;
      post_passed = some true;
      evidence_grade = some "measured";
    }
    ∷ []

high_rank : 2 ≤ rank (derive_execution_state [] none measured_fix)
unfolding derive_execution_state derive_verdict
high_rank = omega arith

derive_execution_state_monotone_example :
    rank (derive_execution_state [] none measured_fix)
    ≤ rank (derive_execution_state (auth_item ∷ []) none (measured_fix ++ measured_fix ++ []))
derive_execution_state_monotone_example =
    derive_execution_state_monotone [] (auth_item ∷ []) none measured_fix measured_fix [] high_rank

abbrev hex_text : Fields → Text
hex_text d = codes "abc"

abbrev no_text_of : Json → Text
no_text_of v = []

abbrev bundle : Fields
bundle = field "bundle_sha256" (str "sha256:abc") end

bare : starts_with prefix (hex_text (payload_of bundle)) ≡ false
unfolding prefix
bare = refl
