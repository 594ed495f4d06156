-- ===== src/Fixproof/Statement.antt =====
-- fixproof.py: `build_fixproof_statement`, `statement_sha256`, `sign_statement` and `wrap`.
use Prim.Native.String.{◌++◌ as glue}
use stepstitch.Prelude.{
  ◌==◌, ℕ, String, Bool, true, false, ◌&&◌, Option, none, some, str_eq, all, if◌then◌else◌, length,
  Result, ok, err, ◌>>=◌,
}
use stepstitch.Prelude.Int.{pos}
use stepstitch.Prelude.Text.{codes, starts_with}
use stepstitch.Json.{Json, null, bool, num, str, arr, obj, nil, cons, Fields, end, field}
use stepstitch.Evidence.{grade_at_least, measured}
use stepstitch.Fixproof.{Crypto, ProofError, value_error, is_hex}

pub record Inputs : Type 0 where
  pub trace_id : String
  pub subject_name : String
  pub fixed_commit : Option String
  pub base_commit : Option String
  pub fingerprint : Fields
  pub red_signature : String
  pub red_verdict : Option String
  pub frozen_test_sha256 : String
  pub frozen_at : Option String
  pub frozen_by : Option String
  pub envelope_sha256 : Option String
  pub envelope_schema_version : Option ℕ
  pub pre_passed : Bool
  pub post_passed : Option Bool
  pub verdict : String
  pub fix_ref : Option String
  pub fix_mechanism : Option String
  pub policy : String
  pub policy_sha256 : Option String
  pub scrub_status : Option String
  pub schema_status : Option String
  pub verifier_identity : String
  pub evidence_grade : String
  pub issued_at : String
  pub sdk_build : Option String

abbrev pub opt_str : Option String → Json
opt_str none = null
opt_str (some s) = str s

abbrev pub opt_bool : Option Bool → Json
opt_bool none = null
opt_bool (some b) = bool b

abbrev opt_num : Option ℕ → Json
opt_num none = null
opt_num (some n) = num (pos n)

-- `_prefixed`: a digest with its prefix, which is never put twice.
unfoldable pub prefixed : Option String → Option String
prefixed none = none
prefixed (some digest) =
    if starts_with (codes "sha256:") (codes digest)
    then some digest
    else some (glue "sha256:" digest)

abbrev pub is_commit : String → Bool
is_commit text = length (codes text) == 40 && all is_hex (codes text)

module _ (c : Crypto) where
  -- `_commit_or_refuse`.
  unfoldable pub commit_or_refuse : Option String → Bool → Result ProofError (Option String)
  commit_or_refuse none required = if required then err value_error else ok none
  commit_or_refuse (some value) required =
      if str_eq value ""
      then (if required then err value_error else ok none)
      else let text = c.normalize value in
        if is_commit text then ok (some text) else err value_error

  -- The kind of verifier is derived from the grade.
  unfoldable pub verifier_kind : String → String
  verifier_kind grade = elim (grade_at_least (some grade) measured) [
    | ok true ↦ "measured-by-host"
    | _ ↦ "asserted-by-caller"
  ]

  unfoldable pub structural_result : Option String → String
  structural_result none = "redaction_only"
  structural_result (some s) =
      if str_eq s "strict_schema_passed" then "structural_only" else "violations_dropped"

  abbrev pub commit_field : Option String → Json
  commit_field none = null
  commit_field (some base) = obj (field "gitCommit" (str base) end)

  abbrev pub failure_of : Inputs → Fields
  failure_of i = field "fingerprint" (obj i.fingerprint) (
      field "red_signature" (str i.red_signature) (field "red_verdict" (opt_str i.red_verdict) end))

  abbrev pub frozen_test_of : Inputs → Fields
  frozen_test_of i =
      field "sha256" (opt_str (prefixed (some i.frozen_test_sha256)))
        (field "frozen_at" (opt_str i.frozen_at) (field "frozen_by" (opt_str i.frozen_by) end))

  abbrev pub results_of : Inputs → Fields
  results_of i = field "pre_passed" (bool i.pre_passed) (
      field "post_passed" (opt_bool i.post_passed) (
        field "verdict" (str i.verdict) (
          field "fix_ref" (opt_str i.fix_ref)
            (field "fix_mechanism" (opt_str i.fix_mechanism) end))))

  abbrev pub privacy_of : Inputs → Fields
  privacy_of i = field "policy" (str i.policy) (
      field "policy_sha256" (opt_str (prefixed i.policy_sha256)) (
        field "scrub_status" (opt_str i.scrub_status) (
          field "schema_status" (opt_str i.schema_status)
            (field "structural_result" (str (structural_result i.schema_status)) end))))

  abbrev pub verifier_of : Inputs → Fields
  verifier_of i = field "identity" (str i.verifier_identity) (
      field "kind" (str (verifier_kind i.evidence_grade))
        (field "evidence_grade" (str i.evidence_grade) end))

  abbrev pub predicate_of : Inputs → Option String → Fields
  predicate_of i base = field "trace_id" (str i.trace_id) (
      field "base_commit" (commit_field base) (
        field "failure" (obj (failure_of i)) (
          field "frozen_test" (obj (frozen_test_of i)) (
            field "execution_envelope"
              (obj (
                field "sha256" (opt_str (prefixed i.envelope_sha256))
                  (field "schema_version" (opt_num i.envelope_schema_version) end)))
              (field "results" (obj (results_of i)) (
                field "privacy" (obj (privacy_of i)) (
                  field "verifier" (obj (verifier_of i)) (
                    field "issued_at" (str i.issued_at) (
                      field "sdk_build" (opt_str i.sdk_build) (
                        field "scope"
                          (str
                            "this reported failure, under this frozen test and envelope — not a claim of overall program correctness")
                          end))))))))))

  abbrev pub digest_of : Option String → Fields
  digest_of fixed = field "gitCommit" (opt_str fixed) end

  abbrev pub subject_of : Inputs → Option String → Fields
  subject_of i fixed =
      field "name" (str i.subject_name) (field "digest" (obj (digest_of fixed)) end)

  abbrev pub statement_of : Inputs → Option String → Option String → Fields
  statement_of i fixed base = field "_type" (str "https://in-toto.io/Statement/v1") (
      field "subject" (arr (cons (obj (subject_of i fixed)) nil)) (
        field "predicateType" (str "https://stepstitch.dev/attestation/fixproof/v2")
          (field "predicate" (obj (predicate_of i base)) end)))

  unfoldable pub build_fixproof_statement : Inputs → Result ProofError Fields
  build_fixproof_statement i = do
    fixed ← commit_or_refuse i.fixed_commit true
    base ← commit_or_refuse i.base_commit false
    ok (statement_of i fixed base)

-- The hash as it is recorded, with its prefix, and `wrap`: the document that is handed out.
module _ (c : Crypto) where
  abbrev pub statement_sha256 : Fields → String
  statement_sha256 statement = glue "sha256:" (c.hex statement)

  unfoldable pub wrap : Fields → Json → Fields
  wrap statement signature = field "schema" (str "stepstitch.fixproof/v2") (
      field "statement" (obj statement) (
        field "statement_sha256" (str (statement_sha256 statement))
          (field "signature" signature end)))
