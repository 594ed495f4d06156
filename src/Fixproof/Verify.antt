-- ===== src/Fixproof/Verify.antt =====
-- fixproof.py: `_binding_values`, `FixproofVerification` and `verify_fixproof`.
use Prim.Native.String.{String as Str}
use stepstitch.Prelude.{
  ◌||◌, String, Bool, true, false, not, ◌&&◌, Option, none, some, List, [], ◌∷◌, ◌++◌, str_eq, all,
  if◌then◌else◌, Result, ok, err, ◌>>=◌, ◌>>◌,
}
use stepstitch.Prelude.Text.{codes, text_eq, is_infix}
use stepstitch.Json.{
  Json, bool, str, arr, obj, Items, nil, cons, Fields, end, field, get, truthy, lookup, is_null,
  is_true, is_false, json_eq, keys,
}
use stepstitch.Evidence.{grade_at_least, remove_prefix}
use stepstitch.Fixproof.{
  Crypto, ProofError, value_error, tamper_error, type_error, dict_of, text_of, mandatory_bindings,
}
use stepstitch.Fixproof.Policy.{
  Anchors, check_keys, trusted_keys_or_refuse, check_signature, check_binding_names,
}

pub data Check : Type 0 where
  require_grade require_pre_red require_post_green require_signature require_bindings
        allowed_verifier_kinds allowed_verifier_identities require_privacy expected_head_sha :
      Check

abbrev pub Outcome : Type 0
Outcome = List (Check × Bool)

-- `FixproofVerification.ok`.
unfoldable pub passed : Outcome → Bool
passed = all (λ c. c.1)

-- `(statement.get("subject") or [{}])[0]`, on which the code calls `.get`.
abbrev pub first_subject : Json → Result ProofError Fields
first_subject (arr (cons s _)) = as_dict s
  where
    as_dict : Json → Result ProofError Fields
    as_dict (obj d) = ok d
    as_dict _ = err type_error
first_subject v = if truthy v then err type_error else ok end

-- The parts of a statement that the checks read.
pub record Parts : Type 0 where
  pub predicate : Fields
  pub results : Fields
  pub verifier : Fields
  pub privacy : Fields
  pub subject : Fields
  pub digest : Fields

unfoldable pub parts_of : Fields → Result ProofError Parts
parts_of statement = do
  predicate ← dict_of (get "predicate" statement)
  results ← dict_of (get "results" predicate)
  verifier ← dict_of (get "verifier" predicate)
  privacy ← dict_of (get "privacy" predicate)
  subject ← first_subject (get "subject" statement)
  digest ← dict_of (get "digest" subject)
  ok (record {
    predicate = predicate;
    results = results;
    verifier = verifier;
    privacy = privacy;
    subject = subject;
    digest = digest;
  })

-- `_binding_values`.
unfoldable pub binding_values : Parts → Result ProofError Fields
binding_values p = do
  failure ← dict_of (get "failure" p.predicate)
  frozen ← dict_of (get "frozen_test" p.predicate)
  envelope ← dict_of (get "execution_envelope" p.predicate)
  base ← dict_of (get "base_commit" p.predicate)
  ok (
      field "subject.gitCommit" (get "gitCommit" p.digest) (
        field "base_commit" (get "gitCommit" base) (
          field "failure.fingerprint" (get "fingerprint" failure) (
            field "failure.red_signature" (get "red_signature" failure) (
              field "frozen_test.sha256" (get "sha256" frozen) (
                field "execution_envelope.sha256" (get "sha256" envelope) (
                  field "privacy.policy_sha256" (get "policy_sha256" p.privacy) (
                    field "privacy.structural_result" (get "structural_result" p.privacy)
                      end))))))))

unfoldable pub all_bound : List String → Fields → Bool
all_bound [] values = true
all_bound (n ∷ ns) values = truthy (get n values) && all_bound ns values

abbrev pub strings_of : Items → List String
strings_of nil = []
strings_of (cons (str s) xs) = s ∷ strings_of xs
strings_of (cons _ xs) = strings_of xs

abbrev pub chars_of : Str → List String
chars_of Str.[] = []
chars_of (Str.◌∷◌ c s) = Str.◌∷◌ c Str.[] ∷ chars_of s

-- `list(required_bindings)`, or all of them for `true`.
unfoldable pub binding_names : Json → Result ProofError (List String)
binding_names (bool true) = ok mandatory_bindings
binding_names (arr xs) = ok (strings_of xs)
binding_names (str s) = ok (chars_of s)
binding_names (obj d) = ok (keys d)
binding_names _ = err type_error

abbrev pub member_of : Json → Items → Bool
member_of v nil = false
member_of v (cons x xs) = json_eq v x || member_of v xs

abbrev pub key_in : Json → Fields → Result ProofError Bool
key_in (str k) d = elim (lookup k d) [ none ↦ ok false | some v ↦ ok true ]
key_in (arr _) d = err type_error
key_in (obj _) d = err type_error
key_in _ d = ok false

abbrev pub in_text : Json → String → Result ProofError Bool
in_text (str v) t = ok (is_infix (codes v) (codes t))
in_text _ t = err type_error

-- `v in allowed`.
unfoldable pub is_in : Json → Json → Result ProofError Bool
is_in v (arr xs) = ok (member_of v xs)
is_in v (obj d) = key_in v d
is_in v (str t) = in_text v t
is_in v _ = err type_error

abbrev pub grade_of : Json → Option String
grade_of (str g) = some g
grade_of _ = none

abbrev pub minimum_of : Json → String
minimum_of (str g) = g
minimum_of _ = ""

abbrev pub lift_grade {ℓ} : {A : Type ℓ} {E : Type 0} → Result E A → Result ProofError A
lift_grade (ok a) = ok a
lift_grade (err e) = err value_error

-- One named result, where the policy asks for it.
abbrev pub when : Bool → Check → Bool → Outcome
when asked check result = if asked then (check, result) ∷ [] else []

abbrev pub when_ok : Bool → Check → Result ProofError Bool → Result ProofError Outcome
when_ok asked check result = if asked then (result >>= λ b. ok ((check, b) ∷ [])) else ok []

abbrev pub privacy_checks : Fields → Fields → Outcome
privacy_checks end privacy = []
privacy_checks (field k want rest) privacy =
    (require_privacy, json_eq (get k privacy) want) ∷ privacy_checks rest privacy

module _ (c : Crypto) where
  -- `str((subject.get("digest") or {}).get("gitCommit") or "").lower()`
  abbrev pub commit_of : Parts → String
  commit_of p =
      let commit = get "gitCommit" p.digest in
      if truthy commit then c.lower (text_of c commit) else ""

  -- A check of the commit, where a head is expected.
  abbrev pub head_checks : Json → Parts → Outcome
  head_checks expected p =
      when (truthy expected) expected_head_sha
        (str_eq (commit_of p) (c.normalize (text_of c expected)))

  unfoldable pub grade_check : Fields → Parts → Result ProofError Outcome
  grade_check policy p =
      let minimum = get "require_grade" policy in
      when_ok (not (is_null minimum)) require_grade (
        lift_grade
          (grade_at_least (grade_of (get "evidence_grade" p.verifier)) (minimum_of minimum)))

  unfoldable pub signature_check : Fields → Anchors → Fields → Json → Result ProofError Outcome
  signature_check policy trusted statement signature =
      when_ok (truthy (get "require_signature" policy)) require_signature
        (check_signature c signature trusted (c.canonical_bytes statement))

  unfoldable pub bindings_check : Fields → Parts → Result ProofError Outcome
  bindings_check policy p =
      let required = get "require_bindings" policy in
      when_ok (truthy required) require_bindings (
        binding_names required >>= λ names.
        binding_values p >>= λ values. ok (all_bound names values))

  unfoldable pub kind_check : Fields → Parts → Result ProofError Outcome
  kind_check policy p =
      let kinds = get "allowed_verifier_kinds" policy in
      when_ok (not (is_null kinds)) allowed_verifier_kinds (is_in (get "kind" p.verifier) kinds)

  unfoldable pub identity_check : Fields → Parts → Result ProofError Outcome
  identity_check policy p =
      let identities = get "allowed_verifier_identities" policy in
      when_ok (not (is_null identities)) allowed_verifier_identities
        (is_in (get "identity" p.verifier) identities)

  abbrev pub expected_head : Fields → Option String → Json
  expected_head policy (some head) = str head
  expected_head policy none = get "expected_head_sha" policy

  -- The results in the order in which they are added.
  unfoldable pub collect :
      Fields
      → Option String
      → Parts
      → Fields
      → Outcome
      → Outcome
      → Outcome
      → Outcome
      → Outcome
      → Outcome
  collect policy head_sha p private graded signed bound kind identity =
      graded
      ++ (when (truthy (get "require_pre_red" policy)) require_pre_red
            (is_false (get "pre_passed" p.results))
          ++ (when (truthy (get "require_post_green" policy)) require_post_green
                (is_true (get "post_passed" p.results))
              ++ (signed
                  ++ (bound
                      ++ (kind
                          ++ (identity
                              ++ (privacy_checks private p.privacy
                                  ++ head_checks (expected_head policy head_sha) p)))))))

  -- The checks, in order, once the document is known to be whole.
  unfoldable pub evaluate :
      Fields → Anchors → Fields → Json → Option String → Result ProofError Outcome
  evaluate policy trusted statement signature head_sha = do
    p ← parts_of statement
    graded ← grade_check policy p
    signed ← signature_check policy trusted statement signature
    bound ← bindings_check policy p
    kind ← kind_check policy p
    identity ← identity_check policy p
    private ← dict_of (get "require_privacy" policy)
    ok (collect policy head_sha p private graded signed bound kind identity)

  -- Integrity before any question of policy.
  unfoldable pub check_integrity : Fields → Result ProofError Fields
  check_integrity document = elim (get "statement" document) [
    | obj statement ↦
        let recorded = get "statement_sha256" document in
        if truthy recorded
          && text_eq (remove_prefix (codes (text_of c recorded))) (codes (c.hex statement))
        then ok statement
        else err tamper_error
    | _ ↦ err tamper_error
  ]

  unfoldable pub verify_fixproof : Fields → Fields → Option String → Result ProofError Outcome
  verify_fixproof document policy head_sha = do
    check_keys policy
    trusted ← trusted_keys_or_refuse c policy
    check_binding_names (get "require_bindings" policy)
    statement ← check_integrity document
    evaluate policy trusted statement (get "signature" document) head_sha
