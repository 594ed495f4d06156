-- ===== src/Fixproof/Roundtrip.antt =====
-- A statement built by fixproof.py, wrapped and verified again.
use stepstitch.Prelude.{
  eq_iff, ap, inr, inl, Bool-cases, bind-eq-ok, ◌≡◌, refl, String, true, false, Option, none, some,
  ◌++◌, arith, ok, str_eq,
}
use stepstitch.Prelude.Text.{Text, codes, text_eq, text_eq_iff, codes-append}
use stepstitch.Json.{Json, bool, str, Fields, get, lookup}
use stepstitch.Evidence.{remove_prefix, prefix}
use stepstitch.Fixproof.{Crypto}
use stepstitch.Fixproof.Statement.{
  digest_of, subject_of, privacy_of, verifier_of, results_of, predicate_of, Inputs, statement_of,
  wrap, statement_sha256, build_fixproof_statement, verifier_kind, is_commit, opt_bool,
  commit_or_refuse,
}
use stepstitch.Fixproof.Verify.{check_integrity, parts_of, Parts}

not_empty : (s : String) {t : Text} → codes s ≡ codes "sha256:" ++ t → str_eq s "" ≡ false
not_empty s h = elim (Bool-cases (str_eq s "")) [
  | inl e ↦ absurd (cc (ap codes ((eq_iff s "").0 e), h))
  | inr e ↦ e
]

module _ (c : Crypto) where
  recorded_hash :
      (statement : Fields)
      → (str_eq (statement_sha256 c statement) "" ≡ false)
        × (text_eq (remove_prefix (codes (statement_sha256 c statement))) (codes (c.hex statement))
            ≡ true)
  recorded_hash statement =
      let spelled = codes-append "sha256:" (c.hex statement) in
      (
        not_empty (statement_sha256 c statement) spelled,
        rw spelled (
            unfold prefix remove_prefix in
            (text_eq_iff (codes (c.hex statement)) (codes (c.hex statement))).1 refl),
      )

  -- Whatever was built and wrapped is whole: its statement is found and hashes as recorded.
  pub check_integrity-wrap :
      (statement : Fields) (signature : Json)
      → check_integrity c (wrap c statement signature) ≡ ok statement
  unfolding check_integrity wrap lookup
  check_integrity-wrap statement signature =
      let (given, same) = recorded_hash statement in rw (given, same)

  parts-statement_of :
      (i : Inputs) (fixed base : Option String)
      → parts_of (statement_of c i fixed base)
        ≡ ok (record {
          predicate = predicate_of c i base;
          results = results_of c i;
          verifier = verifier_of c i;
          privacy = privacy_of c i;
          subject = subject_of c i fixed;
          digest = digest_of c fixed;
        })
  unfolding parts_of lookup
  parts-statement_of i fixed base = refl

  required_commit :
      (value fixed : Option String)
      → commit_or_refuse c value true ≡ ok fixed
      → (commit : String) × (fixed ≡ some commit) × (is_commit commit ≡ true)
  unfolding commit_or_refuse
  required_commit none fixed h = cc
  required_commit (some v) fixed h = elim (Bool-cases (is_commit (c.normalize v))) [
    | inl valid ↦ (c.normalize v, ground arith, valid)
    | inr other ↦ absurd (ground arith)
  ]

  -- A built statement reads back: wrapped, it is whole; its results are the outcomes that were
  -- measured, its verifier's kind is the one that the grade earns, and its commit is a full id.
  pub build-verify :
      (i : Inputs) (statement : Fields) (signature : Json)
      → build_fixproof_statement c i ≡ ok statement
      → (check_integrity c (wrap c statement signature) ≡ ok statement)
        × ((p : Parts) × (commit : String) × (parts_of statement ≡ ok p)
            × (get "pre_passed" p.results ≡ bool i.pre_passed)
            × (get "post_passed" p.results ≡ opt_bool i.post_passed)
            × (get "kind" p.verifier ≡ str (verifier_kind c i.evidence_grade))
            × (get "gitCommit" p.digest ≡ str commit)
            × (is_commit commit ≡ true))
  unfolding build_fixproof_statement lookup
  build-verify i statement signature h =
      let (fixed, ef, h1) = bind-eq-ok (commit_or_refuse c i.fixed_commit true) _ h in
      let (base, eb, h2) = bind-eq-ok (commit_or_refuse c i.base_commit false) _ h1 in
      let (commit, full, valid) = required_commit i.fixed_commit fixed ef in
      let same : statement_of c i fixed base ≡ statement = ground (arith, h2) in
      (
        check_integrity-wrap statement signature,
        (
          record {
            predicate = predicate_of c i base;
            results = results_of c i;
            verifier = verifier_of c i;
            privacy = privacy_of c i;
            subject = subject_of c i fixed;
            digest = digest_of c fixed;
          },
          commit,
          rw (← same) (parts-statement_of i fixed base),
          refl,
          refl,
          refl,
          rw full,
          valid,
        ),
      )
