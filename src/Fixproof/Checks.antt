-- ===== src/Fixproof/Checks.antt =====
-- What each check of verify_fixproof (fixproof.py) establishes where it passes.
use stepstitch.Prelude.{
  all, ◌∙◌, ap, inr, inl, ◌&&◌, bind-eq-ok, ◌≡◌, refl, String, Bool, true, not, Option, some, [],
  ◌∷◌, ◌++◌, arith, all-append, Result, ok, err, ◌>>=◌, Option-cases, Bool-cases, eq_iff,
}
use stepstitch.Prelude.Text.{drop, codes, text_eq_iff}
use stepstitch.Json.{Json, str, obj, Fields, end, field, get, truthy, is_true, is_false, is_str}
use stepstitch.Evidence.{EvidenceError, grade_at_least, remove_prefix}
use stepstitch.Ed25519.Encoding.{are_bytes, IsPrimeOrder, is_usable_public_key-IsPrimeOrder}
use stepstitch.Ed25519.Keys.{is_usable_public_key, verify}
use stepstitch.Ed25519.Points.{Bytes}
use stepstitch.Fixproof.{is_hex, Text, Crypto, ProofError, dict_of, text_of}
use stepstitch.Fixproof.Policy.{
  decode_hex, is_public_key, Anchors, lookup_anchor, decode_anchors, trusted_keys_or_refuse,
  check_by_key, check_signature, signature_text,
}
use stepstitch.Fixproof.Verify.{
  expected_head_sha, head_checks, privacy_checks, require_post_green, require_pre_red, collect,
  identity_check, kind_check, bindings_check, require_grade, require_signature, signature_check,
  grade_check, lift_grade, when_ok, when, Check, Outcome, passed, Parts, parts_of, grade_of,
  commit_of, expected_head, evaluate, check_integrity,
}

ok-injective :
    {out out' : Outcome} → ◌≡◌ {A = Result ProofError Outcome} (ok out) (ok out') → out ≡ out'
ok-injective h = cc

passed-append : (xs ys : Outcome) → passed (xs ++ ys) ≡ (passed xs && passed ys)
unfolding passed
passed-append xs ys = all-append (λ k. k.1) xs ys

passed_both : (xs ys : Outcome) → passed (xs ++ ys) ≡ true → (passed xs ≡ true) × (passed ys ≡ true)
passed_both xs ys h = ground (arith, passed-append xs ys)

-- The nine groups of checks, of which the first four and the last are read below.
passed_parts :
    (a b d e f g i j k : Outcome)
    → passed (a ++ (b ++ (d ++ (e ++ (f ++ (g ++ (i ++ (j ++ k)))))))) ≡ true
    → (passed a ≡ true)
      × (passed b ≡ true)
      × (passed d ≡ true)
      × (passed e ≡ true)
      × (passed k ≡ true)
passed_parts a b d e f g i j k h =
    let (pa, ha) = passed_both a _ h in
    let (pb, hb) = passed_both b _ ha in
    let (pd, hd) = passed_both d _ hb in
    let (pe, he) = passed_both e _ hd in
    let (_, hf) = passed_both f _ he in
    let (_, hg) = passed_both g _ hf in
    let (_, hi) = passed_both i _ hg in (pa, pb, pd, pe, (passed_both j k hi).1)

when_passed :
    (asked : Bool) (check : Check) (result : Bool)
    → asked ≡ true
    → passed (when asked check result) ≡ true
    → result ≡ true
unfolding passed
when_passed asked check result a h = ground arith

when_ok_passed :
    (asked : Bool) (check : Check) (result : Result ProofError Bool) (out : Outcome)
    → asked ≡ true
    → when_ok asked check result ≡ ok out
    → passed out ≡ true
    → result ≡ ok true
unfolding passed
when_ok_passed asked check result out a h p = ground arith

lift_grade_ok : (r : Result EvidenceError Bool) → lift_grade r ≡ ok true → r ≡ ok true
lift_grade_ok (ok b) h = ground arith
lift_grade_ok (err e) h = cc

decode_hex-are_bytes : (s : Text) → all is_hex s ≡ true → are_bytes (decode_hex s) ≡ true
unfolding decode_hex
decode_hex-are_bytes [] h = refl
decode_hex-are_bytes (c ∷ []) h = refl
decode_hex-are_bytes (c ∷ d ∷ s) h = ground (arith, decode_hex-are_bytes s)

decode_key-are_bytes :
    (text : String)
    → is_public_key text ≡ true
    → are_bytes (decode_hex (drop 8 (codes text))) ≡ true
decode_key-are_bytes text h = decode_hex-are_bytes (drop 8 (codes text)) (ground (arith, h))

module _ (c : Crypto) where
  decode_anchors_usable :
      (d : Fields) (anchors : Anchors) (k : String) (key : Bytes)
      → decode_anchors c d ≡ ok anchors
      → lookup_anchor k anchors ≡ some key
      → (is_usable_public_key key ≡ true) × (are_bytes key ≡ true)
  unfolding decode_anchors lookup_anchor
  decode_anchors_usable end anchors k key h l = ground arith
  decode_anchors_usable (field j v d) [] k key h l = cc
  decode_anchors_usable (field j v d) ((i, raw) ∷ anchors) k key h l =
      let text = c.normalize (text_of c v) in
      ground (arith, decode_anchors_usable d anchors k key, decode_key-are_bytes text)

  pub trusted_usable :
      (policy : Fields) (anchors : Anchors) (k : String) (key : Bytes)
      → trusted_keys_or_refuse c policy ≡ ok anchors
      → lookup_anchor k anchors ≡ some key
      → (is_usable_public_key key ≡ true) × IsPrimeOrder key
  unfolding trusted_keys_or_refuse
  trusted_usable policy anchors k key h l =
      let listed = get "trusted_keys" policy in
      elim (Bool-cases (truthy (get "require_signature" policy) && not (truthy listed))) [
        | inl unusable ↦ absurd (ground arith)
        | inr usable ↦
            let decoded : (dict_of listed >>= λ d. decode_anchors c d) ≡ ok anchors =
              ground arith in
            let (d, _, found) = bind-eq-ok (dict_of listed) (λ d. decode_anchors c d) decoded in
            let (usable, sized) = decode_anchors_usable d anchors k key found l in
            (usable, is_usable_public_key-IsPrimeOrder key sized usable)
      ]

  by_key :
      (key_id : Json) (trusted : Anchors) (message : Bytes) (d : Fields)
      → check_by_key c key_id trusted message d ≡ ok true
      → (k : String) × (key raw : Bytes) × (lookup_anchor k trusted ≡ some key)
        × (verify c.library key message raw ≡ true)
  unfolding check_by_key
  by_key (str k) trusted message d h = elim (Option-cases (lookup_anchor k trusted)) [
    | inl unknown ↦ absurd (ground arith)
    | inr (key, known) ↦ elim (Option-cases (c.from_hex (signature_text c d))) [
      | inl opaque ↦ absurd (ground arith)
      | inr (raw, decoded) ↦ (k, key, raw, known, ground arith)
    ]
  ]
  by_key _ trusted message d h = cc

  -- A signature that is accepted names a trusted key, and verifies under it.
  pub check_signature_accepted :
      (signature : Json) (trusted : Anchors) (message : Bytes)
      → check_signature c signature trusted message ≡ ok true
      → (k : String) × (key raw : Bytes) × (lookup_anchor k trusted ≡ some key)
        × (verify c.library key message raw ≡ true)
  unfolding check_signature
  check_signature_accepted (obj (field j v d)) trusted message h =
      elim (Bool-cases (is_str (get "algorithm" (field j v d)) "ed25519")) [
        | inl known ↦
            by_key (get "key_id" (field j v d)) trusted message (field j v d) (ground arith)
        | inr unknown ↦ absurd (ground arith)
      ]
  check_signature_accepted (obj end) trusted message h = cc
  check_signature_accepted _ trusted message h = cc

  pub check_integrity_whole :
      (document statement : Fields)
      → check_integrity c document ≡ ok statement
      → (get "statement" document ≡ obj statement)
        × (remove_prefix (codes (text_of c (get "statement_sha256" document)))
            ≡ codes (c.hex statement))
  unfolding check_integrity
  check_integrity_whole document statement h = ground (
    arith,
    text_eq_iff (remove_prefix (codes (text_of c (get "statement_sha256" document))))
        (codes (c.hex statement)),
  )

  graded_ok :
      (policy : Fields) (p : Parts) (grade : String) (out : Outcome)
      → get "require_grade" policy ≡ str grade
      → grade_check c policy p ≡ ok out
      → passed out ≡ true
      → grade_at_least (grade_of (get "evidence_grade" p.verifier)) grade ≡ ok true
  unfolding grade_check
  graded_ok policy p grade out m h ps =
      lift_grade_ok (grade_at_least (grade_of (get "evidence_grade" p.verifier)) grade)
        (when_ok_passed true require_grade _ out refl (rw m at h) ps)

  signed_ok :
      (policy : Fields) (trusted : Anchors) (statement : Fields) (signature : Json) (out : Outcome)
      → truthy (get "require_signature" policy) ≡ true
      → signature_check c policy trusted statement signature ≡ ok out
      → passed out ≡ true
      → check_signature c signature trusted (c.canonical_bytes statement) ≡ ok true
  unfolding signature_check
  signed_ok policy trusted statement signature out s h ps =
      when_ok_passed _ require_signature _ out s h ps

  strict_parts :
      (policy : Fields) (trusted : Anchors) (statement : Fields) (signature : Json)
      (head : Option String) (grade : String) (p : Parts)
      (graded signed bound kind identity : Outcome) (private : Fields)
      → truthy (get "require_pre_red" policy) ≡ true
      → truthy (get "require_post_green" policy) ≡ true
      → truthy (get "require_signature" policy) ≡ true
      → get "require_grade" policy ≡ str grade
      → truthy (expected_head c policy head) ≡ true
      → grade_check c policy p ≡ ok graded
      → signature_check c policy trusted statement signature ≡ ok signed
      → passed (collect c policy head p private graded signed bound kind identity) ≡ true
      → (is_false (get "pre_passed" p.results) ≡ true)
        × (is_true (get "post_passed" p.results) ≡ true)
        × (grade_at_least (grade_of (get "evidence_grade" p.verifier)) grade ≡ ok true)
        × (check_signature c signature trusted (c.canonical_bytes statement) ≡ ok true)
        × (commit_of c p ≡ c.normalize (text_of c (expected_head c policy head)))
  unfolding collect
  strict_parts policy trusted statement signature head grade p graded signed bound kind identity
        private r g s m x eg es ps =
      let red =
        when (truthy (get "require_pre_red" policy)) require_pre_red
          (is_false (get "pre_passed" p.results)) in
      let green =
        when (truthy (get "require_post_green" policy)) require_post_green
          (is_true (get "post_passed" p.results)) in
      let (pg, pr, pp, psg, ph) =
        passed_parts graded red green signed bound kind identity (privacy_checks private p.privacy)
          (head_checks c (expected_head c policy head) p) ps in
      (
        when_passed _ require_pre_red _ r pr,
        when_passed _ require_post_green _ g pp,
        graded_ok policy p grade graded m eg pg,
        signed_ok policy trusted statement signature signed s es psg,
        (eq_iff _ _).0 (when_passed _ expected_head_sha _ x ph),
      )

  pub evaluate_strict :
      (policy : Fields) (trusted : Anchors) (statement : Fields) (signature : Json)
      (head : Option String) (grade : String) (out : Outcome)
      → truthy (get "require_pre_red" policy) ≡ true
      → truthy (get "require_post_green" policy) ≡ true
      → truthy (get "require_signature" policy) ≡ true
      → get "require_grade" policy ≡ str grade
      → truthy (expected_head c policy head) ≡ true
      → evaluate c policy trusted statement signature head ≡ ok out
      → passed out ≡ true
      → (p : Parts) × (parts_of statement ≡ ok p)
        × ((is_false (get "pre_passed" p.results) ≡ true)
            × (is_true (get "post_passed" p.results) ≡ true)
            × (grade_at_least (grade_of (get "evidence_grade" p.verifier)) grade ≡ ok true)
            × (check_signature c signature trusted (c.canonical_bytes statement) ≡ ok true)
            × (commit_of c p ≡ c.normalize (text_of c (expected_head c policy head))))
  unfolding evaluate
  evaluate_strict policy trusted statement signature head grade out r g s m x h ps =
      let (p, parts, h1) = bind-eq-ok (parts_of statement) _ h in
      let (graded, eg, h2) = bind-eq-ok (grade_check c policy p) _ h1 in
      let (signed, es, h3) =
        bind-eq-ok (signature_check c policy trusted statement signature) _ h2 in
      let (bound, eb, h4) = bind-eq-ok (bindings_check c policy p) _ h3 in
      let (kind, ek, h5) = bind-eq-ok (kind_check c policy p) _ h4 in
      let (identity, ei, h6) = bind-eq-ok (identity_check c policy p) _ h5 in
      let (private, ep, h7) = bind-eq-ok (dict_of (get "require_privacy" policy)) _ h6 in
      (
        p,
        parts,
        strict_parts policy trusted statement signature head grade p graded signed bound kind
            identity private r g s m x eg es (ap passed (ok-injective h7) ∙ ps),
      )
