-- ===== src/Fixproof/Soundness.antt =====
-- What a passed verification of fixproof.py has established about the document.
use stepstitch.Prelude.{◌≢◌, bind-eq-ok, ◌≡◌, String, true, Option, some, arith, ok}
use stepstitch.Prelude.Text.{codes}
use stepstitch.Json.{str, obj, Fields, get, truthy, is_true, is_false}
use stepstitch.Evidence.{grade_at_least, remove_prefix}
use stepstitch.Ed25519.Keys.{Library, verify}
use stepstitch.Ed25519.Encoding.{IsPrimeOrder}
use stepstitch.Ed25519.Points.{Bytes}
use stepstitch.Fixproof.{Crypto, text_of}
use stepstitch.Fixproof.Policy.{
  check_binding_names, check_keys, Anchors, lookup_anchor, trusted_keys_or_refuse,
}
use stepstitch.Fixproof.Verify.{
  Outcome, passed, Parts, parts_of, grade_of, commit_of, expected_head, check_integrity,
  verify_fixproof,
}
use stepstitch.Fixproof.Checks.{
  check_integrity_whole, evaluate_strict, check_signature_accepted, trusted_usable,
}

verify-check :
    (lib : Library) (key message raw : Bytes)
    → verify lib key message raw ≡ true
    → lib.check key message raw ≡ true
unfolding verify
verify-check lib key message raw h = ground (arith, h)

module _ (c : Crypto) where
  -- Under a policy that asks for red, green, a grade, a signature and a head commit, a document
  -- that passes carries a statement that hashes to its recorded hash; its results are red before
  -- and green after; its grade reaches the floor; its commit is the expected head; and a key
  -- that the policy trusts verifies a signature over the statement's bytes, and is the canonical
  -- encoding of a point on the curve other than the identity that the group order takes to it.
  pub verify_fixproof_sound :
      (document policy : Fields) (head : Option String) (grade : String) (out : Outcome)
      → truthy (get "require_pre_red" policy) ≡ true
      → truthy (get "require_post_green" policy) ≡ true
      → truthy (get "require_signature" policy) ≡ true
      → get "require_grade" policy ≡ str grade
      → truthy (expected_head c policy head) ≡ true
      → verify_fixproof c document policy head ≡ ok out
      → passed out ≡ true
      → (statement : Fields) × (p : Parts) × (anchors : Anchors) × (k : String) × (key raw : Bytes)
        × (get "statement" document ≡ obj statement)
        × (remove_prefix (codes (text_of c (get "statement_sha256" document)))
            ≡ codes (c.hex statement))
        × (parts_of statement ≡ ok p)
        × (is_false (get "pre_passed" p.results) ≡ true)
        × (is_true (get "post_passed" p.results) ≡ true)
        × (grade_at_least (grade_of (get "evidence_grade" p.verifier)) grade ≡ ok true)
        × (commit_of c p ≡ c.normalize (text_of c (expected_head c policy head)))
        × (trusted_keys_or_refuse c policy ≡ ok anchors)
        × (lookup_anchor k anchors ≡ some key)
        × IsPrimeOrder key
        × (c.library.check key (c.canonical_bytes statement) raw ≡ true)
  unfolding verify_fixproof
  verify_fixproof_sound document policy head grade out r g s m x h ps =
      let (_, _, h1) = bind-eq-ok (check_keys policy) _ h in
      let (trusted, anchored, h2) = bind-eq-ok (trusted_keys_or_refuse c policy) _ h1 in
      let (_, _, h3) = bind-eq-ok (check_binding_names (get "require_bindings" policy)) _ h2 in
      let (statement, whole, h4) = bind-eq-ok (check_integrity c document) _ h3 in
      let (stated, hashed) = check_integrity_whole c document statement whole in
      let (p, parts, (red, green, graded, signed, commit)) =
        evaluate_strict c policy trusted statement (get "signature" document) head grade out r g s m
          x h4 ps in
      let (k, key, raw, known, verified) = check_signature_accepted c _ trusted _ signed in
      (
        statement,
        p,
        trusted,
        k,
        key,
        raw,
        stated,
        hashed,
        parts,
        red,
        green,
        graded,
        commit,
        anchored,
        known,
        (trusted_usable c policy trusted k key anchored known).1,
        verify-check c.library key (c.canonical_bytes statement) raw verified,
      )

  -- Whatever the policy accepts, a statement that does not hash to the recorded hash is an error
  -- and never a list of checks.
  pub verify_fixproof_tampered :
      (document policy statement : Fields) (head : Option String) (out : Outcome)
      → get "statement" document ≡ obj statement
      → remove_prefix (codes (text_of c (get "statement_sha256" document)))
        ≢ codes (c.hex statement)
      → verify_fixproof c document policy head ≢ ok out
  unfolding verify_fixproof
  verify_fixproof_tampered document policy statement head out stated other h =
      let (_, _, h1) = bind-eq-ok (check_keys policy) _ h in
      let (_, _, h2) = bind-eq-ok (trusted_keys_or_refuse c policy) _ h1 in
      let (_, _, h3) = bind-eq-ok (check_binding_names (get "require_bindings" policy)) _ h2 in
      let (found, whole, h4) = bind-eq-ok (check_integrity c document) _ h3 in
      let (same, hashed) = check_integrity_whole c document found whole in
      other (ground (arith, same, hashed, stated))
