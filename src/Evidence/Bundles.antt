-- ===== src/Evidence/Bundles.antt =====
-- Which attestations `verify_bundle` of evidence.py accepts.
use stepstitch.Prelude.{
  ◌||◌, sym, inr, ap, ◌∙◌, inl, Bool-cases, refl, ◌≡◌, ◌↔◌, ◌⊎◌, String, Bool, true, false, ◌++◌,
  arith, Result, ok, err,
}
use stepstitch.Prelude.Text.{
  Text, codes, text_eq, text_eq_iff, starts_with, starts_with-append-drop,
}
use stepstitch.Json.{Json, str, Fields, get}
use stepstitch.Evidence.{
  str_eq, EvidenceError, Checked, prefix, remove_prefix, bundle_hash, payload_of, verify_bundle,
}

abbrev pub accepts : Result EvidenceError Checked → Bool
accepts (ok c) = true
accepts (err e) = false

remove_prefix-issued : (h : Text) → remove_prefix (prefix ++ h) ≡ h
unfolding remove_prefix prefix
remove_prefix-issued h = refl

remove_prefix-bare : (h : Text) → starts_with prefix h ≡ false → remove_prefix h ≡ h
unfolding remove_prefix
remove_prefix-bare h bare = rw bare

remove_prefix-cases : (s h : Text) → remove_prefix s ≡ h → (s ≡ prefix ++ h) ⊎ (s ≡ h)
unfolding remove_prefix prefix
remove_prefix-cases s h e = elim (Bool-cases (starts_with prefix s)) [
  | inl p ↦ inl (starts_with-append-drop prefix s p ∙ ap (λ t. prefix ++ t) (ground arith))
  | inr n ↦ inr (ground arith)
]

abbrev same_hash : Text → Text → Bool
same_hash h t = text_eq (prefix ++ h) t || text_eq (remove_prefix (prefix ++ h)) (remove_prefix t)

same_hash_only :
    (h t : Text) → starts_with prefix h ≡ false → same_hash h t ≡ true → (t ≡ prefix ++ h) ⊎ (t ≡ h)
same_hash_only h t bare e = elim (Bool-cases (text_eq (prefix ++ h) t)) [
  | inl whole ↦ inl (sym ((text_eq_iff (prefix ++ h) t).0 whole))
  | inr other ↦ remove_prefix-cases t h (
      ground (
        arith,
        remove_prefix-issued h,
        text_eq_iff (remove_prefix (prefix ++ h)) (remove_prefix t),
      ))
]

same_hash_both :
    (h t : Text) → starts_with prefix h ≡ false → (t ≡ prefix ++ h) ⊎ (t ≡ h) → same_hash h t ≡ true
same_hash_both h t bare (inl e) = ground (arith, text_eq_iff (prefix ++ h) t)
same_hash_both h t bare (inr e) = ground (
  arith,
  remove_prefix-issued h,
  remove_prefix-bare h,
  text_eq_iff (remove_prefix (prefix ++ h)) (remove_prefix t),
)

module _ (hex : Fields → Text) (str_of : Json → Text) where
  -- A document that states a hash is accepted exactly when that text is the hash of the document
  -- without its hash and signature, with or without the prefix "sha256:". A hex digest does not
  -- begin with that prefix.
  pub verify_bundle-accepts :
      (document : Fields) (s : String)
      → get "bundle_sha256" document ≡ str s
      → str_eq s "" ≡ false
      → starts_with prefix (hex (payload_of document)) ≡ false
      → (accepts (verify_bundle hex str_of document) ≡ true)
        ↔ ((codes s ≡ prefix ++ hex (payload_of document)) ⊎ (codes s ≡ hex (payload_of document)))
  unfolding verify_bundle bundle_hash
  verify_bundle-accepts document s stated given bare =
      let h = hex (payload_of document) in
      rw stated (ground (arith, same_hash_only h (codes s), same_hash_both h (codes s)))
