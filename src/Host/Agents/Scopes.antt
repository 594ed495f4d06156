-- ===== src/Host/Agents/Scopes.antt =====
-- What the scopes of agents.py allow.
use stepstitch.Prelude.{
  ◌≡◌, refl, ap, ◌∙◌, inl, inr, String, Bool, true, false, not, ◌&&◌, ◌||◌, List, [], ◌∷◌, ◌++◌,
  arith, str_eq, Bool-cases, length, any, all, contains,
}
use stepstitch.Prelude.Text.{Text, codes, text_eq, text_eq_iff, drop}
use stepstitch.Host.Agents.{
  Rule, rules, rules_allow, scope_allows, path_matches, around, from_tier, Pattern, at_end,
  after_segment,
}

abbrev pub implies : Bool → Bool → Bool
implies a b = not a || b

-- Where every rule that grants one scope grants another, so does the whole list.
rules_allow-implies :
    (s t : String) (rs : List Rule) (m : String) (p : Text)
    → all (λ r. implies (contains s r.allowed) (contains t r.allowed)) rs ≡ true
    → rules_allow rs s m p ≡ true
    → rules_allow rs t m p ≡ true
unfolding rules_allow
rules_allow-implies s t [] m p h k = k
rules_allow-implies s t (r ∷ rs) m p h k = ground (arith, rules_allow-implies s t rs m p)

-- Where no rule of a method grants a scope but those of a pattern, only its paths are allowed.
rules_allow-only :
    (s : String) (rs : List Rule) (m : String) (good : Rule → Bool) (p : Text)
    → all (λ r. implies (str_eq r.method m && contains s r.allowed) (good r)) rs ≡ true
    → rules_allow rs s m p ≡ true
    → any (λ r. good r && path_matches r.pattern p) rs ≡ true
unfolding rules_allow
rules_allow-only s [] m good p h k = k
rules_allow-only s (r ∷ rs) m good p h k = ground (arith, rules_allow-only s rs m good p)

-- The evidence ladder only grows: what "summaries" may call, "repros" may, and what "repros" may
-- call, "drafts" may; "none" may call nothing.
pub scope_allows_ladder :
    (method : String) (path : Text)
    → (implies (scope_allows "summaries" method path) (scope_allows "repros" method path) ≡ true)
      × (implies (scope_allows "repros" method path) (scope_allows "drafts" method path) ≡ true)
      × (scope_allows "none" method path ≡ false)
unfolding scope_allows rules from_tier
scope_allows_ladder method path = ground (
  arith,
  rules_allow-implies "summaries" "repros" rules method path refl,
  rules_allow-implies "repros" "drafts" rules method path refl,
)

at_end-apart :
    (x a b : Text)
    → at_end b a ≡ false
    → at_end b (a ++ 10 ∷ []) ≡ false
    → at_end a x ≡ true
    → at_end b x ≡ false
at_end-apart x a b h k e = elim (Bool-cases (text_eq x a)) [
  | inl p ↦ ap (at_end b) ((text_eq_iff x a).0 p) ∙ h
  | inr p ↦ elim (Bool-cases (text_eq x (a ++ 10 ∷ []))) [
    | inl q ↦ ap (at_end b) ((text_eq_iff x (a ++ 10 ∷ [])).0 q) ∙ k
    | inr q ↦ ground arith
  ]
]

around-apart :
    (before a b : String) (path : Text)
    → at_end (codes b) (codes a) ≡ false
    → at_end (codes b) (codes a ++ 10 ∷ []) ≡ false
    → path_matches (around before a) path ≡ true
    → path_matches (around before b) path ≡ false
unfolding path_matches
around-apart before a b path h k e = ground (
  arith,
  at_end-apart (after_segment (drop (length (codes before)) path)) (codes a) (codes b) h k,
)

abbrev verify_path : Text → Bool
verify_path path = path_matches (around "/api/stepstitch/v1/session/" "/verify") path

abbrev previews : List Pattern
previews =
    around "/api/stepstitch/v1/session/" "/export-preview"
    ∷ around "/api/stepstitch/v1/session/" "/financial-services-export-preview"
    ∷ []

preview-no_verify :
    (path : Text) → any (λ p. path_matches p path) previews ≡ true → verify_path path ≡ false
preview-no_verify path h = ground (
  arith,
  around-apart "/api/stepstitch/v1/session/" "/export-preview" "/verify" path refl refl,
  around-apart "/api/stepstitch/v1/session/" "/financial-services-export-preview" "/verify" path
      refl refl,
)

-- No read tier can record a verdict: "summaries" and "repros" may post nothing, "drafts" may post
-- only the two export previews, which are not the verify path, and "verify" may post to the verify
-- path alone.
pub scope_allows_post :
    (path : Text)
    → (scope_allows "summaries" "POST" path ≡ false)
      × (scope_allows "repros" "POST" path ≡ false)
      × (implies (scope_allows "drafts" "POST" path) (
            any (λ p. path_matches p path) previews
            && not (path_matches (around "/api/stepstitch/v1/session/" "/verify") path))
          ≡ true)
      × (implies
            (scope_allows "verify" "POST" path)
            (path_matches (around "/api/stepstitch/v1/session/" "/verify") path)
          ≡ true)
unfolding scope_allows rules from_tier rules_allow
scope_allows_post path = ground (arith, preview-no_verify path)
