-- ===== src/Host/Agents/Tokens.antt =====
-- The life of an agent token in agents.py.
use stepstitch.Prelude.{
  ℕ, ◌≡◌, refl, ap, String, Bool, true, false, not, Option, none, some, List, [], ◌∷◌, ◌++◌, arith,
  str_eq, is_empty, all, contains, ok, ◌>>◌, raise_if, eq_iff,
}
use stepstitch.Prelude.Text.{Text, strip}
use stepstitch.Host.Agents.{
  Agent, invalid_scope, name_required, new_agent, register_agent, fetch, resolve_agent,
  revoke_agent, scopes,
}

str_eq_refl : (s : String) → str_eq s s ≡ true
str_eq_refl s = (eq_iff s s).1 refl

-- Both checks passed where the registration returned.
two_checks :
    (a b : Bool) {t t' : List Agent}
    → (raise_if a invalid_scope >> raise_if b name_required >> ok t) ≡ ok t'
    → (a ≡ false) × (b ≡ false) × (t ≡ t')
two_checks true b h = cc
two_checks false true h = cc
two_checks false false h = (refl, refl, cc)

module _ (hash_token : String → String) (is_space : ℕ → Bool) where
  fetch-append-fresh :
      (h : String) (table : List Agent) (a : Agent)
      → all (λ b. not (str_eq b.token_hash h)) table ≡ true
      → str_eq a.token_hash h ≡ true
      → fetch hash_token is_space h (table ++ a ∷ []) ≡ some a
  fetch-append-fresh h [] a p q = ground arith
  fetch-append-fresh h (b ∷ table) a p q = ground (arith, fetch-append-fresh h table a)

  fetch-revoked :
      (h agent_id : String) (table : List Agent) (a : Agent)
      → fetch hash_token is_space h (revoke_agent agent_id table) ≡ some a
      → str_eq a.id agent_id ≡ true
      → a.revoked ≡ true
  unfolding revoke_agent
  fetch-revoked h agent_id [] a e i = cc
  fetch-revoked h agent_id (b ∷ table) a e i = ground (arith, fetch-revoked h agent_id table a)

  -- A token that was just registered resolves to its agent, where it is not empty and no stored row
  -- has its hash; and a registration has a known scope and a name that is not blank.
  pub resolve_agent-register :
      (agent_id token : String) (name : Text) (scope actor : String) (table table' : List Agent)
      → all (λ b. not (str_eq b.token_hash (hash_token token))) table ≡ true
      → str_eq token "" ≡ false
      → register_agent hash_token is_space agent_id token name scope actor table ≡ ok table'
      → (resolve_agent hash_token is_space table' (some token)
          ≡ some (new_agent hash_token is_space agent_id token name scope actor))
        × (contains scope scopes ≡ true)
        × (is_empty (strip is_space name) ≡ false)
  unfolding register_agent resolve_agent
  resolve_agent-register agent_id token name scope actor table table' fresh t h =
      let row = new_agent hash_token is_space agent_id token name scope actor in
      let (p, q, e) = two_checks (not (contains scope scopes)) (is_empty (strip is_space name)) h in
      ground (
        arith,
        p,
        q,
        fetch-append-fresh (hash_token token) table row fresh,
        str_eq_refl (hash_token token),
        ap (λ x. fetch hash_token is_space (hash_token token) x) e,
      )

  -- Once an agent is revoked no token resolves to it.
  pub resolve_agent-revoke :
      (agent_id : String) (table : List Agent) (token : Option String) (a : Agent)
      → resolve_agent hash_token is_space (revoke_agent agent_id table) token ≡ some a
      → str_eq a.id agent_id ≡ false
  unfolding resolve_agent
  resolve_agent-revoke agent_id table none a e = cc
  resolve_agent-revoke agent_id table (some token) a e =
      ground (arith, fetch-revoked (hash_token token) agent_id table a)
