-- ===== src/Host/Admitted.antt =====
-- Who passes the boundary of host/host.py, and what an agent receives there.
use stepstitch.Prelude.{
  eq_iff, str_eq, ◌≢◌, Option-cases, ℕ, ◌≡◌, refl, ◌⊎◌, inl, inr, String, Bool, true, false, Option,
  none, some, List, [], ◌∷◌, arith, if◌then◌else◌, Bool-cases, Result, ok,
}
use stepstitch.Prelude.Text.{Text, codes, text_eq, starts_with}
use stepstitch.Json.{Json}
use stepstitch.Egress.{Outbound, redact_mode, scan_mode, EgressReport, guard_outbound}
use stepstitch.Egress.Guarded.{IsGuarded, guard_outbound-IsGuarded}
use stepstitch.Host.Auth.{is_token_iff, Tokens, AuthError, bearer, require_admin}
use stepstitch.Host.Agents.{fetch, Agent, scope_allows, resolve_agent}
use stepstitch.Host.Boundary.{
  as_operator, Request, Response, Sent, as_is, same_bytes, redacted, forbidden, agent_denied, Stamp,
  untouched, stamped, turned_down, Caller, operator, agent, is_signed_path, service_prefix,
  with_report, guard_document, guard_agent_response, is_agent_token, stamp_of, stamp_token, stamp,
  require_admin_or_agent, enforce_agent_scope,
}

stamped-if :
    (b : Bool) (x : Agent) {a : Agent}
    → (if b then stamped x else turned_down x) ≡ stamped a
    → (b ≡ true) × (x ≡ a)
stamped-if true x h = (refl, cc)
stamped-if false x h = cc

caller_is : {a b : Caller} → ◌≡◌ {A = Result AuthError Caller} (ok a) (ok b) → a ≡ b
caller_is h = cc

module _ (o : Outbound) (loads : String → Option Json) (hash_token : String → String)
    (lower : Text → Text) (is_space : ℕ → Bool) (spell : Text → String) where
  -- The agent is the first row of the table with the hash.
  abbrev pub IsRegistered : String → Agent → List Agent → Type 0
  IsRegistered h a [] = ⊥
  IsRegistered h a (b ∷ table) =
      ((b.token_hash ≡ h) × (b ≡ a)) ⊎ ((b.token_hash ≢ h) × IsRegistered h a table)

  fetch-IsRegistered :
      (h : String) (a : Agent) (table : List Agent)
      → fetch hash_token is_space h table ≡ some a
      → IsRegistered h a table
  fetch-IsRegistered h a [] e = cc
  fetch-IsRegistered h a (b ∷ table) e = elim (Bool-cases (str_eq b.token_hash h)) [
    | inl s ↦ inl ((eq_iff b.token_hash h).0 s, ground (arith, e, s))
    | inr s ↦ inr (
      λ same. ground (arith, s, (eq_iff b.token_hash h).1 same),
      fetch-IsRegistered h a table (ground (arith, e, s)),
    )
  ]

  resolve_agent-IsRegistered :
      (table : List Agent) (token : String) (a : Agent)
      → resolve_agent hash_token is_space table (some token) ≡ some a
      → IsRegistered (hash_token token) a table × (a.revoked ≡ false)
  unfolding resolve_agent
  resolve_agent-IsRegistered table token a e =
      elim (Option-cases (fetch hash_token is_space (hash_token token) table)) [
        | inl missing ↦ absurd (ground (arith, e, missing))
        | inr (b, found) ↦
            let unrevoked : (b.revoked ≡ false) × (b ≡ a) = ground (arith, e, found) in
            (
              fetch-IsRegistered (hash_token token) a table (rw unrevoked.1 at found),
              rw (← unrevoked.1) unrevoked.0,
            )
      ]

  -- The admin token for the operator. For an agent: a path of the service, a bearer token that is an
  -- agent's and resolves to the first row with its hash, which is not revoked, and a scope that
  -- allows the call.
  abbrev pub IsEntitled : List Agent → Tokens lower is_space → Request → Caller → Type 0
  IsEntitled table tokens req (operator name) =
      bearer lower is_space req.authorization ≡ some tokens.admin_token
  IsEntitled table tokens req (agent a) =
      (token : Text) × (bearer lower is_space req.authorization ≡ some token)
      × (starts_with service_prefix req.path ≡ true)
      × (starts_with (codes "ssa_") token ≡ true)
      × (text_eq token tokens.admin_token ≡ false)
      × (text_eq token tokens.ingest_token ≡ false)
      × (resolve_agent hash_token is_space table (some (spell token)) ≡ some a)
      × IsRegistered (hash_token (spell token)) a table
      × (a.revoked ≡ false)
      × (scope_allows a.scope req.method req.path ≡ true)

  stamp_of-stamped :
      (req : Request) (r : Option Agent) {a : Agent}
      → stamp_of o loads hash_token lower is_space spell req r ≡ stamped a
      → (r ≡ some a) × (scope_allows a.scope req.method req.path ≡ true)
  stamp_of-stamped req none h = cc
  stamp_of-stamped req (some b) h =
      let (allowed, same) = stamped-if (scope_allows b.scope req.method req.path) b h in
      rw (← same) (refl, allowed)

  by_token :
      (table : List Agent) (tokens : Tokens lower is_space) (req : Request) (a : Agent)
      → starts_with service_prefix req.path ≡ true
      → (t : Option Text) → bearer lower is_space req.authorization ≡ t
      → stamp_token o loads hash_token lower is_space spell table tokens req t ≡ stamped a
      → IsEntitled table tokens req (agent a)
  by_token table tokens req a e none b h = cc
  by_token table tokens req a e (some token) b h =
      let found = resolve_agent hash_token is_space table (some (spell token)) in
      elim (Bool-cases (is_agent_token o loads hash_token lower is_space spell tokens token)) [
        | inr k ↦ absurd (ground (arith, h, k))
        | inl k ↦
            let (known, allowed) = stamp_of-stamped req found {a = a} (ground (arith, h, k)) in
            let (listed, live) = resolve_agent-IsRegistered table (spell token) a known in
            (
              token,
              b,
              e,
              ground (arith, k),
              ground (arith, k),
              ground (arith, k),
              known,
              listed,
              live,
              allowed,
            )
      ]

  stamp-stamped :
      (table : List Agent) (tokens : Tokens lower is_space) (req : Request) (a : Agent)
      → stamp o loads hash_token lower is_space spell table tokens req ≡ stamped a
      → IsEntitled table tokens req (agent a)
  unfolding stamp
  stamp-stamped table tokens req a h = elim (Bool-cases (starts_with service_prefix req.path)) [
    | inr e ↦ absurd (ground (arith, h, e))
    | inl e ↦
        by_token table tokens req a e (bearer lower is_space req.authorization) refl
          (ground (arith, h, e))
  ]

  unstamped :
      (tokens : Tokens lower is_space) (req : Request) {caller : Caller}
      → as_operator o loads hash_token lower is_space spell
          (require_admin lower is_space tokens req.authorization)
        ≡ ok caller
      → (caller ≡ operator "admin")
        × (bearer lower is_space req.authorization ≡ some tokens.admin_token)
  unfolding require_admin
  unstamped tokens req h = ground (
    arith,
    h,
    is_token_iff lower is_space (bearer lower is_space req.authorization) tokens.admin_token,
  )

  by_stamp :
      (table : List Agent) (tokens : Tokens lower is_space) (req : Request) (caller : Caller)
      (s : Stamp)
      → stamp o loads hash_token lower is_space spell table tokens req ≡ s
      → require_admin_or_agent o loads hash_token lower is_space spell tokens req s ≡ ok caller
      → IsEntitled table tokens req caller
  by_stamp table tokens req caller untouched e h =
      let (who, token) = unstamped tokens req h in rw who token
  by_stamp table tokens req caller (turned_down a) e h =
      let (who, token) = unstamped tokens req h in rw who token
  by_stamp table tokens req caller (stamped a) e h =
      let who : agent a ≡ caller = caller_is h in rw (← who) (stamp-stamped table tokens req a e)

  -- Whoever passes the admin dependency is entitled to: the operator has the admin token, and an agent
  -- calls a path of the service, within its scope, with a token whose hash has a row, the first of
  -- which is the agent and is not revoked.
  pub require_admin_or_agent-IsEntitled :
      (table : List Agent) (tokens : Tokens lower is_space) (req : Request) (caller : Caller)
      → require_admin_or_agent o loads hash_token lower is_space spell tokens req
          (stamp o loads hash_token lower is_space spell table tokens req)
        ≡ ok caller
      → IsEntitled table tokens req caller
  require_admin_or_agent-IsEntitled table tokens req caller h =
      by_stamp table tokens req caller
        (stamp o loads hash_token lower is_space spell table tokens req) refl h

  -- What an agent may receive of a response: all of it where it is not JSON; its own bytes where they
  -- do not parse or the document is a signed one; otherwise the document as the guard redacted it,
  -- with the guard's report put in.
  pub data MayReceive (req : Request) (r : Response) : Sent → Type 0 where
    not_json :
        starts_with (codes "application/json") r.content_type ≡ false → MayReceive req r (as_is r)
    unread : loads r.body ≡ none → MayReceive req r (same_bytes r.status r.body none)
    signed :
        (report : EgressReport)
        → is_signed_path req.path ≡ true
        → MayReceive req r (same_bytes r.status r.body (some report))
    guarded :
        (doc clean : Json) (report : EgressReport)
        → loads r.body ≡ some doc
        → IsGuarded o clean
        → MayReceive req r
            (redacted r.status (with_report o loads hash_token lower is_space spell report clean))

  guard_document-MayReceive :
      (a : Agent) (req : Request) (r : Response) (d : Option Json)
      → loads r.body ≡ d
      → MayReceive req r (guard_document o loads hash_token lower is_space spell a req.path r d).0
  guard_document-MayReceive a req r none h = unread h
  guard_document-MayReceive a req r (some doc) h = elim (Bool-cases (is_signed_path req.path)) [
    | inl e ↦ rw e (signed (guard_outbound o doc scan_mode).1 e)
    | inr e ↦ rw e (
        guarded doc (guard_outbound o doc redact_mode).0 (guard_outbound o doc redact_mode).1 h
          (guard_outbound-IsGuarded o doc))
  ]

  guard_agent_response-MayReceive :
      (a : Agent) (req : Request) (r : Response)
      → MayReceive req r
          (guard_agent_response o loads hash_token lower is_space spell a req.path r).0
  unfolding guard_agent_response
  guard_agent_response-MayReceive a req r =
      elim (Bool-cases (starts_with (codes "application/json") r.content_type)) [
        | inl e ↦ rw e (guard_document-MayReceive a req r (loads r.body) refl)
        | inr e ↦ rw e (not_json e)
      ]

  -- A request with the token of a registered agent either reaches its handler within the agent's
  -- scope, and then the agent receives only what it may; or it is turned down, and what it gets does
  -- not depend on the handler.
  pub enforce_agent_scope-MayReceive :
      (table : List Agent) (tokens : Tokens lower is_space) (req : Request) (token : Text)
      (a : Agent)
      → starts_with service_prefix req.path ≡ true
      → bearer lower is_space req.authorization ≡ some token
      → is_agent_token o loads hash_token lower is_space spell tokens token ≡ true
      → resolve_agent hash_token is_space table (some (spell token)) ≡ some a
      → ((handler : Stamp → Response)
          → (scope_allows a.scope req.method req.path ≡ true)
            × MayReceive req
                (handler (stamped a))
                (enforce_agent_scope o loads hash_token lower is_space spell table tokens req
                  handler).0)
        ⊎ ((scope_allows a.scope req.method req.path ≡ false)
            × ((handler : Stamp → Response)
                → enforce_agent_scope o loads hash_token lower is_space spell table tokens req
                    handler
                  ≡ (forbidden a.scope, agent_denied a req ∷ [])))
  unfolding enforce_agent_scope stamp
  enforce_agent_scope-MayReceive table tokens req token a e b k known =
      elim (Bool-cases (scope_allows a.scope req.method req.path)) [
        | inl y ↦ inl (λ handler. (
          y,
          rw (e, b, k, known, y) (guard_agent_response-MayReceive a req (handler (stamped a))),
        ))
        | inr n ↦ inr (n, λ handler. rw (e, b, k, known, n) refl)
      ]
