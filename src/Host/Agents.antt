-- ===== src/Host/Agents.antt =====
-- service/stepstitch_service/host/agents.py: the scopes of agent tokens and the table of agents.
-- The SHA-256 of a token is the parameter `hash_token`; the random id and token of a new agent are
-- handed in. A request's method is handed in as `method.upper()` leaves it. The clock columns of the
-- table are not modelled.
pub mod Scopes
pub mod Tokens
use stepstitch.Prelude.{
  ℕ, zero, suc, ◌+◌, ◌*◌, ◌≤◌, ◌<◌, ◌≡◌, refl, sym, ap, ◌∙◌, ◌↔◌, ◌⊎◌, inl, inr, String, Bool, true,
  false, not, ◌&&◌, ◌||◌, Option, none, some, List, [], ◌∷◌, ◌++◌, map, arith, ltb, leb, ◌==◌,
  str_eq, if◌then◌else◌, is_some, opt_is, get_or, Bool-cases, Option-cases, length, is_empty, head?,
  take, any, all, keep, count_if, sum_of, contains, sort_by, Result, ok, err, ◌>>=◌, ◌>>◌, raise_if,
  bind-eq-ok, eq_iff, min, max,
}
use stepstitch.Prelude.Text.{Text, codes, text_eq, starts_with, drop, strip}

abbrev pub scopes : List String
scopes = "none" ∷ "summaries" ∷ "repros" ∷ "drafts" ∷ "verify" ∷ []

abbrev pub ladder : List String
ladder = "none" ∷ "summaries" ∷ "repros" ∷ "drafts" ∷ []

-- `_TIER_RANK`: the position on the ladder.
abbrev pub tier_rank : String → ℕ
tier_rank s =
    if str_eq s "none"
    then 0
    else if str_eq s "summaries"
    then 1
    else if str_eq s "repros"
    then 2
    else 3

unfoldable pub from_tier : String → List String → List String
from_tier min_tier extra =
    keep (λ s. leb (tier_rank min_tier) (tier_rank s) && not (str_eq s "none")) ladder ++ extra

-- The patterns of the rules: a fixed path, or a path with one segment `[^/]+` before its tail.
pub data Pattern : Type 0 where
  exact : String → Pattern
  around : String → String → Pattern

-- `$` also matches before a newline that ends the path.
abbrev pub at_end : Text → Text → Bool
at_end tail path = text_eq path tail || text_eq path (tail ++ 10 ∷ [])

-- What is left after the characters that are not a slash.
abbrev pub after_segment : Text → Text
after_segment [] = []
after_segment (c ∷ s) = let rest = after_segment s in if c == 47 then c ∷ s else rest

abbrev pub starts_segment : Text → Bool
starts_segment [] = false
starts_segment (c ∷ s) = not (c == 47)

unfoldable pub path_matches : Pattern → Text → Bool
path_matches (exact p) path = at_end (codes p) path
path_matches (around before tail) path =
    let rest = drop (length (codes before)) path in
    starts_with (codes before) path
    && starts_segment rest
    && at_end (codes tail) (after_segment rest)

pub record Rule : Type 0 where
  pub method : String
  pub pattern : Pattern
  pub allowed : List String

abbrev pub session : String → Pattern
session tail = around "/api/stepstitch/v1/session/" tail

abbrev rule : String → Pattern → List String → Rule
rule m p a = record { method = m; pattern = p; allowed = a }

unfoldable pub rules : List Rule
unfolding from_tier
rules =
    rule "GET" (exact "/api/stepstitch/v1/sessions") (from_tier "summaries" [])
    ∷ rule "GET" (exact "/api/stepstitch/v1/corpus") (from_tier "summaries" [])
    ∷ rule "GET" (session "/summary") (from_tier "summaries" [])
    ∷ rule "GET" (session "/replayability") (from_tier "summaries" [])
    ∷ rule "GET" (session "/privacy-posture") (from_tier "summaries" [])
    ∷ rule "GET" (session "/diagnostic-summary") (from_tier "summaries" [])
    ∷ rule "GET" (around "/api/stepstitch/v1/correlation/" "/summary") (from_tier "summaries" [])
    ∷ rule "GET" (session "/similar-fixes") (from_tier "summaries" [])
    ∷ rule "GET" (session "/attestation") (from_tier "summaries" [])
    ∷ rule "GET" (session "/fixproof") (from_tier "summaries" ("verify" ∷ []))
    ∷ rule "GET" (session "/fixproof/download") (from_tier "summaries" ("verify" ∷ []))
    ∷ rule "GET" (session "/playwright") (from_tier "repros" ("verify" ∷ []))
    ∷ rule "GET" (session "/fragility") (from_tier "repros" [])
    ∷ rule "GET" (session "/minimal-repro") (from_tier "repros" [])
    ∷ rule "GET" (session "/agent-packet") (from_tier "repros" [])
    ∷ rule "POST" (session "/export-preview") (from_tier "drafts" [])
    ∷ rule "POST" (session "/financial-services-export-preview") (from_tier "drafts" [])
    ∷ rule "POST" (session "/verify") ("verify" ∷ [])
    ∷ []

-- The first rule that matches decides; without one the answer is no.
unfoldable pub rules_allow : List Rule → String → String → Text → Bool
rules_allow [] scope method path = false
rules_allow (r ∷ rs) scope method path =
    let rest = rules_allow rs scope method path in
    if str_eq r.method method && path_matches r.pattern path then contains scope r.allowed else rest

unfoldable pub scope_allows : String → String → Text → Bool
scope_allows scope method path =
    if not (contains scope scopes) || str_eq scope "none"
    then false
    else rules_allow rules scope method path

-- A row of `stepstitch_agents`.
pub record Agent : Type 0 where
  pub id : String
  pub name : Text
  pub token_hash : String
  pub scope : String
  pub revoked : Bool
  pub created_by : String

pub data AgentError : Type 0 where
  invalid_scope name_required : AgentError

module _ (hash_token : String → String) (is_space : ℕ → Bool) where
  -- The row that is inserted.
  abbrev pub new_agent : String → String → Text → String → String → Agent
  new_agent agent_id token name scope actor = record {
    id = agent_id;
    name = strip is_space name;
    token_hash = hash_token token;
    scope = scope;
    revoked = false;
    created_by = actor;
  }

  unfoldable pub register_agent :
      String → String → Text → String → String → List Agent → Result AgentError (List Agent)
  register_agent agent_id token name scope actor table =
      raise_if (not (contains scope scopes)) invalid_scope
      >> raise_if (is_empty (strip is_space name)) name_required
      >> ok (table ++ new_agent agent_id token name scope actor ∷ [])

  -- The row of a token hash.
  abbrev pub fetch : String → List Agent → Option Agent
  fetch h [] = none
  fetch h (a ∷ table) = let rest = fetch h table in if str_eq a.token_hash h then some a else rest

  unfoldable pub resolve_agent : List Agent → Option String → Option Agent
  resolve_agent table none = none
  resolve_agent table (some token) =
      if str_eq token "" then none else elim (fetch (hash_token token) table) [
        | none ↦ none
        | some a ↦ if a.revoked then none else some a
      ]

abbrev pub revoke_row : String → Agent → Agent
revoke_row agent_id a = if str_eq a.id agent_id then record a { revoked = true } else a

unfoldable pub revoke_agent : String → List Agent → List Agent
revoke_agent agent_id table = map (revoke_row agent_id) table
