-- ===== src/Examples/Hosts.antt =====
-- Credentials, deliveries and the purge (host/auth.py, host/agents.py, delivery/base.py,
-- retention.py).
use stepstitch.Prelude.{
  true, err, map, ℕ, ◌≡◌, refl, String, Bool, false, ◌&&◌, some, List, [], ◌∷◌, ◌==◌, str_eq,
  is_some, count_if, if◌then◌else◌, Result, ok,
}
use stepstitch.Prelude.Text.{Text, codes}
use stepstitch.Json.{Fields, end, field, str}
use stepstitch.Host.Auth.{Tokens, build_auth}
use stepstitch.Host.Agents.{Agent, scope_allows, resolve_agent, revoke_agent, new_agent}
use stepstitch.Host.Agents.Scopes.{scope_allows_post}
use stepstitch.Delivery.{
  Post, refused, DeliveryResult, DeliveryError, World, deliver, write, deliver_all, cached,
  assert_flat,
}
use stepstitch.Delivery.Once.{deliver_all-once}
use stepstitch.Retention.{Store}

abbrev same_text : Text → Text
same_text t = t

abbrev blank : ℕ → Bool
blank c = c == 32

abbrev tokens : Tokens same_text blank
tokens = record { admin_token = codes "boss"; ingest_token = codes "sdk" }

built_auth : build_auth same_text blank (codes "boss") (codes "sdk") ≡ ok tokens
unfolding build_auth
built_auth = refl

abbrev verify_text : Text
verify_text = codes "/api/stepstitch/v1/session/t1/verify"

scope_allows_post_example : scope_allows "summaries" "POST" verify_text ≡ false
scope_allows_post_example = (scope_allows_post verify_text).0

abbrev hash : String → String
hash t = t

abbrev ci_agent : Agent
ci_agent = new_agent hash blank "a1" "ssa_1" (codes "ci") "verify" "admin"

still_there :
    resolve_agent hash blank (revoke_agent "a2" (ci_agent ∷ [])) (some "ssa_1") ≡ some ci_agent
unfolding resolve_agent revoke_agent
still_there = refl

abbrev writers : List String
writers = "jira" ∷ []

abbrev as_is : Fields → Fields
as_is d = d

abbrev receipt : DeliveryResult
receipt = record { target = "jira"; record_id = "J-1"; deduped = false; receipt = end }

-- A writer that refuses the first post and takes the next.
abbrev accept : List Post → String → Fields → Result DeliveryError DeliveryResult
accept [] target draft = err refused
accept (p ∷ posts) target draft = ok receipt

abbrev draft : Fields
draft = field "title" (str "broken form") end

abbrev empty_world : World
empty_world = record { store = []; posts = [] }

abbrev calls : List (String × Fields × String)
calls = ("jira", draft, "k") ∷ ("jira", draft, "k") ∷ ("jira", draft, "k") ∷ []

deliver_all-once_example :
    let w = deliver_all writers as_is accept calls (record { store = []; posts = [] }) in
    count_if (λ p. str_eq p.key "jira:k" && p.confirmed) w.posts
    ≡ (if is_some (cached "jira:k" w.store) then 1 else 0)
deliver_all-once_example = deliver_all-once writers as_is accept calls "jira:k"

-- The first call fails, the second posts again, and the third finds the receipt.
posted_twice :
    map (λ p. p.confirmed) (deliver_all writers as_is accept calls empty_world).posts
    ≡ true ∷ false ∷ []
unfolding deliver_all deliver write assert_flat
posted_twice = refl

abbrev rows : Store
rows = record {
  traces =
      record { id = "old"; retention_expires_at = some 5 }
      ∷ record { id = "new"; retention_expires_at = some 50 }
      ∷ [];
  diagnostics = some ("old" ∷ "new" ∷ []);
}
