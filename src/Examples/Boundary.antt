-- ===== src/Examples/Boundary.antt =====
-- The configuration endpoints and the boundary of host/host.py on concrete requests.
use stepstitch.Prelude.{
  ◌≡◌, refl, ◌⊎◌, String, true, false, Option, some, [], ◌∷◌, ◌==◌, str_eq, if◌then◌else◌, all,
  Result, ok, err,
}
use stepstitch.Prelude.Text.{strip, Text, codes, text_eq}
use stepstitch.Json.{Json, str, arr, obj, Items, nil, cons, Fields, end, field, texts}
use stepstitch.Egress.{Outbound}
use stepstitch.Host.Auth.{Tokens, bearer}
use stepstitch.Host.Agents.{
  Agent, rules, rules_allow, from_tier, path_matches, scope_allows, resolve_agent,
}
use stepstitch.Host.Boundary.{
  Request, Response, forbidden, agent_denied, Stamp, stamped, agent, require_admin_or_agent, stamp,
  enforce_agent_scope, is_signed_path,
}
use stepstitch.Host.Admitted.{
  IsEntitled, MayReceive, require_admin_or_agent-IsEntitled, enforce_agent_scope-MayReceive,
}
use stepstitch.Host.Settings.{
  JsonText, Config, SaveError, select, put_repro_config, put_scrub_config, read_repro_config,
  redactions, scrub_policy, ScrubConfig, change_of,
}
use stepstitch.Host.Saved.{read-put_repro_config, scrub_policy-put_scrub_config}
use stepstitch.Repro.Document.{as_dict, sorted_items}
use stepstitch.Scrub.Policy.{ScrubPolicy}
use stepstitch.Examples.Settings.{py, body, config, accepted, storable}

abbrev outbound : Outbound
outbound = record {
  redact = λ s. if str_eq s "secret" then ("[redacted]", ("token", 1) ∷ []) else (s, []);
  decimal = λ n. "0";
  lower = λ s. s;
  ends_with = λ s t. false;
}

abbrev tokens : Tokens (λ s. s) (λ c. c == b' ')
tokens = record { admin_token = codes "admin"; ingest_token = codes "ingest" }

abbrev reader : Agent
reader = record {
  id = "a1";
  name = codes "reader";
  token_hash = "ssa_1";
  scope = "summaries";
  revoked = false;
  created_by = "admin";
}

abbrev spell : Text → String
spell t = if text_eq t (codes "ssa_1") then "ssa_1" else ""

abbrev loads : String → Option Json
loads s = some (obj (field "headline" (str "secret") end))

abbrev summary : Request
summary = record {
  method = "GET";
  path = codes "/api/stepstitch/v1/session/t1/summary";
  authorization = some (codes "bearer ssa_1");
}

entitled :
    require_admin_or_agent outbound loads
      (λ s. s)
      (λ s. s)
      (λ c. c == b' ')
      spell
      tokens
      summary
      (stamp outbound loads (λ s. s) (λ s. s) (λ c. c == b' ') spell (reader ∷ []) tokens summary)
    ≡ ok (agent reader)
unfolding stamp bearer resolve_agent scope_allows rules rules_allow from_tier path_matches strip
entitled = refl

require_admin_or_agent-IsEntitled_example :
    IsEntitled outbound loads
      (λ s. s)
      (λ s. s)
      (λ c. c == b' ')
      spell
      (reader ∷ [])
      tokens
      summary
      (agent reader)
require_admin_or_agent-IsEntitled_example =
    require_admin_or_agent-IsEntitled outbound loads (λ s. s) (λ s. s) (λ c. c == b' ') spell
      (reader ∷ []) tokens summary (agent reader) entitled

carried : bearer (λ s. s) (λ c. c == b' ') summary.authorization ≡ some (codes "ssa_1")
unfolding bearer strip
carried = refl

resolved :
    resolve_agent (λ s. s) (λ c. c == b' ') (reader ∷ []) (some (spell (codes "ssa_1")))
    ≡ some reader
unfolding resolve_agent
resolved = refl

enforce_agent_scope-MayReceive_example :
    ((handler : Stamp → Response)
      → (scope_allows "summaries" "GET" summary.path ≡ true)
        × MayReceive outbound loads
            (λ s. s)
            (λ s. s)
            (λ c. c == b' ')
            spell
            summary
            (handler (stamped reader))
            (enforce_agent_scope outbound loads
              (λ s. s)
              (λ s. s)
              (λ c. c == b' ')
              spell
              (reader ∷ [])
              tokens
              summary
              handler).0)
    ⊎ ((scope_allows "summaries" "GET" summary.path ≡ false)
        × ((handler : Stamp → Response)
            → enforce_agent_scope outbound loads
                (λ s. s)
                (λ s. s)
                (λ c. c == b' ')
                spell
                (reader ∷ [])
                tokens
                summary
                handler
              ≡ (forbidden "summaries", agent_denied reader summary ∷ [])))
enforce_agent_scope-MayReceive_example =
    enforce_agent_scope-MayReceive outbound loads (λ s. s) (λ s. s) (λ c. c == b' ') spell
      (reader ∷ []) tokens summary (codes "ssa_1") reader refl carried refl resolved

-- The signed documents' paths, and one that is none.
signed_paths :
    (is_signed_path (codes "/api/stepstitch/v1/session/t1/fixproof/download") ≡ true)
    × (is_signed_path (codes "/api/stepstitch/v1/session/t1/attestation") ≡ true)
    × (is_signed_path summary.path ≡ false)
unfolding is_signed_path
signed_paths = (refl, refl, refl)

-- A JSON text that stands for the one document it was made of.
abbrev texts_for : Fields → JsonText
texts_for d = record { dumps = λ v. "{}"; loads = λ s. some (obj d) }

abbrev no_rows : Config
no_rows = record { rows = ("scrub_overrides", "old") ∷ []; audited = [] }

abbrev for_config : JsonText
for_config = texts_for (as_dict config)

read-put_repro_config_example :
    (s' : Config) × (put_repro_config for_config py body no_rows ≡ ok (s', as_dict config))
    × (read_repro_config for_config py (ok (select "repro_config" s'))
        ≡ record config { api_overrides = sorted_items config.api_overrides })
    × ((other : String)
        → str_eq "repro_config" other ≡ false
        → select other s' ≡ select other no_rows)
    × (s'.audited ≡ change_of for_config py config ∷ [])
read-put_repro_config_example =
    read-put_repro_config for_config py body config no_rows accepted storable refl refl

abbrev texts_of_operator : Items
texts_of_operator = cons (str "iban") (cons (str "DE[0-9]+") nil)

abbrev answered : Fields
answered = field "extra_redactions" (arr (cons (arr texts_of_operator) nil)) (
    field "extra_forbidden_keys" (arr (cons (str "ssn") nil))
      (field "approved_testids" (arr nil) (field "route_templates" (arr nil) end)))

abbrev for_scrub : JsonText
for_scrub = texts_for answered

abbrev request : ScrubConfig for_scrub py
request = record {
  extra_redactions = cons (arr texts_of_operator) nil;
  extra_forbidden_keys = cons (str "ssn") nil;
  approved_testids = nil;
  route_templates = nil;
}

abbrev put_state : Result SaveError (Config × Fields) → Config
put_state (ok r) = r.0
put_state (err e) = no_rows

saved :
    put_scrub_config for_scrub py request no_rows
    ≡ ok (put_state (put_scrub_config for_scrub py request no_rows), answered)
unfolding put_scrub_config redactions texts
saved = refl

abbrev base : ScrubPolicy
base = record {
  name = "base";
  free_text = "redact";
  max_text_len = 100;
  metadata_allowlist = [];
  footstep_metadata_allowlist = [];
  forbidden_keys = "password" ∷ [];
  reject_on_forbidden = true;
  extra_redactions = [];
  extra_forbidden_keys = [];
  selector_policy = "structural";
  approved_testids = [];
  route_policy = "any";
  route_templates = [];
  enforce_masked_labels = false;
}

scrub_policy-put_scrub_config_example :
    (all (λ (r : String × String). py.compiles r.1) (("iban", "DE[0-9]+") ∷ []) ≡ true)
    × (scrub_policy for_scrub py base (put_state (put_scrub_config for_scrub py request no_rows))
        ≡ some (record base {
          extra_redactions = ("iban", "DE[0-9]+") ∷ [];
          extra_forbidden_keys = "ssn" ∷ [];
          approved_testids = [];
          route_templates = [];
        }))
    × (read_repro_config for_scrub py
          (ok (select "repro_config" (put_state (put_scrub_config for_scrub py request no_rows))))
        ≡ read_repro_config for_scrub py (ok (select "repro_config" no_rows)))
scrub_policy-put_scrub_config_example =
    scrub_policy-put_scrub_config for_scrub py (λ s. refl) base request no_rows
      (put_state (put_scrub_config for_scrub py request no_rows)) answered saved refl refl
