-- ===== src/Host/Boundary.antt =====
-- The boundary of agent tokens in host/host.py: the middleware that checks a registered agent's
-- scope and guards what it receives, and the admin dependency that its stamp satisfies. `json.loads`
-- of a body is the parameter `loads`; `spell` is a token as a text value. A deployment's own admin
-- dependency is the one of shared tokens, `require_admin` of auth.py. The headers kept beside a body are not modelled.
use stepstitch.Prelude.{
  ℕ, String, Bool, not, ◌&&◌, ◌||◌, Option, none, some, List, [], ◌∷◌, if◌then◌else◌, is_empty,
  Result, ok, err,
}
use stepstitch.Prelude.Text.{Text, codes, text_eq, starts_with, drop}
use stepstitch.Json.{Json, num, str, arr, obj, Fields, end, field, texts}
use stepstitch.Prelude.Int.{pos}
use stepstitch.Scrub.Payload.{set_key}
use stepstitch.Egress.{Outbound, Mode, redact_mode, scan_mode, EgressReport, guard_outbound}
use stepstitch.Host.Auth.{Tokens, AuthError, bearer, require_admin}
use stepstitch.Host.Agents.{
  Agent, scope_allows, resolve_agent, at_end, after_segment, starts_segment,
}

pub record Request : Type 0 where
  pub method : String
  pub path : Text
  pub authorization : Option Text

-- What a handler answers with.
pub record Response : Type 0 where
  pub status : ℕ
  pub content_type : Text
  pub body : String

-- What is sent: the handler's response as it is, its body under a header that reports the scan or
-- without one, or the document of its body after the redaction with the report put in.
pub data Sent : Type 0 where
  as_is : Response → Sent
  same_bytes : ℕ → String → Option EgressReport → Sent
  redacted : ℕ → Json → Sent
  forbidden : String → Sent

-- What the audit is told.
pub data Access : Type 0 where
  agent_access agent_denied : Agent → Request → Access
  egress_redaction : Agent → Text → EgressReport → Access

-- `/session/[^/]+/(?:attestation|fixproof)(?:/download)?$` at one position.
abbrev is_signed_tail : Text → Bool
is_signed_tail s =
    let rest = drop 9 s in
    let tail = after_segment rest in
    starts_with (codes "/session/") s
    && starts_segment rest
    && (at_end (codes "/attestation") tail
        || at_end (codes "/attestation/download") tail
        || at_end (codes "/fixproof") tail
        || at_end (codes "/fixproof/download") tail)

-- `_SIGNED_PATH.search`.
unfoldable pub is_signed_path : Text → Bool
is_signed_path [] = is_signed_tail []
is_signed_path (c ∷ s) = is_signed_tail (c ∷ s) || is_signed_path s

abbrev pub service_prefix : Text
service_prefix = codes "/api/stepstitch/v1"

-- How the middleware leaves a request: with a registered agent, turned down, or untouched.
pub data Stamp : Type 0 where
  untouched : Stamp
  stamped turned_down : Agent → Stamp

-- Who a request that passes the admin dependency is.
pub data Caller : Type 0 where
  operator : String → Caller
  agent : Agent → Caller

abbrev pub found : EgressReport → Bool
found report = not (is_empty report.kinds)

abbrev pub counted : List (String × ℕ) → Fields
counted [] = end
counted ((kind, n) ∷ kinds) = field kind (num (pos n)) (counted kinds)

abbrev pub mode_text : Mode → String
mode_text redact_mode = "redact"
mode_text scan_mode = "scan"

-- The report of `guard_outbound` as it is written out.
abbrev pub report_json : EgressReport → Json
report_json report = obj (
    field "mode" (str (mode_text report.mode))
      (field "kinds" (obj (counted report.kinds)) (field "fields" (arr (texts report.fields)) end)))

abbrev pub mode_of : Text → Mode
mode_of path = if is_signed_path path then scan_mode else redact_mode

module _ (o : Outbound) (loads : String → Option Json) (hash_token : String → String)
    (lower : Text → Text) (is_space : ℕ → Bool) (spell : Text → String) where
  -- An object gets the report under `_egress`.
  abbrev pub with_report : EgressReport → Json → Json
  with_report report (obj d) = obj (set_key "_egress" (report_json report) d)
  with_report report v = v

  abbrev pub sent_as : Mode → Response → Json × EgressReport → Sent
  sent_as scan_mode r (doc, report) = same_bytes r.status r.body (some report)
  sent_as redact_mode r (doc, report) = redacted r.status (with_report report doc)

  abbrev pub noted : Agent → Text → EgressReport → List Access
  noted a path report = if found report then egress_redaction a path report ∷ [] else []

  abbrev pub guard_document : Agent → Text → Response → Option Json → Sent × List Access
  guard_document a path r none = (same_bytes r.status r.body none, [])
  guard_document a path r (some doc) =
      let guarded = guard_outbound o doc (mode_of path) in
      (sent_as (mode_of path) r guarded, noted a path guarded.1)

  -- `_guard_agent_response`.
  unfoldable pub guard_agent_response : Agent → Text → Response → Sent × List Access
  guard_agent_response a path r =
      if not (starts_with (codes "application/json") r.content_type)
      then (as_is r, [])
      else guard_document a path r (loads r.body)

  -- A token of an agent: not empty, with its prefix, and neither of the shared tokens.
  abbrev pub is_agent_token : Tokens lower is_space → Text → Bool
  is_agent_token tokens token =
      starts_with (codes "ssa_") token
      && not (text_eq token tokens.admin_token)
      && not (text_eq token tokens.ingest_token)

  abbrev pub stamp_of : Request → Option Agent → Stamp
  stamp_of req none = untouched
  stamp_of req (some a) =
      if scope_allows a.scope req.method req.path then stamped a else turned_down a

  abbrev pub stamp_token : List Agent → Tokens lower is_space → Request → Option Text → Stamp
  stamp_token table tokens req none = untouched
  stamp_token table tokens req (some token) =
      if is_agent_token tokens token
      then stamp_of req (resolve_agent hash_token is_space table (some (spell token)))
      else untouched

  -- What `_enforce_agent_scope` decides before the handler runs.
  unfoldable pub stamp : List Agent → Tokens lower is_space → Request → Stamp
  stamp table tokens req =
      if starts_with service_prefix req.path
      then stamp_token table tokens req (bearer lower is_space req.authorization)
      else untouched

  abbrev pub as_operator : Result AuthError String → Result AuthError Caller
  as_operator (ok name) = ok (operator name)
  as_operator (err e) = err e

  -- `_require_admin_or_agent`.
  abbrev pub require_admin_or_agent :
      Tokens lower is_space → Request → Stamp → Result AuthError Caller
  require_admin_or_agent tokens req (stamped a) = ok (agent a)
  require_admin_or_agent tokens req _ =
      as_operator (require_admin lower is_space tokens req.authorization)

  -- `_enforce_agent_scope` around a handler, which is told the stamp.
  abbrev pub answer : Request → (Stamp → Response) → Stamp → Sent × List Access
  answer req handler untouched = (as_is (handler untouched), [])
  answer req handler (turned_down a) = (forbidden a.scope, agent_denied a req ∷ [])
  answer req handler (stamped a) =
      let (sent, notes) = guard_agent_response a req.path (handler (stamped a)) in
      (sent, agent_access a req ∷ notes)

  unfoldable pub enforce_agent_scope :
      List Agent → Tokens lower is_space → Request → (Stamp → Response) → Sent × List Access
  enforce_agent_scope table tokens req handler = answer req handler (stamp table tokens req)
