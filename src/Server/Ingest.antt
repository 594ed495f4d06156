-- ===== src/Server/Ingest.antt =====
-- `save_session_trace` and `delete_user_traces` of router.py.
use stepstitch.Prelude.{
  ℕ, ◌+◌, String, Bool, true, false, not, Option, none, some, List, [], ◌∷◌, ◌++◌, map, ltb, str_eq,
  if◌then◌else◌, keep, contains, Result, ok, err,
}
use stepstitch.Json.{Json, null, str, arr, obj, Items, nil, cons, Fields, end, field, get}
use stepstitch.Scrub.Policy.{ScrubPolicy, apply_scrub_overrides}
use stepstitch.Scrub.Metadata.{Place}
use stepstitch.Scrub.Payload.{
  ScrubFailure, type_error, rejection, ScrubReport, scrub_trace_payload, items_or_none,
}
use stepstitch.Server.Store.{TraceRecord, DiagnosticsRow, ServiceStore, Site, Call, audit}

pub record IngestTracePayload : Type 0 where
  pub app_id : String
  pub project_id : Option String
  pub explanation : Option String
  pub footsteps : List Fields
  pub consent_version : Option String
  pub metadata : Fields

-- A callable of the host: not given, giving an answer, or raising.
pub data Provider (A : Type 0) : Type 0 where
  not_given : Provider A
  answers : A → Provider A
  raises : Provider A

-- A flag that raises reads as "off".
unfoldable pub capture_allowed : Provider Bool → Bool
capture_allowed not_given = true
capture_allowed (answers b) = b
capture_allowed raises = false

-- The host's provider answers the overrides in its store; one that raises leaves the base policy.
unfoldable pub active_policy : Site → Provider Fields → ScrubPolicy
active_policy site not_given = site.scrub_policy
active_policy site (answers cfg) = apply_scrub_overrides site.to_text site.scrub_policy cfg
active_policy site raises = site.scrub_policy

abbrev pub opt_text : Option String → Json
opt_text none = null
opt_text (some s) = str s

abbrev pub objects : List Fields → Items
objects [] = nil
objects (d ∷ ds) = cons (obj d) (objects ds)

abbrev pub objects_of : Items → List Fields
objects_of nil = []
objects_of (cons (obj d) vs) = d ∷ objects_of vs
objects_of (cons _ vs) = objects_of vs

unfoldable pub raw_payload : IngestTracePayload → Fields
raw_payload p =
    field "explanation" (opt_text p.explanation)
      (field "footsteps" (arr (objects p.footsteps)) (field "metadata" (obj p.metadata) end))

-- `internal_error` is the status 500 of an exception that nothing catches.
pub data IngestAnswer : Type 0 where
  internal_error : IngestAnswer
  capture_disabled : IngestAnswer
  rejected_fields : List Place → IngestAnswer
  stored : String → ScrubReport → IngestAnswer

abbrev pub trace_record : Site → Call → IngestTracePayload → Fields → ScrubReport → TraceRecord
trace_record site c p scrubbed report =
    let steps = objects_of (items_or_none (get "footsteps" scrubbed)) in
    record {
      id = c.uuid;
      app_id = p.app_id;
      project_id = p.project_id;
      user_id = c.actor;
      explanation = get "explanation" scrubbed;
      footsteps = steps;
      trace_metadata = get "metadata" scrubbed;
      scrub = report;
      consent_version = p.consent_version;
      retention_expires_at = c.now + site.retention_seconds;
      created_at = c.now;
      fingerprint = site.fingerprint c.uuid steps p.project_id;
    }

-- A rejected payload leaves an entry in the audit trail, and no trace.
abbrev pub ingest_result :
    Site
    → ScrubPolicy
    → Call
    → IngestTracePayload
    → ServiceStore
    → Result ScrubFailure (Fields × ScrubReport)
    → IngestAnswer × ServiceStore
ingest_result site policy c p s (err type_error) = (internal_error, s)
ingest_result site policy c p s (err (rejection fields)) =
    (rejected_fields fields, audit c "stepstitch.scrub_reject" "" policy.name s)
ingest_result site policy c p s (ok (scrubbed, report)) = (
  stored c.uuid report,
  record s { traces = s.traces ++ trace_record site c p scrubbed report ∷ [] },
)

unfoldable pub save_session_trace :
    Site
    → Provider Bool
    → Provider Fields
    → Call
    → IngestTracePayload
    → ServiceStore
    → IngestAnswer × ServiceStore
save_session_trace site capture overrides c p s =
    if not (capture_allowed capture)
    then (capture_disabled, s)
    else let policy = active_policy site overrides in
      ingest_result site policy c p s (scrub_trace_payload site.detectors policy (raw_payload p))

abbrev pub ids_of : String → List TraceRecord → List String
ids_of user [] = []
ids_of user (t ∷ ts) =
    let rest = ids_of user ts in if str_eq t.user_id user then t.id ∷ rest else rest

-- The diagnostics go first, and a missing table is passed over.
abbrev pub without_diagnostics :
    List String → Option (List DiagnosticsRow) → Option (List DiagnosticsRow)
without_diagnostics ids none = none
without_diagnostics ids (some rows) = some (keep (λ d. not (contains d.trace_id ids)) rows)

unfoldable pub delete_user_traces : Call → String → ServiceStore → ServiceStore
delete_user_traces c user s = audit c "stepstitch.delete_by_user" user "" (record s {
  traces = keep (λ t. not (str_eq t.user_id user)) s.traces;
  diagnostics = without_diagnostics (ids_of user s.traces) s.diagnostics;
})

-- The purge of retention.py on this store.
unfoldable pub purge : ℕ → ServiceStore → ServiceStore
purge cutoff s =
    let old = keep (λ t. ltb t.retention_expires_at cutoff) s.traces in
    record s {
      traces = keep (λ t. not (ltb t.retention_expires_at cutoff)) s.traces;
      diagnostics = without_diagnostics (map (λ t. t.id) old) s.diagnostics;
    }
