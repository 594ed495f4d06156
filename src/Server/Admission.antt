-- ===== src/Server/Admission.antt =====
-- What reaches the store through the ingest endpoint, and that a fix can be proven.
use stepstitch.Prelude.{
  ◌≡◌, refl, inl, inr, Bool, true, [], ◌∷◌, ◌++◌, arith, str_eq, Bool-cases, all, Result, ok, err,
}
use stepstitch.Json.{Fields, get, Items, nil, cons, obj, null, bool, num, real, str, arr}
use stepstitch.Scrub.Policy.{ScrubPolicy, apply_scrub_overrides}
use stepstitch.Scrub.Payload.{
  ScrubFailure, type_error, rejection, ScrubReport, scrub_trace_payload, items_or_none,
}
use stepstitch.Scrub.Strict.{is_step_ok, are_steps_ok, scrub_trace_payload-are_steps_ok}
use stepstitch.Server.Store.{TraceRecord, ServiceStore, Site, Call}
use stepstitch.Server.Ingest.{
  internal_error, IngestTracePayload, Provider, not_given, answers, raises, capture_allowed,
  active_policy, objects_of, raw_payload, IngestAnswer, capture_disabled, rejected_fields, stored,
  trace_record, ingest_result, save_session_trace,
}

objects_of-ok :
    (site : Site) (p : ScrubPolicy) (vs : Items)
    → are_steps_ok site.detectors p vs ≡ true
    → all (is_step_ok site.detectors p) (objects_of vs) ≡ true
unfolding are_steps_ok
objects_of-ok site p nil h = refl
objects_of-ok site p (cons (obj d) vs) h = ground (arith, h, objects_of-ok site p vs)
objects_of-ok site p (cons null vs) h = cc
objects_of-ok site p (cons (bool b) vs) h = cc
objects_of-ok site p (cons (num b) vs) h = cc
objects_of-ok site p (cons (real b) vs) h = cc
objects_of-ok site p (cons (str b) vs) h = cc
objects_of-ok site p (cons (arr b) vs) h = cc

-- The knobs of the strict schema that a base policy has turned on.
pub record IsStrict (p : ScrubPolicy) : Type 0 where
  pub routes : str_eq p.route_policy "operator_templates" ≡ true
  pub selectors : str_eq p.selector_policy "approved_testids" ≡ true
  pub labels : p.enforce_masked_labels ≡ true

active_policy-IsStrict :
    (site : Site) (overrides : Provider Fields)
    → IsStrict site.scrub_policy
    → IsStrict (active_policy site overrides)
unfolding active_policy apply_scrub_overrides
active_policy-IsStrict site not_given i = i
active_policy-IsStrict site (answers cfg) i = record {
  routes = i.routes;
  selectors = i.selectors;
  labels = i.labels;
}
active_policy-IsStrict site raises i = i

-- The steps that a trace was stored with, by the policy in force.
abbrev pub is_trace_ok : Site → ScrubPolicy → TraceRecord → Bool
is_trace_ok site p t = all (is_step_ok site.detectors p) t.footsteps

-- What an answer says of the traces, before and after.
abbrev pub Ingested :
    Site → ScrubPolicy → Call → ServiceStore → IngestAnswer → ServiceStore → Type 0
Ingested site policy c s internal_error u = u.traces ≡ s.traces
Ingested site policy c s capture_disabled u = u.traces ≡ s.traces
Ingested site policy c s (rejected_fields fields) u = u.traces ≡ s.traces
Ingested site policy c s (stored id report) u =
    (t : TraceRecord) × (u.traces ≡ s.traces ++ t ∷ [])
    × (t.id ≡ id)
    × (t.scrub ≡ report)
    × (is_trace_ok site policy t ≡ true)

ingest_result-Ingested :
    (site : Site) (policy : ScrubPolicy) (c : Call) (p : IngestTracePayload) (s : ServiceStore)
    (r : Result ScrubFailure (Fields × ScrubReport))
    → IsStrict policy
    → scrub_trace_payload site.detectors policy (raw_payload p) ≡ r
    → Ingested site policy c s
        (ingest_result site policy c p s r).0
        (ingest_result site policy c p s r).1
ingest_result-Ingested site policy c p s (err type_error) i e = refl
ingest_result-Ingested site policy c p s (err (rejection fields)) i e = refl
ingest_result-Ingested site policy c p s (ok (scrubbed, report)) i e =
    let sound =
      scrub_trace_payload-are_steps_ok site.detectors policy (raw_payload p) scrubbed report
        i.routes i.selectors i.labels e in
    (
      trace_record site c p scrubbed report,
      refl,
      refl,
      refl,
      objects_of-ok site policy (items_or_none (get "footsteps" scrubbed)) sound,
    )

-- Where the site's base policy turns on the strict schema, then, whatever overrides are in force and
-- whatever is posted, an ingest that answers "stored" adds to the traces one, with the answered
-- identifier and scrub report, each of whose footsteps has a declared route or "/", a masked label
-- and an allowed selector, as far as label and selector are texts; any other answer leaves the traces
-- as they were.
pub save_session_trace-Ingested :
    (site : Site) (capture : Provider Bool) (overrides : Provider Fields) (c : Call)
    (p : IngestTracePayload) (s : ServiceStore)
    → IsStrict site.scrub_policy
    → let r = save_session_trace site capture overrides c p s in
      Ingested site (active_policy site overrides) c s r.0 r.1
unfolding save_session_trace
save_session_trace-Ingested site capture overrides c p s i =
    let policy = active_policy site overrides in
    elim (Bool-cases (capture_allowed capture)) [
      | inl e ↦ rw e (
          ingest_result-Ingested site policy c p s
            (scrub_trace_payload site.detectors policy (raw_payload p))
            (active_policy-IsStrict site overrides i) refl)
      | inr e ↦ rw e refl
    ]
