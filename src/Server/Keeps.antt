-- ===== src/Server/Keeps.antt =====
-- Every request of the service keeps its store sound.
use stepstitch.Prelude.{
  ◌≡◌, refl, inl, inr, String, Bool, true, not, Option, none, some, List, [], ◌∷◌, ◌++◌, arith,
  str_eq, Bool-cases, all, keep, Result, ok, err, eq_iff,
}
use stepstitch.Prelude.{all-append}
use stepstitch.Json.{Fields}
use stepstitch.Runner.Run.{Machine, Request, RunnerError, ReproductionResult, run_reproduction}
use stepstitch.Verdict.{derive_verdict, verdict_text}
use stepstitch.Evidence.{derive_grade}
use stepstitch.Repro.Config.{ReproConfig}
use stepstitch.Server.Store.{
  TraceRecord, FrozenRepro, ServiceStore, Site, Call, find_trace, find_frozen, audit,
}
use stepstitch.Server.Ingest.{
  IngestTracePayload, Provider, save_session_trace, delete_user_traces, purge,
}
use stepstitch.Server.Requests.{
  ReproduceRequest, Observed, observed_run, app_url, run_request, reproduce_outcome,
  reproduce_trace, reproduce_locally,
}
use stepstitch.Server.Freeze.{
  is_needs_setup, freeze_result, freeze_reproduction, freeze_outcome, freeze_trace,
  store_diagnostics, freeze_request, frozen_repro,
}
use stepstitch.Server.Verify.{
  verify_outcome, verify_frozen, verify_result, verify_fix, fix_verdict, is_fixed, verify_request,
  measured_row,
}
use stepstitch.Server.Reports.{VerifyPayload, post_verify, report_on, reported_row}
use stepstitch.Server.Steps.{
  Step, ingests, freezes, verifies, reproduces, reports, deletes, purges, Reach, here, next,
  empty_store,
}
use stepstitch.Server.Measured.{
  red_is_measured, row_is_sound, IsSound, Observed-IsSound, all-keep_of, find_frozen-all,
  row_of_run, store_diagnostics-keeps, frozen_row,
}

freeze_result-IsSound :
    (site : Site) (m : Machine) (c : Call) (id : String) (q : Request) (s : ServiceStore)
    (red : ReproductionResult) (h : List Observed)
    → q.session_id ≡ id
    → IsSound h s
    → IsSound
        ((freeze_result site m c id q s red).observed ++ h)
        (freeze_result site m c id q s red).store
unfolding freeze_result
freeze_result-IsSound site m c id q s red h e i =
    let o : Observed = record {
      session = q.session_id;
      script = q.script;
      verdict = red.verdict;
    } in
    let j = Observed-IsSound h o s i in
    let kept = store_diagnostics-keeps site c id red s in
    let s1 = store_diagnostics site c id red s in
    let row : red_is_measured (o ∷ h) (frozen_repro site m c id q.script red) ≡ true =
      rw e (frozen_row site m c id q.script red h) in
    let old : all (red_is_measured (o ∷ h)) s1.frozen ≡ true = rw kept.0 j.frozen_measured in
    elim (Bool-cases (is_needs_setup red.verdict)) [
      | inl b ↦ rw b j
      | inr b ↦ rw b (record {
        frozen_measured = ground (
          arith,
          row,
          all-keep_of (red_is_measured (o ∷ h)) (λ f. not (str_eq f.trace_id id)) s1.frozen old,
          all-append (red_is_measured (o ∷ h)) (keep (λ f. not (str_eq f.trace_id id)) s1.frozen)
              (frozen_repro site m c id q.script red ∷ []),
        );
        rows_sound = rw kept.1 j.rows_sound;
      })
    ]

verify_result-IsSound :
    (site : Site) (c : Call) (id : String) (req : ReproduceRequest) (q : Request) (f : FrozenRepro)
    (s : ServiceStore) (after : ReproductionResult) (h : List Observed)
    → q.session_id ≡ id
    → q.script ≡ f.script
    → find_frozen id s.frozen ≡ some f
    → IsSound h s
    → IsSound
        ((verify_result site c id req q f s after).observed ++ h)
        (verify_result site c id req q f s after).store
unfolding verify_result
verify_result-IsSound site c id req q f s after h e1 e2 found i =
    let facts = find_frozen-all (red_is_measured h) id s.frozen f found i.frozen_measured in
    let o : Observed = record {
      session = q.session_id;
      script = q.script;
      verdict = after.verdict;
    } in
    let j = Observed-IsSound h o s i in
    let row =
      row_of_run site c id req q f s after h ((eq_iff q.session_id id).1 e1)
        ((eq_iff q.script f.script).1 e2) facts.1 facts.0 in
    elim (Bool-cases (is_fixed (fix_verdict site f after).verdict)) [
      | inl e ↦ rw e (record {
        frozen_measured = j.frozen_measured;
        rows_sound = ground (
          arith,
          row e,
          j.rows_sound,
          all-append (row_is_sound (o ∷ h)) s.verifications (measured_row site c id req s ∷ []),
        );
      })
      | inr e ↦ rw e (record { frozen_measured = j.frozen_measured; rows_sound = j.rows_sound })
    ]

freeze_outcome-IsSound :
    (site : Site) (m : Machine) (c : Call) (id : String) (q : Request) (s : ServiceStore)
    (h : List Observed) (r : Result RunnerError ReproductionResult)
    → q.session_id ≡ id
    → IsSound h s
    → IsSound
        ((freeze_outcome site m c id q s r).observed ++ h)
        (freeze_outcome site m c id q s r).store
freeze_outcome-IsSound site m c id q s h (err x) e i = i
freeze_outcome-IsSound site m c id q s h (ok red) e i =
    freeze_result-IsSound site m c id q s red h e i

freeze_trace-IsSound :
    (site : Site) (m : Machine) (cfg : ReproConfig) (c : Call) (id : String)
    (req : ReproduceRequest) (s : ServiceStore) (h : List Observed) (o : Option TraceRecord)
    → IsSound h s
    → IsSound
        ((freeze_trace site m cfg c id req s o).observed ++ h)
        (freeze_trace site m cfg c id req s o).store
freeze_trace-IsSound site m cfg c id req s h none i = i
freeze_trace-IsSound site m cfg c id req s h (some t) i =
    let q = freeze_request site cfg id t req in
    freeze_outcome-IsSound site m c id q s h (run_reproduction m q).0 refl i

verify_outcome-IsSound :
    (site : Site) (c : Call) (id : String) (req : ReproduceRequest) (q : Request) (f : FrozenRepro)
    (s : ServiceStore) (h : List Observed) (r : Result RunnerError ReproductionResult)
    → q.session_id ≡ id
    → q.script ≡ f.script
    → find_frozen id s.frozen ≡ some f
    → IsSound h s
    → IsSound
        ((verify_outcome site c id req q f s r).observed ++ h)
        (verify_outcome site c id req q f s r).store
verify_outcome-IsSound site c id req q f s h (err x) e1 e2 found i = i
verify_outcome-IsSound site c id req q f s h (ok after) e1 e2 found i =
    verify_result-IsSound site c id req q f s after h e1 e2 found i

verify_frozen-IsSound :
    (site : Site) (m : Machine) (cfg : ReproConfig) (c : Call) (id : String)
    (req : ReproduceRequest) (s : ServiceStore) (h : List Observed) (o : Option FrozenRepro)
    → find_frozen id s.frozen ≡ o
    → IsSound h s
    → IsSound
        ((verify_frozen site m cfg c id req s o).observed ++ h)
        (verify_frozen site m cfg c id req s o).store
verify_frozen-IsSound site m cfg c id req s h none found i = i
verify_frozen-IsSound site m cfg c id req s h (some f) found i =
    let q = verify_request site cfg id f req in
    verify_outcome-IsSound site c id req q f s h (run_reproduction m q).0 refl refl found i

reproduce_outcome-IsSound :
    (q : Request) (s : ServiceStore) (h : List Observed) (r : Result RunnerError ReproductionResult)
    → IsSound h s
    → IsSound ((reproduce_outcome q s r).observed ++ h) (reproduce_outcome q s r).store
reproduce_outcome-IsSound q s h (err x) i = i
reproduce_outcome-IsSound q s h (ok r) i = Observed-IsSound h (observed_run q r) s i

reproduce_trace-IsSound :
    (site : Site) (m : Machine) (cfg : ReproConfig) (c : Call) (id : String)
    (req : ReproduceRequest) (s : ServiceStore) (h : List Observed) (o : Option TraceRecord)
    → IsSound h s
    → IsSound
        ((reproduce_trace site m cfg c id req s o).observed ++ h)
        (reproduce_trace site m cfg c id req s o).store
reproduce_trace-IsSound site m cfg c id req s h none i = i
reproduce_trace-IsSound site m cfg c id req s h (some t) i =
    let script = site.compile id t.footsteps (app_url site cfg) cfg in
    let q = run_request site cfg id script t.footsteps req in
    reproduce_outcome-IsSound q (audit c "stepstitch.reproduce" id "" s) h (run_reproduction m q).0
      (record { frozen_measured = i.frozen_measured; rows_sound = i.rows_sound })

reported_sound :
    (site : Site) (c : Call) (t : TraceRecord) (id : String) (p : VerifyPayload) (h : List Observed)
    → row_is_sound h (reported_row site c t id p) ≡ true
unfolding row_is_sound derive_grade
reported_sound site c t id p h =
    let text = verdict_text (derive_verdict p.pre_passed p.post_passed) in
    ground (arith, eq_iff text text)

-- A caller's report is stored as its word, under the verdict that its outcomes give.
report_on-IsSound :
    (site : Site) (c : Call) (id : String) (p : VerifyPayload) (s : ServiceStore)
    (h : List Observed) (o : Option TraceRecord)
    → IsSound h s
    → IsSound h (report_on site c id p s o).1
report_on-IsSound site c id p s h none i = i
report_on-IsSound site c id p s h (some t) i = record {
  frozen_measured = i.frozen_measured;
  rows_sound = ground (
    arith,
    i.rows_sound,
    reported_sound site c t id p h,
    all-append (row_is_sound h) s.verifications (reported_row site c t id p ∷ []),
  );
}

pub save_keeps :
    (site : Site) (capture : Provider Bool) (overrides : Provider Fields) (c : Call)
    (p : IngestTracePayload) (s : ServiceStore)
    → ((save_session_trace site capture overrides c p s).1.frozen ≡ s.frozen)
      × ((save_session_trace site capture overrides c p s).1.verifications ≡ s.verifications)
unfolding save_session_trace
save_keeps site capture overrides c p s = ground arith

pub Step-IsSound :
    (site : Site) (s : ServiceStore) (o h : List Observed) (u : ServiceStore)
    → Step site s o u
    → IsSound h s
    → IsSound (o ++ h) u
unfolding freeze_reproduction verify_fix reproduce_locally post_verify delete_user_traces purge
Step-IsSound site s o h u (ingests capture overrides c p) i =
    let same = save_keeps site capture overrides c p s in
    record { frozen_measured = rw same.0 i.frozen_measured; rows_sound = rw same.1 i.rows_sound }
Step-IsSound site s o h u (freezes m cfg c id req) i =
    freeze_trace-IsSound site m cfg c id req s h (find_trace id s.traces) i
Step-IsSound site s o h u (verifies m cfg c id req) i =
    verify_frozen-IsSound site m cfg c id req s h (find_frozen id s.frozen) refl i
Step-IsSound site s o h u (reproduces m cfg c id req) i =
    reproduce_trace-IsSound site m cfg c id req s h (find_trace id s.traces) i
Step-IsSound site s o h u (reports c id p) i =
    report_on-IsSound site c id p s h (find_trace id s.traces) i
Step-IsSound site s o h u (deletes c user) i = record {
  frozen_measured = i.frozen_measured;
  rows_sound = i.rows_sound;
}
Step-IsSound site s o h u (purges cutoff) i = record {
  frozen_measured = i.frozen_measured;
  rows_sound = i.rows_sound;
}

pub Reach-IsSound :
    (site : Site) (h : List Observed) (s : ServiceStore) → Reach site empty_store h s → IsSound h s
Reach-IsSound site h s here = record { frozen_measured = refl; rows_sound = refl }
Reach-IsSound site h s (next {h = h0} {o = o} {t = t} r st) =
    Step-IsSound site t o h0 s st (Reach-IsSound site h0 t r)
