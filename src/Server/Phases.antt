-- ===== src/Server/Phases.antt =====
-- A session's progress seen from outside: the state machine that the requests implement.
use stepstitch.Prelude.{
  ◌≡◌, refl, inl, inr, String, Bool, true, false, ◌&&◌, Option, none, some, List, [], ◌∷◌, ◌++◌,
  arith, str_eq, if◌then◌else◌, Bool-cases, any, Result, ok, err, eq_iff,
}
use stepstitch.Prelude.{any-append}
use stepstitch.Runner.Run.{Machine, Request, RunnerError, ReproductionResult, run_reproduction}
use stepstitch.Evidence.{derive_grade}
use stepstitch.Repro.Config.{ReproConfig}
use stepstitch.Server.Store.{
  TraceRecord, FrozenRepro, Verification, ServiceStore, Site, Call, find_trace, find_frozen, audit,
}
use stepstitch.Server.Ingest.{delete_user_traces, purge}
use stepstitch.Server.Requests.{
  ReproduceRequest, Observed, reproduce_outcome, reproduce_trace, reproduce_locally, run_request,
  app_url,
}
use stepstitch.Server.Freeze.{
  freeze_result, freeze_reproduction, freeze_outcome, freeze_trace, is_needs_setup, freeze_request,
}
use stepstitch.Server.Verify.{
  verify_result, verify_fix, verify_outcome, verify_frozen, fix_verdict, is_fixed, verify_request,
  measured_row,
}
use stepstitch.Server.Reports.{VerifyPayload, post_verify, report_on, reported_row}
use stepstitch.Server.Steps.{Step, ingests, freezes, verifies, reproduces, reports, deletes, purges}
use stepstitch.Server.Measured.{store_diagnostics-keeps, fixed_red_green}
use stepstitch.Server.Keeps.{save_keeps}

-- Nothing was measured; the failure was; the fix was.
pub data Phase : Type 0 where
  unmeasured measured_red proven : Phase

abbrev pub is_measured : String → Verification → Bool
is_measured id v = str_eq v.trace_id id && str_eq v.evidence_grade "measured"

abbrev pub red_frozen : Option FrozenRepro → Bool
red_frozen none = false
red_frozen (some f) = str_eq f.red_verdict "reproduced"

-- What a store says of a session.
unfoldable pub phase : String → ServiceStore → Phase
phase id s =
    if any (is_measured id) s.verifications
    then proven
    else if red_frozen (find_frozen id s.frozen)
    then measured_red
    else unmeasured

-- A proof is never lost, and is made from red only.
unfoldable pub may_move : Phase → Phase → Bool
may_move proven proven = true
may_move proven _ = false
may_move unmeasured proven = false
may_move unmeasured _ = true
may_move measured_red _ = true

same_rows :
    (id : String) (s u : ServiceStore)
    → u.verifications ≡ s.verifications
    → may_move (phase id s) (phase id u) ≡ true
unfolding phase may_move
same_rows id s u e = rw e (ground arith)

same_all :
    (id : String) (s u : ServiceStore) (v : Verification)
    → u.frozen ≡ s.frozen
    → u.verifications ≡ s.verifications ++ v ∷ []
    → (is_measured id v ≡ true → red_frozen (find_frozen id s.frozen) ≡ true)
    → may_move (phase id s) (phase id u) ≡ true
unfolding phase may_move
same_all id s u v e1 e2 k =
    rw (e1, e2, any-append (is_measured id) s.verifications (v ∷ [])) (ground (arith, k))

freeze_result-phase :
    (site : Site) (m : Machine) (c : Call) (id' id : String) (q : Request) (s : ServiceStore)
    (red : ReproductionResult)
    → may_move (phase id s) (phase id (freeze_result site m c id' q s red).store) ≡ true
unfolding freeze_result
freeze_result-phase site m c id' id q s red = elim (Bool-cases (is_needs_setup red.verdict)) [
  | inl b ↦ rw b (same_rows id s s refl)
  | inr b ↦ rw b (same_rows id s _ (store_diagnostics-keeps site c id' red s).1)
]

freeze_outcome-phase :
    (site : Site) (m : Machine) (c : Call) (id' id : String) (q : Request) (s : ServiceStore)
    (r : Result RunnerError ReproductionResult)
    → may_move (phase id s) (phase id (freeze_outcome site m c id' q s r).store) ≡ true
freeze_outcome-phase site m c id' id q s (err e) = same_rows id s s refl
freeze_outcome-phase site m c id' id q s (ok red) = freeze_result-phase site m c id' id q s red

freeze_trace-phase :
    (site : Site) (m : Machine) (cfg : ReproConfig) (c : Call) (id' id : String)
    (req : ReproduceRequest) (s : ServiceStore) (o : Option TraceRecord)
    → may_move (phase id s) (phase id (freeze_trace site m cfg c id' req s o).store) ≡ true
freeze_trace-phase site m cfg c id' id req s none = same_rows id s s refl
freeze_trace-phase site m cfg c id' id req s (some t) =
    let q = freeze_request site cfg id' t req in
    freeze_outcome-phase site m c id' id q s (run_reproduction m q).0

-- The row of a fix is for a session whose frozen run was red.
verify_result-phase :
    (site : Site) (c : Call) (id' id : String) (req : ReproduceRequest) (q : Request)
    (f : FrozenRepro) (s : ServiceStore) (after : ReproductionResult)
    → find_frozen id' s.frozen ≡ some f
    → may_move (phase id s) (phase id (verify_result site c id' req q f s after).store) ≡ true
unfolding verify_result
verify_result-phase site c id' id req q f s after found =
    elim (Bool-cases (is_fixed (fix_verdict site f after).verdict)) [
      | inl b ↦
          let facts = fixed_red_green site f after b in
          let was : red_frozen (find_frozen id' s.frozen) ≡ true =
            rw found ((eq_iff f.red_verdict "reproduced").1 facts.0) in
          rw b (same_all id s _ (measured_row site c id' req s) refl refl (red_of was))
      | inr b ↦ rw b (same_rows id s _ refl)
    ]
  where
    red_of :
        red_frozen (find_frozen id' s.frozen) ≡ true
        → is_measured id (measured_row site c id' req s) ≡ true
        → red_frozen (find_frozen id s.frozen) ≡ true
    red_of was h = let same : id' ≡ id = (eq_iff id' id).0 (ground (arith, h)) in rw (← same) was

verify_outcome-phase :
    (site : Site) (c : Call) (id' id : String) (req : ReproduceRequest) (q : Request)
    (f : FrozenRepro) (s : ServiceStore) (r : Result RunnerError ReproductionResult)
    → find_frozen id' s.frozen ≡ some f
    → may_move (phase id s) (phase id (verify_outcome site c id' req q f s r).store) ≡ true
verify_outcome-phase site c id' id req q f s (err e) found = same_rows id s s refl
verify_outcome-phase site c id' id req q f s (ok after) found =
    verify_result-phase site c id' id req q f s after found

verify_frozen-phase :
    (site : Site) (m : Machine) (cfg : ReproConfig) (c : Call) (id' id : String)
    (req : ReproduceRequest) (s : ServiceStore) (o : Option FrozenRepro)
    → find_frozen id' s.frozen ≡ o
    → may_move (phase id s) (phase id (verify_frozen site m cfg c id' req s o).store) ≡ true
verify_frozen-phase site m cfg c id' id req s none found = same_rows id s s refl
verify_frozen-phase site m cfg c id' id req s (some f) found =
    let q = verify_request site cfg id' f req in
    verify_outcome-phase site c id' id req q f s (run_reproduction m q).0 found

reproduce_outcome-phase :
    (id : String) (q : Request) (s u : ServiceStore) (r : Result RunnerError ReproductionResult)
    → u.verifications ≡ s.verifications
    → may_move (phase id s) (phase id (reproduce_outcome q u r).store) ≡ true
reproduce_outcome-phase id q s u (err e) h = same_rows id s u h
reproduce_outcome-phase id q s u (ok r) h = same_rows id s u h

reproduce_trace-phase :
    (site : Site) (m : Machine) (cfg : ReproConfig) (c : Call) (id' id : String)
    (req : ReproduceRequest) (s : ServiceStore) (o : Option TraceRecord)
    → may_move (phase id s) (phase id (reproduce_trace site m cfg c id' req s o).store) ≡ true
reproduce_trace-phase site m cfg c id' id req s none = same_rows id s s refl
reproduce_trace-phase site m cfg c id' id req s (some t) =
    let script = site.compile id' t.footsteps (app_url site cfg) cfg in
    let q = run_request site cfg id' script t.footsteps req in
    reproduce_outcome-phase id q s (audit c "stepstitch.reproduce" id' "" s)
      (run_reproduction m q).0 refl

report_on-phase :
    (site : Site) (c : Call) (id' id : String) (p : VerifyPayload) (s : ServiceStore)
    (o : Option TraceRecord)
    → may_move (phase id s) (phase id (report_on site c id' p s o).1) ≡ true
unfolding derive_grade
report_on-phase site c id' id p s none = same_rows id s s refl
report_on-phase site c id' id p s (some t) =
    same_all id s _ (reported_row site c t id' p) refl refl (λ h. ground (arith, h))

-- Every request of the service moves a session as the state machine of phases allows: a session that
-- is proven stays so, and one becomes proven only where its frozen run was measured red before.
pub Step-phase :
    (site : Site) (s : ServiceStore) (o : List Observed) (u : ServiceStore) (id : String)
    → Step site s o u
    → may_move (phase id s) (phase id u) ≡ true
unfolding freeze_reproduction verify_fix reproduce_locally post_verify delete_user_traces purge
Step-phase site s o u id (ingests capture overrides c p) =
    same_rows id s _ (save_keeps site capture overrides c p s).1
Step-phase site s o u id (freezes m cfg c id' req) =
    freeze_trace-phase site m cfg c id' id req s (find_trace id' s.traces)
Step-phase site s o u id (verifies m cfg c id' req) =
    verify_frozen-phase site m cfg c id' id req s (find_frozen id' s.frozen) refl
Step-phase site s o u id (reproduces m cfg c id' req) =
    reproduce_trace-phase site m cfg c id' id req s (find_trace id' s.traces)
Step-phase site s o u id (reports c id' p) =
    report_on-phase site c id' id p s (find_trace id' s.traces)
Step-phase site s o u id (deletes c user) = same_rows id s _ refl
Step-phase site s o u id (purges cutoff) = same_rows id s _ refl
