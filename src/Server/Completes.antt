-- ===== src/Server/Completes.antt =====
-- The loop can be completed: a red run that is frozen and a green run after the change prove the fix.
use stepstitch.Prelude.{
  ◌≡◌, refl, ap, ◌∙◌, String, true, false, not, some, List, [], ◌∷◌, ◌++◌, arith, str_eq, keep, ok,
  eq_iff,
}
use stepstitch.Runner.{reproduced, not_reproduced}
use stepstitch.Runner.Run.{Machine, ReproductionResult, run_reproduction}
use stepstitch.Fixcheck.Verdicts.{derive_fix_verdict_exact}
use stepstitch.Repro.Config.{ReproConfig, given}
use stepstitch.Evidence.{derive_grade}
use stepstitch.Server.Measured.{store_diagnostics-keeps}
use stepstitch.Server.Store.{
  TraceRecord, FrozenRepro, Verification, ServiceStore, Site, Call, find_trace, find_frozen,
}
use stepstitch.Server.Requests.{ReproduceRequest, app_url, verdict_name}
use stepstitch.Server.Freeze.{
  freeze_request, freeze_result, freeze_outcome, freeze_trace, freeze_reproduction, frozen_repro,
  store_diagnostics, is_needs_setup,
}
use stepstitch.Server.Verify.{
  verify_request, verify_result, verify_outcome, verify_frozen, verify_fix, fix_verdict, is_fixed,
  measured_row,
}

find_frozen-replaced :
    (id : String) (fs : List FrozenRepro) (f : FrozenRepro)
    → str_eq f.trace_id id ≡ true
    → find_frozen id (keep (λ g. not (str_eq g.trace_id id)) fs ++ f ∷ []) ≡ some f
unfolding find_frozen
find_frozen-replaced id [] f h = rw h refl
find_frozen-replaced id (g ∷ fs) f h = ground (arith, find_frozen-replaced id fs f h)

-- After a freeze that observed the failure, the row of that run is what the session is judged by.
pub frozen_by_freeze :
    (site : Site) (m : Machine) (cfg : ReproConfig) (c : Call) (id : String)
    (req : ReproduceRequest) (s : ServiceStore) (t : TraceRecord) (before : ReproductionResult)
    → find_trace id s.traces ≡ some t
    → (run_reproduction m (freeze_request site cfg id t req)).0 ≡ ok before
    → before.verdict ≡ reproduced
    → find_frozen id (freeze_reproduction site m cfg c id req s).store.frozen
      ≡ some (frozen_repro site m c id (site.compile id t.footsteps (app_url site cfg) cfg) before)
unfolding freeze_reproduction freeze_result
frozen_by_freeze site m cfg c id req s t before h1 h2 h3 =
    let row =
      frozen_repro site m c id (site.compile id t.footsteps (app_url site cfg) cfg) before in
    let s1 = store_diagnostics site c id before s in
    let ran : is_needs_setup before.verdict ≡ false = ap is_needs_setup h3 in
    rw (freeze_reproduction, freeze_trace, h1, freeze_outcome, h2, freeze_result, ran)
      (find_frozen-replaced id s1.frozen row ((eq_iff id id).1 refl))

green_is_fixed :
    (site : Site) (f : FrozenRepro) (after : ReproductionResult)
    → f.red_verdict ≡ "reproduced"
    → after.verdict ≡ not_reproduced
    → is_fixed (fix_verdict site f after).verdict ≡ true
green_is_fixed site f after h1 h2 =
    let exact =
      derive_fix_verdict_exact site.failure_signature (some f.red_verdict) f.red_signature after
        (given f.execution_envelope_sha256) in
    ap is_fixed (exact.0.1 (ap some h1, h2))

verified :
    (site : Site) (m : Machine) (cfg : ReproConfig) (c : Call) (id : String)
    (req : ReproduceRequest) (s : ServiceStore) (f : FrozenRepro) (after : ReproductionResult)
    → find_frozen id s.frozen ≡ some f
    → (run_reproduction m (verify_request site cfg id f req)).0 ≡ ok after
    → is_fixed (fix_verdict site f after).verdict ≡ true
    → (verify_fix site m cfg c id req s).store.verifications
      ≡ s.verifications ++ measured_row site c id req s ∷ []
unfolding verify_fix verify_result
verified site m cfg c id req s f after h1 h2 h3 =
    rw (verify_fix, verify_frozen, h1, verify_outcome, h2, verify_result, h3) refl

freeze_verifications :
    (site : Site) (m : Machine) (cfg : ReproConfig) (c : Call) (id : String)
    (req : ReproduceRequest) (s : ServiceStore) (t : TraceRecord) (before : ReproductionResult)
    → find_trace id s.traces ≡ some t
    → (run_reproduction m (freeze_request site cfg id t req)).0 ≡ ok before
    → before.verdict ≡ reproduced
    → (freeze_reproduction site m cfg c id req s).store.verifications ≡ s.verifications
unfolding freeze_reproduction freeze_result
freeze_verifications site m cfg c id req s t before h1 h2 h3 =
    let ran : is_needs_setup before.verdict ≡ false = ap is_needs_setup h3 in
    rw (freeze_reproduction, freeze_trace, h1, freeze_outcome, h2, freeze_result, ran)
      (store_diagnostics-keeps site c id before s).1

-- The loop can be completed: for a session with a stored trace, where the run of the freeze reproduces
-- the failure and, of the row that this freezes, the later run does not, the two requests in turn add
-- exactly one verification row, which is confirmed, measured and the session's.
pub verify_fix-freeze_reproduction :
    (site : Site) (m m' : Machine) (cfg cfg' : ReproConfig) (c c' : Call) (id : String)
    (req req' : ReproduceRequest) (s : ServiceStore) (t : TraceRecord)
    (before after : ReproductionResult)
    → find_trace id s.traces ≡ some t
    → (run_reproduction m (freeze_request site cfg id t req)).0 ≡ ok before
    → before.verdict ≡ reproduced
    → let f =
        frozen_repro site m c id (site.compile id t.footsteps (app_url site cfg) cfg) before in
      (run_reproduction m' (verify_request site cfg' id f req')).0 ≡ ok after
      → after.verdict ≡ not_reproduced
      → let s1 = (freeze_reproduction site m cfg c id req s).store in
        let s2 = (verify_fix site m' cfg' c' id req' s1).store in
        (v : Verification) × (s2.verifications ≡ s.verifications ++ v ∷ [])
        × (v.trace_id ≡ id)
        × (v.verdict ≡ "confirmed_fixed")
        × (v.evidence_grade ≡ "measured")
unfolding derive_grade
verify_fix-freeze_reproduction site m m' cfg cfg' c c' id req req' s t before after h1 h2 h3 h4 h5 =
    let s1 = (freeze_reproduction site m cfg c id req s).store in
    let f = frozen_repro site m c id (site.compile id t.footsteps (app_url site cfg) cfg) before in
    let row = measured_row site c' id req' s1 in
    let here = frozen_by_freeze site m cfg c id req s t before h1 h2 h3 in
    let name : f.red_verdict ≡ "reproduced" = ap verdict_name h3 in
    let proved =
      verified site m' cfg' c' id req' s1 f after here h4 (green_is_fixed site f after name h5) in
    (
      row,
      proved
          ∙ ap (λ (vs : List Verification). vs ++ row ∷ [])
              (freeze_verifications site m cfg c id req s t before h1 h2 h3),
      refl,
      refl,
      refl,
    )
