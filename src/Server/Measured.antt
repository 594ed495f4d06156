-- ===== src/Server/Measured.antt =====
-- A measured row of the store rests on two runs that were made here.
use stepstitch.Prelude.{
  ◌≡◌, refl, String, Bool, true, false, not, ◌&&◌, ◌||◌, some, List, [], ◌∷◌, arith, str_eq, any,
  all, keep, eq_iff,
}
use stepstitch.Runner.{RunVerdict, reproduced, not_reproduced, needs_setup, inconclusive}
use stepstitch.Runner.Run.{Machine, Request, ReproductionResult}
use stepstitch.Verdict.{derive_verdict, verdict_text}
use stepstitch.Evidence.{derive_grade}
use stepstitch.Fixcheck.{FixOutcome, fixed}
use stepstitch.Fixcheck.Verdicts.{derive_fix_verdict_exact}
use stepstitch.Repro.Config.{given}
use stepstitch.Server.Store.{FrozenRepro, Verification, ServiceStore, Site, Call, find_frozen}
use stepstitch.Server.Requests.{ReproduceRequest, Observed, verdict_name}
use stepstitch.Server.Freeze.{is_reproduced, store_diagnostics, frozen_repro}
use stepstitch.Server.Verify.{fix_verdict, is_fixed, measured_row}

abbrev pub is_green : RunVerdict → Bool
is_green not_reproduced = true
is_green _ = false

-- The script reproduced the failure of the session in a run so far.
unfoldable pub was_red : String → String → List Observed → Bool
was_red id script =
    any (λ o. str_eq o.session id && str_eq o.script script && is_reproduced o.verdict)

-- In a later run of a session, a script that was red before did not reproduce the failure.
unfoldable pub red_to_green : String → List Observed → Bool
red_to_green id [] = false
red_to_green id (o ∷ h) =
    (str_eq o.session id && is_green o.verdict && was_red id o.script h) || red_to_green id h

unfoldable pub red_is_measured : List Observed → FrozenRepro → Bool
red_is_measured h f = not (str_eq f.red_verdict "reproduced") || was_red f.trace_id f.script h

-- The verdict is the one of the row's two outcomes, and a row is a caller's word or was measured.
unfoldable pub row_is_sound : List Observed → Verification → Bool
row_is_sound h v =
    str_eq v.verdict (verdict_text (derive_verdict v.pre_passed v.post_passed))
    && (str_eq v.evidence_grade "asserted"
        || (str_eq v.evidence_grade "measured" && red_to_green v.trace_id h))

pub record IsSound (h : List Observed) (s : ServiceStore) : Type 0 where
  pub frozen_measured : all (red_is_measured h) s.frozen ≡ true
  pub rows_sound : all (row_is_sound h) s.verifications ≡ true

-- What was observed stays observed.
pub red_stays :
    (h : List Observed) (o : Observed) (f : FrozenRepro)
    → red_is_measured h f ≡ true
    → red_is_measured (o ∷ h) f ≡ true
unfolding red_is_measured was_red
red_stays h o f k = ground (arith, k)

pub row_stays :
    (h : List Observed) (o : Observed) (v : Verification)
    → row_is_sound h v ≡ true
    → row_is_sound (o ∷ h) v ≡ true
unfolding row_is_sound red_to_green
row_stays h o v k = ground (arith, k)

pub all_stays {ℓ} :
    {A : Type ℓ} (p q : A → Bool) (xs : List A)
    → ((x : A) → p x ≡ true → q x ≡ true)
    → all p xs ≡ true
    → all q xs ≡ true
all_stays p q [] f h = refl
all_stays p q (x ∷ xs) f h = ground (arith, h, f x, all_stays p q xs f)

pub Observed-IsSound :
    (h : List Observed) (o : Observed) (s : ServiceStore) → IsSound h s → IsSound (o ∷ h) s
Observed-IsSound h o s i = record {
  frozen_measured =
      all_stays (red_is_measured h) (red_is_measured (o ∷ h)) s.frozen (red_stays h o)
        i.frozen_measured;
  rows_sound =
      all_stays (row_is_sound h) (row_is_sound (o ∷ h)) s.verifications (row_stays h o)
        i.rows_sound;
}

pub all-keep_of {ℓ} :
    {A : Type ℓ} (p q : A → Bool) (xs : List A) → all p xs ≡ true → all p (keep q xs) ≡ true
all-keep_of p q [] h = refl
all-keep_of p q (x ∷ xs) h = ground (arith, h, all-keep_of p q xs)

pub find_frozen-all :
    (p : FrozenRepro → Bool) (id : String) (fs : List FrozenRepro) (f : FrozenRepro)
    → find_frozen id fs ≡ some f
    → all p fs ≡ true
    → (p f ≡ true) × (str_eq f.trace_id id ≡ true)
unfolding find_frozen
find_frozen-all p id [] f h a = cc
find_frozen-all p id (g ∷ fs) f h a = ground (arith, h, a, find_frozen-all p id fs f)

pub is_fixed-eq : (x : FixOutcome) → is_fixed x ≡ true → x ≡ fixed
is_fixed-eq fixed h = refl
is_fixed-eq FixOutcome.still_failing h = cc
is_fixed-eq FixOutcome.different_failure h = cc
is_fixed-eq FixOutcome.unable_to_verify h = cc

pub fixed_red_green :
    (site : Site) (f : FrozenRepro) (after : ReproductionResult)
    → is_fixed (fix_verdict site f after).verdict ≡ true
    → (f.red_verdict ≡ "reproduced") × (is_green after.verdict ≡ true)
fixed_red_green site f after h =
    let exact =
      derive_fix_verdict_exact site.failure_signature (some f.red_verdict) f.red_signature after
        (given f.execution_envelope_sha256) in
    let facts = exact.0.0 (is_fixed-eq (fix_verdict site f after).verdict h) in
    (cc, rw facts.1 refl)

pub row_of_run :
    (site : Site) (c : Call) (id : String) (req : ReproduceRequest) (q : Request) (f : FrozenRepro)
    (s : ServiceStore) (after : ReproductionResult) (h : List Observed)
    → str_eq q.session_id id ≡ true
    → str_eq q.script f.script ≡ true
    → str_eq f.trace_id id ≡ true
    → red_is_measured h f ≡ true
    → is_fixed (fix_verdict site f after).verdict ≡ true
    → row_is_sound
        (record { session = q.session_id; script = q.script; verdict = after.verdict } ∷ h)
        (measured_row site c id req s)
      ≡ true
unfolding row_is_sound red_to_green red_is_measured derive_grade derive_verdict
row_of_run site c id req q f s after h hs hq hf hr hv =
    let facts = fixed_red_green site f after hv in
    let is_red : was_red f.trace_id f.script h ≡ true =
      ground (arith, hr, (eq_iff f.red_verdict "reproduced").1 facts.0) in
    let same_id : f.trace_id ≡ id = (eq_iff f.trace_id id).0 hf in
    let same_script : q.script ≡ f.script = (eq_iff q.script f.script).0 hq in
    let red : was_red id q.script h ≡ true = rw same_script (rw (← same_id) is_red) in
    ground (arith, hs, facts.1, red)

pub store_diagnostics-keeps :
    (site : Site) (c : Call) (id : String) (red : ReproductionResult) (s : ServiceStore)
    → ((store_diagnostics site c id red s).frozen ≡ s.frozen)
      × ((store_diagnostics site c id red s).verifications ≡ s.verifications)
unfolding store_diagnostics
store_diagnostics-keeps site c id red s = ground arith

pub verdict_name-reproduced :
    (v : RunVerdict) → str_eq (verdict_name v) "reproduced" ≡ is_reproduced v
verdict_name-reproduced reproduced = refl
verdict_name-reproduced not_reproduced = refl
verdict_name-reproduced needs_setup = refl
verdict_name-reproduced inconclusive = refl

-- What is frozen as "reproduced" was observed so.
pub frozen_row :
    (site : Site) (m : Machine) (c : Call) (id script : String) (red : ReproductionResult)
    (h : List Observed)
    → red_is_measured
        (record { session = id; script = script; verdict = red.verdict } ∷ h)
        (frozen_repro site m c id script red)
      ≡ true
unfolding red_is_measured was_red
frozen_row site m c id script red h =
    ground (arith, eq_iff id id, eq_iff script script, verdict_name-reproduced red.verdict)
