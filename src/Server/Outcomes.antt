-- ===== src/Server/Outcomes.antt =====
-- What the console says of a session in a store that the service's requests have led to.
use stepstitch.Prelude.{
  ◌≡◌, refl, ap, ◌∙◌, inl, inr, String, Bool, true, false, Option, none, some, List, [], ◌∷◌, arith,
  leb, str_eq, Bool-cases, any, all, keep, contains, sort_by, eq_iff,
}
use stepstitch.Prelude.{all-sort_by, all-take, all-keep}
use stepstitch.Verdict.{derive_verdict, verdict_text}
use stepstitch.Execution.{
  grades_of, ExecutionSummary, VerificationRow, FrozenRow, confirmed_fixed, confirmed, went_red,
  went_green, grades_of, derive_execution_state, execution_summary,
}
use stepstitch.Runner.Run.{ReadinessItem}
use stepstitch.Repro.Config.{ReproConfig}
use stepstitch.Repro.Needs.{readiness}
use stepstitch.Server.Store.{TraceRecord, Verification, ServiceStore, Site, find_trace, find_frozen}
use stepstitch.Server.Requests.{Observed}
use stepstitch.Server.Reports.{session_rows, rows_of, frozen_of, execution_of, session_execution}
use stepstitch.Server.Steps.{Reach, empty_store}
use stepstitch.Server.Measured.{row_is_sound, red_to_green, all-keep_of}
use stepstitch.Server.Keeps.{Reach-IsSound}

-- In every store that is reached from the empty one, each verification row carries the verdict that
-- its two outcomes give, and is graded "asserted", or else is graded "measured" and rests on two
-- runs of one script that the service made for the row's session: one that reproduced the failure
-- and a later one that did not.
pub Reach-rows_sound :
    (site : Site) (h : List Observed) (s : ServiceStore)
    → Reach site empty_store h s
    → all (row_is_sound h) s.verifications ≡ true
Reach-rows_sound site h s r = (Reach-IsSound site h s r).rows_sound

all-session_rows :
    (p : Verification → Bool) (id : String) (rows : List Verification)
    → all p rows ≡ true
    → all p (session_rows id rows) ≡ true
unfolding session_rows
all-session_rows p id rows h =
    let mine = keep (λ v. str_eq v.trace_id id) rows in
    let before = λ (a b : Verification). leb b.created_at a.created_at in
    all-take p 20 (sort_by before mine)
      (all-sort_by before p mine ∙ all-keep_of p (λ v. str_eq v.trace_id id) rows h)

session_rows_mine :
    (id : String) (rows : List Verification)
    → all (λ v. str_eq v.trace_id id) (session_rows id rows) ≡ true
unfolding session_rows
session_rows_mine id rows =
    let p = λ (v : Verification). str_eq v.trace_id id in
    let mine = keep p rows in
    let before = λ (a b : Verification). leb b.created_at a.created_at in
    all-take p 20 (sort_by before mine) (all-sort_by before p mine ∙ all-keep p rows)

measured_among :
    (h : List Observed) (id : String) (rows : List Verification)
    → all (row_is_sound h) rows ≡ true
    → all (λ v. str_eq v.trace_id id) rows ≡ true
    → contains "measured" (grades_of (rows_of rows)) ≡ true
    → red_to_green id h ≡ true
unfolding row_is_sound
measured_among h id [] a m c = cc
measured_among h id (v ∷ rows) a m c = elim (Bool-cases (str_eq v.evidence_grade "measured")) [
  | inl e ↦
      let same : v.trace_id ≡ id = (eq_iff v.trace_id id).0 (ground (arith, m)) in
      let is_measured : v.evidence_grade ≡ "measured" = (eq_iff v.evidence_grade "measured").0 e in
      let other : str_eq v.evidence_grade "asserted" ≡ false = rw is_measured refl in
      let found : red_to_green v.trace_id h ≡ true = ground (arith, a, other) in rw (← same) found
  | inr e ↦ measured_among h id rows (ground (arith, a)) (ground (arith, m)) (ground (arith, c, e))
]

-- A text is not two texts.
absurd_text {ℓ} :
    {A : Type ℓ} (s t : String)
    → str_eq s t ≡ true
    → str_eq s "confirmed_fixed" ≡ true
    → str_eq "confirmed_fixed" t ≡ false
    → A
absurd_text s t h c n =
    let e : s ≡ "confirmed_fixed" = (eq_iff s "confirmed_fixed").0 c in
    let k : str_eq "confirmed_fixed" t ≡ true = rw (← e) h in cc

row_outcomes :
    (pre : Bool) (post : Option Bool) (verdict : String)
    → str_eq verdict (verdict_text (derive_verdict pre post)) ≡ true
    → str_eq verdict "confirmed_fixed" ≡ true
    → (pre ≡ false) × (post ≡ some true)
unfolding derive_verdict
row_outcomes false none verdict h c = absurd_text verdict "reproduced_unfixed" h c refl
row_outcomes false (some true) verdict h c = (refl, refl)
row_outcomes false (some false) verdict h c = absurd_text verdict "not_fixed" h c refl
row_outcomes true post verdict h c = absurd_text verdict "not_reproduced" h c refl

confirmed_among :
    (h : List Observed) (rows : List Verification)
    → all (row_is_sound h) rows ≡ true
    → any confirmed (rows_of rows) ≡ true
    → (any went_red (rows_of rows) ≡ true) × (any went_green (rows_of rows) ≡ true)
unfolding row_is_sound
confirmed_among h [] a c = cc
confirmed_among h (v ∷ rows) a c =
    ground (arith, a, c, row_outcomes v.pre_passed v.post_passed v.verdict, confirmed_among h rows)

grade_measured :
    (items : List ReadinessItem) (frozen : Option FrozenRow) (rows : List VerificationRow)
    → (execution_summary items frozen rows).evidence_grade ≡ some "measured"
    → contains "measured" (grades_of rows) ≡ true
unfolding execution_summary
grade_measured items frozen rows g =
    ground (arith, g, eq_iff "signed" "measured", eq_iff "asserted" "measured")

summary_measured :
    (site : Site) (cfg : ReproConfig) (id : String) (s : ServiceStore) (h : List Observed)
    (o : Option TraceRecord) (summary : ExecutionSummary)
    → all (row_is_sound h) s.verifications ≡ true
    → execution_of site cfg id s o ≡ some summary
    → summary.evidence_grade ≡ some "measured"
    → red_to_green id h ≡ true
summary_measured site cfg id s h none summary a e g = cc
summary_measured site cfg id s h (some t) summary a e g =
    let rows = session_rows id s.verifications in
    let sound = all-session_rows (row_is_sound h) id s.verifications a in
    let items = readiness site.python (some cfg) t.footsteps (some site.base_url) in
    let frozen = frozen_of (find_frozen id s.frozen) in
    let same : execution_summary items frozen (rows_of rows) ≡ summary = ground (arith, e) in
    measured_among h id rows sound (session_rows_mine id s.verifications)
      (grade_measured items frozen (rows_of rows) (ap (λ x. x.evidence_grade) same ∙ g))

summary_confirmed :
    (site : Site) (cfg : ReproConfig) (id : String) (s : ServiceStore) (h : List Observed)
    (o : Option TraceRecord) (summary : ExecutionSummary)
    → all (row_is_sound h) s.verifications ≡ true
    → execution_of site cfg id s o ≡ some summary
    → summary.execution_state ≡ confirmed_fixed
    → (summary.red_ran ≡ true) × (summary.green_ran ≡ true)
unfolding execution_summary derive_execution_state
summary_confirmed site cfg id s h none summary a e g = cc
summary_confirmed site cfg id s h (some t) summary a e g =
    let rows = session_rows id s.verifications in
    let sound = all-session_rows (row_is_sound h) id s.verifications a in
    ground (arith, e, g, confirmed_among h rows sound)

-- In a store reached from the empty one, the console calls a session's evidence "measured" only if
-- the service made two runs of one script for that session, of which the first reproduced the
-- failure and the later one did not.
pub session_execution_measured :
    (site : Site) (h : List Observed) (s : ServiceStore) (cfg : ReproConfig) (id : String)
    (summary : ExecutionSummary)
    → Reach site empty_store h s
    → session_execution site cfg id s ≡ some summary
    → summary.evidence_grade ≡ some "measured"
    → red_to_green id h ≡ true
unfolding session_execution
session_execution_measured site h s cfg id summary r =
    summary_measured site cfg id s h (find_trace id s.traces) summary (Reach-rows_sound site h s r)

-- In a store reached from the empty one, the console calls a session "confirmed fixed" only with a
-- red run and a green run on record.
pub session_execution_confirmed :
    (site : Site) (h : List Observed) (s : ServiceStore) (cfg : ReproConfig) (id : String)
    (summary : ExecutionSummary)
    → Reach site empty_store h s
    → session_execution site cfg id s ≡ some summary
    → summary.execution_state ≡ confirmed_fixed
    → (summary.red_ran ≡ true) × (summary.green_ran ≡ true)
unfolding session_execution
session_execution_confirmed site h s cfg id summary r =
    summary_confirmed site cfg id s h (find_trace id s.traces) summary (Reach-rows_sound site h s r)
