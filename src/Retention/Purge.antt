-- ===== src/Retention/Purge.antt =====
-- What the purge of retention.py removes and what it leaves.
use stepstitch.Prelude.{
  ℕ, ◌+◌, ◌≡◌, refl, inl, inr, String, Bool, true, false, not, List, [], ◌∷◌, arith, if◌then◌else◌,
  get_or, Option-cases, length, all, keep, count_if, count_if-not, all-keep, length-keep, contains,
}
use stepstitch.Prelude.Int.{pos, negsuc}
use stepstitch.Retention.{
  TraceRow, Store, expired, ids, count_expired, delete_diagnostics, delete_traces, or_unchanged,
  purge_expired_traces,
}

-- The diagnostics rows of a store, none where there is no table.
abbrev pub rows_of : Store → List String
rows_of s = get_or s.diagnostics []

survivor :
    (d : String) (cutoff : ℕ) (ts : List TraceRow)
    → contains d (ids ts) ≡ true
    → contains d (ids (keep (expired cutoff) ts)) ≡ false
    → contains d (ids (keep (λ t. not (expired cutoff t)) ts)) ≡ true
survivor d cutoff [] h k = h
survivor d cutoff (t ∷ ts) h k = ground (arith, survivor d cutoff ts)

survivors :
    (cutoff : ℕ) (ts : List TraceRow) (rows : List String)
    → all (λ d. contains d (ids ts)) rows ≡ true
    → all
        (λ d. contains d (ids (keep (λ t. not (expired cutoff t)) ts)))
        (keep (λ d. not (contains d (ids (keep (expired cutoff) ts)))) rows)
      ≡ true
survivors cutoff ts [] h = refl
survivors cutoff ts (d ∷ rows) h = ground (arith, survivor d cutoff ts, survivors cutoff ts rows)

-- The first statement leaves the traces alone, and of the diagnostics those of no expired trace.
after_diagnostics :
    (cutoff : ℕ) (s : Store)
    → let s' = or_unchanged s (delete_diagnostics cutoff s) in
      (s'.traces ≡ s.traces)
      × (rows_of s'
          ≡ keep (λ d. not (contains d (ids (keep (expired cutoff) s.traces)))) (rows_of s))
unfolding delete_diagnostics
after_diagnostics cutoff s = elim (Option-cases s.diagnostics) [
  | inl e ↦ rw e (refl, refl)
  | inr (rows, e) ↦ rw e (refl, refl)
]

-- The purge removes the expired traces and no other, and reports how many: -1 where it was not
-- asked to count.
pub purge_expired_traces_exact :
    (has_fetchone : Bool) (cutoff : ℕ) (s : Store)
    → let (count, s') = purge_expired_traces has_fetchone cutoff s in
      (all (λ t. not (expired cutoff t)) s'.traces ≡ true)
      × (length s'.traces + count_if (expired cutoff) s.traces ≡ length s.traces)
      × (count ≡ (if has_fetchone then pos (count_if (expired cutoff) s.traces) else negsuc 0))
unfolding purge_expired_traces count_expired delete_traces delete_diagnostics
purge_expired_traces_exact has_fetchone cutoff s = rw (after_diagnostics cutoff s).0 (
  all-keep (λ t. not (expired cutoff t)) s.traces,
  omega (
    arith,
    length-keep (λ t. not (expired cutoff t)) s.traces,
    count_if-not (expired cutoff) s.traces,
  ),
  refl,
)

-- Where every diagnostics row has its trace, every row that the purge leaves still has its trace.
pub purge-no_orphans :
    (has_fetchone : Bool) (cutoff : ℕ) (s : Store)
    → all (λ d. contains d (ids s.traces)) (rows_of s) ≡ true
    → let s' = (purge_expired_traces has_fetchone cutoff s).1 in
      all (λ d. contains d (ids s'.traces)) (rows_of s') ≡ true
unfolding purge_expired_traces count_expired delete_traces delete_diagnostics
purge-no_orphans has_fetchone cutoff s h =
    let (same, left) = after_diagnostics cutoff s in
    rw same (rw left (survivors cutoff s.traces (rows_of s) h))
