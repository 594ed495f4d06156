-- ===== src/Retention.antt =====
-- service/stepstitch_service/retention.py: the purge of expired trace bodies.
-- The two tables are lists of rows, and the three SQL statements of the file are functions on them.
-- A time is a number of seconds. A store of before migration 0008 has no diagnostics table.
pub mod Purge
use stepstitch.Prelude.{
  ℕ, zero, suc, ◌+◌, ◌*◌, ◌≤◌, ◌<◌, ◌≡◌, refl, sym, ap, ◌∙◌, ◌↔◌, ◌⊎◌, inl, inr, String, Bool, true,
  false, not, ◌&&◌, ◌||◌, Option, none, some, List, [], ◌∷◌, ◌++◌, map, arith, ltb, leb, ◌==◌,
  str_eq, if◌then◌else◌, is_some, opt_is, get_or, Bool-cases, Option-cases, length, is_empty, head?,
  take, any, all, keep, count_if, sum_of, contains, sort_by, Result, ok, err, ◌>>=◌, ◌>>◌, raise_if,
  bind-eq-ok, eq_iff, min, max,
}
use stepstitch.Prelude.Int.{ℤ, pos, negsuc}

pub record TraceRow : Type 0 where
  pub id : String
  pub retention_expires_at : Option ℕ

pub record Store : Type 0 where
  pub traces : List TraceRow
  pub diagnostics : Option (List String)

-- `retention_expires_at IS NOT NULL AND retention_expires_at < ?`.
abbrev pub expired : ℕ → TraceRow → Bool
expired cutoff t = elim t.retention_expires_at [ none ↦ false | some e ↦ ltb e cutoff ]

abbrev pub ids : List TraceRow → List String
ids [] = []
ids (t ∷ ts) = t.id ∷ ids ts

unfoldable pub count_expired : ℕ → Store → ℕ
count_expired cutoff s = count_if (expired cutoff) s.traces

unfoldable pub delete_diagnostics : ℕ → Store → Result (Unit {0}) Store
delete_diagnostics cutoff s = elim s.diagnostics [
  | none ↦ err tt
  | some rows ↦ ok (record s {
    diagnostics = some (keep (λ d. not (contains d (ids (keep (expired cutoff) s.traces)))) rows);
  })
]

unfoldable pub delete_traces : ℕ → Store → Store
delete_traces cutoff s = record s { traces = keep (λ t. not (expired cutoff t)) s.traces }

-- The exception of the first statement is swallowed.
abbrev pub or_unchanged : Store → Result (Unit {0}) Store → Store
or_unchanged s (ok s') = s'
or_unchanged s (err _) = s

-- With `fetchone` the number of purged rows is returned, without it -1.
unfoldable pub purge_expired_traces : Bool → ℕ → Store → ℤ × Store
purge_expired_traces has_fetchone cutoff s =
    let count = if has_fetchone then pos (count_expired cutoff s) else negsuc 0 in
    (count, delete_traces cutoff (or_unchanged s (delete_diagnostics cutoff s)))
