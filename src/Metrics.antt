-- ===== src/Metrics.antt =====
-- service/stepstitch_service/metrics.py: the numbers of the overview, derived from the shapes that
-- `Shapes.cluster` gives. A day is the first ten characters of a time, a route is a text, and a rate is
-- in tenths of a percent, rounded from the exact quotient.
pub mod Totals
pub mod Summary
use stepstitch.Prelude.{
  ◌-◌, ℕ, zero, suc, ◌+◌, ◌*◌, ◌≤◌, ◌<◌, ◌≡◌, refl, sym, ap, ◌∙◌, ◌↔◌, ◌⊎◌, inl, inr, String, Bool,
  true, false, not, ◌&&◌, ◌||◌, Option, none, some, List, [], ◌∷◌, ◌++◌, map, arith, ltb, leb, ◌==◌,
  str_eq, if◌then◌else◌, is_some, opt_is, get_or, Bool-cases, Option-cases, length, is_empty, head?,
  take, any, all, keep, count_if, sum_of, contains, sort_by, Result, ok, err, ◌>>=◌, ◌>>◌, raise_if,
  bind-eq-ok, eq_iff, min, max,
}
use stepstitch.Prelude.Text.{Text, codes, text_eq}
use stepstitch.Json.{Json, str, Fields, get, str_leb}
use stepstitch.FixMemory.{round_half_even}
use stepstitch.Shapes.{Shape, Stage, stage_rank, fixed}

abbrev pub Day : Type 0
Day = Text

-- `_day`.
abbrev pub day : Option String → Day
day iso = take 10 (codes (get_or iso ""))

abbrev pub is_stage : Stage → Stage → Bool
is_stage a b = stage_rank a == stage_rank b

unfoldable pub open_shapes : List Shape → List Shape
open_shapes shapes = keep (λ s. not (is_stage s.stage fixed)) shapes

unfoldable pub people_affected : List Shape → ℕ
people_affected shapes = sum_of (λ s. s.occurrences) shapes

unfoldable pub repeat_rate : List Shape → ℕ
repeat_rate shapes =
    if is_empty shapes
    then 0
    else round_half_even (count_if (λ s. not (is_empty s.prior_fixes)) shapes * 1000)
        (length shapes)

-- How many shapes first appeared on each day.
unfoldable pub daily_series : List Shape → List Day → List ℕ
daily_series shapes days = map (λ d. count_if (λ s. text_eq (day s.first_seen) d) shapes) days

-- `daily.get(d, 0)`.
abbrev pub tally_at : List (Text × ℕ) → Day → ℕ
tally_at [] d = 0
tally_at ((e, n) ∷ daily) d = let rest = tally_at daily d in if text_eq e d then n else rest

unfoldable pub people_series : List Shape → List Day → List ℕ
people_series shapes days = map (λ d. sum_of (λ s. tally_at s.daily d) shapes) days

abbrev pub count_at : List Shape → Stage → ℕ
count_at shapes st = count_if (λ s. is_stage s.stage st) shapes

unfoldable pub stage_breakdown : List Shape → List Stage → List (Stage × ℕ)
stage_breakdown shapes order =
    keep (λ r. not (r.1 == 0)) (map (λ st. (st, count_at shapes st)) order)

-- A route that is no text, which a fingerprint never has, is passed over.
abbrev pub route_in : Json → Option String
route_in (str s) = if str_eq s "" then none else some s
route_in _ = none

-- `totals[route] += n`.
unfoldable pub add_people : String → ℕ → List (String × ℕ) → List (String × ℕ)
add_people route n [] = (route, n) ∷ []
add_people route n ((r, m) ∷ totals) =
    let rest = add_people route n totals in
    if str_eq r route then (r, m + n) ∷ totals else (r, m) ∷ rest

abbrev pub add_shape : Option String → ℕ → List (String × ℕ) → List (String × ℕ)
add_shape none n totals = totals
add_shape (some route) n totals = add_people route n totals

unfoldable pub totals_from : List (String × ℕ) → List Shape → List (String × ℕ)
totals_from totals [] = totals
totals_from totals (s ∷ shapes) =
    totals_from (add_shape (route_in (get "route" s.fingerprint)) s.occurrences totals) shapes

-- More people first, and equal ones by their route.
abbrev pub ranks_before : String × ℕ → String × ℕ → Bool
ranks_before (r, m) (q, n) = ltb n m || (m == n && str_leb r q)

unfoldable pub worst_hit_pages : List Shape → ℕ → List (String × ℕ)
worst_hit_pages shapes limit = take limit (sort_by ranks_before (totals_from [] shapes))

pub record Overview : Type 0 where
  pub open_count : ℕ
  pub people : ℕ
  pub fixed_count : ℕ
  pub rate : ℕ
  pub days : List Day
  pub series : List ℕ
  pub new_shapes_series : List ℕ
  pub stages : List (Stage × ℕ)
  pub pages : List (String × ℕ)
  pub total : ℕ

unfoldable pub summary : List Shape → List Day → List Stage → Overview
summary shapes days stage_order =
    let opened = open_shapes shapes in
    record {
      open_count = length opened;
      people = people_affected opened;
      fixed_count = count_if (λ s. is_stage s.stage fixed) shapes;
      rate = repeat_rate shapes;
      days = days;
      series = people_series shapes days;
      new_shapes_series = daily_series shapes days;
      stages = stage_breakdown opened stage_order;
      pages = worst_hit_pages opened 5;
      total = length shapes;
    }
