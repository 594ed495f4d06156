-- ===== src/Metrics/Summary.antt =====
-- The overview of metrics.py as a whole.
use stepstitch.Prelude.{
  all-take, ℕ, zero, suc, ◌+◌, ◌≤◌, ◌≡◌, refl, String, Bool, true, not, ◌&&◌, List, [], ◌∷◌, arith,
  leb, length, is_empty, take, any, all, count_if, sum_of, sort_by,
}
use stepstitch.Prelude.{
  length-map, insert_by, all-insert_by, all-take, sum_of-sort_by, length-take-le, count_if-le,
}
use stepstitch.Prelude.Text.{text_eq}
use stepstitch.FixMemory.Matching.{round_half_even-le}
use stepstitch.Shapes.{Shape, Stage, fixed}
use stepstitch.Metrics.{
  tally_at, Day, day, is_stage, open_shapes, people_affected, repeat_rate, daily_series,
  people_series, totals_from, ranks_before, worst_hit_pages, summary,
}
use stepstitch.Metrics.Totals.{
  are_distinct, daily_series_total, stage_breakdown_total, totals_from_total, routed_people,
}

repeat_rate-le : (shapes : List Shape) → repeat_rate shapes ≤ 1000
unfolding repeat_rate
repeat_rate-le [] = omega arith
repeat_rate-le (s ∷ shapes) =
    let c = count_if (λ (x : Shape). not (is_empty x.prior_fixes)) (s ∷ shapes) in
    round_half_even-le 1000 c (length (s ∷ shapes)) (omega arith)
      (count_if-le (λ (x : Shape). not (is_empty x.prior_fixes)) (s ∷ shapes))

-- More people first.
abbrev pub are_ranked : List (String × ℕ) → Bool
are_ranked [] = true
are_ranked (x ∷ xs) = all (λ y. leb y.1 x.1) xs && are_ranked xs

all_below :
    (x y : String × ℕ) (zs : List (String × ℕ))
    → leb y.1 x.1 ≡ true
    → all (λ z. leb z.1 y.1) zs ≡ true
    → all (λ z. leb z.1 x.1) zs ≡ true
all_below x y [] h a = refl
all_below x y (z ∷ zs) h a = ground (arith, all_below x y zs h)

insert_by-are_ranked :
    (x : String × ℕ) (ys : List (String × ℕ))
    → are_ranked ys ≡ true
    → are_ranked (insert_by ranks_before x ys) ≡ true
unfolding insert_by
insert_by-are_ranked x [] h = refl
insert_by-are_ranked x (y ∷ ys) h = ground (
  arith,
  all_below x y ys,
  all-insert_by ranks_before (λ z. leb z.1 y.1) x ys,
  insert_by-are_ranked x ys,
)

sort_by-are_ranked : (xs : List (String × ℕ)) → are_ranked (sort_by ranks_before xs) ≡ true
unfolding sort_by
sort_by-are_ranked [] = refl
sort_by-are_ranked (x ∷ xs) =
    insert_by-are_ranked x (sort_by ranks_before xs) (sort_by-are_ranked xs)

take_sorted :
    (n : ℕ) (xs : List (String × ℕ)) → are_ranked xs ≡ true → are_ranked (take n xs) ≡ true
take_sorted zero xs h = refl
take_sorted (suc n) [] h = refl
take_sorted (suc n) (x ∷ xs) h = ground (arith, take_sorted n xs, all-take (λ y. leb y.1 x.1) n xs)

sum_of-take :
    (n : ℕ) (xs : List (String × ℕ)) → sum_of (λ r. r.1) (take n xs) ≤ sum_of (λ r. r.1) xs
sum_of-take zero xs = omega arith
sum_of-take (suc n) [] = omega arith
sum_of-take (suc n) (x ∷ xs) = omega (arith, sum_of-take n xs)

routed_people-le : (shapes : List Shape) → sum_of routed_people shapes ≤ people_affected shapes
unfolding people_affected
routed_people-le [] = omega arith
routed_people-le (s ∷ shapes) = ground (arith, routed_people-le shapes)

pages_people :
    (shapes : List Shape) → sum_of (λ r. r.1) (worst_hit_pages shapes 5) ≤ people_affected shapes
unfolding worst_hit_pages
pages_people shapes =
    let people : String × ℕ → ℕ = λ r. r.1 in
    omega (
      arith,
      sum_of-take 5 (sort_by ranks_before (totals_from [] shapes)),
      sum_of-sort_by ranks_before people (totals_from [] shapes),
      totals_from_total [] shapes,
      routed_people-le shapes,
    )

length-open_shapes :
    (shapes : List Shape)
    → length (open_shapes shapes) + count_if (λ s. is_stage s.stage fixed) shapes ≡ length shapes
unfolding open_shapes
length-open_shapes [] = omega arith
length-open_shapes (s ∷ shapes) = ground (arith, length-open_shapes shapes)

-- The overview adds up. The open and the fixed shapes are all shapes; both series have a value for
-- each day of the axis, and where no day repeats, the new shapes sum to the shapes that first
-- appeared on it; the stages, where the order has each once, sum to the open shapes; at most five
-- pages are listed, those with more people first, and they account for no more people than are
-- affected; and the rate is at most 100.0 percent.
pub summary_adds_up :
    (shapes : List Shape) (days : List Day) (order : List Stage)
    → are_distinct days ≡ true
    → ((st : Stage) → count_if (is_stage st) order ≡ 1)
    → let v = summary shapes days order in
      (v.open_count + v.fixed_count ≡ v.total)
      × (length v.series ≡ length days)
      × (length v.new_shapes_series ≡ length days)
      × (sum_of (λ n. n) v.new_shapes_series
          ≡ count_if (λ s. any (text_eq (day s.first_seen)) days) shapes)
      × (sum_of (λ r. r.1) v.stages ≡ v.open_count)
      × (length v.pages ≤ 5)
      × (are_ranked v.pages ≡ true)
      × (sum_of (λ r. r.1) v.pages ≤ v.people)
      × (v.rate ≤ 1000)
unfolding summary people_series daily_series worst_hit_pages
summary_adds_up shapes days order distinct once =
    let opened = open_shapes shapes in
    let ranked = sort_by ranks_before (totals_from [] opened) in
    (
      length-open_shapes shapes,
      length-map (λ d. sum_of (λ (s : Shape). tally_at s.daily d) shapes) days,
      length-map (λ d. count_if (λ (s : Shape). text_eq (day s.first_seen) d) shapes) days,
      daily_series_total shapes days distinct,
      stage_breakdown_total opened order once,
      length-take-le 5 ranked,
      take_sorted 5 ranked (sort_by-are_ranked (totals_from [] opened)),
      pages_people opened,
      repeat_rate-le shapes,
    )
