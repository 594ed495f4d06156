-- ===== src/Metrics/Totals.antt =====
-- What the sums and rankings of metrics.py add up to.
use stepstitch.Prelude.{
  ℕ, suc, ◌+◌, ◌≡◌, refl, ap, ◌∙◌, inl, inr, String, Bool, true, false, not, ◌&&◌, Option, none,
  some, List, [], ◌∷◌, map, arith, ◌==◌, if◌then◌else◌, Bool-cases, length, any, keep, count_if,
  sum_of,
}
use stepstitch.Prelude.Text.{text_eq, text_eq_iff}
use stepstitch.Json.{get}
use stepstitch.Shapes.{Shape, Stage}
use stepstitch.Metrics.{
  Day, day, is_stage, count_at, stage_breakdown, daily_series, add_people, add_shape, totals_from,
  route_in,
}

module _ {ℓ} {B : Type ℓ} where
  sum_of-zero : (ks : List B) → sum_of (λ (k : B). 0) ks ≡ 0
  sum_of-zero [] = refl
  sum_of-zero (k ∷ ks) = omega (arith, sum_of-zero ks)

  count_if-none : (p : B → Bool) (ks : List B) → any p ks ≡ false → count_if p ks ≡ 0
  count_if-none p [] h = refl
  count_if-none p (k ∷ ks) h = ground (arith, count_if-none p ks)

  sum_of-add_if :
      (p : B → Bool) (f : B → ℕ) (ks : List B)
      → sum_of (λ k. if p k then suc (f k) else f k) ks ≡ count_if p ks + sum_of f ks
  sum_of-add_if p f [] = refl
  sum_of-add_if p f (k ∷ ks) = ground (arith, sum_of-add_if p f ks)

  -- Where every item fits exactly one key, all are counted.
  pub sum_of-ones : (f : B → ℕ) (xs : List B) → ((x : B) → f x ≡ 1) → sum_of f xs ≡ length xs
  sum_of-ones f [] h = refl
  sum_of-ones f (x ∷ xs) h = omega (arith, h x, sum_of-ones f xs h)

  sum_of-keep_positive :
      (f : B → ℕ) (xs : List B) → sum_of f (keep (λ x. not (f x == 0)) xs) ≡ sum_of f xs
  sum_of-keep_positive f [] = refl
  sum_of-keep_positive f (x ∷ xs) = ground (arith, sum_of-keep_positive f xs)

module _ {ℓ κ} {A : Type ℓ} {B : Type κ} where
  -- Counting, for each key, the items that fit it counts, for each item, the keys that it fits.
  pub sum_of-count_if :
      (fits : A → B → Bool) (xs : List A) (ks : List B)
      → sum_of (λ k. count_if (λ x. fits x k) xs) ks ≡ sum_of (λ x. count_if (fits x) ks) xs
  sum_of-count_if fits [] ks = sum_of-zero ks
  sum_of-count_if fits (x ∷ xs) ks = omega (
    arith,
    sum_of-add_if (fits x) (λ k. count_if (λ y. fits y k) xs) ks,
    sum_of-count_if fits xs ks,
  )

  pub sum_of-map :
      (f : A → B) (g : B → ℕ) (xs : List A) → sum_of g (map f xs) ≡ sum_of (λ x. g (f x)) xs
  sum_of-map f g [] = refl
  sum_of-map f g (x ∷ xs) = omega (arith, sum_of-map f g xs)

-- A list whose entries are all different.
abbrev pub are_distinct : List Day → Bool
are_distinct [] = true
are_distinct (d ∷ days) = not (any (text_eq d) days) && are_distinct days

count_day :
    (e : Day) (days : List Day)
    → are_distinct days ≡ true
    → count_if (text_eq e) days ≡ (if any (text_eq e) days then 1 else 0)
count_day e [] h = refl
count_day e (d ∷ days) h = elim (Bool-cases (text_eq e d)) [
  | inl same ↦
      let again : any (text_eq e) days ≡ any (text_eq d) days =
        ap (λ x. any (text_eq x) days) ((text_eq_iff e d).0 same) in
      ground (arith, h, same, again, count_if-none (text_eq e) days)
  | inr other ↦ ground (arith, h, other, count_day e days)
]

sum_of-days :
    (shapes : List Shape) (days : List Day)
    → are_distinct days ≡ true
    → sum_of (λ s. count_if (text_eq (day s.first_seen)) days) shapes
      ≡ count_if (λ s. any (text_eq (day s.first_seen)) days) shapes
sum_of-days [] days h = refl
sum_of-days (s ∷ shapes) days h =
    ground (arith, count_day (day s.first_seen) days h, sum_of-days shapes days h)

-- The new shapes of all days of an axis without repetition are the shapes that first appeared on it.
pub daily_series_total :
    (shapes : List Shape) (days : List Day)
    → are_distinct days ≡ true
    → sum_of (λ n. n) (daily_series shapes days)
      ≡ count_if (λ s. any (text_eq (day s.first_seen)) days) shapes
unfolding daily_series
daily_series_total shapes days h =
    sum_of-map (λ d. count_if (λ (s : Shape). text_eq (day s.first_seen) d) shapes) (λ n. n) days
    ∙ sum_of-count_if (λ (s : Shape). text_eq (day s.first_seen)) shapes days
    ∙ sum_of-days shapes days h

-- Where each stage stands once in the order, every shape is counted in one stage.
pub stage_breakdown_total :
    (shapes : List Shape) (order : List Stage)
    → ((st : Stage) → count_if (is_stage st) order ≡ 1)
    → sum_of (λ r. r.1) (stage_breakdown shapes order) ≡ length shapes
unfolding stage_breakdown
stage_breakdown_total shapes order once =
    sum_of-keep_positive (λ (r : Stage × ℕ). r.1) (map (λ st. (st, count_at shapes st)) order)
    ∙ sum_of-map (λ st. (st, count_at shapes st)) (λ (r : Stage × ℕ). r.1) order
    ∙ sum_of-count_if (λ s st. is_stage s.stage st) shapes order
    ∙ sum_of-ones (λ s. count_if (is_stage s.stage) order) shapes (λ s. once s.stage)

add_people_total :
    (route : String) (n : ℕ) (totals : List (String × ℕ))
    → sum_of (λ r. r.1) (add_people route n totals) ≡ n + sum_of (λ r. r.1) totals
unfolding add_people
add_people_total route n [] = omega arith
add_people_total route n ((r, m) ∷ totals) = ground (arith, add_people_total route n totals)

-- The people of a shape, where it has a route.
abbrev pub routed_people : Shape → ℕ
routed_people s = elim (route_in (get "route" s.fingerprint)) [
  | none ↦ 0
  | some route ↦ s.occurrences
]

add_shape_total :
    (r : Option String) (n : ℕ) (totals : List (String × ℕ))
    → sum_of (λ r. r.1) (add_shape r n totals)
      ≡ (elim r [ none ↦ 0 | some route ↦ n ]) + sum_of (λ r. r.1) totals
add_shape_total none n totals = omega arith
add_shape_total (some route) n totals = add_people_total route n totals

pub totals_from_total :
    (totals : List (String × ℕ)) (shapes : List Shape)
    → sum_of (λ r. r.1) (totals_from totals shapes)
      ≡ sum_of (λ r. r.1) totals + sum_of routed_people shapes
unfolding totals_from
totals_from_total totals [] = omega arith
totals_from_total totals (s ∷ shapes) =
    let route = route_in (get "route" s.fingerprint) in
    omega (
      arith,
      add_shape_total route s.occurrences totals,
      totals_from_total (add_shape route s.occurrences totals) shapes,
    )
