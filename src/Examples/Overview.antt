-- ===== src/Examples/Overview.antt =====
-- The overview of metrics.py on two shapes.
use stepstitch.Prelude.{
  sort_by, ℕ, ◌+◌, ◌≤◌, ◌≡◌, refl, String, true, none, some, List, [], ◌∷◌, length, any, count_if,
  sum_of,
}
use stepstitch.Prelude.Text.{codes, text_eq}
use stepstitch.Json.{str, end, field, lookup}
use stepstitch.Shapes.{
  Shape, Stage, untriaged, known_shape, repro_invalid, reproduced, fix_failed, fixed,
}
use stepstitch.Metrics.{Day, day, is_stage, worst_hit_pages, totals_from, add_people, summary}
use stepstitch.Metrics.Summary.{are_ranked, summary_adds_up}

abbrev shape : String → String → ℕ → Stage → Shape
shape id route n stage = record {
  shape_id = id;
  fingerprint = field "route" (str route) end;
  occurrences = n;
  trace_ids = [];
  representative_trace_id = none;
  first_seen = some "2026-01-02T10:00:00";
  last_seen = none;
  daily = (codes "2026-01-02", n) ∷ [];
  stage = stage;
  verdicts = [];
  prior_fixes = [];
}

abbrev shapes : List Shape
shapes =
    shape "s1" "/pay" 3 reproduced
    ∷ shape "s2" "/cart" 7 untriaged
    ∷ shape "s3" "/pay" 5 fix_failed
    ∷ shape "s4" "/pay" 9 fixed
    ∷ []

abbrev days : List Day
days = codes "2026-01-01" ∷ codes "2026-01-02" ∷ []

abbrev order : List Stage
order = untriaged ∷ known_shape ∷ repro_invalid ∷ reproduced ∷ fix_failed ∷ fixed ∷ []

each_once : (st : Stage) → count_if (is_stage st) order ≡ 1
each_once untriaged = refl
each_once known_shape = refl
each_once repro_invalid = refl
each_once reproduced = refl
each_once fix_failed = refl
each_once fixed = refl

-- The page that cost most people stands first.
pages : worst_hit_pages shapes 5 ≡ ("/pay", 17) ∷ ("/cart", 7) ∷ []
unfolding worst_hit_pages sort_by totals_from add_people lookup
pages = refl

summary_adds_up_example :
    let v = summary shapes days order in
    (v.open_count + v.fixed_count ≡ v.total)
    × (length v.series ≡ 2)
    × (length v.new_shapes_series ≡ 2)
    × (sum_of (λ n. n) v.new_shapes_series
        ≡ count_if (λ s. any (text_eq (day s.first_seen)) days) shapes)
    × (sum_of (λ r. r.1) v.stages ≡ v.open_count)
    × (length v.pages ≤ 5)
    × (are_ranked v.pages ≡ true)
    × (sum_of (λ r. r.1) v.pages ≤ v.people)
    × (v.rate ≤ 1000)
summary_adds_up_example = summary_adds_up shapes days order refl each_once
