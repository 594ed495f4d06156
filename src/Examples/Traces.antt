-- ===== src/Examples/Traces.antt =====
-- Traces, fixes and shapes (replayability.py, fragility.py, fix_memory.py, shapes.py).
use stepstitch.Prelude.{
  ◌++◌, keep, all, true, not, sum_of, if◌then◌else◌, Bool, ◌≤◌, ◌≡◌, refl, String, false, Option,
  none, some, List, [], ◌∷◌, ◌==◌, str_eq, length, count_if,
}
use stepstitch.Json.{lookup, Fields, end, field, str}
use stepstitch.Replay.{Footstep, Chars}
use stepstitch.Replay.Fragility.{failing_route, minimal_repro, on_route}
use stepstitch.Replay.Fragility.Reduction.{minimal_repro_exact}
use stepstitch.FixMemory.{Candidate, match, default_weights}
use stepstitch.FixMemory.Matching.{match_bounds}
use stepstitch.Shapes.{canonical_fingerprint, shape_id, Trace, Shape, cluster}
use stepstitch.Shapes.Grouping.{cluster_groups}

abbrev plain : Chars
plain = record { lower = λ s. s; is_space = λ c. c == 32 }

abbrev step : String → Option String → String → Footstep
step type target route = record { type = type; target = target; route = some route }

abbrev save_click : Footstep
save_click = step "click" (some "[data-testid=save]") "/accounts/:id"

abbrev before : List Footstep
before = step "click" (some "#go") "/" ∷ save_click ∷ []

abbrev refusal : Footstep
refusal = step "api_error" none "/accounts/:id"

abbrev after : List Footstep
after = step "navigation" none "/help" ∷ []

minimal_repro_exact_example :
    let reduced = (minimal_repro plain (before ++ refusal ∷ after)).footsteps in
    (reduced ≡ keep (on_route plain "/accounts/:id") (before ++ refusal ∷ after))
    × (reduced
        ≡ keep (on_route plain "/accounts/:id") before
          ++ refusal ∷ keep (on_route plain "/accounts/:id") after)
    × (all (on_route plain "/accounts/:id") reduced ≡ true)
    × ((minimal_repro plain reduced).footsteps ≡ reduced)
minimal_repro_exact_example = minimal_repro_exact plain before refusal after refl refl

-- A click counts as the end of a trace: after it, the error that was captured is reduced away.
abbrev clicked_on : List Footstep
clicked_on = refusal ∷ step "click" (some "#next") "/help" ∷ []

error_reduced_away :
    (minimal_repro plain clicked_on).footsteps ≡ step "click" (some "#next") "/help" ∷ []
unfolding minimal_repro failing_route
error_reduced_away = refl

abbrev form_failure : Fields
form_failure = field "route" (str "/transfer") (field "failing_status" (str "500") end)

abbrev candidate : Candidate
candidate = record {
  trace_id = some "t0";
  fix_ref = some "pr-1";
  run_url = none;
  fingerprint = form_failure;
  evidence_grade = some "measured";
}

match_bounds_example : length (match form_failure (candidate ∷ []) default_weights 5 40 none) ≤ 5
match_bounds_example = (match_bounds form_failure (candidate ∷ []) default_weights 5 40 none).0

abbrev trace : String → Trace
trace tid = record {
  trace_id = some tid;
  fingerprint = some form_failure;
  created_at = some "2026-07-14T10:00";
  verdicts = "not_fixed" ∷ [];
}

abbrev digest_of : Fields → String
digest_of fp = "0123456789abcdef"

abbrev shapes_of : List Trace → List Shape
shapes_of traces = cluster digest_of default_weights 40 (candidate ∷ []) traces

abbrev is_first : Option String → Bool
is_first none = false
is_first (some s) = str_eq s "t1"

cluster_groups_example :
    let shapes = shapes_of (trace "t1" ∷ trace "t2" ∷ []) in
    (count_if (λ s. str_eq s.shape_id "shp_0123456789abcdef") shapes ≤ 1)
    × (sum_of
          (λ s.
            if str_eq s.shape_id "shp_0123456789abcdef" then count_if is_first s.trace_ids else 0)
          shapes
        ≡ 1)
    × (count_if (λ s. not (s.occurrences == length s.trace_ids)) shapes ≡ 0)
unfolding lookup canonical_fingerprint shape_id
cluster_groups_example =
    cluster_groups digest_of default_weights 40 (candidate ∷ []) (trace "t1" ∷ trace "t2" ∷ [])
      "shp_0123456789abcdef" is_first
