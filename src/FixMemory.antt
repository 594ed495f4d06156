-- ===== src/FixMemory.antt =====
-- service/stepstitch_service/fix_memory.py: structural fingerprints, and the fixes that are like a
-- new one. Weights and the threshold are hundredths, a similarity is the exact quotient of two sums
-- of weights, and what is reported of it is rounded to four places, half to even.
pub mod Matching
use stepstitch.Prelude.{
  ℕ, ◌+◌, ◌*◌, ◌/◌, ◌%◌, String, Bool, true, false, not, ◌&&◌, ◌||◌, Option, none, some, List, [],
  ◌∷◌, str_eq, contains, if◌then◌else◌, ltb, leb, ◌==◌, get_or, take, sort_by,
}
use stepstitch.Json.{Json, null, str, Fields, end, field, get, is_null, json_eq, str_leb}
use stepstitch.Replay.{Footstep}

abbrev pub fp_keys : List String
fp_keys =
    "route" ∷ "diagnostic_type" ∷ "failing_status" ∷ "exception_type" ∷ "diagnostic_endpoint"
    ∷ "terminal_selector" ∷ []

abbrev pub Weights : Type 0
Weights = List (String × ℕ)

abbrev pub default_weights : Weights
default_weights =
    ("route", 35)
    ∷ ("diagnostic_type", 15)
    ∷ ("failing_status", 15)
    ∷ ("exception_type", 15)
    ∷ ("diagnostic_endpoint", 10)
    ∷ ("terminal_selector", 10)
    ∷ []

-- `weights.get(key, 0.0)`.
unfoldable pub weight : String → Weights → ℕ
weight k [] = 0
weight k ((j, w) ∷ ws) = if str_eq j k then w else weight k ws

abbrev fp_interactive : List String
fp_interactive = "click" ∷ "input" ∷ "api_error" ∷ []

abbrev has_target : Option String → Bool
has_target none = false
has_target (some t) = not (str_eq t "")

abbrev opt_json : Option String → Json
opt_json none = null
opt_json (some s) = str s

-- The target of the last interactive step that has one, found over `reversed`.
unfoldable pub terminal_selector : List Footstep → Option String
terminal_selector [] = none
terminal_selector (s ∷ steps) = elim (terminal_selector steps) [
  | some t ↦ some t
  | none ↦ if contains s.type fp_interactive && has_target s.target then s.target else none
]

abbrev selector_of : Fields → Option (List Footstep) → Json
selector_of summary none = get "terminal_selector" summary
selector_of summary (some steps) = opt_json (terminal_selector steps)

unfoldable pub fingerprint : Fields → Option (List Footstep) → Fields
fingerprint summary footsteps = field "route" (get "route" summary) (
    field "diagnostic_type" (get "diagnostic_type" summary) (
      field "failing_status" (get "failing_status" summary) (
        field "exception_type" (get "exception_type" summary) (
          field "diagnostic_endpoint" (get "diagnostic_endpoint" summary)
            (field "terminal_selector" (selector_of summary footsteps) end)))))

pub record Similarity : Type 0 where
  pub total : ℕ
  pub score : ℕ
  pub reasons : List String

-- Only the fields that the query has are compared.
unfoldable pub similarity_over : List String → Fields → Fields → Weights → Similarity
similarity_over [] a b ws = record { total = 0; score = 0; reasons = [] }
similarity_over (k ∷ ks) a b ws =
    let rest = similarity_over ks a b ws in
    if is_null (get k a)
    then rest
    else if not (is_null (get k b)) && json_eq (get k b) (get k a)
    then record {
      total = weight k ws + rest.total;
      score = weight k ws + rest.score;
      reasons = k ∷ rest.reasons;
    }
    else record rest { total = weight k ws + rest.total }

unfoldable pub similarity : Fields → Fields → Weights → Similarity
similarity a b ws = similarity_over fp_keys a b ws

-- `sim >= min_similarity`; with nothing to compare the similarity is 0.
unfoldable pub reaches : Similarity → ℕ → Bool
reaches s minimum = if s.total == 0 then leb minimum 0 else leb (minimum * s.total) (s.score * 100)

abbrev pub round_half_even : ℕ → ℕ → ℕ
round_half_even n d =
    let q = n / d in
    let twice = 2 * (n % d) in if ltb twice d then q else if ltb d twice then q + 1 else q + q % 2

unfoldable pub rounded : Similarity → ℕ
rounded s = if s.total == 0 then 0 else round_half_even (s.score * 10000) s.total

pub record Candidate : Type 0 where
  pub trace_id : Option String
  pub fix_ref : Option String
  pub run_url : Option String
  pub fingerprint : Fields
  pub evidence_grade : Option String

pub record FixMatch : Type 0 where
  pub trace_id : Option String
  pub fix_ref : Option String
  pub run_url : Option String
  pub evidence_grade : Option String
  pub similarity : ℕ
  pub reasons : List String

abbrev pub is_excluded : Option String → Option String → Bool
is_excluded none tid = false
is_excluded (some x) none = false
is_excluded (some x) (some t) = str_eq t x

unfoldable pub matches : Fields → Weights → ℕ → Option String → List Candidate → List FixMatch
matches new_fp ws minimum exclude [] = []
matches new_fp ws minimum exclude (c ∷ candidates) =
    let rest = matches new_fp ws minimum exclude candidates in
    let sim = similarity new_fp c.fingerprint ws in
    if is_excluded exclude c.trace_id
    then rest
    else if reaches sim minimum
    then record {
      trace_id = c.trace_id;
      fix_ref = c.fix_ref;
      run_url = c.run_url;
      evidence_grade = c.evidence_grade;
      similarity = rounded sim;
      reasons = sim.reasons;
    }
      ∷ rest
    else rest

-- The sort key `(-similarity, str(trace_id))`.
abbrev pub better : FixMatch → FixMatch → Bool
better a b =
    ltb b.similarity a.similarity
    || (a.similarity == b.similarity
        && str_leb (get_or a.trace_id "None") (get_or b.trace_id "None"))

-- `weights or DEFAULT_WEIGHTS`.
abbrev pub or_default : Weights → Weights
or_default [] = default_weights
or_default (w ∷ ws) = w ∷ ws

unfoldable pub match : Fields → List Candidate → Weights → ℕ → ℕ → Option String → List FixMatch
match new_fp candidates ws top_k minimum exclude =
    take top_k (sort_by better (matches new_fp (or_default ws) minimum exclude candidates))
