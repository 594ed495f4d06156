-- ===== src/Policies/Classify.antt =====
-- `_schema_violations` and `classify_payload` of policy_verify.py. Its messages are constructors.
use stepstitch.Prelude.{
  ℕ, zero, suc, String, Bool, false, not, ◌&&◌, ◌||◌, Option, none, some, List, [], ◌∷◌, ◌++◌, leb,
  ◌==◌, if◌then◌else◌, is_some, is_empty, any, contains, Result, ok, err,
}
use stepstitch.Prelude.Text.{codes}
use stepstitch.Json.{
  Json, null, str, arr, obj, Items, nil, cons, Fields, end, get, lookup, is_null, is_str, keys,
}
use stepstitch.Replay.{supported_step_types}
use stepstitch.Scrub.Policy.{ScrubPolicy}
use stepstitch.Scrub.Metadata.{
  Place, explanation, of_step, of_step_metadata, of_metadata, Detectors,
}
use stepstitch.Scrub.Payload.{
  ScrubFailure, type_error, rejection, run_then_end, ScrubReport, scrub_trace_payload,
}

abbrev pub known_top_keys : List String
known_top_keys =
    "app_id" ∷ "project_id" ∷ "explanation" ∷ "footsteps" ∷ "consent_version" ∷ "metadata" ∷ []

abbrev pub known_footstep_keys : List String
known_footstep_keys = "timestamp" ∷ "type" ∷ "route" ∷ "target" ∷ "label" ∷ "metadata" ∷ []

abbrev pub required_footstep_keys : List String
required_footstep_keys = "timestamp" ∷ "type" ∷ "route" ∷ []

abbrev pub identifier_fields : List String
identifier_fields = "app_id" ∷ "project_id" ∷ "consent_version" ∷ []

pub data Problem : Type 0 where
  unknown_top_key : String → Problem
  not_identifier : String → Problem
  no_footsteps : Problem
  not_an_object : ℕ → Problem
  unknown_key : String → ℕ → Problem
  missing_key : String → ℕ → Problem
  unsupported_type : ℕ → Problem

abbrev pub identifier_char : ℕ → Bool
identifier_char c =
    (leb b'A' c && leb c b'Z')
    || (leb b'a' c && leb c b'z')
    || (leb b'0' c && leb c b'9')
    || any (λ d. c == d) (b'.' ∷ b'_' ∷ b':' ∷ b'-' ∷ [])

-- `^[A-Za-z0-9._:-]{1,128}$`.
abbrev pub is_identifier : Json → Bool
is_identifier (str s) = run_then_end identifier_char 1 128 (codes s)
is_identifier _ = false

abbrev pub identifier_problems : List String → Fields → List Problem
identifier_problems [] payload = []
identifier_problems (k ∷ ks) payload =
    let rest = identifier_problems ks payload in
    if not (is_null (get k payload)) && not (is_identifier (get k payload))
    then not_identifier k ∷ rest
    else rest

abbrev pub unknown_keys : (String → Problem) → List String → List String → List Problem
unknown_keys problem known [] = []
unknown_keys problem known (k ∷ ks) =
    let rest = unknown_keys problem known ks in if contains k known then rest else problem k ∷ rest

abbrev pub missing_keys : ℕ → List String → Fields → List Problem
missing_keys i [] step = []
missing_keys i (k ∷ ks) step =
    let rest = missing_keys i ks step in
    if is_some (lookup k step) then rest else missing_key k i ∷ rest

abbrev pub type_problem : ℕ → Json → List Problem
type_problem i v =
    if not (is_null v) && not (any (λ t. is_str v t) supported_step_types)
    then unsupported_type i ∷ []
    else []

unfoldable pub step_problems : ℕ → Fields → List Problem
step_problems i step =
    unknown_keys (λ k. unknown_key k i) known_footstep_keys (keys step)
    ++ (missing_keys i required_footstep_keys step ++ type_problem i (get "type" step))

unfoldable pub steps_problems : ℕ → Items → List Problem
steps_problems i nil = []
steps_problems i (cons (obj step) steps) = step_problems i step ++ steps_problems (suc i) steps
steps_problems i (cons _ steps) = not_an_object i ∷ steps_problems (suc i) steps

abbrev pub footstep_problems : Json → List Problem
footstep_problems (arr steps) = steps_problems 0 steps
footstep_problems _ = no_footsteps ∷ []

unfoldable pub schema_violations : Fields → List Problem
schema_violations payload =
    unknown_keys unknown_top_key known_top_keys (keys payload)
    ++ (identifier_problems identifier_fields payload
        ++ footstep_problems (get "footsteps" payload))

pub data PayloadOutcome : Type 0 where
  rejected dropped redacted accepted : PayloadOutcome
  -- no outcome: the TypeError of the scrubber passes through
  raised : PayloadOutcome

-- With what would be stored, if anything.
pub record Classification : Type 0 where
  pub outcome : PayloadOutcome
  pub scrubbed : Option Fields

abbrev pub fields_of : Json → Fields
fields_of (obj d) = d
fields_of _ = end

abbrev pub nth : ℕ → Items → Json
nth i nil = null
nth zero (cons v vs) = v
nth (suc i) (cons v vs) = nth i vs

abbrev pub item_at : ℕ → Json → Json
item_at i (arr vs) = nth i vs
item_at i _ = null

-- The value at a place of the report; the allowed keys have no dot or bracket in them.
unfoldable pub resolve : Fields → Place → Json
resolve d explanation = get "explanation" d
resolve d (of_metadata k) = get k (fields_of (get "metadata" d))
resolve d (of_step i k) = get k (fields_of (item_at i (get "footsteps" d)))
resolve d (of_step_metadata i k) =
    get k (fields_of (get "metadata" (fields_of (item_at i (get "footsteps" d)))))

-- The strongest action taken.
unfoldable pub classify_scrubbed : Fields → ScrubReport → Classification
classify_scrubbed d report = record {
  outcome =
      if any (λ p. is_null (resolve d p)) report.scrubbed_fields
      then dropped
      else if is_empty report.scrubbed_fields
      then accepted
      else redacted;
  scrubbed = some d;
}

abbrev pub classify_result : Result ScrubFailure (Fields × ScrubReport) → Classification
classify_result (err type_error) = record { outcome = raised; scrubbed = none }
classify_result (err (rejection fields)) = record { outcome = rejected; scrubbed = none }
classify_result (ok (d, report)) = classify_scrubbed d report

unfoldable pub classify_payload : Detectors → ScrubPolicy → Fields → Classification
classify_payload det policy payload =
    if is_empty (schema_violations payload)
    then classify_result (scrub_trace_payload det policy payload)
    else record { outcome = rejected; scrubbed = none }
