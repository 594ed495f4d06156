-- ===== src/Shapes.antt =====
-- service/stepstitch_service/shapes.py: traces that failed the same way are one shape, the stage of
-- a shape, and the board.
-- The first sixteen hex digits of the SHA-256 of the canonical JSON are the parameter `digest`. A
-- time is the text of an ISO date, as the database driver hands it over. The plain sentences that
-- humanize.py adds to a shape for display are not modelled.
pub mod Stages
pub mod Grouping
pub mod Board
use stepstitch.Prelude.{
  ℕ, zero, suc, ◌+◌, ◌*◌, ◌≤◌, ◌<◌, ◌≡◌, refl, sym, ap, ◌∙◌, ◌↔◌, ◌⊎◌, inl, inr, String, Bool, true,
  false, not, ◌&&◌, ◌||◌, Option, none, some, List, [], ◌∷◌, ◌++◌, map, arith, ltb, leb, ◌==◌,
  str_eq, if◌then◌else◌, is_some, opt_is, get_or, Bool-cases, Option-cases, length, is_empty, head?,
  take, any, all, keep, count_if, sum_of, contains, sort_by, Result, ok, err, ◌>>=◌, ◌>>◌, raise_if,
  bind-eq-ok, eq_iff, min, max,
}
use Prim.Native.String.{◌++◌ as str_append}
use stepstitch.Json.{Fields, end, field, get, is_null, str_leb, sorted}
use stepstitch.Envelope.{canonical}
use stepstitch.Verdict.{
  verdict_text, confirmed_fixed, not_fixed, not_reproduced, reproduced_unfixed,
}
use stepstitch.Prelude.Text.{Text, codes, text_eq}
use stepstitch.FixMemory.{fp_keys, Weights, Candidate, FixMatch, match}

pub data Stage : Type 0 where
  untriaged known_shape repro_invalid reproduced fix_failed fixed : Stage

abbrev pub stage_rank : Stage → ℕ
stage_rank fixed = 5
stage_rank fix_failed = 4
stage_rank reproduced = 3
stage_rank repro_invalid = 2
stage_rank known_shape = 1
stage_rank untriaged = 0

-- `_VERDICT_STAGE.get(verdict)`.
abbrev pub verdict_stage : String → Option Stage
verdict_stage v =
    if str_eq v (verdict_text confirmed_fixed)
    then some fixed
    else if str_eq v (verdict_text not_fixed)
    then some fix_failed
    else if str_eq v (verdict_text reproduced_unfixed)
    then some reproduced
    else if str_eq v (verdict_text not_reproduced)
    then some repro_invalid
    else none

abbrev pub promote : Stage → Option Stage → Stage
promote stage none = stage
promote stage (some candidate) =
    if ltb (stage_rank stage) (stage_rank candidate) then candidate else stage

unfoldable pub advance : Stage → List String → Stage
advance stage [] = stage
advance stage (v ∷ verdicts) = advance (promote stage (verdict_stage v)) verdicts

unfoldable pub derive_stage : List String → Bool → Stage
unfolding advance
derive_stage verdicts has_prior_fix =
    advance (if has_prior_fix then known_shape else untriaged) verdicts

abbrev pub or_empty : Option Fields → Fields
or_empty none = end
or_empty (some fp) = fp

abbrev copy_keys : List String → Fields → Fields
copy_keys [] fp = end
copy_keys (k ∷ ks) fp = field k (get k fp) (copy_keys ks fp)

unfoldable pub canonical_fingerprint : Option Fields → Fields
canonical_fingerprint fp = copy_keys fp_keys (or_empty fp)

pub record Trace : Type 0 where
  pub trace_id : Option String
  pub fingerprint : Option Fields
  pub created_at : Option String
  pub verdicts : List String

pub record Bucket : Type 0 where
  pub shape_id : String
  pub fingerprint : Fields
  pub trace_ids : List (Option String)
  pub verdicts : List String
  pub first_seen : Option String
  pub last_seen : Option String
  pub daily : List (Text × ℕ)

pub record Shape : Type 0 where
  pub shape_id : String
  pub fingerprint : Fields
  pub occurrences : ℕ
  pub trace_ids : List (Option String)
  pub representative_trace_id : Option String
  pub first_seen : Option String
  pub last_seen : Option String
  pub daily : List (Text × ℕ)
  pub stage : Stage
  pub verdicts : List String
  pub prior_fixes : List FixMatch

-- `s < t` for two texts.
abbrev pub str_ltb : String → String → Bool
str_ltb s t = not (str_leb t s)

abbrev earlier : Option String → String → Option String
earlier none created = some created
earlier (some t) created = if str_ltb created t then some created else some t

abbrev later : Option String → String → Option String
later none created = some created
later (some t) created = if str_ltb t created then some created else some t

-- `daily[day] = daily.get(day, 0) + 1`.
abbrev pub tally : Text → List (Text × ℕ) → List (Text × ℕ)
tally day [] = (day, 1) ∷ []
tally day ((d, n) ∷ ds) =
    let rest = tally day ds in if text_eq d day then (d, suc n) ∷ ds else (d, n) ∷ rest

abbrev see : Option String → Bucket → Bucket
see none b = b
see (some created) b = record b {
  first_seen = earlier b.first_seen created;
  last_seen = later b.last_seen created;
  daily = tally (take 10 (codes created)) b.daily;
}

unfoldable pub new_bucket : String → Fields → Bucket
new_bucket sid fp = record {
  shape_id = sid;
  fingerprint = fp;
  trace_ids = [];
  verdicts = [];
  first_seen = none;
  last_seen = none;
  daily = [];
}

unfoldable pub add_trace : Trace → Bucket → Bucket
add_trace t b =
    see t.created_at
      (record b { trace_ids = b.trace_ids ++ t.trace_id ∷ []; verdicts = b.verdicts ++ t.verdicts })

-- The bucket of the shape, made at the end where there is none yet.
unfoldable pub add_to : String → Fields → Trace → List Bucket → List Bucket
add_to sid fp t [] = add_trace t (new_bucket sid fp) ∷ []
add_to sid fp t (b ∷ bs) =
    let rest = add_to sid fp t bs in if str_eq b.shape_id sid then add_trace t b ∷ bs else b ∷ rest

-- `all(v is None for v in fp.values())`.
abbrev pub is_blank : Fields → Bool
is_blank fp = all (λ k. is_null (get k fp)) fp_keys

abbrev same_id : Option String → Option String → Bool
same_id none none = true
same_id (some s) (some t) = str_eq s t
same_id _ _ = false

abbrev dedupe : List String → List String
dedupe [] = []
dedupe (v ∷ vs) = let rest = dedupe vs in if contains v vs then rest else v ∷ rest

abbrev sort_key : Option String → String
sort_key none = ""
sort_key (some t) = t

-- Most recently active first, equal times by the larger shape id, as `reverse=True` sorts.
abbrev pub newer : Shape → Shape → Bool
newer a b =
    str_ltb (sort_key b.last_seen) (sort_key a.last_seen)
    || (str_eq (sort_key b.last_seen) (sort_key a.last_seen) && str_leb b.shape_id a.shape_id)

module _ (digest : Fields → String) where
  unfoldable pub shape_id : Option Fields → String
  shape_id fp = str_append "shp_" (digest (canonical (canonical_fingerprint fp)))

  abbrev pub sid_of : Trace → String
  sid_of t = shape_id (some (canonical_fingerprint t.fingerprint))

  unfoldable pub group : List Bucket → List Trace → List Bucket
  group buckets [] = buckets
  group buckets (t ∷ traces) =
      let skipped = group buckets traces in
      let fp = canonical_fingerprint t.fingerprint in
      let added = group (add_to (sid_of t) fp t buckets) traces in
      if is_blank fp then skipped else added

unfoldable pub prior_fixes : Weights → ℕ → List Candidate → Bucket → List FixMatch
prior_fixes ws minimum corpus b =
    match b.fingerprint (keep (λ c. not (any (same_id c.trace_id) b.trace_ids)) corpus) ws 5 minimum
      none

unfoldable pub to_shape : Weights → ℕ → List Candidate → Bucket → Shape
to_shape ws minimum corpus b =
    let fixes = prior_fixes ws minimum corpus b in
    record {
      shape_id = b.shape_id;
      fingerprint = b.fingerprint;
      occurrences = length b.trace_ids;
      trace_ids = b.trace_ids;
      representative_trace_id = get_or (head? b.trace_ids) none;
      first_seen = b.first_seen;
      last_seen = b.last_seen;
      daily = b.daily;
      stage = derive_stage b.verdicts (not (is_empty fixes));
      verdicts = sorted (dedupe b.verdicts);
      prior_fixes = fixes;
    }

unfoldable pub cluster : (Fields → String) → Weights → ℕ → List Candidate → List Trace → List Shape
cluster digest ws minimum corpus traces =
    sort_by newer (map (to_shape ws minimum corpus) (group digest [] traces))

-- The columns of the board, one for each stage.
pub record Columns : Type 0 where
  pub untriaged : List Shape
  pub known_shape : List Shape
  pub repro_invalid : List Shape
  pub reproduced : List Shape
  pub fix_failed : List Shape
  pub fixed : List Shape

abbrev put : Stage → Shape → Columns → Columns
put Stage.untriaged s b = record b { untriaged = b.untriaged ++ s ∷ [] }
put Stage.known_shape s b = record b { known_shape = b.known_shape ++ s ∷ [] }
put Stage.repro_invalid s b = record b { repro_invalid = b.repro_invalid ++ s ∷ [] }
put Stage.reproduced s b = record b { reproduced = b.reproduced ++ s ∷ [] }
put Stage.fix_failed s b = record b { fix_failed = b.fix_failed ++ s ∷ [] }
put Stage.fixed s b = record b { fixed = b.fixed ++ s ∷ [] }

unfoldable pub fill : Columns → List Shape → Columns
fill columns [] = columns
fill columns (s ∷ shapes) = fill (put s.stage s columns) shapes

abbrev pub no_shapes : Columns
no_shapes = record {
  untriaged = [];
  known_shape = [];
  repro_invalid = [];
  reproduced = [];
  fix_failed = [];
  fixed = [];
}

unfoldable pub board : List Shape → Columns
unfolding fill
board shapes = fill no_shapes shapes
