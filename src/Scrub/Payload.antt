-- ===== src/Scrub/Payload.antt =====
-- `scrub_trace_payload` of scrubber.py, step by step and as a whole.
use stepstitch.Prelude.{
  ◌-◌, ℕ, zero, suc, ◌+◌, String, Bool, true, false, not, ◌&&◌, ◌||◌, Option, none, some, List, [],
  ◌∷◌, ltb, leb, ◌==◌, str_eq, if◌then◌else◌, is_empty, any, Result, ok, err,
}
use stepstitch.Prelude.Text.{Text, codes}
use stepstitch.Json.{
  truthy, Json, null, str, arr, obj, Items, nil, cons, Fields, end, field, lookup, get, is_null,
}
use stepstitch.Scrub.Policy.{ScrubPolicy, strict_schema_active}
use stepstitch.Scrub.Selectors.{is_end, selector_allowed, route_matches_templates}
use stepstitch.Scrub.Metadata.{
  Place, explanation, of_step, of_step_metadata, of_metadata, Found, nothing, dropped, refused, ◌&◌,
  Detectors, str_length, shorten, scrub_metadata,
}

-- `d[k] = v`: in its place, or at the end.
unfoldable pub set_key : String → Json → Fields → Fields
set_key k v end = field k v end
set_key k v (field j w d) =
    let rest = set_key k v d in if str_eq j k then field j v d else field j w rest

abbrev pub masked_label : String
masked_label = "[masked]"

abbrev stamp_char : ℕ → Bool
stamp_char c =
    (leb 48 c && leb c 57)
    || any (λ d. c == d) (b'T' ∷ b'Z' ∷ b't' ∷ b'z' ∷ b':' ∷ b'.' ∷ b'+' ∷ b'-' ∷ b' ' ∷ [])

-- `p{lo,hi}$` from the front of a text, where `p` holds of no newline.
abbrev pub run_then_end : (ℕ → Bool) → ℕ → ℕ → Text → Bool
run_then_end p lo hi [] = lo == 0
run_then_end p lo zero (c ∷ s) = (lo == 0) && is_end (c ∷ s)
run_then_end p lo (suc hi) (c ∷ s) =
    let more = run_then_end p (lo - 1) hi s in if p c then more else (lo == 0) && is_end (c ∷ s)

abbrev starts_t : (Text → Bool) → Text → Bool
starts_t p [] = false
starts_t p (c ∷ s) = (c == b't') && p s

abbrev pub items_or_none : Json → Items
items_or_none (arr vs) = vs
items_or_none _ = nil

module _ (det : Detectors) (policy : ScrubPolicy) where
  unfoldable pub timestamp_shape : String → Bool
  timestamp_shape s =
      run_then_end stamp_char 1 40 (codes s) || starts_t (run_then_end det.is_digit 0 6) (codes s)

  unfoldable pub scrub_stamp : ℕ → Fields → Fields × Found
  scrub_stamp i step = elim (get "timestamp" step) [
    | str s ↦ if timestamp_shape s then (step, nothing) else (
      set_key "timestamp" (str "[redacted:timestamp]") step,
      record (dropped (of_step i "timestamp")) { kinds = ("timestamp", 1) ∷ [] },
    )
    | _ ↦ (step, nothing)
  ]

  -- The route that is templated, "/" where there is none or it is no text.
  abbrev pub route_in : Fields → String
  route_in step = elim (lookup "route" step) [ some (str s) ↦ s | _ ↦ "/" ]

  abbrev pub route_same : Fields → Bool
  route_same step = elim (lookup "route" step) [
    | none ↦ str_eq (det.route_template "/") "/"
    | some (str s) ↦ str_eq (det.route_template s) s
    | some _ ↦ false
  ]

  -- A route that no template declares is refused, and "/" is stored for it.
  unfoldable pub refuses_route : String → Bool
  refuses_route templated =
      str_eq policy.route_policy "operator_templates"
      && not (route_matches_templates templated policy.route_templates)

  unfoldable pub scrub_route : ℕ → Fields → Fields × Found
  scrub_route i step =
      let templated = det.route_template (route_in step) in
      let refusal = refuses_route templated in
      (
        set_key "route" (str (if refusal then "/" else templated)) step,
        (if route_same step then nothing else dropped (of_step i "route"))
            & (if refusal then refused (of_step i "route") else nothing),
      )

  unfoldable pub scrub_label_mask : ℕ → Fields → Fields × Found
  scrub_label_mask i step = elim (get "label" step) [
    | str s ↦
        if policy.enforce_masked_labels && not (str_eq s masked_label)
        then (set_key "label" (str masked_label) step, dropped (of_step i "label"))
        else (step, nothing)
    | _ ↦ (step, nothing)
  ]

  abbrev pub approves : Bool
  approves = str_eq policy.selector_policy "approved_testids"

  unfoldable pub scrub_target : ℕ → Fields → Fields × Found
  scrub_target i step = elim (get "target" step) [
    | str s ↦
        if approves && not (selector_allowed det.is_digit s policy.approved_testids)
        then (set_key "target" null step, refused (of_step i "target"))
        else (step, nothing)
    | _ ↦ (step, nothing)
  ]

  -- Free text under a key; the path pass is left out for a selector.
  unfoldable pub redact_key : Bool → ℕ → String → Fields → Fields × Found
  redact_key skip_path i key step = elim (get key step) [
    | str s ↦
        let (text, kinds) = det.redact policy.extra_redactions skip_path s in
        let out = shorten policy.max_text_len text in
        (
          set_key key (str out) step,
          if not (is_empty kinds) || not (str_eq out s)
              then record (dropped (of_step i key)) { kinds = kinds }
              else nothing,
        )
    | _ ↦ (step, nothing)
  ]

  unfoldable pub redact_label : ℕ → Fields → Fields × Found
  redact_label i step =
      if policy.enforce_masked_labels then (step, nothing) else redact_key false i "label" step

  unfoldable pub redact_target : ℕ → Fields → Fields × Found
  redact_target i step = if approves then (step, nothing) else redact_key true i "target" step

  unfoldable pub scrub_step_metadata : ℕ → Fields → Fields × Found
  scrub_step_metadata i step =
      if is_null (get "metadata" step)
      then (step, nothing)
      else let (clean, found) =
          scrub_metadata det policy policy.footstep_metadata_allowlist (of_step_metadata i)
            (get "metadata" step) in
        (set_key "metadata" (obj clean) step, found)

  unfoldable pub scrub_step : ℕ → Fields → Fields × Found
  scrub_step i step =
      let (s1, f1) = scrub_stamp i step in
      let (s2, f2) = scrub_route i s1 in
      let (s3, f3) = scrub_label_mask i s2 in
      let (s4, f4) = scrub_target i s3 in
      let (s5, f5) = redact_label i s4 in
      let (s6, f6) = redact_target i s5 in
      let (s7, f7) = scrub_step_metadata i s6 in (s7, f1 & f2 & f3 & f4 & f5 & f6 & f7)

  -- A step that is no object is left out.
  unfoldable pub scrub_steps : ℕ → Items → Items × Found
  scrub_steps i nil = (nil, nothing)
  scrub_steps i (cons (obj step) steps) =
      let (clean, found) = scrub_step i step in
      let (rest, more) = scrub_steps (suc i) steps in (cons (obj clean) rest, found & more)
  scrub_steps i (cons _ steps) = scrub_steps (suc i) steps

  abbrev pub is_free_text_off : Bool
  is_free_text_off = str_eq policy.free_text "disabled"

  -- Whether the explanation is nothing that the redaction raises a TypeError on.
  abbrev pub is_readable : Json → Bool
  is_readable null = true
  is_readable (str s) = true
  is_readable v = is_free_text_off

  -- The free-text explanation: refused, whatever it is, where free text is off. What is not readable
  -- does not get here.
  unfoldable pub scrub_explanation : Json → Json × Found
  scrub_explanation (str s) =
      if is_free_text_off
      then (null, if str_eq s "" then nothing else refused explanation)
      else let (text, kinds) = det.redact policy.extra_redactions false s in
        (
          str (shorten policy.max_text_len text),
          if not (is_empty kinds) || ltb policy.max_text_len (str_length text)
              then record (dropped explanation) { kinds = kinds }
              else nothing,
        )
  scrub_explanation v =
      (null, if is_free_text_off && truthy v then refused explanation else nothing)

  unfoldable pub scrub_top_metadata : Fields → Fields × Found
  scrub_top_metadata payload =
      if is_null (get "metadata" payload)
      then (payload, nothing)
      else let (clean, found) =
          scrub_metadata det policy policy.metadata_allowlist of_metadata
            (get "metadata" payload) in
        (set_key "metadata" (obj clean) payload, found)

  -- The payload with everything scrubbed, and all that was found.
  unfoldable pub scrub_all : Fields → Fields × Found
  scrub_all payload =
      let (explained, f1) = scrub_explanation (get "explanation" payload) in
      let (steps, f2) = scrub_steps 0 (items_or_none (get "footsteps" payload)) in
      let p1 = set_key "footsteps" (arr steps) (set_key "explanation" explained payload) in
      let (p2, f3) = scrub_top_metadata p1 in (p2, f1 & f2 & f3)

abbrev pub place_eq : Place → Place → Bool
place_eq explanation explanation = true
place_eq (of_step i k) (of_step j l) = (i == j) && str_eq k l
place_eq (of_step_metadata i k) (of_step_metadata j l) = (i == j) && str_eq k l
place_eq (of_metadata k) (of_metadata l) = str_eq k l
place_eq _ _ = false

-- The places in first-seen order, each once.
unfoldable pub first_seen : List Place → List Place → List Place
first_seen seen [] = []
first_seen seen (p ∷ ps) =
    let old = first_seen seen ps in
    let new = first_seen (p ∷ seen) ps in if any (place_eq p) seen then old else p ∷ new

-- `into[kind] = into.get(kind, 0) + n`.
abbrev pub merge_count : String × ℕ → List (String × ℕ) → List (String × ℕ)
merge_count (k, n) [] = (k, n) ∷ []
merge_count (k, n) ((j, m) ∷ counts) =
    let rest = merge_count (k, n) counts in
    if str_eq j k then (j, m + n) ∷ counts else (j, m) ∷ rest

unfoldable pub merge_counts : List (String × ℕ) → List (String × ℕ) → List (String × ℕ)
merge_counts into [] = into
merge_counts into (kn ∷ counts) = merge_counts (merge_count kn into) counts

-- The digests of the policy and of the detectors are left out.
pub record ScrubReport : Type 0 where
  pub is_clean : Bool
  pub scrubbed_fields : List Place
  pub policy : String
  pub kinds : List (String × ℕ)
  pub schema_passed : Option Bool

-- `ScrubRejection` carries the rejected fields, which the source hands over sorted. A TypeError is
-- what the redaction of an explanation that is no text raises.
pub data ScrubFailure : Type 0 where
  type_error : ScrubFailure
  rejection : List Place → ScrubFailure

unfoldable pub scrub_trace_payload :
    Detectors → ScrubPolicy → Fields → Result ScrubFailure (Fields × ScrubReport)
scrub_trace_payload det policy payload =
    let (result, found) = scrub_all det policy payload in
    if not (is_readable det policy (get "explanation" payload))
    then err type_error
    else if policy.reject_on_forbidden && not (is_empty found.rejected)
    then err (rejection (first_seen [] found.rejected))
    else ok (
      result,
      record {
        is_clean = is_empty (first_seen [] found.scrubbed);
        scrubbed_fields = first_seen [] found.scrubbed;
        policy = policy.name;
        kinds = merge_counts [] found.kinds;
        schema_passed =
            if strict_schema_active policy then some (is_empty found.rejected) else none;
      },
    )
