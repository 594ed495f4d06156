-- ===== src/Scrub/Strict.antt =====
-- What a strict policy of scrubber.py lets through to storage.
use stepstitch.Prelude.{
  ℕ, suc, ◌≡◌, refl, ap, ◌∙◌, inl, inr, String, Bool, true, false, ◌&&◌, ◌||◌, some, arith, str_eq,
  if◌then◌else◌, Bool-cases, ok, eq_iff,
}
use stepstitch.Json.{
  is_null, Json, null, bool, num, real, str, arr, obj, Items, nil, cons, Fields, end, field, lookup,
  get,
}
use stepstitch.Scrub.Policy.{ScrubPolicy}
use stepstitch.Scrub.Selectors.{selector_allowed, route_matches_templates}
use stepstitch.Scrub.Metadata.{Detectors}
use stepstitch.Scrub.Payload.{
  route_in, refuses_route, set_key, masked_label, scrub_stamp, scrub_route, scrub_label_mask,
  scrub_target, redact_label, redact_target, scrub_step_metadata, scrub_step, scrub_steps,
  scrub_top_metadata, scrub_all, scrub_explanation, scrub_trace_payload, ScrubReport, items_or_none,
}

pub lookup-set_key :
    (k j : String) (v : Json) (d : Fields)
    → lookup k (set_key j v d) ≡ (if str_eq j k then some v else lookup k d)
unfolding lookup set_key
lookup-set_key k j v end = refl
lookup-set_key k j v (field i w d) =
    ground (arith, lookup-set_key k j v d, eq_iff i j, eq_iff j k, eq_iff i k)

module _ (det : Detectors) (p : ScrubPolicy) where
  -- Each stage leaves the other keys alone.
  stamp_keeps :
      (k : String) (i : ℕ) (d : Fields)
      → str_eq "timestamp" k ≡ false
      → lookup k (scrub_stamp det p i d).0 ≡ lookup k d
  unfolding scrub_stamp
  stamp_keeps k i d h = ground (arith, lookup-set_key k "timestamp" (str "[redacted:timestamp]") d)

  label_mask_keeps :
      (k : String) (i : ℕ) (d : Fields)
      → str_eq "label" k ≡ false
      → lookup k (scrub_label_mask det p i d).0 ≡ lookup k d
  unfolding scrub_label_mask
  label_mask_keeps k i d h = ground (arith, lookup-set_key k "label" (str masked_label) d)

  target_keeps :
      (k : String) (i : ℕ) (d : Fields)
      → str_eq "target" k ≡ false
      → lookup k (scrub_target det p i d).0 ≡ lookup k d
  unfolding scrub_target
  target_keeps k i d h = ground (arith, lookup-set_key k "target" null d)

  metadata_keeps :
      (k : String) (i : ℕ) (d : Fields)
      → str_eq "metadata" k ≡ false
      → lookup k (scrub_step_metadata det p i d).0 ≡ lookup k d
  unfolding scrub_step_metadata
  metadata_keeps k i d h = elim (Bool-cases (is_null (get "metadata" d))) [
    | inl e ↦ rw e refl
    | inr e ↦ rw e (lookup-set_key k "metadata" _ d ∙ rw h)
  ]

  -- A step as a strict policy stores it: its route is declared or "/", its label is masked, and its
  -- target is allowed, where they are there.
  unfoldable pub is_route_ok : Json → Bool
  is_route_ok (str r) = str_eq r "/" || route_matches_templates r p.route_templates
  is_route_ok _ = false

  unfoldable pub is_label_ok : Json → Bool
  is_label_ok (str s) = str_eq s masked_label
  is_label_ok _ = true

  unfoldable pub is_target_ok : Json → Bool
  is_target_ok (str s) = selector_allowed det.is_digit s p.approved_testids
  is_target_ok _ = true

  unfoldable pub is_step_ok : Fields → Bool
  is_step_ok d =
      is_route_ok (get "route" d) && is_label_ok (get "label" d) && is_target_ok (get "target" d)

  unfoldable pub are_steps_ok : Items → Bool
  are_steps_ok nil = true
  are_steps_ok (cons (obj d) steps) = is_step_ok d && are_steps_ok steps
  are_steps_ok (cons _ steps) = false

  module _ (routes : str_eq p.route_policy "operator_templates" ≡ true)
      (selectors : str_eq p.selector_policy "approved_testids" ≡ true)
      (masks : p.enforce_masked_labels ≡ true) where
    stored_route :
        (r : String) → is_route_ok (str (if refuses_route det p r then "/" else r)) ≡ true
    unfolding refuses_route is_route_ok
    stored_route r = elim (Bool-cases (route_matches_templates r p.route_templates)) [
      | inl e ↦ rw (routes, e) (ground arith)
      | inr e ↦ rw (routes, e) (ground arith)
    ]

    route_stage : (i : ℕ) (d : Fields) → is_route_ok (get "route" (scrub_route det p i d).0) ≡ true
    unfolding scrub_route
    route_stage i d =
        let r = det.route_template (route_in det p d) in
        let v = str (if refuses_route det p r then "/" else r) in
        let e : get "route" (set_key "route" v d) ≡ v =
          ground (arith, lookup-set_key "route" "route" v d) in
        rw e (stored_route r)

    label_stage :
        (i : ℕ) (d : Fields) → is_label_ok (get "label" (scrub_label_mask det p i d).0) ≡ true
    unfolding scrub_label_mask is_label_ok
    label_stage i d = ground (arith, masks, lookup-set_key "label" "label" (str masked_label) d)

    target_stage :
        (i : ℕ) (d : Fields) → is_target_ok (get "target" (scrub_target det p i d).0) ≡ true
    unfolding scrub_target is_target_ok
    target_stage i d = ground (arith, selectors, lookup-set_key "target" "target" null d)

    -- With the strict knobs on, the two redactions of free text are left out.
    label_left : (i : ℕ) (d : Fields) → (redact_label det p i d).0 ≡ d
    unfolding redact_label
    label_left i d = ground (arith, masks)

    target_left : (i : ℕ) (d : Fields) → (redact_target det p i d).0 ≡ d
    unfolding redact_target
    target_left i d = ground (arith, selectors)

    get_of : (k : String) (d e : Fields) → lookup k d ≡ lookup k e → get k d ≡ get k e
    get_of k d e h = ground (arith, h)

    -- Each of the three keys keeps what its own stage has put there.
    scrub_step-is_step_ok : (i : ℕ) (d : Fields) → is_step_ok (scrub_step det p i d).0 ≡ true
    unfolding scrub_step is_step_ok
    scrub_step-is_step_ok i d =
        let s1 = (scrub_stamp det p i d).0 in
        let s2 = (scrub_route det p i s1).0 in
        let s3 = (scrub_label_mask det p i s2).0 in
        let s4 = (scrub_target det p i s3).0 in
        let s6 = (redact_target det p i (redact_label det p i s4).0).0 in
        let same : s6 ≡ s4 = target_left i (redact_label det p i s4).0 ∙ label_left i s4 in
        let s7 = (scrub_step_metadata det p i s6).0 in
        let at_end = λ (k : String) (h : str_eq "metadata" k ≡ false).
          (metadata_keeps k i s6 h ∙ ap (lookup k) same) in
        let route : get "route" s7 ≡ get "route" s2 = get_of "route" s7 s2 (
          at_end "route" refl
          ∙ target_keeps "route" i s3 refl
          ∙ label_mask_keeps "route" i s2 refl) in
        let label : get "label" s7 ≡ get "label" s3 =
          get_of "label" s7 s3 (at_end "label" refl ∙ target_keeps "label" i s3 refl) in
        let target : get "target" s7 ≡ get "target" s4 =
          get_of "target" s7 s4 (at_end "target" refl) in
        ground (
          arith,
          route,
          label,
          target,
          route_stage i s1,
          label_stage i s2,
          target_stage i s3,
          ap (is_route_ok) route,
          ap (is_label_ok) label,
          ap (is_target_ok) target,
        )

    scrub_steps-are_steps_ok :
        (i : ℕ) (steps : Items) → are_steps_ok (scrub_steps det p i steps).0 ≡ true
    unfolding scrub_steps are_steps_ok
    scrub_steps-are_steps_ok i nil = refl
    scrub_steps-are_steps_ok i (cons (obj d) steps) =
        ground (arith, scrub_step-is_step_ok i d, scrub_steps-are_steps_ok (suc i) steps)
    scrub_steps-are_steps_ok i (cons null steps) = scrub_steps-are_steps_ok (suc i) steps
    scrub_steps-are_steps_ok i (cons (str s) steps) = scrub_steps-are_steps_ok (suc i) steps
    scrub_steps-are_steps_ok i (cons (arr vs) steps) = scrub_steps-are_steps_ok (suc i) steps
    scrub_steps-are_steps_ok i (cons (bool b) steps) = scrub_steps-are_steps_ok (suc i) steps
    scrub_steps-are_steps_ok i (cons (num b) steps) = scrub_steps-are_steps_ok (suc i) steps
    scrub_steps-are_steps_ok i (cons (real b) steps) = scrub_steps-are_steps_ok (suc i) steps

    top_keeps :
        (k : String) (d : Fields)
        → str_eq "metadata" k ≡ false
        → lookup k (scrub_top_metadata det p d).0 ≡ lookup k d
    unfolding scrub_top_metadata
    top_keeps k d h = elim (Bool-cases (is_null (get "metadata" d))) [
      | inl e ↦ rw e refl
      | inr e ↦ rw e (lookup-set_key k "metadata" _ d ∙ rw h)
    ]

    scrub_all-are_steps_ok :
        (d : Fields) → are_steps_ok (items_or_none (get "footsteps" (scrub_all det p d).0)) ≡ true
    unfolding scrub_all
    scrub_all-are_steps_ok d =
        let e = (scrub_explanation det p (get "explanation" d)).0 in
        let steps = (scrub_steps det p 0 (items_or_none (get "footsteps" d))).0 in
        let d1 = set_key "footsteps" (arr steps) (set_key "explanation" e d) in
        let kept =
          top_keeps "footsteps" d1 refl
          ∙ lookup-set_key "footsteps" "footsteps" (arr steps) (set_key "explanation" e d) in
        ground (arith, kept, scrub_steps-are_steps_ok 0 (items_or_none (get "footsteps" d)))

  -- Under a policy that allows only declared routes and approved selectors and that enforces masked
  -- labels, every footstep of a payload that the scrubber lets through is an object whose route is
  -- "/" or matches a declared template, whose label, where it is a text, is the masked one, and whose
  -- target, where it is a text, is a selector that the strict schema allows.
  pub scrub_trace_payload-are_steps_ok :
      (payload result : Fields) (report : ScrubReport)
      → str_eq p.route_policy "operator_templates" ≡ true
      → str_eq p.selector_policy "approved_testids" ≡ true
      → p.enforce_masked_labels ≡ true
      → scrub_trace_payload det p payload ≡ ok (result, report)
      → are_steps_ok (items_or_none (get "footsteps" result)) ≡ true
  unfolding scrub_trace_payload
  scrub_trace_payload-are_steps_ok payload result report routes selectors masks h =
      ground (arith, h, scrub_all-are_steps_ok routes selectors masks payload)
