-- ===== src/Policies/Financial.antt =====
-- What the validator lets through under the profile "financial-services-strict", for any overrides.
use stepstitch.Prelude.{
  ◌≡◌, refl, sym, ap, ◌∙◌, inl, inr, String, true, false, none, some, Bool-cases, is_empty, Result,
  ok, err, eq_iff,
}
use stepstitch.Json.{Json, str, Fields, get, lookup}
use stepstitch.Scrub.Policy.{ScrubPolicy, financial_services_enterprise, apply_scrub_overrides}
use stepstitch.Scrub.Metadata.{Detectors}
use stepstitch.Scrub.Payload.{
  ScrubFailure, type_error, rejection, items_or_none, ScrubReport, scrub_trace_payload,
}
use stepstitch.Scrub.Strict.{are_steps_ok, scrub_trace_payload-are_steps_ok}
use stepstitch.Server.Admission.{IsStrict}
use stepstitch.Policies.Profiles.{find_profile, get_profile, policy_from_profile, build_policy}
use stepstitch.Policies.Classify.{
  rejected, schema_violations, classify_scrubbed, classify_result, classify_payload,
}

abbrev built : Result String ScrubPolicy → ScrubPolicy
built (err name) = financial_services_enterprise
built (ok p) = p

-- The built policy has the profile's knobs, whatever the overrides.
build_policy-IsStrict :
    (to_text : Json → String) (overrides : Fields) (p : ScrubPolicy)
    → ((s : String) → to_text (str s) ≡ s)
    → build_policy to_text "financial-services-strict" overrides ≡ ok p
    → IsStrict p
unfolding build_policy get_profile find_profile policy_from_profile apply_scrub_overrides lookup
build_policy-IsStrict to_text overrides p texts h =
    let routes = sym (ap (λ r. (built r).route_policy) h) ∙ texts "operator_templates" in
    let selectors = sym (ap (λ r. (built r).selector_policy) h) ∙ texts "approved_testids" in
    record {
      routes = (eq_iff p.route_policy "operator_templates").1 routes;
      selectors = (eq_iff p.selector_policy "approved_testids").1 selectors;
      labels = sym (ap (λ r. (built r).enforce_masked_labels) h);
    }

scrubbed_ok :
    (r : Result ScrubFailure (Fields × ScrubReport)) (stored : Fields)
    → (classify_result r).scrubbed ≡ some stored
    → (report : ScrubReport) × (r ≡ ok (stored, report))
unfolding classify_scrubbed
scrubbed_ok (err type_error) stored h = cc
scrubbed_ok (err (rejection fields)) stored h = cc
scrubbed_ok (ok (d, report)) stored h = (report, cc)

classified_ok :
    (det : Detectors) (p : ScrubPolicy) (payload stored : Fields)
    → (classify_payload det p payload).scrubbed ≡ some stored
    → (is_empty (schema_violations payload) ≡ true)
      × ((report : ScrubReport) × (scrub_trace_payload det p payload ≡ ok (stored, report)))
unfolding classify_payload
classified_ok det p payload stored h = elim (Bool-cases (is_empty (schema_violations payload))) [
  | inl s ↦ (s, scrubbed_ok (scrub_trace_payload det p payload) stored (given_valid s))
  | inr s ↦ given_invalid s
]
  where
    given_valid :
        is_empty (schema_violations payload) ≡ true
        → (classify_result (scrub_trace_payload det p payload)).scrubbed ≡ some stored
    given_valid s =
        let e : classify_payload det p payload
            ≡ classify_result (scrub_trace_payload det p payload) =
          rw (classify_payload, s) refl in
        sym (ap (λ c. c.scrubbed) e) ∙ h

    given_invalid :
        is_empty (schema_violations payload) ≡ false
        → (is_empty (schema_violations payload) ≡ true)
          × ((report : ScrubReport) × (scrub_trace_payload det p payload ≡ ok (stored, report)))
    given_invalid s =
        let e : classify_payload det p payload ≡ record { outcome = rejected; scrubbed = none } =
          rw (classify_payload, s) refl in
        let none_left : none ≡ some stored = sym (ap (λ c. c.scrubbed) e) ∙ h in cc

-- Under the profile "financial-services-strict" with any overrides, where Python's text of a text is
-- the text, whatever the validator says would be stored has only footsteps with a declared route or
-- "/", a masked label and an allowed selector, as far as label and selector are texts, and the payload
-- has no violation of the schema.
pub classify_payload-are_steps_ok :
    (det : Detectors) (to_text : Json → String) (overrides : Fields) (p : ScrubPolicy)
    (payload stored : Fields)
    → ((s : String) → to_text (str s) ≡ s)
    → build_policy to_text "financial-services-strict" overrides ≡ ok p
    → (classify_payload det p payload).scrubbed ≡ some stored
    → (is_empty (schema_violations payload) ≡ true)
      × (are_steps_ok det p (items_or_none (get "footsteps" stored)) ≡ true)
classify_payload-are_steps_ok det to_text overrides p payload stored texts is_built h =
    let strict = build_policy-IsStrict to_text overrides p texts is_built in
    let found = classified_ok det p payload stored h in
    (
      found.0,
      scrub_trace_payload-are_steps_ok det p payload stored found.1.0 strict.routes strict.selectors
          strict.labels found.1.1,
    )
