-- ===== src/Examples/Scrub.antt =====
-- Payloads and settings of concrete sites (scrubber.py, repro_config.py).
use stepstitch.Prelude.{
  str_eq, err, ok, ◌≡◌, refl, String, true, false, not, ◌&&◌, none, some, [], ◌∷◌, is_empty, all,
  contains,
}
use stepstitch.Json.{null, get, Json, num, str, obj, arr, Fields, end, field, lookup, nil, cons}
use stepstitch.Prelude.Int.{pos}
use stepstitch.Scrub.Policy.{ScrubPolicy, financial_services_enterprise, apply_scrub_overrides}
use stepstitch.Scrub.Metadata.{Place, of_metadata, scrub_metadata, scrub_fields, scrub_entry, kept}
use stepstitch.Scrub.Keys.{is_flat, scrub_metadata-apply_scrub_overrides}
use stepstitch.Repro.Config.{no_config, given, or_text}
use stepstitch.Repro.Needs.{readiness, input_steps, is_unresolved}
use stepstitch.Repro.Ready.{readiness_exact, is_routed}
use stepstitch.Runner.Run.{blockers}
use stepstitch.Json.{keys}
use stepstitch.Scrub.Policy.{strict_schema_active}
use stepstitch.Scrub.Payload.{
  type_error, rejection, first_seen, scrub_trace_payload, scrub_all, scrub_explanation, scrub_steps,
  scrub_top_metadata, set_key, first_seen, merge_counts, items_or_none,
}
use stepstitch.Scrub.Strict.{are_steps_ok}
use stepstitch.Policies.Profiles.{build_policy, get_profile, find_profile, policy_from_profile}
use stepstitch.Policies.Classify.{
  classify_payload, classify_scrubbed, schema_violations, steps_problems,
}
use stepstitch.Policies.Financial.{classify_payload-are_steps_ok}
use stepstitch.Egress.{Outbound, redact_mode, guard_outbound}
use stepstitch.Egress.Guarded.{IsGuarded, guard_outbound-IsGuarded}
use stepstitch.Examples.Loop.{site, step}

abbrev overrides : Fields
overrides = field "extra_forbidden_keys" (arr (cons (str "line") nil)) end

abbrev metadata : Fields
metadata = field "status" (num (pos 500)) (field "line" (num (pos 7)) (field "body" (str "x") end))

abbrev text_of : Json → String
text_of (str s) = s
text_of _ = ""

status_kept :
    lookup "status"
      (scrub_metadata site.detectors
        (apply_scrub_overrides text_of financial_services_enterprise overrides)
        financial_services_enterprise.footstep_metadata_allowlist
        of_metadata
        (obj metadata)).0
    ≡ some (num (pos 500))
unfolding scrub_metadata scrub_fields scrub_entry kept lookup apply_scrub_overrides
status_kept = refl

scrub_metadata-apply_scrub_overrides_example :
    (contains "status" financial_services_enterprise.footstep_metadata_allowlist ≡ true)
    × (contains "status" financial_services_enterprise.forbidden_keys ≡ false)
    × (contains "status" ("line" ∷ []) ≡ false)
    × (is_flat (num (pos 500)) ≡ true)
unfolding lookup
scrub_metadata-apply_scrub_overrides_example =
    scrub_metadata-apply_scrub_overrides text_of site.detectors financial_services_enterprise
      overrides financial_services_enterprise.footstep_metadata_allowlist of_metadata (obj metadata)
      "status" (num (pos 500)) status_kept

readiness_exact_example :
    is_empty (blockers (readiness site.python (some no_config) (step ∷ []) (some "app"))) ≡ (
      given (or_text none (some "app"))
      && all (is_routed site.python no_config) (step ∷ [])
      && all
          (λ s. not (is_unresolved site.python no_config s))
          (input_steps site.python (step ∷ [])))
readiness_exact_example = readiness_exact site.python (some no_config) (step ∷ []) (some "app")

abbrev cookie_payload : Fields
cookie_payload =
    field "footsteps" (arr nil) (field "metadata" (obj (field "cookie" (str "x") end)) end)

abbrev financial : ScrubPolicy
financial = record financial_services_enterprise {
  name = "financial-services-strict";
  free_text = "disabled";
  reject_on_forbidden = true;
  extra_forbidden_keys = "line" ∷ [];
  selector_policy = "approved_testids";
  route_policy = "operator_templates";
  enforce_masked_labels = true;
}

-- An explanation that is no text: refused where free text is off, and a TypeError elsewhere.
abbrev list_payload : Fields
list_payload = field "explanation" (arr (cons (str "x") nil)) (field "footsteps" (arr nil) end)

list_refused :
    scrub_trace_payload site.detectors financial list_payload
    ≡ err (rejection (Place.explanation ∷ []))
unfolding scrub_trace_payload scrub_all scrub_explanation scrub_steps scrub_top_metadata first_seen
    lookup set_key
list_refused = refl

list_raises :
    scrub_trace_payload site.detectors financial_services_enterprise list_payload ≡ err type_error
unfolding scrub_trace_payload lookup
list_raises = refl

abbrev quiet_payload : Fields
quiet_payload = field "footsteps" (arr nil) (field "metadata" (obj end) end)

abbrev quiet_stored : Fields
quiet_stored =
    field "footsteps" (arr nil) (field "metadata" (obj end) (field "explanation" null end))

is_built : build_policy text_of "financial-services-strict" overrides ≡ ok financial
unfolding build_policy get_profile find_profile policy_from_profile apply_scrub_overrides lookup
is_built = refl

quiet_classified :
    (classify_payload site.detectors financial quiet_payload).scrubbed ≡ some quiet_stored
unfolding classify_payload classify_scrubbed schema_violations steps_problems scrub_trace_payload
    scrub_all scrub_explanation scrub_steps scrub_top_metadata scrub_metadata scrub_fields set_key
    lookup keys first_seen merge_counts strict_schema_active
quiet_classified = refl

classify_payload-are_steps_ok_example :
    (is_empty (schema_violations quiet_payload) ≡ true)
    × (are_steps_ok site.detectors financial (items_or_none (get "footsteps" quiet_stored)) ≡ true)
classify_payload-are_steps_ok_example =
    classify_payload-are_steps_ok site.detectors text_of overrides financial quiet_payload
      quiet_stored (λ s. refl) is_built quiet_classified

-- A guard that takes every text for an address.
abbrev outbound : Outbound
outbound = record {
  redact = λ s. ("[redacted:email]", ("email", 1) ∷ []);
  decimal = λ n. "0";
  lower = λ s. s;
  ends_with = λ s t. str_eq s t;
}

abbrev letter : Json
letter = obj (field "to" (str "ana@example.test") (field "sig" (arr (cons (str "3f1c") nil)) end))

guard_outbound-IsGuarded_example : IsGuarded outbound (guard_outbound outbound letter redact_mode).0
guard_outbound-IsGuarded_example = guard_outbound-IsGuarded outbound letter
