-- ===== src/Scrub/Policy.antt =====
-- The policy of scrubber.py and the operator's overrides.
use stepstitch.Prelude.{ℕ, String, Bool, false, not, ◌||◌, List, [], ◌∷◌, ◌++◌, str_eq}
use stepstitch.Json.{Json, arr, Items, nil, cons, Fields, get}

pub record ScrubPolicy : Type 0 where
  pub name : String
  pub free_text : String
  pub max_text_len : ℕ
  pub metadata_allowlist : List String
  pub footstep_metadata_allowlist : List String
  pub forbidden_keys : List String
  pub reject_on_forbidden : Bool
  pub extra_redactions : List (String × String)
  pub extra_forbidden_keys : List String
  pub selector_policy : String
  pub approved_testids : List String
  pub route_policy : String
  pub route_templates : List String
  pub enforce_masked_labels : Bool

abbrev pub default_metadata_allowlist : List String
default_metadata_allowlist =
    "sdk_version" ∷ "sdk_build" ∷ "viewport" ∷ "user_agent" ∷ "consent_version" ∷ "locale"
    ∷ "release" ∷ "environment" ∷ "sentry_release" ∷ "sentry_environment" ∷ []

abbrev pub default_footstep_metadata_allowlist : List String
default_footstep_metadata_allowlist =
    "status" ∷ "error_type" ∷ "method" ∷ "endpoint" ∷ "source_path" ∷ "line" ∷ "column"
    ∷ "interacted" ∷ []

abbrev pub default_forbidden_keys : List String
default_forbidden_keys =
    "request_body" ∷ "request_bodies" ∷ "response_body" ∷ "response_bodies" ∷ "body" ∷ "console"
    ∷ "console_messages" ∷ "network_headers" ∷ "headers" ∷ "cookies" ∷ "cookie" ∷ "url" ∷ "raw_url"
    ∷ "query" ∷ "query_string" ∷ "screenshot" ∷ "screenshots" ∷ "dom" ∷ "dom_text" ∷ "html"
    ∷ "message" ∷ "messages" ∷ "stack" ∷ "stacktrace" ∷ "log" ∷ "logs" ∷ "console_log" ∷ []

abbrev pub financial_services_enterprise : ScrubPolicy
financial_services_enterprise = record {
  name = "financial-services-enterprise";
  free_text = "scrub";
  max_text_len = 280;
  metadata_allowlist = default_metadata_allowlist;
  footstep_metadata_allowlist = default_footstep_metadata_allowlist;
  forbidden_keys = default_forbidden_keys;
  reject_on_forbidden = false;
  extra_redactions = [];
  extra_forbidden_keys = [];
  selector_policy = "any";
  approved_testids = [];
  route_policy = "any";
  route_templates = [];
  enforce_masked_labels = false;
}

unfoldable pub strict_schema_active : ScrubPolicy → Bool
strict_schema_active p =
    not (str_eq p.selector_policy "any")
    || not (str_eq p.route_policy "any")
    || p.enforce_masked_labels

abbrev pub all_forbidden_keys : ScrubPolicy → List String
all_forbidden_keys p = p.forbidden_keys ++ p.extra_forbidden_keys

-- What iterating over the value yields, nothing where it is empty or missing. A value that is no list
-- is read as empty: the saved configuration has lists alone, and any other is not modelled.
abbrev pub items_of : Json → Items
items_of (arr vs) = vs
items_of _ = nil

-- `str(v)` of a value in the configuration is the parameter `to_text`.
module _ (to_text : Json → String) where
  abbrev pub texts_of : Items → List String
  texts_of nil = []
  texts_of (cons v vs) = to_text v ∷ texts_of vs

  -- A pair of two entries; anything else is dropped.
  abbrev pub pairs_of : Items → List (String × String)
  pairs_of nil = []
  pairs_of (cons (arr (cons a (cons b nil))) vs) = (to_text a, to_text b) ∷ pairs_of vs
  pairs_of (cons _ vs) = pairs_of vs

  abbrev pub texts_or : Json → List String → List String
  texts_or (arr vs) old = texts_of vs
  texts_or _ old = old

  unfoldable pub apply_scrub_overrides : ScrubPolicy → Fields → ScrubPolicy
  apply_scrub_overrides base cfg = record base {
    extra_redactions = pairs_of (items_of (get "extra_redactions" cfg));
    extra_forbidden_keys = texts_of (items_of (get "extra_forbidden_keys" cfg));
    approved_testids = texts_or (get "approved_testids" cfg) base.approved_testids;
    route_templates = texts_or (get "route_templates" cfg) base.route_templates;
  }
