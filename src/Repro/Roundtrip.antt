-- ===== src/Repro/Roundtrip.antt =====
-- The round trip of the settings of repro_config.py: what `as_dict` writes, `from_dict` reads back.
use stepstitch.Prelude.{
  all-sort_by, ◌≡◌, refl, ◌∙◌, String, Bool, true, false, not, ◌&&◌, Option, none, some, List, [],
  ◌∷◌, arith, str_eq, if◌then◌else◌, any, all, ok, eq_iff,
}
use stepstitch.Prelude.Text.{codes}
use stepstitch.Json.{Json, null, obj, Fields, end, field, get, lookup, keys, texts}
use stepstitch.Repro.Config.{Python, AuthConfig, ReproConfig}
use stepstitch.Repro.Document.{
  fixture_of, is_http, is_env_name, env_names, list_of_names, auth_of, is_secret_value, str_entries,
  str_map, http_url, auth_from_dict, overrides_of, object_or_none, check_known, known, input_names,
  config_from, from_dict, rstrip_slash, put, object_json, text_json, names_json, auth_json,
  text_fields, override_fields, sorted_items, inputs_fields, as_dict,
}
use stepstitch.Repro.Screened.{is_clean, is_clean_auth, is_pattern}

abbrev got : Option Json → Json → Json
got none other = other
got (some v) other = v

get-put :
    (j k : String) (o : Option Json) (d : Fields)
    → get k (put j o d) ≡ (if str_eq j k then got o (get k d) else get k d)
unfolding put lookup
get-put j k none d = ground arith
get-put j k (some v) d = ground arith

any_key-put :
    (p : String → Bool) (k : String) (o : Option Json) (d : Fields)
    → p k ≡ false
    → any p (keys (put k o d)) ≡ any p (keys d)
unfolding put keys
any_key-put p k none d h = refl
any_key-put p k (some v) d h = rw h refl

object_or_none-object_json : (d : Fields) → object_or_none (got (object_json d) null) ≡ ok d
object_or_none-object_json end = refl
object_or_none-object_json (field k v d) = refl

module _ (c : ReproConfig) where
  keys-as_dict : check_known known (as_dict c) ≡ ok tt
  unfolding as_dict keys
  keys-as_dict =
      rw (any_key-put, any_key-put, any_key-put, any_key-put, any_key-put, any_key-put) refl

  keys-inputs_fields : check_known input_names (inputs_fields c) ≡ ok tt
  unfolding keys
  keys-inputs_fields = rw (any_key-put, any_key-put) refl

  -- What `raw.get` finds in the document.
  get-as_dict :
      (get "base_url" (as_dict c) ≡ got (text_json c.base_url) null)
      × (get "auth" (as_dict c) ≡ got (auth_json c.auth) null)
      × (get "route_params" (as_dict c) ≡ got (object_json (text_fields c.route_params)) null)
      × (get "input_values" (as_dict c) ≡ got (object_json (inputs_fields c)) null)
      × (get "api_overrides" (as_dict c)
          ≡ got (object_json (override_fields (sorted_items c.api_overrides))) null)
      × (get "verify_workflow_url" (as_dict c) ≡ got (text_json c.verify_workflow_url) null)
  unfolding as_dict lookup
  get-as_dict = (
    simp (get-put),
    simp (get-put),
    simp (get-put),
    simp (get-put),
    simp (get-put),
    simp (get-put),
  )

  get-inputs_fields :
      (get "by_selector" (inputs_fields c)
        ≡ got (object_json (text_fields c.input_by_selector)) null)
      × (get "by_type" (inputs_fields c) ≡ got (object_json (text_fields c.input_by_kind)) null)
  unfolding lookup
  get-inputs_fields = (simp (get-put), simp (get-put))

module _ (py : Python) where
  -- A URL that is set is a web address with no slash at its end, and no credential by its shape.
  abbrev pub is_kept_url : Option String → Bool
  is_kept_url none = true
  is_kept_url (some s) =
      not (str_eq s "")
      && is_http (codes s)
      && not (is_secret_value py s)
      && str_eq (rstrip_slash s) s

  abbrev pub is_kept_fixture : Option String → Bool
  is_kept_fixture none = true
  is_kept_fixture (some s) = not (str_eq s "") && not (is_secret_value py s)

  abbrev pub is_some_auth : Option String → List String → Bool
  is_some_auth none [] = false
  is_some_auth _ _ = true

  -- A fixture that is set is not empty, and there is a fixture or a variable.
  abbrev pub is_kept_auth : Option AuthConfig → Bool
  is_kept_auth none = true
  is_kept_auth (some a) =
      is_clean_auth py (some a) && is_kept_fixture a.fixture && is_some_auth a.fixture a.env_vars

  http_url-text_json :
      (o : Option String) → is_kept_url o ≡ true → http_url py (got (text_json o) null) ≡ ok o
  unfolding http_url
  http_url-text_json none h = refl
  http_url-text_json (some s) h = ground (arith, h, eq_iff (rstrip_slash s) s)

  str_entries-text_fields :
      (m : List (String × String))
      → all (is_clean py) m ≡ true
      → str_entries py (text_fields m) ≡ ok m
  unfolding str_entries text_fields
  str_entries-text_fields [] h = refl
  str_entries-text_fields ((k, v) ∷ m) h = ground (arith, h, str_entries-text_fields m)

  str_map-text_fields :
      (m : List (String × String))
      → all (is_clean py) m ≡ true
      → str_map py (got (object_json (text_fields m)) null) ≡ ok m
  unfolding str_map text_fields
  str_map-text_fields [] h = refl
  str_map-text_fields ((k, v) ∷ m) h = str_entries-text_fields ((k, v) ∷ m) h

  overrides_of-override_fields :
      (m : List (String × String))
      → all (is_pattern py) m ≡ true
      → overrides_of py (override_fields m) ≡ ok m
  unfolding overrides_of override_fields lookup
  overrides_of-override_fields [] h = refl
  overrides_of-override_fields ((k, v) ∷ m) h = ground (arith, h, overrides_of-override_fields m)

  env_names-texts :
      (names : List String)
      → all (λ s. is_env_name (codes s)) names ≡ true
      → env_names (texts names) ≡ ok names
  unfolding env_names texts
  env_names-texts [] h = refl
  env_names-texts (s ∷ names) h = ground (arith, h, env_names-texts names)

  list_of_names-names_json :
      (names : List String)
      → all (λ s. is_env_name (codes s)) names ≡ true
      → list_of_names (got (names_json names) null) ≡ ok names
  unfolding texts
  list_of_names-names_json [] h = refl
  list_of_names-names_json (s ∷ names) h = env_names-texts (s ∷ names) h

  fixture_of-text_json :
      (o : Option String) → is_kept_fixture o ≡ true → fixture_of py (got (text_json o) null) ≡ ok o
  fixture_of-text_json none h = refl
  fixture_of-text_json (some s) h = ground (arith, h)

  auth_of-same :
      (fixture : Option String) (names : List String)
      → is_some_auth fixture names ≡ true
      → auth_of fixture names ≡ some (record { fixture = fixture; env_vars = names })
  auth_of-same none [] h = cc
  auth_of-same none (s ∷ names) h = refl
  auth_of-same (some s) names h = refl

  auth_from_dict-auth_json :
      (o : Option AuthConfig)
      → is_kept_auth o ≡ true
      → auth_from_dict py (got (auth_json o) null) ≡ ok o
  unfolding auth_from_dict lookup
  auth_from_dict-auth_json none h = refl
  auth_from_dict-auth_json (some a) h =
      let named = names_json a.env_vars in
      let first : get "fixture" (put "fixture" (text_json a.fixture) (put "env_vars" named end))
          ≡ got (text_json a.fixture) null =
        rw (get-put, get-put) refl in
      let second : get "env_vars" (put "fixture" (text_json a.fixture) (put "env_vars" named end))
          ≡ got named null =
        rw (get-put, get-put) refl in
      rw
        (
          first,
          fixture_of-text_json a.fixture (ground (arith, h)),
          second,
          list_of_names-names_json a.env_vars (ground (arith, h)),
          auth_of-same a.fixture a.env_vars (ground (arith, h)),
        )
        refl

  -- What `from_dict` takes and `as_dict` writes in full.
  unfoldable pub is_storable : ReproConfig → Bool
  is_storable c =
      is_kept_url c.base_url
      && is_kept_auth c.auth
      && all (is_clean py) c.route_params
      && all (is_clean py) c.input_by_selector
      && all (is_clean py) c.input_by_kind
      && all (is_pattern py) c.api_overrides
      && is_kept_url c.verify_workflow_url

  -- What `as_dict` writes for a storable configuration is accepted by `from_dict`, which gives the
  -- configuration back; only the overrides come back in the order of their endpoints.
  pub from_dict-as_dict :
      (c : ReproConfig)
      → is_storable c ≡ true
      → from_dict py (obj (as_dict c))
        ≡ ok (record c { api_overrides = sorted_items c.api_overrides })
  unfolding from_dict config_from is_storable
  from_dict-as_dict c h =
      let (base, auth, params, inputs, overrides, flow) = get-as_dict c in
      let (selectors, kinds) = get-inputs_fields c in
      let sorted_patterns : all (is_pattern py) (sorted_items c.api_overrides) ≡ true =
        all-sort_by _ (is_pattern py) c.api_overrides ∙ ground (arith, h) in
      rw
        (
          keys-as_dict c,
          inputs,
          object_or_none-object_json (inputs_fields c),
          keys-inputs_fields c,
          overrides,
          object_or_none-object_json (override_fields (sorted_items c.api_overrides)),
          overrides_of-override_fields (sorted_items c.api_overrides) sorted_patterns,
          base,
          http_url-text_json c.base_url (ground (arith, h)),
          auth,
          auth_from_dict-auth_json c.auth (ground (arith, h)),
          params,
          str_map-text_fields c.route_params (ground (arith, h)),
          selectors,
          str_map-text_fields c.input_by_selector (ground (arith, h)),
          kinds,
          str_map-text_fields c.input_by_kind (ground (arith, h)),
          flow,
          http_url-text_json c.verify_workflow_url (ground (arith, h)),
        )
        refl
