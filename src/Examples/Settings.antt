-- ===== src/Examples/Settings.antt =====
-- The settings of repro_config.py and the boundary of host/host.py on concrete documents and requests.
use stepstitch.Prelude.{◌≡◌, refl, true, not, none, some, [], ◌∷◌, str_eq, all, sort_by, ok, err}
use stepstitch.Json.{str, arr, obj, nil, cons, Fields, end, field, get, keys, lookup}
use stepstitch.Repro.Config.{Python, ReproConfig, no_config}
use stepstitch.Repro.Document.{
  secret_value, not_a_url, from_dict, config_from, as_dict, is_secret_key, is_secret_value,
  rstrip_slash, http_url, auth_from_dict, env_names, str_map, str_entries, overrides_of,
  sorted_items, put, text_fields, override_fields,
}
use stepstitch.Repro.Screened.{is_clean, is_clean_auth, is_pattern, IsStripped, from_dict-is_clean}
use stepstitch.Repro.Roundtrip.{is_storable, from_dict-as_dict}

-- A search that finds the word "token", a `str()` that knows texts.
abbrev pub py : Python
py = record {
  search = λ p s. str_eq s "token";
  search_cased = λ p s. str_eq s "ssa_0123456789";
  compiles = λ s. not (str_eq s "(");
  escape = λ s. s;
  lower = λ s. s;
  str_of = λ v. elim v [ str s ↦ s | _ ↦ "" ];
}

abbrev pub body : Fields
body = field "base_url" (str "https://app.test/") (
    field "auth" (obj (field "env_vars" (arr (cons (str "E2E_PASSWORD") nil)) end)) (
      field "route_params" (obj (field "id" (str "1001") end)) (
        field "input_values" (obj (field "by_type" (obj (field "tel" (str "555") end)) end)) (
          field "api_overrides"
            (obj (
              field "/b" (obj (field "match_regex" (str "/b$") end))
                (field "/a" (obj (field "match_regex" (str "/a$") end)) end)))
            end))))

abbrev pub config : ReproConfig
config = record {
  base_url = some "https://app.test";
  auth = some (record { fixture = none; env_vars = "E2E_PASSWORD" ∷ [] });
  route_params = ("id", "1001") ∷ [];
  input_by_selector = [];
  input_by_kind = ("tel", "555") ∷ [];
  api_overrides = ("/b", "/b$") ∷ ("/a", "/a$") ∷ [];
  verify_workflow_url = none;
}

pub accepted : from_dict py (obj body) ≡ ok config
unfolding from_dict config_from is_secret_key is_secret_value rstrip_slash http_url auth_from_dict
    env_names str_map str_entries overrides_of keys lookup
accepted = refl

pub storable : is_storable py config ≡ true
unfolding is_storable is_secret_key is_secret_value rstrip_slash
storable = refl

abbrev leaking : Fields
leaking = field "route_params" (obj (field "id" (str "ssa_0123456789") end)) end

credential_refused : from_dict py (obj leaking) ≡ err secret_value
unfolding from_dict config_from is_secret_key is_secret_value rstrip_slash http_url auth_from_dict
    env_names str_map str_entries overrides_of keys lookup
credential_refused = refl

-- A bare scheme is accepted, and what is kept of it is refused when it is read again.
abbrev bare : Fields
bare = field "base_url" (str "http://") end

bare_kept : from_dict py (obj bare) ≡ ok (record no_config { base_url = some "http:" })
unfolding from_dict config_from is_secret_key is_secret_value rstrip_slash http_url auth_from_dict
    env_names str_map str_entries overrides_of keys lookup
bare_kept = refl

bare_refused :
    from_dict py (obj (as_dict (record no_config { base_url = some "http:" }))) ≡ err not_a_url
unfolding from_dict config_from is_secret_key is_secret_value rstrip_slash http_url auth_from_dict
    env_names str_map str_entries overrides_of keys lookup as_dict put text_fields override_fields
    sort_by
bare_refused = refl

-- A pattern of an override is stored whatever it looks like.
abbrev unscreened : Fields
unscreened =
    field "api_overrides"
      (obj (field "token" (obj (field "match_regex" (str "ssa_0123456789") end)) end)) end

unscreened_kept :
    from_dict py (obj unscreened)
    ≡ ok (record no_config { api_overrides = ("token", "ssa_0123456789") ∷ [] })
unfolding from_dict config_from is_secret_key is_secret_value rstrip_slash http_url auth_from_dict
    env_names str_map str_entries overrides_of keys lookup
unscreened_kept = refl

from_dict-is_clean_example :
    (all (is_clean py) config.route_params ≡ true)
    × (all (is_clean py) config.input_by_selector ≡ true)
    × (all (is_clean py) config.input_by_kind ≡ true)
    × (is_clean_auth py config.auth ≡ true)
    × (all (is_pattern py) config.api_overrides ≡ true)
    × IsStripped py (get "base_url" body) config.base_url
    × IsStripped py (get "verify_workflow_url" body) config.verify_workflow_url
from_dict-is_clean_example = from_dict-is_clean py body config accepted

from_dict-as_dict_example :
    from_dict py (obj (as_dict config))
    ≡ ok (record config { api_overrides = sorted_items config.api_overrides })
from_dict-as_dict_example = from_dict-as_dict py config storable
