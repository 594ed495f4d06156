-- ===== src/Repro/Document.antt =====
-- The settings as the operator's document: `from_dict`, which refuses what looks like a credential,
-- and `as_dict` of repro_config.py. The messages are display text; an error is the check that failed.
use stepstitch.Prelude.{
  ℕ, String, Bool, true, false, not, ◌&&◌, ◌||◌, Option, none, some, List, [], ◌∷◌, leb, ◌==◌,
  str_eq, if◌then◌else◌, any, all, contains, sort_by, Result, ok, err, ◌>>=◌, ◌>>◌, raise_if,
}
use Prim.Native.Char.{code}
use stepstitch.Prelude.Text.{Text, codes, starts_with}
use stepstitch.Json.{
  Json, null, num, real, str, arr, obj, Items, nil, cons, Fields, end, field, get, truthy, keys,
  texts, str_leb,
}
use stepstitch.Repro.Config.{Python, AuthConfig, ReproConfig, no_config}

pub data ConfigError : Type 0 where
  secret_key secret_value : ConfigError
  not_an_object not_a_list not_text not_a_url not_a_name : ConfigError
  unknown_setting bad_override : ConfigError

abbrev pub secret_key_pattern : String
secret_key_pattern = "(token|password|passwd|secret|api[_-]?key|credential|auth_?key)"

-- The shapes of a credential, with whether the case of a letter counts.
abbrev pub secret_value_shapes : List (Bool × String)
secret_value_shapes =
    (true, "^ss[ai]_[A-Za-z0-9_\\-]{8,}$")
    ∷ (true, "^ey[A-Za-z0-9_\\-]{8,}\\.[A-Za-z0-9_\\-]{4,}\\.")
    ∷ (false, "^\\s*bearer\\s+\\S+")
    ∷ (true, "^gh[pousr]_[A-Za-z0-9]{16,}$")
    ∷ (true, "-----BEGIN [A-Z ]*PRIVATE KEY-----")
    ∷ []

abbrev pub is_http : Text → Bool
is_http s = starts_with (codes "http://") s || starts_with (codes "https://") s

-- `s.rstrip("/")`.
unfoldable pub rstrip_slash : String → String
rstrip_slash String.[] = ""
rstrip_slash (String.◌∷◌ c s) =
    let rest = rstrip_slash s in if str_eq rest "" && code c == b'/' then "" else String.◌∷◌ c rest

abbrev is_name_start : ℕ → Bool
is_name_start c = (leb b'a' c && leb c b'z') || (leb b'A' c && leb c b'Z') || c == b'_'

-- `re.fullmatch(r"[A-Za-z_][A-Za-z0-9_]*", s)`.
abbrev pub is_env_name : Text → Bool
is_env_name [] = false
is_env_name (c ∷ s) = is_name_start c && all (λ d. is_name_start d || (leb b'0' d && leb d b'9')) s

-- `d.get(k) or {}`, where it has to be an object.
abbrev pub object_or_none : Json → Result ConfigError Fields
object_or_none (obj d) = ok d
object_or_none v = if truthy v then err not_an_object else ok end

-- Every item is a text that names an environment variable.
unfoldable pub env_names : Items → Result ConfigError (List String)
env_names nil = ok []
env_names (cons (str s) vs) =
    raise_if (not (is_env_name (codes s))) not_a_name >> (env_names vs >>= λ names. ok (s ∷ names))
env_names (cons _ vs) = err not_text

-- `raw.get("env_vars") or []`.
abbrev pub list_of_names : Json → Result ConfigError (List String)
list_of_names (arr vs) = env_names vs
list_of_names v = if truthy v then err not_a_list else ok []

-- Nothing is configured where there is neither a fixture nor a name.
abbrev pub auth_of : Option String → List String → Option AuthConfig
auth_of none [] = none
auth_of fixture names = some (record { fixture = fixture; env_vars = names })

abbrev pub known : List String
known =
    "base_url" ∷ "auth" ∷ "route_params" ∷ "input_values" ∷ "api_overrides" ∷ "verify_workflow_url"
    ∷ []

abbrev pub input_names : List String
input_names = "by_selector" ∷ "by_type" ∷ []

abbrev pub check_known : List String → Fields → Result ConfigError (Unit {0})
check_known names d = raise_if (any (λ k. not (contains k names)) (keys d)) unknown_setting

module _ (py : Python) where
  abbrev pub has_shape : Bool × String → String → Bool
  has_shape (true, pattern) = py.search_cased pattern
  has_shape (false, pattern) = py.search pattern

  unfoldable pub is_secret_key : String → Bool
  is_secret_key key = py.search secret_key_pattern key

  unfoldable pub is_secret_value : String → Bool
  is_secret_value value = any (λ shape. has_shape shape value) secret_value_shapes

  -- `_reject_secretish`.
  abbrev pub reject_secretish : Option String → String → Result ConfigError (Unit {0})
  reject_secretish none value = raise_if (is_secret_value value) secret_value
  reject_secretish (some key) value =
      raise_if (is_secret_key key) secret_key >> raise_if (is_secret_value value) secret_value

  -- `str(value)` of a text or a number.
  abbrev pub text_value : Json → Result ConfigError String
  text_value (str s) = ok s
  text_value (num z) = ok (py.str_of (num z))
  text_value (real s) = ok (py.str_of (real s))
  text_value _ = err not_text

  unfoldable pub str_entries : Fields → Result ConfigError (List (String × String))
  str_entries end = ok []
  str_entries (field name value d) = text_value value >>= λ text.
      reject_secretish (some name) text >> (str_entries d >>= λ rest. ok ((name, text) ∷ rest))

  -- `_str_map`.
  unfoldable pub str_map : Json → Result ConfigError (List (String × String))
  str_map null = ok []
  str_map (obj d) = str_entries d
  str_map _ = err not_an_object

  -- `_http_url`.
  unfoldable pub http_url : Json → Result ConfigError (Option String)
  http_url null = ok none
  http_url (str s) =
      if str_eq s ""
      then ok none
      else raise_if (not (is_http (codes s))) not_a_url
        >> (reject_secretish none s >> ok (some (rstrip_slash s)))
  http_url _ = err not_text

  abbrev pub fixture_of : Json → Result ConfigError (Option String)
  fixture_of null = ok none
  fixture_of (str s) = reject_secretish none s >> ok (some s)
  fixture_of _ = err not_text

  -- `AuthConfig.from_dict`.
  unfoldable pub auth_from_dict : Json → Result ConfigError (Option AuthConfig)
  auth_from_dict null = ok none
  auth_from_dict (obj d) = fixture_of (get "fixture" d) >>= λ fixture.
      list_of_names (get "env_vars" d) >>= λ names. ok (auth_of fixture names)
  auth_from_dict _ = err not_an_object

  -- A pattern is a text that is not empty and that `re.compile` takes.
  abbrev pub pattern_of : Json → Result ConfigError String
  pattern_of (str s) = if str_eq s "" || not (py.compiles s) then err bad_override else ok s
  pattern_of _ = err bad_override

  abbrev pub override_pattern : Json → Result ConfigError String
  override_pattern (obj d) = pattern_of (get "match_regex" d)
  override_pattern _ = err bad_override

  unfoldable pub overrides_of : Fields → Result ConfigError (List (String × String))
  overrides_of end = ok []
  overrides_of (field endpoint spec d) = override_pattern spec >>= λ pattern.
      overrides_of d >>= λ rest. ok ((endpoint, pattern) ∷ rest)

  unfoldable pub config_from : Fields → Result ConfigError ReproConfig
  config_from raw = do
    check_known known raw
    inputs ← object_or_none (get "input_values" raw)
    check_known input_names inputs
    overrides_raw ← object_or_none (get "api_overrides" raw)
    overrides ← overrides_of overrides_raw
    base_url ← http_url (get "base_url" raw)
    auth ← auth_from_dict (get "auth" raw)
    route_params ← str_map (get "route_params" raw)
    by_selector ← str_map (get "by_selector" inputs)
    by_kind ← str_map (get "by_type" inputs)
    workflow ← http_url (get "verify_workflow_url" raw)
    ok (record {
      base_url = base_url;
      auth = auth;
      route_params = route_params;
      input_by_selector = by_selector;
      input_by_kind = by_kind;
      api_overrides = overrides;
      verify_workflow_url = workflow;
    })

  -- `ReproConfig.from_dict`.
  unfoldable pub from_dict : Json → Result ConfigError ReproConfig
  from_dict null = ok no_config
  from_dict (obj raw) = config_from raw
  from_dict _ = err not_an_object

-- `d[k] = v` at the front, where there is a value.
unfoldable pub put : String → Option Json → Fields → Fields
put k none d = d
put k (some v) d = field k v d

-- An object that is not empty.
abbrev pub object_json : Fields → Option Json
object_json end = none
object_json (field k v d) = some (obj (field k v d))

abbrev pub text_json : Option String → Option Json
text_json none = none
text_json (some s) = if str_eq s "" then none else some (str s)

abbrev pub names_json : List String → Option Json
names_json [] = none
names_json (s ∷ names) = some (arr (texts (s ∷ names)))

abbrev pub auth_json : Option AuthConfig → Option Json
auth_json none = none
auth_json (some a) =
    some (obj (put "fixture" (text_json a.fixture) (put "env_vars" (names_json a.env_vars) end)))

unfoldable pub text_fields : List (String × String) → Fields
text_fields [] = end
text_fields ((k, v) ∷ d) = field k (str v) (text_fields d)

unfoldable pub override_fields : List (String × String) → Fields
override_fields [] = end
override_fields ((k, v) ∷ d) = field k (obj (field "match_regex" (str v) end)) (override_fields d)

abbrev pub sorted_items : List (String × String) → List (String × String)
sorted_items = sort_by (λ a b. str_leb a.0 b.0)

abbrev pub inputs_fields : ReproConfig → Fields
inputs_fields c =
    put "by_selector" (object_json (text_fields c.input_by_selector))
      (put "by_type" (object_json (text_fields c.input_by_kind)) end)

unfoldable pub as_dict : ReproConfig → Fields
as_dict c = put "base_url" (text_json c.base_url) (
    put "auth" (auth_json c.auth) (
      put "route_params" (object_json (text_fields c.route_params)) (
        put "input_values" (object_json (inputs_fields c)) (
          put "api_overrides" (object_json (override_fields (sorted_items c.api_overrides)))
            (put "verify_workflow_url" (text_json c.verify_workflow_url) end)))))

abbrev is_end : Fields → Bool
is_end end = true
is_end (field k v d) = false

unfoldable pub is_empty : ReproConfig → Bool
is_empty c = is_end (as_dict c)
