-- ===== src/Repro/Screened.antt =====
-- What the settings hold after `from_dict` of repro_config.py has accepted a document.
use stepstitch.Prelude.{
  ◌≡◌, refl, ap, ◌⊎◌, inl, inr, String, Bool, true, false, not, ◌&&◌, Option, none, some, List, [],
  ◌∷◌, arith, str_eq, Bool-cases, all, Result, ok, raise_if, bind-eq-ok, eq_iff,
}
use stepstitch.Prelude.Text.{codes}
use stepstitch.Json.{arr, Json, null, str, obj, Items, nil, cons, Fields, end, field, get}
use stepstitch.Repro.Config.{Python, AuthConfig, ReproConfig}
use stepstitch.Repro.Document.{
  input_names, pattern_of, not_a_name, is_http, ConfigError, is_env_name, env_names, list_of_names,
  auth_of, is_secret_key, is_secret_value, str_entries, str_map, http_url, fixture_of,
  auth_from_dict, override_pattern, overrides_of, object_or_none, check_known, known, config_from,
  from_dict, rstrip_slash, reject_secretish, text_value,
}

ok_injective : {a b : ReproConfig} → ◌≡◌ {A = Result ConfigError ReproConfig} (ok a) (ok b) → a ≡ b
ok_injective h = cc

module _ (py : Python) where
  -- Neither the name nor the value of an entry looks like a credential.
  abbrev pub is_clean : String × String → Bool
  is_clean (k, v) = not (is_secret_key py k) && not (is_secret_value py v)

  abbrev pub is_clean_text : Option String → Bool
  is_clean_text none = true
  is_clean_text (some s) = not (is_secret_value py s)

  -- The variables are names, and the fixture does not look like a credential.
  abbrev pub is_clean_auth : Option AuthConfig → Bool
  is_clean_auth none = true
  is_clean_auth (some a) = is_clean_text a.fixture && all (λ s. is_env_name (codes s)) a.env_vars

  abbrev pub is_pattern : String × String → Bool
  is_pattern (k, v) = not (str_eq v "") && py.compiles v

  -- A URL that was given and was stripped of the slashes at its end.
  abbrev pub IsStripped : Json → Option String → Type 0
  IsStripped v none = (v ≡ null) ⊎ (v ≡ str "")
  IsStripped v (some s) =
      (url : String) × (v ≡ str url)
      × (is_http (codes url) ≡ true)
      × (is_secret_value py url ≡ false)
      × (s ≡ rstrip_slash url)

  reject-none : (s : String) → reject_secretish py none s ≡ ok tt → is_secret_value py s ≡ false
  reject-none s h = ground arith

  str_entries-is_clean :
      (d : Fields) {out : List (String × String)}
      → str_entries py d ≡ ok out
      → all is_clean out ≡ true
  unfolding str_entries
  str_entries-is_clean end h = ground arith
  str_entries-is_clean (field k v d) h =
      let (text, _, h1) = bind-eq-ok (text_value py v) _ h in
      let (_, clean, h2) = bind-eq-ok (reject_secretish py (some k) text) _ h1 in
      let (rest, more, h3) = bind-eq-ok (str_entries py d) _ h2 in
      ground (arith, clean, h3, str_entries-is_clean d more)

  str_map-is_clean :
      (v : Json) {out : List (String × String)} → str_map py v ≡ ok out → all is_clean out ≡ true
  unfolding str_map
  str_map-is_clean null h = ground arith
  str_map-is_clean (obj d) h = str_entries-is_clean d h
  str_map-is_clean _ h = cc

  env_names-are_names :
      (vs : Items) {out : List String}
      → env_names vs ≡ ok out
      → all (λ s. is_env_name (codes s)) out ≡ true
  unfolding env_names
  env_names-are_names nil h = ground arith
  env_names-are_names (cons (str s) vs) h =
      let (_, named, h1) = bind-eq-ok (raise_if (not (is_env_name (codes s))) not_a_name) _ h in
      let (rest, more, h2) = bind-eq-ok (env_names vs) _ h1 in
      ground (arith, named, h2, env_names-are_names vs more)
  env_names-are_names (cons _ vs) h = cc

  http_url_given :
      (s : String) {out : Option String}
      → str_eq s "" ≡ false
      → http_url py (str s) ≡ ok out
      → (is_http (codes s) ≡ true) × (is_secret_value py s ≡ false) × (out ≡ some (rstrip_slash s))
  unfolding http_url
  http_url_given s e h = ground (arith, h, e)

  http_url-IsStripped : (v : Json) (out : Option String) → http_url py v ≡ ok out → IsStripped v out
  unfolding http_url
  http_url-IsStripped null none h = inl refl
  http_url-IsStripped null (some u) h = cc
  http_url-IsStripped (str s) none h = elim (Bool-cases (str_eq s "")) [
    | inl e ↦ inr (ap str ((eq_iff s "").0 e))
    | inr e ↦ let (_, _, other) = http_url_given s e h in cc
  ]
  http_url-IsStripped (str s) (some u) h = elim (Bool-cases (str_eq s "")) [
    | inl e ↦ absurd (ground (arith, h, e))
    | inr e ↦
        let (web, clean, same) = http_url_given s e h in (s, refl, web, clean, ground (arith, same))
  ]
  http_url-IsStripped _ _ h = cc

  fixture_of-is_clean :
      (v : Json) {out : Option String} → fixture_of py v ≡ ok out → is_clean_text out ≡ true
  fixture_of-is_clean null h = ground arith
  fixture_of-is_clean (str s) h = ground (arith, h)
  fixture_of-is_clean _ h = cc

  list_of_names-are_names :
      (v : Json) {out : List String}
      → list_of_names v ≡ ok out
      → all (λ s. is_env_name (codes s)) out ≡ true
  list_of_names-are_names (arr vs) h = env_names-are_names vs h
  list_of_names-are_names _ h = ground (arith, h)

  auth_of-is_clean :
      (fixture : Option String) (names : List String)
      → is_clean_text fixture ≡ true
      → all (λ s. is_env_name (codes s)) names ≡ true
      → is_clean_auth (auth_of fixture names) ≡ true
  auth_of-is_clean none [] f n = refl
  auth_of-is_clean none (s ∷ names) f n = n
  auth_of-is_clean (some s) names f n = ground (arith, f, n)

  auth_from_dict-is_clean :
      (v : Json) {out : Option AuthConfig} → auth_from_dict py v ≡ ok out → is_clean_auth out ≡ true
  unfolding auth_from_dict
  auth_from_dict-is_clean null h = ground arith
  auth_from_dict-is_clean (obj d) h =
      let (fixture, given, h1) = bind-eq-ok (fixture_of py (get "fixture" d)) _ h in
      let (names, listed, h2) = bind-eq-ok (list_of_names (get "env_vars" d)) _ h1 in
      ground (
        arith,
        h2,
        auth_of-is_clean fixture names (fixture_of-is_clean (get "fixture" d) given)
            (list_of_names-are_names (get "env_vars" d) listed),
      )
  auth_from_dict-is_clean _ h = cc

  override_pattern-is_pattern :
      (v : Json) {out : String}
      → override_pattern py v ≡ ok out
      → (str_eq out "" ≡ false) × (py.compiles out ≡ true)
  override_pattern-is_pattern (obj d) h = pattern_of-is_pattern (get "match_regex" d) h
    where
      pattern_of-is_pattern :
          (v : Json) {out : String}
          → pattern_of py v ≡ ok out
          → (str_eq out "" ≡ false) × (py.compiles out ≡ true)
      pattern_of-is_pattern (str s) h = ground (arith, h)
      pattern_of-is_pattern _ h = cc
  override_pattern-is_pattern _ h = cc

  overrides_of-are_patterns :
      (d : Fields) {out : List (String × String)}
      → overrides_of py d ≡ ok out
      → all is_pattern out ≡ true
  unfolding overrides_of
  overrides_of-are_patterns end h = ground arith
  overrides_of-are_patterns (field k v d) h =
      let (pattern, found, h1) = bind-eq-ok (override_pattern py v) _ h in
      let (rest, more, h2) = bind-eq-ok (overrides_of py d) _ h1 in
      ground (arith, h2, override_pattern-is_pattern v found, overrides_of-are_patterns d more)

  -- Of a document that is accepted, no name or value in the maps of route parameters and of values
  -- to type looks like a credential, the fixture does not either, what is listed as environment
  -- variables are names of variables, the patterns of the overrides compile, and a URL that is kept
  -- is the one of the document without the slashes at its end, which is a web address and does not
  -- look like a credential.
  pub from_dict-is_clean :
      (raw : Fields) (c : ReproConfig)
      → from_dict py (obj raw) ≡ ok c
      → (all is_clean c.route_params ≡ true)
        × (all is_clean c.input_by_selector ≡ true)
        × (all is_clean c.input_by_kind ≡ true)
        × (is_clean_auth c.auth ≡ true)
        × (all is_pattern c.api_overrides ≡ true)
        × IsStripped (get "base_url" raw) c.base_url
        × IsStripped (get "verify_workflow_url" raw) c.verify_workflow_url
  unfolding from_dict config_from
  from_dict-is_clean raw c h =
      let (_, _, h1) = bind-eq-ok (check_known known raw) _ h in
      let (inputs, _, h2) = bind-eq-ok (object_or_none (get "input_values" raw)) _ h1 in
      let (_, _, h3) = bind-eq-ok (check_known input_names inputs) _ h2 in
      let (listed, _, h4) = bind-eq-ok (object_or_none (get "api_overrides" raw)) _ h3 in
      let (overrides, over, h5) = bind-eq-ok (overrides_of py listed) _ h4 in
      let (base, based, h6) = bind-eq-ok (http_url py (get "base_url" raw)) _ h5 in
      let (auth, authed, h7) = bind-eq-ok (auth_from_dict py (get "auth" raw)) _ h6 in
      let (params, routed, h8) = bind-eq-ok (str_map py (get "route_params" raw)) _ h7 in
      let (selectors, selected, h9) = bind-eq-ok (str_map py (get "by_selector" inputs)) _ h8 in
      let (kinds, kinded, h10) = bind-eq-ok (str_map py (get "by_type" inputs)) _ h9 in
      let (flow, flowed, h11) = bind-eq-ok (http_url py (get "verify_workflow_url" raw)) _ h10 in
      let same : _ ≡ c = ok_injective h11 in
      rw (← same) (
        str_map-is_clean (get "route_params" raw) routed,
        str_map-is_clean (get "by_selector" inputs) selected,
        str_map-is_clean (get "by_type" inputs) kinded,
        auth_from_dict-is_clean (get "auth" raw) authed,
        overrides_of-are_patterns listed over,
        http_url-IsStripped (get "base_url" raw) base based,
        http_url-IsStripped (get "verify_workflow_url" raw) flow flowed,
      )
