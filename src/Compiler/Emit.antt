-- ===== src/Compiler/Emit.antt =====
-- The statements of compiler.py: the actions, the waits and assertions, and the whole test. A status
-- assertion carries its endpoint, and the message about an exception its name, as a remark does.
use stepstitch.Prelude.{
  ℕ, suc, String, Bool, true, false, not, ◌&&◌, ◌||◌, Option, none, some, List, [], ◌∷◌, ◌++◌, map,
  ◌==◌, str_eq, if◌then◌else◌, get_or, any, keep, contains,
}
use stepstitch.Prelude.Int.{ℤ}
use stepstitch.Prelude.Text.{Text, codes, text_eq, starts_with, drop}
use stepstitch.Json.{Json, str, obj, Fields, end, get, lookup, truthy}
use stepstitch.Runner.Run.{ReadinessItem}
use stepstitch.Replay.{supported_step_types}
use stepstitch.Repro.Config.{
  Python, AuthConfig, ReproConfig, synthetic_value, endpoint_match_regex, split_on_slash, or_text,
  given,
}
use stepstitch.Repro.Document.{rstrip_slash}
use stepstitch.Repro.Needs.{text_at, settings, readiness}
use stepstitch.Compiler.{
  ts_str, comment, expectation, Statement, imports, checklist, set_field_helper, open_test,
  auth_fixture, auth_todo, capture_page_errors, heading, needs_route, go_to, labelled, click,
  needs_input, fill_from_env, synthetic, fill, matcher, arm_wait, expected_failure, await_armed,
  wait_now, expect_status, expect_no_exception, unsupported_step, no_assertion, end_test,
}

abbrev pub default_base_url : String
default_base_url = "http://localhost:3000"

-- `metadata or {}`, an object.
abbrev pub fields_at : String → Fields → Fields
fields_at k step = elim (get k step) [ obj d ↦ d | _ ↦ end ]

abbrev has_colon : Text → Bool
has_colon s = any (λ c. c == b':') s

-- `"/".join(segments)`.
abbrev join_on_slash : List Text → Text
join_on_slash [] = []
join_on_slash (s ∷ []) = s
join_on_slash (s ∷ t ∷ segments) = s ++ b'/' ∷ join_on_slash (t ∷ segments)

abbrev value_of : List (String × String) → Text → Text → Text
value_of [] name other = other
value_of ((k, v) ∷ d) name other =
    let rest = value_of d name other in if text_eq (codes k) name then codes v else rest

abbrev resolve_segment : List (String × String) → Text → Text
resolve_segment params [] = []
resolve_segment params (c ∷ name) = if c == b':' then value_of params name (c ∷ name) else c ∷ name

-- `resolve_route`.
unfoldable pub resolve_route : List (String × String) → Text → Text
resolve_route params route =
    if has_colon route
    then join_on_slash (map (resolve_segment params) (split_on_slash route))
    else route

abbrev names_left : List Text → List Text
names_left segments = map (drop 1) (keep (starts_with (codes ":")) segments)

module _ (py : Python) (to_int : Json → Option ℤ) (upper : String → String) (cfg : ReproConfig)
    (base : Text) where
  abbrev pub kind_of : Fields → String
  kind_of step = py.lower (text_at py "type" step)

  abbrev pub route_of : Fields → Text
  route_of step = elim (lookup "route" step) [
    | none ↦ codes "/"
    | some (str s) ↦ codes s
    | some v ↦ codes (py.str_of v)
  ]

  abbrev pub has_kind : String → Fields → Bool
  has_kind k step = str_eq (kind_of step) k

  abbrev pub is_action : String → Bool
  is_action k = str_eq k "navigation" || str_eq k "click" || str_eq k "input"

  unfoldable pub visit : Text → List Statement
  visit route =
      let resolved = resolve_route cfg.route_params route in
      (if has_colon resolved
        then needs_route (names_left (split_on_slash resolved)) (comment route) ∷ []
        else [])
      ++ go_to (ts_str (base ++ resolved)) ∷ []

  unfoldable pub press : Text → String → List Statement
  press target label =
      (if not (str_eq label "") && not (str_eq label "[masked]")
        then labelled (comment (codes label)) ∷ []
        else [])
      ++ click (ts_str target) ∷ []

  unfoldable pub enter : Text → Option String × String → List Statement
  enter target (none, kind) = needs_input (comment target) kind ∷ fill_from_env (ts_str target) ∷ []
  enter target (some value, kind) =
      synthetic kind ∷ fill (ts_str target) (ts_str (codes value)) ∷ []

  -- `emit_action`.
  unfoldable pub emit_action : Fields → List Statement
  emit_action step =
      let target = text_at py "target" step in
      if has_kind "navigation" step
      then visit (route_of step)
      else if has_kind "click" step && truthy (get "target" step)
      then press (codes target) (text_at py "label" step)
      else if has_kind "input" step && truthy (get "target" step)
      then enter (codes target) (synthetic_value py target (some cfg))
      else []

  abbrev pub matched : ℕ → Option Text → List Statement × Option ℕ
  matched n none = ([], none)
  matched n (some source) = (matcher n (ts_str source) ∷ [], some n)

  -- `_matcher_lines`.
  abbrev pub matcher_lines : ℕ → String → List Statement × Option ℕ
  matcher_lines n endpoint = matched n (endpoint_match_regex py.escape endpoint (some cfg))

  abbrev status_text : Fields → Text
  status_text meta = elim (lookup "status" meta) [
    | none ↦ codes "?"
    | some (str s) ↦ codes s
    | some v ↦ codes (py.str_of v)
  ]

  abbrev method_of : Fields → Text
  method_of meta = ts_str (codes (upper (text_at py "method" meta)))

  abbrev pub expected : Fields → Statement
  expected meta = expected_failure (comment (codes (text_at py "endpoint" meta))) (status_text meta)

  abbrev endpoint_name : String → Text
  endpoint_name endpoint =
      comment (if str_eq endpoint "" then codes "the endpoint" else codes endpoint)

  abbrev pub judged : ℕ → Fields → Statement
  judged n meta =
      expect_status n (expectation (to_int (get "status" meta)))
        (endpoint_name (text_at py "endpoint" meta))

  abbrev pub headed : Fields → Statement
  headed step = heading (codes (upper (kind_of step))) (comment (route_of step))

  abbrev pub lines_for : ℕ → Fields → List Statement
  lines_for n meta = (matcher_lines n (text_at py "endpoint" meta)).0

  -- `_arm_wait`, and the same wait after the fact.
  abbrev pub arm_line : ℕ → Fields → Statement
  arm_line n meta = arm_wait n (matcher_lines n (text_at py "endpoint" meta)).1 (method_of meta)

  abbrev pub wait_line : ℕ → Fields → Statement
  wait_line n meta = wait_now n (matcher_lines n (text_at py "endpoint" meta)).1 (method_of meta)

  -- An interaction that an API error follows: the wait is armed before it.
  unfoldable pub armed : ℕ → Fields → Fields → List Statement
  armed n step next =
      let meta = fields_at "metadata" next in
      headed step ∷ lines_for n meta
      ++ arm_line n meta ∷ emit_action step
      ++ expected meta ∷ await_armed n ∷ judged n meta ∷ []

  -- An API error on its own.
  unfoldable pub standalone : ℕ → Fields → List Statement
  standalone n step =
      let meta = fields_at "metadata" step in
      lines_for n meta ++ expected meta ∷ wait_line n meta ∷ judged n meta ∷ []

  abbrev error_name : Fields → String
  error_name meta =
      if truthy (get "error_type" meta)
      then text_at py "error_type" meta
      else if truthy (get "name" meta)
      then text_at py "name" meta
      else "Error"

  abbrev pub exception_line : Fields → Statement
  exception_line step =
      let name = comment (codes (error_name (fields_at "metadata" step))) in
      expect_no_exception (ts_str name) name

  unfoldable pub single : ℕ → Fields → List Statement
  single n step =
      if is_action (kind_of step)
      then emit_action step
      else if has_kind "api_error" step
      then standalone n step
      else if has_kind "exception" step
      then exception_line step ∷ []
      else if not (contains (kind_of step) supported_step_types)
      then unsupported_step (comment (codes (kind_of step))) ∷ []
      else []

  abbrev pub is_failure : Fields → Bool
  is_failure step = has_kind "api_error" step || has_kind "exception" step

  abbrev pub next_number : ℕ → Fields → ℕ
  next_number n step = if has_kind "api_error" step then suc n else n

  -- The loop over the footsteps, with the number of the next answer and whether anything is asserted.
  unfoldable pub body : ℕ → Bool → List Fields → List Statement
  body n asserted [] = if asserted then [] else no_assertion ∷ []
  body n asserted (step ∷ []) =
      headed step ∷ single n step ++ (if asserted || is_failure step then [] else no_assertion ∷ [])
  body n asserted (step ∷ next ∷ steps) =
      let after = body (suc n) true steps in
      let rest = body (next_number n step) (asserted || is_failure step) (next ∷ steps) in
      if is_action (kind_of step) && has_kind "api_error" next
      then armed n step next ++ after
      else headed step ∷ single n step ++ rest

  abbrev pub has_input : List Fields → Bool
  has_input steps = any (λ s. has_kind "input" s && truthy (get "target" s)) steps

  abbrev pub checklist_of : List ReadinessItem → List Statement
  checklist_of [] = []
  checklist_of (item ∷ items) = checklist item.id item.ready ∷ checklist_of items

  abbrev pub when : Bool → Statement → List Statement
  when test s = if test then s ∷ [] else []

  abbrev pub auth_line : Option AuthConfig → Statement
  auth_line auth = elim auth [
    | none ↦ auth_todo
    | some a ↦
        if given a.fixture then auth_fixture (comment (codes (get_or a.fixture ""))) else auth_todo
  ]

  unfoldable pub preamble : List Fields → Option String → List Statement
  preamble steps fallback =
      imports (has_input steps) ∷ checklist_of (readiness py (some cfg) steps fallback)
      ++ when (has_input steps) set_field_helper
      ++ open_test
        ∷ auth_line cfg.auth
        ∷ when (any (has_kind "exception") steps) capture_page_errors

-- `generate_playwright_test`.
unfoldable pub generate_playwright_test :
    Python
    → (Json → Option ℤ)
    → (String → String)
    → List Fields
    → String
    → Option ReproConfig
    → List Statement
generate_playwright_test py to_int upper steps base_url config =
    let cfg = settings config in
    let base = codes (rstrip_slash (get_or (or_text cfg.base_url (some base_url)) "")) in
    let configured =
      if str_eq (rstrip_slash base_url) default_base_url then none else some base_url in
    preamble py to_int upper cfg base steps configured
    ++ body py to_int upper cfg base 0 false steps
    ++ end_test ∷ []
