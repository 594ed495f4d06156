-- ===== src/Compiler/Parts.antt =====
-- What each part of the test that compiler.py emits is made of: statements that neither assert nor
-- wait around those that do.
use stepstitch.Prelude.{
  ℕ, ◌≡◌, refl, ◌⊎◌, inl, inr, String, Bool, true, false, not, Option, none, some, List, [], ◌∷◌,
  ◌++◌, arith, str_eq, Bool-cases, any, all, count_if, contains,
}
use stepstitch.Prelude.{all-append}
use stepstitch.Prelude.Int.{ℤ}
use stepstitch.Prelude.Text.{Text, codes}
use stepstitch.Json.{Json, Fields}
use stepstitch.Replay.{supported_step_types}
use stepstitch.Repro.Config.{endpoint_match_regex, Python, ReproConfig, synthetic_value}
use stepstitch.Repro.Needs.{text_at}
use stepstitch.Compiler.{comment, Statement, await_armed, set_field_helper, capture_page_errors}
use stepstitch.Repro.Config.{AuthConfig}
use stepstitch.Repro.Needs.{readiness}
use stepstitch.Runner.Run.{ReadinessItem}
use stepstitch.Compiler.{imports, open_test}
use stepstitch.Compiler.Emit.{
  when, auth_line, checklist_of, exception_line, lines_for, arm_line, wait_line, expected, judged,
  route_of, headed, emit_action, visit, press, enter, matched, armed, standalone, single, preamble,
  kind_of, has_kind, is_action, fields_at, has_input,
}
use stepstitch.Compiler.Plain.{
  is_plain, count_if_plain, count_if_plain_append, if_plain, around_action, action_apart,
  error_apart,
}

module _ (py : Python) (to_int : Json → Option ℤ) (upper : String → String) (cfg : ReproConfig)
    (base : Text) where
  matched_plain :
      (n : ℕ) (o : Option Text) → all is_plain (matched py to_int upper cfg base n o).0 ≡ true
  matched_plain n none = refl
  matched_plain n (some source) = refl

  enter_plain :
      (target : Text) (v : Option String × String)
      → all is_plain (enter py to_int upper cfg base target v) ≡ true
  unfolding enter
  enter_plain target (none, kind) = refl
  enter_plain target (some value, kind) = refl

  visit_plain : (route : Text) → all is_plain (visit py to_int upper cfg base route) ≡ true
  unfolding visit
  visit_plain route = ground arith

  press_plain :
      (target : Text) (label : String)
      → all is_plain (press py to_int upper cfg base target label) ≡ true
  unfolding press
  press_plain target label = ground arith

  pub emit_action_plain :
      (step : Fields) → all is_plain (emit_action py to_int upper cfg base step) ≡ true
  unfolding emit_action
  emit_action_plain step =
      let target = text_at py "target" step in
      ground (
        arith,
        visit_plain (route_of py to_int upper cfg base step),
        press_plain (codes target) (text_at py "label" step),
        enter_plain (codes target) (synthetic_value py target (some cfg)),
      )

  pub lines_plain :
      (n : ℕ) (meta : Fields) → all is_plain (lines_for py to_int upper cfg base n meta) ≡ true
  lines_plain n meta =
      matched_plain n (endpoint_match_regex py.escape (text_at py "endpoint" meta) (some cfg))

  module _ (p : Statement → Bool) (h : (s : Statement) → is_plain s ≡ true → p s ≡ false) where
    pub count_if-emit_action :
        (step : Fields) → count_if p (emit_action py to_int upper cfg base step) ≡ 0
    count_if-emit_action step =
        count_if_plain p (emit_action py to_int upper cfg base step) h (emit_action_plain step)

    pub count_if-armed :
        (n : ℕ) (step next : Fields)
        → let meta = fields_at "metadata" next in
          count_if p (armed py to_int upper cfg base n step next)
          ≡ count_if p (
              headed py to_int upper cfg base step
              ∷ arm_line py to_int upper cfg base n meta
              ∷ expected py to_int upper cfg base meta
              ∷ await_armed n
              ∷ judged py to_int upper cfg base n meta
              ∷ [])
    unfolding armed
    count_if-armed n step next =
        let meta = fields_at "metadata" next in
        around_action p h (lines_for py to_int upper cfg base n meta)
          (emit_action py to_int upper cfg base step) (lines_plain n meta) (emit_action_plain step)
          (headed py to_int upper cfg base step) (arm_line py to_int upper cfg base n meta)
          (expected py to_int upper cfg base meta) (await_armed n)
          (judged py to_int upper cfg base n meta)

    pub count_if-standalone :
        (n : ℕ) (step : Fields)
        → let meta = fields_at "metadata" step in
          count_if p (standalone py to_int upper cfg base n step)
          ≡ count_if p (
              expected py to_int upper cfg base meta
              ∷ wait_line py to_int upper cfg base n meta
              ∷ judged py to_int upper cfg base n meta
              ∷ [])
    unfolding standalone
    count_if-standalone n step =
        let meta = fields_at "metadata" step in
        count_if_plain_append p (lines_for py to_int upper cfg base n meta)
          (expected py to_int upper cfg base meta
            ∷ wait_line py to_int upper cfg base n meta
            ∷ judged py to_int upper cfg base n meta
            ∷ [])
          h (lines_plain n meta)

  -- What a footstep of each kind comes to.
  pub single_cases :
      (n : ℕ) (step : Fields)
      → let k = kind_of py to_int upper cfg base step in
        ((single py to_int upper cfg base n step ≡ emit_action py to_int upper cfg base step)
          × (str_eq k "api_error" ≡ false)
          × (str_eq k "exception" ≡ false))
        ⊎ ((single py to_int upper cfg base n step ≡ standalone py to_int upper cfg base n step)
            × (str_eq k "api_error" ≡ true)
            × (str_eq k "exception" ≡ false))
        ⊎ ((single py to_int upper cfg base n step
              ≡ exception_line py to_int upper cfg base step ∷ [])
            × (str_eq k "api_error" ≡ false)
            × (str_eq k "exception" ≡ true))
        ⊎ ((all is_plain (single py to_int upper cfg base n step) ≡ true)
            × (str_eq k "api_error" ≡ false)
            × (str_eq k "exception" ≡ false))
  unfolding single
  single_cases n step =
      let k = kind_of py to_int upper cfg base step in
      elim (Bool-cases (is_action py to_int upper cfg base k)) [
        | inl e ↦ inl (rw e refl, (action_apart k e).0, (action_apart k e).1)
        | inr e ↦ elim (Bool-cases (str_eq k "api_error")) [
          | inl f ↦ inr (inl (rw (e, f) refl, f, error_apart k f))
          | inr f ↦ elim (Bool-cases (str_eq k "exception")) [
            | inl g ↦ inr (inr (inl (rw (e, f, g) refl, f, g)))
            | inr g ↦ inr (
                inr (
                  inr (
                    rw (e, f, g)
                        (if_plain (not (contains k supported_step_types)) (comment (codes k))),
                    f,
                    g,
                  )))
          ]
        ]
      ]

  checklist_plain :
      (items : List ReadinessItem)
      → all is_plain (checklist_of py to_int upper cfg base items) ≡ true
  checklist_plain [] = refl
  checklist_plain (item ∷ items) = checklist_plain items

  auth_plain :
      (auth : Option AuthConfig) → is_plain (auth_line py to_int upper cfg base auth) ≡ true
  auth_plain none = refl
  auth_plain (some a) = ground arith

  when_plain :
      (test : Bool) (s : Statement)
      → is_plain s ≡ true
      → all is_plain (when py to_int upper cfg base test s) ≡ true
  when_plain test s h = ground (arith, h)

  pub preamble_plain :
      (steps : List Fields) (fallback : Option String)
      → all is_plain (preamble py to_int upper cfg base steps fallback) ≡ true
  unfolding preamble
  preamble_plain steps fallback =
      let input = has_input py to_int upper cfg base steps in
      let items = checklist_of py to_int upper cfg base (readiness py (some cfg) steps fallback) in
      let helper = when py to_int upper cfg base input set_field_helper in
      let auth = auth_line py to_int upper cfg base cfg.auth in
      let page =
        when py to_int upper cfg base (any (has_kind py to_int upper cfg base "exception") steps)
          capture_page_errors in
      rw
        (
          all-append is_plain (imports input ∷ items ++ helper) (open_test ∷ auth ∷ page),
          all-append is_plain (imports input ∷ items) helper,
          checklist_plain (readiness py (some cfg) steps fallback),
          when_plain input set_field_helper refl,
          auth_plain cfg.auth,
          when_plain (any (has_kind py to_int upper cfg base "exception") steps) capture_page_errors
              refl,
        )
        refl
