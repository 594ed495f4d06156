-- ===== src/Compiler/Order.antt =====
-- The order of waits and actions in the test that compiler.py emits.
use stepstitch.Prelude.{
  ℕ, suc, ◌≡◌, refl, inl, inr, String, Bool, true, false, ◌&&◌, ◌||◌, Option, none, some, List, [],
  ◌∷◌, ◌++◌, arith, str_eq, if◌then◌else◌, get_or, Bool-cases,
}
use stepstitch.Prelude.Int.{ℤ}
use stepstitch.Prelude.Text.{Text, codes}
use stepstitch.Json.{Json, Fields}
use stepstitch.Repro.Config.{endpoint_match_regex, Python, ReproConfig, or_text}
use stepstitch.Repro.Document.{rstrip_slash}
use stepstitch.Compiler.Emit.{matched, default_base_url}
use stepstitch.Compiler.Parts.{preamble_plain}
use stepstitch.Repro.Needs.{text_at, settings}
use stepstitch.Compiler.{any, Statement, no_assertion, await_armed, end_test}
use stepstitch.Compiler.Emit.{
  headed, lines_for, arm_line, wait_line, expected, judged, emit_action, armed, standalone, single,
  body, preamble, generate_playwright_test, kind_of, has_kind, is_action, is_failure, next_number,
  fields_at,
}
use stepstitch.Compiler.Parts.{single_cases, emit_action_plain, lines_plain}
use stepstitch.Compiler.Waits.{
  is_act, step_wait, run_waits, is_settled, run_waits_plain, run_waits-append, settle_then,
  plain_settles,
}

module _ (py : Python) (to_int : Json → Option ℤ) (upper : String → String) (cfg : ReproConfig)
    (base : Text) where
  matched_quiet :
      (n : ℕ) (o : Option Text) → any is_act (matched py to_int upper cfg base n o).0 ≡ false
  matched_quiet n none = refl
  matched_quiet n (some source) = refl

  lines_quiet :
      (n : ℕ) (meta : Fields) → any is_act (lines_for py to_int upper cfg base n meta) ≡ false
  lines_quiet n meta =
      matched_quiet n (endpoint_match_regex py.escape (text_at py "endpoint" meta) (some cfg))

  armed_settles :
      (a : Bool) (n : ℕ) (step next : Fields)
      → is_settled (run_waits (some (a, none)) (armed py to_int upper cfg base n step next)) ≡ true
  unfolding armed run_waits step_wait
  armed_settles a n step next =
      let meta = fields_at "metadata" next in
      let lines = lines_for py to_int upper cfg base n meta in
      let acts = emit_action py to_int upper cfg base step in
      let head = headed py to_int upper cfg base step in
      let arm = arm_line py to_int upper cfg base n meta in
      let last =
        expected py to_int upper cfg base meta
        ∷ await_armed n
        ∷ judged py to_int upper cfg base n meta
        ∷ [] in
      rw
        (
          run_waits-append (some (a, none)) (head ∷ lines ++ arm ∷ acts) last,
          run_waits-append (some (a, none)) (head ∷ lines) (arm ∷ acts),
          run_waits_plain false none lines (lines_plain py to_int upper cfg base n meta),
          lines_quiet n meta,
          run_waits_plain false (some n) acts (emit_action_plain py to_int upper cfg base step),
        )
        (ground arith)

  standalone_settles :
      (a : Bool) (n : ℕ) (step : Fields)
      → is_settled (run_waits (some (a, none)) (standalone py to_int upper cfg base n step)) ≡ true
  unfolding standalone run_waits step_wait
  standalone_settles a n step =
      let meta = fields_at "metadata" step in
      let lines = lines_for py to_int upper cfg base n meta in
      let last =
        expected py to_int upper cfg base meta
        ∷ wait_line py to_int upper cfg base n meta
        ∷ judged py to_int upper cfg base n meta
        ∷ [] in
      rw
        (
          run_waits-append (some (a, none)) lines last,
          run_waits_plain a none lines (lines_plain py to_int upper cfg base n meta),
        )
        refl

  single_settles :
      (a : Bool) (n : ℕ) (step : Fields)
      → is_settled (run_waits (some (a, none)) (single py to_int upper cfg base n step)) ≡ true
  unfolding run_waits step_wait
  single_settles a n step = elim (single_cases py to_int upper cfg base n step) [
    | inl (e, _, _) ↦ rw e (
        plain_settles a (emit_action py to_int upper cfg base step)
          (emit_action_plain py to_int upper cfg base step))
    | inr (inl (e, _, _)) ↦ rw e (standalone_settles a n step)
    | inr (inr (inl (e, _, _))) ↦ rw e refl
    | inr (inr (inr (plain, _, _))) ↦ plain_settles a (single py to_int upper cfg base n step) plain
  ]

  headed_settles :
      (a : Bool) (n : ℕ) (step : Fields) (more : List Statement)
      → ((b : Bool) → is_settled (run_waits (some (b, none)) more) ≡ true)
      → is_settled (
          run_waits
            (some (a, none))
            (headed py to_int upper cfg base step ∷ single py to_int upper cfg base n step ++ more))
        ≡ true
  unfolding run_waits step_wait
  headed_settles a n step more h =
      rw (run_waits-append (some (false, none)) (single py to_int upper cfg base n step) more) (
        settle_then (run_waits (some (false, none)) (single py to_int upper cfg base n step)) more
          (single_settles false n step) h)

  last_settles :
      (test a : Bool)
      → is_settled (run_waits (some (a, none)) (if test then [] else no_assertion ∷ [])) ≡ true
  unfolding run_waits step_wait
  last_settles true a = refl
  last_settles false a = refl

  body_settles :
      (n : ℕ) (asserted : Bool) (steps : List Fields) (a : Bool)
      → is_settled (run_waits (some (a, none)) (body py to_int upper cfg base n asserted steps))
        ≡ true
  unfolding body
  body_settles n asserted [] a = last_settles asserted a
  body_settles n asserted (step ∷ []) a =
      let done = asserted || is_failure py to_int upper cfg base step in
      headed_settles a n step (if done then [] else no_assertion ∷ []) (last_settles done)
  body_settles n asserted (step ∷ next ∷ steps) a =
      let number = next_number py to_int upper cfg base n step in
      let done = asserted || is_failure py to_int upper cfg base step in
      let first = armed py to_int upper cfg base n step next in
      let after = body py to_int upper cfg base (suc n) true steps in
      elim (Bool-cases (
        is_action py to_int upper cfg base (kind_of py to_int upper cfg base step)
        && has_kind py to_int upper cfg base "api_error" next)) [
          | inl e ↦
              rw (e, run_waits-append (some (a, none)) first after)
                (settle_then (run_waits (some (a, none)) first) after (armed_settles a n step next)
                  (body_settles (suc n) true steps))
          | inr e ↦ rw e (
              headed_settles a n step (body py to_int upper cfg base number done (next ∷ steps))
                (body_settles number done (next ∷ steps)))
        ]

-- Every wait of the test is armed while no other is open and before its step acts, and is awaited
-- once, under its own number, before the next is armed, waited for after the fact or judged; none
-- is left open at the end.
pub generate_playwright_test_waits :
    (py : Python) (to_int : Json → Option ℤ) (upper : String → String) (steps : List Fields)
    (base_url : String) (config : Option ReproConfig)
    → is_settled (
        run_waits
          (some (false, none))
          (generate_playwright_test py to_int upper steps base_url config))
      ≡ true
unfolding generate_playwright_test
generate_playwright_test_waits py to_int upper steps base_url config =
    let cfg = settings config in
    let base = codes (rstrip_slash (get_or (or_text cfg.base_url (some base_url)) "")) in
    let configured =
      if str_eq (rstrip_slash base_url) default_base_url then none else some base_url in
    let before = preamble py to_int upper cfg base steps configured in
    let middle = body py to_int upper cfg base 0 false steps in
    rw
      (
        run_waits-append (some (false, none)) (before ++ middle) (end_test ∷ []),
        run_waits-append (some (false, none)) before middle,
      )
      (settle_then (run_waits (run_waits (some (false, none)) before) middle) (end_test ∷ [])
        (settle_then (run_waits (some (false, none)) before) middle
          (plain_settles false before (preamble_plain py to_int upper cfg base steps configured))
          (body_settles py to_int upper cfg base 0 false steps))
        (λ a. plain_settles a (end_test ∷ []) refl))
