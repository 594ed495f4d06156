-- ===== src/Compiler/Asserts.antt =====
-- How often the test that compiler.py emits asserts.
use stepstitch.Prelude.{
  ℕ, suc, ◌≡◌, refl, ap, ◌∙◌, inl, inr, String, Bool, true, false, not, ◌&&◌, ◌||◌, Option, none,
  some, List, [], ◌∷◌, ◌++◌, arith, str_eq, if◌then◌else◌, get_or, Bool-cases, any, all, count_if,
}
use stepstitch.Prelude.{count_if-append}
use stepstitch.Prelude.Int.{ℤ}
use stepstitch.Prelude.Text.{Text, codes}
use stepstitch.Repro.Document.{rstrip_slash}
use stepstitch.Compiler.{end_test}
use stepstitch.Compiler.Emit.{default_base_url, headed}
use stepstitch.Prelude.{◌+◌}
use stepstitch.Json.{Json, Fields}
use stepstitch.Repro.Config.{or_text, Python, ReproConfig}
use stepstitch.Repro.Needs.{text_at, settings}
use stepstitch.Compiler.{Statement, no_assertion}
use stepstitch.Compiler.Emit.{
  armed, single, body, preamble, generate_playwright_test, kind_of, has_kind, is_action, is_failure,
  next_number,
}
use stepstitch.Compiler.Plain.{
  is_status, is_exception, is_nothing, is_plain, plain_status, plain_exception, plain_nothing,
  error_apart, count_if_plain, action_apart,
}
use stepstitch.Compiler.Parts.{
  preamble_plain, count_if-emit_action, count_if-armed, count_if-standalone, single_cases,
}

count_if_never : {A : Type 0} → (xs : List A) → count_if (λ _. false) xs ≡ 0
count_if_never [] = refl
count_if_never (x ∷ xs) = count_if_never xs

both_true : {a b : Bool} → (a && b) ≡ true → (a ≡ true) × (b ≡ true)
both_true h = ground (arith, h)

module _ (py : Python) (to_int : Json → Option ℤ) (upper : String → String) (cfg : ReproConfig)
    (base : Text) where
  -- How many statements of a list satisfy each of three tests.
  abbrev counts : List Statement → ℕ × ℕ × ℕ
  counts ss = (count_if is_status ss, count_if is_exception ss, count_if is_nothing ss)

  abbrev one_if : Bool → ℕ
  one_if b = if b then 1 else 0

  -- What a single footstep asserts.
  counts-single :
      (n : ℕ) (step : Fields)
      → counts (single py to_int upper cfg base n step) ≡ (
        one_if (has_kind py to_int upper cfg base "api_error" step),
        one_if (has_kind py to_int upper cfg base "exception" step),
        0,
      )
  counts-single n step = elim (single_cases py to_int upper cfg base n step) [
    | inl (e, api, exc) ↦
        rw
          (
            e,
            api,
            exc,
            count_if-emit_action py to_int upper cfg base is_status plain_status step,
            count_if-emit_action py to_int upper cfg base is_exception plain_exception step,
            count_if-emit_action py to_int upper cfg base is_nothing plain_nothing step,
          )
          refl
    | inr (inl (e, api, exc)) ↦
        rw
          (
            e,
            api,
            exc,
            count_if-standalone py to_int upper cfg base is_status plain_status n step,
            count_if-standalone py to_int upper cfg base is_exception plain_exception n step,
            count_if-standalone py to_int upper cfg base is_nothing plain_nothing n step,
          )
          refl
    | inr (inr (inl (e, api, exc))) ↦ rw (e, api, exc) refl
    | inr (inr (inr (plain, api, exc))) ↦
        rw
          (
            api,
            exc,
            count_if_plain is_status (single py to_int upper cfg base n step) plain_status plain,
            count_if_plain is_exception (single py to_int upper cfg base n step) plain_exception
                plain,
            count_if_plain is_nothing (single py to_int upper cfg base n step) plain_nothing plain,
          )
          refl
  ]

  counts-armed :
      (n : ℕ) (step next : Fields) → counts (armed py to_int upper cfg base n step next) ≡ (1, 0, 0)
  counts-armed n step next =
      rw
        (
          count_if-armed py to_int upper cfg base is_status plain_status n step next,
          count_if-armed py to_int upper cfg base is_exception plain_exception n step next,
          count_if-armed py to_int upper cfg base is_nothing plain_nothing n step next,
        )
        refl

  -- A test that is answered alike by the parts of the body is answered by the body: it counts the
  -- footsteps of `q`, and the remark that nothing is asserted where none is a failure.
  count_if-body :
      (p : Statement → Bool) (q : Fields → Bool)
      → ((n : ℕ) (step : Fields)
          → count_if p
              (headed py to_int upper cfg base step ∷ single py to_int upper cfg base n step)
            ≡ one_if (q step))
      → ((n : ℕ) (step next : Fields)
          → (is_action py to_int upper cfg base (kind_of py to_int upper cfg base step)
              && has_kind py to_int upper cfg base "api_error" next)
            ≡ true
          → count_if p (armed py to_int upper cfg base n step next)
            ≡ one_if (q step) + one_if (q next))
      → (n : ℕ) (asserted : Bool) (steps : List Fields)
      → count_if p (body py to_int upper cfg base n asserted steps)
        ≡ count_if q steps
          + one_if
              (not (asserted || any (is_failure py to_int upper cfg base) steps) && p no_assertion)
  unfolding body
  count_if-body p q h k n asserted [] = ground arith
  count_if-body p q h k n asserted (step ∷ []) =
      let first = headed py to_int upper cfg base step ∷ single py to_int upper cfg base n step in
      let last =
        if asserted || is_failure py to_int upper cfg base step then [] else no_assertion ∷ [] in
      ground (arith, count_if-append p first last, h n step)
  count_if-body p q h k n asserted (step ∷ next ∷ steps) =
      let number = next_number py to_int upper cfg base n step in
      let done = asserted || is_failure py to_int upper cfg base step in
      let first = headed py to_int upper cfg base step ∷ single py to_int upper cfg base n step in
      let both = armed py to_int upper cfg base n step next in
      elim (Bool-cases (
        is_action py to_int upper cfg base (kind_of py to_int upper cfg base step)
        && has_kind py to_int upper cfg base "api_error" next)) [
          | inl e ↦ rw e (
              ground (
                arith,
                e,
                count_if-append p both (body py to_int upper cfg base (suc n) true steps),
                k n step next e,
                count_if-body p q h k (suc n) true steps,
              ))
          | inr e ↦ rw e (
              ground (
                arith,
                count_if-append p first (body py to_int upper cfg base number done (next ∷ steps)),
                h n step,
                count_if-body p q h k number done (next ∷ steps),
              ))
        ]

  -- What an action with the API error after it asserts.
  armed_apart :
      (step next : Fields)
      → (is_action py to_int upper cfg base (kind_of py to_int upper cfg base step)
          && has_kind py to_int upper cfg base "api_error" next)
        ≡ true
      → (has_kind py to_int upper cfg base "api_error" step ≡ false)
        × (has_kind py to_int upper cfg base "exception" step ≡ false)
        × (has_kind py to_int upper cfg base "api_error" next ≡ true)
        × (has_kind py to_int upper cfg base "exception" next ≡ false)
  armed_apart step next e =
      let acts = action_apart (kind_of py to_int upper cfg base step) (both_true e).0 in
      (
        acts.0,
        acts.1,
        (both_true e).1,
        error_apart (kind_of py to_int upper cfg base next) (both_true e).1,
      )

  statuses_body :
      (steps : List Fields)
      → count_if is_status (body py to_int upper cfg base 0 false steps)
        ≡ count_if (has_kind py to_int upper cfg base "api_error") steps
  statuses_body steps =
      let failure = has_kind py to_int upper cfg base "api_error" in
      ground (
        arith,
        count_if-body is_status failure (λ n step. ap (λ c. c.0) (counts-single n step))
            (λ n step next e.
              let a = armed_apart step next e in
              rw (a.0, a.2) (ap (λ c. c.0) (counts-armed n step next)))
            0 false steps,
      )

  exceptions_body :
      (steps : List Fields)
      → count_if is_exception (body py to_int upper cfg base 0 false steps)
        ≡ count_if (has_kind py to_int upper cfg base "exception") steps
  exceptions_body steps =
      let failure = has_kind py to_int upper cfg base "exception" in
      ground (
        arith,
        count_if-body is_exception failure (λ n step. ap (λ c. c.1) (counts-single n step))
            (λ n step next e.
              let a = armed_apart step next e in
              rw (a.1, a.3) (ap (λ c. c.1) (counts-armed n step next)))
            0 false steps,
      )

  nothings_body :
      (steps : List Fields)
      → count_if is_nothing (body py to_int upper cfg base 0 false steps)
        ≡ one_if (not (any (is_failure py to_int upper cfg base) steps))
  nothings_body steps = ground (
    arith,
    count_if_never steps,
    count_if-body is_nothing (λ _. false) (λ n step. ap (λ c. c.2) (counts-single n step))
        (λ n step next e. ap (λ c. c.2) (counts-armed n step next)) 0 false steps,
  )

negated : (b : Bool) → ◌≡◌ {A = ℕ} (if not b then 1 else 0) (if b then 0 else 1)
negated true = refl
negated false = refl

around_body :
    (p : Statement → Bool) (before middle : List Statement)
    → ((s : Statement) → is_plain s ≡ true → p s ≡ false)
    → all is_plain before ≡ true
    → count_if p (before ++ middle ++ end_test ∷ []) ≡ count_if p middle
around_body p before middle h a = ground (
  arith,
  count_if-append p (before ++ middle) (end_test ∷ []),
  count_if-append p before middle,
  count_if_plain p before h a,
  h end_test refl,
)

-- The test asserts once for each failure that was captured: as many status assertions as footsteps
-- are API errors, and as many exception assertions as footsteps are exceptions. It says that it
-- asserts nothing, once, exactly where the trace has neither.
pub generate_playwright_test_asserts :
    (py : Python) (to_int : Json → Option ℤ) (upper : String → String) (steps : List Fields)
    (base_url : String) (config : Option ReproConfig)
    → let test = generate_playwright_test py to_int upper steps base_url config in
      let kind : Fields → String = λ s. py.lower (text_at py "type" s) in
      (count_if is_status test ≡ count_if (λ s. str_eq (kind s) "api_error") steps)
      × (count_if is_exception test ≡ count_if (λ s. str_eq (kind s) "exception") steps)
      × (count_if is_nothing test ≡ (
          if any (λ s. str_eq (kind s) "api_error" || str_eq (kind s) "exception") steps
          then 0
          else 1))
unfolding generate_playwright_test
generate_playwright_test_asserts py to_int upper steps base_url config =
    let cfg = settings config in
    let base = codes (rstrip_slash (get_or (or_text cfg.base_url (some base_url)) "")) in
    let configured =
      if str_eq (rstrip_slash base_url) default_base_url then none else some base_url in
    let before = preamble py to_int upper cfg base steps configured in
    let middle = body py to_int upper cfg base 0 false steps in
    let plain = preamble_plain py to_int upper cfg base steps configured in
    (
      around_body is_status before middle plain_status plain
          ∙ statuses_body py to_int upper cfg base steps,
      around_body is_exception before middle plain_exception plain
          ∙ exceptions_body py to_int upper cfg base steps,
      around_body is_nothing before middle plain_nothing plain
          ∙ nothings_body py to_int upper cfg base steps
          ∙ negated (any (is_failure py to_int upper cfg base) steps),
    )
