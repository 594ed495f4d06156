-- ===== src/Runner/Classify.antt =====
-- service/stepstitch_service/runner.py: `classify_run`, which reads one finished execution.
-- The character classes of Python's `re` and of `splitlines` are the parameter `Chars`.
use stepstitch.Prelude.{
  arith, ◌↔◌, map, get_or, ◌≡◌, ◌==◌, ℕ, String, Bool, true, false, not, ◌&&◌, ◌||◌, Option, none,
  some, List, [], ◌∷◌, if◌then◌else◌, any, take, is_empty, keep, head?,
}
use stepstitch.Prelude.Int.{ℤ, is_zero}
use stepstitch.Prelude.Text.{Text, codes, is_infix, strip, splitlines}
use stepstitch.Runner.{ErrorDetail, no_detail, line, no_results}

-- `\d`, `\s`, `\w` and the line breaks, over code points.
pub record Chars : Type 0 where
  pub is_digit : ℕ → Bool
  pub is_space : ℕ → Bool
  pub is_word : ℕ → Bool
  pub is_break : ℕ → Bool

abbrev pub never_ran_markers : List String
never_ran_markers =
    "Cannot find module" ∷ "Error: No tests found" ∷ "no tests found"
    ∷ "Playwright Test did not expect" ∷ "SyntaxError" ∷ "Cannot find package"
    ∷ "Requiring the config" ∷ "Error: Cannot find" ∷ "Executable doesn't exist at"
    ∷ "browserType.launch:"
    ∷ "Looks like Playwright Test or Playwright was just installed or updated"
    ∷ "npx playwright install" ∷ "Host system is missing dependencies" ∷ []

-- The first marker of a run in which the test never started.
unfoldable pub find_marker : List String → Text → Option Text
find_marker [] text = none
find_marker (m ∷ ms) text =
    let rest = find_marker ms text in if is_infix (codes m) text then some (codes m) else rest

abbrev pub outcome_words : List String
outcome_words = "passed" ∷ "failed" ∷ "flaky" ∷ "did not run" ∷ "skipped" ∷ []

abbrev pub exit_is_zero : Option ℤ → Bool
exit_is_zero none = false
exit_is_zero (some z) = is_zero z

module _ (c : Chars) where
  -- `\b` at the front of a text.
  abbrev pub at_end_of_word : Text → Bool
  at_end_of_word [] = true
  at_end_of_word (d ∷ s) = not (c.is_word d)

  -- A word, and `\b` behind it.
  unfoldable pub whole_word : Text → Text → Bool
  whole_word [] s = at_end_of_word s
  whole_word (a ∷ p) [] = false
  whole_word (a ∷ p) (b ∷ s) = a == b && whole_word p s

  abbrev pub outcome_word : Text → Bool
  outcome_word s = any (λ w. whole_word (codes w) s) outcome_words

  -- `\s+(passed|failed|flaky|did not run|skipped)\b`.
  unfoldable pub spaces_outcome : Text → Bool
  unfolding whole_word
  spaces_outcome [] = false
  spaces_outcome (d ∷ s) = c.is_space d && (outcome_word s || spaces_outcome s)

  unfoldable pub digits_outcome : Text → Bool
  unfolding spaces_outcome
  digits_outcome [] = false
  digits_outcome (d ∷ s) = c.is_digit d && (spaces_outcome s || digits_outcome s)

  -- `re.search`: `behind_word` says whether the character in front is one of a word.
  unfoldable pub search_from : Bool → Text → Bool
  unfolding digits_outcome
  search_from behind_word [] = false
  search_from behind_word (d ∷ s) =
      (not behind_word && digits_outcome (d ∷ s)) || search_from (c.is_word d) s

  -- The transcript holds a run summary, such as "1 failed".
  unfoldable pub has_summary : Text → Bool
  unfolding search_from
  has_summary text = search_from false text

  first_line : (Text → Bool) → Text → Option Text
  first_line p text = head? (map (strip c.is_space) (keep p (splitlines c.is_break text)))

  -- `(passed, errored, error_detail)`.
  unfoldable pub classify_run : Option ℤ → Text → Bool × Bool × ErrorDetail
  unfolding first_line
  classify_run exit_code text =
      if exit_is_zero exit_code
      then (true, false, no_detail)
      else elim (find_marker never_ran_markers text) [
        | some m ↦ (false, true, line (take 200 (get_or (first_line (is_infix m) text) m)))
        | none ↦ if has_summary text then (false, false, no_detail) else (
          false,
          true,
          elim (first_line (λ l. not (is_empty (strip c.is_space l))) text) [
            | some l ↦ line (take 200 l)
            | none ↦ no_results exit_code
          ],
        )
      ]

  -- A run passes exactly on exit code 0; it counts as a failure of the application exactly when
  -- the exit code is not 0, no marker of a run that never started is there, and a summary is.
  pub classify_run_lem :
      (exit_code : Option ℤ) (text : Text)
      → (((classify_run exit_code text).0 ≡ true) ↔ (exit_is_zero exit_code ≡ true))
        × ((((classify_run exit_code text).0 ≡ false) × ((classify_run exit_code text).1 ≡ false))
            ↔ ((exit_is_zero exit_code ≡ false)
                × (find_marker never_ran_markers text ≡ none)
                × (has_summary text ≡ true)))
  unfolding classify_run
  classify_run_lem exit_code text = ground arith
