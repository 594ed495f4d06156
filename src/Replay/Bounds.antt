-- ===== src/Replay/Bounds.antt =====
-- The caps of the score in replayability.py.
use stepstitch.Prelude.{
  if◌then◌else◌, sort_by, ◌||◌, length, ◌&&◌, all, ℕ, suc, ◌+◌, ◌≤◌, ◌<◌, ◌≡◌, ◌≢◌, ◌⊎◌, refl, Bool,
  true, false, not, List, [], ◌∷◌, arith, any, contains, count_if,
}
use stepstitch.Prelude.Text.{Text}
use stepstitch.Replay.{
  templated_from, interactive_types, missing, Tier, Footstep, Chars, Tally, supported_step_types,
  grade_a, grade_b, grade_d, grade_f, grade, step_type, is_terminal, tally_step, tally_from,
  no_tally, deductions, score_trace, selector_stability,
}

abbrev pub is_testid : Tier → Bool
is_testid Tier.testid = true
is_testid _ = false

module _ (c : Chars) where
  abbrev pub is_unknown : Footstep → Bool
  is_unknown s = not (contains (step_type c s) supported_step_types)

  unknown-tally_step :
      (i : ℕ) (s : Footstep) (t : Tally)
      → (tally_step c i s t).unknown_types ≡ t.unknown_types + (if is_unknown s then 1 else 0)
  unfolding tally_step
  unknown-tally_step i s t = ground arith

  unknown-tally_from :
      (i : ℕ) (steps : List Footstep) (t : Tally)
      → (tally_from c i steps t).unknown_types ≡ t.unknown_types + count_if is_unknown steps
  unfolding tally_from
  unknown-tally_from i [] t = omega arith
  unknown-tally_from i (s ∷ steps) t =
      ground
        (arith, unknown-tally_step i s t, unknown-tally_from (suc i) steps (tally_step c i s t))

  count-any :
      (p : Footstep → Bool) (steps : List Footstep) → any p steps ≡ true → 0 < count_if p steps
  count-any p [] h = cc
  count-any p (s ∷ steps) h = ground (arith, count-any p steps)

  unknown-deductions :
      (steps : List Footstep) (supplied : List Text)
      → (deductions c steps supplied).unknown_types ≡ count_if is_unknown steps
  unfolding deductions
  unknown-deductions steps supplied = omega (arith, unknown-tally_from 0 steps no_tally)

  no_terminal-lost :
      (steps : List Footstep) (supplied : List Text)
      → any (is_terminal c) steps ≡ false
      → 50 ≤ (deductions c steps supplied).lost
  unfolding deductions
  no_terminal-lost steps supplied h = ground arith

  -- A trace with a step that the compiler cannot execute scores at most 0.60, so its grade is
  -- neither A nor B, however clean the other steps are.
  pub score_trace-unknown :
      (steps : List Footstep) (supplied : List Text)
      → any is_unknown steps ≡ true
      → ((score_trace c steps supplied).score ≤ 60)
        × ((score_trace c steps supplied).grade ≢ grade_a)
        × ((score_trace c steps supplied).grade ≢ grade_b)
  unfolding score_trace grade
  score_trace-unknown [] supplied h = cc
  score_trace-unknown (s ∷ steps) supplied h =
      ground (arith, unknown-deductions (s ∷ steps) supplied, count-any is_unknown (s ∷ steps) h)

  -- A trace with nothing to assert on scores at most 0.50: its grade is D or F.
  pub score_trace-no_terminal :
      (steps : List Footstep) (supplied : List Text)
      → any (is_terminal c) steps ≡ false
      → ((score_trace c steps supplied).score ≤ 50)
        × (((score_trace c steps supplied).grade ≡ grade_d)
            ⊎ ((score_trace c steps supplied).grade ≡ grade_f))
  unfolding score_trace grade
  score_trace-no_terminal [] supplied h = ground arith
  score_trace-no_terminal (s ∷ steps) supplied h =
      ground (arith, no_terminal-lost (s ∷ steps) supplied h)

  -- A step that costs nothing: its type is known, and what it acts on has a test id.
  abbrev pub is_clean : Footstep → Bool
  is_clean s =
      contains (step_type c s) supported_step_types
      && (not (contains (step_type c s) interactive_types)
          || is_testid (selector_stability c s.target))

  clean-tally_step :
      (i : ℕ) (s : Footstep) (t : Tally)
      → is_clean s ≡ true
      → ((tally_step c i s t).lost ≡ t.lost)
        × ((tally_step c i s t).unknown_types ≡ t.unknown_types)
        × ((tally_step c i s t).warnings ≡ t.warnings)
  unfolding tally_step
  clean-tally_step i s t h = ground arith

  clean-tally_from :
      (i : ℕ) (steps : List Footstep) (t : Tally)
      → all is_clean steps ≡ true
      → ((tally_from c i steps t).lost ≡ t.lost)
        × ((tally_from c i steps t).unknown_types ≡ t.unknown_types)
        × ((tally_from c i steps t).warnings ≡ t.warnings)
  unfolding tally_from
  clean-tally_from i [] t h = (refl, refl, refl)
  clean-tally_from i (s ∷ steps) t h =
      ground (arith, clean-tally_step i s t, clean-tally_from (suc i) steps (tally_step c i s t))

  clean-deductions :
      (steps : List Footstep) (supplied : List Text)
      → all is_clean steps ≡ true
      → any (is_terminal c) steps ≡ true
      → length steps ≤ 50
      → missing supplied (templated_from 0 steps []) ≡ []
      → ((deductions c steps supplied).lost ≡ 0)
        × ((deductions c steps supplied).unknown_types ≡ 0)
        × ((deductions c steps supplied).warnings ≡ [])
  unfolding deductions sort_by
  clean-deductions steps supplied h t l m =
      rw m (ground (arith, clean-tally_from 0 steps no_tally h))

  -- A trace of at most fifty clean steps with something to assert on, every parameter supplied,
  -- scores 1.00, grade A, with no warning.
  pub score_trace-clean :
      (steps : List Footstep) (supplied : List Text)
      → all is_clean steps ≡ true
      → any (is_terminal c) steps ≡ true
      → length steps ≤ 50
      → missing supplied (templated_from 0 steps []) ≡ []
      → ((score_trace c steps supplied).score ≡ 100)
        × ((score_trace c steps supplied).grade ≡ grade_a)
        × ((score_trace c steps supplied).warnings ≡ [])
  unfolding score_trace grade
  score_trace-clean [] supplied h t l m = cc
  score_trace-clean (s ∷ steps) supplied h t l m =
      ground (arith, clean-deductions (s ∷ steps) supplied h t l m)
