-- ===== src/Replay/Params.antt =====
-- Route parameters in replayability.py: charged once each, and not at all once supplied.
use stepstitch.Prelude.{
  ◌&&◌, ℕ, suc, ◌+◌, ◌≤◌, ◌≡◌, refl, Bool, true, List, [], ◌∷◌, ◌++◌, arith, length, ap, ◌∙◌,
}
use stepstitch.Prelude.Text.{Text, text_eq_iff}
use stepstitch.Replay.{
  Footstep, Chars, step_params, has_param, set_default, set_defaults, templated_from, has_text,
  missing, deductions, score_trace,
}

missing-supplied :
    (supplied more : List Text) (ps : List (Text × ℕ))
    → ((p : Text) → has_text p supplied ≡ true → has_text p more ≡ true)
    → length (missing more ps) ≤ length (missing supplied ps)
unfolding missing
missing-supplied supplied more [] h = omega arith
missing-supplied supplied more ((p, i) ∷ ps) h =
    ground (arith, h p, missing-supplied supplied more ps h)

lost-supplied :
    (c : Chars) (steps : List Footstep) (supplied more : List Text)
    → ((p : Text) → has_text p supplied ≡ true → has_text p more ≡ true)
    → ((deductions c steps more).lost ≤ (deductions c steps supplied).lost)
      × ((deductions c steps more).unknown_types ≡ (deductions c steps supplied).unknown_types)
unfolding deductions
lost-supplied c steps supplied more h =
    (omega (arith, missing-supplied supplied more (templated_from 0 steps []) h), refl)

-- Supplying further route parameters never lowers the score.
pub score_trace-supplied :
    (c : Chars) (steps : List Footstep) (supplied more : List Text)
    → ((p : Text) → has_text p supplied ≡ true → has_text p more ≡ true)
    → (score_trace c steps supplied).score ≤ (score_trace c steps more).score
unfolding score_trace
score_trace-supplied c [] supplied more h = omega arith
score_trace-supplied c (s ∷ steps) supplied more h =
    ground (arith, lost-supplied c (s ∷ steps) supplied more h)

-- Every parameter of the segments is known.
abbrev all_known : List Text → List (Text × ℕ) → Bool
all_known [] ps = true
all_known (q ∷ qs) ps = has_param q ps && all_known qs ps

abbrev steps_known : List Footstep → List (Text × ℕ) → Bool
steps_known [] ps = true
steps_known (s ∷ steps) ps = all_known (step_params s) ps && steps_known steps ps

set_defaults_known :
    (qs : List Text) (i : ℕ) (ps : List (Text × ℕ))
    → all_known qs ps ≡ true
    → set_defaults qs i ps ≡ ps
set_defaults_known [] i ps h = refl
set_defaults_known (q ∷ qs) i ps h = ground (arith, set_defaults_known qs i ps)

templated_from_known :
    (i : ℕ) (steps : List Footstep) (ps : List (Text × ℕ))
    → steps_known steps ps ≡ true
    → templated_from i steps ps ≡ ps
unfolding templated_from
templated_from_known i [] ps h = refl
templated_from_known i (s ∷ steps) ps h =
    ground (arith, set_defaults_known (step_params s) i ps, templated_from_known (suc i) steps ps)

templated_from-append :
    (i : ℕ) (xs ys : List Footstep) (ps : List (Text × ℕ))
    → templated_from i (xs ++ ys) ps ≡ templated_from (length xs + i) ys (templated_from i xs ps)
unfolding templated_from
templated_from-append i [] ys ps = ap (λ k. templated_from k ys ps) (omega arith)
templated_from-append i (x ∷ xs) ys ps =
    templated_from-append (suc i) xs ys (set_defaults (step_params x) i ps)
    ∙ ap (λ k. templated_from k ys (templated_from (suc i) xs (set_defaults (step_params x) i ps)))
        (omega arith)

has_param-append :
    (q : Text) (ps qs : List (Text × ℕ)) → has_param q ps ≡ true → has_param q (ps ++ qs) ≡ true
has_param-append q [] qs h = cc
has_param-append q ((p, i) ∷ ps) qs h = ground (arith, has_param-append q ps qs)

has_param-end : (q : Text) (i : ℕ) (ps : List (Text × ℕ)) → has_param q (ps ++ (q, i) ∷ []) ≡ true
has_param-end q i [] = ground (arith, text_eq_iff q q)
has_param-end q i ((p, j) ∷ ps) = ground (arith, has_param-end q i ps)

has_param-set_defaults :
    (q : Text) (qs : List Text) (i : ℕ) (ps : List (Text × ℕ))
    → has_param q ps ≡ true
    → has_param q (set_defaults qs i ps) ≡ true
has_param-set_defaults q [] i ps h = h
has_param-set_defaults q (r ∷ qs) i ps h =
    has_param-set_defaults q qs i (set_default r i ps)
      (ground (arith, has_param-append q ps ((r, i) ∷ [])))

has_param-set_default :
    (q : Text) (i : ℕ) (ps : List (Text × ℕ)) → has_param q (set_default q i ps) ≡ true
has_param-set_default q i ps = ground (arith, has_param-end q i ps)

all_known-set_defaults :
    (qs : List Text) (i : ℕ) (ps : List (Text × ℕ)) → all_known qs (set_defaults qs i ps) ≡ true
all_known-set_defaults [] i ps = refl
all_known-set_defaults (q ∷ qs) i ps = ground (
  arith,
  has_param-set_defaults q qs i (set_default q i ps) (has_param-set_default q i ps),
  all_known-set_defaults qs i (set_default q i ps),
)

has_param-templated_from :
    (q : Text) (i : ℕ) (steps : List Footstep) (ps : List (Text × ℕ))
    → has_param q ps ≡ true
    → has_param q (templated_from i steps ps) ≡ true
unfolding templated_from
has_param-templated_from q i [] ps h = h
has_param-templated_from q i (s ∷ steps) ps h =
    has_param-templated_from q (suc i) steps (set_defaults (step_params s) i ps)
      (has_param-set_defaults q (step_params s) i ps h)

all_known-templated_from :
    (qs : List Text) (i : ℕ) (steps : List Footstep) (ps : List (Text × ℕ))
    → all_known qs ps ≡ true
    → all_known qs (templated_from i steps ps) ≡ true
all_known-templated_from [] i steps ps h = refl
all_known-templated_from (q ∷ qs) i steps ps h =
    ground (arith, has_param-templated_from q i steps ps, all_known-templated_from qs i steps ps)

steps_known-templated_from :
    (i : ℕ) (steps : List Footstep) (ps : List (Text × ℕ))
    → steps_known steps (templated_from i steps ps) ≡ true
unfolding templated_from
steps_known-templated_from i [] ps = refl
steps_known-templated_from i (s ∷ steps) ps =
    let qs = set_defaults (step_params s) i ps in
    ground (
      arith,
      all_known-templated_from (step_params s) (suc i) steps qs
          (all_known-set_defaults (step_params s) i ps),
      steps_known-templated_from (suc i) steps qs,
    )

-- A parameter is charged once, however often it is used: a trace that is repeated has the same
-- open parameters, first met at the same steps.
pub templated_from-repeat :
    (steps : List Footstep) → templated_from 0 (steps ++ steps) [] ≡ templated_from 0 steps []
templated_from-repeat steps =
    templated_from-append 0 steps steps []
    ∙ templated_from_known (length steps + 0) steps (templated_from 0 steps [])
        (steps_known-templated_from 0 steps [])
