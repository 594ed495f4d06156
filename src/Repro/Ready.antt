-- ===== src/Repro/Ready.antt =====
-- When a trace's reproduction may run: what the readiness items of repro_config.py stand for.
use stepstitch.Prelude.{
  ◌≡◌, refl, inl, inr, String, Bool, true, not, ◌&&◌, ◌||◌, Option, List, [], ◌∷◌, arith,
  Bool-cases, is_empty, all, keep,
}
use stepstitch.Prelude.{all-append}
use stepstitch.Prelude.Text.{Text, codes, text_eq, text_eq_iff}
use stepstitch.Json.{Fields}
use stepstitch.Runner.Run.{blockers}
use stepstitch.Repro.Config.{Python, ReproConfig, given, or_text}
use stepstitch.Repro.Needs.{
  outside, find_params, has_name, add_name, add_names, has_value, settings, text_at, is_type,
  params_from, route_params_in, input_steps, is_unresolved, readiness,
}

has_value-has_name :
    (d : List (String × String)) (p : Text) (seen : List Text)
    → has_name p seen ≡ true
    → all (has_value d) seen ≡ true
    → has_value d p ≡ true
unfolding has_name
has_value-has_name d p [] h a = cc
has_value-has_name d p (q ∷ seen) h a = elim (Bool-cases (text_eq q p)) [
  | inl e ↦ rw (← (text_eq_iff q p).0 e) (ground (arith, a))
  | inr e ↦ has_value-has_name d p seen (ground (arith, h, e)) (ground (arith, a))
]

-- A parameter is valued among the names collected exactly when it is among all that occur.
all-add_names :
    (d : List (String × String)) (seen ps : List Text)
    → all (has_value d) (add_names seen ps) ≡ (all (has_value d) seen && all (has_value d) ps)
unfolding add_names
all-add_names d seen [] = ground arith
all-add_names d seen (p ∷ ps) = ground (
  arith,
  all-add_names d (add_name seen p) ps,
  all-append (has_value d) seen (p ∷ []),
  has_value-has_name d p seen,
)

keep_empty {ℓ} :
    {A : Type ℓ} (p : A → Bool) (xs : List A) → is_empty (keep (λ x. not (p x)) xs) ≡ all p xs
keep_empty p [] = refl
keep_empty p (x ∷ xs) = ground (arith, keep_empty p xs)

module _ (py : Python) where
  -- Every parameter of the step's route has a value, where the step is a navigation.
  unfoldable pub is_routed : ReproConfig → Fields → Bool
  is_routed cfg step =
      not (is_type py "navigation" step)
      || all (has_value cfg.route_params) (find_params outside (codes (text_at py "route" step)))

  all-params_from :
      (cfg : ReproConfig) (seen : List Text) (steps : List Fields)
      → all (has_value cfg.route_params) (params_from py seen steps)
        ≡ (all (has_value cfg.route_params) seen && all (is_routed cfg) steps)
  unfolding params_from is_routed
  all-params_from cfg seen [] = ground arith
  all-params_from cfg seen (step ∷ steps) = elim (Bool-cases (is_type py "navigation" step)) [
    | inl e ↦
        let names = find_params outside (codes (text_at py "route" step)) in
        rw e (
          ground (
            arith,
            all-params_from cfg (add_names seen names) steps,
            all-add_names cfg.route_params seen names,
          ))
    | inr e ↦ rw e (all-params_from cfg seen steps)
  ]

  -- No readiness item stops the run exactly when a base URL is set or given as the fallback, the
  -- settings have a value for every parameter in the route of every navigation of the trace, and no
  -- input step with a target is left without a value to fill in.
  pub readiness_exact :
      (config : Option ReproConfig) (steps : List Fields) (fallback : Option String)
      → let cfg = settings config in
        is_empty (blockers (readiness py config steps fallback)) ≡ (
          given (or_text cfg.base_url fallback)
          && all (is_routed cfg) steps
          && all (λ s. not (is_unresolved py cfg s)) (input_steps py steps))
  unfolding readiness blockers route_params_in
  readiness_exact config steps fallback =
      let cfg = settings config in
      ground (
        arith,
        all-params_from cfg [] steps,
        keep_empty (has_value cfg.route_params) (params_from py [] steps),
        keep_empty (λ (s : Fields). not (is_unresolved py cfg s)) (input_steps py steps),
      )
