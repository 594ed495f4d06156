-- ===== src/Replay/Fragility/Reduction.antt =====
-- What `minimal_repro` of fragility.py keeps.
use stepstitch.Prelude.{
  ◌∙◌, ◌≡◌, refl, String, Bool, true, false, none, some, List, [], ◌∷◌, arith, keep, all, is_empty,
  eq_iff, all-keep,
}
use stepstitch.Replay.{Footstep, Chars}
use stepstitch.Prelude.{not, ◌++◌}
use stepstitch.Replay.Fragility.{
  is_terminal, or_original, route_of, failing_route, on_route, reduced_to, minimal_repro,
}

module _ (c : Chars) where
  keep-no_failing_route :
      (steps : List Footstep) (r : String)
      → failing_route c steps ≡ none
      → failing_route c (keep (on_route c r) steps) ≡ none
  unfolding failing_route
  keep-no_failing_route [] r h = refl
  keep-no_failing_route (s ∷ steps) r h = ground (arith, keep-no_failing_route steps r)

  keep-failing_route :
      (steps : List Footstep) (r : String)
      → failing_route c steps ≡ some r
      → (failing_route c (keep (on_route c r) steps) ≡ some r)
        × (is_empty (keep (on_route c r) steps) ≡ false)
  unfolding failing_route
  keep-failing_route [] r h = cc
  keep-failing_route (s ∷ steps) r h =
      ground
        (arith, keep-failing_route steps r, keep-no_failing_route steps r, eq_iff (route_of s) r)

  keep-append :
      (p : Footstep → Bool) (xs ys : List Footstep) → keep p (xs ++ ys) ≡ keep p xs ++ keep p ys
  keep-append p [] ys = refl
  keep-append p (x ∷ xs) ys = ground (arith, keep-append p xs ys)

  keep-keep : (p : Footstep → Bool) (steps : List Footstep) → keep p (keep p steps) ≡ keep p steps
  keep-keep p [] = refl
  keep-keep p (s ∷ steps) = ground (arith, keep-keep p steps)

  or_original-some : (xs steps : List Footstep) → is_empty xs ≡ false → or_original c xs steps ≡ xs
  or_original-some [] steps h = cc
  or_original-some (x ∷ xs) steps h = refl

  reduced-failing_route :
      (steps : List Footstep) (r : String)
      → failing_route c steps ≡ some r
      → reduced_to c steps (failing_route c steps) ≡ keep (on_route c r) steps
  reduced-failing_route steps r h =
      rw h (or_original-some (keep (on_route c r) steps) steps (keep-failing_route steps r h).1)

  is_quiet-failing_route :
      (steps : List Footstep)
      → all (λ s. not (is_terminal c s)) steps ≡ true
      → failing_route c steps ≡ none
  unfolding failing_route
  is_quiet-failing_route [] h = refl
  is_quiet-failing_route (s ∷ steps) h = ground (arith, h, is_quiet-failing_route steps)

  failing_route-last :
      (before : List Footstep) (s : Footstep) (after : List Footstep)
      → is_terminal c s ≡ true
      → all (λ s. not (is_terminal c s)) after ≡ true
      → failing_route c (before ++ s ∷ after) ≡ some (route_of s)
  unfolding failing_route
  failing_route-last [] s after t h = rw (is_quiet-failing_route after h, t) refl
  failing_route-last (b ∷ before) s after t h = rw (failing_route-last before s after t h) refl

  -- Where `s` is the last step that is a click, an API error or an exception, the reduced trace is
  -- all of the steps on the route of `s` and no others, among them `s` with the steps before and
  -- after it on that route; reducing it once more changes nothing.
  pub minimal_repro_exact :
      (before : List Footstep) (s : Footstep) (after : List Footstep)
      → is_terminal c s ≡ true
      → all (λ a. not (is_terminal c a)) after ≡ true
      → let steps = before ++ s ∷ after in
        let on = on_route c (route_of s) in
        let reduced = (minimal_repro c steps).footsteps in
        (reduced ≡ keep on steps)
        × (reduced ≡ keep on before ++ s ∷ keep on after)
        × (all on reduced ≡ true)
        × ((minimal_repro c reduced).footsteps ≡ reduced)
  unfolding minimal_repro
  minimal_repro_exact before s after t h =
      let steps = before ++ s ∷ after in
      let r = route_of s in
      let found = failing_route-last before s after t h in
      let (fails, some_left) = keep-failing_route steps r found in
      let own : on_route c r s ≡ true = (eq_iff r r).1 refl in
      rw (reduced-failing_route steps r found) (
        refl,
        keep-append (on_route c r) before (s ∷ after) ∙ rw own refl,
        all-keep (on_route c r) steps,
        reduced-failing_route (keep (on_route c r) steps) r fails ∙ keep-keep (on_route c r) steps,
      )
