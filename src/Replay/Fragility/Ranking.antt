-- ===== src/Replay/Fragility/Ranking.antt =====
-- The order of the fragility map of fragility.py.
use stepstitch.Prelude.{
  length-sort_by, ◌∙◌, all-sort_by, suc, leb, ℕ, ◌≤◌, ◌≡◌, refl, true, false, List, [], ◌∷◌, arith,
  count_if, length, is_sorted, sort_by-is_sorted, sort_by-perm, all,
}
use mathlib.Core.List.{Perm}
use stepstitch.Replay.{Tier, selector_stability, Footstep, Chars}
use stepstitch.Replay.Fragility.{
  risk_of, FragileStep, worse, fragile_steps, compute_fragility_map, is_interactive,
}

worse_total : (a b : FragileStep) → worse a b ≡ false → worse b a ≡ true
worse_total a b h = ground arith

worse_trans : (a b d : FragileStep) → worse a b ≡ true → worse b d ≡ true → worse a d ≡ true
worse_trans a b d h k = ground arith

module _ (c : Chars) where
  length-fragile_steps :
      (i : ℕ) (steps : List Footstep)
      → length (fragile_steps c i steps) ≡ count_if (is_interactive c) steps
  unfolding fragile_steps
  length-fragile_steps i [] = refl
  length-fragile_steps i (s ∷ steps) = ground (arith, length-fragile_steps (suc i) steps)

  risk_of-le : (t : Tier) → risk_of t ≤ 1000
  risk_of-le Tier.testid = omega arith
  risk_of-le Tier.id = omega arith
  risk_of-le Tier.structural = omega arith
  risk_of-le Tier.no_selector = omega arith

  risks_bounded :
      (i : ℕ) (steps : List Footstep) → all (λ f. leb f.risk 1000) (fragile_steps c i steps) ≡ true
  unfolding fragile_steps
  risks_bounded i [] = refl
  risks_bounded i (s ∷ steps) =
      ground (arith, risk_of-le (selector_stability c s.target), risks_bounded (suc i) steps)

  -- The map lists each interactive step once, the riskiest first and equal risks in trace order,
  -- and no risk passes 1.0.
  pub compute_fragility_map_ranked :
      (steps : List Footstep)
      → let m = compute_fragility_map c steps in
        (is_sorted worse m.fragility ≡ true)
        × Perm m.fragility (fragile_steps c 0 steps)
        × (all (λ f. leb f.risk 1000) m.fragility ≡ true)
        × (m.interactive_steps ≡ count_if (is_interactive c) steps)
  unfolding compute_fragility_map
  compute_fragility_map_ranked steps =
      let items = fragile_steps c 0 steps in
      (
        sort_by-is_sorted worse worse_total worse_trans items,
        sort_by-perm worse items,
        all-sort_by worse (λ f. leb f.risk 1000) items ∙ risks_bounded 0 steps,
        length-sort_by worse items ∙ length-fragile_steps 0 steps,
      )
