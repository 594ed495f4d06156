-- ===== src/FixMemory/Matching.antt =====
-- What `match` of fix_memory.py returns.
use stepstitch.Prelude.{
  sym, all-take, ap, ◌∙◌, ℕ, ◌+◌, ◌*◌, ◌/◌, ◌%◌, ◌≤◌, ◌<◌, ◌≡◌, refl, String, Bool, true, not, ◌&&◌,
  Option, List, [], ◌∷◌, arith, all, leb, length, length-take-le, all-sort_by,
}
use native.Mathlib.Nat.{mul_comm, mul_comm, div-le_of_le-mul, div-add-mod, le-div_iff_mul-le}
use stepstitch.Json.{Fields}
use stepstitch.FixMemory.{
  or_default, Weights, Similarity, similarity, similarity_over, reaches, rounded, round_half_even,
  Candidate, FixMatch, is_excluded, matches, better, match,
}

score-le_over :
    (ks : List String) (a b : Fields) (ws : Weights)
    → (similarity_over ks a b ws).score ≤ (similarity_over ks a b ws).total
unfolding similarity_over
score-le_over [] a b ws = omega arith
score-le_over (k ∷ ks) a b ws = ground (arith, score-le_over ks a b ws)

score-le : (a b : Fields) (ws : Weights) → (similarity a b ws).score ≤ (similarity a b ws).total
unfolding similarity
score-le a b ws = score-le_over _ a b ws

scaled : (m d s : ℕ) → m * d ≤ s * 100 → m * 100 * d ≤ s * 10000
scaled m d s h = grind arith

module _ (k s d : ℕ) (p : 0 < d) (h : s ≤ d) where
  scaled_part : s * k ≤ k * d
  scaled_part = grind arith

  quotient-le : s * k / d ≤ k
  quotient-le = div-le_of_le-mul d (omega (arith, scaled_part, mul_comm k d))

  remainder-zero : (q r : ℕ) → q ≡ k → d * q + r ≡ s * k → r ≡ 0
  remainder-zero q r e f = omega (arith, scaled_part, mul_comm k d, ap (λ x. d * x + r) (sym e) ∙ f)

  no_remainder : s * k / d ≡ k → s * k % d ≡ 0
  no_remainder e = remainder-zero (s * k / d) (s * k % d) e (div-add-mod (s * k) d)

  -- A part of a whole, scaled and rounded, is at most the scale.
  pub round_half_even-le : round_half_even (s * k) d ≤ k
  round_half_even-le = ground (arith, quotient-le, no_remainder)

round_half_even-le_lower :
    (s d m : ℕ) → 0 < d → m * d ≤ s * 100 → m * 100 ≤ round_half_even (s * 10000) d
round_half_even-le_lower s d m p k =
    let q = (le-div_iff_mul-le p).1 (scaled m d s k) in ground arith

rounded_bounds :
    (s : Similarity) (m : ℕ)
    → s.score ≤ s.total
    → reaches s m ≡ true
    → (leb (m * 100) (rounded s) && leb (rounded s) 10000) ≡ true
unfolding reaches rounded
rounded_bounds s m h k =
    ground
      (arith, round_half_even-le 10000 s.score s.total, round_half_even-le_lower s.score s.total m)

-- What is asked of a reported fix.
abbrev within : ℕ → Option String → FixMatch → Bool
within minimum exclude r =
    leb (minimum * 100) r.similarity
    && leb r.similarity 10000
    && not (is_excluded exclude r.trace_id)

matches-within :
    (new_fp : Fields) (ws : Weights) (minimum : ℕ) (exclude : Option String)
    (candidates : List Candidate)
    → all (within minimum exclude) (matches new_fp ws minimum exclude candidates) ≡ true
unfolding matches
matches-within new_fp ws minimum exclude [] = refl
matches-within new_fp ws minimum exclude (c ∷ candidates) =
    let sim = similarity new_fp c.fingerprint ws in
    ground (
      arith,
      rounded_bounds sim minimum (score-le new_fp c.fingerprint ws),
      matches-within new_fp ws minimum exclude candidates,
    )

-- Every fix that is reported reaches the threshold and at most 1.0, and none is the excluded trace;
-- there are at most `top_k` of them.
pub match_bounds :
    (new_fp : Fields) (candidates : List Candidate) (ws : Weights) (top_k minimum : ℕ)
    (exclude : Option String)
    → let found = match new_fp candidates ws top_k minimum exclude in
      (length found ≤ top_k)
      × (all
            (λ r.
              leb (minimum * 100) r.similarity
              && leb r.similarity 10000
              && not (is_excluded exclude r.trace_id))
            found
          ≡ true)
unfolding match
match_bounds new_fp candidates ws top_k minimum exclude =
    let xs = matches new_fp (or_default ws) minimum exclude candidates in
    (
      length-take-le top_k _,
      all-take _ top_k _ (
          all-sort_by better _ xs
          ∙ matches-within new_fp (or_default ws) minimum exclude candidates),
    )
