-- ===== src/Shapes/Grouping.antt =====
-- How cluster of shapes.py groups traces.
use stepstitch.Prelude.{
  count_if-append, Option, ℕ, suc, ◌+◌, ◌≤◌, ◌≡◌, refl, ap, String, Bool, true, false, not, ◌&&◌,
  List, [], ◌∷◌, map, arith, ◌==◌, str_eq, if◌then◌else◌, length, count_if, sum_of,
  count_if-sort_by, sum_of-sort_by, eq_iff,
}
use stepstitch.Json.{Fields}
use stepstitch.FixMemory.{Weights, Candidate}
use stepstitch.Shapes.{
  Trace, Bucket, new_bucket, add_trace, add_to, is_blank, canonical_fingerprint, sid_of, group,
  to_shape, cluster, newer,
}

-- The trace ids of a kind in the buckets of a shape, and the number of those buckets.
abbrev size_at : (Option String → Bool) → String → List Bucket → ℕ
size_at q sid bs = sum_of (λ b. if str_eq b.shape_id sid then count_if q b.trace_ids else 0) bs

abbrev buckets_at : String → List Bucket → ℕ
buckets_at sid bs = count_if (λ b. str_eq b.shape_id sid) bs

add_trace_lem :
    (q : Option String → Bool) (t : Trace) (b : Bucket)
    → ((add_trace t b).shape_id ≡ b.shape_id)
      × (count_if q (add_trace t b).trace_ids
          ≡ (if q t.trace_id then suc (count_if q b.trace_ids) else count_if q b.trace_ids))
unfolding add_trace
add_trace_lem q t b = ground (arith, count_if-append q b.trace_ids (t.trace_id ∷ []))

same_key : (a s k : String) → str_eq a s ≡ true → str_eq a k ≡ str_eq s k
same_key a s k h = ap (λ x. str_eq x k) ((eq_iff a s).0 h)

same_key_right : (a s k : String) → str_eq s k ≡ true → str_eq a s ≡ str_eq a k
same_key_right a s k h = ap (λ x. str_eq a x) ((eq_iff s k).0 h)

add_to_lem :
    (q : Option String → Bool) (k sid : String) (fp : Fields) (t : Trace) (bs : List Bucket)
    → (size_at q k (add_to sid fp t bs)
        ≡ (if str_eq sid k && q t.trace_id then suc (size_at q k bs) else size_at q k bs))
      × (buckets_at k (add_to sid fp t bs)
          ≡ (if str_eq sid k && (buckets_at k bs == 0) then 1 else buckets_at k bs))
unfolding add_to new_bucket
add_to_lem q k sid fp t [] = ground (arith, add_trace_lem q t (new_bucket sid fp))
add_to_lem q k sid fp t (b ∷ bs) = ground (
  arith,
  add_trace_lem q t b,
  ap (λ x. str_eq x k) (add_trace_lem q t b).0,
  same_key b.shape_id sid k,
  same_key_right b.shape_id sid k,
  add_to_lem q k sid fp t bs,
)

-- Whether a trace with an id of the kind counts towards the shape.
abbrev counts : (Fields → String) → (Option String → Bool) → String → Trace → Bool
counts digest q k t =
    not (is_blank (canonical_fingerprint t.fingerprint))
    && str_eq (sid_of digest t) k
    && q t.trace_id

-- One step of the loop, from what it does to the buckets and from the rest of the loop.
step_lem :
    (q : Option String → Bool) (k : String) (blank : Bool) (sid : String) (own : Bool)
    (bs bs' skipped added : List Bucket) (n : ℕ)
    → (size_at q k bs' ≡ (if str_eq sid k && own then suc (size_at q k bs) else size_at q k bs))
      × (buckets_at k bs' ≡ (if str_eq sid k && (buckets_at k bs == 0) then 1 else buckets_at k bs))
    → (size_at q k skipped ≡ size_at q k bs + n) × (buckets_at k bs ≤ 1 → buckets_at k skipped ≤ 1)
    → (size_at q k added ≡ size_at q k bs' + n) × (buckets_at k bs' ≤ 1 → buckets_at k added ≤ 1)
    → (size_at q k (if blank then skipped else added)
        ≡ size_at q k bs + (if not blank && str_eq sid k && own then suc n else n))
      × (buckets_at k bs ≤ 1 → buckets_at k (if blank then skipped else added) ≤ 1)
step_lem q k true sid own bs bs' skipped added n h i j = i
step_lem q k false sid own bs bs' skipped added n h i j = ground arith

module _ (digest : Fields → String) where
  group_lem :
      (q : Option String → Bool) (k : String) (bs : List Bucket) (ts : List Trace)
      → (size_at q k (group digest bs ts) ≡ size_at q k bs + count_if (counts digest q k) ts)
        × (buckets_at k bs ≤ 1 → buckets_at k (group digest bs ts) ≤ 1)
  unfolding group
  group_lem q k bs [] = ground arith
  group_lem q k bs (t ∷ ts) =
      let fp = canonical_fingerprint t.fingerprint in
      let bs' = add_to (sid_of digest t) fp t bs in
      step_lem q k (is_blank fp) (sid_of digest t) (q t.trace_id) bs bs' _ _ _
        (add_to_lem q k (sid_of digest t) fp t bs) (group_lem q k bs ts) (group_lem q k bs' ts)

  shapes_lem :
      (q : Option String → Bool) (k : String) (ws : Weights) (minimum : ℕ) (corpus : List Candidate)
      (bs : List Bucket)
      → let shapes = map (to_shape ws minimum corpus) bs in
        (sum_of (λ s. if str_eq s.shape_id k then count_if q s.trace_ids else 0) shapes
          ≡ size_at q k bs)
        × (count_if (λ s. not (s.occurrences == length s.trace_ids)) shapes ≡ 0)
        × (count_if (λ s. str_eq s.shape_id k) shapes ≡ buckets_at k bs)
  unfolding to_shape
  shapes_lem q k ws minimum corpus [] = (refl, refl, refl)
  shapes_lem q k ws minimum corpus (b ∷ bs) = ground (arith, shapes_lem q k ws minimum corpus bs)

  -- For every shape id there is at most one shape, and whatever set of trace ids is counted, that
  -- shape lists as many of them as there are traces with a usable fingerprint that hash to the id and
  -- have a trace id of the set: each id is listed as often as it occurs, under its own shape. Every
  -- shape's occurrences are the number of ids that it lists.
  pub cluster_groups :
      (ws : Weights) (minimum : ℕ) (corpus : List Candidate) (traces : List Trace) (k : String)
      (q : Option String → Bool)
      → let shapes = cluster digest ws minimum corpus traces in
        (count_if (λ s. str_eq s.shape_id k) shapes ≤ 1)
        × (sum_of (λ s. if str_eq s.shape_id k then count_if q s.trace_ids else 0) shapes
            ≡ count_if
                (λ t.
                  not (is_blank (canonical_fingerprint t.fingerprint))
                  && str_eq (sid_of digest t) k
                  && q t.trace_id)
                traces)
        × (count_if (λ s. not (s.occurrences == length s.trace_ids)) shapes ≡ 0)
  unfolding cluster
  cluster_groups ws minimum corpus traces k q =
      let shapes = map (to_shape ws minimum corpus) (group digest [] traces) in
      omega (
        arith,
        (group_lem q k [] traces).0,
        (group_lem q k [] traces).1 (omega arith),
        shapes_lem q k ws minimum corpus (group digest [] traces),
        count_if-sort_by newer (λ s. str_eq s.shape_id k) shapes,
        count_if-sort_by newer (λ s. not (s.occurrences == length s.trace_ids)) shapes,
        sum_of-sort_by newer (λ s. if str_eq s.shape_id k then count_if q s.trace_ids else 0)
            shapes,
      )
