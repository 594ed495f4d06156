-- ===== src/Egress/Guarded.antt =====
-- What leaves through the guard of egress.py.
use stepstitch.Prelude.{ℕ, suc, ◌≡◌, refl, ◌⊎◌, inl, inr, String, true, str_eq, Bool-cases, eq_iff}
use stepstitch.Json.{
  Json, null, bool, num, real, str, arr, obj, Items, nil, cons, Fields, end, field,
}
use stepstitch.Scrub.Payload.{set_key}
use stepstitch.Egress.{
  Outbound, redact_mode, is_structural, entry, child_path, item_path, walk, walk_items, walk_fields,
  guard_outbound, Notes,
}

module _ (o : Outbound) where
  -- A text that the redaction gave.
  abbrev pub IsRedacted : String → Type 0
  IsRedacted s = (t : String) × (s ≡ (o.redact t).0)

  -- A key that stands for a structural one.
  abbrev pub StandsForStructural : String → Type 0
  StandsForStructural k = (j : String) × (is_structural o j ≡ true) × (k ≡ (o.redact j).0)

  unfoldable mutual
    pub IsGuarded : Json → Type 0
    IsGuarded (str s) = IsRedacted s
    IsGuarded (arr vs) = AreGuarded vs
    IsGuarded (obj d) = AreFieldsGuarded d
    IsGuarded _ = Unit

    pub AreGuarded : Items → Type 0
    AreGuarded nil = Unit
    AreGuarded (cons v vs) = IsGuarded v × AreGuarded vs

    pub AreFieldsGuarded : Fields → Type 0
    AreFieldsGuarded end = Unit
    AreFieldsGuarded (field k v d) =
        IsRedacted k × (IsGuarded v ⊎ StandsForStructural k) × AreFieldsGuarded d

  set_key-AreFieldsGuarded :
      (k : String) (v : Json) (d : Fields)
      → IsRedacted k
      → (IsGuarded v ⊎ StandsForStructural k)
      → AreFieldsGuarded d
      → AreFieldsGuarded (set_key k v d)
  unfolding set_key AreFieldsGuarded
  set_key-AreFieldsGuarded k v end hk hv hd = (hk, hv, tt)
  set_key-AreFieldsGuarded k v (field j w d) hk hv hd = elim (Bool-cases (str_eq j k)) [
    | inl e ↦
        let same : j ≡ k = (eq_iff j k).0 e in
        let value : IsGuarded v ⊎ StandsForStructural j = rw same hv in rw e (hd.0, value, hd.2)
    | inr e ↦ rw e (hd.0, hd.1, set_key-AreFieldsGuarded k v d hk hv hd.2)
  ]

  entry-IsGuarded :
      (path key : String) (v : Json) (walked : Json × Notes)
      → IsGuarded walked.0
      → IsGuarded (entry o path key v walked).0 ⊎ StandsForStructural (o.redact key).0
  entry-IsGuarded path key v walked h = elim (Bool-cases (is_structural o key)) [
    | inl e ↦ inr (key, e, refl)
    | inr e ↦ inl (rw e h)
  ]

  mutual
    unfolding walk walk_items walk_fields IsGuarded AreGuarded AreFieldsGuarded

    walk-IsGuarded : (path : String) (v : Json) → IsGuarded (walk o path v).0
    walk-IsGuarded path (str s) = (s, refl)
    walk-IsGuarded path (arr vs) = walk_items-AreGuarded path 0 vs
    walk-IsGuarded path (obj d) = walk_fields-AreFieldsGuarded path end d tt
    walk-IsGuarded path null = tt
    walk-IsGuarded path (bool b) = tt
    walk-IsGuarded path (num n) = tt
    walk-IsGuarded path (real r) = tt

    walk_items-AreGuarded :
        (path : String) (i : ℕ) (vs : Items) → AreGuarded (walk_items o path i vs).0
    walk_items-AreGuarded path i nil = tt
    walk_items-AreGuarded path i (cons v vs) =
        (walk-IsGuarded (item_path o path i) v, walk_items-AreGuarded path (suc i) vs)

    walk_fields-AreFieldsGuarded :
        (path : String) (clean d : Fields)
        → AreFieldsGuarded clean
        → AreFieldsGuarded (walk_fields o path clean d).0
    walk_fields-AreFieldsGuarded path clean end h = h
    walk_fields-AreFieldsGuarded path clean (field key v d) h =
        let walked = walk o (child_path o path key) v in
        let value = entry-IsGuarded path key v walked (walk-IsGuarded (child_path o path key) v) in
        walk_fields-AreFieldsGuarded path
          (set_key (o.redact key).0 (entry o path key v walked).0 clean) d
          (set_key-AreFieldsGuarded (o.redact key).0 (entry o path key v walked).0 clean (key, refl)
            value h)

  -- Of a document that leaves redacted, every text and every key is one that the redaction gave,
  -- wherever it stands, except what stands under a key that the guard takes for structural.
  pub guard_outbound-IsGuarded : (doc : Json) → IsGuarded (guard_outbound o doc redact_mode).0
  unfolding guard_outbound
  guard_outbound-IsGuarded doc = walk-IsGuarded "" doc
