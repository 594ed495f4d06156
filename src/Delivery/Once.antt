-- ===== src/Delivery/Once.antt =====
-- That a draft is written once for an idempotency key (delivery/base.py).
use stepstitch.Prelude.{
  ℕ, ◌≡◌, refl, ap, ◌⊎◌, inl, inr, String, true, ◌&&◌, none, List, [], ◌∷◌, arith, str_eq,
  if◌then◌else◌, is_some, Bool-cases, Option-cases, count_if, contains, Result, ok, err, eq_iff,
}
use stepstitch.Json.{Fields}
use stepstitch.Delivery.{
  DeliveryResult, DeliveryError, Post, World, cached, delivery_key, write, deliver, deliver_all,
  assert_flat,
}

abbrev confirmed_posts : String → List Post → ℕ
confirmed_posts k ps = count_if (λ p. str_eq p.key k && p.confirmed) ps

module _ (writers : List String) (guard : Fields → Fields)
    (create : List Post → String → Fields → Result DeliveryError DeliveryResult) where
  -- A key has as many confirmed posts as it has an entry in the store.
  abbrev InStep : String → World → Type 0
  InStep k w = confirmed_posts k w.posts ≡ (if is_some (cached k w.store) then 1 else 0)

  write-InStep :
      (k key target : String) (draft : Fields) (w : World)
      → cached key w.store ≡ none
      → InStep k w
      → InStep k (write writers guard create key target draft w).1
  unfolding write
  write-InStep k key target draft w h i = ground (
    arith,
    h,
    i,
    ap (λ x. x) h,
    λ (e : str_eq key k ≡ true). ap (λ x. cached x w.store) ((eq_iff key k).0 e),
  )

  deliver-InStep :
      (k target key : String) (draft : Fields) (w : World)
      → InStep k w
      → InStep k (deliver writers guard create target draft key w).1
  unfolding deliver
  deliver-InStep k target key draft w i = elim (Bool-cases (contains target writers)) [
    | inr p ↦ rw p i
    | inl p ↦ elim (Option-cases (cached (delivery_key target key) w.store)) [
      | inr (r, e) ↦ rw p (rw e i)
      | inl e ↦ rw p (rw e (write-InStep k (delivery_key target key) target draft w e i))
    ]
  ]

  deliver_all-InStep :
      (k : String) (calls : List (String × Fields × String)) (w : World)
      → InStep k w
      → InStep k (deliver_all writers guard create calls w)
  unfolding deliver_all
  deliver_all-InStep k [] w i = i
  deliver_all-InStep k ((target, draft, key) ∷ calls) w i =
      deliver_all-InStep k calls _ (deliver-InStep k target key draft w i)

  -- From an empty service, whatever calls are made one after the other and whatever the writers
  -- answer, also differently on a retry, at most one post of a key is ever confirmed: none if the key
  -- is not in the store, else exactly one.
  pub deliver_all-once :
      (calls : List (String × Fields × String)) (k : String)
      → let w = deliver_all writers guard create calls (record { store = []; posts = [] }) in
        count_if (λ p. str_eq p.key k && p.confirmed) w.posts
        ≡ (if is_some (cached k w.store) then 1 else 0)
  deliver_all-once calls k = deliver_all-InStep k calls (record { store = []; posts = [] }) refl

  -- A call that returned is safe to repeat: the same target and key give the same record, marked as
  -- a repeat, and change nothing, whatever draft comes with them.
  pub deliver-repeat :
      (target key : String) (draft draft' : Fields) (w w' : World) (r : DeliveryResult)
      → deliver writers guard create target draft key w ≡ (ok r, w')
      → deliver writers guard create target draft' key w' ≡ (ok (record r { deduped = true }), w')
  unfolding deliver write
  deliver-repeat target key draft draft' w w' r h =
      ground (arith, (eq_iff (delivery_key target key) (delivery_key target key)).1 refl)

  -- A call that fails leaves the store as it was, so the key can be tried again; and nothing is
  -- posted for a target without a writer or a draft that is not flat.
  pub deliver-fails :
      (target key : String) (draft : Fields) (w w' : World) (e : DeliveryError)
      → deliver writers guard create target draft key w ≡ (err e, w')
      → (w'.store ≡ w.store)
        × ((w'.posts ≡ w.posts) ⊎ (contains target writers && assert_flat draft ≡ true))
  unfolding deliver write
  deliver-fails target key draft w w' e h = ground arith
