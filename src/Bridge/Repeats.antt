-- ===== src/Bridge/Repeats.antt =====
-- That an issue or a pull request is made once for its key (github_bridge/bridge.py).
use stepstitch.Prelude.{
  ◌≡◌, refl, sym, ap, ◌∙◌, inl, inr, String, true, Option, none, some, List, [], ◌∷◌, str_eq,
  Bool-cases, eq_iff,
}
use stepstitch.Bridge.{
  TraceSummary, ClientCall, Reply, BridgeReceipt, BridgeState, cached_receipt, Client, is_failed,
  issue_key, pr_key, call_each, settle, issue_receipt, with_cache, create_issue, pr_receipt,
  after_sha, open_regression_pr, Operation, issue_for, pr_for, default_branch_sha, operate,
  operate_all,
}

abbrev marked : BridgeReceipt → Option BridgeReceipt → BridgeReceipt
marked r none = r
marked r (some x) = record x { deduped = true }

module _ (client : Client) where
  -- A stored receipt stays, whatever is run under whichever key.
  guarded_keeps :
      (key k : String) (receipt : Reply → BridgeReceipt) (w : BridgeState)
      (outcome : Reply × List ClientCall) (r : BridgeReceipt) (c : Option BridgeReceipt)
      → cached_receipt k w.store ≡ c
      → cached_receipt key w.store ≡ some r
      → cached_receipt key (with_cache client c w (settle client k receipt w.store outcome)).1.store
        ≡ some r
  guarded_keeps key k receipt w outcome r (some old) e h = h
  guarded_keeps key k receipt w outcome r none e h = elim (Bool-cases (str_eq k key)) [
    | inl same ↦
        let both : none ≡ some r =
          sym e ∙ ap (λ x. cached_receipt x w.store) ((eq_iff k key).0 same) ∙ h in
        cc
    | inr other ↦ elim (Bool-cases (is_failed outcome.0)) [
      | inl f ↦ rw f h
      | inr f ↦ rw (f, other) h
    ]
  ]

  operate-keeps :
      (key : String) (op : Operation) (w : BridgeState) (r : BridgeReceipt)
      → cached_receipt key w.store ≡ some r
      → cached_receipt key (operate client op w).store ≡ some r
  unfolding operate create_issue open_regression_pr
  operate-keeps key (issue_for s) w r h =
      guarded_keeps key (issue_key s) (issue_receipt client s) w _ r
        (cached_receipt (issue_key s) w.store) refl h
  operate-keeps key (pr_for s code k) w r h =
      guarded_keeps key (pr_key s k) (pr_receipt client s) w _ r
        (cached_receipt (pr_key s k) w.store) refl h

  operate_all-keeps :
      (key : String) (ops : List Operation) (w : BridgeState) (r : BridgeReceipt)
      → cached_receipt key w.store ≡ some r
      → cached_receipt key (operate_all client ops w).store ≡ some r
  unfolding operate_all
  operate_all-keeps key [] w r h = h
  operate_all-keeps key (op ∷ ops) w r h =
      operate_all-keeps key ops (operate client op w) r (operate-keeps key op w r h)

  -- What a call that returned has left under its key, up to the mark of a repeat.
  abbrev Settled : String → BridgeReceipt → BridgeState → Type 0
  Settled key r w =
      (old : BridgeReceipt) × (cached_receipt key w.store ≡ some old)
      × (◌≡◌ {A = BridgeReceipt} (record old { deduped = true }) (record r { deduped = true }))

  guarded-Settled :
      (key : String) (receipt : Reply → BridgeReceipt) (w w1 : BridgeState)
      (outcome : Reply × List ClientCall) (r : BridgeReceipt) (c : Option BridgeReceipt)
      → cached_receipt key w.store ≡ c
      → with_cache client c w (settle client key receipt w.store outcome) ≡ (some r, w1)
      → Settled key r w1
  guarded-Settled key receipt w w1 outcome r (some old) e h =
      (old, sym (ap (λ x. cached_receipt key x.1.store) h) ∙ e, ap (λ x. marked r x.0) h)
  guarded-Settled key receipt w w1 (reply, made) r none e h = elim (Bool-cases (is_failed reply)) [
    | inl f ↦
        let ended : settle client key receipt w.store (reply, made)
            ≡ (none, record { store = w.store; calls = made }) =
          rw f refl in
        let both : none ≡ some r = ap (λ x. x.0) (sym ended ∙ h) in cc
    | inr f ↦
        let ended : settle client key receipt w.store (reply, made) ≡ (
          some (receipt reply),
          record { store = (key, receipt reply) ∷ w.store; calls = made },
        ) =
          rw f refl in
        let k = sym ended ∙ h in
        (
          receipt reply,
          sym (ap (λ x. cached_receipt key x.1.store) k) ∙ rw ((eq_iff key key).1 refl) refl,
          ap (λ x. marked r x.0) k,
        )
  ]

  -- A pull request that was opened is settled: whatever issues and pull requests are asked for in
  -- between, and whatever the client answers, a later request under the same key makes no call, changes
  -- nothing, and gives the same receipt, marked as a repeat.
  pub open_regression_pr-repeat :
      (s s' : TraceSummary) (code code' : String) (key key' : Option String) (w w1 : BridgeState)
      (r : BridgeReceipt) (ops : List Operation)
      → open_regression_pr client s code key w ≡ (some r, w1)
      → pr_key s' key' ≡ pr_key s key
      → let w2 = operate_all client ops w1 in
        open_regression_pr client s' code' key' w2 ≡ (some (record r { deduped = true }), w2)
  unfolding open_regression_pr
  open_regression_pr-repeat s s' code code' key key' w w1 r ops h same =
      let found =
        guarded-Settled (pr_key s key) (pr_receipt client s) w w1 _ r
          (cached_receipt (pr_key s key) w.store) refl h in
      let w2 = operate_all client ops w1 in
      let later = operate_all-keeps (pr_key s key) ops w1 found.0 found.1 in
      let e : cached_receipt (pr_key s' key') w2.store ≡ some found.0 =
        ap (λ k. cached_receipt k w2.store) same ∙ later in
      ap
        (λ c. with_cache client c w2 (
          settle client (pr_key s' key') (pr_receipt client s') w2.store (
            after_sha client s' code'
              (call_each client w2.calls (default_branch_sha client.base_branch ∷ [])))))
        e
      ∙ ap (λ x. (some x, w2)) found.2
