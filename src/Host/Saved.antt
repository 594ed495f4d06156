-- ===== src/Host/Saved.antt =====
-- What is saved through the configuration endpoints of host/host.py is what is read afterwards.
use stepstitch.Prelude.{
  ◌≡◌, refl, sym, ap, ◌∙◌, inl, inr, String, true, false, not, some, List, [], ◌∷◌, ◌++◌, arith,
  str_eq, Bool-cases, all, keep, Result, ok, raise_if, bind-eq-ok, eq_iff,
}
use stepstitch.Json.{field, Json, str, arr, obj, Items, nil, cons, Fields, lookup, texts}
use stepstitch.Repro.Config.{Python, ReproConfig}
use stepstitch.Repro.Document.{from_dict, as_dict, sorted_items}
use stepstitch.Repro.Roundtrip.{is_storable, from_dict-as_dict}
use stepstitch.Scrub.Policy.{ScrubPolicy, apply_scrub_overrides, texts_of, pairs_of}
use stepstitch.Host.Settings.{
  count_items, scrub_config_update, or_empty, stored_overrides, with_overrides, bad_pattern, parsed,
  config_or_default, JsonText, Config, select, select_from, store, log, Change, SaveError,
  read_repro_config, put_repro_config, save_config, redactions, ScrubConfig, scrub_document,
  put_scrub_config, scrub_policy, read_scrub_overrides, change_of,
}

select_from-append :
    (key v : String) (rows : List (String × String))
    → select_from key (keep (λ r. not (str_eq r.0 key)) rows ++ (key, v) ∷ []) ≡ some v
select_from-append key v [] = ground (arith, eq_iff key key)
select_from-append key v ((k, w) ∷ rows) = ground (arith, select_from-append key v rows)

select_from-other :
    (key other v : String) (rows : List (String × String))
    → str_eq key other ≡ false
    → select_from other (keep (λ r. not (str_eq r.0 key)) rows ++ (key, v) ∷ [])
      ≡ select_from other rows
select_from-other key other v [] h = ground (arith, h)
select_from-other key other v ((k, w) ∷ rows) h = elim (Bool-cases (str_eq k key)) [
  | inl e ↦
      let same : k ≡ key = (eq_iff k key).0 e in
      ground
        (arith, h, e, same, ap (λ x. str_eq x other) same, select_from-other key other v rows h)
  | inr e ↦ ground (arith, h, e, select_from-other key other v rows h)
]

-- A row is found under its key after it is stored, and every other key has the row that it had.
pub select-store :
    (key value : String) (s : Config)
    → (select key (store key value s) ≡ some value)
      × ((other : String)
          → str_eq key other ≡ false
          → select other (store key value s) ≡ select other s)
unfolding select store
select-store key value s =
    (select_from-append key value s.rows, λ other h. select_from-other key other value s.rows h)

select-log :
    (key : String) (change : Change) (s : Config) → select key (log change s) ≡ select key s
unfolding select
select-log key change s = refl

ok_injective {ℓ} : {A : Type ℓ} {a b : A} → ◌≡◌ {A = Result SaveError A} (ok a) (ok b) → a ≡ b
ok_injective h = cc

module _ (js : JsonText) (py : Python) where
  read_repro_config-given :
      (value : String) {d : Json}
      → str_eq value "" ≡ false
      → js.loads value ≡ some d
      → read_repro_config js py (ok (some value)) ≡ config_or_default js py (from_dict py d)
  unfolding read_repro_config
  read_repro_config-given value h k = rw h (ap (parsed js py) k)

module _ (js : JsonText) (py : Python) where
  -- A document that is accepted and gives a storable configuration, whose text is JSON for it, is saved, and from then on that
  -- configuration is read, its overrides in the order of their endpoints; the answer is its
  -- document; no other key's row changes; and the audit gets one event, of names and counts.
  pub read-put_repro_config :
      (body : Fields) (c : ReproConfig) (s : Config)
      → from_dict py (obj body) ≡ ok c
      → is_storable py c ≡ true
      → str_eq (js.dumps (obj (as_dict c))) "" ≡ false
      → js.loads (js.dumps (obj (as_dict c))) ≡ some (obj (as_dict c))
      → (s' : Config) × (put_repro_config js py body s ≡ ok (s', as_dict c))
        × (read_repro_config js py (ok (select "repro_config" s'))
            ≡ record c { api_overrides = sorted_items c.api_overrides })
        × ((other : String)
            → str_eq "repro_config" other ≡ false
            → select other s' ≡ select other s)
        × (s'.audited ≡ s.audited ++ change_of js py c ∷ [])
  unfolding put_repro_config select store
  read-put_repro_config body c s h k not_blank reads_back =
      let text = js.dumps (obj (as_dict c)) in
      let (found, others) = select-store "repro_config" text s in
      let read : read_repro_config js py (ok (some text))
          ≡ record c { api_overrides = sorted_items c.api_overrides } =
        read_repro_config-given js py text not_blank reads_back
        ∙ ap (config_or_default js py) (from_dict-as_dict py c k) in
      ((save_config js py c s).0, rw h refl, rw found read, others, refl)

  stored_overrides-given :
      (value : String) {k : String} {v : Json} {d : Fields}
      → str_eq value "" ≡ false
      → js.loads value ≡ some (obj (field k v d))
      → stored_overrides js py (some value) ≡ obj (field k v d)
  stored_overrides-given value h k = rw h (ap (or_empty js py) k)

  module _ (same_text : (s : String) → py.str_of (str s) ≡ s) where
    texts_of-texts : (ss : List String) → texts_of py.str_of (texts ss) ≡ ss
    unfolding texts
    texts_of-texts [] = refl
    texts_of-texts (s ∷ ss) = rw (same_text s, texts_of-texts ss) refl

    scrub_policy-document :
        (base : ScrubPolicy) (req : ScrubConfig js py) (patterns : Items)
        → with_overrides js py base (obj (scrub_document js py patterns req))
          ≡ some (record base {
            extra_redactions = pairs_of py.str_of patterns;
            extra_forbidden_keys = texts_of py.str_of req.extra_forbidden_keys;
            approved_testids = texts_of py.str_of req.approved_testids;
            route_templates = texts_of py.str_of req.route_templates;
          })
    unfolding apply_scrub_overrides lookup
    scrub_policy-document base req patterns =
        rw
          (
            texts_of-texts (texts_of py.str_of req.extra_forbidden_keys),
            texts_of-texts (texts_of py.str_of req.approved_testids),
            texts_of-texts (texts_of py.str_of req.route_templates),
          )
          refl

    -- The saved redactions read as the given ones, and each of their patterns compiles.
    redactions-pairs :
        (vs ws : Items)
        → redactions js py vs ≡ ok ws
        → (pairs_of py.str_of ws ≡ pairs_of py.str_of vs)
          × (all (λ r. py.compiles r.1) (pairs_of py.str_of vs) ≡ true)
    unfolding redactions
    redactions-pairs nil ws h = (ap (pairs_of py.str_of) (sym (ok_injective h)), refl)
    redactions-pairs (cons (arr (cons label (cons pattern nil))) rest) ws h =
        let (_, compiled, h1) =
          bind-eq-ok (raise_if (not (py.compiles (py.str_of pattern))) bad_pattern) _ h in
        let (more, given, h2) = bind-eq-ok (redactions js py rest) _ h1 in
        let (pairs, all_compiled) = redactions-pairs rest more given in
        (
          rw (← ok_injective h2)
              (rw (same_text (py.str_of label), same_text (py.str_of pattern), pairs) refl),
          ground (arith, compiled, all_compiled),
        )
    redactions-pairs (cons _ rest) ws h = cc

    abbrev saved_state : ScrubConfig js py → Items → Change → Config → Config
    saved_state req patterns change s =
        log change (store "scrub_overrides" (js.dumps (obj (scrub_document js py patterns req))) s)

    scrub_policy-saved_state :
        (base : ScrubPolicy) (req : ScrubConfig js py) (patterns : Items) (change : Change)
        (s : Config)
        → str_eq (js.dumps (obj (scrub_document js py patterns req))) "" ≡ false
        → js.loads (js.dumps (obj (scrub_document js py patterns req)))
          ≡ some (obj (scrub_document js py patterns req))
        → scrub_policy js py base (saved_state req patterns change s)
          ≡ with_overrides js py base (obj (scrub_document js py patterns req))
    unfolding scrub_policy read_scrub_overrides
    scrub_policy-saved_state base req patterns change s not_blank reads_back =
        let document = scrub_document js py patterns req in
        let text = js.dumps (obj document) in
        let (found, _) = select-store "scrub_overrides" text s in
        rw (select-log "scrub_overrides" change (store "scrub_overrides" text s), found)
          (ap (with_overrides js py base) (stored_overrides-given text not_blank reads_back))

    -- After the redactions and lists of an operator are saved, every trace is scrubbed under the base
    -- policy with exactly them: the redactions with their patterns, all of which compile, the forbidden
    -- keys beside the base's own, and the two lists that a strict profile accepts. The settings of the
    -- reproduction are read as before.
    pub scrub_policy-put_scrub_config :
        (base : ScrubPolicy) (req : ScrubConfig js py) (s s' : Config) (document : Fields)
        → put_scrub_config js py req s ≡ ok (s', document)
        → str_eq (js.dumps (obj document)) "" ≡ false
        → js.loads (js.dumps (obj document)) ≡ some (obj document)
        → (all (λ r. py.compiles r.1) (pairs_of py.str_of req.extra_redactions) ≡ true)
          × (scrub_policy js py base s'
              ≡ some (record base {
                extra_redactions = pairs_of py.str_of req.extra_redactions;
                extra_forbidden_keys = texts_of py.str_of req.extra_forbidden_keys;
                approved_testids = texts_of py.str_of req.approved_testids;
                route_templates = texts_of py.str_of req.route_templates;
              }))
          × (read_repro_config js py (ok (select "repro_config" s'))
              ≡ read_repro_config js py (ok (select "repro_config" s)))
    unfolding put_scrub_config
    scrub_policy-put_scrub_config base req s s' document h not_blank reads_back =
        let (patterns, given, saved) = bind-eq-ok (redactions js py req.extra_redactions) _ h in
        let (pairs, compiled) = redactions-pairs req.extra_redactions patterns given in
        let change =
          scrub_config_update (count_items js py patterns)
            (count_items js py req.extra_forbidden_keys) (count_items js py req.approved_testids)
            (count_items js py req.route_templates) in
        let text = js.dumps (obj (scrub_document js py patterns req)) in
        let (_, others) = select-store "scrub_overrides" text s in
        let new : saved_state req patterns change s ≡ s' = ap (λ r. r.0) (ok_injective saved) in
        let answered : scrub_document js py patterns req ≡ document =
          ap (λ r. r.1) (ok_injective saved) in
        let blank : str_eq (js.dumps (obj (scrub_document js py patterns req))) "" ≡ false =
          rw answered not_blank in
        let back : js.loads (js.dumps (obj (scrub_document js py patterns req)))
            ≡ some (obj (scrub_document js py patterns req)) =
          rw answered reads_back in
        let policy =
          scrub_policy-saved_state base req patterns change s blank back
          ∙ scrub_policy-document base req patterns in
        let kept =
          select-log "repro_config" change (store "scrub_overrides" text s)
          ∙ others "repro_config" refl in
        (
          compiled,
          rw (← new, ← pairs) policy,
          rw (← new) (ap (λ r. read_repro_config js py (ok r)) kept),
        )
