-- ===== src/Envelope/Refusals.antt =====
-- What `check_envelope` of diagnostics.py accepts, and what a refusal may name.
use stepstitch.Prelude.{
  contains-keep, ◌∙◌, contains-sort_by, ◌&&◌, sym, inr, inl, Option-cases, ◌≡◌, refl, ◌↔◌, ◌≢◌,
  String, true, false, not, Option, none, some, List, [], ◌∷◌, arith, ok, err, contains, eq_iff,
}
use stepstitch.Json.{str_leb, contains-drop_keys, Json, obj, Fields, keys, sorted, extract}
use stepstitch.Json.{str, num, arr, Items, nil, cons, texts, drop_keys, lookup}
use stepstitch.Prelude.Int.{pos}
use stepstitch.Prelude.{ℕ, ap, sort_by, insert_by}
use stepstitch.Envelope.{
  canonical, get, json_eq, ExecutionEnvelope, EnvelopeMismatch, moved, as_dict, hashed_payload,
  sha256, record_may_explain, moved_keys, check_envelope, refuse,
}

module _ (digest : Fields → String) where
  -- Two runs of the same experiment: all but the diagnostics profile agrees, and the names of the
  -- environment variables do when they are sorted.
  abbrev pub IsSameExperiment : ExecutionEnvelope → ExecutionEnvelope → Type 0
  IsSameExperiment e e' =
      (e.config_canonical ≡ e'.config_canonical)
      × (e.browser ≡ e'.browser)
      × (e.base_url ≡ e'.base_url)
      × (e.timeout_ms ≡ e'.timeout_ms)
      × (e.retries ≡ e'.retries)
      × (e.runner_version ≡ e'.runner_version)
      × (sorted e.env_names ≡ sorted e'.env_names)

  text_in : Json → String
  text_in (str s) = s
  text_in _ = ""

  number_in : Json → ℕ
  number_in (num (pos n)) = n
  number_in _ = 0

  names_of : Items → List String
  names_of nil = []
  names_of (cons (str s) vs) = s ∷ names_of vs
  names_of (cons _ vs) = names_of vs

  names_in : Json → List String
  names_in (arr vs) = names_of vs
  names_in _ = []

  names_of-texts : (ns : List String) → names_of (texts ns) ≡ ns
  unfolding texts names_of
  names_of-texts [] = refl
  names_of-texts (n ∷ ns) = ap (λ m. n ∷ m) (names_of-texts ns)

  canonical_same :
      (e e' : ExecutionEnvelope)
      → IsSameExperiment e e'
      → canonical (hashed_payload e) ≡ canonical (hashed_payload e')
  unfolding hashed_payload as_dict
  canonical_same e e' (config, browser, url, timeout, retries, version, names) =
      rw (config, browser, url, timeout, retries, version, names) refl

  canonical-IsSameExperiment :
      (e e' : ExecutionEnvelope)
      → canonical (hashed_payload e) ≡ canonical (hashed_payload e')
      → IsSameExperiment e e'
  unfolding canonical hashed_payload as_dict drop_keys keys sorted sort_by insert_by extract lookup
      text_in number_in names_in
  canonical-IsSameExperiment e e' h = (
    ap (λ d. text_in (get "config_canonical" d)) h,
    ap (λ d. text_in (get "browser" d)) h,
    ap (λ d. text_in (get "base_url" d)) h,
    ap (λ d. number_in (get "timeout_ms" d)) h,
    ap (λ d. number_in (get "retries" d)) h,
    ap (λ d. text_in (get "runner_version" d)) h,
    sym (names_of-texts (sorted e.env_names))
        ∙ ap (λ d. names_in (get "env_names" d)) h
        ∙ names_of-texts (sorted e'.env_names),
  )

  -- Where `frozen` was frozen by its digest, which is not the empty text and which the canonical
  -- documents of the two runs do not share unless they are equal, a run is accepted exactly when it is
  -- the same experiment as `frozen`, whatever the stored record says.
  pub check_envelope_accepts :
      (frozen e : ExecutionEnvelope) (stored : Json)
      → sha256 digest frozen ≢ ""
      → (digest (canonical (hashed_payload e)) ≡ digest (canonical (hashed_payload frozen))
          → canonical (hashed_payload e) ≡ canonical (hashed_payload frozen))
      → (check_envelope digest (some (sha256 digest frozen)) e stored ≡ ok tt)
        ↔ IsSameExperiment e frozen
  unfolding check_envelope sha256
  check_envelope_accepts frozen e stored stated apart =
      let expected = digest (canonical (hashed_payload frozen)) in
      let own = digest (canonical (hashed_payload e)) in
      (
        λ h.
            canonical-IsSameExperiment e frozen
              (apart (ground (arith, h, stated, eq_iff expected "", eq_iff own expected))),
        λ same.
            (let equal : own ≡ expected = ap digest (canonical_same e frozen same) in
              ground (arith, stated, eq_iff expected "", eq_iff own expected, equal)),
      )

  -- The diagnostics profile is no part of the experiment: changing it changes no answer.
  pub check_envelope_profile :
      (expected : Option String) (e : ExecutionEnvelope) (profile : String) (stored : Json)
      → check_envelope digest expected (record e { diagnostics_profile = profile }) stored
        ≡ check_envelope digest expected e stored
  unfolding check_envelope sha256 hashed_payload
  check_envelope_profile none e profile stored = refl
  check_envelope_profile (some expected) e profile stored = refl

  record_may_explain_trusted :
      (expected : String) (stored : Json) (ks : List String) (t : Fields)
      → record_may_explain digest expected stored ks ≡ some t
      → (d : Fields) × (stored ≡ obj d) × (extract ks d ≡ some t) × (digest t ≡ expected)
  unfolding record_may_explain
  record_may_explain_trusted expected (obj d) ks t h = elim (Option-cases (extract ks d)) [
    | inl missing ↦ absurd (ground arith)
    | inr (u, found) ↦ (
      d,
      refl,
      ground (arith, eq_iff (digest u) expected),
      ground (arith, eq_iff (digest u) expected),
    )
  ]
  record_may_explain_trusted expected _ ks t h = cc

  moved_keys_differ :
      (trusted actual : Fields) (k : String)
      → contains k (moved_keys digest trusted actual)
        ≡ (contains k (keys actual) && not (json_eq (get k trusted) (get k actual)))
  unfolding moved_keys sorted
  moved_keys_differ trusted actual k =
      contains-sort_by str_leb k _ ∙ contains-keep _ k (keys actual)

  refuse_names :
      (t actual : Fields) (names : List String)
      → refuse digest (some t) actual ≡ moved names
      → names ≡ moved_keys digest t actual
  unfolding refuse
  refuse_names t actual names h = ground arith

  refuse_silent :
      (actual : Fields) (names : List String) → ¬ (refuse digest none actual ≡ moved names)
  unfolding refuse
  refuse_silent actual names h = cc

  check_envelope_refuses :
      (expected : String) (e : ExecutionEnvelope) (stored : Json) (m : EnvelopeMismatch)
      → check_envelope digest (some expected) e stored ≡ err m
      → m
        ≡ refuse digest
            (record_may_explain digest expected stored (sorted (keys (hashed_payload e))))
            (hashed_payload e)
  unfolding check_envelope
  check_envelope_refuses expected e stored m h = ground arith

  hashed-ne-profile :
      (e : ExecutionEnvelope) (k : String)
      → contains k (keys (hashed_payload e)) ≡ true
      → k ≢ "diagnostics_profile"
  unfolding hashed_payload
  hashed-ne-profile e k h same = ground (
    arith,
    contains-drop_keys k ("diagnostics_profile" ∷ []) (as_dict e),
    eq_iff "diagnostics_profile" k,
  )

  -- A refusal that names fields rests on a record that hashes to the frozen digest: each name is a
  -- hashed key at which that record and this run differ, and the profile is never one.
  pub check_envelope_names :
      (expected : String) (e : ExecutionEnvelope) (stored : Json) (names : List String) (k : String)
      → check_envelope digest (some expected) e stored ≡ err (moved names)
      → contains k names ≡ true
      → (d : Fields) × (t : Fields) × (stored ≡ obj d)
        × (extract (sorted (keys (hashed_payload e))) d ≡ some t)
        × (digest t ≡ expected)
        × (contains k (keys (hashed_payload e)) ≡ true)
        × (json_eq (get k t) (get k (hashed_payload e)) ≡ false)
        × (k ≢ "diagnostics_profile")
  check_envelope_names expected e stored names k h m =
      let hashed = sorted (keys (hashed_payload e)) in
      let refused = check_envelope_refuses expected e stored (moved names) h in
      elim (Option-cases (record_may_explain digest expected stored hashed)) [
        | inl silent ↦ absurd (refuse_silent (hashed_payload e) names (rw silent at (sym refused)))
        | inr (t, explained) ↦
            let (d, is_obj, found, trusted) =
              record_may_explain_trusted expected stored hashed t explained in
            let listed = refuse_names t (hashed_payload e) names (rw explained at (sym refused)) in
            let differ = moved_keys_differ t (hashed_payload e) k in
            (
              d,
              t,
              is_obj,
              found,
              trusted,
              ground (arith, listed, differ),
              ground (arith, listed, differ),
              hashed-ne-profile e k (ground (arith, listed, differ)),
            )
      ]
