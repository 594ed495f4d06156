-- ===== src/Envelope.antt =====
-- service/stepstitch_service/diagnostics.py: the execution envelope and the refusal of a run that
-- would not be comparable to the frozen one.
-- The SHA-256 of the canonical JSON is the parameter `digest`. It is handed the object with its
-- keys sorted, as `json.dumps(..., sort_keys=True)` writes it.
pub mod Refusals
use stepstitch.Prelude.{
  ℕ, String, Bool, true, false, not, ◌&&◌, ◌||◌, Option, none, some, List, [], ◌∷◌, str_eq, keep,
  if◌then◌else◌, is_empty, Result, ok, err,
}
use stepstitch.Prelude.Int.{pos}
use stepstitch.Json.{
  Json, null, num, str, arr, obj, Fields, end, field, get, keys, drop_keys, extract, json_eq,
  sorted, texts,
}

abbrev pub envelope_schema_version : ℕ
envelope_schema_version = 3

pub record ExecutionEnvelope : Type 0 where
  pub config_canonical : String
  pub browser : String
  pub base_url : String
  pub timeout_ms : ℕ
  pub retries : ℕ
  pub diagnostics_profile : String
  pub runner_version : String
  pub env_names : List String

unfoldable pub as_dict : ExecutionEnvelope → Fields
as_dict e = field "config_canonical" (str e.config_canonical) (
    field "browser" (str e.browser) (
      field "base_url" (str e.base_url) (
        field "timeout_ms" (num (pos e.timeout_ms)) (
          field "retries" (num (pos e.retries)) (
            field "diagnostics_profile" (str e.diagnostics_profile) (
              field "runner_version" (str e.runner_version) (
                field "envelope_schema_version" (num (pos envelope_schema_version))
                  (field "env_names" (arr (texts (sorted e.env_names))) end))))))))

unfoldable pub hashed_payload : ExecutionEnvelope → Fields
unfolding as_dict drop_keys
hashed_payload e = drop_keys ("diagnostics_profile" ∷ []) (as_dict e)

pub data EnvelopeMismatch : Type 0 where
  moved : List String → EnvelopeMismatch
  differs : EnvelopeMismatch

abbrev pub or_end : Option Fields → Fields
or_end none = end
or_end (some d) = d

-- The object with its keys in order, as the canonical JSON lists them.
unfoldable pub canonical : Fields → Fields
canonical d = or_end (extract (sorted (keys d)) d)

module _ (digest : Fields → String) where
  unfoldable pub sha256 : ExecutionEnvelope → String
  sha256 e = digest (canonical (hashed_payload e))

  -- What the stored record may say: nothing unless it hashes to the digest that was frozen.
  unfoldable pub record_may_explain : String → Json → List String → Option Fields
  record_may_explain expected (obj record_) hashed_keys =
      if not (json_eq (get "envelope_schema_version" record_) (num (pos envelope_schema_version)))
      then none
      else elim (extract hashed_keys record_) [
        | none ↦ none
        | some extracted ↦ if str_eq (digest extracted) expected then some extracted else none
      ]
  record_may_explain expected _ hashed_keys = none

  -- The keys whose values differ, in order.
  unfoldable pub moved_keys : Fields → Fields → List String
  moved_keys trusted actual =
      sorted (keep (λ k. not (json_eq (get k trusted) (get k actual))) (keys actual))

  unfoldable pub refuse : Option Fields → Fields → EnvelopeMismatch
  unfolding moved_keys
  refuse none actual = differs
  refuse (some trusted) actual =
      let names = moved_keys trusted actual in if is_empty names then differs else moved names

  unfoldable pub check_envelope :
      Option String → ExecutionEnvelope → Json → Result EnvelopeMismatch (Unit {0})
  unfolding refuse
  check_envelope none actual stored = ok tt
  check_envelope (some expected) actual stored =
      if str_eq expected ""
      then ok tt
      else if str_eq (sha256 actual) expected
      then ok tt
      else let payload = hashed_payload actual in
        err (refuse (record_may_explain expected stored (sorted (keys payload))) payload)
