-- ===== src/Fixproof/Policy.antt =====
-- fixproof.py: the trust anchors of a policy, and the check of a signature against them.
use stepstitch.Prelude.{
  ◌-◌, ◌+◌, ◌*◌, ◌||◌, ◌==◌, ℕ, String, Bool, true, false, not, ◌&&◌, Option, none, some, List, [],
  ◌∷◌, str_eq, all, any, if◌then◌else◌, length, Result, ok, err, ◌>>=◌, ◌>>◌, raise_if, contains,
}
use stepstitch.Prelude.Text.{Text, codes, drop, starts_with}
use stepstitch.Json.{
  Json, str, arr, obj, Items, nil, cons, Fields, end, field, get, truthy, keys, is_str,
}
use stepstitch.Ed25519.Keys.{is_usable_public_key, verify}
use stepstitch.Ed25519.Points.{Bytes}
use stepstitch.Fixproof.{
  leb, Crypto, ProofError, value_error, type_error, dict_of, text_of, is_hex, policy_keys,
  mandatory_bindings,
}

abbrev pub Anchors : Type 0
Anchors = List (String × Bytes)

-- `ed25519:` and 64 hex digits; what follows is the key as it is decoded.
abbrev pub is_public_key : String → Bool
is_public_key text =
    starts_with (codes "ed25519:") (codes text)
    && length (drop 8 (codes text)) == 64
    && all is_hex (drop 8 (codes text))

-- `bytes.fromhex` of a text of hex digits.
abbrev pub nibble : ℕ → ℕ
nibble c = if leb c b'9' then c - b'0' else c - b'a' + 10

unfoldable pub decode_hex : Text → Bytes
decode_hex [] = []
decode_hex (c ∷ []) = []
decode_hex (c ∷ d ∷ s) = (nibble c * 16 + nibble d) ∷ decode_hex s

unfoldable pub lookup_anchor : String → Anchors → Option Bytes
lookup_anchor k [] = none
lookup_anchor k ((j, key) ∷ anchors) = if str_eq j k then some key else lookup_anchor k anchors

-- The underscore marks commentary.
abbrev pub is_comment : String → Bool
is_comment k = starts_with (codes "_") (codes k)

unfoldable pub check_keys : Fields → Result ProofError (Unit {0})
check_keys policy =
    raise_if (any (λ k. not (contains k policy_keys) && not (is_comment k)) (keys policy))
      value_error

module _ (c : Crypto) where
  unfoldable pub decode_anchors : Fields → Result ProofError Anchors
  decode_anchors end = ok []
  decode_anchors (field key_id value rest) =
      let others = decode_anchors rest in
      let text = c.normalize (text_of c value) in
      let raw = decode_hex (drop 8 (codes text)) in
      if is_public_key text && is_usable_public_key raw
      then (others >>= λ anchors. ok ((key_id, raw) ∷ anchors))
      else err value_error

  -- `_trusted_keys_or_refuse`.
  unfoldable pub trusted_keys_or_refuse : Fields → Result ProofError Anchors
  trusted_keys_or_refuse policy =
      let listed = get "trusted_keys" policy in
      if truthy (get "require_signature" policy) && not (truthy listed)
      then err value_error
      else (dict_of listed >>= λ d. decode_anchors d)

  -- `str(signature.get("signature") or "")`.
  abbrev pub signature_text : Fields → String
  signature_text d = let s = get "signature" d in if truthy s then text_of c s else ""

  abbrev pub verifies : Bytes → Bytes → Option Bytes → Bool
  verifies key message none = false
  verifies key message (some raw) = verify c.library key message raw

  unfoldable pub check_by_key : Json → Anchors → Bytes → Fields → Result ProofError Bool
  check_by_key (str key_id) trusted message d = elim (lookup_anchor key_id trusted) [
    | none ↦ ok false
    | some key ↦ ok (verifies key message (c.from_hex (signature_text d)))
  ]
  -- a list or an object cannot be looked up; any other value is no key of the policy
  check_by_key (arr _) trusted message d = err type_error
  check_by_key (obj _) trusted message d = err type_error
  check_by_key _ trusted message d = ok false

  -- `_check_signature`.
  unfoldable pub check_signature : Json → Anchors → Bytes → Result ProofError Bool
  unfolding check_by_key
  check_signature (obj (field k v d)) trusted message =
      let s = field k v d in
      if is_str (get "algorithm" s) "ed25519"
      then check_by_key (get "key_id" s) trusted message s
      else ok false
  check_signature _ trusted message = ok false

abbrev pub unknown_binding : Items → Bool
unknown_binding nil = false
unknown_binding (cons (str n) ns) = not (contains n mandatory_bindings) || unknown_binding ns
unknown_binding (cons _ ns) = unknown_binding ns

abbrev pub no_text : Items → Bool
no_text nil = false
no_text (cons (str n) ns) = no_text ns
no_text (cons _ ns) = true

-- The names in `require_bindings`, where it is a list.
unfoldable pub check_binding_names : Json → Result ProofError (Unit {0})
check_binding_names (arr names) = do
  raise_if (no_text names) type_error
  raise_if (unknown_binding names) value_error
check_binding_names _ = ok tt
