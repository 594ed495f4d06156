-- ===== src/Host/Auth.antt =====
-- service/stepstitch_service/host/auth.py: the two shared bearer tokens.
-- `str.lower` and the white space of `str.strip` are the parameters `lower` and `is_space`.
use stepstitch.Prelude.{
  ℕ, ◌≡◌, refl, ◌↔◌, ◌⊎◌, String, Bool, true, false, not, ◌||◌, Option, none, some, [], ◌∷◌, arith,
  if◌then◌else◌, is_empty, Result, ok, err,
}
use stepstitch.Prelude.Text.{Text, codes, text_eq, starts_with, strip, drop, text_eq_iff}

pub data AuthError : Type 0 where
  tokens_missing admin_token_required ingest_token_required : AuthError

module _ (lower : Text → Text) (is_space : ℕ → Bool) where
  abbrev or_none : Text → Option Text
  or_none [] = none
  or_none (c ∷ s) = some (c ∷ s)

  unfoldable pub bearer : Option Text → Option Text
  bearer none = none
  bearer (some authorization) =
      if is_empty authorization || not (starts_with (codes "bearer ") (lower authorization))
      then none
      else or_none (strip is_space (drop 7 authorization))

  abbrev pub is_token : Option Text → Text → Bool
  is_token none token = false
  is_token (some t) token = text_eq t token

  -- The tokens that `build_auth` closes over.
  pub record Tokens : Type 0 where
    pub admin_token : Text
    pub ingest_token : Text

  unfoldable pub build_auth : Text → Text → Result AuthError Tokens
  build_auth admin ingest =
      if is_empty admin || is_empty ingest
      then err tokens_missing
      else ok (record { admin_token = admin; ingest_token = ingest })

  unfoldable pub require_admin : Tokens → Option Text → Result AuthError String
  require_admin tokens authorization =
      if not (is_token (bearer authorization) tokens.admin_token)
      then err admin_token_required
      else ok "admin"

  unfoldable pub get_user_id : Tokens → Option Text → Result AuthError String
  get_user_id tokens authorization =
      if not (
        is_token (bearer authorization) tokens.ingest_token
        || is_token (bearer authorization) tokens.admin_token)
      then err ingest_token_required
      else ok "ingest-client"

  bearer-none : bearer none ≡ none
  unfolding bearer
  bearer-none = refl

  pub is_token_iff : (o : Option Text) (t : Text) → (is_token o t ≡ true) ↔ (o ≡ some t)
  is_token_iff none t = ground arith
  is_token_iff (some s) t = ground (arith, text_eq_iff s t)

  -- The gates that `build_auth` returns: an operator read passes on the admin token alone, a write
  -- on either token; a write passes wherever a read does; and a call without the header passes
  -- neither.
  pub build_auth_exact :
      (admin ingest : Text) (tokens : Tokens) (authorization : Option Text)
      → build_auth admin ingest ≡ ok tokens
      → ((require_admin tokens authorization ≡ ok "admin") ↔ (bearer authorization ≡ some admin))
        × ((get_user_id tokens authorization ≡ ok "ingest-client")
            ↔ ((bearer authorization ≡ some ingest) ⊎ (bearer authorization ≡ some admin)))
        × (require_admin tokens none ≡ err admin_token_required)
        × (get_user_id tokens none ≡ err ingest_token_required)
  unfolding build_auth require_admin get_user_id
  build_auth_exact admin ingest tokens authorization h = ground (
    arith,
    is_token_iff (bearer authorization) admin,
    is_token_iff (bearer authorization) ingest,
    bearer-none,
  )
