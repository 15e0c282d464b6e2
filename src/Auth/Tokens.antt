-- ===== src/Auth/Tokens.antt =====
-- agent/auth_utils.py, and the helpers of agent/auth_router.py that issue tokens.
use agentic_rag_backend.Base.{ℕ, ◌+◌, ◌*◌, Bool, false, Option, none, some, List, [], ◌∷◌}
use agentic_rag_backend.Base.Text.{Text, codes}
use agentic_rag_backend.Http.{◌>>=◌, ◌>>◌, pure, read}
use agentic_rag_backend.Auth.{
  User, RefreshToken, Decoded, Database, Crypto, Moment, Request, insert_refresh_token,
}

module _ (c : Crypto) where
  unfoldable pub hash_password : Moment → Text → Text
  hash_password m plain = c.hashpw plain (c.gensalt m.salt)

  unfoldable pub verify_password : Text → Text → Bool
  verify_password plain hashed = elim (c.checkpw plain hashed) [ none ↦ false | some b ↦ b ]

  unfoldable pub create_access_token : ℕ → Text → Text → List Text → Text
  create_access_token now user_id email roles = c.encode c.jwt_secret c.jwt_algorithm (record {
    sub = some user_id;
    email = some email;
    roles = some roles;
    exp = now + c.access_token_expire_minutes * 60;
  })

  -- The token and its hash.
  unfoldable pub create_refresh_token : Moment → Text × Text
  create_refresh_token m = (m.raw_refresh, c.sha256 m.raw_refresh)

  unfoldable pub decode_access_token : Text → ℕ → Decoded
  decode_access_token token now = c.decode c.jwt_secret c.jwt_algorithm token now

  unfoldable pub hash_token : Text → Text
  hash_token raw = c.sha256 raw

  unfoldable pub make_otp : Moment → Text
  make_otp m = m.otp

  unfoldable pub refresh_token_expiry : Moment → ℕ
  refresh_token_expiry m = m.now + c.refresh_token_expire_days * 86400

  -- The row of the new token.
  unfoldable pub new_refresh_token : Moment → Text → RefreshToken
  new_refresh_token m user_id = record {
    id = m.row_id;
    user_id = user_id;
    token_hash = (create_refresh_token m).1;
    expires_at = refresh_token_expiry m;
    revoked = false;
  }

unfoldable pub verification_token_expiry : Moment → ℕ
verification_token_expiry m = m.now + 24 * 3600

unfoldable pub reset_token_expiry : Moment → ℕ
reset_token_expiry m = m.now + 3600

-- `[r["roles"]["name"] for r in rows if r.get("roles")]`
unfoldable pub present : List (Option Text) → List Text
present [] = []
present (none ∷ rows) = present rows
present (some name ∷ rows) = name ∷ present rows

pub record TokenResponse : Type 0 where
  pub access_token : Text
  pub refresh_token : Text
  pub token_type : Text
  pub expires_in : ℕ

module _ (d : Database) where
  unfoldable pub get_user_roles : Text → Request d (List Text)
  get_user_roles user_id = do
    rows ← read (λ s. d.embedded_roles user_id s.user_roles s.roles)
    pure (present rows)

module _ (d : Database) (c : Crypto) where
  unfoldable pub build_token_response : Moment → User → Request d TokenResponse
  build_token_response m user = do
    roles ← get_user_roles d user.id
    insert_refresh_token d (new_refresh_token c m user.id)
    pure (record {
      access_token = create_access_token c m.now user.id user.email roles;
      refresh_token = (create_refresh_token c m).0;
      token_type = codes "bearer";
      expires_in = c.access_token_expire_minutes * 60;
    })
