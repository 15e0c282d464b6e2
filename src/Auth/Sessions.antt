-- ===== src/Auth/Sessions.antt =====
-- agent/auth_router.py: `logout`, `refresh_token`.
use agentic_rag_backend.Base.{true, false, not, Option, none, some, ltb}
use agentic_rag_backend.Base.Text.{Text, codes}
use agentic_rag_backend.Http.{◌>>=◌, ◌>>◌, pure, guard, require}
use agentic_rag_backend.Auth.{
  User, Database, Crypto, Moment, Request, first_user, first_refresh_token, update_refresh_tokens,
  user_of_id, of_hash, session_of_id, revoke,
}
use agentic_rag_backend.Auth.Tokens.{TokenResponse, hash_token, build_token_response}
use agentic_rag_backend.Auth.Access.{get_current_active_user}

-- `not user_rows or not user_rows[0]["is_active"]` is its negation.
abbrev pub active : Option User → Option User
active none = none
active (some user) = elim user.is_active [ true ↦ some user | false ↦ none ]

module _ (d : Database) (c : Crypto) where
  unfoldable pub logout : Moment → Option Text → Text → Request d Text
  logout m header raw = do
    current ← get_current_active_user d c m header
    update_refresh_tokens d (of_hash (hash_token c raw)) revoke
    pure (codes "Logged out successfully")

  unfoldable pub refresh_token : Moment → Text → Request d TokenResponse
  refresh_token m raw = do
    row ← first_refresh_token d (of_hash (hash_token c raw))
    stored ← require row 401 (codes "Invalid refresh token")
    guard (not stored.revoked) 401 (codes "Refresh token revoked")
    guard (not (ltb stored.expires_at m.now)) 401 (codes "Refresh token expired")
    update_refresh_tokens d (session_of_id stored.id) revoke
    owner ← first_user d (user_of_id stored.user_id)
    user ← require (active owner) 401 (codes "User not found or deactivated")
    build_token_response d c m user
