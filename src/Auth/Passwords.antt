-- ===== src/Auth/Passwords.antt =====
-- agent/auth_router.py: `forgot_password`, `reset_password`, `change_password`.
use agentic_rag_backend.Base.{false, not, Option, none, some, [], ltb}
use agentic_rag_backend.Base.Text.{Text, codes}
use agentic_rag_backend.Http.{◌>>=◌, ◌>>◌, pure, guard, require}
use agentic_rag_backend.Auth.{
  User, Database, Crypto, Moment, Request, first_user, update_users, first_reset, insert_reset,
  update_resets, update_refresh_tokens, user_of_id, user_of_email, of_user, of_token,
  one_time_of_id, revoke, spend,
}
use agentic_rag_backend.Auth.Tokens.{hash_password, verify_password, make_otp, reset_token_expiry}
use agentic_rag_backend.Auth.Access.{get_current_active_user}
use agentic_rag_backend.Auth.Accounts.{long_enough}

abbrev pub reset_sent : Text
reset_sent = codes "If that email exists, a reset link has been sent."

module _ (d : Database) (c : Crypto) where
  -- The message, and the token if there is one.
  unfoldable pub reset_for : Moment → Option User → Request d (Text × Option Text)
  reset_for m none = pure (reset_sent, none)
  reset_for m (some user) =
      insert_reset d (record {
        id = m.row_id;
        user_id = user.id;
        token = make_otp c m;
        expires_at = reset_token_expiry m;
        used = false;
      })
      >> pure (reset_sent, some (make_otp c m))

  unfoldable pub forgot_password : Moment → Text → Request d (Text × Option Text)
  forgot_password m email = do row ← first_user d (user_of_email email); reset_for m row

  unfoldable pub reset_password : Moment → Text → Text → Request d Text
  reset_password m token new_password = do
    guard (long_enough new_password) 422 []
    row ← first_reset d (of_token token)
    stored ← require row 400 (codes "Invalid or expired reset token")
    guard (not stored.used) 400 (codes "Reset token already used")
    guard (not (ltb stored.expires_at m.now)) 400 (codes "Reset token expired")
    let new_hash = hash_password c m new_password
    update_users d (user_of_id stored.user_id) (λ r. record r { hashed_password = new_hash })
    update_resets d (one_time_of_id stored.id) spend
    update_refresh_tokens d (of_user stored.user_id) revoke
    pure (codes "Password reset successfully. Please log in again.")

  unfoldable pub change_password : Moment → Option Text → Text → Text → Request d Text
  change_password m header current_password new_password = do
    current ← get_current_active_user d c m header
    guard (long_enough new_password) 422 []
    guard (verify_password c current_password current.user.hashed_password) 400
        (codes "Current password is incorrect")
    let new_hash = hash_password c m new_password
    update_users d (user_of_id current.user.id) (λ r. record r { hashed_password = new_hash })
    update_refresh_tokens d (of_user current.user.id) revoke
    pure (codes "Password changed successfully. Please log in again.")
