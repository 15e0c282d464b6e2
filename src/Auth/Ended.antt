-- ===== src/Auth/Ended.antt =====
-- A new password ends the sessions of the user.
use agentic_rag_backend.Base.{◌≡◌, ◌≢◌, ◌∙◌, Option, some, List, All, arith, ap}
use agentic_rag_backend.Base.Text.{Text, text_eq_iff}
use agentic_rag_backend.Database.{TableLaws}
use agentic_rag_backend.Http.{Reply, ok}
use agentic_rag_backend.Http.Inversion.{
  guard-first, require-first, read-first, write-first, >>=-eq-ok,
}
use agentic_rag_backend.Auth.{
  RefreshToken, OneTimeToken, Database, State, Crypto, Moment, first_reset, update_users,
  update_resets, update_refresh_tokens, of_token, of_user, revoke,
}
use agentic_rag_backend.Auth.Tokens.{TokenResponse}
use agentic_rag_backend.Auth.Access.{CurrentUser, get_current_active_user}
use agentic_rag_backend.Auth.Passwords.{reset_password, change_password}
use agentic_rag_backend.Auth.Sessions.{refresh_token}
use agentic_rag_backend.Auth.Handlers.{Call, run}
use agentic_rag_backend.Auth.Stable.{get_current_active_user-Leads}
use agentic_rag_backend.Auth.Spent.{Spent, run-Spent, refresh_token_of_Spent}

-- Every row with the hash is the user's.
unfoldable pub BelongsTo : (d : Database) → Text → Text → d.refresh_tokens.Store → Type 0
BelongsTo d owner hash t =
    (r : RefreshToken) → d.refresh_tokens.Has r t → r.token_hash ≡ hash → r.user_id ≡ owner

module _ (d : Database) (laws : TableLaws d.refresh_tokens) (c : Crypto) where
  revoked-Spent :
      (owner id hash : Text) (t t' : d.refresh_tokens.Store)
      → BelongsTo d owner hash t
      → id ≡ owner
      → d.refresh_tokens.update (of_user id) revoke t ≡ some t'
      → Spent d hash t'
  unfolding BelongsTo Spent
  revoked-Spent owner id hash t t' his same e r there eq =
      let (q, was, is) = laws.update_old (of_user id) revoke t {s' = t'} e r there in
      ground (arith, his q was, text_eq_iff q.user_id id)

  module _ (raw : Text) (owner : Text) (calls : List (Moment × Call))
      (others : All (λ (call : Moment × Call). c.sha256 call.0.raw_refresh ≢ c.sha256 raw) calls)
      (later : Moment) (end : State d) (again : TokenResponse) where
    -- After a password is reset, and any requests that draw no refresh token with its hash, a
    -- refresh token of the user that the reset token belongs to is not exchanged.
    pub reset_password_ends :
        (resets : TableLaws d.password_resets) (m : Moment) (token new_password : Text)
        (s : State d) (s' : State d) (message : Text)
        → ((r : OneTimeToken)
            → d.password_resets.Has r s.password_resets
            → r.token ≡ token
            → r.user_id ≡ owner)
        → BelongsTo d owner (c.sha256 raw) s.refresh_tokens
        → reset_password d c m token new_password s ≡ (s', ok message)
        → refresh_token d c later raw (run d c calls s') ≢ (end, ok again)
    unfolding reset_password first_reset update_users update_resets update_refresh_tokens
    reset_password_ends resets m token new_password s s' message for_owner his e =
        let (_, e₁) = guard-first _ _ _ _ s e in
        let (row, found, e₂) = read-first _ _ s e₁ in
        let (stored, is, e₃) = require-first row _ _ _ s e₂ in
        let (_, e₄) = guard-first _ _ _ _ s e₃ in
        let (_, e₅) = guard-first _ _ _ _ s e₄ in
        let (users, _, e₆) = write-first _ _ _ s e₅ in
        let (used, _, e₇) = write-first _ _ _ (record s { users = users }) e₆ in
        let (t, update, e₈) =
          write-first _ _ _ (record s { users = users; password_resets = used }) e₇ in
        let (there, by_token) =
          resets.first_some (of_token token) s.password_resets (found ∙ ap some is) in
        let own = for_owner stored there ((text_eq_iff stored.token token).0 by_token) in
        let spent =
          revoked-Spent owner stored.user_id (c.sha256 raw) s.refresh_tokens t his own update in
        let spent' : Spent d (c.sha256 raw) s'.refresh_tokens =
          rw (ap (λ (p : State d × Reply Text). p.0.refresh_tokens) e₈) at spent in
        refresh_token_of_Spent d laws c later raw (run d c calls s') end again
          (run-Spent d laws c (c.sha256 raw) calls s' others spent')

    -- After a user changes the password, and any requests that draw no refresh token with its hash,
    -- a refresh token of that user is not exchanged.
    pub change_password_ends :
        (m : Moment) (header : Option Text) (current_password new_password : Text) (s : State d)
        (s' : State d) (current : CurrentUser) (message : Text)
        → (get_current_active_user d c m header s).1 ≡ ok current
        → current.user.id ≡ owner
        → BelongsTo d owner (c.sha256 raw) s.refresh_tokens
        → change_password d c m header current_password new_password s ≡ (s', ok message)
        → refresh_token d c later raw (run d c calls s') ≢ (end, ok again)
    unfolding change_password update_users update_refresh_tokens
    change_password_ends m header current_password new_password s s' current message who own his e =
        let (current', s₁, known, e₂) = >>=-eq-ok _ _ s e in
        let his₁ : BelongsTo d owner (c.sha256 raw) s₁.refresh_tokens =
          rw (ap (λ (p : State d × Reply CurrentUser). p.0) known) at (
            (get_current_active_user-Leads d (BelongsTo d owner (c.sha256 raw)) c m header).after s
              his) in
        let (_, e₁) = guard-first _ _ _ _ s₁ e₂ in
        let (_, e₃) = guard-first _ _ _ _ s₁ e₁ in
        let (users, _, e₄) = write-first _ _ _ s₁ e₃ in
        let (t, update, e₅) = write-first _ _ _ (record s₁ { users = users }) e₄ in
        let own' : current'.user.id ≡ owner = ground arith in
        let spent =
          revoked-Spent owner current'.user.id (c.sha256 raw) s₁.refresh_tokens t his₁ own'
            update in
        let spent' : Spent d (c.sha256 raw) s'.refresh_tokens =
          rw (ap (λ (p : State d × Reply Text). p.0.refresh_tokens) e₅) at spent in
        refresh_token_of_Spent d laws c later raw (run d c calls s') end again
          (run-Spent d laws c (c.sha256 raw) calls s' others spent')
