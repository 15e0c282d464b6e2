-- ===== src/Auth/Stable.antt =====
-- The queries of agent/auth_router.py that leave the table of refresh tokens alone.
use agentic_rag_backend.Base.{Bool, Option}
use agentic_rag_backend.Base.Text.{Text}
use agentic_rag_backend.Http.Rules.{Leads, Implies, >>=-Leads, pure-Leads, read-Leads, write-Leads}
use agentic_rag_backend.Auth.{
  User, RefreshToken, OneTimeToken, Role, UserRole, Database, State, Crypto, Moment, first_user,
  update_users, insert_user, first_refresh_token, first_reset, update_resets, insert_reset,
  first_verification, update_verifications, insert_verification, first_role, insert_user_role,
}
use agentic_rag_backend.Auth.Sender.{sender-Leads}
use agentic_rag_backend.Auth.Tokens.{get_user_roles}
use agentic_rag_backend.Auth.Access.{get_current_active_user}

-- A predicate on the table of refresh tokens, through requests that leave the table alone.
module _ (d : Database) (P : d.refresh_tokens.Store → Type 0) where
  abbrev pub On : State d → Type 0
  On s = P s.refresh_tokens

  pub same : Implies On On
  same s h = h

  pub first_user-Leads : (p : User → Bool) → Leads On (first_user d p) On
  unfolding first_user
  first_user-Leads p = read-Leads same _

  pub update_users-Leads : (p : User → Bool) (f : User → User) → Leads On (update_users d p f) On
  unfolding update_users
  update_users-Leads p f = write-Leads same _ _ λ s t h e. h

  pub insert_user-Leads : (x : User) → Leads On (insert_user d x) On
  unfolding insert_user
  insert_user-Leads x = write-Leads same _ _ λ s t h e. h

  pub first_refresh_token-Leads : (p : RefreshToken → Bool) → Leads On (first_refresh_token d p) On
  unfolding first_refresh_token
  first_refresh_token-Leads p = read-Leads same _

  pub first_reset-Leads : (p : OneTimeToken → Bool) → Leads On (first_reset d p) On
  unfolding first_reset
  first_reset-Leads p = read-Leads same _

  pub update_resets-Leads :
      (p : OneTimeToken → Bool) (f : OneTimeToken → OneTimeToken)
      → Leads On (update_resets d p f) On
  unfolding update_resets
  update_resets-Leads p f = write-Leads same _ _ λ s t h e. h

  pub insert_reset-Leads : (x : OneTimeToken) → Leads On (insert_reset d x) On
  unfolding insert_reset
  insert_reset-Leads x = write-Leads same _ _ λ s t h e. h

  pub first_verification-Leads : (p : OneTimeToken → Bool) → Leads On (first_verification d p) On
  unfolding first_verification
  first_verification-Leads p = read-Leads same _

  pub update_verifications-Leads :
      (p : OneTimeToken → Bool) (f : OneTimeToken → OneTimeToken)
      → Leads On (update_verifications d p f) On
  unfolding update_verifications
  update_verifications-Leads p f = write-Leads same _ _ λ s t h e. h

  pub insert_verification-Leads : (x : OneTimeToken) → Leads On (insert_verification d x) On
  unfolding insert_verification
  insert_verification-Leads x = write-Leads same _ _ λ s t h e. h

  pub first_role-Leads : (p : Role → Bool) → Leads On (first_role d p) On
  unfolding first_role
  first_role-Leads p = read-Leads same _

  pub insert_user_role-Leads : (x : UserRole) → Leads On (insert_user_role d x) On
  unfolding insert_user_role
  insert_user_role-Leads x = write-Leads same _ _ λ s t h e. h

  pub get_user_roles-Leads : (user_id : Text) → Leads On (get_user_roles d user_id) On
  unfolding get_user_roles
  get_user_roles-Leads user_id = >>=-Leads same (read-Leads same _) λ rows. pure-Leads same _

  pub get_current_active_user-Leads :
      (c : Crypto) (m : Moment) (header : Option Text)
      → Leads On (get_current_active_user d c m header) On
  get_current_active_user-Leads c m header = sender-Leads d On c m header
