-- ===== src/Auth/Handlers.antt =====
-- The handlers of agent/auth_router.py as calls in a sequence, and what each keeps of the table of
-- refresh tokens: it only revokes rows, and adds the row of a new token at its end.
use agentic_rag_backend.Base.{◌≡◌, Bool, Option, none, some, List, [], ◌∷◌, if_elim}
use agentic_rag_backend.Base.Text.{Text}
use agentic_rag_backend.Http.{Action}
use agentic_rag_backend.Http.Rules.{
  Leads, Implies, >>=-Leads, pure-Leads, guard-Leads, require-Leads, write-Leads,
}
use agentic_rag_backend.Auth.{
  User, RefreshToken, Role, Database, State, Crypto, Moment, update_refresh_tokens,
  insert_refresh_token, revoke,
}
use agentic_rag_backend.Auth.Tokens.{build_token_response, new_refresh_token}
use agentic_rag_backend.Auth.Access.{me}
use agentic_rag_backend.Auth.Accounts.{
  RegisterRequest, assign_role, register, login, verify_email, resend_to, resend_verification,
}
use agentic_rag_backend.Auth.Passwords.{reset_for, forgot_password, reset_password, change_password}
use agentic_rag_backend.Auth.Sessions.{logout, refresh_token}
use agentic_rag_backend.Auth.Stable.{
  On, same, first_user-Leads, update_users-Leads, insert_user-Leads, first_refresh_token-Leads,
  first_reset-Leads, update_resets-Leads, insert_reset-Leads, first_verification-Leads,
  update_verifications-Leads, insert_verification-Leads, first_role-Leads, insert_user_role-Leads,
  get_user_roles-Leads, get_current_active_user-Leads,
}

-- The requests. A header is the one named Authorization.
pub data Call : Type 0 where
  registers : RegisterRequest → Call
  logs_in : Text → Text → Call
  logs_out : Option Text → Text → Call
  refreshes : Text → Call
  forgets_password : Text → Call
  resets_password : Text → Text → Call
  changes_password : Option Text → Text → Text → Call
  verifies_email : Text → Call
  asks_verification : Text → Call
  asks_me : Option Text → Call

module _ (d : Database) (c : Crypto) where
  -- The state after a request.
  unfoldable pub serve : Moment → Call → State d → State d
  serve m (registers req) s = (register d c m req s).0
  serve m (logs_in email password) s = (login d c m email password s).0
  serve m (logs_out header raw) s = (logout d c m header raw s).0
  serve m (refreshes raw) s = (refresh_token d c m raw s).0
  serve m (forgets_password email) s = (forgot_password d c m email s).0
  serve m (resets_password token new_password) s = (reset_password d c m token new_password s).0
  serve m (changes_password header current_password new_password) s =
      (change_password d c m header current_password new_password s).0
  serve m (verifies_email token) s = (verify_email d c m token s).0
  serve m (asks_verification email) s = (resend_verification d c m email s).0
  serve m (asks_me header) s = (me d c m header s).0

  unfoldable pub run : List (Moment × Call) → State d → State d
  run [] s = s
  run ((m, call) ∷ calls) s = run calls (serve m call s)

-- From `P` of the table before a request to `Q` of it after.
module _ (d : Database) (c : Crypto) (m : Moment) (P : d.refresh_tokens.Store → Type 0)
    (Q : d.refresh_tokens.Store → Type 0) (weaker : (t : d.refresh_tokens.Store) → P t → Q t)
    (revoking : (p : RefreshToken → Bool) (t t' : d.refresh_tokens.Store)
      → P t
      → d.refresh_tokens.update p revoke t ≡ some t'
      → P t')
    (adding : (user_id : Text) (t t' : d.refresh_tokens.Store)
      → P t
      → d.refresh_tokens.insert (new_refresh_token c m user_id) t ≡ some t'
      → Q t') where
  abbrev pub Before : State d → Type 0
  Before = On d P

  abbrev pub After : State d → Type 0
  After = On d Q

  keep : Implies Before Before
  keep = same d P

  weaken : Implies Before After
  weaken s h = weaker s.refresh_tokens h

  update_refresh_tokens-Leads :
      (p : RefreshToken → Bool) → Leads Before (update_refresh_tokens d p revoke) Before
  unfolding update_refresh_tokens
  update_refresh_tokens-Leads p = write-Leads keep _ _ λ s t h e. revoking p s.refresh_tokens t h e

  pub build_token_response-Leads :
      (user : User) → Leads Before (build_token_response d c m user) After
  unfolding build_token_response insert_refresh_token
  build_token_response-Leads user = >>=-Leads weaken (get_user_roles-Leads d P _) λ roles.
      >>=-Leads (same d Q) (write-Leads weaken _ _ λ s t h e. adding user.id s.refresh_tokens t h e)
        λ _. pure-Leads (same d Q) _

  assign_role-Leads :
      (user_id : Text) (role : Option Role) → Leads Before (assign_role d user_id role) Before
  unfolding assign_role
  assign_role-Leads user_id none = pure-Leads keep _
  assign_role-Leads user_id (some role) = insert_user_role-Leads d P _

  register-Leads : (req : RegisterRequest) → Leads Before (register d c m req) After
  unfolding register
  register-Leads req = >>=-Leads weaken (guard-Leads keep _ _ _) λ _.
      >>=-Leads weaken (first_user-Leads d P _) λ existing.
        >>=-Leads weaken (guard-Leads keep _ _ _) λ _.
          >>=-Leads weaken (insert_user-Leads d P _) λ _.
            >>=-Leads weaken (first_role-Leads d P _) λ role.
              >>=-Leads weaken (assign_role-Leads _ _)
                λ _. >>=-Leads weaken (insert_verification-Leads d P _) λ _. pure-Leads weaken _

  login-Leads : (email password : Text) → Leads Before (login d c m email password) After
  unfolding login
  login-Leads email password = >>=-Leads weaken (first_user-Leads d P _) λ row.
      >>=-Leads weaken (require-Leads keep _ _ _) λ user.
        >>=-Leads weaken (guard-Leads keep _ _ _) λ _.
          >>=-Leads weaken (guard-Leads keep _ _ _) λ _.
            >>=-Leads weaken (guard-Leads keep _ _ _) λ _.
              >>=-Leads weaken (update_users-Leads d P _ _) λ _. build_token_response-Leads user

  logout-Leads : (header : Option Text) (raw : Text) → Leads Before (logout d c m header raw) After
  unfolding logout
  logout-Leads header raw =
      >>=-Leads weaken (get_current_active_user-Leads d P c m header)
        λ current. >>=-Leads weaken (update_refresh_tokens-Leads _) λ _. pure-Leads weaken _

  refresh_token-Leads : (raw : Text) → Leads Before (refresh_token d c m raw) After
  unfolding refresh_token
  refresh_token-Leads raw = >>=-Leads weaken (first_refresh_token-Leads d P _) λ row.
      >>=-Leads weaken (require-Leads keep _ _ _) λ stored.
        >>=-Leads weaken (guard-Leads keep _ _ _) λ _.
          >>=-Leads weaken (guard-Leads keep _ _ _) λ _.
            >>=-Leads weaken (update_refresh_tokens-Leads _) λ _.
              >>=-Leads weaken (first_user-Leads d P _) λ owner.
                >>=-Leads weaken (require-Leads keep _ _ _) λ user. build_token_response-Leads user

  reset_for-Leads : (row : Option User) → Leads Before (reset_for d c m row) After
  unfolding reset_for
  reset_for-Leads none = pure-Leads weaken _
  reset_for-Leads (some user) = >>=-Leads weaken (insert_reset-Leads d P _) λ _. pure-Leads weaken _

  forgot_password-Leads : (email : Text) → Leads Before (forgot_password d c m email) After
  unfolding forgot_password
  forgot_password-Leads email = >>=-Leads weaken (first_user-Leads d P _) λ row. reset_for-Leads row

  reset_password-Leads :
      (token new_password : Text) → Leads Before (reset_password d c m token new_password) After
  unfolding reset_password
  reset_password-Leads token new_password = >>=-Leads weaken (guard-Leads keep _ _ _) λ _.
      >>=-Leads weaken (first_reset-Leads d P _) λ row.
        >>=-Leads weaken (require-Leads keep _ _ _) λ stored.
          >>=-Leads weaken (guard-Leads keep _ _ _) λ _.
            >>=-Leads weaken (guard-Leads keep _ _ _) λ _.
              >>=-Leads weaken (update_users-Leads d P _ _) λ _.
                >>=-Leads weaken (update_resets-Leads d P _ _)
                  λ _. >>=-Leads weaken (update_refresh_tokens-Leads _) λ _. pure-Leads weaken _

  change_password-Leads :
      (header : Option Text) (current_password new_password : Text)
      → Leads Before (change_password d c m header current_password new_password) After
  unfolding change_password
  change_password-Leads header current_password new_password =
      >>=-Leads weaken (get_current_active_user-Leads d P c m header) λ current.
        >>=-Leads weaken (guard-Leads keep _ _ _) λ _.
          >>=-Leads weaken (guard-Leads keep _ _ _) λ _.
            >>=-Leads weaken (update_users-Leads d P _ _)
              λ _. >>=-Leads weaken (update_refresh_tokens-Leads _) λ _. pure-Leads weaken _

  verify_email-Leads : (token : Text) → Leads Before (verify_email d c m token) After
  unfolding verify_email
  verify_email-Leads token = >>=-Leads weaken (first_verification-Leads d P _) λ row.
      >>=-Leads weaken (require-Leads keep _ _ _) λ stored.
        >>=-Leads weaken (guard-Leads keep _ _ _) λ _.
          >>=-Leads weaken (guard-Leads keep _ _ _) λ _.
            >>=-Leads weaken (update_users-Leads d P _ _)
              λ _. >>=-Leads weaken (update_verifications-Leads d P _ _) λ _. pure-Leads weaken _

  resend_to-Leads : (row : Option User) → Leads Before (resend_to d c m row) After
  unfolding resend_to
  resend_to-Leads none = pure-Leads weaken _
  resend_to-Leads (some user) =
      if_elim {A = Action (State d) (Text × Option Text)} (λ r. Leads Before r After)
        user.is_verified (λ _. pure-Leads weaken _)
        λ _. >>=-Leads weaken (insert_verification-Leads d P _) λ _. pure-Leads weaken _

  resend_verification-Leads : (email : Text) → Leads Before (resend_verification d c m email) After
  unfolding resend_verification
  resend_verification-Leads email =
      >>=-Leads weaken (first_user-Leads d P _) λ row. resend_to-Leads row

  me-Leads : (header : Option Text) → Leads Before (me d c m header) After
  unfolding me
  me-Leads header =
      >>=-Leads weaken (get_current_active_user-Leads d P c m header) λ current. pure-Leads weaken _

  -- Every request leads from `P` to `Q`.
  pub serve_keeps :
      (call : Call) (s : State d) → P s.refresh_tokens → Q (serve d c m call s).refresh_tokens
  unfolding serve
  serve_keeps (registers req) s h = (register-Leads req).after s h
  serve_keeps (logs_in email password) s h = (login-Leads email password).after s h
  serve_keeps (logs_out header raw) s h = (logout-Leads header raw).after s h
  serve_keeps (refreshes raw) s h = (refresh_token-Leads raw).after s h
  serve_keeps (forgets_password email) s h = (forgot_password-Leads email).after s h
  serve_keeps (resets_password token new_password) s h =
      (reset_password-Leads token new_password).after s h
  serve_keeps (changes_password header current_password new_password) s h =
      (change_password-Leads header current_password new_password).after s h
  serve_keeps (verifies_email token) s h = (verify_email-Leads token).after s h
  serve_keeps (asks_verification email) s h = (resend_verification-Leads email).after s h
  serve_keeps (asks_me header) s h = (me-Leads header).after s h
