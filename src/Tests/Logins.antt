-- ===== src/Tests/Logins.antt =====
-- A run of the authentication, and its theorems at it.
use agentic_rag_backend.Base.{
  ℕ, ◌++◌, ◌≡◌, ◌≢◌, ◌⊎◌, refl, sym, ◌∙◌, ap, true, false, Option, none, some, List, [], ◌∷◌, arith,
}
use agentic_rag_backend.Base.Text.{Text, codes, is_empty}
use agentic_rag_backend.Database.{In}
use agentic_rag_backend.Http
use agentic_rag_backend.Http.{Reply, ok, failed, is_refused}
use agentic_rag_backend.Auth
use agentic_rag_backend.Auth.Tokens
use agentic_rag_backend.Auth.Accounts
use agentic_rag_backend.Auth.Access
use agentic_rag_backend.Auth.Passwords
use agentic_rag_backend.Auth.{User, RefreshToken, OneTimeToken, State, Moment, user_of_id}
use agentic_rag_backend.Auth.Tokens.{TokenResponse, new_refresh_token, present, verify_password}
use agentic_rag_backend.Auth.Access.{CurrentUser, me, get_current_active_user, profile_of}
use agentic_rag_backend.Auth.Accounts.{
  RegisterRequest, Registered, new_user, register, login, verify_email,
}
use agentic_rag_backend.Auth.Passwords.{forgot_password, reset_password, change_password}
use agentic_rag_backend.Auth.Sessions.{refresh_token}
use agentic_rag_backend.Auth.Handlers.{logs_in, refreshes, run}
use agentic_rag_backend.Auth.Spent.{HasUniqueHashes, Unseen, refresh_token_once}
use agentic_rag_backend.Auth.Unique.{run-HasUniqueHashes}
use agentic_rag_backend.Auth.Ended.{BelongsTo, reset_password_ends, change_password_ends}
use agentic_rag_backend.Auth.Signup.{IsNewToken, register-login, verify_email-login}
use agentic_rag_backend.Auth.Bearer.{HasKeys, bearer, login-me}
use agentic_rag_backend.Tests.Tables.{apart, is_row, rows_of-laws, first_row}
use agentic_rag_backend.Tests.Accounts.{database, crypto, crypto-laws, decode_claims}

abbrev moment : ℕ → Text → Moment
moment now seed = record {
  now = now;
  uuid = codes "u" ++ seed;
  otp = codes "o" ++ seed;
  raw_refresh = codes "r" ++ seed;
  salt = codes "s" ++ seed;
  row_id = codes "w" ++ seed;
}

abbrev address : Text
address = codes "a@x"

abbrev request : RegisterRequest
request = record { email = address; password = codes "password"; username = none; full_name = none }

abbrev start : State database
start = record {
  users = [];
  refresh_tokens = [];
  password_resets = [];
  email_verifications = [];
  roles = record { id = codes "1"; name = codes "user"; description = none } ∷ [];
  user_roles = [];
}

abbrev first_moment : Moment
first_moment = moment 100 (codes "1")

abbrev second_moment : Moment
second_moment = moment 200 (codes "2")

abbrev third_moment : Moment
third_moment = moment 300 (codes "3")

abbrev last_moment : Moment
last_moment = moment 400 (codes "4")

abbrev registered_of : Reply Registered → Registered
registered_of (ok r) = r
registered_of _ = record { message = []; user_id = []; verification_token = [] }

abbrev no_tokens : TokenResponse
no_tokens = record { access_token = []; refresh_token = []; token_type = []; expires_in = 0 }

abbrev tokens_of : Reply TokenResponse → TokenResponse
tokens_of (ok tokens) = tokens
tokens_of _ = no_tokens

abbrev message_of : Reply Text → Text
message_of (ok t) = t
message_of _ = []

abbrev signed_up : State database × Reply Registered
signed_up = register database crypto first_moment request start

abbrev token : Text
token = (registered_of signed_up.1).verification_token

abbrev confirmed : State database × Reply Text
confirmed = verify_email database crypto second_moment token signed_up.0

abbrev logged_in : State database × Reply TokenResponse
logged_in = login database crypto second_moment address (codes "password") confirmed.0

-- The login returns the token that was drawn.
login_run : (tokens_of logged_in.1).refresh_token ≡ codes "r2"
unfolding Http.◌>>=◌ Http.continue_with Http.read Http.write Http.guard Http.require Auth.first_user
    Auth.update_users Auth.insert_user Auth.first_role Auth.insert_user_role
    Auth.insert_verification Auth.first_verification Auth.update_verifications
    Auth.insert_refresh_token Auth.first_refresh_token Auth.update_refresh_tokens
    Tokens.get_user_roles Tokens.present Tokens.build_token_response Tokens.create_access_token
    Tokens.create_refresh_token Tokens.new_refresh_token Tokens.hash_password Tokens.hash_token
    Tokens.make_otp Tokens.refresh_token_expiry Tokens.verification_token_expiry
    Tokens.verify_password Accounts.assign_role Accounts.new_user Accounts.new_verification register
    login verify_email first_row
login_run = refl

abbrev exchanged : State database × Reply TokenResponse
exchanged = refresh_token database crypto third_moment (codes "r2") logged_in.0

one_row : (x : RefreshToken) → HasUniqueHashes database (x ∷ [])
unfolding HasUniqueHashes
one_row x r q r_there q_there same =
    ap (λ (y : RefreshToken). y.id) (is_row r x r_there ∙ sym (is_row q x q_there))

refresh_token_once_example :
    refresh_token database crypto last_moment
      (codes "r2")
      (run database crypto ((last_moment, logs_in address (codes "password")) ∷ []) exchanged.0)
    ≢ (logged_in.0, ok no_tokens)
unfolding Http.◌>>=◌ Http.continue_with Http.read Http.write Http.guard Http.require Auth.first_user
    Auth.update_users Auth.insert_user Auth.first_role Auth.insert_user_role
    Auth.insert_verification Auth.first_verification Auth.update_verifications
    Auth.insert_refresh_token Auth.first_refresh_token Auth.update_refresh_tokens
    Tokens.get_user_roles Tokens.present Tokens.build_token_response Tokens.create_access_token
    Tokens.create_refresh_token Tokens.new_refresh_token Tokens.hash_password Tokens.hash_token
    Tokens.make_otp Tokens.refresh_token_expiry Tokens.verification_token_expiry
    Tokens.verify_password Accounts.assign_role Accounts.new_user Accounts.new_verification register
    login verify_email first_row refresh_token
refresh_token_once_example =
    refresh_token_once database (rows_of-laws RefreshToken) crypto third_moment (codes "r2")
      logged_in.0 exchanged.0 (tokens_of exchanged.1)
      (one_row (new_refresh_token crypto second_moment (codes "u1")))
      (apart (codes "r3") (codes "r2") refl) refl
      ((last_moment, logs_in address (codes "password")) ∷ [])
      (apart (codes "r4") (codes "r2") refl, tt) last_moment logged_in.0 no_tokens

run-HasUniqueHashes_example :
    HasUniqueHashes database
      (run database crypto ((third_moment, refreshes (codes "r2")) ∷ []) logged_in.0).refresh_tokens
unfolding Http.◌>>=◌ Http.continue_with Http.read Http.write Http.guard Http.require Auth.first_user
    Auth.update_users Auth.insert_user Auth.first_role Auth.insert_user_role
    Auth.insert_verification Auth.first_verification Auth.update_verifications
    Auth.insert_refresh_token Auth.first_refresh_token Auth.update_refresh_tokens
    Tokens.get_user_roles Tokens.present Tokens.build_token_response Tokens.create_access_token
    Tokens.create_refresh_token Tokens.new_refresh_token Tokens.hash_password Tokens.hash_token
    Tokens.make_otp Tokens.refresh_token_expiry Tokens.verification_token_expiry
    Tokens.verify_password Accounts.assign_role Accounts.new_user Accounts.new_verification register
    login verify_email first_row refresh_token Unseen
run-HasUniqueHashes_example =
    run-HasUniqueHashes database (rows_of-laws RefreshToken) crypto
      ((third_moment, refreshes (codes "r2")) ∷ []) logged_in.0
      (
        (λ r there e.
            apart (codes "r2") (codes "r3") refl
              (ap (λ (y : RefreshToken). y.token_hash) (sym (is_row r _ there)) ∙ e)),
        tt,
      )
      (one_row (new_refresh_token crypto second_moment (codes "u1")))

register-login_run :
    login database crypto second_moment address (codes "password") signed_up.0
    ≢ (start, ok no_tokens)
unfolding Http.◌>>=◌ Http.continue_with Http.read Http.write Http.guard Http.require Auth.first_user
    Auth.update_users Auth.insert_user Auth.first_role Auth.insert_user_role
    Auth.insert_verification Auth.first_verification Auth.update_verifications
    Auth.insert_refresh_token Auth.first_refresh_token Auth.update_refresh_tokens
    Tokens.get_user_roles Tokens.present Tokens.build_token_response Tokens.create_access_token
    Tokens.create_refresh_token Tokens.new_refresh_token Tokens.hash_password Tokens.hash_token
    Tokens.make_otp Tokens.refresh_token_expiry Tokens.verification_token_expiry
    Tokens.verify_password Accounts.assign_role Accounts.new_user Accounts.new_verification register
    login verify_email first_row IsNewToken
register-login_run =
    register-login database (rows_of-laws User) (rows_of-laws OneTimeToken) crypto crypto-laws
      first_moment request start signed_up.0 (registered_of signed_up.1)
      (λ r none_there. absurd none_there) refl second_moment start no_tokens

verify_email-login_example :
    is_refused (login database crypto third_moment address (codes "password") confirmed.0).1 ≡ false
unfolding Http.◌>>=◌ Http.continue_with Http.read Http.write Http.guard Http.require Auth.first_user
    Auth.update_users Auth.insert_user Auth.first_role Auth.insert_user_role
    Auth.insert_verification Auth.first_verification Auth.update_verifications
    Auth.insert_refresh_token Auth.first_refresh_token Auth.update_refresh_tokens
    Tokens.get_user_roles Tokens.present Tokens.build_token_response Tokens.create_access_token
    Tokens.create_refresh_token Tokens.new_refresh_token Tokens.hash_password Tokens.hash_token
    Tokens.make_otp Tokens.refresh_token_expiry Tokens.verification_token_expiry
    Tokens.verify_password Accounts.assign_role Accounts.new_user Accounts.new_verification register
    login verify_email first_row IsNewToken
verify_email-login_example =
    verify_email-login database (rows_of-laws User) (rows_of-laws OneTimeToken) crypto crypto-laws
      first_moment request start signed_up.0 confirmed.0 (registered_of signed_up.1)
      (λ r none_there. absurd none_there) refl second_moment (message_of confirmed.1) refl
      third_moment

-- The password is forgotten, and reset with the token that comes back.
abbrev asked : State database
asked = (forgot_password database crypto second_moment address logged_in.0).0

reset_password_ends_example :
    refresh_token database crypto last_moment
      (codes "r2")
      (reset_password database crypto third_moment (codes "o2") (codes "new password") asked).0
    ≢ (start, ok no_tokens)
unfolding Http.◌>>=◌ Http.continue_with Http.read Http.write Http.guard Http.require Auth.first_user
    Auth.update_users Auth.insert_user Auth.first_role Auth.insert_user_role
    Auth.insert_verification Auth.first_verification Auth.update_verifications
    Auth.insert_refresh_token Auth.first_refresh_token Auth.update_refresh_tokens
    Tokens.get_user_roles Tokens.present Tokens.build_token_response Tokens.create_access_token
    Tokens.create_refresh_token Tokens.new_refresh_token Tokens.hash_password Tokens.hash_token
    Tokens.make_otp Tokens.refresh_token_expiry Tokens.verification_token_expiry
    Tokens.verify_password Accounts.assign_role Accounts.new_user Accounts.new_verification register
    login verify_email first_row forgot_password reset_password Auth.insert_reset Auth.first_reset
    Auth.update_resets Passwords.reset_for Tokens.reset_token_expiry BelongsTo run
reset_password_ends_example =
    reset_password_ends database (rows_of-laws RefreshToken) crypto (codes "r2") (codes "u1") [] tt
      last_moment start no_tokens (rows_of-laws OneTimeToken) third_moment (codes "o2")
      (codes "new password") asked
      (reset_password database crypto third_moment (codes "o2") (codes "new password") asked).0
      (codes "Password reset successfully. Please log in again.")
      (λ r there by. ap (λ (y : OneTimeToken). y.user_id) (is_row r _ there))
      (λ r there by. ap (λ (y : RefreshToken). y.user_id) (is_row r _ there)) refl

-- The header with the access token of the login.
abbrev signed : Option Text
signed = bearer (tokens_of logged_in.1).access_token

abbrev current_of : Reply CurrentUser → CurrentUser
current_of (ok current) = current
current_of _ = record { user = new_user database crypto first_moment request; roles = [] }

abbrev current : CurrentUser
current = current_of (get_current_active_user database crypto third_moment signed logged_in.0).1

abbrev changed : State database × Reply Text
changed =
    change_password database crypto third_moment signed (codes "password") (codes "new password")
      logged_in.0

change_password_ends_run :
    refresh_token database crypto last_moment (codes "r2") changed.0 ≢ (start, ok no_tokens)
unfolding Http.◌>>=◌ Http.continue_with Http.read Http.write Http.guard Http.require Auth.first_user
    Auth.update_users Auth.insert_user Auth.first_role Auth.insert_user_role
    Auth.insert_verification Auth.first_verification Auth.update_verifications
    Auth.insert_refresh_token Auth.first_refresh_token Auth.update_refresh_tokens
    Tokens.get_user_roles Tokens.present Tokens.build_token_response Tokens.create_access_token
    Tokens.create_refresh_token Tokens.new_refresh_token Tokens.hash_password Tokens.hash_token
    Tokens.make_otp Tokens.refresh_token_expiry Tokens.verification_token_expiry
    Tokens.verify_password Accounts.assign_role Accounts.new_user Accounts.new_verification register
    login verify_email first_row BelongsTo run change_password get_current_active_user
    Access.get_current_user Access.bearer_token Access.payload_of Access.or_empty
    Tokens.decode_access_token decode_claims
change_password_ends_run =
    change_password_ends database (rows_of-laws RefreshToken) crypto (codes "r2") (codes "u1") [] tt
      last_moment start no_tokens third_moment signed (codes "password") (codes "new password")
      logged_in.0 changed.0 current (message_of changed.1) refl refl
      (λ r there by. ap (λ (y : RefreshToken). y.user_id) (is_row r _ there)) refl

login-me_example :
    (user : User) × (names : List (Option Text)) × In user confirmed.0.users
    × (user.email ≡ address)
    × (verify_password crypto (codes "password") user.hashed_password ≡ true)
    × (database.embedded_roles user.id confirmed.0.user_roles confirmed.0.roles ≡ some names)
    × (((me database crypto third_moment signed logged_in.0).1
          ≡ ok (
              profile_of (record {
                user = record user { last_login_at = some 200 };
                roles = present names;
              })))
        ⊎ ((database.users.first (user_of_id user.id) logged_in.0.users ≡ none)
            × ((me database crypto third_moment signed logged_in.0).1 ≡ failed)))
unfolding Http.◌>>=◌ Http.continue_with Http.read Http.write Http.guard Http.require Auth.first_user
    Auth.update_users Auth.insert_user Auth.first_role Auth.insert_user_role
    Auth.insert_verification Auth.first_verification Auth.update_verifications
    Auth.insert_refresh_token Auth.first_refresh_token Auth.update_refresh_tokens
    Tokens.get_user_roles Tokens.present Tokens.build_token_response Tokens.create_access_token
    Tokens.create_refresh_token Tokens.new_refresh_token Tokens.hash_password Tokens.hash_token
    Tokens.make_otp Tokens.refresh_token_expiry Tokens.verification_token_expiry
    Tokens.verify_password Accounts.assign_role Accounts.new_user Accounts.new_verification register
    login verify_email first_row HasKeys
login-me_example =
    login-me database (rows_of-laws User) crypto crypto-laws second_moment address
      (codes "password") confirmed.0 logged_in.0 (tokens_of logged_in.1)
      (
        (λ r q r_there q_there same. is_row r _ r_there ∙ sym (is_row q _ q_there)),
        λ r there. ap (λ (y : User). is_empty y.id) (is_row r _ there),
      )
      refl third_moment (omega arith)
