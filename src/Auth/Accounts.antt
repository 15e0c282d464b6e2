-- ===== src/Auth/Accounts.antt =====
-- agent/auth_router.py: `register`, `login`, `verify_email`, `resend_verification`.
use agentic_rag_backend.Base.{
  Bool, true, false, not, Option, none, some, [], ltb, leb, length, if◌then◌else◌,
}
use agentic_rag_backend.Base.Text.{Text, codes}
use agentic_rag_backend.Http.{◌>>=◌, ◌>>◌, pure, guard, require}
use agentic_rag_backend.Auth.{
  User, OneTimeToken, Role, Database, Crypto, Moment, Request, first_user, insert_user,
  update_users, first_role, insert_user_role, first_verification, insert_verification,
  update_verifications, user_of_id, user_of_email, of_token, one_time_of_id, role_of_name, spend,
}
use agentic_rag_backend.Auth.Tokens.{
  TokenResponse, hash_password, verify_password, make_otp, verification_token_expiry,
  build_token_response,
}

pub record RegisterRequest : Type 0 where
  pub email : Text
  pub password : Text
  pub username : Option Text
  pub full_name : Option Text

pub record Registered : Type 0 where
  pub message : Text
  pub user_id : Text
  pub verification_token : Text

abbrev pub is_none : {A : Type 0} → Option A → Bool
is_none none = true
is_none (some _) = false

-- The check of a body with a password of at least eight characters. The text of its refusal is
-- pydantic's and is left empty.
abbrev pub long_enough : Text → Bool
long_enough password = leb 8 (length password)

-- The default role, if there is one.
unfoldable pub assign_role : (d : Database) → Text → Option Role → Request d (Unit {0})
assign_role d user_id none = pure tt
assign_role d user_id (some role) =
    insert_user_role d (record { user_id = user_id; role_id = role.id })

abbrev pub resent : Text
resent = codes "If that email exists and is unverified, a new token has been sent."

module _ (d : Database) (c : Crypto) where
  -- The row of a new user.
  unfoldable pub new_user : Moment → RegisterRequest → User
  new_user m req = record {
    id = m.uuid;
    email = req.email;
    username = req.username;
    full_name = req.full_name;
    hashed_password = hash_password c m req.password;
    is_active = true;
    is_verified = false;
    created_at = m.now;
    last_login_at = none;
  }

  unfoldable pub new_verification : Moment → Text → OneTimeToken
  new_verification m user_id = record {
    id = m.row_id;
    user_id = user_id;
    token = make_otp c m;
    expires_at = verification_token_expiry m;
    used = false;
  }

  unfoldable pub register : Moment → RegisterRequest → Request d Registered
  register m req = do
    guard (long_enough req.password) 422 []
    existing ← first_user d (user_of_email req.email)
    guard (is_none existing) 409 (codes "Email already registered")
    insert_user d (new_user m req)
    role ← first_role d (role_of_name (codes "user"))
    assign_role d m.uuid role
    insert_verification d (new_verification m m.uuid)
    pure (record {
      message = codes "Registration successful. Please verify your email.";
      user_id = m.uuid;
      verification_token = make_otp c m;
    })

  unfoldable pub login : Moment → Text → Text → Request d TokenResponse
  login m email password = do
    row ← first_user d (user_of_email email)
    user ← require row 401 (codes "Invalid email or password")
    guard (verify_password c password user.hashed_password) 401 (codes "Invalid email or password")
    guard user.is_active 403 (codes "Account deactivated")
    guard user.is_verified 403 (codes "Email not verified. Check your inbox.")
    update_users d (user_of_id user.id) (λ r. record r { last_login_at = some m.now })
    build_token_response d c m user

  unfoldable pub verify_email : Moment → Text → Request d Text
  verify_email m token = do
    row ← first_verification d (of_token token)
    stored ← require row 400 (codes "Invalid verification token")
    guard (not stored.used) 400 (codes "Token already used")
    guard (not (ltb stored.expires_at m.now)) 400 (codes "Verification token expired")
    update_users d (user_of_id stored.user_id) (λ r. record r { is_verified = true })
    update_verifications d (one_time_of_id stored.id) spend
    pure (codes "Email verified successfully. You can now log in.")

  -- The message, and the token if there is one. A user that is verified already gets none.
  unfoldable pub resend_to : Moment → Option User → Request d (Text × Option Text)
  resend_to m none = pure (resent, none)
  resend_to m (some user) =
      if user.is_verified
      then pure (codes "Email is already verified.", none)
      else (insert_verification d (new_verification m user.id)
          >> pure (resent, some (make_otp c m)))

  unfoldable pub resend_verification : Moment → Text → Request d (Text × Option Text)
  resend_verification m email = do row ← first_user d (user_of_email email); resend_to m row
