-- ===== src/Auth.antt =====
-- The state of the authentication: the tables of the database, and the services that the handlers
-- call (agent/auth_utils.py, agent/auth_router.py).
pub mod Tokens
pub mod Access
pub mod Accounts
pub mod Passwords
pub mod Sessions
pub mod Sender
pub mod Stable
pub mod Handlers
pub mod Spent
pub mod Unique
pub mod Ended
pub mod Issue
pub mod Signup
pub mod Bearer
use agentic_rag_backend.Base.{
  ℕ, ◌+◌, ◌*◌, ◌≡◌, Bool, true, false, Option, none, some, List, [], ◌∷◌, ◌<◌,
}
use mathlib.Core.Option
use agentic_rag_backend.Base.Text.{Text, text_eq}
use agentic_rag_backend.Database.{Table}
use agentic_rag_backend.Http.{Action, read, write}

pub record User : Type 0 where
  pub id : Text
  pub email : Text
  pub username : Option Text
  pub full_name : Option Text
  pub hashed_password : Text
  pub is_active : Bool
  pub is_verified : Bool
  pub created_at : ℕ
  pub last_login_at : Option ℕ

pub record RefreshToken : Type 0 where
  pub id : Text
  pub user_id : Text
  pub token_hash : Text
  pub expires_at : ℕ
  pub revoked : Bool

-- A row of `password_resets`, and one of `email_verifications`.
pub record OneTimeToken : Type 0 where
  pub id : Text
  pub user_id : Text
  pub token : Text
  pub expires_at : ℕ
  pub used : Bool

pub record Role : Type 0 where
  pub id : Text
  pub name : Text
  pub description : Option Text

pub record UserRole : Type 0 where
  pub user_id : Text
  pub role_id : Text

-- The tables. `embedded_roles user_id` is the selection `roles(name)` of the rows of `user_roles`
-- with that user: the name of each row's role, which can be missing.
pub record Database : Type 1 where
  pub users : Table User
  pub refresh_tokens : Table RefreshToken
  pub password_resets : Table OneTimeToken
  pub email_verifications : Table OneTimeToken
  pub roles : Table Role
  pub user_roles : Table UserRole
  pub embedded_roles : Text → user_roles.Store → roles.Store → Option (List (Option Text))

pub record State (d : Database) : Type 0 where
  pub users : d.users.Store
  pub refresh_tokens : d.refresh_tokens.Store
  pub password_resets : d.password_resets.Store
  pub email_verifications : d.email_verifications.Store
  pub roles : d.roles.Store
  pub user_roles : d.user_roles.Store

-- The payload of an access token; a token of another service can lack its subject and its roles.
pub record Claims : Type 0 where
  pub sub : Option Text
  pub email : Option Text
  pub roles : Option (List Text)
  pub exp : ℕ

pub data Decoded : Type 0 where
  valid : Claims → Decoded
  expired invalid : Decoded

-- bcrypt, SHA-256 and JWT, and the settings. Times are seconds; `checkpw` is `none` if it raises,
-- and `decode` takes the time of the call.
pub record Crypto : Type 0 where
  pub gensalt : Text → Text
  pub hashpw : Text → Text → Text
  pub checkpw : Text → Text → Option Bool
  pub sha256 : Text → Text
  pub encode : Text → Text → Claims → Text
  pub decode : Text → Text → Text → ℕ → Decoded
  pub jwt_secret : Text
  pub jwt_algorithm : Text
  pub access_token_expire_minutes : ℕ
  pub refresh_token_expire_days : ℕ

-- What the documentation of the three libraries says.
pub record CryptoLaws (c : Crypto) : Type 0 where
  pub checkpw-hashpw :
      (plain seed : Text) → c.checkpw plain (c.hashpw plain (c.gensalt seed)) ≡ some true
  pub decode-encode :
      (secret algorithm : Text) (claims : Claims) (now : ℕ)
      → now < claims.exp
      → c.decode secret algorithm (c.encode secret algorithm claims) now ≡ valid claims

-- The time of a request and what is drawn at random in it: the identifier of a new user, the
-- one-time token, the refresh token, the salt of a password, and the identifier that the database
-- gives to a row.
pub record Moment : Type 0 where
  pub now : ℕ
  pub uuid : Text
  pub otp : Text
  pub raw_refresh : Text
  pub salt : Text
  pub row_id : Text

module _ (d : Database) where
  abbrev pub Request : Type 0 → Type 0
  Request A = Action (State d) A

  unfoldable pub first_user : (User → Bool) → Request (Option User)
  first_user p = read (λ s. d.users.first p s.users)

  unfoldable pub update_users : (User → Bool) → (User → User) → Request (Unit {0})
  update_users p f =
      write λ s. Option.map (λ t. record s { users = t }) (d.users.update p f s.users)

  unfoldable pub insert_user : User → Request (Unit {0})
  insert_user x = write λ s. Option.map (λ t. record s { users = t }) (d.users.insert x s.users)

  unfoldable pub first_refresh_token : (RefreshToken → Bool) → Request (Option RefreshToken)
  first_refresh_token p = read (λ s. d.refresh_tokens.first p s.refresh_tokens)

  unfoldable pub update_refresh_tokens :
      (RefreshToken → Bool) → (RefreshToken → RefreshToken) → Request (Unit {0})
  update_refresh_tokens p f = write λ s.
      Option.map (λ t. record s { refresh_tokens = t })
        (d.refresh_tokens.update p f s.refresh_tokens)

  unfoldable pub insert_refresh_token : RefreshToken → Request (Unit {0})
  insert_refresh_token x = write λ s.
      Option.map (λ t. record s { refresh_tokens = t }) (d.refresh_tokens.insert x s.refresh_tokens)

  unfoldable pub first_reset : (OneTimeToken → Bool) → Request (Option OneTimeToken)
  first_reset p = read (λ s. d.password_resets.first p s.password_resets)

  unfoldable pub update_resets :
      (OneTimeToken → Bool) → (OneTimeToken → OneTimeToken) → Request (Unit {0})
  update_resets p f = write λ s.
      Option.map (λ t. record s { password_resets = t })
        (d.password_resets.update p f s.password_resets)

  unfoldable pub insert_reset : OneTimeToken → Request (Unit {0})
  insert_reset x = write λ s.
      Option.map (λ t. record s { password_resets = t })
        (d.password_resets.insert x s.password_resets)

  unfoldable pub first_verification : (OneTimeToken → Bool) → Request (Option OneTimeToken)
  first_verification p = read (λ s. d.email_verifications.first p s.email_verifications)

  unfoldable pub update_verifications :
      (OneTimeToken → Bool) → (OneTimeToken → OneTimeToken) → Request (Unit {0})
  update_verifications p f = write λ s.
      Option.map (λ t. record s { email_verifications = t })
        (d.email_verifications.update p f s.email_verifications)

  unfoldable pub insert_verification : OneTimeToken → Request (Unit {0})
  insert_verification x = write λ s.
      Option.map (λ t. record s { email_verifications = t })
        (d.email_verifications.insert x s.email_verifications)

  unfoldable pub first_role : (Role → Bool) → Request (Option Role)
  first_role p = read (λ s. d.roles.first p s.roles)

  unfoldable pub insert_user_role : UserRole → Request (Unit {0})
  insert_user_role x =
      write λ s. Option.map (λ t. record s { user_roles = t }) (d.user_roles.insert x s.user_roles)

-- The filters `.eq("id", id)`, `.eq("email", email)` and so on.
abbrev pub user_of_id : Text → User → Bool
user_of_id id r = text_eq r.id id

abbrev pub user_of_email : Text → User → Bool
user_of_email email r = text_eq r.email email

abbrev pub of_hash : Text → RefreshToken → Bool
of_hash hash r = text_eq r.token_hash hash

abbrev pub session_of_id : Text → RefreshToken → Bool
session_of_id id r = text_eq r.id id

abbrev pub of_user : Text → RefreshToken → Bool
of_user id r = text_eq r.user_id id

abbrev pub of_token : Text → OneTimeToken → Bool
of_token token r = text_eq r.token token

abbrev pub one_time_of_id : Text → OneTimeToken → Bool
one_time_of_id id r = text_eq r.id id

abbrev pub role_of_name : Text → Role → Bool
role_of_name name r = text_eq r.name name

-- `.update({"revoked": True})`
abbrev pub revoke : RefreshToken → RefreshToken
revoke r = record r { revoked = true }

-- `.update({"used": True})`
abbrev pub spend : OneTimeToken → OneTimeToken
spend r = record r { used = true }
