-- ===== src/Auth/Access.antt =====
-- agent/auth_deps.py: who sends a request, and what its roles allow; and `me` of
-- agent/auth_router.py.
use agentic_rag_backend.Base.{ℕ, Bool, not, Option, none, some, List, [], ◌++◌, drop, any}
use agentic_rag_backend.Base.Text.{Text, codes, text_eq, starts_with, is_empty, join}
use agentic_rag_backend.Http.{◌>>=◌, ◌>>◌, pure, refuse, guard, require}
use agentic_rag_backend.Auth.{
  User, Claims, Decoded, valid, expired, invalid, Database, Crypto, Moment, Request, first_user,
  user_of_id,
}
use agentic_rag_backend.Auth.Tokens.{decode_access_token}

-- The user's row, with the roles of the token.
pub record CurrentUser : Type 0 where
  pub user : User
  pub roles : List Text

-- `value or default`
unfoldable pub or_empty : {A : Type 0} → Option (List A) → List A
or_empty none = []
or_empty (some xs) = xs

module _ (d : Database) where
  -- The header is `none` if it is missing.
  unfoldable pub bearer_token : Option Text → Request d Text
  bearer_token header = do
    let auth = or_empty header
    guard (starts_with (codes "Bearer ") auth) 401 (codes "Missing or invalid Authorization header")
    pure (drop 7 auth)

  unfoldable pub payload_of : Decoded → Request d Claims
  payload_of (valid claims) = pure claims
  payload_of expired = refuse 401 (codes "Token expired")
  payload_of invalid = refuse 401 (codes "Invalid token")

module _ (d : Database) (c : Crypto) where
  unfoldable pub get_current_user : Moment → Option Text → Request d CurrentUser
  get_current_user m header = do
    token ← bearer_token d header
    payload ← payload_of d (decode_access_token c token m.now)
    let user_id = or_empty payload.sub
    guard (not (is_empty user_id)) 401 (codes "Invalid token payload")
    row ← first_user d (user_of_id user_id)
    user ← require row 401 (codes "User not found")
    pure (record { user = user; roles = or_empty payload.roles })

  unfoldable pub get_current_active_user : Moment → Option Text → Request d CurrentUser
  get_current_active_user m header = do
    current ← get_current_user m header
    guard current.user.is_active 403 (codes "Account is deactivated")
    pure current

  -- `any(r in user_roles for r in roles)`
  unfoldable pub has_role : List Text → List Text → Bool
  has_role user_roles roles = any (λ r. any (text_eq r) user_roles) roles

  unfoldable pub require_roles : List Text → Moment → Option Text → Request d CurrentUser
  require_roles roles m header = do
    current ← get_current_active_user m header
    guard (has_role current.roles roles) 403 (codes "Required role(s): " ++ join (codes ", ") roles)
    pure current

pub record Profile : Type 0 where
  pub id : Text
  pub email : Text
  pub username : Option Text
  pub full_name : Option Text
  pub is_verified : Bool
  pub roles : List Text
  pub created_at : ℕ
  pub last_login_at : Option ℕ

abbrev pub profile_of : CurrentUser → Profile
profile_of current = record {
  id = current.user.id;
  email = current.user.email;
  username = current.user.username;
  full_name = current.user.full_name;
  is_verified = current.user.is_verified;
  roles = current.roles;
  created_at = current.user.created_at;
  last_login_at = current.user.last_login_at;
}

unfoldable pub me : (d : Database) (c : Crypto) → Moment → Option Text → Request d Profile
me d c m header = do current ← get_current_active_user d c m header; pure (profile_of current)
