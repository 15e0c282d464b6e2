-- ===== src/Users.antt =====
-- agent/users_router.py: the administration of users and roles, over the tables of the
-- authentication. A header is the one named Authorization.
pub mod Links
pub mod Builtin
use agentic_rag_backend.Base.{
  ℕ, Bool, true, false, ◌&&◌, ◌||◌, not, Option, none, some, List, [], ◌∷◌, ◌++◌, leb, length, any,
  if◌then◌else◌,
}
use mathlib.Core.Option
use agentic_rag_backend.Base.Text.{Text, codes, text_eq}
use agentic_rag_backend.Http.{◌>>=◌, ◌>>◌, pure, guard, require, write}
use agentic_rag_backend.Auth.{
  User, Role, UserRole, Database, State, Crypto, Moment, Request, first_user, insert_user,
  update_users, first_role, insert_user_role, user_of_id, user_of_email, role_of_name,
}
use agentic_rag_backend.Auth.Tokens.{hash_password, get_user_roles}
use agentic_rag_backend.Auth.Access.{
  CurrentUser, get_current_active_user, require_roles, Profile, profile_of,
}
use agentic_rag_backend.Auth.Accounts.{is_none, long_enough}

pub record UserCreateRequest : Type 0 where
  pub email : Text
  pub password : Text
  pub username : Option Text
  pub full_name : Option Text
  pub is_active : Bool
  pub is_verified : Bool
  pub role_names : List Text

pub record UserUpdateRequest : Type 0 where
  pub full_name : Option Text
  pub username : Option Text
  pub is_active : Option Bool
  pub role_names : Option (List Text)

pub record RoleCreateRequest : Type 0 where
  pub name : Text
  pub description : Option Text

abbrev pub admin_name : Text
admin_name = codes "admin"

-- The rows that a filter names.
abbrev pub link_of_user : Text → UserRole → Bool
link_of_user user_id r = text_eq r.user_id user_id

abbrev pub role_of_id : Text → Role → Bool
role_of_id id r = text_eq r.id id

-- `role_res.data[0]["name"] in ("admin", "user")`
unfoldable pub is_builtin : Option Role → Bool
is_builtin none = false
is_builtin (some r) = text_eq r.name admin_name || text_eq r.name (codes "user")

-- `new` where it is given
abbrev pub given : {A : Type 0} → Option A → A → A
given none old = old
given (some new) old = new

abbrev pub given_text : Option Text → Option Text → Option Text
given_text none old = old
given_text (some new) old = some new

-- The updates of `update_user`, and whether there are any.
unfoldable pub revised_user : UserUpdateRequest → User → User
revised_user req r = record r {
  full_name = given_text req.full_name r.full_name;
  username = given_text req.username r.username;
  is_active = given req.is_active r.is_active;
}

unfoldable pub changes_user : UserUpdateRequest → Bool
changes_user req = not (is_none req.full_name && is_none req.username && is_none req.is_active)

module _ (d : Database) where
  unfoldable pub delete_users : (User → Bool) → Request d (Unit {0})
  delete_users p = write λ s. Option.map (λ t. record s { users = t }) (d.users.delete p s.users)

  unfoldable pub delete_user_roles : (UserRole → Bool) → Request d (Unit {0})
  delete_user_roles p =
      write λ s. Option.map (λ t. record s { user_roles = t }) (d.user_roles.delete p s.user_roles)

  unfoldable pub insert_role : Role → Request d (Unit {0})
  insert_role x = write λ s. Option.map (λ t. record s { roles = t }) (d.roles.insert x s.roles)

  unfoldable pub delete_roles : (Role → Bool) → Request d (Unit {0})
  delete_roles p = write λ s. Option.map (λ t. record s { roles = t }) (d.roles.delete p s.roles)

  -- A row for the role, if there is one.
  unfoldable pub link_role : Text → Option Role → Request d (Unit {0})
  link_role user_id none = pure tt
  link_role user_id (some role) =
      insert_user_role d (record { user_id = user_id; role_id = role.id })

  -- The loop over the names of roles; a name without a role is passed over.
  unfoldable pub assign_roles : Text → List Text → Request d (Unit {0})
  assign_roles user_id [] = pure tt
  assign_roles user_id (name ∷ names) = do
    role ← first_role d (role_of_name name)
    link_role user_id role
    assign_roles user_id names

  -- Replacing the roles, where the request names some.
  unfoldable pub replace_roles : Text → Option (List Text) → Request d (Unit {0})
  replace_roles user_id none = pure tt
  replace_roles user_id (some names) = do
    delete_user_roles (link_of_user user_id)
    assign_roles user_id names

  unfoldable pub apply_updates : Text → UserUpdateRequest → Request d (Unit {0})
  apply_updates user_id req =
      if changes_user req then update_users d (user_of_id user_id) (revised_user req) else pure tt

  module _ (c : Crypto) (m : Moment) (header : Option Text) where
    -- `_admin`
    unfoldable pub admin : Request d CurrentUser
    admin = require_roles d c (admin_name ∷ []) m header

    unfoldable pub created_user : UserCreateRequest → User
    created_user req = record {
      id = m.uuid;
      email = req.email;
      username = req.username;
      full_name = req.full_name;
      hashed_password = hash_password c m req.password;
      is_active = req.is_active;
      is_verified = req.is_verified;
      created_at = m.now;
      last_login_at = none;
    }

    -- The identifier of the new user.
    unfoldable pub create_user : UserCreateRequest → Request d Text
    create_user req = do
      sender ← admin
      guard (long_enough req.password) 422 []
      existing ← first_user d (user_of_email req.email)
      guard (is_none existing) 409 (codes "Email already registered")
      insert_user d (created_user req)
      assign_roles m.uuid req.role_names
      pure m.uuid

    unfoldable pub get_user : Text → Request d Profile
    get_user user_id = do
      sender ← get_current_active_user d c m header
      guard (text_eq sender.user.id user_id || any (text_eq admin_name) sender.roles) 403
          (codes "Access denied")
      row ← first_user d (user_of_id user_id)
      user ← require row 404 (codes "User not found")
      roles ← get_user_roles d user_id
      pure (profile_of (record { user = user; roles = roles }))

    unfoldable pub update_user : Text → UserUpdateRequest → Request d Text
    update_user user_id req = do
      sender ← admin
      apply_updates user_id req
      replace_roles user_id req.role_names
      pure (codes "User updated successfully")

    unfoldable pub delete_user : Text → Request d (Unit {0})
    delete_user user_id = do sender ← admin; delete_users (user_of_id user_id)

    -- The identifier of the new role.
    unfoldable pub create_role : RoleCreateRequest → Request d Text
    create_role req = do
      sender ← admin
      guard (leb 2 (length req.name)) 422 []
      existing ← first_role d (role_of_name req.name)
      guard (is_none existing) 409 (codes "Role '" ++ (req.name ++ codes "' already exists"))
      insert_role (record { id = m.uuid; name = req.name; description = req.description })
      pure m.uuid

    unfoldable pub delete_role : Text → Request d (Unit {0})
    delete_role role_id = do
      sender ← admin
      row ← first_role d (role_of_id role_id)
      guard (not (is_builtin row)) 400 (codes "Cannot delete a built-in role")
      delete_roles (role_of_id role_id)
