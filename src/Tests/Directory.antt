-- ===== src/Tests/Directory.antt =====
-- The theorems on the administration of users and roles, at a database with one administrator.
use agentic_rag_backend.Base.{
  ◌≡◌, ◌≢◌, ◌⊎◌, ◌↔◌, refl, sym, ◌∙◌, inl, true, Option, none, some, List, [], ◌∷◌,
}
use agentic_rag_backend.Base.Text.{Text, codes}
use agentic_rag_backend.Database.{In}
use agentic_rag_backend.Http
use agentic_rag_backend.Http.{Reply, ok}
use agentic_rag_backend.Auth
use agentic_rag_backend.Auth.{User, Role, UserRole, State, Moment}
use agentic_rag_backend.Auth.Tokens
use agentic_rag_backend.Auth.Access
use agentic_rag_backend.Auth.Bearer.{bearer}
use agentic_rag_backend.Users
use agentic_rag_backend.Users.{admin_name, is_builtin, UserUpdateRequest, update_user, delete_role}
use agentic_rag_backend.Users.Links.{Granted, update_user-Granted}
use agentic_rag_backend.Users.Builtin.{delete_role_keeps}
use agentic_rag_backend.Tests.Tables.{is_row, rows_of-laws, first_row}
use agentic_rag_backend.Tests.Accounts.{database, crypto, decode_claims}

abbrev moment : Moment
moment = record {
  now = 5;
  uuid = codes "u";
  otp = codes "o";
  raw_refresh = codes "r";
  salt = codes "s";
  row_id = codes "w";
}

abbrev user_role : Role
user_role = record { id = codes "1"; name = codes "user"; description = none }

abbrev directory : State database
directory = record {
  users =
      record {
        id = codes "a";
        email = codes "a@x";
        username = none;
        full_name = none;
        hashed_password = codes "password";
        is_active = true;
        is_verified = true;
        created_at = 1;
        last_login_at = none;
      }
      ∷ [];
  refresh_tokens = [];
  password_resets = [];
  email_verifications = [];
  roles = user_role ∷ [];
  user_roles =
      record { user_id = codes "a"; role_id = codes "2" }
      ∷ record { user_id = codes "b"; role_id = codes "2" }
      ∷ [];
}

-- The header of an administrator.
abbrev signed : Option Text
signed = bearer (Tokens.create_access_token crypto 1 (codes "a") (codes "a@x") (admin_name ∷ []))

-- The second name is none of a role.
abbrev names : List Text
names = codes "user" ∷ codes "ghost" ∷ []

abbrev changes : UserUpdateRequest
changes = record {
  full_name = some (codes "B");
  username = none;
  is_active = none;
  role_names = some names;
}

abbrev updated : State database × Reply Text
updated = update_user database crypto moment signed (codes "b") changes directory

links_run :
    updated.0.user_roles
    ≡ record { user_id = codes "b"; role_id = codes "1" }
      ∷ record { user_id = codes "a"; role_id = codes "2" }
      ∷ []
unfolding Http.◌>>=◌ Http.continue_with Http.read Http.write Http.guard Http.require Auth.first_user
    Auth.update_users Auth.first_role Auth.insert_user_role Tokens.create_access_token
    Tokens.decode_access_token Access.bearer_token Access.payload_of Access.or_empty
    Access.get_current_user Access.get_current_active_user Access.has_role Access.require_roles
    Users.admin Users.changes_user Users.revised_user Users.apply_updates Users.delete_user_roles
    Users.link_role Users.assign_roles Users.replace_roles update_user decode_claims first_row
links_run = refl

-- The link of the second user to the role that the first name finds.
abbrev new_link : UserRole
new_link = record { user_id = codes "b"; role_id = codes "1" }

update_user-Granted_example : In new_link updated.0.user_roles ↔ (
    (In new_link directory.user_roles × (new_link.user_id ≢ codes "b"))
    ⊎ Granted database (codes "b") names directory.roles new_link)
unfolding Http.◌>>=◌ Http.continue_with Http.read Http.write Http.guard Http.require Auth.first_user
    Auth.update_users Auth.first_role Auth.insert_user_role Tokens.create_access_token
    Tokens.decode_access_token Access.bearer_token Access.payload_of Access.or_empty
    Access.get_current_user Access.get_current_active_user Access.has_role Access.require_roles
    Users.admin Users.changes_user Users.revised_user Users.apply_updates Users.delete_user_roles
    Users.link_role Users.assign_roles Users.replace_roles update_user decode_claims first_row
update_user-Granted_example =
    update_user-Granted database (rows_of-laws UserRole) crypto moment signed (codes "b") changes
      names directory updated.0 (codes "User updated successfully") refl refl new_link

delete_role_keeps_example :
    In user_role (delete_role database crypto moment signed (codes "1") directory).0.roles
unfolding is_builtin
delete_role_keeps_example =
    delete_role_keeps database (rows_of-laws Role) crypto moment signed (codes "1") user_role
      directory
      (λ p q p_there q_there e. is_row p user_role p_there ∙ sym (is_row q user_role q_there))
      (inl refl) refl
