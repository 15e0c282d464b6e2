-- ===== src/Auth/Bearer.antt =====
-- The access token of a login names its user to the other handlers.
use agentic_rag_backend.Base.{
  ◌≡◌, ◌<◌, ◌+◌, ◌*◌, ◌⊎◌, refl, sym, ◌∙◌, ap, true, false, Option, none, some, List, ◌++◌, inl,
  inr, Option-cases,
}
use agentic_rag_backend.Base.Text.{Text, codes, is_empty, text_eq_iff, text_eq_refl}
use agentic_rag_backend.Database.{TableLaws}
use agentic_rag_backend.Database.Only.{Only, first-Only, update-Only}
use agentic_rag_backend.Http.{ok, failed, ◌>>=◌, continue_with, guard, require, read}
use agentic_rag_backend.Http.Inversion.{guard-first, require-first, read-first, write-first}
use agentic_rag_backend.Auth.{
  User, Database, State, Crypto, CryptoLaws, Claims, Moment, valid, first_user, update_users,
  user_of_id, user_of_email,
}
use agentic_rag_backend.Auth.Tokens.{
  TokenResponse, present, verify_password, create_access_token, decode_access_token,
  build_token_response,
}
use agentic_rag_backend.Auth.Issue.{build_token_response-eq-ok}
use agentic_rag_backend.Auth.Access.{
  CurrentUser, or_empty, bearer_token, payload_of, get_current_user, get_current_active_user, me,
  profile_of,
}
use agentic_rag_backend.Auth.Accounts.{login}

-- The header that carries a token.
abbrev pub bearer : Text → Option Text
bearer token = some (codes "Bearer " ++ token)

-- Each row has an identifier of its own, and none an empty one.
unfoldable pub HasKeys : (d : Database) → d.users.Store → Type 0
HasKeys d t =
    ((r q : User) → d.users.Has r t → d.users.Has q t → r.id ≡ q.id → r ≡ q)
    × ((r : User) → d.users.Has r t → is_empty r.id ≡ false)

module _ (d : Database) (laws : TableLaws d.users) (c : Crypto) (crypto : CryptoLaws c) where
  login-eq-ok :
      (m : Moment) (email password : Text) (s : State d) (s' : State d) (tokens : TokenResponse)
      → login d c m email password s ≡ (s', ok tokens)
      → (user : User) × (t : d.users.Store) × d.users.Has user s.users
        × (user.email ≡ email)
        × (verify_password c password user.hashed_password ≡ true)
        × (user.is_active ≡ true)
        × (d.users.update
              (user_of_id user.id)
              (λ r. record r { last_login_at = some m.now })
              s.users
            ≡ some t)
        × (build_token_response d c m user (record s { users = t }) ≡ (s', ok tokens))
  unfolding login first_user update_users
  login-eq-ok m email password s s' tokens e =
      let (row, found, e₁) = read-first _ _ s e in
      let (user, is, e₂) = require-first row _ _ _ s e₁ in
      let (verified, e₃) = guard-first _ _ _ _ s e₂ in
      let (active, e₄) = guard-first user.is_active _ _ _ s e₃ in
      let (_, e₅) = guard-first _ _ _ _ s e₄ in
      let (t, update, e₆) = write-first _ _ _ s e₅ in
      let (there, by_email) = laws.first_some (user_of_email email) s.users (found ∙ ap some is) in
      (user, t, there, (text_eq_iff user.email email).0 by_email, verified, active, update, e₆)

  get_current_user-cases :
      (m : Moment) (token : Text) (claims : Claims) (id : Text) (user : User) (s : State d)
      → decode_access_token c token m.now ≡ valid claims
      → claims.sub ≡ some id
      → is_empty id ≡ false
      → Only d.users (user_of_id id) user s.users
      → (get_current_user d c m (bearer token) s
          ≡ (s, ok (record { user = user; roles = or_empty claims.roles })))
        ⊎ ((d.users.first (user_of_id id) s.users ≡ none)
            × (get_current_user d c m (bearer token) s ≡ (s, failed)))
  unfolding get_current_user bearer_token payload_of first_user or_empty ◌>>=◌ continue_with guard
      require read
  get_current_user-cases m token claims id user s decoded sub nonempty only =
      elim (Option-cases (d.users.first (user_of_id id) s.users)) [
        | inl e ↦ inr (e, rw (decoded, sub, nonempty, e, read) refl)
        | inr (row, e) ↦
            let is = first-Only d.users laws (user_of_id id) user s.users row only e in
            inl (rw (decoded, sub, nonempty, e, read, is) refl)
      ]

  me-cases :
      (m : Moment) (header : Option Text) (current : CurrentUser) (s : State d) (Down : Type 0)
      → current.user.is_active ≡ true
      → (get_current_user d c m header s ≡ (s, ok current))
        ⊎ (Down × (get_current_user d c m header s ≡ (s, failed)))
      → ((me d c m header s).1 ≡ ok (profile_of current))
        ⊎ (Down × ((me d c m header s).1 ≡ failed))
  unfolding me get_current_active_user ◌>>=◌ continue_with guard
  me-cases m header current s Down active (inl e) = inl (rw (e, active) refl)
  me-cases m header current s Down active (inr (down, e)) = inr (down, rw e refl)

  -- After a login, the access token that it returned names the user with that address and password
  -- until it expires: `me` answers with the user's row, in which the login is noted, and with the
  -- names of the roles that the tables gave the user at the login; it fails only where the selection
  -- of that row does. Each user has an identifier that is not empty and no other's.
  pub login-me :
      (m : Moment) (email password : Text) (s : State d) (s' : State d) (tokens : TokenResponse)
      → HasKeys d s.users
      → login d c m email password s ≡ (s', ok tokens)
      → (later : Moment) → later.now < m.now + c.access_token_expire_minutes * 60
      → (user : User) × (names : List (Option Text)) × d.users.Has user s.users
        × (user.email ≡ email)
        × (verify_password c password user.hashed_password ≡ true)
        × (d.embedded_roles user.id s.user_roles s.roles ≡ some names)
        × (((me d c later (bearer tokens.access_token) s').1
              ≡ ok (
                  profile_of (record {
                    user = record user { last_login_at = some m.now };
                    roles = present names;
                  })))
            ⊎ ((d.users.first (user_of_id user.id) s'.users ≡ none)
                × ((me d c later (bearer tokens.access_token) s').1 ≡ failed)))
  unfolding HasKeys create_access_token decode_access_token or_empty
  login-me m email password s s' tokens (unique, nonempty) e later in_time =
      let (user, t, there, by_email, verified, active, update, issued) =
        login-eq-ok m email password s s' tokens e in
      let (names, found, token, kept) =
        build_token_response-eq-ok d c m user (record s { users = t }) s' tokens issued in
      let f : User → User = λ r. record r { last_login_at = some m.now } in
      let claims : Claims = record {
        sub = some user.id;
        email = some user.email;
        roles = some (present names);
        exp = m.now + c.access_token_expire_minutes * 60;
      } in
      let only : Only d.users (user_of_id user.id) user s.users = record {
        there = there;
        passes = text_eq_refl user.id;
        unique = λ r r_there by. unique r user r_there there ((text_eq_iff r.id user.id).0 by);
      } in
      let after =
        update-Only d.users laws (user_of_id user.id) (user_of_id user.id) f user s.users t
          (λ r. refl) only update in
      let after' : Only d.users (user_of_id user.id) (f user) s'.users =
        rw (sym kept, text_eq_refl user.id) at after in
      let decoded = crypto.decode-encode c.jwt_secret c.jwt_algorithm claims later.now in_time in
      (
        user,
        names,
        there,
        by_email,
        verified,
        found,
        me-cases later (bearer tokens.access_token) _ s' _ active (
            get_current_user-cases later tokens.access_token claims user.id (f user) s'
              (rw (sym token) at decoded) refl (nonempty user there) after'),
      )
