-- ===== src/Auth/Issue.antt =====
-- The tokens that a login and an exchange issue.
use agentic_rag_backend.Base.{
  ◌≡◌, ◌⊎◌, refl, false, Option, some, List, [], sym, ap, Option-cases, inl, inr,
}
use agentic_rag_backend.Base.Text.{Text}
use agentic_rag_backend.Http.{Reply, ok, failed, ◌>>=◌, continue_with, read, is_refused}
use agentic_rag_backend.Http.Inversion.{write-first}
use agentic_rag_backend.Http.Forward.{>>=-ok, >>=-failed, write-unrefused}
use agentic_rag_backend.Auth.{User, Database, State, Crypto, Moment, insert_refresh_token}
use agentic_rag_backend.Auth.Tokens.{
  TokenResponse, present, get_user_roles, build_token_response, create_access_token,
}

module _ (d : Database) where
  pub get_user_roles-cases :
      (user_id : Text) (s : State d)
      → (get_user_roles d user_id s ≡ (s, failed))
        ⊎ ((names : List (Option Text)) × (d.embedded_roles user_id s.user_roles s.roles
              ≡ some names)
            × (get_user_roles d user_id s ≡ (s, ok (present names))))
  unfolding get_user_roles ◌>>=◌ continue_with read
  get_user_roles-cases user_id s =
      elim (Option-cases (d.embedded_roles user_id s.user_roles s.roles)) [
        | inl e ↦ inl (rw (e, read) refl)
        | inr (names, e) ↦ inr (names, e, rw (e, read) refl)
      ]

abbrev access_token_of : Reply TokenResponse → Text
access_token_of (ok tokens) = tokens.access_token
access_token_of _ = []

module _ (d : Database) (c : Crypto) where
  pub build_token_response-unrefused :
      (m : Moment) (user : User) (s : State d)
      → is_refused (build_token_response d c m user s).1 ≡ false
  unfolding build_token_response insert_refresh_token is_refused
  build_token_response-unrefused m user s = elim (get_user_roles-cases d user.id s) [
    | inl e ↦ rw (>>=-failed (get_user_roles d user.id) _ s e) refl
    | inr (names, _, e) ↦
        rw (>>=-ok (get_user_roles d user.id) _ s e) (write-unrefused _ _ _ s λ t _. refl)
  ]

  -- The access token names the user and the roles.
  pub build_token_response-eq-ok :
      (m : Moment) (user : User) (s : State d) (s' : State d) (tokens : TokenResponse)
      → build_token_response d c m user s ≡ (s', ok tokens)
      → (names : List (Option Text)) × (d.embedded_roles user.id s.user_roles s.roles ≡ some names)
        × (tokens.access_token ≡ create_access_token c m.now user.id user.email (present names))
        × (s'.users ≡ s.users)
  unfolding build_token_response insert_refresh_token
  build_token_response-eq-ok m user s s' tokens h = elim (get_user_roles-cases d user.id s) [
    | inl e ↦ absurd (cc (h, >>=-failed (get_user_roles d user.id) _ s e))
    | inr (names, found, e) ↦
        let (t, _, end) = write-first _ _ _ s (rw (>>=-ok (get_user_roles d user.id) _ s e) at h) in
        (
          names,
          found,
          sym (ap (λ (p : State d × Reply TokenResponse). access_token_of p.1) end),
          sym (ap (λ (p : State d × Reply TokenResponse). p.0.users) end),
        )
  ]
