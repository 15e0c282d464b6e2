-- ===== src/Users/Links.antt =====
-- The roles of a user after an update that names some.
use agentic_rag_backend.Base.{
  ◌≡◌, ◌≢◌, ◌⊎◌, ◌↔◌, refl, ◌∙◌, ap, false, Option, none, some, List, [], ◌∷◌, arith, Bool-cases,
  if_elim, inl, inr,
}
use agentic_rag_backend.Base.Text.{Text, text_eq, text_eq_iff}
use agentic_rag_backend.Database.{TableLaws, In}
use agentic_rag_backend.Http.{Reply, ok, Action}
use agentic_rag_backend.Http.Inversion.{read-first, write-first, write-only, >>=-eq-ok}
use agentic_rag_backend.Http.Rules.{Leads, pure-Leads, write-Leads}
use agentic_rag_backend.Auth.Sender.{require_roles-Leads}
use agentic_rag_backend.Auth.Access.{CurrentUser}
use agentic_rag_backend.Auth.{
  Role, UserRole, Database, State, Crypto, Moment, first_role, insert_user_role, update_users,
  role_of_name,
}
use agentic_rag_backend.Users.{
  admin_name, UserUpdateRequest, link_of_user, link_role, assign_roles, replace_roles,
  delete_user_roles, apply_updates, changes_user, admin, update_user,
}

apart_text : (a b : Text) → a ≢ b → text_eq a b ≡ false
apart_text a b other = elim (Bool-cases (text_eq a b)) [
  | inl same ↦ absurd (other ((text_eq_iff a b).0 same))
  | inr no_match ↦ no_match
]

-- The link gives the user a role that one of the names finds.
unfoldable pub Granted : (d : Database) → Text → List Text → d.roles.Store → UserRole → Type 0
Granted d user_id names roles link =
    (name : Text) × In name names
    × (role : Role) × (d.roles.first (role_of_name name) roles ≡ some (some role))
    × (link ≡ record { user_id = user_id; role_id = role.id })

module _ (d : Database) (laws : TableLaws d.user_roles) where
  grant_further :
      (user_id name : Text) (names : List Text) (roles : d.roles.Store) (link : UserRole)
      → Granted d user_id names roles link
      → Granted d user_id (name ∷ names) roles link
  unfolding Granted
  grant_further user_id name names roles link (other, there, role, at, is) =
      (other, inr there, role, at, is)

  -- The link of one name, where it finds a role.
  link_role-Has :
      (user_id name : Text) (role : Option Role) (s s' : State d)
      → d.roles.first (role_of_name name) s.roles ≡ some role
      → link_role d user_id role s ≡ (s', ok tt)
      → (s'.roles ≡ s.roles)
        × ((link : UserRole)
            → d.user_roles.Has link s'.user_roles
              ↔ (d.user_roles.Has link s.user_roles ⊎ Granted d user_id (name ∷ []) s.roles link))
  unfolding link_role insert_user_role Granted
  link_role-Has user_id name none s s' found e =
      let same : s ≡ s' = ap (λ (q : State d × Reply (Unit {0})). q.0) e in
      rw (← same) (
        refl,
        λ link. (
          (λ there. inl there),
          λ known. elim known [
            | inl there ↦ there
            | inr (other, inl is, role, at, _) ↦
                let at_name : d.roles.first (role_of_name name) s.roles ≡ some (some role) =
                  rw is at at in
                absurd (cc)
            | inr (other, inr nowhere, _, _, _) ↦ absurd nowhere
          ],
        ),
      )
  link_role-Has user_id name (some role) s s' found e =
      let (t, wrote, same) = write-only _ _ s e in
      let x : UserRole = record { user_id = user_id; role_id = role.id } in
      rw (← same) (
        refl,
        λ link. (
          (λ there. elim ((laws.Has-insert x s.user_roles wrote link).0 there) [
            | inl old ↦ inl old
            | inr new ↦ inr (name, inl refl, role, found, new)
          ]),
          λ known. (laws.Has-insert x s.user_roles wrote link).1 (elim known [
            | inl old ↦ inl old
            | inr (other, inl is, found_role, at, new) ↦
                let at_name : d.roles.first (role_of_name name) s.roles ≡ some (some found_role) =
                  rw is at at in
                let one : found_role ≡ role = cc in
                inr (new ∙ ap (λ (r : Role). record { user_id = user_id; role_id = r.id }) one)
            | inr (other, inr nowhere, _, _, _) ↦ absurd nowhere
          ]),
        ),
      )

  assign_roles-Has :
      (user_id : Text) (names : List Text) (s s' : State d)
      → assign_roles d user_id names s ≡ (s', ok tt)
      → (link : UserRole)
      → d.user_roles.Has link s'.user_roles
        ↔ (d.user_roles.Has link s.user_roles ⊎ Granted d user_id names s.roles link)
  unfolding assign_roles first_role Granted
  assign_roles-Has user_id [] s s' e link =
      let same : s ≡ s' = ap (λ (q : State d × Reply (Unit {0})). q.0) e in
      rw (← same) (
        (λ there. inl there),
        λ known. elim known [ inl there ↦ there | inr (other, nowhere, _, _, _) ↦ absurd nowhere ],
      )
  assign_roles-Has user_id (name ∷ names) s s' e link =
      let (role, found, e₁) = read-first _ _ s e in
      let (_, s₁, linked, e₂) = >>=-eq-ok _ _ s e₁ in
      let (roles, one) = link_role-Has user_id name role s s₁ found linked in
      let rest = rw roles at (assign_roles-Has user_id names s₁ s' e₂ link) in
      (
        (λ there. elim (rest.0 there) [
          | inr later ↦ inr (grant_further user_id name names s.roles link later)
          | inl was ↦ elim ((one link).0 was) [
            | inl old ↦ inl old
            | inr (other, inl is, given_role, at, new) ↦ inr (other, inl is, given_role, at, new)
            | inr (other, inr nowhere, _, _, _) ↦ absurd nowhere
          ]
        ]),
        λ known. rest.1 (elim known [
          | inl old ↦ inl ((one link).1 (inl old))
          | inr (other, inl is, given_role, at, new) ↦
              inl ((one link).1 (inr (other, inl is, given_role, at, new)))
          | inr (other, inr later, given_role, at, new) ↦ inr (other, later, given_role, at, new)
        ]),
      )

  replace_roles-Has :
      (user_id : Text) (names : List Text) (s s' : State d)
      → replace_roles d user_id (some names) s ≡ (s', ok tt)
      → (link : UserRole)
      → d.user_roles.Has link s'.user_roles ↔ (
          (d.user_roles.Has link s.user_roles × (text_eq link.user_id user_id ≡ false))
          ⊎ Granted d user_id names s.roles link)
  unfolding replace_roles delete_user_roles
  replace_roles-Has user_id names s s' e link =
      let (t, gone, e₁) = write-first _ _ _ s e in
      let left = laws.Has-delete (link_of_user user_id) s.user_roles gone link in
      let added = assign_roles-Has user_id names (record s { user_roles = t }) s' e₁ link in
      (
        (λ there. elim (added.0 there) [ inl was ↦ inl (left.0 was) | inr new ↦ inr new ]),
        λ known. added.1 (elim known [ inl was ↦ inl (left.1 was) | inr new ↦ inr new ]),
      )

  -- Finding the sender and updating the user leave the roles alone.
  Kept : State d → State d → Type 0
  Kept s t = (t.user_roles ≡ s.user_roles) × (t.roles ≡ s.roles)

  apply_updates-Leads :
      (s : State d) (user_id : Text) (req : UserUpdateRequest)
      → Leads (Kept s) (apply_updates d user_id req) (Kept s)
  unfolding apply_updates update_users Kept
  apply_updates-Leads s user_id req =
      if_elim {A = Action (State d) (Unit {0})} (λ r. Leads (Kept s) r (Kept s)) (changes_user req)
        (λ _. write-Leads (λ t h. h) _ _ λ t u h e. h) (λ _. pure-Leads (λ t h. h) _)

  -- What an update that ends well, and names roles, leaves of the links between users and roles:
  -- those of other users, and for the user one for each role that one of the names finds.
  pub update_user-Granted :
      (c : Crypto) (m : Moment) (header : Option Text) (user_id : Text) (req : UserUpdateRequest)
      (names : List Text) (s s' : State d) (message : Text)
      → req.role_names ≡ some names
      → update_user d c m header user_id req s ≡ (s', ok message)
      → (link : UserRole)
      → d.user_roles.Has link s'.user_roles ↔ (
          (d.user_roles.Has link s.user_roles × (link.user_id ≢ user_id))
          ⊎ Granted d user_id names s.roles link)
  unfolding update_user admin Kept
  update_user-Granted c m header user_id req names s s' message named e link =
      let (sender, s₁, asked, e₁) = >>=-eq-ok _ _ s e in
      let (_, s₂, wrote, e₂) = >>=-eq-ok _ _ s₁ e₁ in
      let (_, s₃, replaced, e₃) = >>=-eq-ok _ _ s₂ e₂ in
      let kept₁ : Kept s s₁ =
        rw (ap (λ (q : State d × Reply CurrentUser). q.0) asked) at
          ((require_roles-Leads d (Kept s) c (admin_name ∷ []) m header).after s (refl, refl)) in
      let (links, roles) : Kept s s₂ =
        rw (ap (λ (q : State d × Reply (Unit {0})). q.0) wrote) at
          ((apply_updates-Leads s user_id req).after s₁ kept₁) in
      let same : s₃.user_roles ≡ s'.user_roles =
        ap (λ (q : State d × Reply Text). q.0.user_roles) e₃ in
      let exact = replace_roles-Has user_id names s₂ s₃ (rw named at replaced) link in
      (
        (λ there. elim (exact.0 (rw (← same) at there)) [
          | inl (was, other) ↦ inl (
            rw links at was,
            λ own. absurd (ground (arith, other, text_eq_iff link.user_id user_id)),
          )
          | inr new ↦ inr (rw roles at new)
        ]),
        λ known. rw same at (
            exact.1 (elim known [
              | inl (was, other) ↦ inl (rw (← links) at was, apart_text link.user_id user_id other)
              | inr new ↦ inr (rw (← roles) at new)
            ])),
      )
