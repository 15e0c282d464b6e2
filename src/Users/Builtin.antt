-- ===== src/Users/Builtin.antt =====
-- The built-in roles stay.
use agentic_rag_backend.Base.{
  ◌≡◌, refl, sym, ◌∙◌, ap, true, false, not, Option, some, arith, Bool-cases, inl, inr,
}
use agentic_rag_backend.Base.Text.{Text, text_eq, text_eq_iff}
use agentic_rag_backend.Database.{TableLaws}
use agentic_rag_backend.Database.Only.{Only, first-Only}
use agentic_rag_backend.Http.Rules.{
  Leads, Implies, >>=-Leads, read_then-Leads, guard_then, write-Leads,
}
use agentic_rag_backend.Auth.Sender.{require_roles-Leads}
use agentic_rag_backend.Auth.{Role, Database, State, Crypto, Moment, first_role}
use agentic_rag_backend.Users.{role_of_id, is_builtin, delete_roles, admin, delete_role}

module _ (d : Database) (laws : TableLaws d.roles) (c : Crypto) (m : Moment)
    (header : Option Text) where
  -- A built-in role is not the one that passes the test.
  other_id :
      (role_id : Text) (r : Role) (s : State d) (row : Option Role)
      → ((p q : Role) → d.roles.Has p s.roles → d.roles.Has q s.roles → p.id ≡ q.id → p ≡ q)
      → d.roles.Has r s.roles
      → is_builtin (some r) ≡ true
      → d.roles.first (role_of_id role_id) s.roles ≡ some row
      → not (is_builtin row) ≡ true
      → text_eq r.id role_id ≡ false
  other_id role_id r s row unique there builtin found passed =
      elim (Bool-cases (text_eq r.id role_id)) [
        | inr other ↦ other
        | inl same ↦
            let id = (text_eq_iff r.id role_id).0 same in
            let only : Only d.roles (role_of_id role_id) r s.roles = record {
              there = there;
              passes = same;
              unique = λ q q_there by.
                  unique q r q_there there ((text_eq_iff q.id role_id).0 by ∙ sym id);
            } in
            let is = first-Only d.roles laws (role_of_id role_id) r s.roles row only found in
            absurd (ground (arith, passed, ap is_builtin is, builtin))
      ]

  -- Deleting a role, however the request ends, leaves the built-in roles where they are: those named
  -- admin and user. No two roles have one identifier.
  pub delete_role_keeps :
      (role_id : Text) (r : Role) (s : State d)
      → ((p q : Role) → d.roles.Has p s.roles → d.roles.Has q s.roles → p.id ≡ q.id → p ≡ q)
      → d.roles.Has r s.roles
      → is_builtin (some r) ≡ true
      → d.roles.Has r (delete_role d c m header role_id s).0.roles
  unfolding delete_role admin first_role delete_roles
  delete_role_keeps role_id r s unique there builtin =
      let P : State d → Type 0 = λ t. t.roles ≡ s.roles in
      let Q : State d → Type 0 = λ t. d.roles.Has r t.roles in
      let weaker : Implies P Q = λ t same. rw same there in
      let leads : Leads P (delete_role d c m header role_id) Q =
        >>=-Leads weaker (require_roles-Leads d P c _ m header) λ sender.
          read_then-Leads _ _ weaker λ row t same found.
            guard_then Q (not (is_builtin row)) _ _ _ t (weaker t same) λ passed.
              let differs =
                other_id role_id r s row unique there builtin (rw same at found) passed in
              (write-Leads weaker _ _ λ t' u same' e.
                  (laws.Has-delete (role_of_id role_id) t'.roles e r).1
                    (weaker t' same', differs)).after
                t same in
      leads.after s refl
