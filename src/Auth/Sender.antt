-- ===== src/Auth/Sender.antt =====
-- Finding out who sends a request changes nothing.
use agentic_rag_backend.Base.{Bool, Option, List}
use agentic_rag_backend.Base.Text.{Text}
use agentic_rag_backend.Http.Rules.{
  Leads, Implies, >>=-Leads, pure-Leads, refuse-Leads, guard-Leads, require-Leads, read-Leads,
}
use agentic_rag_backend.Auth.{
  User, Database, State, Crypto, Moment, Decoded, valid, expired, invalid, first_user,
}
use agentic_rag_backend.Auth.Access.{
  bearer_token, payload_of, get_current_user, get_current_active_user, require_roles,
}

module _ (d : Database) (P : State d → Type 0) where
  same : Implies P P
  same s h = h

  payload_of-Leads : (r : Decoded) → Leads P (payload_of d r) P
  unfolding payload_of
  payload_of-Leads (valid claims) = pure-Leads same _
  payload_of-Leads expired = refuse-Leads same _ _
  payload_of-Leads invalid = refuse-Leads same _ _

  first_user-Leads : (p : User → Bool) → Leads P (first_user d p) P
  unfolding first_user
  first_user-Leads p = read-Leads same _

  pub sender-Leads :
      (c : Crypto) (m : Moment) (header : Option Text)
      → Leads P (get_current_active_user d c m header) P
  unfolding get_current_active_user get_current_user bearer_token
  sender-Leads c m header =
      >>=-Leads same
        (>>=-Leads same (>>=-Leads same (guard-Leads same _ _ _) λ _. pure-Leads same _) λ token.
          >>=-Leads same (payload_of-Leads _) λ payload.
            >>=-Leads same (guard-Leads same _ _ _) λ _.
              >>=-Leads same (first_user-Leads _)
                λ row. >>=-Leads same (require-Leads same _ _ _) λ user. pure-Leads same _)
        λ current. >>=-Leads same (guard-Leads same _ _ _) λ _. pure-Leads same _

  pub require_roles-Leads :
      (c : Crypto) (roles : List Text) (m : Moment) (header : Option Text)
      → Leads P (require_roles d c roles m header) P
  unfolding require_roles
  require_roles-Leads c roles m header =
      >>=-Leads same (sender-Leads c m header)
        λ current. >>=-Leads same (guard-Leads same _ _ _) λ _. pure-Leads same _
