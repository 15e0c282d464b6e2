-- ===== src/Auth/Signup.antt =====
-- From the registration to the first login.
use agentic_rag_backend.Base.{
  ◌≡◌, ◌≢◌, refl, sym, [], ◌∙◌, true, false, Option, none, some, arith, ap,
}
use agentic_rag_backend.Base.Text.{Text, text_eq_iff, text_eq_refl}
use agentic_rag_backend.Database.{TableLaws}
use agentic_rag_backend.Database.Only.{Only, insert-Only, first-Only, update-Only}
use agentic_rag_backend.Http.{Reply, ok, Action, ◌>>=◌, guard, require, read, write, is_refused}
use agentic_rag_backend.Http.Inversion.{guard-first, require-first, read-first, write-first}
use agentic_rag_backend.Http.Forward.{
  guard-unrefused, require-unrefused, read-unrefused, write-unrefused,
}
use agentic_rag_backend.Auth.{
  User, OneTimeToken, Role, Database, State, Crypto, CryptoLaws, Moment, Request, first_user,
  insert_user, update_users, first_role, insert_user_role, first_verification, insert_verification,
  update_verifications, user_of_email, of_token, user_of_id,
}
use agentic_rag_backend.Auth.Tokens.{TokenResponse, hash_password, verify_password, make_otp}
use agentic_rag_backend.Auth.Issue.{build_token_response-unrefused}
use agentic_rag_backend.Auth.Accounts.{
  RegisterRequest, Registered, is_none, assign_role, new_user, new_verification, register, login,
  verify_email,
}

module _ (d : Database) where
  -- No row has the token.
  unfoldable pub IsNewToken : Text → d.email_verifications.Store → Type 0
  IsNewToken token t = (r : OneTimeToken) → d.email_verifications.Has r t → r.token ≢ token

  assign_role-first :
      {A : Type 0} (user_id : Text) (role : Option Role) (f : Unit {0} → Request d A) (s : State d)
      {s' : State d} {x : A}
      → (assign_role d user_id role >>= f) s ≡ (s', ok x)
      → (t : d.user_roles.Store) × (f tt (record s { user_roles = t }) ≡ (s', ok x))
  unfolding assign_role ◌>>=◌ agentic_rag_backend.Http.continue_with insert_user_role
  assign_role-first user_id none f s h = (s.user_roles, h)
  assign_role-first user_id (some role) f s h =
      let (t, _, rest) = write-first _ _ f s h in (t, rest)

abbrev verification_of : Reply Registered → Text
verification_of (ok r) = r.verification_token
verification_of _ = []

is_none→none : {A : Type 0} (o : Option A) → is_none o ≡ true → o ≡ none
is_none→none none h = refl
is_none→none (some a) h = absurd (cc)

module _ (d : Database) (users : TableLaws d.users) (tokens : TableLaws d.email_verifications)
    (c : Crypto) (laws : CryptoLaws c) where
  -- What a registration leaves behind.
  register-Only :
      (m : Moment) (req : RegisterRequest) (s : State d) (s₁ : State d) (r : Registered)
      → IsNewToken d m.otp s.email_verifications
      → register d c m req s ≡ (s₁, ok r)
      → (r.verification_token ≡ m.otp)
        × Only d.users (user_of_email req.email) (new_user d c m req) s₁.users
        × Only d.email_verifications
            (of_token m.otp)
            (new_verification d c m m.uuid)
            s₁.email_verifications
  unfolding register first_user insert_user first_role insert_verification IsNewToken new_user
      new_verification make_otp
  register-Only m req s s₁ r fresh e =
      let (_, e₁) = guard-first _ _ _ _ s e in
      let (existing, found, e₂) = read-first _ _ s e₁ in
      let (nobody, e₃) = guard-first (is_none existing) _ _ _ s e₂ in
      let (t, inserted, e₄) = write-first _ _ _ s e₃ in
      let (role, _, e₅) = read-first _ _ (record s { users = t }) e₄ in
      let (links, e₆) = assign_role-first d m.uuid role _ (record s { users = t }) e₅ in
      let (v, sent, e₇) = write-first _ _ _ (record s { users = t; user_roles = links }) e₆ in
      let user =
        insert-Only d.users users (user_of_email req.email) (new_user d c m req) s.users t
          (users.first_none (user_of_email req.email) s.users
            (found ∙ ap some (is_none→none existing nobody)))
          (text_eq_refl req.email) inserted in
      let row =
        insert-Only d.email_verifications tokens (of_token m.otp) (new_verification d c m m.uuid)
          s.email_verifications v
          (λ r there. ground (arith, fresh r there, text_eq_iff r.token m.otp)) (text_eq_refl m.otp)
          sent in
      (
        sym (ap (λ (p : State d × Reply Registered). verification_of p.1) e₇),
        rw (ap (λ (p : State d × Reply Registered). p.0.users) e₇) at user,
        rw (ap (λ (p : State d × Reply Registered). p.0.email_verifications) e₇) at row,
      )

  -- Between a registration, whose verification token is new, and the verification of the address,
  -- the new user does not log in.
  pub register-login :
      (m : Moment) (req : RegisterRequest) (s : State d) (s₁ : State d) (r : Registered)
      → IsNewToken d m.otp s.email_verifications
      → register d c m req s ≡ (s₁, ok r)
      → (later : Moment) (end : State d) (response : TokenResponse)
      → login d c later req.email req.password s₁ ≢ (end, ok response)
  unfolding login first_user new_user
  register-login m req s s₁ r fresh registered later end response e =
      let (_, only, _) = register-Only m req s s₁ r fresh registered in
      let (row, found, e₁) = read-first _ _ s₁ e in
      let (user, is, e₂) = require-first row _ _ _ s₁ e₁ in
      let (_, e₃) = guard-first _ _ _ _ s₁ e₂ in
      let (_, e₄) = guard-first _ _ _ _ s₁ e₃ in
      let (verified, _) = guard-first user.is_verified _ _ _ s₁ e₄ in
      let same : row ≡ some (new_user d c m req) =
        first-Only d.users users (user_of_email req.email) (new_user d c m req) s₁.users row only
          found in
      let same' : user ≡ new_user d c m req = cc in
      absurd (ground (arith, verified, ap (λ (x : User). x.is_verified) same'))

  abbrev set_verified : User → User
  set_verified u = record u { is_verified = true }

  verify_email-eq-ok :
      (m : Moment) (token : Text) (s : State d) (s' : State d) (message : Text)
      → verify_email d c m token s ≡ (s', ok message)
      → (stored : OneTimeToken) × (d.email_verifications.first
            (of_token token)
            s.email_verifications
          ≡ some (some stored))
        × (d.users.update (user_of_id stored.user_id) set_verified s.users ≡ some s'.users)
  unfolding verify_email first_verification update_users update_verifications
  verify_email-eq-ok m token s s' message e =
      let (row, found, e₁) = read-first _ _ s e in
      let (stored, is, e₂) = require-first row _ _ _ s e₁ in
      let (_, e₃) = guard-first _ _ _ _ s e₂ in
      let (_, e₄) = guard-first _ _ _ _ s e₃ in
      let (t, update, e₅) = write-first _ _ _ s e₄ in
      let (v, _, e₆) = write-first _ _ _ (record s { users = t }) e₅ in
      (stored, found ∙ ap some is, update ∙ ap (λ (p : State d × Reply Text). some p.0.users) e₆)

  -- What a verification of the new address leaves behind.
  verify_email-Only :
      (m : Moment) (req : RegisterRequest) (s : State d) (s₁ : State d) (s₂ : State d)
      (r : Registered)
      → IsNewToken d m.otp s.email_verifications
      → register d c m req s ≡ (s₁, ok r)
      → (later : Moment) (message : Text)
      → verify_email d c later r.verification_token s₁ ≡ (s₂, ok message)
      → Only d.users
          (user_of_email req.email)
          (record (new_user d c m req) { is_verified = true })
          s₂.users
  unfolding new_user new_verification
  verify_email-Only m req s s₁ s₂ r fresh registered later message e =
      let (token, only, row) = register-Only m req s s₁ r fresh registered in
      let (stored, found, update) = verify_email-eq-ok later m.otp s₁ s₂ message (rw token at e) in
      let is : some stored ≡ some (new_verification d c m m.uuid) =
        first-Only d.email_verifications tokens (of_token m.otp) (new_verification d c m m.uuid)
          s₁.email_verifications (some stored) row found in
      let own : m.uuid ≡ stored.user_id = ground arith in
      let hit = (text_eq_iff m.uuid stored.user_id).1 own in
      let verified =
        update-Only d.users users (user_of_email req.email) (user_of_id stored.user_id) set_verified
          (new_user d c m req) s₁.users s₂.users (λ u. refl) only update in
      rw hit at verified

  -- After a registration, whose verification token is new, and the verification of the address, a
  -- login with the address and the password of the registration is not refused.
  pub verify_email-login :
      (m : Moment) (req : RegisterRequest) (s : State d) (s₁ : State d) (s₂ : State d)
      (r : Registered)
      → IsNewToken d m.otp s.email_verifications
      → register d c m req s ≡ (s₁, ok r)
      → (later : Moment) (message : Text)
      → verify_email d c later r.verification_token s₁ ≡ (s₂, ok message)
      → (last : Moment) → is_refused (login d c last req.email req.password s₂).1 ≡ false
  unfolding login first_user update_users new_user hash_password verify_password
  verify_email-login m req s s₁ s₂ r fresh registered later message e last =
      let only = verify_email-Only m req s s₁ s₂ r fresh registered later message e in
      let user : User = set_verified (new_user d c m req) in
      read-unrefused _ _ s₂ λ row found.
        require-unrefused row _ _ _ s₂ {a = user}
          (first-Only d.users users (user_of_email req.email) user s₂.users row only found)
          (guard-unrefused _ _ _ _ s₂
            (rw (verify_password, laws.checkpw-hashpw req.password m.salt) refl)
            (guard-unrefused true _ _ _ s₂ refl (
              guard-unrefused true _ _ _ s₂ refl (
                write-unrefused _ _ _ s₂
                  λ t _. build_token_response-unrefused d c last user (record s₂ { users = t })))))
