-- ===== src/Retrieval/Readers.antt =====
-- Who may read a document (agent/access_control.py).
use agentic_rag_backend.Base.{
  ◌≡◌, ◌⊎◌, ◌↔◌, refl, sym, ◌∙◌, ap, inl, inr, true, false, not, Option, none, some, List, [], ◌∷◌,
  map, keep_if, any, arith, Bool-cases,
}
use agentic_rag_backend.Base.Text.{
  Text, Unicode, codes, strip, is_empty, text_eq, text_eq_iff, split_char,
}
use agentic_rag_backend.Database.{In}
use agentic_rag_backend.Retrieval.{can_access_document, users_of}

-- The setting names the user: an entry between its commas is the identifier, but for white space
-- around it.
abbrev pub Names : Unicode → Text → Text → Type 0
Names u setting id = (entry : Text) × In entry (split_char b',' setting) × (strip u entry ≡ id)

module _ (u : Unicode) (id : Text) (nonempty : is_empty id ≡ false) where
  any_entry :
      (entries : List Text)
      → (any (text_eq id) (map (strip u) (keep_if (λ t. not (is_empty (strip u t))) entries))
          ≡ true)
        ↔ ((entry : Text) × In entry entries × (strip u entry ≡ id))
  any_entry [] = ((λ h. absurd (cc)), λ (entry, there, is). absurd there)
  any_entry (e ∷ entries) = elim (Bool-cases (is_empty (strip u e))) [
    | inl blank ↦
        let rest = any_entry entries in
        rw blank (
          (λ h. let (entry, there, is) = rest.0 h in (entry, inr there, is)),
          λ (entry, there, is). elim there [
            | inl same ↦
                absurd (ground (arith, ap (λ t. is_empty (strip u t)) same, ap is_empty is))
            | inr later ↦ rest.1 (entry, later, is)
          ],
        )
    | inr inked ↦
        let rest = any_entry entries in
        rw inked (
          (λ h. elim (Bool-cases (text_eq id (strip u e))) [
            | inl same ↦ (e, inl refl, sym ((text_eq_iff id (strip u e)).0 same))
            | inr other ↦ let (entry, there, is) = rest.0 (ground arith) in (entry, inr there, is)
          ]),
          λ (entry, there, is). elim there [
            | inl same ↦ ground (arith, (text_eq_iff id (strip u e)).1 (sym is ∙ ap (strip u) same))
            | inr later ↦ ground (arith, rest.1 (entry, later, is))
          ],
        )
  ]

  any-users_of :
      (setting : Text) → (any (text_eq id) (users_of u setting) ≡ true) ↔ Names u setting id
  unfolding users_of
  any-users_of setting = any_entry (split_char b',' setting)

-- A public document is readable by every request, and any other exactly by the requests with a
-- user id that is not empty and that one of the two settings names; so never by a request without
-- one.
pub can_access_document_iff :
    (u : Unicode) (admins private_users : Text) (user_id : Option Text) (level : Text)
    → (can_access_document u admins private_users user_id level ≡ true) ↔ (
        (level ≡ codes "public")
        ⊎ ((id : Text) × (user_id ≡ some id)
            × (is_empty id ≡ false)
            × (Names u admins id ⊎ Names u private_users id)))
unfolding can_access_document
can_access_document_iff u admins private_users none level = (
  (λ h. inl ((text_eq_iff level (codes "public")).0 h)),
  λ known. elim known [
    | inl is_public ↦ (text_eq_iff level (codes "public")).1 is_public
    | inr (id, is, _, _) ↦ absurd (cc)
  ],
)
can_access_document_iff u admins private_users (some user) level =
    let pub_level = text_eq_iff level (codes "public") in
    elim (Bool-cases (text_eq level (codes "public"))) [
      | inl open_level ↦ rw open_level ((λ _. inl (pub_level.0 open_level)), λ _. refl)
      | inr closed ↦ elim (Bool-cases (is_empty user)) [
        | inl blank ↦
            rw (closed, blank)
              (
                (λ h. absurd (cc)),
                λ known. elim known [
                  | inl is_public ↦ absurd (ground (arith, closed, pub_level.1 is_public))
                  | inr (id, is, nonempty, _) ↦
                      let same : user ≡ id = cc in
                      absurd (ground (arith, blank, nonempty, ap is_empty same))
                ],
              )
        | inr inked ↦
            let admin = any-users_of u user inked admins in
            let reader = any-users_of u user inked private_users in
            rw (closed, inked)
              (
                (λ h. inr (
                  user,
                  refl,
                  inked,
                  elim (Bool-cases (any (text_eq user) (users_of u admins))) [
                    | inl found ↦ inl (admin.0 found)
                    | inr missing ↦ inr (reader.0 (rw missing at h))
                  ],
                )),
                λ known. elim known [
                  | inl is_public ↦ absurd (ground (arith, closed, pub_level.1 is_public))
                  | inr (id, is, _, named) ↦
                      let same : id ≡ user = cc in
                      elim named [
                        | inl by_admins ↦ ground (arith, admin.1 (rw same at by_admins))
                        | inr by_private ↦ ground (arith, reader.1 (rw same at by_private))
                      ]
                ],
              )
      ]
    ]
