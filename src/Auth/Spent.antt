-- ===== src/Auth/Spent.antt =====
-- A refresh token is good for one use, and the tables keep their hashes apart.
use agentic_rag_backend.Base.{
  ◌≡◌, sym, ◌∙◌, Bool, true, false, not, some, List, [], ◌∷◌, ◌≢◌, inl, inr, All, arith, ap,
}
use agentic_rag_backend.Base.Text.{Text, text_eq_iff, codes}
use agentic_rag_backend.Database.{TableLaws}
use agentic_rag_backend.Http.{ok, ◌>>=◌, require}
use agentic_rag_backend.Http.Inversion.{guard-first, require-first, read-first, write-first}
use agentic_rag_backend.Auth.{
  RefreshToken, Database, Request, State, update_refresh_tokens, first_user, user_of_id, Crypto,
  Moment, first_refresh_token, of_hash, revoke, session_of_id,
}
use agentic_rag_backend.Auth.Tokens.{
  TokenResponse, build_token_response, new_refresh_token, create_refresh_token, hash_token,
}
use agentic_rag_backend.Auth.Sessions.{refresh_token, active}
use agentic_rag_backend.Auth.Handlers.{Call, serve, run, serve_keeps, build_token_response-Leads}
use agentic_rag_backend.Auth.Stable.{On, same, first_user-Leads}
use agentic_rag_backend.Http.Rules.{Leads, >>=-Leads, require-Leads}

module _ (d : Database) where
  -- Every row with the hash is revoked.
  unfoldable pub Spent : Text → d.refresh_tokens.Store → Type 0
  Spent hash t =
      (r : RefreshToken) → d.refresh_tokens.Has r t → r.token_hash ≡ hash → r.revoked ≡ true

  -- No row has the hash.
  unfoldable pub Unseen : Text → d.refresh_tokens.Store → Type 0
  Unseen hash t = (r : RefreshToken) → d.refresh_tokens.Has r t → r.token_hash ≢ hash

  -- A hash names one row.
  unfoldable pub HasUniqueHashes : d.refresh_tokens.Store → Type 0
  HasUniqueHashes t =
      (r q : RefreshToken)
      → d.refresh_tokens.Has r t
      → d.refresh_tokens.Has q t
      → r.token_hash ≡ q.token_hash
      → r.id ≡ q.id

module _ (d : Database) (laws : TableLaws d.refresh_tokens) (c : Crypto) where
  revoking-Spent :
      (hash : Text) (p : RefreshToken → Bool) (t t' : d.refresh_tokens.Store)
      → Spent d hash t
      → d.refresh_tokens.update p revoke t ≡ some t'
      → Spent d hash t'
  unfolding Spent
  revoking-Spent hash p t t' h e r there eq =
      let (q, was, is) = laws.update_old p revoke t {s' = t'} e r there in ground (arith, h q was)

  adding-Spent :
      (hash : Text) (m : Moment)
      → c.sha256 m.raw_refresh ≢ hash
      → (user_id : Text) (t t' : d.refresh_tokens.Store) → Spent d hash t
      → d.refresh_tokens.insert (new_refresh_token c m user_id) t ≡ some t'
      → Spent d hash t'
  unfolding Spent new_refresh_token create_refresh_token
  adding-Spent hash m other user_id t t' h e r there eq =
      elim ((laws.Has-insert (new_refresh_token c m user_id) t {s' = t'} e r).0 there) [
        | inl old ↦ h r old eq
        | inr new ↦ absurd (other (ap (λ (x : RefreshToken). x.token_hash) (sym new) ∙ eq))
      ]

  -- What is spent stays spent, whatever the requests.
  pub run-Spent :
      (hash : Text) (calls : List (Moment × Call)) (s : State d)
      → All (λ (call : Moment × Call). c.sha256 call.0.raw_refresh ≢ hash) calls
      → Spent d hash s.refresh_tokens
      → Spent d hash (run d c calls s).refresh_tokens
  unfolding run
  run-Spent hash [] s others h = h
  run-Spent hash ((m, call) ∷ calls) s (other, others) h =
      run-Spent hash calls (serve d c m call s) others (
        serve_keeps d c m (Spent d hash) (Spent d hash) (λ t k. k) (revoking-Spent hash)
          (adding-Spent hash m other) call s h)

  -- The end of an exchange: new tokens, if the owner of the old one is active.
  unfoldable issue : Moment → RefreshToken → Request d TokenResponse
  issue m stored = do
    owner ← first_user d (user_of_id stored.user_id)
    user ← require (active owner) 401 (codes "User not found or deactivated")
    build_token_response d c m user

  issue-Spent :
      (m : Moment) (raw : Text) (stored : RefreshToken) (s : State d)
      → c.sha256 m.raw_refresh ≢ c.sha256 raw
      → Spent d (c.sha256 raw) s.refresh_tokens
      → Spent d (c.sha256 raw) (issue m stored s).0.refresh_tokens
  unfolding issue
  issue-Spent m raw stored s other h =
      let P = Spent d (c.sha256 raw) in
      let keep = same d P in
      let leads : Leads (On d P) (issue m stored) (On d P) =
        >>=-Leads keep (first_user-Leads d P _) λ owner.
          >>=-Leads keep (require-Leads keep _ _ _) λ user.
            build_token_response-Leads d c m P P (λ t k. k) (revoking-Spent (c.sha256 raw))
              (adding-Spent (c.sha256 raw) m other) user in
      leads.after s h

  -- What an exchange has found, and what it did to the table before it issued new tokens.
  refresh_token-eq-ok :
      (m : Moment) (raw : Text) (s : State d) (s' : State d) (tokens : TokenResponse)
      → refresh_token d c m raw s ≡ (s', ok tokens)
      → (stored : RefreshToken) × (t : d.refresh_tokens.Store) × d.refresh_tokens.Has stored
          s.refresh_tokens
        × (stored.token_hash ≡ c.sha256 raw)
        × (stored.revoked ≡ false)
        × (d.refresh_tokens.update (session_of_id stored.id) revoke s.refresh_tokens ≡ some t)
        × (issue m stored (record s { refresh_tokens = t }) ≡ (s', ok tokens))
  unfolding refresh_token first_refresh_token update_refresh_tokens hash_token issue
  refresh_token-eq-ok m raw s s' tokens e =
      let (row, found, e₁) = read-first _ _ s e in
      let (stored, is, e₂) = require-first row _ _ _ s e₁ in
      let (unrevoked, e₃) = guard-first (not stored.revoked) _ _ _ s e₂ in
      let (in_time, e₄) = guard-first _ _ _ _ s e₃ in
      let (t, update, e₅) = write-first _ _ _ s e₄ in
      let (there, by_hash) =
        laws.first_some (of_hash (c.sha256 raw)) s.refresh_tokens (found ∙ ap some is) in
      (
        stored,
        t,
        there,
        (text_eq_iff stored.token_hash (c.sha256 raw)).0 by_hash,
        ground (arith, unrevoked),
        update,
        e₅,
      )

  -- A spent token is not exchanged.
  pub refresh_token_of_Spent :
      (m : Moment) (raw : Text) (s : State d) (s' : State d) (tokens : TokenResponse)
      → Spent d (c.sha256 raw) s.refresh_tokens
      → refresh_token d c m raw s ≢ (s', ok tokens)
  unfolding Spent
  refresh_token_of_Spent m raw s s' tokens h e =
      let (stored, t, there, by_hash, unrevoked, _, _) = refresh_token-eq-ok m raw s s' tokens e in
      ground (arith, h stored there by_hash)

  -- An exchange spends the token.
  refresh_token-Spent :
      (m : Moment) (raw : Text) (s : State d) (s' : State d) (tokens : TokenResponse)
      → HasUniqueHashes d s.refresh_tokens
      → c.sha256 m.raw_refresh ≢ c.sha256 raw
      → refresh_token d c m raw s ≡ (s', ok tokens)
      → Spent d (c.sha256 raw) s'.refresh_tokens
  unfolding HasUniqueHashes Spent
  refresh_token-Spent m raw s s' tokens unique other e =
      let (stored, t, there, by_hash, unrevoked, update, issued) =
        refresh_token-eq-ok m raw s s' tokens e in
      let spent : Spent d (c.sha256 raw) t = λ r now eq.
        let (q, was, is) =
          laws.update_old (session_of_id stored.id) revoke s.refresh_tokens {s' = t} update r now in
        ground (arith, unique q stored was there, text_eq_iff q.id stored.id) in
      rw issued at (issue-Spent m raw stored (record s { refresh_tokens = t }) other spent)

  -- A refresh token is exchanged at most once: after an exchange, and any requests that draw no
  -- refresh token with its hash, it is not exchanged again. No two rows of the table have one hash
  -- before the exchange.
  pub refresh_token_once :
      (m : Moment) (raw : Text) (s : State d) (s' : State d) (tokens : TokenResponse)
      → HasUniqueHashes d s.refresh_tokens
      → c.sha256 m.raw_refresh ≢ c.sha256 raw
      → refresh_token d c m raw s ≡ (s', ok tokens)
      → (calls : List (Moment × Call))
      → All (λ (call : Moment × Call). c.sha256 call.0.raw_refresh ≢ c.sha256 raw) calls
      → (later : Moment) (end : State d) (again : TokenResponse)
      → refresh_token d c later raw (run d c calls s') ≢ (end, ok again)
  refresh_token_once m raw s s' tokens unique other e calls others later end again =
      refresh_token_of_Spent later raw (run d c calls s') end again (
        run-Spent (c.sha256 raw) calls s' others
          (refresh_token-Spent m raw s s' tokens unique other e))
