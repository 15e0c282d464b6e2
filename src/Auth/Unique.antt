-- ===== src/Auth/Unique.antt =====
-- The table of refresh tokens keeps the hashes of its rows apart, as long as no request draws a
-- token whose hash is there.
use agentic_rag_backend.Base.{◌≡◌, sym, ◌∙◌, Bool, some, List, [], ◌∷◌, inl, inr, arith, ap}
use agentic_rag_backend.Base.Text.{Text}
use agentic_rag_backend.Database.{TableLaws}
use agentic_rag_backend.Auth.{RefreshToken, Database, State, Crypto, Moment, revoke}
use agentic_rag_backend.Auth.Tokens.{new_refresh_token, create_refresh_token}
use agentic_rag_backend.Auth.Handlers.{Call, serve, run, serve_keeps}
use agentic_rag_backend.Auth.Spent.{Unseen, HasUniqueHashes}

-- No request draws a refresh token whose hash is in the table when it comes.
abbrev pub DrawsFresh : (d : Database) (c : Crypto) → List (Moment × Call) → State d → Type 0
DrawsFresh d c [] s = Unit
DrawsFresh d c ((m, call) ∷ calls) s =
    Unseen d (c.sha256 m.raw_refresh) s.refresh_tokens × DrawsFresh d c calls (serve d c m call s)

module _ (d : Database) (laws : TableLaws d.refresh_tokens) (c : Crypto) where
  abbrev Ready : Text → d.refresh_tokens.Store → Type 0
  Ready hash t = Unseen d hash t × HasUniqueHashes d t

  revoking-Ready :
      (hash : Text) (p : RefreshToken → Bool) (t t' : d.refresh_tokens.Store)
      → Ready hash t
      → d.refresh_tokens.update p revoke t ≡ some t'
      → Ready hash t'
  unfolding Unseen HasUniqueHashes
  revoking-Ready hash p t t' (unseen, unique) e = (
    λ r there eq.
        let (x, was, is) = laws.update_old p revoke t {s' = t'} e r there in
        ground (arith, unseen x was),
    λ r q r_there q_there eq.
        let (x, x_was, x_is) = laws.update_old p revoke t {s' = t'} e r r_there in
        let (y, y_was, y_is) = laws.update_old p revoke t {s' = t'} e q q_there in
        ground (arith, unique x y x_was y_was),
  )

  adding-HasUniqueHashes :
      (m : Moment) (user_id : Text) (t t' : d.refresh_tokens.Store)
      → Ready (c.sha256 m.raw_refresh) t
      → d.refresh_tokens.insert (new_refresh_token c m user_id) t ≡ some t'
      → HasUniqueHashes d t'
  unfolding Unseen HasUniqueHashes new_refresh_token create_refresh_token
  adding-HasUniqueHashes m user_id t t' (unseen, unique) e r q r_there q_there eq =
      let x = new_refresh_token c m user_id in
      let hash = λ (y : RefreshToken). y.token_hash in
      elim ((laws.Has-insert x t {s' = t'} e r).0 r_there) [
        | inl r_old ↦ elim ((laws.Has-insert x t {s' = t'} e q).0 q_there) [
          | inl q_old ↦ unique r q r_old q_old eq
          | inr q_new ↦ absurd (unseen r r_old (eq ∙ ap hash q_new))
        ]
        | inr r_new ↦ elim ((laws.Has-insert x t {s' = t'} e q).0 q_there) [
          | inl q_old ↦ absurd (unseen q q_old (sym eq ∙ ap hash r_new))
          | inr q_new ↦ ap (λ (y : RefreshToken). y.id) (r_new ∙ sym q_new)
        ]
      ]

  -- After any requests, each of which draws a refresh token whose hash is not in the table, no two
  -- rows of the table have one hash, if none had before.
  pub run-HasUniqueHashes :
      (calls : List (Moment × Call)) (s : State d)
      → DrawsFresh d c calls s
      → HasUniqueHashes d s.refresh_tokens
      → HasUniqueHashes d (run d c calls s).refresh_tokens
  unfolding run
  run-HasUniqueHashes [] s fresh h = h
  run-HasUniqueHashes ((m, call) ∷ calls) s (unseen, fresh) h =
      run-HasUniqueHashes calls (serve d c m call s) fresh (
        serve_keeps d c m (Ready (c.sha256 m.raw_refresh)) (HasUniqueHashes d) (λ t k. k.1)
          (revoking-Ready (c.sha256 m.raw_refresh)) (adding-HasUniqueHashes m) call s (unseen, h))
