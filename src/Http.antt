-- ===== src/Http.antt =====
-- A request of the routers as a state-passing computation that can end early: with an
-- `HTTPException`, or with any other exception, which the client sees as a failure of the server.
-- What was written before the end stays written.
pub mod Rules
pub mod Inversion
pub mod Forward
use agentic_rag_backend.Base.{
  ℕ, ◌≡◌, refl, Bool, true, false, Option, none, some, List, [], arith, ◌⊎◌, inl, inr,
}
use agentic_rag_backend.Base.Text.{Text}

-- `refused status detail` is an `HTTPException`.
pub data Reply (A : Type 0) : Type 0 where
  ok : A → Reply A
  refused : ℕ → Text → Reply A
  failed : Reply A

unfoldable pub is_refused : {A : Type 0} → Reply A → Bool
is_refused (ok a) = false
is_refused (refused status detail) = true
is_refused failed = false

abbrev pub Action : Type 0 → Type 0 → Type 0
Action S A = S → S × Reply A

module _ {S A B : Type 0} where
  unfoldable pub continue_with : (A → Action S B) → S × Reply A → S × Reply B
  continue_with f (s, ok a) = f a s
  continue_with f (s, refused status detail) = (s, refused status detail)
  continue_with f (s, failed) = (s, failed)

infixl 5 ◌>>=◌ ◌>>◌
unfoldable pub ◌>>=◌ : {S A B : Type 0} → Action S A → (A → Action S B) → Action S B
(m >>= f) s = continue_with f (m s)

abbrev pub ◌>>◌ : {S B : Type 0} → Action S (Unit {0}) → Action S B → Action S B
m >> k = m >>= λ _. k

module _ {S : Type 0} where
  abbrev pub pure : {A : Type 0} → A → Action S A
  pure a s = (s, ok a)

  abbrev pub refuse : {A : Type 0} → ℕ → Text → Action S A
  refuse status detail s = (s, refused status detail)

  unfoldable pub guard : Bool → ℕ → Text → Action S (Unit {0})
  guard true status detail s = (s, ok tt)
  guard false status detail s = (s, refused status detail)

  unfoldable pub require : {A : Type 0} → Option A → ℕ → Text → Action S A
  require none status detail s = (s, refused status detail)
  require (some a) status detail s = (s, ok a)

  -- A query that reads, and one that writes.
  unfoldable pub read : {A : Type 0} → (S → Option A) → Action S A
  read f s = elim (f s) [ none ↦ (s, failed) | some a ↦ (s, ok a) ]

  unfoldable pub write : (S → Option S) → Action S (Unit {0})
  write f s = elim (f s) [ none ↦ (s, failed) | some s' ↦ (s', ok tt) ]
