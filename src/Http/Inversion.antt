-- ===== src/Http/Inversion.antt =====
-- What a request that ends well says of its first query, and of the rest.
use agentic_rag_backend.Base.{ℕ, ◌≡◌, refl, Bool, true, false, Option, none, some, arith}
use mathlib.Core.Option
use agentic_rag_backend.Base.Text.{Text}
use agentic_rag_backend.Http.{
  Reply, ok, refused, failed, Action, continue_with, ◌>>=◌, guard, require, read, write,
}

module _ {S A B : Type 0} where
  continue_with-eq-ok :
      (f : A → Action S B) (p : S × Reply A) {s' : S} {b : B}
      → continue_with f p ≡ (s', ok b)
      → (a : A) × (s₁ : S) × (p ≡ (s₁, ok a)) × (f a s₁ ≡ (s', ok b))
  unfolding continue_with
  continue_with-eq-ok f (s₁, ok a) h = (a, s₁, refl, h)
  continue_with-eq-ok f (s₁, refused status detail) h = absurd (cc)
  continue_with-eq-ok f (s₁, failed) h = absurd (cc)

  pub >>=-eq-ok :
      (m : Action S A) (f : A → Action S B) (s : S) {s' : S} {b : B}
      → (m >>= f) s ≡ (s', ok b)
      → (a : A) × (s₁ : S) × (m s ≡ (s₁, ok a)) × (f a s₁ ≡ (s', ok b))
  unfolding ◌>>=◌
  >>=-eq-ok m f s h = continue_with-eq-ok f (m s) h

module _ {S B : Type 0} where
  pub guard-first :
      (b : Bool) (status : ℕ) (detail : Text) (f : Unit {0} → Action S B) (s : S) {s' : S} {x : B}
      → (guard b status detail >>= f) s ≡ (s', ok x)
      → (b ≡ true) × (f tt s ≡ (s', ok x))
  unfolding ◌>>=◌ guard continue_with
  guard-first true status detail f s h = (refl, h)
  guard-first false status detail f s h = absurd (cc)

  pub require-first :
      {A : Type 0} (o : Option A) (status : ℕ) (detail : Text) (f : A → Action S B) (s : S) {s' : S}
      {x : B}
      → (require o status detail >>= f) s ≡ (s', ok x)
      → (a : A) × (o ≡ some a) × (f a s ≡ (s', ok x))
  unfolding ◌>>=◌ require continue_with
  require-first none status detail f s h = absurd (cc)
  require-first (some a) status detail f s h = (a, refl, h)

  pub read-first :
      {A : Type 0} (query : S → Option A) (f : A → Action S B) (s : S) {s' : S} {x : B}
      → (read query >>= f) s ≡ (s', ok x)
      → (a : A) × (query s ≡ some a) × (f a s ≡ (s', ok x))
  unfolding ◌>>=◌ read continue_with
  read-first query f s {s'} {x} h = ground arith

  pub write-first :
      {T : Type 0} (query : S → Option T) (put_part : S → T → S) (f : Unit {0} → Action S B) (s : S)
      {s' : S} {x : B}
      → (write (λ s. Option.map (put_part s) (query s)) >>= f) s ≡ (s', ok x)
      → (t : T) × (query s ≡ some t) × (f tt (put_part s t) ≡ (s', ok x))
  unfolding ◌>>=◌ write continue_with
  write-first query put_part f s {s'} {x} h = ground arith

module _ {S : Type 0} where
  pub write-only :
      {T : Type 0} (query : S → Option T) (put_part : S → T → S) (s : S) {s' : S} {x : Unit {0}}
      → write (λ s. Option.map (put_part s) (query s)) s ≡ (s', ok x)
      → (t : T) × (query s ≡ some t) × (put_part s t ≡ s')
  unfolding write
  write-only query put_part s {s'} {x} h = ground arith
