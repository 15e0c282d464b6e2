-- ===== src/Http/Forward.antt =====
-- How a request goes on where its first query is known to end well, and when it is not refused.
use agentic_rag_backend.Base.{ℕ, ◌≡◌, refl, Bool, true, false, Option, some, Option-cases, inl, inr}
use mathlib.Core.Option
use agentic_rag_backend.Base.Text.{Text}
use agentic_rag_backend.Http.{
  ok, failed, is_refused, Action, continue_with, ◌>>=◌, guard, require, read, write,
}

module _ {S : Type 0} {B : Type 0} where
  pub >>=-ok :
      {A : Type 0} (m : Action S A) (f : A → Action S B) (s : S) {s₁ : S} {a : A}
      → m s ≡ (s₁, ok a)
      → (m >>= f) s ≡ f a s₁
  unfolding ◌>>=◌ continue_with
  >>=-ok m f s e = rw e refl

  pub >>=-failed :
      {A : Type 0} (m : Action S A) (f : A → Action S B) (s : S) {s₁ : S}
      → m s ≡ (s₁, failed)
      → (m >>= f) s ≡ (s₁, failed)
  unfolding ◌>>=◌ continue_with
  >>=-failed m f s e = rw e refl

  pub guard-passes :
      (b : Bool) (status : ℕ) (detail : Text) (f : Unit {0} → Action S B) (s : S)
      → b ≡ true
      → (guard b status detail >>= f) s ≡ f tt s
  unfolding ◌>>=◌ continue_with guard
  guard-passes b status detail f s e = rw e refl

  pub require-passes :
      {A : Type 0} (o : Option A) (status : ℕ) (detail : Text) (f : A → Action S B) (s : S) {a : A}
      → o ≡ some a
      → (require o status detail >>= f) s ≡ f a s
  unfolding ◌>>=◌ continue_with require
  require-passes o status detail f s e = rw e refl

  pub read-unrefused :
      {A : Type 0} (query : S → Option A) (f : A → Action S B) (s : S)
      → ((a : A) → query s ≡ some a → is_refused (f a s).1 ≡ false)
      → is_refused ((read query >>= f) s).1 ≡ false
  unfolding ◌>>=◌ continue_with read is_refused
  read-unrefused query f s next = elim (Option-cases (query s)) [
    | inl e ↦ rw (e, read) refl
    | inr (a, e) ↦ rw (e, read) (next a e)
  ]

  pub write-unrefused :
      {T : Type 0} (query : S → Option T) (put_part : S → T → S) (f : Unit {0} → Action S B) (s : S)
      → ((t : T) → query s ≡ some t → is_refused (f tt (put_part s t)).1 ≡ false)
      → is_refused ((write (λ s. Option.map (put_part s) (query s)) >>= f) s).1 ≡ false
  unfolding ◌>>=◌ continue_with write is_refused
  write-unrefused query put_part f s next = elim (Option-cases (query s)) [
    | inl e ↦ rw (e, write) refl
    | inr (t, e) ↦ rw (e, write) (next t e)
  ]

  pub guard-unrefused :
      (b : Bool) (status : ℕ) (detail : Text) (f : Unit {0} → Action S B) (s : S)
      → b ≡ true
      → is_refused (f tt s).1 ≡ false
      → is_refused ((guard b status detail >>= f) s).1 ≡ false
  guard-unrefused b status detail f s e h = rw (guard-passes b status detail f s e) h

  pub require-unrefused :
      {A : Type 0} (o : Option A) (status : ℕ) (detail : Text) (f : A → Action S B) (s : S) {a : A}
      → o ≡ some a
      → is_refused (f a s).1 ≡ false
      → is_refused ((require o status detail >>= f) s).1 ≡ false
  require-unrefused o status detail f s e h = rw (require-passes o status detail f s e) h
