-- ===== src/Http/Rules.antt =====
-- How what is known of the state passes through a request, however the request ends.
use agentic_rag_backend.Base.{
  refl, ℕ, ◌≡◌, Bool, true, false, Option, none, some, Option-cases, inl, inr,
}
use mathlib.Core.Option
use agentic_rag_backend.Base.Text.{Text}
use agentic_rag_backend.Http.{
  Reply, ok, refused, failed, Action, continue_with, ◌>>=◌, pure, refuse, guard, require, read,
  write,
}

-- From a state with `P`, the request ends in a state with `Q`.
pub record Leads {S : Type 0} {A : Type 0} (P : S → Type 0) (m : Action S A) (Q : S → Type 0)
    : Type 0 where
  pub after : (s : S) → P s → Q (m s).0

module _ {S : Type 0} where
  abbrev pub Implies : (S → Type 0) → (S → Type 0) → Type 0
  Implies P Q = (s : S) → P s → Q s

  continue_with-Leads :
      {A B : Type 0} (R : S → Type 0) (Q : S → Type 0) (f : A → Action S B) (p : S × Reply A)
      → Implies R Q
      → ((a : A) → Leads R (f a) Q)
      → R p.0
      → Q (continue_with f p).0
  unfolding continue_with
  continue_with-Leads R Q f (s, ok a) weaker next h = (next a).after s h
  continue_with-Leads R Q f (s, refused status detail) weaker next h = weaker s h
  continue_with-Leads R Q f (s, failed) weaker next h = weaker s h

  pub >>=-Leads :
      {A B : Type 0} {P : S → Type 0} {R : S → Type 0} {Q : S → Type 0} {m : Action S A}
      {f : A → Action S B}
      → Implies R Q
      → Leads P m R
      → ((a : A) → Leads R (f a) Q)
      → Leads P (m >>= f) Q
  unfolding ◌>>=◌
  >>=-Leads {R = R} {Q = Q} {m = m} {f = f} weaker first next = record {
    after = λ s h. continue_with-Leads R Q f (m s) weaker next (first.after s h);
  }

  module _ {P : S → Type 0} {Q : S → Type 0} (weaker : Implies P Q) where
    pub pure-Leads : {A : Type 0} (a : A) → Leads P (pure a) Q
    pure-Leads a = record { after = λ s h. weaker s h }

    pub refuse-Leads :
        {A : Type 0} (status : ℕ) (detail : Text) → Leads P (refuse {A = A} status detail) Q
    refuse-Leads status detail = record { after = λ s h. weaker s h }

    pub guard-Leads : (b : Bool) (status : ℕ) (detail : Text) → Leads P (guard b status detail) Q
    unfolding guard
    guard-Leads true status detail = record { after = λ s h. weaker s h }
    guard-Leads false status detail = record { after = λ s h. weaker s h }

    pub require-Leads :
        {A : Type 0} (o : Option A) (status : ℕ) (detail : Text)
        → Leads P (require o status detail) Q
    unfolding require
    require-Leads none status detail = record { after = λ s h. weaker s h }
    require-Leads (some a) status detail = record { after = λ s h. weaker s h }

    pub read-Leads : {A : Type 0} (f : S → Option A) → Leads P (read f) Q
    unfolding read
    read-Leads f = record {
      after = λ s h. elim (Option-cases (f s)) [
        | inl e ↦ rw (e, read) (weaker s h)
        | inr (a, e) ↦ rw (e, read) (weaker s h)
      ];
    }

    -- A query that writes one part of the state.
    pub write-Leads :
        {T : Type 0} (query : S → Option T) (put_part : S → T → S)
        → ((s : S) (t : T) → P s → query s ≡ some t → Q (put_part s t))
        → Leads P (write (λ s. Option.map (put_part s) (query s))) Q
    unfolding write
    write-Leads query put_part step = record {
      after = λ s h. elim (Option-cases (query s)) [
        | inl e ↦ rw (e, write) (weaker s h)
        | inr (t, e) ↦ rw (e, write) (step s t h e)
      ];
    }

  -- What a query has read, and what a test has shown, is known to the rest.
  pub read_then-Leads :
      {A B : Type 0} {P : S → Type 0} {Q : S → Type 0} (query : S → Option A) (f : A → Action S B)
      → Implies P Q
      → ((a : A) (s : S) → P s → query s ≡ some a → Q (f a s).0)
      → Leads P (read query >>= f) Q
  unfolding ◌>>=◌ continue_with read
  read_then-Leads query f weaker next = record {
    after = λ s h. elim (Option-cases (query s)) [
      | inl e ↦ rw (e, read) (weaker s h)
      | inr (a, e) ↦ rw (e, read) (next a s h e)
    ];
  }

  pub guard_then :
      {B : Type 0} (Q : S → Type 0) (b : Bool) (status : ℕ) (detail : Text)
      (f : Unit {0} → Action S B) (s : S)
      → Q s
      → (b ≡ true → Q (f tt s).0)
      → Q ((guard b status detail >>= f) s).0
  unfolding ◌>>=◌ continue_with guard
  guard_then Q true status detail f s h next = next refl
  guard_then Q false status detail f s h next = h
