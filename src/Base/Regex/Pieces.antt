-- ===== src/Base/Regex/Pieces.antt =====
-- What `re.split` with a group around its pattern keeps: all of the text.
use mathlib.Core.List.{flat_map}
use agentic_rag_backend.Base.Tests.{Bool-cases, Option-cases, if_elim}
use agentic_rag_backend.Base.Lists.{length, keep_if, All, All-append, All-mono, take, length-append}
use agentic_rag_backend.Base.Text.{Text, Unicode, cons_head}
use agentic_rag_backend.Base.Regex.{
  Re, empty, chr, seq, alt, star, lazy, boundary, Place, run, star_from, lazy_from, chr_at, shorter,
  first_move, split_from, split_keep, word_before, word_after,
}
use Prim.Native.Nat.{ℕ, zero, suc, ◌-◌}
use mathlib.Core.Bool.{Bool, xor}
use mathlib.Core.Path.{◌≡◌, refl, sym, ap, ◌∙◌}
use mathlib.Core.Logic.{inl, inr}
use native.Mathlib.Omega.{arith}
use mathlib.Core.Option.{Option, none, some}
use mathlib.Core.List.{List, [], ◌∷◌, ◌++◌, append_assoc, append-nil}

-- The texts, one behind the other.
abbrev pub joined : List Text → Text
joined [] = []
joined (t ∷ ts) = t ++ joined ts

-- What follows `q` is an end of the text.
abbrev IsEndOf : Text → Place → Type 0
IsEndOf t q = (w : Text) × (t ≡ w ++ q.rest)

further_end : (t : Text) (p q : Place) → IsEndOf t p → IsEndOf p.rest q → IsEndOf t q
further_end t p q (w, e) (v, e') = (w ++ v, e ∙ ap (◌++◌ w) e' ∙ sym (append_assoc w v q.rest))

module _ {A B : Type 0} (P : B → Type 0) (f : A → List B) where
  All-flat_map : (xs : List A) → All (λ x. All P (f x)) xs → All P (flat_map f xs)
  unfolding flat_map
  All-flat_map [] h = tt
  All-flat_map (x ∷ xs) (h, hs) = All-append P (f x) (flat_map f xs) h (All-flat_map xs hs)

All-keep_if :
    {A : Type 0} (P : A → Type 0) (test : A → Bool) (xs : List A)
    → All P xs
    → All P (keep_if test xs)
All-keep_if P test [] h = tt
All-keep_if P test (x ∷ xs) (p, h) =
    if_elim (All P) (test x) (λ _. (p, All-keep_if P test xs h)) (λ _. All-keep_if P test xs h)

module _ (f : Place → List Place) (moves : (p : Place) → All (IsEndOf p.rest) (f p)) where
  star_from-IsEndOf : (n : ℕ) (p : Place) → All (IsEndOf p.rest) (star_from n f p)
  unfolding star_from
  star_from-IsEndOf zero p = (([], refl), tt)
  star_from-IsEndOf (suc n) p =
      All-append (IsEndOf p.rest) _ (p ∷ [])
        (All-flat_map (IsEndOf p.rest) (star_from n f) _ (
          All-mono (IsEndOf p.rest) _
            (λ q e. All-mono _ _ (λ r. further_end p.rest q r e) _ (star_from-IsEndOf n q)) _
            (All-keep_if (IsEndOf p.rest) (shorter p) (f p) (moves p))))
        (([], refl), tt)

  lazy_from-IsEndOf : (n : ℕ) (p : Place) → All (IsEndOf p.rest) (lazy_from n f p)
  unfolding lazy_from
  lazy_from-IsEndOf zero p = (([], refl), tt)
  lazy_from-IsEndOf (suc n) p = (
    ([], refl),
    All-flat_map (IsEndOf p.rest) (lazy_from n f) _ (
        All-mono (IsEndOf p.rest) _
          (λ q e. All-mono _ _ (λ r. further_end p.rest q r e) _ (lazy_from-IsEndOf n q)) _
          (All-keep_if (IsEndOf p.rest) (shorter p) (f p) (moves p))),
  )

chr_at-IsEndOf : (test : ℕ → Bool) (t : Text) → All (IsEndOf t) (chr_at test t)
unfolding chr_at
chr_at-IsEndOf test [] = tt
chr_at-IsEndOf test (c ∷ t) =
    if_elim (All (IsEndOf (c ∷ t))) (test c) (λ _. ((c ∷ [], refl), tt)) (λ _. tt)

module _ (u : Unicode) where
  run-IsEndOf : (r : Re) (p : Place) → All (IsEndOf p.rest) (run u r p)
  unfolding run
  run-IsEndOf empty p = (([], refl), tt)
  run-IsEndOf (chr test) p = chr_at-IsEndOf test p.rest
  run-IsEndOf (seq r s) p = All-flat_map (IsEndOf p.rest) (run u s) _ (
      All-mono (IsEndOf p.rest) _
        (λ q e. All-mono _ _ (λ o. further_end p.rest q o e) _ (run-IsEndOf s q)) _
        (run-IsEndOf r p))
  run-IsEndOf (alt r s) p = All-append (IsEndOf p.rest) _ _ (run-IsEndOf r p) (run-IsEndOf s p)
  run-IsEndOf (star r) p = star_from-IsEndOf (run u r) (run-IsEndOf r) (length p.rest) p
  run-IsEndOf (lazy r) p = lazy_from-IsEndOf (run u r) (run-IsEndOf r) (length p.rest) p
  run-IsEndOf boundary p =
      if_elim (All (IsEndOf p.rest)) (xor (word_before u p.before) (word_after u p.rest))
        (λ _. (([], refl), tt)) (λ _. tt)

first_move-IsEndOf :
    (p q : Place) (qs : List Place)
    → All (IsEndOf p.rest) qs
    → first_move p qs ≡ some q
    → IsEndOf p.rest q
unfolding first_move
first_move-IsEndOf p q [] h e = absurd (cc)
first_move-IsEndOf p q (o ∷ qs) (h, hs) e = elim (Bool-cases (shorter p o)) [
  | inl moves ↦ let is : o ≡ q = ground arith in rw is at h
  | inr stays ↦ absurd (ground arith)
]

take_of_append : (w t : Text) → take (length w) (w ++ t) ≡ w
take_of_append [] t = refl
take_of_append (c ∷ w) t = ap (◌∷◌ c) (take_of_append w t)

joined-cons_head : (c : ℕ) (ts : List Text) → joined (cons_head c ts) ≡ c ∷ joined ts
joined-cons_head c [] = refl
joined-cons_head c (t ∷ ts) = refl

module _ (u : Unicode) (r : Re) where
  joined-split_from :
      (fuel : ℕ) (before : Option ℕ) (t : Text) → joined (split_from u r fuel before t) ≡ t
  unfolding split_from
  joined-split_from fuel before [] = refl
  joined-split_from zero before (c ∷ t) = append-nil (c ∷ t)
  joined-split_from (suc fuel) before (c ∷ t) =
      let here : Place = record { before = before; rest = c ∷ t } in
      elim (Option-cases (first_move here (run u r here))) [
        | inl stays ↦
            rw (joined, stays)
              (joined-cons_head c (split_from u r fuel (some c) t)
                ∙ ap (◌∷◌ c) (joined-split_from fuel (some c) t))
        | inr (q, moves) ↦
            let (w, e) = first_move-IsEndOf here q _ (run-IsEndOf u r here) moves in
            let long : length (c ∷ t) - length q.rest ≡ length w =
              omega (arith, ap length e, length-append w q.rest) in
            rw
              (
                joined,
                moves,
                long,
                e,
                take_of_append w q.rest,
                joined-split_from fuel q.before q.rest,
              )
              refl
      ]

  -- The pieces and the matches between them are the text.
  pub joined-split_keep : (t : Text) → joined (split_keep u r t) ≡ t
  unfolding split_keep
  joined-split_keep t = joined-split_from (length t) none t
