-- ===== src/Base/Text.antt =====
-- Python's `str` as a list of code points, and the operations on it that the program calls.
-- The Unicode tables are a parameter: which code points are white space, word characters or
-- digits, the lower and upper case of each, and which count as one letter where case is ignored.
use Prim.Native.Nat.{ℕ, zero, suc, ◌+◌, ◌-◌, ◌≤◌, ◌<◌}
use Prim.Native.Char.{code}
use Prim.Native.String.{String}
use mathlib.Core.Path.{◌≡◌, refl, subst, ◌∙◌}
use mathlib.Core.Bool.{Bool, true, false, not, ◌&&◌, ◌||◌}
use mathlib.Core.Logic.{◌↔◌, inl, inr}
use mathlib.Core.Option.{Option, none, some}
use mathlib.Core.List.{List, [], ◌∷◌, ◌++◌, flat_map}
use native.Mathlib.Omega.{arith}
use agentic_rag_backend.Base.Tests.{if◌then◌else◌, ltb, leb, ◌==◌, Bool-cases}
use agentic_rag_backend.Base.Lists.{length, length-drop, drop, drop-drop, keep_if}

abbrev pub Text : Type 0
Text = List ℕ

-- The code points of a literal.
abbrev pub codes : String → Text
codes String.[] = []
codes (String.◌∷◌ c s) = code c ∷ codes s

pub record Unicode : Type 0 where
  pub is_space : ℕ → Bool
  pub is_word : ℕ → Bool
  pub digit : ℕ → Option ℕ
  pub lower_char : ℕ → Text
  pub upper_char : ℕ → Text
  pub same_letter : ℕ → ℕ → Bool

-- Equality of texts, `a == b`.
abbrev pub text_eq : Text → Text → Bool
text_eq [] [] = true
text_eq (a ∷ s) (b ∷ t) = (a == b) && text_eq s t
text_eq _ _ = false

pub text_eq_sound : (s t : Text) → text_eq s t ≡ true → s ≡ t
text_eq_sound [] [] h = refl
text_eq_sound [] (b ∷ t) h = cc
text_eq_sound (a ∷ s) [] h = cc
text_eq_sound (a ∷ s) (b ∷ t) h = ground (arith, text_eq_sound s t)

pub text_eq_refl : (s : Text) → text_eq s s ≡ true
text_eq_refl [] = refl
text_eq_refl (a ∷ s) = ground (arith, text_eq_refl s)

text_eq_complete : (s t : Text) → s ≡ t → text_eq s t ≡ true
text_eq_complete s t e = subst (λ x. text_eq s x ≡ true) e (text_eq_refl s)

pub text_eq_iff : (s t : Text) → (text_eq s t ≡ true) ↔ (s ≡ t)
text_eq_iff s t = (text_eq_sound s t, text_eq_complete s t)

-- `bool(text)`
abbrev pub is_empty : Text → Bool
is_empty [] = true
is_empty (_ ∷ _) = false

abbrev pub starts_with : Text → Text → Bool
starts_with [] t = true
starts_with (a ∷ s) [] = false
starts_with (a ∷ s) (b ∷ t) = (a == b) && starts_with s t

-- `needle in text`
abbrev pub contains : Text → Text → Bool
contains needle [] = is_empty needle
contains needle (c ∷ t) = starts_with needle (c ∷ t) || contains needle t

-- The first position at or after `i` of the text, whose first `i` characters are gone.
abbrev pub find_from : Text → Text → ℕ → Option ℕ
find_from needle [] i = if is_empty needle then some i else none
find_from needle (c ∷ t) i =
    let later = find_from needle t (suc i) in if starts_with needle (c ∷ t) then some i else later

-- `text.find(needle, i)`; `none` is -1
unfoldable pub find : Text → Text → ℕ → Option ℕ
find text needle i = if ltb (length text) i then none else find_from needle (drop i text) i

module _ (u : Unicode) where
  unfoldable pub lstrip : Text → Text
  lstrip [] = []
  lstrip (c ∷ t) = let rest = lstrip t in if u.is_space c then rest else c ∷ t

  -- White space at the right end goes.
  unfoldable pub rstrip : Text → Text
  rstrip [] = []
  rstrip (c ∷ t) = elim (rstrip t) [
    | [] ↦ (if u.is_space c then [] else c ∷ [])
    | d ∷ r ↦ c ∷ d ∷ r
  ]

  -- `text.strip()`
  unfoldable pub strip : Text → Text
  unfolding lstrip rstrip
  strip t = rstrip (lstrip t)

  -- `text.lower()`
  unfoldable pub lower : Text → Text
  lower t = flat_map u.lower_char t

  length-lstrip : (t : Text) → length (lstrip t) ≤ length t
  unfolding lstrip
  length-lstrip [] = omega arith
  length-lstrip (c ∷ t) = ground (arith, length-lstrip t)

  length-rstrip : (t : Text) → length (rstrip t) ≤ length t
  unfolding rstrip
  length-rstrip [] = omega arith
  length-rstrip (c ∷ t) = ground (arith, length-rstrip t)

-- `sep.join(parts)`
abbrev pub join : Text → List Text → Text
join sep [] = []
join sep (t ∷ []) = t
join sep (t ∷ t' ∷ ts) = t ++ sep ++ join sep (t' ∷ ts)

-- `text.split(sep)` at one character
abbrev pub split_char : ℕ → Text → List Text
split_char sep [] = [] ∷ []
split_char sep (c ∷ t) = elim (split_char sep t) [
  | [] ↦ (c ∷ []) ∷ []
  | p ∷ ps ↦ (if c == sep then [] ∷ p ∷ ps else (c ∷ p) ∷ ps)
]

abbrev pub cons_head : ℕ → List Text → List Text
cons_head c [] = (c ∷ []) ∷ []
cons_head c (p ∷ ps) = (c ∷ p) ∷ ps

-- The characters at which `splitlines` breaks.
abbrev pub is_line_end : ℕ → Bool
is_line_end c =
    (leb 10 c && leb c 13) || (leb 0x1c c && leb c 0x1e) || c == 0x85 || c == 0x2028 || c == 0x2029

-- `text.splitlines()`; the flag says that a carriage return has just ended a line.
abbrev pub lines_from : Bool → Text → List Text
lines_from cr [] = []
lines_from cr (c ∷ t) =
    let skipped = lines_from false t in
    let ended = [] ∷ lines_from (c == 13) t in
    let longer = cons_head c (lines_from false t) in
    if cr && c == 10 then skipped else if is_line_end c then ended else longer

unfoldable pub splitlines : Text → List Text
splitlines t = lines_from false t

-- `text.count(c)`
abbrev pub count_char : ℕ → Text → ℕ
count_char c [] = 0
count_char c (d ∷ t) = (if c == d then 1 else 0) + count_char c t

find_from_sound :
    (needle t : Text) (i : ℕ) {j : ℕ}
    → find_from needle t i ≡ some j
    → (i ≤ j) × (starts_with needle (drop (j - i) t) ≡ true)
find_from_sound [] [] i {j} h = let e : j ≡ i = ground arith in (omega arith, refl)
find_from_sound (n ∷ needle) [] i h = cc
find_from_sound needle (c ∷ t) i {j} h = elim (Bool-cases (starts_with needle (c ∷ t))) [
  | inl here ↦
      let e : j ≡ i = ground arith in let z : j - i ≡ 0 = omega arith in (omega arith, rw z here)
  | inr later ↦
      let (le, at) = find_from_sound needle t (suc i) {j = j} (ground arith) in
      let z : j - i ≡ suc (j - suc i) = omega arith in (omega arith, rw z at)
]

-- A position that `find` returns is not before its start, and the needle stands there.
pub find_sound :
    (text needle : Text) (i : ℕ) {j : ℕ}
    → find text needle i ≡ some j
    → (i ≤ j) × (starts_with needle (drop j text) ≡ true)
unfolding find
find_sound text needle i {j} h = elim (Bool-cases (ltb (length text) i)) [
  | inl out ↦ absurd (ground arith)
  | inr within ↦
      let (le, at) = find_from_sound needle (drop i text) i {j = j} (ground arith) in
      let z : i + (j - i) ≡ j = omega arith in (le, rw (drop-drop, z) at at)
]

find_from_first :
    (needle t : Text) (i k : ℕ) {j : ℕ}
    → find_from needle t i ≡ some j
    → i ≤ k
    → k < j
    → starts_with needle (drop (k - i) t) ≡ false
find_from_first needle [] i k {j} h le lt = let e : j ≡ i = ground arith in absurd (omega arith)
find_from_first needle (c ∷ t) i k {j} h le lt = elim (Bool-cases (starts_with needle (c ∷ t))) [
  | inl here ↦ let e : j ≡ i = ground arith in absurd (omega arith)
  | inr later ↦ elim (Bool-cases (k == i)) [
    | inl first ↦ let z : k - i ≡ 0 = ground arith in rw z later
    | inr behind ↦
        let past : suc i ≤ k = ground arith in
        let z : k - i ≡ suc (k - suc i) = omega arith in
        rw z (find_from_first needle t (suc i) k {j = j} (ground arith) past lt)
  ]
]

-- No position between the start and the one that `find` returns holds the needle.
pub find_first :
    (text needle : Text) (i k : ℕ) {j : ℕ}
    → find text needle i ≡ some j
    → i ≤ k
    → k < j
    → starts_with needle (drop k text) ≡ false
unfolding find
find_first text needle i k {j} h le lt = elim (Bool-cases (ltb (length text) i)) [
  | inl out ↦ absurd (ground arith)
  | inr within ↦
      let z : i + (k - i) ≡ k = omega arith in
      rw (drop-drop, z) at (find_from_first needle (drop i text) i k {j = j} (ground arith) le lt)
]

find_from-none :
    (needle t : Text) (i k : ℕ)
    → find_from needle t i ≡ none
    → k ≤ length t
    → starts_with needle (drop k t) ≡ false
find_from-none [] [] i k h le = absurd (cc)
find_from-none (n ∷ needle) [] i zero h le = refl
find_from-none (n ∷ needle) [] i (suc k) h le = refl
find_from-none needle (c ∷ t) i zero h le = ground arith
find_from-none needle (c ∷ t) i (suc k) h le =
    find_from-none needle t (suc i) k (ground arith) (omega arith)

-- Where `find` returns -1, no position from the start on holds the needle.
pub find-none :
    (text needle : Text) (i k : ℕ)
    → find text needle i ≡ none
    → i ≤ k
    → k ≤ length text
    → starts_with needle (drop k text) ≡ false
unfolding find
find-none text needle i k h le within = elim (Bool-cases (ltb (length text) i)) [
  | inl out ↦ absurd (ground arith)
  | inr inside ↦
      let z : i + (k - i) ≡ k = omega arith in
      let size = length-drop i text in
      rw (drop-drop, z) at
        (find_from-none needle (drop i text) i (k - i) (ground arith) (omega (arith, size)))
]

-- The characters that are not white space.
abbrev pub ink : Unicode → Text → Text
ink u = keep_if (λ c. not (u.is_space c))

module _ (u : Unicode) where
  pub ink-append : (s t : Text) → ink u (s ++ t) ≡ ink u s ++ ink u t
  ink-append [] t = refl
  ink-append (c ∷ s) t = ground (arith, ink-append s t)

  ink-lstrip : (t : Text) → ink u (lstrip u t) ≡ ink u t
  unfolding lstrip
  ink-lstrip [] = refl
  ink-lstrip (c ∷ t) = ground (arith, ink-lstrip t)

  ink-rstrip : (t : Text) → ink u (rstrip u t) ≡ ink u t
  unfolding rstrip
  ink-rstrip [] = refl
  ink-rstrip (c ∷ t) = ground (arith, ink-rstrip t)

  pub ink-strip : (t : Text) → ink u (strip u t) ≡ ink u t
  unfolding strip
  ink-strip t = ink-rstrip (lstrip u t) ∙ ink-lstrip t

  pub length-strip : (t : Text) → length (strip u t) ≤ length t
  unfolding strip
  length-strip t = omega (arith, length-rstrip u (lstrip u t), length-lstrip u t)
