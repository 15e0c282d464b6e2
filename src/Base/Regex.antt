-- ===== src/Base/Regex.antt =====
-- The part of Python's `re` that the program's patterns use, by backtracking: the ways to match at
-- a place, in the order in which `re` tries them.
pub mod Pieces
use mathlib.Core.List.{flat_map}
use agentic_rag_backend.Base.Tests.{if◌then◌else◌, ltb, ◌==◌}
use agentic_rag_backend.Base.Lists.{length, keep_if, take}
use agentic_rag_backend.Base.Text.{Text, Unicode, cons_head}
use Prim.Native.Nat.{ℕ, zero, suc, ◌-◌}
use mathlib.Core.Bool.{Bool, true, false, xor, ◌||◌}
use mathlib.Core.Path.{◌≡◌, refl}
use native.Mathlib.Omega.{arith}
use mathlib.Core.Option.{Option, none, some}
use mathlib.Core.List.{List, [], ◌∷◌, ◌++◌}

pub data Re : Type 0 where
  empty : Re
  chr : (ℕ → Bool) → Re
  seq alt : Re → Re → Re
  star lazy : Re → Re
  boundary : Re

-- A place in a text: the character before it and what follows.
pub record Place : Type 0 where
  pub before : Option ℕ
  pub rest : Text

unfoldable pub shorter : Place → Place → Bool
shorter p q = ltb (length q.rest) (length p.rest)

-- The greedy star. A round that takes no character ends it.
unfoldable pub star_from : ℕ → (Place → List Place) → Place → List Place
unfolding shorter
star_from zero f p = p ∷ []
star_from (suc n) f p = flat_map (star_from n f) (keep_if (shorter p) (f p)) ++ p ∷ []

-- The lazy star: as few rounds as the rest of the pattern allows.
unfoldable pub lazy_from : ℕ → (Place → List Place) → Place → List Place
unfolding shorter
lazy_from zero f p = p ∷ []
lazy_from (suc n) f p = p ∷ flat_map (lazy_from n f) (keep_if (shorter p) (f p))

unfoldable pub chr_at : (ℕ → Bool) → Text → List Place
chr_at test [] = []
chr_at test (c ∷ t) = if test c then record { before = some c; rest = t } ∷ [] else []

abbrev pub any_place : List Place → Bool
any_place [] = false
any_place (_ ∷ _) = true

-- The end of the preferred match, if it takes a character.
unfoldable pub first_move : Place → List Place → Option Place
unfolding shorter
first_move p [] = none
first_move p (q ∷ _) = if shorter p q then some q else none

module _ (u : Unicode) where
  unfoldable pub word_before : Option ℕ → Bool
  word_before none = false
  word_before (some c) = u.is_word c

  unfoldable pub word_after : Text → Bool
  word_after [] = false
  word_after (c ∷ t) = u.is_word c

  -- The places where a match that starts at `p` can end, the preferred one first.
  unfoldable pub run : Re → Place → List Place
  unfolding star_from lazy_from chr_at word_before word_after
  run empty p = p ∷ []
  run (chr test) p = chr_at test p.rest
  run (seq r s) p = flat_map (run s) (run r p)
  run (alt r s) p = run r p ++ run s p
  run (star r) p = star_from (length p.rest) (run r) p
  run (lazy r) p = lazy_from (length p.rest) (run r) p
  run boundary p = if xor (word_before p.before) (word_after p.rest) then p ∷ [] else []

  unfoldable pub search_from : Re → Option ℕ → Text → Bool
  search_from r before [] = any_place (run r (record { before = before; rest = [] }))
  search_from r before (c ∷ t) =
      let later = search_from r (some c) t in
      any_place (run r (record { before = before; rest = c ∷ t })) || later

  -- `pattern.search(text)` is not None
  unfoldable pub search : Re → Text → Bool
  unfolding search_from
  search r t = search_from r none t

  -- `pattern.sub(replacement, text)`, for patterns that match no empty text.
  unfoldable pub sub_from : Re → Text → ℕ → Option ℕ → Text → Text
  unfolding first_move
  sub_from r new fuel before [] = []
  sub_from r new zero before (c ∷ t) = c ∷ t
  sub_from r new (suc fuel) before (c ∷ t) =
      let here : Place = record { before = before; rest = c ∷ t } in
      elim (first_move here (run r here)) [
        | none ↦ c ∷ sub_from r new fuel (some c) t
        | some q ↦ new ++ sub_from r new fuel q.before q.rest
      ]

  -- A round takes a character at least, so the length of the text is enough fuel.
  unfoldable pub sub : Re → Text → Text → Text
  unfolding sub_from
  sub r new t = sub_from r new (length t) none t

  -- `re.split("(pattern)", text)`, which keeps what the pattern matches.
  unfoldable pub split_from : Re → ℕ → Option ℕ → Text → List Text
  unfolding first_move
  split_from r fuel before [] = [] ∷ []
  split_from r zero before (c ∷ t) = (c ∷ t) ∷ []
  split_from r (suc fuel) before (c ∷ t) =
      let here : Place = record { before = before; rest = c ∷ t } in
      elim (first_move here (run r here)) [
        | none ↦ cons_head c (split_from r fuel (some c) t)
        | some q ↦
            []
            ∷ take (length here.rest - length q.rest) here.rest
            ∷ split_from r fuel q.before q.rest
      ]

  unfoldable pub split_keep : Re → Text → List Text
  unfolding split_from
  split_keep r t = split_from r (length t) none t

-- Building blocks.
abbrev pub opt : Re → Re
opt r = alt r empty

abbrev pub plus : Re → Re
plus r = seq r (star r)

abbrev pub times : ℕ → Re → Re
times zero r = empty
times (suc n) r = seq r (times n r)

-- `r{0,n}`
abbrev pub up_to : ℕ → Re → Re
up_to zero r = empty
up_to (suc n) r = opt (seq r (up_to n r))

abbrev pub any_of : List Re → Re
any_of [] = chr (λ _. false)
any_of (r ∷ []) = r
any_of (r ∷ s ∷ rs) = alt r (any_of (s ∷ rs))

abbrev pub all_of : List Re → Re
all_of [] = empty
all_of (r ∷ []) = r
all_of (r ∷ s ∷ rs) = seq r (all_of (s ∷ rs))

-- A literal, exact or under `re.IGNORECASE`.
abbrev pub lit : Text → Re
lit [] = empty
lit (c ∷ t) = seq (chr (λ d. d == c)) (lit t)

abbrev pub lit_ci : Unicode → Text → Re
lit_ci u [] = empty
lit_ci u (c ∷ t) = seq (chr (λ d. u.same_letter c d)) (lit_ci u t)
