-- ===== src/Base/Dict.antt =====
-- Python's `dict` with text keys, in insertion order, as far as the program reads and writes it.
use mathlib.Core.Path.{◌≡◌, refl, ap}
use mathlib.Core.Option.{Option, none, some}
use mathlib.Core.List.{List, [], ◌∷◌}
use Prim.Native.Nat.{suc, ◌≤◌, ◌<◌}
use mathlib.Core.Logic.{inl, inr}
use agentic_rag_backend.Base.Lists.{length}
use native.Mathlib.Omega.{arith}
use agentic_rag_backend.Base.Tests.{if◌then◌else◌, Bool-cases}
use agentic_rag_backend.Base.Text.{Text, text_eq, text_eq_iff}

module _ {ℓ} {V : Type ℓ} where
  -- d.get(k)
  unfoldable pub get : Text → List (Text × V) → Option V
  get k [] = none
  get k ((j, v) ∷ m) = if text_eq j k then some v else get k m

  -- d[k] = v
  unfoldable pub put : Text → V → List (Text × V) → List (Text × V)
  put k v [] = (k, v) ∷ []
  put k v ((j, w) ∷ m) = if text_eq j k then (j, v) ∷ m else (j, w) ∷ put k v m

  pub remove : Text → List (Text × V) → List (Text × V)
  remove k [] = []
  remove k ((j, w) ∷ m) = let rest = remove k m in if text_eq j k then rest else (j, w) ∷ rest

  pub get-put :
      (k j : Text) (v : V) (m : List (Text × V))
      → get j (put k v m) ≡ (if text_eq k j then some v else get j m)
  unfolding get put
  get-put k j v [] = refl
  get-put k j v ((i, w) ∷ m) =
      ground (arith, text_eq_iff k j, text_eq_iff i k, text_eq_iff i j, get-put k j v m)

  pub get-remove :
      (k j : Text) (m : List (Text × V))
      → get j (remove k m) ≡ (if text_eq k j then none else get j m)
  unfolding get remove
  get-remove k j [] = ground arith
  get-remove k j ((i, w) ∷ m) =
      ground (arith, text_eq_iff k j, text_eq_iff i k, text_eq_iff i j, get-remove k j m)

  unfoldable pub keys : List (Text × V) → List Text
  keys [] = []
  keys ((k, v) ∷ m) = k ∷ keys m

  pub length-keys : (m : List (Text × V)) → length (keys m) ≡ length m
  unfolding keys
  length-keys [] = refl
  length-keys (p ∷ m) = ap suc (length-keys m)

  pub length-put : (k : Text) (v : V) (m : List (Text × V)) → length (put k v m) ≤ suc (length m)
  unfolding put
  length-put k v [] = omega arith
  length-put k v ((j, w) ∷ m) = ground (arith, length-put k v m)

  length-remove_le : (k : Text) (m : List (Text × V)) → length (remove k m) ≤ length m
  unfolding remove
  length-remove_le k [] = omega arith
  length-remove_le k ((j, w) ∷ m) = ground (arith, length-remove_le k m)

  -- What is removed was there.
  pub length-remove :
      (k : Text) (m : List (Text × V)) {v : V} → get k m ≡ some v → length (remove k m) < length m
  unfolding remove get
  length-remove k [] h = cc
  length-remove k ((j, w) ∷ m) {v} h = elim (Bool-cases (text_eq j k)) [
    | inl here ↦ rw here (omega (arith, length-remove_le k m))
    | inr later ↦ rw later (omega (arith, length-remove k m {v = v} (rw later at h)))
  ]

  -- A key that is there keeps its place.
  pub keys-put_there :
      (k : Text) (w : V) (m : List (Text × V)) {v : V}
      → get k m ≡ some v
      → keys (put k w m) ≡ keys m
  unfolding put get keys
  keys-put_there k w [] h = absurd (cc)
  keys-put_there k w ((j, a) ∷ m) {v} h = elim (Bool-cases (text_eq j k)) [
    | inl here ↦ rw here refl
    | inr later ↦ rw later (ap (λ t. j ∷ t) (keys-put_there k w m {v = v} (rw later at h)))
  ]

-- Two dictionaries with the same keys.
module _ {ℓ κ} {V : Type ℓ} {W : Type κ} where
  pub keys-put :
      (k : Text) (v : V) (w : W) (m : List (Text × V)) (n : List (Text × W))
      → keys m ≡ keys n
      → keys (put k v m) ≡ keys (put k w n)
  unfolding put keys
  keys-put k v w [] [] h = refl
  keys-put k v w [] (q ∷ n) h = absurd (cc)
  keys-put k v w (p ∷ m) [] h = absurd (cc)
  keys-put k v w ((i, a) ∷ m) ((j, b) ∷ n) h =
      let same : i ≡ j = cc in let rest = keys-put k v w m n (cc) in ground arith

  pub keys-remove :
      (k : Text) (m : List (Text × V)) (n : List (Text × W))
      → keys m ≡ keys n
      → keys (remove k m) ≡ keys (remove k n)
  unfolding remove keys
  keys-remove k [] [] h = refl
  keys-remove k [] (q ∷ n) h = absurd (cc)
  keys-remove k (p ∷ m) [] h = absurd (cc)
  keys-remove k ((i, a) ∷ m) ((j, b) ∷ n) h =
      let same : i ≡ j = cc in let rest = keys-remove k m n (cc) in ground arith

  pub get-keys :
      (k : Text) (m : List (Text × V)) (n : List (Text × W)) {w : W}
      → keys m ≡ keys n
      → get k n ≡ some w
      → (v : V) × (get k m ≡ some v)
  unfolding get keys
  get-keys k [] [] h there = absurd (cc)
  get-keys k [] (q ∷ n) h there = absurd (cc)
  get-keys k (p ∷ m) [] h there = absurd (cc)
  get-keys k ((i, a) ∷ m) ((j, b) ∷ n) {w} h there =
      let same : i ≡ j = cc in
      elim (Bool-cases (text_eq j k)) [
        | inl here ↦ (a, ground arith)
        | inr later ↦
            let (v, at) = get-keys k m n {w = w} (cc) (rw later at there) in (v, ground arith)
      ]
