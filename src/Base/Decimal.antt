-- ===== src/Base/Decimal.antt =====
-- `str(n)` of a number, and why two numbers never read alike.
use mathlib.Core.List.{[], ◌∷◌, reverse, reverse-reverse, reverse-append}
use agentic_rag_backend.Base.Tests.{ltb, if◌then◌else◌, if_elim, ltb→lt, not_ltb→le}
use agentic_rag_backend.Base.Lists.{All, All-append}
use agentic_rag_backend.Base.Text.{Text}
use Prim.Native.Nat.{ℕ, zero, suc, ◌+◌, ◌-◌, ◌*◌, ◌/◌, ◌%◌, ◌≤◌, ◌<◌}
use mathlib.Core.Path.{◌≡◌, sym, ap, subst, ◌∙◌}
use native.Mathlib.Omega.{arith}

-- The digits, the last one first. A round divides by ten.
unfoldable pub digits_back : ℕ → ℕ → Text
digits_back zero n = []
digits_back (suc fuel) n =
    let more = (b'0' + n % 10) ∷ digits_back fuel (n / 10) in
    if ltb n 10 then (b'0' + n) ∷ [] else more

unfoldable pub show : ℕ → Text
unfolding digits_back
show n = reverse (digits_back (suc n) n)

value_back : Text → ℕ
value_back [] = 0
value_back (d ∷ ds) = (d - b'0') + 10 * value_back ds

value_digits : (fuel n : ℕ) → n < fuel → value_back (digits_back fuel n) ≡ n
unfolding digits_back value_back
value_digits zero n h = absurd (omega arith)
value_digits (suc fuel) n h =
    if_elim (λ r. value_back r ≡ n) (ltb n 10) (λ small. omega arith)
      λ big.
        let ten : 10 ≤ n = not_ltb→le n 10 big in
        omega (arith, value_digits fuel (n / 10) (omega arith))

pub show_injective : (m n : ℕ) → show m ≡ show n → m ≡ n
unfolding show
show_injective m n h =
    let back : digits_back (suc m) m ≡ digits_back (suc n) n =
      sym (reverse-reverse _) ∙ ap reverse h ∙ reverse-reverse _ in
    sym (value_digits (suc m) m (omega arith))
    ∙ ap value_back back
    ∙ value_digits (suc n) n (omega arith)

-- Every character is a digit.
abbrev pub IsDigit : ℕ → Type 0
IsDigit c = (b'0' ≤ c) × (c ≤ b'9')

digits_back-IsDigit : (fuel n : ℕ) → All IsDigit (digits_back fuel n)
unfolding digits_back
digits_back-IsDigit zero n = tt
digits_back-IsDigit (suc fuel) n =
    if_elim (All IsDigit) (ltb n 10) (λ small. let lt = ltb→lt n 10 small in (omega arith, tt))
      (λ big. (omega arith, digits_back-IsDigit fuel (n / 10)))

All-reverse : (P : ℕ → Type 0) (xs : Text) → All P xs → All P (reverse xs)
All-reverse P [] h = tt
All-reverse P (x ∷ xs) (p, h) =
    subst (All P) (sym (reverse-append (x ∷ []) xs))
      (All-append P (reverse xs) (x ∷ []) (All-reverse P xs h) (p, tt))

pub show-IsDigit : (n : ℕ) → All IsDigit (show n)
unfolding show
show-IsDigit n = All-reverse IsDigit _ (digits_back-IsDigit (suc n) n)
