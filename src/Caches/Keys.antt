-- ===== src/Caches/Keys.antt =====
-- Two requests have one raw key only if they agree in everything that a cached result depends on.
use agentic_rag_backend.Base.{
  ℕ, ◌≡◌, ◌≢◌, refl, sym, ap, subst, ◌∙◌, Bool, true, false, ◌||◌, Option, [], ◌∷◌, ◌++◌, arith,
  if◌then◌else◌, if_elim, All, All-mono, append_assoc,
}
use agentic_rag_backend.Base.Decimal.{show, show_injective, show-IsDigit, IsDigit}
use agentic_rag_backend.Base.Text.{Text, Unicode, strip, lstrip, rstrip}
use agentic_rag_backend.Caches.{
  blank_punctuation, collapse, normalize, scope, raw_query_key, raw_answer_key,
}

abbrev Lacks : ℕ → Text → Type 0
Lacks b = All (λ c. c ≢ b)

-- What stands before the first separator, and what stands behind the last, is determined.
split_first :
    (b : ℕ) (s t x y : Text)
    → Lacks b s
    → Lacks b t
    → s ++ (b ∷ x) ≡ t ++ (b ∷ y)
    → (s ≡ t) × (x ≡ y)
split_first b [] [] x y hs ht e = (refl, cc)
split_first b [] (c ∷ t) x y hs (hc, ht) e = absurd (hc (cc))
split_first b (c ∷ s) [] x y (hc, hs) ht e = absurd (hc (cc))
split_first b (c ∷ s) (d ∷ t) x y (_, hs) (_, ht) e =
    let (p, q) = split_first b s t x y hs ht (cc) in (cc, q)

not-Lacks : (b : ℕ) (s x : Text) → Lacks b (s ++ (b ∷ x)) → ⊥
not-Lacks b [] x (h, _) = h refl
not-Lacks b (c ∷ s) x (_, h) = not-Lacks b s x h

split_last :
    (b : ℕ) (s t x y : Text)
    → Lacks b x
    → Lacks b y
    → s ++ (b ∷ x) ≡ t ++ (b ∷ y)
    → (s ≡ t) × (x ≡ y)
split_last b [] [] x y hx hy e = (refl, cc)
split_last b [] (c ∷ t) x y hx hy e =
    let tail : x ≡ t ++ (b ∷ y) = cc in absurd (not-Lacks b t y (subst (Lacks b) tail hx))
split_last b (c ∷ s) [] x y hx hy e =
    let tail : y ≡ s ++ (b ∷ x) = cc in absurd (not-Lacks b s x (subst (Lacks b) tail hy))
split_last b (c ∷ s) (d ∷ t) x y hx hy e = let (p, q) = split_last b s t x y hx hy (cc) in (cc, q)

abbrev bar : ℕ
bar = b'|'

show-Lacks : (n : ℕ) → Lacks bar (show n)
show-Lacks n = All-mono IsDigit (λ c. c ≢ bar) (λ c h. omega arith) (show n) (show-IsDigit n)

module _ (u : Unicode) (not_word : u.is_word bar ≡ false) (not_space : u.is_space bar ≡ false) where
  blank_punctuation-Lacks : (t : Text) → Lacks bar (blank_punctuation u t)
  unfolding blank_punctuation
  blank_punctuation-Lacks [] = tt
  blank_punctuation-Lacks (c ∷ t) = (
    if_elim (λ d. d ≢ bar) (u.is_word c || u.is_space c)
        (λ h e. ground (arith, ap u.is_word e, ap u.is_space e)) (λ _. omega arith),
    blank_punctuation-Lacks t,
  )

  collapse-Lacks : (blank : Bool) (t : Text) → Lacks bar t → Lacks bar (collapse u blank t)
  unfolding collapse
  collapse-Lacks blank [] h = tt
  collapse-Lacks blank (c ∷ t) (hc, h) =
      if_elim (Lacks bar) (u.is_space c)
        (λ _.
          if_elim (Lacks bar) blank (λ _. collapse-Lacks true t h)
            (λ _. (omega arith, collapse-Lacks true t h)))
        (λ _. (hc, collapse-Lacks false t h))

  lstrip-Lacks : (t : Text) → Lacks bar t → Lacks bar (lstrip u t)
  unfolding lstrip
  lstrip-Lacks [] h = tt
  lstrip-Lacks (c ∷ t) (hc, h) =
      if_elim (Lacks bar) (u.is_space c) (λ _. lstrip-Lacks t h) (λ _. (hc, h))

  rstrip-Lacks : (t : Text) → Lacks bar t → Lacks bar (rstrip u t)
  unfolding rstrip
  rstrip-Lacks [] h = tt
  rstrip-Lacks (c ∷ t) (hc, h) = step (rstrip u t) (rstrip-Lacks t h)
    where
      step :
          (r : Text)
          → Lacks bar r
          → Lacks bar (elim r [ [] ↦ (if u.is_space c then [] else c ∷ []) | d ∷ r' ↦ c ∷ d ∷ r' ])
      step [] _ = if_elim (Lacks bar) (u.is_space c) (λ _. tt) (λ _. (hc, tt))
      step (d ∷ r) k = (hc, k)

  normalize-Lacks : (query : Text) → Lacks bar (normalize u query)
  unfolding normalize strip
  normalize-Lacks query =
      rstrip-Lacks _ (lstrip-Lacks _ (collapse-Lacks false _ (blank_punctuation-Lacks _)))

  -- Where the bar is neither a word character nor white space: requests with one raw key of the
  -- query cache have the same version, scope and limit, and the same normalized query, whatever
  -- bars the user ids contain.
  pub raw_query_key_injective :
      (q q' : Text) (user user' : Option Text) (limit limit' version version' : ℕ)
      → raw_query_key u q user limit version ≡ raw_query_key u q' user' limit' version'
      → (version ≡ version')
        × (scope user ≡ scope user')
        × (limit ≡ limit')
        × (normalize u q ≡ normalize u q')
  unfolding raw_query_key
  raw_query_key_injective q q' user user' limit limit' version version' e =
      let (v, rest) =
        split_first bar (show version) (show version') _ _ (show-Lacks version)
          (show-Lacks version') (cc) in
      let regroup : (s l n : Text) → s ++ (bar ∷ (l ++ (bar ∷ n))) ≡ (s ++ (bar ∷ l)) ++ (bar ∷ n) =
        λ s l n. sym (append_assoc s (bar ∷ l) (bar ∷ n)) in
      let (front, query) =
        split_last bar (scope user ++ (bar ∷ show limit)) (scope user' ++ (bar ∷ show limit')) _ _
          (normalize-Lacks q) (normalize-Lacks q') (sym (regroup _ _ _) ∙ rest ∙ regroup _ _ _) in
      let (scopes, limits) =
        split_last bar (scope user) (scope user') _ _ (show-Lacks limit) (show-Lacks limit')
          front in
      (show_injective version version' v, scopes, show_injective limit limit' limits, query)

  -- Where the bar is neither a word character nor white space: requests with one raw key of the
  -- answer cache have the same version and scope, and the same normalized query, whatever bars the
  -- user ids contain.
  pub raw_answer_key_injective :
      (q q' : Text) (user user' : Option Text) (version version' : ℕ)
      → raw_answer_key u q user version ≡ raw_answer_key u q' user' version'
      → (version ≡ version') × (scope user ≡ scope user') × (normalize u q ≡ normalize u q')
  unfolding raw_answer_key
  raw_answer_key_injective q q' user user' version version' e =
      let (v, rest) =
        split_first bar (show version) (show version') _ _ (show-Lacks version)
          (show-Lacks version') (cc) in
      let (scopes, query) =
        split_last bar (scope user) (scope user') _ _ (normalize-Lacks q) (normalize-Lacks q')
          rest in
      (show_injective version version' v, scopes, query)
