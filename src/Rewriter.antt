-- ===== src/Rewriter.antt =====
-- agent/query_rewriter.py: the follow-up question is condensed with the history. The model is a
-- parameter; `none` is an error of its call.
use agentic_rag_backend.Base.{
  ℕ, ◌*◌, ◌≤◌, ◌≡◌, refl, ◌⊎◌, inl, inr, Bool, true, false, ◌&&◌, not, Option, none, some, ltb, leb,
  arith, if◌then◌else◌, if_elim, length, Option-cases,
}
use agentic_rag_backend.Base.Text.{Text, Unicode, strip, is_empty}

pub record RewriteSettings : Type 0 where
  pub enabled : Bool
  pub maxlen : ℕ

-- The model's completion for a history and a question.
abbrev pub Rewrite : Type 0
Rewrite = Text → Text → Option Text

module _ (u : Unicode) (k : RewriteSettings) (rewrite : Rewrite) where
  -- `condense`
  unfoldable pub condense : Text → Text → Text
  condense history question =
      let q = strip u question in
      if not (k.enabled && not (is_empty history) && not (is_empty q))
      then q
      else if ltb k.maxlen (length q)
      then q
      else elim (rewrite history q) [
        | none ↦ q
        | some reply ↦
            let rewritten = strip u reply in
            (if not (is_empty rewritten) && leb (length rewritten) (k.maxlen * 2)
              then rewritten
              else q)
      ]

  -- The reply is the model's to the stripped question, which is asked of it only where rewriting is
  -- on, there is a history, and the question is neither empty nor too long; and the reply can
  -- be used: stripped, it is not empty and at most twice `maxlen` characters long.
  pub record IsUsable (history question reply : Text) : Type 0 where
    pub enabled : k.enabled ≡ true
    pub follows : is_empty history ≡ false
    pub asks : is_empty (strip u question) ≡ false
    pub short : length (strip u question) ≤ k.maxlen
    pub replied : rewrite history (strip u question) ≡ some reply
    pub written : is_empty (strip u reply) ≡ false
    pub bounded : length (strip u reply) ≤ k.maxlen * 2

  -- The search query is the model's stripped reply where there is a usable one, and otherwise the
  -- stripped question.
  pub condense_cases :
      (history question : Text)
      → ((reply : Text) × IsUsable history question reply
          × (condense history question ≡ strip u reply))
        ⊎ (((reply : Text) → ¬ IsUsable history question reply)
            × (condense history question ≡ strip u question))
  unfolding condense
  condense_cases history question =
      let q = strip u question in
      let P = λ (t : Text).
        ((reply : Text) × IsUsable history question reply × (t ≡ strip u reply))
        ⊎ (((reply : Text) → ¬ IsUsable history question reply) × (t ≡ q)) in
      if_elim P (not (k.enabled && not (is_empty history) && not (is_empty q)))
        (λ h. inr ((λ reply c. absurd (ground (arith, c.enabled, c.follows, c.asks))), refl))
        λ asked.
          if_elim P (ltb k.maxlen (length q))
            (λ h. inr ((λ reply c. let le = c.short in absurd (ground arith)), refl))
            λ fits. elim (Option-cases (rewrite history q)) [
              | inl e ↦ rw e (inr ((λ reply c. let r = c.replied in absurd (cc)), refl))
              | inr (reply, e) ↦
                  let rewritten = strip u reply in
                  rw e (
                    if_elim P (not (is_empty rewritten) && leb (length rewritten) (k.maxlen * 2))
                      (λ h. inl (
                        reply,
                        record {
                          enabled = ground arith;
                          follows = ground arith;
                          asks = ground arith;
                          short = ground arith;
                          replied = e;
                          written = ground arith;
                          bounded = ground arith;
                        },
                        refl,
                      ))
                      (λ h. inr (
                        (λ other c.
                            let r = c.replied in
                            let same : other ≡ reply = cc in
                            let w = rw same at c.written in
                            let l = rw same at c.bounded in absurd (ground arith)),
                        refl,
                      )))
            ]
