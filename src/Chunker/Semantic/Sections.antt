-- ===== src/Chunker/Semantic/Sections.antt =====
-- `_split_on_structure` loses nothing that can be seen.
use mathlib.Core.List.{flat_map}
use agentic_rag_backend.Base.{
  ◌≡◌, refl, sym, ◌∙◌, ap, true, false, List, [], ◌∷◌, ◌++◌, append_assoc, append-nil, keep_if, inl,
  inr, arith, Bool-cases,
}
use agentic_rag_backend.Base.Regex.{Re, split_keep}
use agentic_rag_backend.Base.Regex.Pieces.{joined, joined-split_keep}
use agentic_rag_backend.Base.Text.{Text, Unicode, strip, is_empty, ink, ink-append, ink-strip}
use agentic_rag_backend.Chunker.Semantic.{
  has_ink, split_all, structure_patterns, split_on_structure,
}

is_empty_nil : (t : Text) → is_empty t ≡ true → t ≡ []
is_empty_nil [] h = refl
is_empty_nil (c ∷ t) h = cc

module _ (u : Unicode) where
  ink_of_blank : (t : Text) → has_ink u t ≡ false → ink u t ≡ []
  unfolding has_ink
  ink_of_blank t h =
      let none_left : strip u t ≡ [] = is_empty_nil (strip u t) (ground arith) in
      sym (ink-strip u t) ∙ ap (ink u) none_left

  joined-append : (ss ts : List Text) → joined (ss ++ ts) ≡ joined ss ++ joined ts
  joined-append [] ts = refl
  joined-append (s ∷ ss) ts = ap (◌++◌ s) (joined-append ss ts) ∙ sym (append_assoc s _ _)

  ink-joined_kept : (ts : List Text) → ink u (joined (keep_if (has_ink u) ts)) ≡ ink u (joined ts)
  ink-joined_kept [] = refl
  ink-joined_kept (t ∷ ts) = elim (Bool-cases (has_ink u t)) [
    | inl seen ↦
        rw seen
          (ink-append u t _ ∙ ap (◌++◌ (ink u t)) (ink-joined_kept ts) ∙ sym (ink-append u t _))
    | inr blank ↦ rw blank (
        ink-joined_kept ts
        ∙ sym (ink-append u t _ ∙ ap (λ v. v ++ ink u (joined ts)) (ink_of_blank t blank)))
  ]

  ink-joined_split :
      (r : Re) (sections : List Text)
      → ink u (joined (flat_map (λ section. keep_if (has_ink u) (split_keep u r section)) sections))
        ≡ ink u (joined sections)
  unfolding flat_map
  ink-joined_split r [] = refl
  ink-joined_split r (s ∷ sections) =
      let rest =
        joined (flat_map (λ section. keep_if (has_ink u) (split_keep u r section)) sections) in
      ap (ink u) (joined-append (keep_if (has_ink u) (split_keep u r s)) _)
      ∙ ink-append u (joined (keep_if (has_ink u) (split_keep u r s))) rest
      ∙ ap (λ v. v ++ ink u rest)
          (ink-joined_kept (split_keep u r s) ∙ ap (ink u) (joined-split_keep u r s))
      ∙ ap (◌++◌ (ink u s)) (ink-joined_split r sections)
      ∙ sym (ink-append u s (joined sections))

  ink-split_all :
      (rs : List Re) (sections : List Text)
      → ink u (joined (split_all u rs sections)) ≡ ink u (joined sections)
  unfolding split_all
  ink-split_all [] sections = refl
  ink-split_all (r ∷ rs) sections = ink-split_all rs _ ∙ ink-joined_split r sections

  -- The sections of a text have, in order, exactly its characters that are not white space.
  pub ink-split_on_structure :
      (content : Text) → ink u (joined (split_on_structure u content)) ≡ ink u content
  unfolding split_on_structure
  ink-split_on_structure content =
      ink-split_all (structure_patterns u) (content ∷ []) ∙ ap (ink u) (append-nil content)
