-- ===== src/Chunker/Paragraphs/Keeps.antt =====
-- `SimpleChunker` loses no text, and respects `chunk_size`.
use agentic_rag_backend.Base.{
  ℕ, zero, suc, ◌+◌, ◌-◌, ◌≡◌, refl, sym, ap, ◌∙◌, true, some, List, [], ◌∷◌, ◌++◌, map, arith, leb,
  ◌==◌, ==_iff, if◌then◌else◌, length, append_assoc, append-nil, Bool-cases, Option-cases, inl, inr,
}
use agentic_rag_backend.Base.Text.{
  Text, Unicode, strip, is_empty, ink, ink-append, ink-strip, cons_head,
}
use agentic_rag_backend.Chunker.Config.{ChunkingConfig, DocumentChunk, Metadata, new_chunk}
use agentic_rag_backend.Chunker.Paragraphs.{
  blank_line, blank_end, split_paragraphs, create_chunk, group, set_total, chunk_document,
}

abbrev pub contents : List DocumentChunk → List Text
contents = map (λ o. o.content)

-- The characters of the texts, in order, that are not white space.
abbrev pub all_ink : Unicode → List Text → Text
all_ink u [] = []
all_ink u (t ∷ ts) = ink u t ++ all_ink u ts

pub contents-map-set_total :
    (n : ℕ) (os : List DocumentChunk) → contents (map (set_total n) os) ≡ contents os
unfolding set_total
contents-map-set_total n [] = refl
contents-map-set_total n (o ∷ os) = ap (λ r. o.content ∷ r) (contents-map-set_total n os)

module _ (u : Unicode) where
  ink-blank_end : (t : Text) {r : Text} → blank_end u t ≡ some r → ink u t ≡ ink u r
  unfolding blank_end
  ink-blank_end [] h = cc
  ink-blank_end (c ∷ t) {r} h = elim (Option-cases (blank_end u t)) [
    | inl stop ↦ ground arith
    | inr (r', more) ↦ ground (arith, ink-blank_end t {r = r'} more)
  ]

  all_ink-cons_head :
      (c : ℕ) (ps : List Text) → all_ink u (cons_head c ps) ≡ ink u (c ∷ []) ++ all_ink u ps
  all_ink-cons_head c [] = refl
  all_ink-cons_head c (p ∷ ps) = ground arith

  module _ (newline : u.is_space 10 ≡ true) where
    all_ink-split_paragraphs :
        (fuel : ℕ) (t : Text) → all_ink u (split_paragraphs u fuel t) ≡ ink u t
    unfolding split_paragraphs
    all_ink-split_paragraphs fuel [] = refl
    all_ink-split_paragraphs zero (c ∷ t) = append-nil _
    all_ink-split_paragraphs (suc fuel) (c ∷ t) =
        let plain : all_ink u (cons_head c (split_paragraphs u fuel t)) ≡ ink u (c ∷ t) =
          all_ink-cons_head c (split_paragraphs u fuel t)
          ∙ ap (λ r. ink u (c ∷ []) ++ r) (all_ink-split_paragraphs fuel t)
          ∙ sym (ink-append u (c ∷ []) t) in
        elim (Bool-cases (c == 10)) [
          | inr other ↦ ground arith
          | inl break ↦ elim (Option-cases (blank_end u t)) [
            | inl stay ↦ ground arith
            | inr (r, gap) ↦
                let at : c ≡ 10 = (==_iff c 10).0 break in
                ground (arith, ink-blank_end t {r = r} gap, all_ink-split_paragraphs fuel r)
          ]
        ]

    ink-potential :
        (current p : Text)
        → ink u (if is_empty current then p else current ++ (blank_line ++ p))
          ≡ ink u current ++ ink u p
    ink-potential [] p = refl
    ink-potential (c ∷ t) p =
        ink-append u (c ∷ t) (blank_line ++ p) ∙ ap (λ r. ink u (c ∷ t) ++ r) (rw newline)

    ink_of_blank : (p : Text) → is_empty (strip u p) ≡ true → ink u p ≡ []
    ink_of_blank p h = sym (ink-strip u p) ∙ empty (strip u p) h
      where
        empty : (t : Text) → is_empty t ≡ true → ink u t ≡ []
        empty [] e = refl
        empty (c ∷ t) e = cc

    all_ink-group :
        (config : ChunkingConfig) (base : Metadata) (current : Text) (pos index : ℕ)
        (ps : List Text)
        → all_ink u (contents (group u config base current pos index ps))
          ≡ ink u current ++ all_ink u ps
    unfolding group create_chunk new_chunk
    all_ink-group config base [] pos index [] = refl
    all_ink-group config base (c ∷ t) pos index [] = rw (ink-strip u (c ∷ t)) refl
    all_ink-group config base current pos index (p ∷ ps) =
        let q = strip u p in
        let joined = if is_empty current then q else current ++ (blank_line ++ q) in
        let skip = all_ink-group config base current pos index ps in
        let extend = all_ink-group config base joined pos index ps in
        let restart = all_ink-group config base q pos index ps in
        let flush =
          all_ink-group config base q (pos + (length current - config.chunk_overlap)) (suc index)
            ps in
        elim (Bool-cases (is_empty q)) [
          | inl blank ↦ ground (arith, ink_of_blank p blank)
          | inr full ↦ elim (Bool-cases (leb (length joined) config.chunk_size)) [
            | inl fits ↦ ground (
              arith,
              ink-potential current q,
              ink-strip u p,
              append_assoc (ink u current) (ink u p) (all_ink u ps),
            )
            | inr long ↦ ground (arith, ink-strip u p, ink-strip u current, is_empty_nil current)
          ]
        ]
      where
        is_empty_nil : (t : Text) → is_empty t ≡ true → t ≡ []
        is_empty_nil [] e = refl
        is_empty_nil (c ∷ t) e = cc

    -- Where the line feed is white space, the chunks have between them, in order, exactly the
    -- characters of the document that are not white space: grouping and stripping lose no text.
    pub ink-chunk_document :
        (config : ChunkingConfig) (base : Metadata) (content : Text)
        → all_ink u (contents (chunk_document u config base content)) ≡ ink u content
    unfolding chunk_document
    ink-chunk_document config base content = elim (Bool-cases (is_empty (strip u content))) [
      | inl blank ↦ rw blank (sym (ink_of_blank content blank))
      | inr full ↦
          rw (full, contents-map-set_total)
            (all_ink-group config base [] 0 0 (split_paragraphs u (suc (length content)) content)
              ∙ all_ink-split_paragraphs (suc (length content)) content)
    ]
