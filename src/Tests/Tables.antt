-- ===== src/Tests/Tables.antt =====
-- A table as a list of rows, which keeps the laws of a table.
use agentic_rag_backend.Base.{
  ◌≡◌, ◌≢◌, ◌⊎◌, ◌↔◌, refl, sym, ◌∙◌, ap, subst, inl, inr, Bool, true, false, not, Option, none,
  some, List, [], ◌∷◌, ◌++◌, map, keep_if, if◌then◌else◌, arith, Bool-cases,
}
use agentic_rag_backend.Base.Text.{Text, text_eq, text_eq_iff}
use agentic_rag_backend.Database.{Table, TableLaws, In, updated}

module _ {Row : Type 0} where
  unfoldable pub first_row : (Row → Bool) → List Row → Option Row
  first_row p [] = none
  first_row p (x ∷ rows) = if p x then some x else first_row p rows

  first_row-some :
      (p : Row → Bool) (rows : List Row) {r : Row}
      → first_row p rows ≡ some r
      → In r rows × (p r ≡ true)
  unfolding first_row
  first_row-some p [] h = absurd (cc)
  first_row-some p (x ∷ rows) {r} h = elim (Bool-cases (p x)) [
    | inl yes_here ↦ let same : x ≡ r = ground arith in (inl (sym same), ap p (sym same) ∙ yes_here)
    | inr later ↦ let (there, by) = first_row-some p rows {r = r} (rw later at h) in (inr there, by)
  ]

  first_row-none :
      (p : Row → Bool) (rows : List Row)
      → first_row p rows ≡ none
      → (r : Row) → In r rows
      → p r ≡ false
  unfolding first_row
  first_row-none p [] h r there = absurd there
  first_row-none p (x ∷ rows) h r (inl same) = ap p same ∙ ground arith
  first_row-none p (x ∷ rows) h r (inr there) = first_row-none p rows (ground arith) r there

  update_rows_old :
      (p : Row → Bool) (f : Row → Row) (rows : List Row) (r : Row)
      → In r (map (updated p f) rows)
      → (q : Row) × In q rows × (r ≡ updated p f q)
  update_rows_old p f [] r there = absurd there
  update_rows_old p f (x ∷ rows) r (inl same) = (x, inl refl, same)
  update_rows_old p f (x ∷ rows) r (inr there) =
      let (q, was, is) = update_rows_old p f rows r there in (q, inr was, is)

  update_rows_new :
      (p : Row → Bool) (f : Row → Row) (rows : List Row) (q : Row)
      → In q rows
      → In (updated p f q) (map (updated p f) rows)
  update_rows_new p f [] q there = absurd there
  update_rows_new p f (x ∷ rows) q (inl same) = inl (ap (updated p f) same)
  update_rows_new p f (x ∷ rows) q (inr there) = inr (update_rows_new p f rows q there)

  kept_rows :
      (p : Row → Bool) (rows : List Row) (r : Row)
      → In r (keep_if (λ x. not (p x)) rows) ↔ (In r rows × (p r ≡ false))
  kept_rows p [] r = ((λ there. absurd there), λ (there, _). absurd there)
  kept_rows p (x ∷ rows) r = elim (Bool-cases (p x)) [
    | inl gone ↦ rw gone (
      (λ there. let (was, by) = (kept_rows p rows r).0 there in (inr was, by)),
      λ (there, by). elim there [
        | inl same ↦ absurd (ground (arith, ap p same))
        | inr later ↦ (kept_rows p rows r).1 (later, by)
      ],
    )
    | inr kept ↦ rw kept (
      (λ there. elim there [
        | inl same ↦ (inl same, ap p same ∙ kept)
        | inr later ↦ let (was, by) = (kept_rows p rows r).0 later in (inr was, by)
      ]),
      λ (there, by). elim there [
        | inl same ↦ inl same
        | inr later ↦ inr ((kept_rows p rows r).1 (later, by))
      ],
    )
  ]

  selected_rows :
      (p : Row → Bool) (rows : List Row) (r : Row)
      → In r (keep_if p rows) ↔ (In r rows × (p r ≡ true))
  selected_rows p [] r = ((λ there. absurd there), λ (there, _). absurd there)
  selected_rows p (x ∷ rows) r = elim (Bool-cases (p x)) [
    | inr gone ↦ rw gone (
      (λ there. let (was, by) = (selected_rows p rows r).0 there in (inr was, by)),
      λ (there, by). elim there [
        | inl same ↦ absurd (ground (arith, ap p same))
        | inr later ↦ (selected_rows p rows r).1 (later, by)
      ],
    )
    | inl kept ↦ rw kept (
      (λ there. elim there [
        | inl same ↦ (inl same, ap p same ∙ kept)
        | inr later ↦ let (was, by) = (selected_rows p rows r).0 later in (inr was, by)
      ]),
      λ (there, by). elim there [
        | inl same ↦ inl same
        | inr later ↦ inr ((selected_rows p rows r).1 (later, by))
      ],
    )
  ]

  In-append : (xs ys : List Row) (r : Row) → In r (xs ++ ys) ↔ (In r ys ⊎ In r xs)
  In-append [] ys r =
      ((λ there. inl there), λ known. elim known [ inl there ↦ there | inr there ↦ absurd there ])
  In-append (x ∷ xs) ys r = (
    (λ there. elim there [
      | inl same ↦ inr (inl same)
      | inr later ↦ elim ((In-append xs ys r).0 later) [ inl a ↦ inl a | inr b ↦ inr (inr b) ]
    ]),
    λ known. elim known [
      | inl there ↦ inr ((In-append xs ys r).1 (inl there))
      | inr there ↦ elim there [
        | inl same ↦ inl same
        | inr later ↦ inr ((In-append xs ys r).1 (inr later))
      ]
    ],
  )

-- No query of it raises.
abbrev pub rows_of : (Row : Type 0) → Table Row
rows_of Row = record {
  Store = List Row;
  Has = In;
  first = λ p rows. some (first_row p rows);
  select = λ p rows. some (keep_if p rows);
  insert_all = λ new rows. some (new ++ rows);
  insert = λ x rows. some (x ∷ rows);
  update = λ p f rows. some (map (updated p f) rows);
  delete = λ p rows. some (keep_if (λ x. not (p x)) rows);
}

some_injective : {A : Type 0} (a b : A) → some a ≡ some b → a ≡ b
some_injective a b e = cc

pub rows_of-laws : (Row : Type 0) → TableLaws (rows_of Row)
rows_of-laws Row = record {
  first_some = λ p rows e. first_row-some p rows (cc);
  first_none = λ p rows e. first_row-none p rows (cc);
  In-select = λ p rows {rows = out} e r.
      subst (λ t. In r t ↔ (In r rows × (p r ≡ true))) (some_injective _ out e)
        (selected_rows p rows r);
  Has-insert_all = λ new rows {s'} e r.
      subst (λ t. In r t ↔ (In r rows ⊎ In r new)) (some_injective _ s' e) (In-append new rows r);
  Has-insert = λ x rows {s'} e r.
      let is = some_injective (x ∷ rows) s' e in
      (
        (λ there. elim (subst (In r) (sym is) there) [ inl same ↦ inr same | inr was ↦ inl was ]),
        λ known. subst (In r) is (elim known [ inl was ↦ inr was | inr same ↦ inl same ]),
      );
  update_old = λ p f rows {s'} e r there.
      update_rows_old p f rows r (subst (In r) (sym (some_injective _ s' e)) there);
  update_new = λ p f rows {s'} e q was.
      subst (In (updated p f q)) (some_injective _ s' e) (update_rows_new p f rows q was);
  Has-delete = λ p rows {s'} e r.
      subst (λ t. In r t ↔ (In r rows × (p r ≡ false))) (some_injective _ s' e)
        (kept_rows p rows r);
}

pub apart : (s t : Text) → text_eq s t ≡ false → s ≢ t
apart s t h e = ground (arith, text_eq_iff s t)

pub is_row : {Row : Type 0} (r x : Row) → In r (x ∷ []) → r ≡ x
is_row r x (inl same) = same
is_row r x (inr other) = absurd other
