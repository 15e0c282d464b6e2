-- ===== src/Database/Only.antt =====
-- The only row of a table that passes a filter, through the queries.
use agentic_rag_backend.Base.{
  ◌≡◌, refl, sym, ◌∙◌, ap, Bool, true, false, Option, none, some, inl, inr, arith,
}
use agentic_rag_backend.Database.{Table, TableLaws, updated}

pub record Only {Row : Type 0} (t : Table Row) (p : Row → Bool) (x : Row) (s : t.Store)
    : Type 0 where
  pub there : t.Has x s
  pub passes : p x ≡ true
  pub unique : (r : Row) → t.Has r s → p r ≡ true → r ≡ x

module _ {Row : Type 0} (t : Table Row) (laws : TableLaws t) (p : Row → Bool) where
  -- A new row where there was none.
  pub insert-Only :
      (x : Row) (s : t.Store) (s' : t.Store)
      → ((r : Row) → t.Has r s → p r ≡ false)
      → p x ≡ true
      → t.insert x s ≡ some s'
      → Only t p x s'
  insert-Only x s s' nobody passes e = record {
    there = (laws.Has-insert x s {s' = s'} e x).1 (inr refl);
    passes = passes;
    unique = λ r there by. elim ((laws.Has-insert x s {s' = s'} e r).0 there) [
      | inl old ↦ absurd (ground (arith, nobody r old))
      | inr new ↦ new
    ];
  }

  -- A selection finds it.
  pub first-Only :
      (x : Row) (s : t.Store) (o : Option Row) → Only t p x s → t.first p s ≡ some o → o ≡ some x
  first-Only x s none only e =
      absurd (ground (arith, laws.first_none p s e x only.there, only.passes))
  first-Only x s (some r) only e =
      let (there, by) = laws.first_some p s {r = r} e in ap some (only.unique r there by)

  -- An update that the filter does not see keeps it the only one.
  pub update-Only :
      (q : Row → Bool) (f : Row → Row) (x : Row) (s : t.Store) (s' : t.Store)
      → ((r : Row) → p (f r) ≡ p r)
      → Only t p x s
      → t.update q f s ≡ some s'
      → Only t p (updated q f x) s'
  update-Only q f x s s' blind only e = record {
    there = laws.update_new q f s {s' = s'} e x only.there;
    passes = unseen x ∙ only.passes;
    unique = λ r there by.
        let (was, old, is) = laws.update_old q f s {s' = s'} e r there in
        is ∙ ap (updated q f) (only.unique was old (sym (unseen was) ∙ (ap p (sym is) ∙ by)));
  }
    where
      unseen : (r : Row) → p (updated q f r) ≡ p r
      unseen r = ground (arith, blind r)
