-- ===== src/Database.antt =====
-- The tables of the database, as the program uses them (agent/auth_router.py, agent/auth_deps.py and
-- the routers beside them, through the Supabase client). The database is not part of the repository:
-- a table is a parameter, with the documented effect of each query on the rows that it holds.
pub mod Only
use agentic_rag_backend.Base.{
  ◌≡◌, ◌↔◌, ◌⊎◌, Bool, true, false, Option, none, some, List, [], ◌∷◌, if◌then◌else◌,
}

-- Membership in a list of rows.
abbrev pub In : {Row : Type 0} → Row → List Row → Type 0
In r [] = ⊥
In r (x ∷ rows) = (r ≡ x) ⊎ In r rows

-- The contents of a table, the rows it holds, and the queries: each is `none` where it raises.
-- `first p` is a selection with the filter `p` and `limit(1)`.
pub record Table (Row : Type 0) : Type 1 where
  pub Store : Type 0
  pub Has : Row → Store → Type 0
  pub first : (Row → Bool) → Store → Option (Option Row)
  pub select : (Row → Bool) → Store → Option (List Row)
  pub insert : Row → Store → Option Store
  pub insert_all : List Row → Store → Option Store
  pub update : (Row → Bool) → (Row → Row) → Store → Option Store
  pub delete : (Row → Bool) → Store → Option Store

-- A row after `update p f`.
abbrev pub updated : {Row : Type 0} → (Row → Bool) → (Row → Row) → Row → Row
updated p f r = if p r then f r else r

-- What the documentation says of the queries that succeed.
pub record TableLaws {Row : Type 0} (t : Table Row) : Type 0 where
  pub first_some :
      (p : Row → Bool) (s : t.Store) {r : Row}
      → t.first p s ≡ some (some r)
      → t.Has r s × (p r ≡ true)
  pub first_none :
      (p : Row → Bool) (s : t.Store) → t.first p s ≡ some none → (r : Row) → t.Has r s → p r ≡ false
  pub In-select :
      (p : Row → Bool) (s : t.Store) {rows : List Row}
      → t.select p s ≡ some rows
      → (r : Row) → In r rows ↔ (t.Has r s × (p r ≡ true))
  pub Has-insert_all :
      (rows : List Row) (s : t.Store) {s' : t.Store}
      → t.insert_all rows s ≡ some s'
      → (r : Row) → t.Has r s' ↔ (t.Has r s ⊎ In r rows)
  pub Has-insert :
      (x : Row) (s : t.Store) {s' : t.Store}
      → t.insert x s ≡ some s'
      → (r : Row) → t.Has r s' ↔ (t.Has r s ⊎ (r ≡ x))
  pub update_old :
      (p : Row → Bool) (f : Row → Row) (s : t.Store) {s' : t.Store}
      → t.update p f s ≡ some s'
      → (r : Row) → t.Has r s'
      → (q : Row) × t.Has q s × (r ≡ updated p f q)
  pub update_new :
      (p : Row → Bool) (f : Row → Row) (s : t.Store) {s' : t.Store}
      → t.update p f s ≡ some s'
      → (q : Row) → t.Has q s
      → t.Has (updated p f q) s'
  pub Has-delete :
      (p : Row → Bool) (s : t.Store) {s' : t.Store}
      → t.delete p s ≡ some s'
      → (r : Row) → t.Has r s' ↔ (t.Has r s × (p r ≡ false))
