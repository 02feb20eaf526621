-- ===== src/Database.antt =====
-- The database as the repositories use it: one table behind knex's query builder and Postgres,
-- which are not part of the repository. `Table` is the interface that the repositories take, with
-- the documented behaviour that their proofs rely on. A write that the server refuses (a taken
-- primary key, a value out of the column's range, a lost connection) is `none`; a read is taken to
-- succeed. Rows come back in no particular order unless a query asks for one, and rows with equal
-- keys of `orderBy` in any order.
pub mod Memory
pub mod Keyed
use tanta.Base.{
  ℕ, String, ◌≡◌, ◌≢◌, Option, some, List, ◌∷◌, str_eq, All, select, replace, IsSorted, Bool, false,
  [],
}
use mathlib.Core.List.{Permᴰ}

-- No two rows have the same key.
abbrev pub IsDistinct : {Row : Type 0} → (Row → String) → List Row → Type 0
IsDistinct key [] = Unit
IsDistinct key (r ∷ rs) = All (λ x. str_eq (key x) (key r) ≡ false) rs × IsDistinct key rs

pub record Table (Row : Type 0) (key : Row → String) : Type 1 where
  -- What the server holds for the table, and its rows.
  pub Store : Type 0
  pub rows : Store → List Row
  -- `.insert(row)`, and `.where(key).update(row)` with a row that gives every column.
  pub insert : Row → Store → Option Store
  pub update : String → Row → Store → Option Store
  -- `.where(test)`, and the same with `.orderBy(column, 'asc')`.
  pub where_ : (Row → Bool) → Store → List Row
  pub where_ordered : (Row → Bool) → (Row → ℕ) → Store → List Row
  -- `.truncate()`
  pub truncate : Store → Store
  -- The primary key of the migration.
  pub primary_key : (s : Store) → IsDistinct key (rows s)
  -- An insert that goes through adds the row, and its primary key was free.
  pub insert_rows : (r : Row) (s t : Store) → insert r s ≡ some t → Permᴰ (rows t) (r ∷ rows s)
  pub insert_key :
      (r : Row) (s t : Store)
      → insert r s ≡ some t
      → All (λ x. str_eq (key x) (key r) ≡ false) (rows s)
  -- An update that goes through overwrites the rows with the key, and those alone.
  pub update_rows :
      (k : String) (r : Row) (s t : Store)
      → update k r s ≡ some t
      → Permᴰ (rows t) (replace (λ x. str_eq (key x) k) r (rows s))
  pub truncate_rows : (s : Store) → rows (truncate s) ≡ []
  -- A query gives the rows that pass its test, each as often as it is there.
  pub where_rows : (p : Row → Bool) (s : Store) → Permᴰ (where_ p s) (select p (rows s))
  pub where_ordered_rows :
      (p : Row → Bool) (f : Row → ℕ) (s : Store) → Permᴰ (where_ordered p f s) (select p (rows s))
  pub where_ordered_sorted :
      (p : Row → Bool) (f : Row → ℕ) (s : Store) → IsSorted f (where_ordered p f s)
