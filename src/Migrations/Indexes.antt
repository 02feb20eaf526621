-- ===== src/Migrations/Indexes.antt =====
-- The primary keys and the unique indexes of the migrations, against the rows of the repositories.
use tanta.Base.{String, ◌≡◌, ◌≢◌, ◌↔◌, refl, sym, ap, ◌∙◌, some, List, [], ◌∷◌, map, All}
use mathlib.Core.Path.{subst}
use tanta.Migrations.{TableSchema, wallet_table, transaction_table, transferring_table}
use tanta.Migrations.Columns.{
  characters, Field, lookup, wallet_fields, transaction_fields, transferring_fields,
}
use tanta.Tables.{WalletRow, TransactionRow, TransferringRow}

-- Two rows have the same values in the columns named.
abbrev Agrees : List String → List Field → List Field → Type 0
Agrees names fs gs = All (λ name. lookup name fs ≡ lookup name gs) names

-- What a primary key and a unique index ask of a new row: no row agrees with it in all their
-- columns.
abbrev pub IsFree : TableSchema → List Field → List (List Field) → Type 0
IsFree schema fs rows =
    All (λ gs. ¬ Agrees (schema.primary ∷ []) fs gs) rows
    × All (λ gs. ¬ Agrees schema.unique_index fs gs) rows

module _ {Row : Type 0} (schema : TableSchema) (fields : Row → List Field) (key : Row → String)
    (rest : List String) (index : schema.unique_index ≡ schema.primary ∷ rest)
    (keyed : (r : Row) → lookup schema.primary (fields r) ≡ some (characters (key r))) where
  same_key :
      (r x : Row)
      → lookup schema.primary (fields r) ≡ lookup schema.primary (fields x)
      → key x ≡ key r
  same_key r x h = cc (keyed r, keyed x, h)

  IsFree-iff :
      (r : Row) (rows : List Row)
      → IsFree schema (fields r) (map fields rows) ↔ All (λ x. key x ≢ key r) rows
  IsFree-iff r [] = (λ _. tt, λ _. (tt, tt))
  IsFree-iff r (x ∷ xs) =
      let (down, up) = IsFree-iff r xs in
      (
        λ ((p, ps), (q, qs)). (
          λ same. p (keyed r ∙ ap (λ k. some (characters k)) (sym same) ∙ sym (keyed x), tt),
          down (ps, qs),
        ),
        λ (other, others).
            let (ps, qs) = up others in
            (
              ((λ agree. other (same_key r x agree.0)), ps),
              (
                (λ agree. other (
                    same_key r x
                      (subst (λ names. Agrees names (fields r) (fields x)) index agree).0)),
                qs,
              ),
            ),
      )

-- Of each table, the unique index asks no more than the primary key: a new row is accepted by both
-- exactly if its id is free, whatever its version is and, for a transaction, whatever versions its
-- wallet has.
pub IsFree-id_iff :
    ((r : WalletRow) (rows : List WalletRow)
      → IsFree wallet_table (wallet_fields r) (map wallet_fields rows)
        ↔ All (λ x. x.wallet_id ≢ r.wallet_id) rows)
    × ((r : TransactionRow) (rows : List TransactionRow)
        → IsFree transaction_table (transaction_fields r) (map transaction_fields rows)
          ↔ All (λ x. x.transaction_id ≢ r.transaction_id) rows)
    × ((r : TransferringRow) (rows : List TransferringRow)
        → IsFree transferring_table (transferring_fields r) (map transferring_fields rows)
          ↔ All (λ x. x.transferring_id ≢ r.transferring_id) rows)
IsFree-id_iff = (
  IsFree-iff wallet_table wallet_fields (λ r. r.wallet_id) _ refl λ r. refl,
  IsFree-iff transaction_table transaction_fields (λ r. r.transaction_id) _ refl λ r. refl,
  IsFree-iff transferring_table transferring_fields (λ r. r.transferring_id) _ refl λ r. refl,
)
