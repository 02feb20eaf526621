-- ===== src/TransactionRepository.antt =====
-- wallet/src/features/transaction/transaction.repository.ts
pub mod Laws
pub mod After
pub mod Oldest
pub mod Numbered
use tanta.Base.{
  ℕ, ◌+◌, String, Bool, true, false, Option, none, some, List, [], ◌∷◌, str_eq, head?, ltb,
  if◌then◌else◌,
}
use mathlib.Core.Option
use tanta.Js.Decimal.{to_string, unary_plus}
use tanta.Money.{new_money, get_value, get_currency}
use tanta.Shared.ConcurrencyControl.{
  TransactionControl, next, from_version, clone, increment_version,
}
use tanta.Shared.DateTime.{new_date_time, to_date}
use tanta.Shared.Exception.{Exception, Result, ok, throw, transaction, persistence}
use tanta.Shared.Exception
use tanta.Tables.{TransactionRow}
use tanta.Transaction.{Transaction, set_transaction_control, get_transaction_control}
use tanta.World.{Database, World, Action, pure, lift, gets, ◌>>=◌, ◌>>◌, write_or}

unfoldable pub to_row : Transaction → TransactionControl → TransactionRow
to_row t control = record {
  wallet_id = t.wallet_id;
  transaction_id = t.transaction_id;
  amount_value = to_string (get_value t.amount);
  amount_currency = get_currency t.amount;
  type = t.type;
  created_at = to_date t.created_at;
  version = control.version;
}

unfoldable pub to_entity : TransactionRow → Result Transaction
to_entity row =
    Exception.◌>>=◌ (new_money (unary_plus row.amount_value) row.amount_currency) λ amount.
      ok (record {
        transaction_id = row.transaction_id;
        wallet_id = row.wallet_id;
        amount = amount;
        type = row.type;
        created_at = new_date_time row.created_at;
        transaction_control = from_version row.version;
      })

abbrev pub to_entities : List TransactionRow → Result (List Transaction)
to_entities [] = ok []
to_entities (row ∷ rows) =
    Exception.◌>>=◌ (to_entity row) λ t. Exception.◌>>=◌ (to_entities rows) λ ts. ok (t ∷ ts)

-- The row of `first()`, if there is one, as an entity.
abbrev pub entity_if_exists : Option TransactionRow → Result (Option Transaction)
entity_if_exists none = ok none
entity_if_exists (some row) = Exception.◌>>=◌ (to_entity row) λ t. ok (some t)

module _ (db : Database) where
  abbrev pub insert : TransactionRow → World db → Option (World db)
  insert row s =
      Option.map (λ t. record s { transactions = t }) (db.transactions.insert row s.transactions)

  -- Always an insert. The transaction that is handed in gets the new control.
  unfoldable pub save : Transaction → Action db Transaction
  save t = do
    let control = next (get_transaction_control t)
    write_or (insert (to_row t control)) (transaction persistence)
    pure (set_transaction_control t control)

  -- The name says last; the query sorts by ascending time and takes the first.
  unfoldable pub get_last_if_exists_by : String → Action db (Option Transaction)
  get_last_if_exists_by wallet_id = do
    rows ← gets λ s.
        db.transactions.where_ordered (λ r. str_eq r.wallet_id wallet_id) (λ r. r.created_at)
          s.transactions
    lift (entity_if_exists (head? rows))

  -- The transactions of all wallets above a version.
  unfoldable pub get_all_in_asc_order_after : ℕ → Action db (List Transaction)
  get_all_in_asc_order_after version = do
    rows ← gets λ s.
        db.transactions.where_ordered (λ r. ltb version r.version) (λ r. r.created_at)
          s.transactions
    lift (to_entities rows)

  unfoldable pub get_transaction_if_exists : String → Action db (Option Transaction)
  get_transaction_if_exists transaction_id = do
    rows ←
        gets
          (λ s. db.transactions.where_ (λ r. str_eq r.transaction_id transaction_id) s.transactions)
    lift (entity_if_exists (head? rows))
