-- ===== src/WalletRepository.antt =====
-- wallet/src/features/wallet/wallet.repository.ts

pub mod Laws
pub mod Load
pub mod Pages
pub mod Found
use tanta.Base.{
  ℕ, String, Bool, true, false, Option, none, some, List, [], ◌∷◌, str_eq, head?, take, drop,
  if◌then◌else◌,
}
use mathlib.Core.Option
use tanta.Js.Decimal.{to_string, unary_plus}
use tanta.Money.{new_money, get_value, get_currency}
use tanta.Shared.ConcurrencyControl.{
  TransactionControl, next, is_new, from_state, clone, increment_version,
}
use tanta.Shared.DateTime.{new_date_time, to_date}
use tanta.Shared.Exception.{Exception, Result, ok, throw, wallet, persistence, not_found}
use tanta.Shared.Exception
use tanta.Shared.Pagination.{Pagination}
use tanta.Tables.{WalletRow}
use tanta.Wallet.{
  Wallet, BalanceType, ideal, overdraft, set_transaction_control, get_transaction_control,
}
use tanta.World.{Database, World, Action, pure, lift, gets, ◌>>=◌, ◌>>◌, write_or}

abbrev pub is_ideal : BalanceType → Bool
is_ideal ideal = true
is_ideal overdraft = false

unfoldable pub to_row : Wallet → TransactionControl → WalletRow
to_row w control = record {
  wallet_id = w.wallet_id;
  user_id = w.user_id;
  balance_value = to_string (get_value w.balance);
  balance_currency = get_currency w.balance;
  balance_type = is_ideal w.balance_type;
  last_transaction_version = w.last_transaction_version;
  created_at = to_date w.created_at;
  version = is_new control;
}

unfoldable pub to_entity : WalletRow → Result Wallet
to_entity row =
    Exception.◌>>=◌ (new_money (unary_plus row.balance_value) row.balance_currency) λ balance.
      ok (record {
        wallet_id = row.wallet_id;
        user_id = row.user_id;
        balance = balance;
        balance_type = if row.balance_type then ideal else overdraft;
        last_transaction_version = row.last_transaction_version;
        created_at = new_date_time row.created_at;
        transaction_control = from_state row.version;
      })

abbrev to_entities : List WalletRow → Result (List Wallet)
to_entities [] = ok []
to_entities (row ∷ rows) =
    Exception.◌>>=◌ (to_entity row) λ w. Exception.◌>>=◌ (to_entities rows) λ ws. ok (w ∷ ws)

module _ (db : Database) where
  abbrev put_wallets : World db → Option db.wallets.Store → Option (World db)
  put_wallets s = Option.map (λ t. record s { wallets = t })

  abbrev pub insert : WalletRow → World db → Option (World db)
  insert row s = put_wallets s (db.wallets.insert row s.wallets)

  abbrev pub update : WalletRow → World db → Option (World db)
  update row s = put_wallets s (db.wallets.update row.wallet_id row s.wallets)

  -- The wallet that is handed in gets the new control; the updated object is the result.
  unfoldable pub save : Wallet → Action db Wallet
  save w = do
    let control = next (get_transaction_control w)
    let row = to_row w control
    write_or (if is_new control then insert row else update row) (wallet persistence)
    pure (set_transaction_control w control)

  -- `first()` on no row gives nothing, and the method throws.
  abbrev or_not_found : Option WalletRow → Result Wallet
  or_not_found none = throw (wallet not_found)
  or_not_found (some row) = to_entity row

  unfoldable pub get_wallet_by_id : String → Action db Wallet
  get_wallet_by_id wallet_id = do
    row ← gets (λ s. head? (db.wallets.where_ (λ r. str_eq r.wallet_id wallet_id) s.wallets))
    lift (or_not_found row)

  unfoldable pub get_wallets_by_user : String → Pagination → Action db (List Wallet)
  get_wallets_by_user user_id page = do
    rows ← gets (λ s.
        db.wallets.where_ordered (λ r. str_eq r.user_id user_id) (λ r. r.created_at) s.wallets)
    lift (to_entities (take page.limit (drop page.offset rows)))
