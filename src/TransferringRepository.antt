-- ===== src/TransferringRepository.antt =====
-- wallet/src/features/transferring/transferring.repository.ts. No service uses it yet.
pub mod Laws
use tanta.Base.{String, Bool, true, false, Option, none, some, List, str_eq, head?, if◌then◌else◌}
use mathlib.Core.Option
use tanta.Js.Decimal.{to_string, unary_plus}
use tanta.Money.{new_money, get_value, get_currency}
use tanta.Shared.ConcurrencyControl.{TransactionControl, next, is_new, from_version, get_version}
use tanta.Shared.Exception.{Result, ok, throw, transferring, persistence}
use tanta.Shared.Exception
use tanta.Tables.{TransferringRow}
use tanta.Transferring.{Transferring, set_transaction_control, get_transaction_control}
use tanta.World.{Database, World, Action, pure, lift, gets, ◌>>=◌, ◌>>◌, write_or}

unfoldable pub to_row : Transferring → TransactionControl → TransferringRow
to_row t control = record {
  transferring_id = t.transferring_id;
  sender_wallet_id = t.sender_wallet_id;
  receiver_wallet_id = t.receiver_wallet_id;
  sender_debit_transaction_id = t.sender_debit_transaction_id;
  receiver_debit_transaction_id = t.receiver_debit_transaction_id;
  amount_value = to_string (get_value t.amount);
  amount_currency = get_currency t.amount;
  status = t.status;
  notification_type = t.notification_type;
  version = get_version control;
}

unfoldable pub to_entity : TransferringRow → Result Transferring
to_entity row =
    Exception.◌>>=◌ (new_money (unary_plus row.amount_value) row.amount_currency) λ amount.
      ok (record {
        transferring_id = row.transferring_id;
        sender_wallet_id = row.sender_wallet_id;
        receiver_wallet_id = row.receiver_wallet_id;
        sender_debit_transaction_id = row.sender_debit_transaction_id;
        receiver_debit_transaction_id = row.receiver_debit_transaction_id;
        amount = amount;
        status = row.status;
        notification_type = row.notification_type;
        transaction_control = from_version row.version;
      })

-- `first()` on no row gives nothing, and the method returns null.
abbrev pub entity_if_exists : Option TransferringRow → Result (Option Transferring)
entity_if_exists none = ok none
entity_if_exists (some row) = Exception.◌>>=◌ (to_entity row) λ t. ok (some t)

module _ (db : Database) where
  abbrev put_transferrings : World db → Option db.transferrings.Store → Option (World db)
  put_transferrings s = Option.map (λ t. record s { transferrings = t })

  abbrev pub insert : TransferringRow → World db → Option (World db)
  insert row s = put_transferrings s (db.transferrings.insert row s.transferrings)

  abbrev pub update : TransferringRow → World db → Option (World db)
  update row s =
      put_transferrings s (db.transferrings.update row.transferring_id row s.transferrings)

  -- The transfer that is handed in gets the new control; the updated object is the result.
  unfoldable pub save : Transferring → Action db Transferring
  save t = do
    let control = next (get_transaction_control t)
    let row = to_row t control
    write_or (if is_new control then insert row else update row) (transferring persistence)
    pure (set_transaction_control t control)

  unfoldable pub load : String → Action db (Option Transferring)
  load transferring_id = do
    row ← gets (λ s.
        head?
          (db.transferrings.where_ (λ r. str_eq r.transferring_id transferring_id) s.transferrings))
    lift (entity_if_exists row)
