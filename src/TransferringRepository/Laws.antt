-- ===== src/TransferringRepository/Laws.antt =====
-- transferring.repository.ts: a transfer that is saved is loaded again, its version included.
use tanta.Base.{
  String, ◌^◌, ◌<◌, ◌≡◌, refl, ◌∙◌, Bool, true, false, Option, some, eq_refl, if◌then◌else◌,
}
use mathlib.Core.Option
use tanta.Database.Keyed.{first, first-insert_self, first-update_self}
use tanta.Js.Decimal.{unary_plus-to_string}
use tanta.Money.{new_money}
use tanta.Shared.ConcurrencyControl.{TransactionControl, next, is_new, from_version}
use tanta.Shared.Exception.{ok}
use tanta.Tables.{TransferringRow}
use tanta.Transferring.{Transferring, set_transaction_control}
use tanta.TransferringRepository.{to_row, to_entity, entity_if_exists, save, load, insert, update}
use tanta.World.{Database, World}

read_back :
    (t : Transferring) (control : TransactionControl)
    → t.amount.value < 2 ^ 53
    → to_entity (to_row t control) ≡ ok (set_transaction_control t control)
unfolding to_row to_entity new_money from_version
read_back t control small = rw (unary_plus-to_string t.amount.value small)

module _ (db : Database) where
  -- The write of a save: an insert of a new row, or an update of the row with its id.
  abbrev pub put : Bool → TransferringRow → db.transferrings.Store → Option db.transferrings.Store
  put true row s = db.transferrings.insert row s
  put false row s = db.transferrings.update row.transferring_id row s

  abbrev pub row_of : Transferring → TransferringRow
  row_of t = to_row t (next t.transaction_control)

  abbrev pub written : Transferring → db.transferrings.Store → Option db.transferrings.Store
  written t = put (is_new (next t.transaction_control)) (row_of t)

  put-written :
      (new : Bool) (row : TransferringRow) (s : World db)
      → (if new then insert db row else update db row) s
        ≡ Option.map (λ t. record s { transferrings = t }) (put new row s.transferrings)
  put-written true row s = refl
  put-written false row s = refl

  put-first_self :
      (new : Bool) (row : TransferringRow) (s u : db.transferrings.Store)
      → (new ≡ false
          → (r : TransferringRow) × (first db.transferrings row.transferring_id s ≡ some r))
      → put new row s ≡ some u
      → first db.transferrings row.transferring_id u ≡ some row
  put-first_self true row s u present e = first-insert_self db.transferrings row s u e
  put-first_self false row s u present e =
      first-update_self db.transferrings row.transferring_id row s u (eq_refl row.transferring_id)
        (present refl).1 e

  load-some :
      (id : String) (s : World db) (row : TransferringRow)
      → first db.transferrings id s.transferrings ≡ some row
      → load db id s ≡ (entity_if_exists (some row), s)
  unfolding load
  load-some id s row e = rw e

  written-first :
      (t : Transferring) (s : World db) (u : db.transferrings.Store)
      → (is_new (next t.transaction_control) ≡ false
          → (r : TransferringRow) × (first db.transferrings t.transferring_id s.transferrings
              ≡ some r))
      → written t s.transferrings ≡ some u
      → first db.transferrings t.transferring_id u ≡ some (row_of t)
  unfolding to_row
  written-first t s u present taken =
      put-first_self (is_new (next t.transaction_control)) (row_of t) s.transferrings u present
        taken

  -- If the server takes the row of a transfer of less than 2^53, which is there already unless the
  -- transfer is new, then a save returns the transfer with the next version, and a load of its id
  -- gives exactly what the save returned.
  pub load-save :
      (t : Transferring) (s : World db) (u : db.transferrings.Store)
      → t.amount.value < 2 ^ 53
      → (is_new (next t.transaction_control) ≡ false
          → (r : TransferringRow) × (first db.transferrings t.transferring_id s.transferrings
              ≡ some r))
      → written t s.transferrings ≡ some u
      → (save db t s ≡ (
        ok (set_transaction_control t (next t.transaction_control)),
        record s { transferrings = u },
      ))
        × (load db t.transferring_id (record s { transferrings = u }) ≡ (
          ok (some (set_transaction_control t (next t.transaction_control))),
          record s { transferrings = u },
        ))
  unfolding save
  load-save t s u small present taken =
      let control = next t.transaction_control in
      (
        rw (put-written (is_new control) (to_row t control) s, taken) refl,
        load-some t.transferring_id (record s { transferrings = u }) (row_of t)
              (written-first t s u present taken)
            ∙ rw (read_back t control small) refl,
      )
