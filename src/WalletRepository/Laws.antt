-- ===== src/WalletRepository/Laws.antt =====
-- wallet.repository.ts: what is saved is what is loaded, and nothing else changes.
use tanta.Base.{
  String, ◌^◌, ◌<◌, ◌≡◌, ◌≢◌, refl, ◌∙◌, inl, inr, Bool, true, false, Option, none, some,
  Option-cases, arith, eq_iff, eq_refl, if◌then◌else◌,
}
use mathlib.Core.Option
use tanta.Database.Keyed.{
  first, first-insert_self, first-insert_ne, first-update_self, first-update_ne,
}
use tanta.Js.Decimal.{unary_plus_printed}
use tanta.Js.Int.{pos}
use tanta.Js.Number.{int, double, double_exact}
use tanta.Money.{new_money}
use tanta.Shared.ConcurrencyControl.{TransactionControl, next, is_new, from_state}
use tanta.Shared.Exception.{ok, throw, wallet, persistence, not_found}
use tanta.Tables.{WalletRow}
use tanta.Wallet.{Wallet, ideal, overdraft, BalanceType, set_transaction_control}
use tanta.WalletRepository.{is_ideal, to_row, to_entity, save, get_wallet_by_id, insert, update}
use tanta.World.{Database, World}

-- The wallet that a load gives after the save of `w`: only the control is read back coarser.
abbrev pub reloaded : Wallet → Wallet
reloaded w = set_transaction_control w (from_state (is_new (next w.transaction_control)))

is_ideal_back : (t : BalanceType) → (if is_ideal t then ideal else overdraft) ≡ t
is_ideal_back ideal = refl
is_ideal_back overdraft = refl

-- Every field of a wallet survives the row if its balance is a double; the control comes back as
-- its new flag.
pub to_entity-to_row-double :
    (w : Wallet) (control : TransactionControl)
    → double w.balance.value ≡ int (pos w.balance.value)
    → to_entity (to_row w control) ≡ ok (set_transaction_control w (from_state (is_new control)))
unfolding to_row to_entity new_money
to_entity-to_row-double w control fits =
    rw (unary_plus_printed w.balance.value ∙ fits, is_ideal_back w.balance_type)

-- So it is below 2^53.
pub to_entity-to_row :
    (w : Wallet) (control : TransactionControl)
    → w.balance.value < 2 ^ 53
    → to_entity (to_row w control) ≡ ok (set_transaction_control w (from_state (is_new control)))
to_entity-to_row w control small =
    to_entity-to_row-double w control (double_exact w.balance.value small)

to_row-wallet_id :
    (w : Wallet) (control : TransactionControl) → (to_row w control).wallet_id ≡ w.wallet_id
unfolding to_row
to_row-wallet_id w control = refl

module _ (db : Database) where
  -- The write that a save makes: an insert of a new row, or an update of the row with its id.
  abbrev pub put : Bool → WalletRow → db.wallets.Store → Option db.wallets.Store
  put true row s = db.wallets.insert row s
  put false row s = db.wallets.update row.wallet_id row s

  abbrev pub write : Wallet → db.wallets.Store → Option db.wallets.Store
  write w = put (is_new (next w.transaction_control)) (to_row w (next w.transaction_control))

  put-write :
      (new : Bool) (row : WalletRow) (s : World db)
      → (if new then insert db row else update db row) s
        ≡ Option.map (λ t. record s { wallets = t }) (put new row s.wallets)
  put-write true row s = refl
  put-write false row s = refl

  -- A save whose row the server takes returns the wallet with the next control.
  pub save_taken :
      (w : Wallet) (s : World db) (t : db.wallets.Store)
      → write w s.wallets ≡ some t
      → save db w s
        ≡ (ok (set_transaction_control w (next w.transaction_control)), record s { wallets = t })
  unfolding save
  save_taken w s t taken =
      let control = next w.transaction_control in
      rw (put-write (is_new control) (to_row w control) s, taken) refl

  -- A save that the server refuses throws, and the world is as it was.
  pub save_refused :
      (w : Wallet) (s : World db)
      → write w s.wallets ≡ none
      → save db w s ≡ (throw (wallet persistence), s)
  unfolding save
  save_refused w s refused =
      let control = next w.transaction_control in
      rw (put-write (is_new control) (to_row w control) s, refused) refl

  put-first_self :
      (new : Bool) (row : WalletRow) (s t : db.wallets.Store)
      → (new ≡ false → (r : WalletRow) × (first db.wallets row.wallet_id s ≡ some r))
      → put new row s ≡ some t
      → first db.wallets row.wallet_id t ≡ some row
  put-first_self true row s t present e = first-insert_self db.wallets row s t e
  put-first_self false row s t present e =
      first-update_self db.wallets row.wallet_id row s t (eq_refl row.wallet_id) (present refl).1 e

  pub put-first_ne :
      (new : Bool) (row : WalletRow) (id : String) (s t : db.wallets.Store)
      → row.wallet_id ≢ id
      → put new row s ≡ some t
      → first db.wallets id t ≡ first db.wallets id s
  put-first_ne true row id s t ne e =
      first-insert_ne db.wallets id row s t (ground (arith, eq_iff row.wallet_id id)) e
  put-first_ne false row id s t ne e =
      first-update_ne db.wallets id row.wallet_id row s t (eq_refl row.wallet_id)
        (ground (arith, eq_iff row.wallet_id id)) e

  -- What a load gives is the entity of the row that is found.
  pub get_wallet_by_id-some :
      (id : String) (s : World db) (row : WalletRow)
      → first db.wallets id s.wallets ≡ some row
      → get_wallet_by_id db id s ≡ (to_entity row, s)
  unfolding get_wallet_by_id
  get_wallet_by_id-some id s row e = rw e

  pub get_wallet_by_id-none :
      (id : String) (s : World db)
      → first db.wallets id s.wallets ≡ none
      → get_wallet_by_id db id s ≡ (throw (wallet not_found), s)
  unfolding get_wallet_by_id
  get_wallet_by_id-none id s e = rw e

  -- A row with the id is there, unless the wallet is new.
  abbrev pub IsPresent : Wallet → World db → Type 0
  IsPresent w s =
      is_new (next w.transaction_control) ≡ false
      → (r : WalletRow) × (first db.wallets w.wallet_id s.wallets ≡ some r)

  write-first_self :
      (w : Wallet) (s : World db) (t : db.wallets.Store)
      → IsPresent w s
      → write w s.wallets ≡ some t
      → first db.wallets w.wallet_id t ≡ some (to_row w (next w.transaction_control))
  unfolding to_row
  write-first_self w s t present taken =
      put-first_self (is_new (next w.transaction_control)) _ s.wallets t present taken

  write-first_ne :
      (w : Wallet) (id : String) (s : World db) (t : db.wallets.Store)
      → w.wallet_id ≢ id
      → write w s.wallets ≡ some t
      → first db.wallets id t ≡ first db.wallets id s.wallets
  unfolding to_row
  write-first_ne w id s t ne taken =
      put-first_ne (is_new (next w.transaction_control)) _ id s.wallets t ne taken

  -- After a write that the server takes, the wallet loads as it was saved, its control as its new
  -- flag: below 2^53, and for a wallet that is not new if its row is there.
  pub get_wallet_by_id-save :
      (w : Wallet) (s : World db) (t : db.wallets.Store)
      → w.balance.value < 2 ^ 53
      → IsPresent w s
      → write w s.wallets ≡ some t
      → (save db w s
          ≡ (ok (set_transaction_control w (next w.transaction_control)), record s { wallets = t }))
        × (get_wallet_by_id db w.wallet_id (record s { wallets = t })
            ≡ (ok (reloaded w), record s { wallets = t }))
  get_wallet_by_id-save w s t small present taken = (
    save_taken w s t taken,
    get_wallet_by_id-some w.wallet_id (record s { wallets = t })
          (to_row w (next w.transaction_control)) (write-first_self w s t present taken)
        ∙ rw (to_entity-to_row w (next w.transaction_control) small) refl,
  )

  -- A save, also one that throws, changes what is loaded under no other id.
  pub get_wallet_by_id-save_ne :
      (w : Wallet) (id : String) (s : World db)
      → w.wallet_id ≢ id
      → (get_wallet_by_id db id (save db w s).1).0 ≡ (get_wallet_by_id db id s).0
  unfolding get_wallet_by_id
  get_wallet_by_id-save_ne w id s ne = elim (Option-cases (write w s.wallets)) [
    | inl refused ↦ rw (save_refused w s refused)
    | inr (t, taken) ↦ rw (save_taken w s t taken, write-first_ne w id s t ne taken)
  ]
