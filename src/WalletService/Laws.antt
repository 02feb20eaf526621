-- ===== src/WalletService/Laws.antt =====
-- wallet.service.ts: creating a wallet, and updating its balance.
use tanta.Base.{suc, String, ◌≡◌, refl, true, none, some, arith, List}
use tanta.Balance.{apply_transactions}
use tanta.Js.Int.{pos}
use tanta.Shared.ConcurrencyControl.{next, is_new, from_state, init, clone, increment_version}
use tanta.Shared.Exception.{Result, ok, throw, wallet, persistence}
use tanta.Transaction.{Transaction}
use tanta.Wallet
use tanta.Wallet.{
  Wallet, ideal, overdraft, BalanceType, set_transaction_control, get_balance_as_num, get_state,
}
use tanta.WalletRepository
use tanta.WalletRepository.{to_entity, save}
use tanta.WalletRepository.Laws.{write, reloaded, save_refused, get_wallet_by_id-save}
use tanta.WalletRepository.Load.{load}
use tanta.WalletService.{create, get_wallet_by_id, update_balance}
use tanta.World.{Database, World, lift, ◌>>=◌}

module _ (db : Database) where
  -- The world with a time and an id drawn.
  abbrev pub drawn : World db → World db
  drawn s = record s { uuids = λ n. s.uuids (suc n); times = λ n. s.times (suc n) }

  abbrev pub new_wallet : String → World db → Wallet
  new_wallet user_id s = Wallet.create user_id (s.uuids 0) (record { time_in_ms = s.times 0 })

  -- If the server takes the row, `create` returns a wallet under the drawn id that belongs to the
  -- user, holds 0 and has no transactions, and the wallet that loads under that id is the same but
  -- for its control, which still counts as new.
  pub create-get_wallet_by_id :
      (user_id : String) (s : World db) (t : db.wallets.Store)
      → write db (new_wallet user_id s) s.wallets ≡ some t
      → (w : Wallet) × (w' : Wallet) × (s' : World db) × (create db user_id s ≡ (ok w, s'))
        × (get_wallet_by_id db (s.uuids 0) s' ≡ (ok w', s'))
        × (get_state w ≡ get_state w')
        × (w.wallet_id ≡ s.uuids 0)
        × (w.user_id ≡ user_id)
        × (get_balance_as_num w ≡ pos 0)
        × (w.last_transaction_version ≡ 0)
        × (is_new w'.transaction_control ≡ true)
  unfolding create get_wallet_by_id Wallet.create is_new from_state init clone increment_version
  create-get_wallet_by_id user_id s t taken =
      let new = new_wallet user_id s in
      let (returns, loads) =
        get_wallet_by_id-save db new (drawn s) t (omega arith) (λ old. cc) taken in
      (
        set_transaction_control new (next new.transaction_control),
        reloaded new,
        record (drawn s) { wallets = t },
        returns,
        loads,
        refl,
        refl,
        refl,
        refl,
        refl,
        refl,
      )

  -- A refused row leaves no trace in the tables.
  pub create_refused :
      (user_id : String) (s : World db)
      → write db (new_wallet user_id s) s.wallets ≡ none
      → create db user_id s ≡ (throw (wallet persistence), drawn s)
  unfolding create
  create_refused user_id s refused = save_refused db (new_wallet user_id s) (drawn s) refused

  -- What `update_balance` does, by what it loads and what the loop says.
  abbrev pub after_loop : Result Wallet → World db → Result Wallet × World db
  after_loop (throw e) s = (throw e, s)
  after_loop (ok w) s = save db w s

  abbrev pub after_load : List Transaction → Result Wallet → World db → Result Wallet × World db
  after_load ts (throw e) s = (throw e, s)
  after_load ts (ok w) s = after_loop (apply_transactions w ts) s

  pub update_balance_lem :
      (id : String) (ts : List Transaction) (s : World db)
      → update_balance db id ts s ≡ after_load ts (load db id s) s
  unfolding update_balance WalletRepository.get_wallet_by_id
  update_balance_lem id ts s = by_load (load db id s)
    where
      by_loop : (r : Result Wallet) → (lift r >>= save db) s ≡ after_loop r s
      by_loop (ok w) = refl
      by_loop (throw e) = refl

      by_load :
          (r : Result Wallet)
          → (lift r >>= λ w. lift (apply_transactions w ts) >>= save db) s ≡ after_load ts r s
      by_load (ok w) = by_loop (apply_transactions w ts)
      by_load (throw e) = refl
