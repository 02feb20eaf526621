-- ===== src/WalletService.antt =====
-- wallet/src/features/wallet/wallet.service.ts. The loop of `updateBalance` is in `Balance`.
pub mod Laws
pub mod Update
use tanta.Base.{String, List}
use tanta.Balance.{apply_transactions}
use tanta.Shared.DateTime.{new_date_time}
use tanta.Shared.Pagination.{Pagination}
use tanta.Transaction.{Transaction}
use tanta.Wallet
use tanta.Wallet.{Wallet}
use tanta.WalletRepository
use tanta.World.{Database, Action, pure, lift, now, uuid, ◌>>=◌}

module _ (db : Database) where
  unfoldable pub create : String → Action db Wallet
  create user_id = do
    id ← uuid
    created_at ← now
    WalletRepository.save db (Wallet.create user_id id (new_date_time created_at))

  unfoldable pub get_wallets_by_user : String → Pagination → Action db (List Wallet)
  get_wallets_by_user user_id page = WalletRepository.get_wallets_by_user db user_id page

  unfoldable pub get_wallet_by_id : String → Action db Wallet
  get_wallet_by_id wallet_id = WalletRepository.get_wallet_by_id db wallet_id

  unfoldable pub update_balance : String → List Transaction → Action db Wallet
  update_balance wallet_id transactions = do
    wallet ← WalletRepository.get_wallet_by_id db wallet_id
    wallet' ← lift (apply_transactions wallet transactions)
    WalletRepository.save db wallet'
