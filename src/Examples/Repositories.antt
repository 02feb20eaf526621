-- ===== src/Examples/Repositories.antt =====
-- Pages of wallets and stored transfers: a concrete input for each theorem.
use tanta.Base.{ℕ, ◌≡◌, ◌≤◌, refl, length, List, [], All, IsSorted, some, arith, ◌⊎◌}
use tanta.Notification.{mobile}
use tanta.Samples.{listed, created, naira, ok_or, some_or, services}
use tanta.Shared.ConcurrencyControl.{next, init}
use tanta.Shared.Exception.{ok}
use tanta.Shared.Pagination.{Pagination}
use tanta.Transferring
use tanta.Transferring.{Transferring, initalize}
use tanta.TransferringRepository
use tanta.TransferringRepository.Laws.{written, load-save}
use tanta.Wallet.{Wallet}
use tanta.WalletRepository
use tanta.WalletRepository.Pages.{get_wallets_by_user_lem}
use tanta.WalletService
use tanta.World.{World}

-- Two wallets of "ann", read one by one.
abbrev two : World listed
two = (WalletService.create listed "ann" (record created { uuids = λ n. "id-b" })).1

abbrev page : ℕ → ℕ → Pagination
page offset limit = record { offset = offset; limit = limit }

abbrev paged : ℕ → ℕ → List Wallet
paged offset limit =
    ok_or [] (WalletRepository.get_wallets_by_user listed "ann" (page offset limit) two).0

get_wallets_by_user_lem_example :
    (two ≡ two)
    × All (λ w. w.user_id ≡ "ann") (paged 0 1)
    × IsSorted (λ w. w.created_at.time_in_ms) (paged 0 1)
    × (length (paged 0 1) ≤ 1)
    × (length (paged 0 1) ≤ 2)
    × ((length (paged 0 1) ≡ 1) ⊎ (length (paged 0 1) ≡ 2))
unfolding services
get_wallets_by_user_lem_example =
    get_wallets_by_user_lem listed "ann" two (page 0 1) {ws = paged 0 1} refl

abbrev transfer_of : Transferring
transfer_of = initalize "id-0" "id-b" (naira 600) mobile "f" "d" "c"

abbrev with_transfer : listed.transferrings.Store
with_transfer = some_or created.transferrings (written listed transfer_of created.transferrings)

load-save_example :
    (TransferringRepository.save listed transfer_of created ≡ (
      ok (Transferring.set_transaction_control transfer_of (next init)),
      record created { transferrings = with_transfer },
    ))
    × (TransferringRepository.load listed "f" (record created { transferrings = with_transfer }) ≡ (
      ok (some (Transferring.set_transaction_control transfer_of (next init))),
      record created { transferrings = with_transfer },
    ))
unfolding services
load-save_example =
    load-save listed transfer_of created with_transfer (omega arith) (λ old. absurd (ground arith))
      refl
