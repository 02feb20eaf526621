-- ===== src/Examples/Audit.antt =====
-- Requests that interleave from empty tables, and rows against the columns of the migrations.
use tanta.Base.{ℕ, List, [], ◌∷◌, ◌≡◌, ◌⊎◌, ◌<◌, ◌≤◌, ◌^◌, ◌↔◌, refl, true, All, length}
use Prim.Native.String.{count}
use tanta.Balance.Ledger.{Consecutive}
use tanta.Balance.Run.{volume}
use tanta.Examples.Interleavings.{threads}
use tanta.Js.Int.{pos}
use tanta.Migrations.{wallet_table}
use tanta.Migrations.Columns.{fits, wallet_fields, wallet-fits_iff}
use tanta.Samples.{listed, fresh, naira, standing_of, services, held, created}
use tanta.Shared.ConcurrencyControl.{from_version}
use tanta.Shared.Exception.{ok, throw, wallet, not_found}
use tanta.Thread.Audit.{launch-IsAudited, launch-load}
use tanta.Thread.Audit.Facts.{IsAudited, IsFound}
use tanta.Thread.Launch.{Request, create, credit, launch}
use tanta.Thread.Play.{play, play-Reaches}
use tanta.Thread.Schedule.{System}
use tanta.Transaction.{Transaction}
use tanta.Wallet.{Wallet}
use tanta.WalletRepository
use tanta.WalletRepository.Load.{load}

abbrev pub requests : List Request
requests = create "ann" ∷ credit "a" "id-0" (naira 2000) ∷ credit "b" "id-0" (naira 300) ∷ []

-- The wallet is created, then both credits run, one after the other.
abbrev turns : List ℕ
turns = 0 ∷ 0 ∷ 0 ∷ 1 ∷ 1 ∷ 1 ∷ 1 ∷ 1 ∷ 1 ∷ 1 ∷ 2 ∷ 2 ∷ 2 ∷ 2 ∷ 2 ∷ 2 ∷ 2 ∷ []

abbrev pub start : System listed
start = launch listed requests fresh

stands : standing_of (play turns start).world ≡ ok (pos 2300, 2)
unfolding threads
stands = refl

-- Empty tables.
pub fresh-IsAudited : IsAudited listed fresh fresh
unfolding services
fresh-IsAudited id row found = cc

launch-IsAudited_example : IsAudited listed (play turns start).world (play turns start).world
launch-IsAudited_example =
    launch-IsAudited listed requests fresh fresh-IsAudited (play-Reaches turns start).1

launch-load_example :
    (load listed "id-0" (play turns start).world ≡ throw (wallet not_found))
    ⊎ ((w : Wallet) × (ts : List Transaction) × (load listed "id-0" (play turns start).world ≡ ok w)
        × (w.wallet_id ≡ "id-0")
        × All (IsFound listed (play turns start).world) ts
        × Consecutive 0 ts
        × (w.last_transaction_version ≡ length ts)
        × ((2 ^ 53 ≤ volume ts) ⊎ (w.balance.value ≤ volume ts)))
launch-load_example =
    launch-load listed requests fresh "id-0" fresh-IsAudited (play-Reaches turns start).1

abbrev hers : Wallet
hers = held created

wallet-fits_iff_example :
    (fits wallet_table (wallet_fields (WalletRepository.to_row hers (from_version 2))) ≡ true) ↔ (
      (hers.balance.value < 2 ^ 63)
      × (hers.last_transaction_version < 2 ^ 31)
      × (count hers.wallet_id ≤ 255)
      × (count hers.user_id ≤ 255))
wallet-fits_iff_example = wallet-fits_iff hers (from_version 2)
