-- ===== src/Examples/Barred.antt =====
-- A database in which two first credits have run side by side.
use tanta.Base.{arith, eq_iff, ℕ, String, List, [], ◌∷◌, ◌≡◌, ◌≢◌, refl}
use tanta.Database.Keyed.{first}
use tanta.Examples.Audit.{requests, start, fresh-IsAudited}
use tanta.Examples.Interleavings.{threads, first_row, first_wallet}
use tanta.Js.Int.{pos}
use tanta.Samples.{listed, fresh, naira, some_or}
use tanta.Shared.Exception.{ok}
use tanta.Tables.{TransactionRow, WalletRow}
use tanta.Thread.Audit.{launch-IsAudited}
use tanta.Thread.Audit.Facts.{IsAudited}
use tanta.Thread.Barred.{launch-IsBarred}
use tanta.Thread.Launch.{credit, launch}
use tanta.Thread.Play.{play, play-Reaches}
use tanta.Thread.Schedule.{System}
use tanta.Wallet.{Wallet, get_balance_as_num}
use tanta.WalletRepository.Load.{load}
use tanta.World.{World}

-- The wallet is created, then both credits take their steps in turn.
abbrev side_by_side : List ℕ
side_by_side = 0 ∷ 0 ∷ 0 ∷ 1 ∷ 2 ∷ 1 ∷ 2 ∷ 1 ∷ 2 ∷ 1 ∷ 2 ∷ 1 ∷ 2 ∷ 1 ∷ 2 ∷ 1 ∷ 2 ∷ []

abbrev jammed : World listed
jammed = (play side_by_side start).world

jammed-IsAudited : IsAudited listed jammed jammed
jammed-IsAudited =
    launch-IsAudited listed requests fresh fresh-IsAudited (play-Reaches side_by_side start).1

abbrev row_a : TransactionRow
row_a = some_or first_row (first listed.transactions "a" jammed.transactions)

abbrev row_b : TransactionRow
row_b = some_or first_row (first listed.transactions "b" jammed.transactions)

abbrev hers : WalletRow
hers = some_or first_wallet (first listed.wallets "id-0" jammed.wallets)

keys_differ : ◌≢◌ {A = String} "a" "b"
keys_differ e = ground (arith, (eq_iff "a" "b").1 e)

-- One more credit of the wallet.
abbrev later : System listed
later = launch listed (credit "c" "id-0" (naira 70) ∷ []) jammed

abbrev turns : List ℕ
turns = 0 ∷ 0 ∷ 0 ∷ 0 ∷ 0 ∷ 0 ∷ 0 ∷ []

launch-IsBarred_example :
    (w : Wallet) × (load listed "id-0" (play turns later).world ≡ ok w)
    × (w.last_transaction_version ≡ 0)
    × (get_balance_as_num w ≡ pos 0)
unfolding threads
launch-IsBarred_example =
    launch-IsBarred listed "a" "b" row_a row_b keys_differ refl refl "id-0"
      (credit "c" "id-0" (naira 70) ∷ []) jammed hers jammed-IsAudited refl refl refl refl
      (play-Reaches turns later).1
