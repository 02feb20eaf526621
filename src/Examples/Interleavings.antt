-- ===== src/Examples/Interleavings.antt =====
-- Requests that interleave, run on a database held in lists.
use tanta.Base.{ℕ, List, [], ◌∷◌, ◌≡◌, refl, none, some}
use tanta.Samples.{
  ids_differ, some_or, listed, naira, standing_of, services, created, credited, name,
}
use tanta.Js.Int.{ℤ, pos}
use tanta.Notification.{mobile}
use tanta.Thread.{Thread, returned, await}
use tanta.Thread.Requests
use tanta.Thread.Launch.{Request, credit, debit, launch}
use tanta.Thread.Elsewhere.{launch-IsThere}
use tanta.Thread.Kept.{launch-IsRecorded, launch-IsOwned}
use tanta.TransactionService
use tanta.TransactionService.Laws.{made}
use tanta.TransactionRepository.Laws.{row_of}
use tanta.Transaction.{in_}
use tanta.Tables.{TransactionRow, WalletRow}
use tanta.Wallet
use tanta.WalletRepository.{to_row}
use tanta.Shared.DateTime.{new_date_time}
use tanta.Shared.ConcurrencyControl.{from_version}
use tanta.Database.Keyed.{first}
use tanta.Examples.{both}
use tanta.Thread.Schedule.{System}
use tanta.Thread.Play.{play, play-Reaches}
use tanta.Shared.Exception.{
  Result, ok, throw, wallet, invalid_transactions, transaction, insufficient_fund,
}

-- Opens every request, for tests.
unfoldable pub threads : Unit {0}
unfolding services Requests.create Requests.update_balance Requests.update_wallet Requests.credit
    Requests.debit_held Requests.refuse Requests.debit Requests.process Requests.start
    Requests.transfer
threads = tt

-- What the requests that are over ended with.
abbrev ends : List (Thread listed (Unit {0})) → List (Result (Unit {0}))
ends [] = []
ends (returned r ∷ ts) = r ∷ ends ts
ends (await act rest ∷ ts) = ends ts

-- The wallet "id-0", and those ends.
abbrev outcome : System listed → Result (ℤ × ℕ) × List (Result (Unit {0}))
outcome x = (standing_of x.world, ends x.threads)

-- Two requests step by step in turn, and one after the other.
abbrev abreast : List ℕ
abreast = 0 ∷ 1 ∷ 0 ∷ 1 ∷ 0 ∷ 1 ∷ 0 ∷ 1 ∷ 0 ∷ 1 ∷ 0 ∷ 1 ∷ 0 ∷ 1 ∷ []

abbrev in_turn : List ℕ
in_turn = 0 ∷ 0 ∷ 0 ∷ 0 ∷ 0 ∷ 0 ∷ 0 ∷ 1 ∷ 1 ∷ 1 ∷ 1 ∷ 1 ∷ 1 ∷ 1 ∷ []

abbrev requests : List Request
requests = credit "a" "id-0" (naira 2000) ∷ credit "b" "id-0" (naira 300) ∷ []

abbrev debits : List Request
debits = debit "a" "id-0" (naira 2000) mobile ∷ debit "b" "id-0" (naira 2000) mobile ∷ []

abbrev two_credits : System listed
two_credits = launch listed requests created

abbrev two_debits : System listed
two_debits = launch listed debits (credited 3000 created)

-- One after the other, two credits of a new wallet add up.
credits_in_turn : outcome (play in_turn two_credits) ≡ (ok (pos 2300, 2), ok tt ∷ ok tt ∷ [])
unfolding threads
credits_in_turn = refl

-- Side by side, both get version 1, both are recorded, both throw, and neither reaches the balance.
credits_abreast : outcome (play abreast two_credits) ≡ (
  ok (pos 0, 0),
  throw (wallet invalid_transactions) ∷ throw (wallet invalid_transactions) ∷ [],
)
unfolding threads
credits_abreast = refl

-- From then on a later credit of the wallet throws as well.
credits_blocked :
    (TransactionService.credit listed "c" "id-0" (naira 70) (play abreast two_credits).world).0
    ≡ throw (wallet invalid_transactions)
unfolding threads
credits_blocked = refl

-- One after the other, the second debit is refused; side by side, both pass the check of the
-- balance, both are recorded, and both throw.
debits_in_turn :
    outcome (play in_turn two_debits)
    ≡ (ok (pos 1000, 2), ok tt ∷ throw (transaction insufficient_fund) ∷ [])
unfolding threads
debits_in_turn = refl

debits_abreast : outcome (play abreast two_debits) ≡ (
  ok (pos 3000, 1),
  throw (wallet invalid_transactions) ∷ throw (wallet invalid_transactions) ∷ [],
)
unfolding threads
debits_abreast = refl

-- The first credit of the wallet stays recorded while two debits run.
abbrev pub first_row : TransactionRow
first_row = row_of (made listed (name 1) "id-0" (naira 3000) created in_ none)

launch-IsRecorded_example :
    first listed.transactions "id-1" (play abreast two_debits).world.transactions ≡ some first_row
unfolding services
launch-IsRecorded_example =
    launch-IsRecorded listed "id-1" first_row debits (credited 3000 created) refl
      (play-Reaches abreast two_debits).1

abbrev pub first_wallet : WalletRow
first_wallet = to_row (Wallet.create "ann" "id-0" (new_date_time 1000)) (from_version 1)

launch-IsOwned_example :
    (row : WalletRow) × (first listed.wallets "id-0" (play abreast two_credits).world.wallets
      ≡ some row)
    × (row.user_id ≡ "ann")
    × (row.created_at ≡ 1000)
unfolding services
launch-IsOwned_example =
    launch-IsOwned listed "id-0" "ann" 1000 requests created first_wallet refl refl refl
      (play-Reaches abreast two_credits).1

-- Bob's wallet is there while two requests of ann's run.
abbrev bobs : WalletRow
bobs = some_or first_wallet (first listed.wallets "id-b" both.wallets)

abbrev beside : System listed
beside = launch listed requests both

launch-IsThere_example : first listed.wallets "id-b" (play abreast beside).world.wallets ≡ some bobs
unfolding services
launch-IsThere_example =
    launch-IsThere listed "id-b" bobs requests both (ids_differ, (ids_differ, tt)) refl
      (play-Reaches abreast beside).1
