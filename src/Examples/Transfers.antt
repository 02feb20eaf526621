-- ===== src/Examples/Transfers.antt =====
-- Transfers run on a database held in lists: a test, and a concrete input for each theorem.
use tanta.Base.{arith, zero, suc, ◌≡◌, refl}
use tanta.Samples.{ids_differ, listed, naira, standing_of, services}
use tanta.Js.Int.{pos}
use tanta.Shared.Exception.{ok}
use tanta.TransactionService.Frame.{LeavesOther}
use tanta.TransferringService.Laws.{transfer-LeavesOther}
use tanta.Transferring.{Transferring, initalize}
use tanta.TransferringService.{transfer, process}
use tanta.Notification.{mobile}
use tanta.World.{World}
use tanta.TransferringService.Again.{process_again}
use tanta.Examples.{funded}

-- The credit of a transfer goes to the sender's wallet, under a version that the debit has taken, so
-- that it is lost: the amount leaves the sender's balance and reaches nobody's.
transfer_reaches_nobody :
    standing_of
      (transfer listed "ann" "id-0" "w-2" (naira 2000) mobile (record funded {
        uuids = λ n. elim n [ zero ↦ "f" | suc m ↦ elim m [ zero ↦ "d" | suc _ ↦ "c" ] ];
      })).1
    ≡ ok (pos 3000, 2)
unfolding services
transfer_reaches_nobody = refl

transfer-LeavesOther_example :
    LeavesOther listed "id-b" (transfer listed "ann" "id-0" "id-b" (naira 2000) mobile)
transfer-LeavesOther_example =
    transfer-LeavesOther listed "id-b" "ann" "id-0" "id-b" (naira 2000) mobile ids_differ

-- A transfer that is processed once.
abbrev initial : Transferring
initial = initalize "id-0" "id-b" (naira 600) mobile "f" "d" "c"

abbrev processed : World listed
processed = (process listed initial funded).1

process_again_example : process listed initial processed ≡ (ok tt, processed)
unfolding services
process_again_example = process_again listed initial funded (omega arith) refl
