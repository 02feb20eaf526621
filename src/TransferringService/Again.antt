-- ===== src/TransferringService/Again.antt =====
-- transferring.service.ts: `process`, called once more on a transfer.
use tanta.Base.{String, ◌≡◌, ◌<◌, ◌^◌, refl, sym, ap, ◌∙◌, Option, none, some, arith}
use mathlib.Core.Path.{subst}
use tanta.Database.Keyed.{first}
use tanta.Shared.Exception.{Result, ok, throw, ok_injective}
use tanta.Tables.{TransactionRow}
use tanta.Thread.Kept.{IsRecorded}
use tanta.Thread.Recorded.{credit_records, debit_records, credit-IsRecorded, existing-IsRecorded}
use tanta.Transaction.{Transaction, in_, out}
use tanta.TransactionRepository
use tanta.TransactionRepository.{entity_if_exists}
use tanta.TransactionRepository.Laws.{existing, get_transaction_if_exists_lem}
use tanta.TransactionService
use tanta.Transferring.{Transferring, get_receiver_credit_transaction_id}
use tanta.TransferringService.{process, unless_exists}
use tanta.TransferringService.Laws.{process_done}
use tanta.World.{Database, World, Action, pure, ◌>>=◌}

module _ {db : Database} {A B : Type 0} where
  -- A sequence that returns: its first part returned, and the rest did.
  bind_returned :
      (m : Action db A) (f : A → Action db B) (s : World db) {b : B} {s' : World db}
      → (m >>= f) s ≡ (ok b, s')
      → (a : A) × (u : World db) × (m s ≡ (ok a, u)) × (f a u ≡ (ok b, s'))
  bind_returned m f s {b} {s'} e = split (m s) refl e
    where
      split :
          (x : Result A × World db)
          → m s ≡ x
          → ((λ _. x) >>= f) s ≡ (ok b, s')
          → (a : A) × (u : World db) × (m s ≡ (ok a, u)) × (f a u ≡ (ok b, s'))
      split (ok a, u) is e = (a, u, is, e)
      split (throw x, u) is e = absurd (ground (arith, ap (λ y. y.0) e))

module _ (db : Database) where
  -- Whether a transaction exists is a matter of its row.
  existing-first :
      (id : String) (s : World db)
      → existing db id s ≡ entity_if_exists (first db.transactions id s.transactions)
  unfolding TransactionRepository.get_transaction_if_exists
  existing-first id s = refl

  row_there :
      (o : Option TransactionRow) {t : Transaction}
      → entity_if_exists o ≡ ok (some t)
      → (r : TransactionRow) × (o ≡ some r)
  row_there none e = absurd (ground (arith, ok_injective e))
  row_there (some r) e = (r, refl)

  abbrev Exists : String → World db → Type 0
  Exists id s = (t : Transaction) × (existing db id s ≡ ok (some t))

  -- What exists still exists where the same row is.
  Exists-kept :
      (id : String) (s s' : World db)
      → ((r : TransactionRow) → IsRecorded db id r s → IsRecorded db id r s')
      → Exists id s
      → Exists id s'
  Exists-kept id s s' kept (t, there) =
      let (r, found) =
        row_there (first db.transactions id s.transactions) (sym (existing-first id s) ∙ there) in
      (
        t,
        existing-first id s'
            ∙ ap entity_if_exists (kept r found)
            ∙ ap entity_if_exists (sym found)
            ∙ sym (existing-first id s)
            ∙ there,
      )

  -- A step that returns leaves its transaction there, if doing it records one.
  unless_exists-Exists :
      (id : String) (act : Action db Transaction) (found : Option Transaction) (s : World db)
      {s' : World db}
      → existing db id s ≡ ok found
      → ((t : Transaction) (u : World db) → act s ≡ (ok t, u) → Exists id u)
      → unless_exists db found act s ≡ (ok tt, s')
      → Exists id s'
  unless_exists-Exists id act (some t) s {s'} there records e =
      subst (Exists id) (ap (λ y. y.1) e) (t, there)
  unless_exists-Exists id act none s {s'} there records e =
      let (t, u, done, rest) = bind_returned act (λ _. pure tt) s e in
      subst (Exists id) (ap (λ y. y.1) rest) (records t u done)

  -- And it keeps what `act` keeps.
  unless_exists-kept :
      (P : World db → Type 0) (act : Action db Transaction) (found : Option Transaction)
      (s : World db) {s' : World db}
      → (P s → P (act s).1)
      → unless_exists db found act s ≡ (ok tt, s')
      → P s
      → P s'
  unless_exists-kept P act (some t) s keeps e p = subst P (ap (λ y. y.1) e) p
  unless_exists-kept P act none s keeps e p =
      let (t, u, done, rest) = bind_returned act (λ _. pure tt) s e in
      subst P (ap (λ y. y.1) rest) (subst P (ap (λ y. y.1) done) (keeps p))

  looked_up :
      (id : String) (s : World db) {found : Option Transaction} {u : World db}
      → TransactionRepository.get_transaction_if_exists db id s ≡ (ok found, u)
      → (s ≡ u) × (existing db id u ≡ ok found)
  looked_up id s {found} {u} e =
      let answer = sym (get_transaction_if_exists_lem db id s) ∙ e in
      (
        ap (λ y. y.1) answer,
        subst (λ v. existing db id v ≡ ok found) (ap (λ y. y.1) answer) (ap (λ y. y.0) answer),
      )

  -- Once `process` of a transfer of less than 2^53 has returned, `process` of the same transfer
  -- returns again, and changes nothing.
  pub process_again :
      (t : Transferring) (s : World db) {s' : World db}
      → t.amount.value < 2 ^ 53
      → process db t s ≡ (ok tt, s')
      → process db t s' ≡ (ok tt, s')
  unfolding process TransactionService.get_transaction_if_exists
  process_again t s {s'} small e =
      let debit_id = t.sender_debit_transaction_id in
      let credit_id = get_receiver_credit_transaction_id t in
      let (debited, s1, looked, rest) =
        bind_returned (TransactionRepository.get_transaction_if_exists db debit_id) _ s e in
      let (_, s2, debit_done, rest') = bind_returned (unless_exists db debited _) _ s1 rest in
      let (credited, s3, looked', credit_done) =
        bind_returned (TransactionRepository.get_transaction_if_exists db credit_id) _ s2 rest' in
      let (_, debited_there) = looked_up debit_id s looked in
      let (same, credited_there) = looked_up credit_id s2 looked' in
      let (d, debit_exists) =
        unless_exists-Exists debit_id _ debited s1 debited_there
          (λ _ u done.
            let (last, row) =
              debit_records db debit_id t.sender_wallet_id t.amount s1 t.notification_type done in
            existing-IsRecorded db debit_id t.sender_wallet_id t.amount s1 out last u small row)
          debit_done in
      let (c, credit_exists) =
        unless_exists-Exists credit_id _ credited s3 credited_there
          (λ _ u done.
            let (last, row) = credit_records db credit_id t.sender_wallet_id t.amount s3 done in
            existing-IsRecorded db credit_id t.sender_wallet_id t.amount s3 in_ last u small row)
          credit_done in
      let (d', still_exists) =
        Exists-kept debit_id s3 s'
          (λ r.
            unless_exists-kept (IsRecorded db debit_id r) _ credited s3
              (credit-IsRecorded db debit_id r credit_id t.sender_wallet_id t.amount s3)
              credit_done)
          (subst (Exists debit_id) same (d, debit_exists)) in
      process_done db t s' still_exists credit_exists
