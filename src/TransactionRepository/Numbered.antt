-- ===== src/TransactionRepository/Numbered.antt =====
-- transaction.repository.ts: rows whose transactions the loop of `updateBalance` would accept.
use tanta.Base.{ℕ, String, ◌+◌, ◌≤◌, ◌≡◌, refl, sym, List, [], ◌∷◌, All, All-map_imp, arith}
use mathlib.Core.Path.{subst}
use tanta.Balance.Ledger.{Consecutive}
use tanta.Shared.Exception.{ok, >>=-eq-ok, ok_injective}
use tanta.Tables.{TransactionRow}
use tanta.Transaction.{Transaction}
use tanta.TransactionRepository.{to_entity, to_entities}
use tanta.TransactionRepository.Laws.{to_entity-transaction_id}

-- Rows whose transactions are numbered from v + 1 have versions above v.
Consecutive-above :
    (v : ℕ) (rs : List TransactionRow) (ts : List Transaction)
    → to_entities rs ≡ ok ts
    → Consecutive v ts
    → All (λ r. v + 1 ≤ r.version) rs
Consecutive-above v [] ts e numbered = tt
Consecutive-above v (r ∷ rs) ts e numbered =
    let (t, read, rest) = >>=-eq-ok (to_entity r) _ e in
    let (us, reads, done) = >>=-eq-ok (to_entities rs) _ rest in
    let (here, later) = subst (Consecutive v) (sym (ok_injective done)) numbered in
    (
      omega (arith, (to_entity-transaction_id r read).1),
      All-map_imp (λ x above. omega arith) rs (Consecutive-above (v + 1) rs us reads later),
    )

-- Numbered from 1, they have at most one row of version 1.
pub Consecutive-one :
    (rs : List TransactionRow) (ts : List Transaction)
    → to_entities rs ≡ ok ts
    → Consecutive 0 ts
    → (id : String) × All (λ r. r.version ≡ 1 → r.transaction_id ≡ id) rs
Consecutive-one [] ts e numbered = ("", tt)
Consecutive-one (r ∷ rs) ts e numbered =
    let (t, read, rest) = >>=-eq-ok (to_entity r) _ e in
    let (us, reads, done) = >>=-eq-ok (to_entities rs) _ rest in
    let (here, later) = subst (Consecutive 0) (sym (ok_injective done)) numbered in
    (
      r.transaction_id,
      (
        λ _. refl,
        All-map_imp (λ x above one. absurd (omega arith)) rs
            (Consecutive-above 1 rs us reads later),
      ),
    )
