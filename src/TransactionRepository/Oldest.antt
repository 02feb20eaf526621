-- ===== src/TransactionRepository/Oldest.antt =====
-- transaction.repository.ts: which transaction `getLastIfExistsBy` gives.
use tanta.Base.{
  String, ◌≤◌, ◌≡◌, sym, ap, ◌∙◌, none, some, List, [], ◌∷◌, arith, str_eq, head?, All, All-perm,
  All-both, All-select_passing, eq_iff, All-map_imp, select, IsSorted,
}
use mathlib.Core.List.Permᴰ
use mathlib.Core.Option.{some-injective}
use tanta.Database.Keyed.{first, first-listed}
use tanta.Js.Decimal.{unary_plus}
use tanta.Money.{new_money}
use tanta.Shared.Exception.{ok, >>=-eq-ok, ok_injective}
use tanta.Tables.{TransactionRow}
use tanta.Transaction.{Transaction}
use tanta.TransactionRepository.{to_entity, entity_if_exists, get_last_if_exists_by}
use tanta.TransactionRepository.Laws.{last_of}
use tanta.World.{Database, World}

pub to_entity-created_at :
    (r : TransactionRow) {t : Transaction}
    → to_entity r ≡ ok t
    → t.created_at.time_in_ms ≡ r.created_at
unfolding to_entity
to_entity-created_at r e =
    let (amount, read, done) =
      >>=-eq-ok (new_money (unary_plus r.amount_value) r.amount_currency) _ e in
    ap (λ t. t.created_at.time_in_ms) (sym (ok_injective done))

-- The first of rows that are sorted by their time is the oldest.
first-IsOldest :
    (rs : List TransactionRow) {t : Transaction}
    → IsSorted (λ r. r.created_at) rs
    → entity_if_exists (head? rs) ≡ ok (some t)
    → All (λ r. t.created_at.time_in_ms ≤ r.created_at) rs
first-IsOldest [] sorted e = absurd (ground arith)
first-IsOldest (r ∷ rs) {t} (low, sorted) e =
    let (t', read, done) = >>=-eq-ok (to_entity r) _ e in
    let here : t.created_at.time_in_ms ≡ r.created_at =
      ap (λ o. elim o [ none ↦ 0 | some x ↦ x.created_at.time_in_ms ]) (sym (ok_injective done))
      ∙ to_entity-created_at r read in
    (
      omega arith,
      All-map_imp {P = λ y. r.created_at ≤ y.created_at}
          {Q = λ y. t.created_at.time_in_ms ≤ y.created_at} (λ y k. omega arith) rs low,
    )

-- The entity of the first of rows is read from one of them.
first-Read :
    (P : TransactionRow → Type 0) (rs : List TransactionRow) {t : Transaction}
    → All P rs
    → entity_if_exists (head? rs) ≡ ok (some t)
    → (r : TransactionRow) × P r × (to_entity r ≡ ok t)
first-Read P [] h e = absurd (ground arith)
first-Read P (r ∷ rs) (h, hs) e =
    let (t', read, done) = >>=-eq-ok (to_entity r) _ e in
    (r, h, read ∙ ap ok (some-injective t' _ (ok_injective done)))

module _ (db : Database) where
  -- What `get_last_if_exists_by` gives is read from a recorded row of the wallet.
  pub last_of-Read :
      (id : String) (s : World db) {t : Transaction}
      → last_of db id s ≡ ok (some t)
      → (r : TransactionRow) × (first db.transactions r.transaction_id s.transactions ≡ some r)
        × (r.wallet_id ≡ id)
        × (to_entity r ≡ ok t)
  unfolding get_last_if_exists_by
  last_of-Read id s e =
      let owned = λ (r : TransactionRow). str_eq r.wallet_id id in
      let listed = db.transactions.where_ordered owned (λ r. r.created_at) s.transactions in
      let owners =
        All-perm (λ r. r.wallet_id ≡ id)
          (Permᴰ.symm (db.transactions.where_ordered_rows owned (λ r. r.created_at) s.transactions))
          (All-select_passing (λ r. r.wallet_id ≡ id) owned (λ r. (eq_iff r.wallet_id id).0)
            (db.transactions.rows s.transactions)) in
      let (r, (found, owner), read) =
        first-Read
          (λ r.
            (first db.transactions r.transaction_id s.transactions ≡ some r) × (r.wallet_id ≡ id))
          listed
          (All-both (λ r. first db.transactions r.transaction_id s.transactions ≡ some r)
            (λ r. r.wallet_id ≡ id) listed
            (first-listed db.transactions owned (λ r. r.created_at) s.transactions) owners)
          e in
      (r, found, owner, read)

  -- No transaction of the wallet is older than the one that `get_last_if_exists_by` gives.
  pub last_of-IsOldest :
      (id : String) (s : World db) {t : Transaction}
      → last_of db id s ≡ ok (some t)
      → All
          (λ r. t.created_at.time_in_ms ≤ r.created_at)
          (select (λ r. str_eq r.wallet_id id) (db.transactions.rows s.transactions))
  unfolding get_last_if_exists_by
  last_of-IsOldest id s {t} e =
      All-perm (λ r. t.created_at.time_in_ms ≤ r.created_at)
        (db.transactions.where_ordered_rows (λ r. str_eq r.wallet_id id) (λ r. r.created_at)
          s.transactions)
        (first-IsOldest
          (db.transactions.where_ordered (λ r. str_eq r.wallet_id id) (λ r. r.created_at)
            s.transactions)
          (db.transactions.where_ordered_sorted (λ r. str_eq r.wallet_id id) (λ r. r.created_at)
            s.transactions)
          e)
