-- ===== src/TransactionRepository/After.antt =====
-- transaction.repository.ts: what `getAllInAscOrderAfter` lists once a transaction is recorded.
use tanta.Base.{
  ℕ, ◌^◌, ◌<◌, ◌≤◌, ◌≡◌, refl, ap, ◌∙◌, Bool, true, some, List, [], ◌∷◌, arith, ltb, lt→ltb, All,
  All-map_imp, select, select-none, select-perm, nil_of_perm, singleton_of_perm,
}
use mathlib.Core.List.{Permᴰ}
use tanta.Shared.ConcurrencyControl.{next, get_version}
use tanta.Shared.Exception.{ok}
use tanta.Tables.{TransactionRow}
use tanta.Transaction.{Transaction, set_transaction_control}
use tanta.TransactionRepository.{to_row, to_entities, get_all_in_asc_order_after}
use tanta.TransactionRepository.Laws.{row_of, all_after, to_entity-to_row}
use tanta.World.{Database, World}

-- The version of the row that a save inserts.
pub row_of-version :
    (t : Transaction) → (row_of t).version ≡ get_version (next t.transaction_control)
unfolding to_row
row_of-version t = refl

abbrev pub is_after : ℕ → TransactionRow → Bool
is_after v r = ltb v r.version

-- No transaction has a version above v.
abbrev pub NoneAfter : (db : Database) → ℕ → World db → Type 0
NoneAfter db v s = All (λ r. r.version ≤ v) (db.transactions.rows s.transactions)

none_after :
    (v : ℕ) (rs : List TransactionRow) → All (λ r. r.version ≤ v) rs → select (is_after v) rs ≡ []
none_after v rs h = select-none (is_after v) rs (All-map_imp (λ r k. ground arith) rs h)

module _ (db : Database) where
  unfoldable pub listed : ℕ → World db → List TransactionRow
  listed v s = db.transactions.where_ordered (is_after v) (λ r. r.created_at) s.transactions

  pub all_after-listed : (v : ℕ) (s : World db) → all_after db v s ≡ to_entities (listed v s)
  unfolding get_all_in_asc_order_after listed
  all_after-listed v s = refl

  pub listed-perm :
      (v : ℕ) (s : World db) (rs : List TransactionRow)
      → Permᴰ (db.transactions.rows s.transactions) rs
      → Permᴰ (listed v s) (select (is_after v) rs)
  unfolding listed
  listed-perm v s rs q =
      Permᴰ.trans
        (db.transactions.where_ordered_rows (is_after v) (λ r. r.created_at) s.transactions)
        (select-perm (is_after v) q)

  module _ (t : Transaction) (v : ℕ) (s : World db) (u : db.transactions.Store)
      (taken : db.transactions.insert (row_of t) s.transactions ≡ some u) where
    abbrev pub grown : World db
    grown = record s { transactions = u }

    pub grown-perm : Permᴰ (db.transactions.rows u) (row_of t ∷ db.transactions.rows s.transactions)
    grown-perm = db.transactions.insert_rows (row_of t) s.transactions u taken

    -- A recorded transaction of a version above v is listed, alone if there was none before.
    pub all_after-insert_new :
        t.amount.value < 2 ^ 53
        → NoneAfter db v s
        → v < get_version (next t.transaction_control)
        → all_after db v grown ≡ ok (set_transaction_control t (next t.transaction_control) ∷ [])
    all_after-insert_new small none_before above =
        let here : is_after v (row_of t) ≡ true = rw (row_of-version t) (lt→ltb v _ above) in
        let only : select (is_after v) (row_of t ∷ db.transactions.rows s.transactions)
            ≡ row_of t ∷ [] =
          rw (here, none_after v _ none_before) refl in
        all_after-listed v grown
        ∙ ap to_entities (singleton_of_perm (row_of t) (listed-perm v grown _ grown-perm) only)
        ∙ rw (to_entity-to_row t (next t.transaction_control) small) refl

    -- One of a version up to v is not.
    pub all_after-insert_old :
        NoneAfter db v s
        → get_version (next t.transaction_control) ≤ v
        → all_after db v grown ≡ ok []
    all_after-insert_old none_before below =
        let old : (row_of t).version ≤ v = rw (row_of-version t) below in
        all_after-listed v grown
        ∙ ap to_entities (
            nil_of_perm (listed-perm v grown _ grown-perm)
              (none_after v (row_of t ∷ db.transactions.rows s.transactions) (old, none_before)))
