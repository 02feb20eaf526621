-- ===== src/TransactionRepository/Laws.antt =====
-- transaction.repository.ts: rows and entities, how a save ends, and that queries only read.
use tanta.Base.{ℕ, String, ◌^◌, ◌<◌, ◌≡◌, refl, none, some, List, Option, [], ◌∷◌, sym, ap, All}
use mathlib.Core.Path.{subst}
use tanta.Js.Decimal.{unary_plus-to_string, unary_plus}
use tanta.Money.{new_money}
use tanta.Shared.ConcurrencyControl.{TransactionControl, next, from_version, get_version}
use tanta.Shared.Exception.{Result, ok, throw, >>=-eq-ok, ok_injective, transaction, persistence}
use tanta.Transaction.{Transaction, set_transaction_control}
use tanta.TransactionRepository.{
  to_row, to_entity, to_entities, save, get_last_if_exists_by, get_all_in_asc_order_after,
  get_transaction_if_exists,
}
use tanta.Tables.{TransactionRow}
use tanta.World.{Database, World}

-- Every field of a transaction survives the row, below 2^53, and the version is the control's.
pub to_entity-to_row :
    (t : Transaction) (control : TransactionControl)
    → t.amount.value < 2 ^ 53
    → to_entity (to_row t control) ≡ ok (set_transaction_control t control)
unfolding to_row to_entity new_money from_version
to_entity-to_row t control small = rw (unary_plus-to_string t.amount.value small)

-- The id and the version of a transaction are those of its row.
pub to_entity-transaction_id :
    (r : TransactionRow) {t : Transaction}
    → to_entity r ≡ ok t
    → (t.transaction_id ≡ r.transaction_id) × (get_version t.transaction_control ≡ r.version)
unfolding to_entity from_version
to_entity-transaction_id r e =
    let (amount, read, done) =
      >>=-eq-ok (new_money (unary_plus r.amount_value) r.amount_currency) _ e in
    (
      ap (λ t. t.transaction_id) (sym (ok_injective done)),
      ap (λ t. get_version t.transaction_control) (sym (ok_injective done)),
    )

pub to_entities-All :
    (P : TransactionRow → Type 0) (Q : Transaction → Type 0)
    → ((r : TransactionRow) (t : Transaction) → to_entity r ≡ ok t → P r → Q t)
    → (rs : List TransactionRow) {ts : List Transaction} → to_entities rs ≡ ok ts
    → All P rs
    → All Q ts
to_entities-All P Q each [] e h = subst (All Q) (ok_injective e) tt
to_entities-All P Q each (r ∷ rs) e (h, hs) =
    let (t, read, rest) = >>=-eq-ok (to_entity r) _ e in
    let (ts, reads, done) = >>=-eq-ok (to_entities rs) _ rest in
    subst (All Q) (ok_injective done) (each r t read h, to_entities-All P Q each rs reads hs)

-- The row that the save of a transaction inserts.
abbrev pub row_of : Transaction → TransactionRow
row_of t = to_row t (next t.transaction_control)

module _ (db : Database) where
  pub save_taken :
      (t : Transaction) (s : World db) (u : db.transactions.Store)
      → db.transactions.insert (row_of t) s.transactions ≡ some u
      → save db t s ≡ (
        ok (set_transaction_control t (next t.transaction_control)),
        record s { transactions = u },
      )
  unfolding save
  save_taken t s u taken = rw taken refl

  pub save_refused :
      (t : Transaction) (s : World db)
      → db.transactions.insert (row_of t) s.transactions ≡ none
      → save db t s ≡ (throw (transaction persistence), s)
  unfolding save
  save_refused t s refused = rw refused refl

  -- What the queries answer.
  abbrev pub last_of : String → World db → Result (Option Transaction)
  last_of id s = (get_last_if_exists_by db id s).0

  abbrev pub all_after : ℕ → World db → Result (List Transaction)
  all_after version s = (get_all_in_asc_order_after db version s).0

  abbrev pub existing : String → World db → Result (Option Transaction)
  existing id s = (get_transaction_if_exists db id s).0

  pub get_last_if_exists_by_lem :
      (id : String) (s : World db) → get_last_if_exists_by db id s ≡ (last_of id s, s)
  unfolding get_last_if_exists_by
  get_last_if_exists_by_lem id s = refl

  pub get_all_in_asc_order_after_lem :
      (version : ℕ) (s : World db)
      → get_all_in_asc_order_after db version s ≡ (all_after version s, s)
  unfolding get_all_in_asc_order_after
  get_all_in_asc_order_after_lem version s = refl

  pub get_transaction_if_exists_lem :
      (id : String) (s : World db) → get_transaction_if_exists db id s ≡ (existing id s, s)
  unfolding get_transaction_if_exists
  get_transaction_if_exists_lem id s = refl
