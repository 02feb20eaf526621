-- ===== src/DatabaseService.antt =====
-- wallet/src/database/database.service.ts: the cleaning of a test database. The names of the tables
-- come from pg_tables; of the tables of another name the model keeps nothing.
use Prim.Native.Char.{code}
use tanta.Base.{
  String, ◌≡◌, ◌⊎◌, refl, sym, ap, ◌∙◌, inl, inr, Bool, true, false, not, ◌==◌, ◌&&◌, ◌||◌,
  Bool-cases, List, [], ◌∷◌, select, str_eq, if◌then◌else◌,
}
use mathlib.Core.Path.{subst}
use tanta.World.{Database, World}

-- `includes` on texts.
abbrev starts_with : String → String → Bool
starts_with String.[] s = true
starts_with (String.◌∷◌ c part) String.[] = false
starts_with (String.◌∷◌ c part) (String.◌∷◌ d s) = (code c == code d) && starts_with part s

abbrev includes : String → String → Bool
includes String.[] part = starts_with part String.[]
includes (String.◌∷◌ c s) part = starts_with part (String.◌∷◌ c s) || includes s part

abbrev pub is_app_table : String → Bool
is_app_table name = not (includes name "knex") && not (includes name "spatial_ref_sys")

abbrev pub filter_app_tables : List String → List String
filter_app_tables tables = select is_app_table tables

abbrev Mentions : String → List String → Type 0
Mentions name [] = ⊥
Mentions name (n ∷ ns) = (n ≡ name) ⊎ Mentions name ns

select-Mentions :
    (p : String → Bool) (name : String) (ns : List String)
    → p name ≡ true
    → Mentions name ns
    → Mentions name (select p ns)
select-Mentions p name [] passed never = elim never [ ]
select-Mentions p name (n ∷ ns) passed (inl is) = rw (ap p is ∙ passed) (inl is)
select-Mentions p name (n ∷ ns) passed (inr later) = elim (Bool-cases (p n)) [
  | inl kept ↦ rw kept (inr (select-Mentions p name ns passed later))
  | inr dropped ↦ rw dropped (select-Mentions p name ns passed later)
]

either : {A : Type 0} (P : A → Type 0) (b : Bool) {x y : A} → P x → P y → P (if b then x else y)
either P true p q = p
either P false p q = q

module _ {db : Database} where
  -- The tables of the migrations.
  unfoldable pub truncate : String → World db → World db
  truncate name s =
      if str_eq name "Wallet"
      then record s { wallets = db.wallets.truncate s.wallets }
      else if str_eq name "Transaction"
      then record s { transactions = db.transactions.truncate s.transactions }
      else if str_eq name "Transferring"
      then record s { transferrings = db.transferrings.truncate s.transferrings }
      else s

  abbrev truncate_all : List String → World db → World db
  truncate_all [] s = s
  truncate_all (name ∷ names) s = truncate_all names (truncate name s)

  unfoldable pub clean_test_database : List String → World db → World db
  unfolding truncate
  clean_test_database tables s = truncate_all (filter_app_tables tables) s

  abbrev NoWallets : World db → Type 0
  NoWallets s = db.wallets.rows s.wallets ≡ []

  abbrev NoTransactions : World db → Type 0
  NoTransactions s = db.transactions.rows s.transactions ≡ []

  abbrev NoTransferrings : World db → Type 0
  NoTransferrings s = db.transferrings.rows s.transferrings ≡ []

  module _ (P : World db → Type 0) (name : String) where
    -- What every truncation keeps and that of one table brings about, holds once that table is
    -- truncated.
    truncate_all_brings :
        ((n : String) (s : World db) → P s → P (truncate n s))
        → ((s : World db) → P (truncate name s))
        → (ns : List String) (s : World db) → (P s ⊎ Mentions name ns)
        → P (truncate_all ns s)
    truncate_all_brings keeps brings [] s (inl p) = p
    truncate_all_brings keeps brings [] s (inr never) = elim never [ ]
    truncate_all_brings keeps brings (n ∷ ns) s (inl p) =
        truncate_all_brings keeps brings ns (truncate n s) (inl (keeps n s p))
    truncate_all_brings keeps brings (n ∷ ns) s (inr (inl is)) =
        truncate_all_brings keeps brings ns (truncate n s)
          (inl (subst (λ m. P (truncate m s)) (sym is) (brings s)))
    truncate_all_brings keeps brings (n ∷ ns) s (inr (inr later)) =
        truncate_all_brings keeps brings ns (truncate n s) (inr later)

  -- Of the tables of the migrations, those that are listed are empty once the database is cleaned.
  pub clean_test_database-rows :
      (tables : List String) (s : World db)
      → (Mentions "Wallet" tables → db.wallets.rows (clean_test_database tables s).wallets ≡ [])
        × (Mentions "Transaction" tables
            → db.transactions.rows (clean_test_database tables s).transactions ≡ [])
        × (Mentions "Transferring" tables
            → db.transferrings.rows (clean_test_database tables s).transferrings ≡ [])
  unfolding clean_test_database truncate
  clean_test_database-rows tables s = (
    λ listed.
        truncate_all_brings NoWallets "Wallet"
          (λ n u p. either NoWallets (str_eq n "Wallet") (db.wallets.truncate_rows u.wallets) (
            either NoWallets (str_eq n "Transaction") p
              (either NoWallets (str_eq n "Transferring") p p)))
          (λ u. db.wallets.truncate_rows u.wallets) (filter_app_tables tables) s
          (inr (select-Mentions is_app_table "Wallet" tables refl listed)),
    λ listed.
        truncate_all_brings NoTransactions "Transaction"
          (λ n u p. either NoTransactions (str_eq n "Wallet") p (
            either NoTransactions (str_eq n "Transaction")
              (db.transactions.truncate_rows u.transactions)
              (either NoTransactions (str_eq n "Transferring") p p)))
          (λ u. db.transactions.truncate_rows u.transactions) (filter_app_tables tables) s
          (inr (select-Mentions is_app_table "Transaction" tables refl listed)),
    λ listed.
        truncate_all_brings NoTransferrings "Transferring"
          (λ n u p. either NoTransferrings (str_eq n "Wallet") p (
            either NoTransferrings (str_eq n "Transaction") p (
              either NoTransferrings (str_eq n "Transferring")
                (db.transferrings.truncate_rows u.transferrings) p)))
          (λ u. db.transferrings.truncate_rows u.transferrings) (filter_app_tables tables) s
          (inr (select-Mentions is_app_table "Transferring" tables refl listed)),
  )
