-- ===== src/WalletRepository/Pages.antt =====
-- wallet.repository.ts: what a page of `getWalletsByUser` holds.
use tanta.Base.{
  All-select_passing, ℕ, suc, String, ◌+◌, ◌-◌, ◌≤◌, ◌≡◌, refl, sym, ap, ◌∙◌, Bool, inl, inr, List,
  [], ◌∷◌, ◌++◌, arith, str_eq, eq_iff, length, take, drop, select, All, All-perm, IsSorted,
  length-perm, ◌⊎◌,
}
use mathlib.Core.List.Permᴰ
use mathlib.Core.Path.{subst}
use tanta.Base.Slices.{
  take_add, drop_add, length-drop, length-take, All-take, All-drop, take-IsSorted, drop-IsSorted,
}
use tanta.Js.Decimal.{unary_plus}
use tanta.Money.{new_money}
use tanta.Shared.Exception.{ok, >>=-eq-ok, ok_injective}
use tanta.Shared.Pagination.{Pagination}
use tanta.Tables.{WalletRow}
use tanta.Wallet.{Wallet}
use tanta.WalletRepository.{to_entity, to_entities, get_wallets_by_user}
use tanta.World.{Database, World}

-- The owner and the time of a wallet are those of its row.
pub to_entity-row :
    (r : WalletRow) {w : Wallet}
    → to_entity r ≡ ok w
    → (w.user_id ≡ r.user_id) × (w.created_at.time_in_ms ≡ r.created_at)
unfolding to_entity
to_entity-row r e =
    let (balance, read, done) =
      >>=-eq-ok (new_money (unary_plus r.balance_value) r.balance_currency) _ e in
    (
      ap (λ w. w.user_id) (sym (ok_injective done)),
      ap (λ w. w.created_at.time_in_ms) (sym (ok_injective done)),
    )

to_entities-inv :
    (r : WalletRow) (rs : List WalletRow) {ws : List Wallet}
    → to_entities (r ∷ rs) ≡ ok ws
    → (w : Wallet) × (vs : List Wallet) × (to_entity r ≡ ok w)
      × (to_entities rs ≡ ok vs)
      × (ws ≡ w ∷ vs)
to_entities-inv r rs e =
    let (w, read, rest) = >>=-eq-ok (to_entity r) _ e in
    let (vs, reads, done) = >>=-eq-ok (to_entities rs) _ rest in
    (w, vs, read, reads, sym (ok_injective done))

length-to_entities :
    (rs : List WalletRow) {ws : List Wallet} → to_entities rs ≡ ok ws → length ws ≡ length rs
length-to_entities [] e = ap length (sym (ok_injective e))
length-to_entities (r ∷ rs) e =
    let (w, vs, read, reads, done) = to_entities-inv r rs e in
    ap length done ∙ ap suc (length-to_entities rs reads)

to_entities-All :
    (P : WalletRow → Type 0) (Q : Wallet → Type 0)
    → ((r : WalletRow) (w : Wallet) → to_entity r ≡ ok w → P r → Q w)
    → (rs : List WalletRow) {ws : List Wallet} → to_entities rs ≡ ok ws
    → All P rs
    → All Q ws
to_entities-All P Q each [] e h = subst (All Q) (ok_injective e) tt
to_entities-All P Q each (r ∷ rs) e (h, hs) =
    let (w, vs, read, reads, done) = to_entities-inv r rs e in
    subst (All Q) (sym done) (each r w read h, to_entities-All P Q each rs reads hs)

to_entities-IsSorted :
    (rs : List WalletRow) {ws : List Wallet}
    → to_entities rs ≡ ok ws
    → IsSorted (λ r. r.created_at) rs
    → IsSorted (λ w. w.created_at.time_in_ms) ws
to_entities-IsSorted [] e h = subst (IsSorted (λ w. w.created_at.time_in_ms)) (ok_injective e) tt
to_entities-IsSorted (r ∷ rs) e (low, h) =
    let (w, vs, read, reads, done) = to_entities-inv r rs e in
    subst (IsSorted (λ w. w.created_at.time_in_ms)) (sym done) (
      to_entities-All (λ x. r.created_at ≤ x.created_at)
          (λ x. w.created_at.time_in_ms ≤ x.created_at.time_in_ms)
          (λ x v reads' le. omega (arith, (to_entity-row r read).1, (to_entity-row x reads').1)) rs
          reads low,
      to_entities-IsSorted rs reads h,
    )

to_entities-append :
    (rs ss : List WalletRow) {ws vs : List Wallet}
    → to_entities rs ≡ ok ws
    → to_entities ss ≡ ok vs
    → to_entities (rs ++ ss) ≡ ok (ws ++ vs)
to_entities-append [] ss {vs = vs} e f = f ∙ ap (λ us. ok (us ++ vs)) (ok_injective e)
to_entities-append (r ∷ rs) ss {vs = vs} e f =
    let (w, us, read, reads, done) = to_entities-inv r rs e in
    rw (read, to_entities-append rs ss reads f) (ap (λ us. ok (us ++ vs)) (sym done))

module _ (db : Database) (user_id : String) (s : World db) where
  abbrev owned : WalletRow → Bool
  owned r = str_eq r.user_id user_id

  -- The wallets of a user in the order of their creation.
  abbrev all_rows : List WalletRow
  all_rows = db.wallets.where_ordered owned (λ r. r.created_at) s.wallets

  -- A page only reads: it holds what its rows read as.
  page_lem :
      (page : Pagination)
      → get_wallets_by_user db user_id page s
        ≡ (to_entities (take page.limit (drop page.offset all_rows)), s)
  unfolding get_wallets_by_user
  page_lem page = refl

  owned-All : All (λ r. r.user_id ≡ user_id) all_rows
  owned-All =
      All-perm (λ r. r.user_id ≡ user_id)
        (Permᴰ.symm (db.wallets.where_ordered_rows owned (λ r. r.created_at) s.wallets))
        (All-select_passing (λ r. r.user_id ≡ user_id) owned (λ r. (eq_iff r.user_id user_id).0)
          (db.wallets.rows s.wallets))

  -- If `get_wallets_by_user` returns, it has changed nothing; what it returns are wallets of the
  -- user, in the order of their creation; and their number is the smaller of the limit and of what
  -- the user has beyond the offset.
  pub get_wallets_by_user_lem :
      (page : Pagination) {ws : List Wallet} {s' : World db}
      → get_wallets_by_user db user_id page s ≡ (ok ws, s')
      → (s ≡ s')
        × All (λ w. w.user_id ≡ user_id) ws
        × IsSorted (λ w. w.created_at.time_in_ms) ws
        × (length ws ≤ page.limit)
        × (length ws ≤ length (select owned (db.wallets.rows s.wallets)) - page.offset)
        × ((length ws ≡ page.limit)
            ⊎ (length ws ≡ length (select owned (db.wallets.rows s.wallets)) - page.offset))
  get_wallets_by_user_lem page e =
      let rows = drop page.offset all_rows in
      let reads = ap (λ r. r.0) (sym (page_lem page) ∙ e) in
      let counted =
        length-perm (db.wallets.where_ordered_rows owned (λ r. r.created_at) s.wallets) in
      let (few, fewer, full) = length-take page.limit rows in
      let same = length-to_entities (take page.limit rows) reads in
      let left = length-drop page.offset all_rows in
      (
        ap (λ r. r.1) (sym (page_lem page) ∙ e),
        to_entities-All (λ r. r.user_id ≡ user_id) (λ w. w.user_id ≡ user_id)
            (λ r w read owner. (to_entity-row r read).0 ∙ owner) (take page.limit rows) reads
            (All-take (λ r. r.user_id ≡ user_id) page.limit rows
              (All-drop (λ r. r.user_id ≡ user_id) page.offset all_rows owned-All)),
        to_entities-IsSorted (take page.limit rows) reads (
            take-IsSorted (λ r. r.created_at) page.limit rows
              (drop-IsSorted (λ r. r.created_at) page.offset all_rows
                (db.wallets.where_ordered_sorted owned (λ r. r.created_at) s.wallets))),
        omega arith,
        omega arith,
        elim full [ inl limit ↦ inl (omega arith) | inr all ↦ inr (omega arith) ],
      )

  -- Two pages that follow one another are, together, the page of both limits.
  pub get_wallets_by_user-append :
      (offset a b : ℕ) {ws vs : List Wallet}
      → get_wallets_by_user db user_id (record { offset = offset; limit = a }) s ≡ (ok ws, s)
      → get_wallets_by_user db user_id (record { offset = offset + a; limit = b }) s ≡ (ok vs, s)
      → get_wallets_by_user db user_id (record { offset = offset; limit = a + b }) s
        ≡ (ok (ws ++ vs), s)
  get_wallets_by_user-append offset a b first second =
      let rows = drop offset all_rows in
      let reads = ap (λ r. r.0) (sym (page_lem (record { offset = offset; limit = a })) ∙ first) in
      let reads' =
        ap to_entities (ap (take b) (sym (drop_add offset a all_rows)))
        ∙ ap (λ r. r.0) (sym (page_lem (record { offset = offset + a; limit = b })) ∙ second) in
      page_lem (record { offset = offset; limit = a + b })
      ∙ ap (λ rs. (to_entities rs, s)) (take_add a b rows)
      ∙ ap (λ r. (r, s)) (to_entities-append (take a rows) (take b (drop a rows)) reads reads')
