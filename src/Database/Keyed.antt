-- ===== src/Database/Keyed.antt =====
-- `.where({key}).first()` on a table with a primary key, after the writes of the repositories.
use tanta.Base.{
  String, ◌≡◌, ◌⊎◌, refl, sym, ap, ◌∙◌, inl, inr, Bool, true, false, Bool-cases, Option, some, List,
  [], ◌∷◌, arith, str_eq, eq_iff, eq_refl, head?, All-map_imp, All-both, All-select, All-perm, All,
  ℕ, select, select-none, select-perm, nil_of_perm, singleton_of_perm, replace, none,
}
use mathlib.Core.Path.{subst}
use mathlib.Core.Option
use mathlib.Core.List.{Permᴰ}
use mathlib.Core.List.Permᴰ
use tanta.Database.{Table, IsDistinct}

module _ {Row : Type 0} (key : Row → String) where
  abbrev pub has_key : String → Row → Bool
  has_key k r = str_eq (key r) k

  -- The entry with a key, if there is one.
  abbrev entry : String → List Row → Option Row
  entry k xs = head? (select (has_key k) xs)

  not_key_of_free :
      (r : Row) (k : String)
      → str_eq (key r) k ≡ true
      → (x : Row) → str_eq (key x) (key r) ≡ false
      → str_eq (key x) k ≡ false
  not_key_of_free r k e x h = rw (← (eq_iff (key r) k).0 e) h

  select_distinct :
      (k : String) (xs : List Row)
      → IsDistinct key xs
      → (select (has_key k) xs ≡ []) ⊎ ((r : Row) × (select (has_key k) xs ≡ r ∷ []))
  select_distinct k [] d = inl refl
  select_distinct k (x ∷ xs) (free, d) = elim (Bool-cases (has_key k x)) [
    | inl here ↦ inr (
      x,
      rw here (
          ap (λ ys. x ∷ ys)
            (select-none (has_key k) xs (All-map_imp (not_key_of_free x k here) xs free))),
    )
    | inr other ↦ rw other (select_distinct k xs d)
  ]

  -- With distinct keys a rearrangement has the same entries.
  entry-perm :
      (k : String) {xs ys : List Row} → Permᴰ xs ys → IsDistinct key ys → entry k xs ≡ entry k ys
  entry-perm k {xs} {ys} q d = elim (select_distinct k ys d) [
    | inl gone ↦ ap head? (nil_of_perm (select-perm (has_key k) q) gone ∙ sym gone)
    | inr (r, only) ↦ ap head? (singleton_of_perm r (select-perm (has_key k) q) only ∙ sym only)
  ]

  entry-replace_ne :
      (j k : String) (r : Row) (xs : List Row)
      → str_eq (key r) k ≡ true
      → str_eq k j ≡ false
      → select (has_key j) (replace (has_key k) r xs) ≡ select (has_key j) xs
  entry-replace_ne j k r [] e ne = refl
  entry-replace_ne j k r (x ∷ xs) e ne = ground (
    arith,
    eq_iff (key r) k,
    eq_iff (key x) k,
    eq_iff (key r) j,
    eq_iff (key x) j,
    eq_iff k j,
    entry-replace_ne j k r xs e ne,
  )

  entry-replace_self :
      (k : String) (r x : Row) (xs : List Row)
      → has_key k r ≡ true
      → entry k xs ≡ some x
      → entry k (replace (has_key k) r xs) ≡ some r
  entry-replace_self k r x [] e h = cc
  entry-replace_self k r x (y ∷ ys) e h = elim (Bool-cases (has_key k y)) [
    | inl here ↦ rw (here, e)
    | inr other ↦ rw (other, other) (entry-replace_self k r x ys e (rw other at h))
  ]

  entry-replace-none :
      (k : String) (r : Row) (xs : List Row)
      → entry k xs ≡ none
      → entry k (replace (has_key k) r xs) ≡ none
  entry-replace-none k r [] h = refl
  entry-replace-none k r (y ∷ ys) h = elim (Bool-cases (has_key k y)) [
    | inl here ↦ absurd (ground (arith, here, h))
    | inr other ↦ rw (other, other) (entry-replace-none k r ys (rw other at h))
  ]

  -- With distinct keys each row is the entry of its own key.
  entry-own : (xs : List Row) → IsDistinct key xs → All (λ x. entry (key x) xs ≡ some x) xs
  entry-own [] d = tt
  entry-own (y ∷ ys) (free, d) = (
    rw (eq_refl (key y)),
    All-map_imp {P = λ x. (str_eq (key x) (key y) ≡ false) × (entry (key x) ys ≡ some x)}
        (λ x (ne, here). ground (arith, eq_iff (key x) (key y), eq_iff (key y) (key x), ne, here))
        ys
        (All-both (λ x. str_eq (key x) (key y) ≡ false) (λ x. entry (key x) ys ≡ some x) ys free
          (entry-own ys d)),
  )

  entry-All :
      (P : Row → Type 0) (k : String) (r : Row) (xs : List Row)
      → entry k xs ≡ some r
      → All P xs
      → P r
  entry-All P k r [] h all = absurd (ground (arith, h))
  entry-All P k r (y ∷ ys) h (p, ps) = elim (Bool-cases (has_key k y)) [
    | inl here ↦ subst P (Option.some-injective y r (rw here at h)) p
    | inr other ↦ entry-All P k r ys (rw other at h) ps
  ]

  entry-key : (k : String) (r : Row) (xs : List Row) → entry k xs ≡ some r → has_key k r ≡ true
  entry-key k r [] h = cc
  entry-key k r (y ∷ ys) h = ground (arith, entry-key k r ys)

module _ {Row : Type 0} {key : Row → String} (table : Table Row key) where
  abbrev pub first : String → table.Store → Option Row
  first k s = head? (table.where_ (λ r. str_eq (key r) k) s)

  first-entry : (k : String) (s : table.Store) → first k s ≡ entry key k (table.rows s)
  first-entry k s = elim (select_distinct key k (table.rows s) (table.primary_key s)) [
    | inl gone ↦ ap head? (nil_of_perm (table.where_rows _ s) gone ∙ sym gone)
    | inr (r, only) ↦ ap head? (singleton_of_perm r (table.where_rows _ s) only ∙ sym only)
  ]

  first-perm :
      (k : String) (t : table.Store) (ys : List Row)
      → Permᴰ (table.rows t) ys
      → first k t ≡ entry key k ys
  first-perm k t ys q =
      first-entry k t ∙ sym (entry-perm key k (Permᴰ.symm q) (table.primary_key t))

  pub first-insert_self :
      (r : Row) (s t : table.Store) → table.insert r s ≡ some t → first (key r) t ≡ some r
  first-insert_self r s t h =
      first-perm (key r) t (r ∷ table.rows s) (table.insert_rows r s t h) ∙ rw (eq_refl (key r))

  pub first-insert_ne :
      (k : String) (r : Row) (s t : table.Store)
      → str_eq (key r) k ≡ false
      → table.insert r s ≡ some t
      → first k t ≡ first k s
  first-insert_ne k r s t ne h =
      first-perm k t (r ∷ table.rows s) (table.insert_rows r s t h) ∙ rw ne (sym (first-entry k s))

  -- An insert that goes through leaves what was found before.
  pub first-insert_kept :
      (k : String) (r : Row) (s t : table.Store) {x : Row}
      → table.insert r s ≡ some t
      → first k s ≡ some x
      → first k t ≡ some x
  first-insert_kept k r s t {x} h old = elim (Bool-cases (str_eq (key r) k)) [
    | inl same ↦ absurd (gone same)
    | inr other ↦ first-insert_ne k r s t other h ∙ old
  ]
    where
      gone : str_eq (key r) k ≡ true → ⊥
      gone same =
          let free : entry key k (table.rows s) ≡ none = ap head? (
            select-none (has_key key k) (table.rows s) (
              All-map_imp (not_key_of_free key r k same) (table.rows s)
                (table.insert_key r s t h))) in
          cc (free, first-entry k s, old)

  pub first-update_self :
      (k : String) (r : Row) (s t : table.Store) {x : Row}
      → str_eq (key r) k ≡ true
      → first k s ≡ some x
      → table.update k r s ≡ some t
      → first k t ≡ some r
  first-update_self k r s t {x} e old h =
      first-perm k t (replace (has_key key k) r (table.rows s)) (table.update_rows k r s t h)
      ∙ entry-replace_self key k r x (table.rows s) e (sym (first-entry k s) ∙ old)

  pub first-update_none :
      (k : String) (r : Row) (s t : table.Store)
      → first k s ≡ none
      → table.update k r s ≡ some t
      → first k t ≡ none
  first-update_none k r s t gone h =
      first-perm k t (replace (has_key key k) r (table.rows s)) (table.update_rows k r s t h)
      ∙ entry-replace-none key k r (table.rows s) (sym (first-entry k s) ∙ gone)

  -- Whatever a query lists is found under its key.
  pub first-listed :
      (p : Row → Bool) (f : Row → ℕ) (s : table.Store)
      → All (λ r. first (key r) s ≡ some r) (table.where_ordered p f s)
  first-listed p f s =
      All-perm (λ r. first (key r) s ≡ some r) (Permᴰ.symm (table.where_ordered_rows p f s))
        (All-select (λ r. first (key r) s ≡ some r) p (table.rows s)
          (All-map_imp (λ r own. first-entry (key r) s ∙ own) (table.rows s)
            (entry-own key (table.rows s) (table.primary_key s))))

  pub first-update_ne :
      (j k : String) (r : Row) (s t : table.Store)
      → str_eq (key r) k ≡ true
      → str_eq k j ≡ false
      → table.update k r s ≡ some t
      → first j t ≡ first j s
  first-update_ne j k r s t e ne h =
      first-perm j t (replace (has_key key k) r (table.rows s)) (table.update_rows k r s t h)
      ∙ ap head? (entry-replace_ne key j k r (table.rows s) e ne)
      ∙ sym (first-entry j s)

  -- What is found under a key has that key.
  pub first-key : (k : String) (s : table.Store) {r : Row} → first k s ≡ some r → key r ≡ k
  first-key k s {r} h =
      (eq_iff (key r) k).0 (entry-key key k r (table.rows s) (sym (first-entry k s) ∙ h))

  -- What is found is one of the rows.
  pub first-All :
      (P : Row → Type 0) (k : String) (s : table.Store) {r : Row}
      → first k s ≡ some r
      → All P (table.rows s)
      → P r
  first-All P k s {r} h all = entry-All key P k r (table.rows s) (sym (first-entry k s) ∙ h) all
