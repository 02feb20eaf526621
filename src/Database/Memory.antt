-- ===== src/Database/Memory.antt =====
-- A table held in a list: an instance of the interface `Table`, which shows that its laws can be
-- met and lets the services run in tests. Its only refusal is a primary key that is taken.
use tanta.Base.{
  ℕ, String, ◌≤◌, ◌≡◌, refl, sym, ap, Bool, true, false, not, ◌&&◌, Option, none, some, List, [],
  ◌∷◌, arith, leb, leb→le, str_eq, All, All-perm, All-map_imp, select, replace, IsSorted,
  Bool-cases, if◌then◌else◌, inl, inr,
}
use mathlib.Core.Path.{subst}
use mathlib.Core.List.{Permᴰ}
use mathlib.Core.List.Permᴰ
use tanta.Database.{Table, IsDistinct}

module _ {Row : Type 0} where
  -- The rows sorted by a numeric column; rows with equal values keep their order.
  pub insert_by : (Row → ℕ) → Row → List Row → List Row
  insert_by f r [] = r ∷ []
  insert_by f r (x ∷ xs) =
      let later = x ∷ insert_by f r xs in if leb (f r) (f x) then r ∷ x ∷ xs else later

  pub sort_by : (Row → ℕ) → List Row → List Row
  sort_by f [] = []
  sort_by f (r ∷ rs) = insert_by f r (sort_by f rs)

  insert_by-perm : (f : Row → ℕ) (r : Row) (xs : List Row) → Permᴰ (insert_by f r xs) (r ∷ xs)
  unfolding insert_by
  insert_by-perm f r [] = Permᴰ.refl _
  insert_by-perm f r (x ∷ xs) = elim (Bool-cases (leb (f r) (f x))) [
    | inl here ↦ rw here (Permᴰ.refl _)
    | inr later ↦
        rw later (Permᴰ.trans (Permᴰ.cons refl (insert_by-perm f r xs)) (Permᴰ.swap refl refl))
  ]

  pub sort_by-perm : (f : Row → ℕ) (rs : List Row) → Permᴰ (sort_by f rs) rs
  unfolding sort_by
  sort_by-perm f [] = Permᴰ.nil
  sort_by-perm f (r ∷ rs) =
      Permᴰ.trans (insert_by-perm f r (sort_by f rs)) (Permᴰ.cons refl (sort_by-perm f rs))

  insert_by-IsSorted :
      (f : Row → ℕ) (r : Row) (xs : List Row) → IsSorted f xs → IsSorted f (insert_by f r xs)
  unfolding insert_by
  insert_by-IsSorted f r [] h = (tt, tt)
  insert_by-IsSorted f r (x ∷ xs) (low, h) = elim (Bool-cases (leb (f r) (f x))) [
    | inl here ↦
        let below : f r ≤ f x = leb→le (f r) (f x) here in
        rw here (
          (
            below,
            All-map_imp {P = λ y. f x ≤ f y} {Q = λ y. f r ≤ f y} (λ y k. omega arith) xs low,
          ),
          (low, h),
        )
    | inr later ↦ rw later (
      All-perm (λ y. f x ≤ f y) (Permᴰ.symm (insert_by-perm f r xs)) (ground arith, low),
      insert_by-IsSorted f r xs h,
    )
  ]

  pub sort_by-IsSorted : (f : Row → ℕ) (rs : List Row) → IsSorted f (sort_by f rs)
  unfolding sort_by
  sort_by-IsSorted f [] = tt
  sort_by-IsSorted f (r ∷ rs) = insert_by-IsSorted f r (sort_by f rs) (sort_by-IsSorted f rs)

module _ {Row : Type 0} (key : Row → String) where
  pub is_free : String → List Row → Bool
  is_free k [] = true
  is_free k (x ∷ xs) = not (str_eq (key x) k) && is_free k xs

  pub is_distinct : List Row → Bool
  is_distinct [] = true
  is_distinct (r ∷ rs) = is_free (key r) rs && is_distinct rs

  is_free_sound :
      (k : String) (xs : List Row) → is_free k xs ≡ true → All (λ x. str_eq (key x) k ≡ false) xs
  unfolding is_free
  is_free_sound k [] h = tt
  is_free_sound k (x ∷ xs) h = (ground arith, is_free_sound k xs (ground arith))

  pub is_distinct_sound : (rs : List Row) → is_distinct rs ≡ true → IsDistinct key rs
  unfolding is_distinct
  is_distinct_sound [] h = tt
  is_distinct_sound (r ∷ rs) h =
      (is_free_sound (key r) rs (ground arith), is_distinct_sound rs (ground arith))

  abbrev pub Stored : Type 0
  Stored = (rs : List Row) × (is_distinct rs ≡ true)

  pub checked : (rs : List Row) (b : Bool) → is_distinct rs ≡ b → Option Stored
  checked rs true e = some (rs, e)
  checked rs false e = none

  pub commit : List Row → Option Stored
  commit rs = checked rs (is_distinct rs) refl

  rows_or : List Row → Option Stored → List Row
  rows_or rs none = rs
  rows_or rs (some t) = t.0

  checked-rows :
      (rs : List Row) (b : Bool) (e : is_distinct rs ≡ b) (t : Stored)
      → checked rs b e ≡ some t
      → rs ≡ t.0
  unfolding checked rows_or
  checked-rows rs true e t h = ap (rows_or rs) h
  checked-rows rs false e t h = cc

  commit-rows : (rs : List Row) (t : Stored) → commit rs ≡ some t → rs ≡ t.0
  unfolding commit
  commit-rows rs t h = checked-rows rs (is_distinct rs) refl t h

  pub commit-perm : (rs : List Row) (t : Stored) → commit rs ≡ some t → Permᴰ t.0 rs
  commit-perm rs t h = subst (λ xs. Permᴰ xs rs) (commit-rows rs t h) (Permᴰ.refl rs)

  pub commit-IsDistinct : (rs : List Row) (t : Stored) → commit rs ≡ some t → IsDistinct key rs
  commit-IsDistinct rs t h =
      subst (IsDistinct key) (sym (commit-rows rs t h)) (is_distinct_sound t.0 t.1)

  pub is_distinct-nil : is_distinct [] ≡ true
  unfolding is_distinct
  is_distinct-nil = refl

  abbrev pub empty : Stored
  empty = ([], is_distinct-nil)

  abbrev pub memory : Table Row key
  memory = record {
    Store = Stored;
    rows = λ s. s.0;
    insert = λ r s. commit (r ∷ s.0);
    update = λ k r s. commit (replace (λ x. str_eq (key x) k) r s.0);
    where_ = λ p s. select p s.0;
    where_ordered = λ p f s. sort_by f (select p s.0);
    truncate = λ s. empty;
    truncate_rows = λ s. refl;
    primary_key = λ s. is_distinct_sound s.0 s.1;
    insert_rows = λ r s t h. commit-perm (r ∷ s.0) t h;
    insert_key = λ r s t h. (commit-IsDistinct (r ∷ s.0) t h).0;
    update_rows = λ k r s t h. commit-perm (replace (λ x. str_eq (key x) k) r s.0) t h;
    where_rows = λ p s. Permᴰ.refl _;
    where_ordered_rows = λ p f s. sort_by-perm f (select p s.0);
    where_ordered_sorted = λ p f s. sort_by-IsSorted f (select p s.0);
  }

-- Opens what the operations of `memory` compute through, for tests.
unfoldable pub memory_runs : Unit {0}
unfolding commit checked is_distinct is_free sort_by insert_by
memory_runs = tt
