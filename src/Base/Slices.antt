-- ===== src/Base/Slices.antt =====
-- The parts of a list that a page takes, by an offset and a limit.
use Prim.Native.Nat.{ℕ, zero, suc, ◌+◌, ◌-◌, ◌≤◌}
use mathlib.Core.Path.{◌≡◌, refl, ap, ◌∙◌}
use mathlib.Core.List.{List, [], ◌∷◌, ◌++◌}
use mathlib.Core.Logic.{◌⊎◌, inl, inr}
use native.Mathlib.Omega.{arith}
use tanta.Base.Lists.{length, take, drop, All, IsSorted}

suc_first : (a b : ℕ) → suc a + b ≡ suc (a + b)
suc_first a b = omega arith

module _ {A : Type 0} where
  take_nil : (b : ℕ) → [] ≡ take {A = A} b []
  take_nil zero = refl
  take_nil (suc b) = refl

  drop_nil : (b : ℕ) → [] ≡ drop {A = A} b []
  drop_nil zero = refl
  drop_nil (suc b) = refl

  pub take_add : (a b : ℕ) (xs : List A) → take (a + b) xs ≡ take a xs ++ take b (drop a xs)
  take_add zero b xs = let none_more : 0 + b ≡ b = omega arith in ap (λ n. take n xs) none_more
  take_add (suc a) b [] = ap (λ n. take n []) (suc_first a b) ∙ take_nil b
  take_add (suc a) b (x ∷ xs) =
      ap (λ n. take n (x ∷ xs)) (suc_first a b) ∙ ap (λ ys. x ∷ ys) (take_add a b xs)

  pub drop_add : (a b : ℕ) (xs : List A) → drop (a + b) xs ≡ drop b (drop a xs)
  drop_add zero b xs = let none_more : 0 + b ≡ b = omega arith in ap (λ n. drop n xs) none_more
  drop_add (suc a) b [] = ap (λ n. drop n []) (suc_first a b) ∙ drop_nil b
  drop_add (suc a) b (x ∷ xs) = ap (λ n. drop n (x ∷ xs)) (suc_first a b) ∙ drop_add a b xs

  pub length-drop : (n : ℕ) (xs : List A) → length (drop n xs) ≡ length xs - n
  length-drop zero xs = omega arith
  length-drop (suc n) [] = omega arith
  length-drop (suc n) (x ∷ xs) = omega (arith, length-drop n xs)

  pub length-take :
      (n : ℕ) (xs : List A)
      → (length (take n xs) ≤ n)
        × (length (take n xs) ≤ length xs)
        × ((length (take n xs) ≡ n) ⊎ (length (take n xs) ≡ length xs))
  length-take zero xs = (omega arith, omega arith, inl refl)
  length-take (suc n) [] = (omega arith, omega arith, inr refl)
  length-take (suc n) (x ∷ xs) =
      let (l, m, e) = length-take n xs in
      (
        omega arith,
        omega arith,
        elim e [ inl full ↦ inl (ap suc full) | inr all ↦ inr (ap suc all) ],
      )

  module _ (P : A → Type 0) where
    pub All-take : (n : ℕ) (xs : List A) → All P xs → All P (take n xs)
    All-take zero xs h = tt
    All-take (suc n) [] h = tt
    All-take (suc n) (x ∷ xs) (h, hs) = (h, All-take n xs hs)

    pub All-drop : (n : ℕ) (xs : List A) → All P xs → All P (drop n xs)
    All-drop zero xs h = h
    All-drop (suc n) [] h = tt
    All-drop (suc n) (x ∷ xs) (h, hs) = All-drop n xs hs

  module _ (f : A → ℕ) where
    pub take-IsSorted : (n : ℕ) (xs : List A) → IsSorted f xs → IsSorted f (take n xs)
    take-IsSorted zero xs h = tt
    take-IsSorted (suc n) [] h = tt
    take-IsSorted (suc n) (x ∷ xs) (low, h) =
        (All-take (λ y. f x ≤ f y) n xs low, take-IsSorted n xs h)

    pub drop-IsSorted : (n : ℕ) (xs : List A) → IsSorted f xs → IsSorted f (drop n xs)
    drop-IsSorted zero xs h = h
    drop-IsSorted (suc n) [] h = tt
    drop-IsSorted (suc n) (x ∷ xs) (low, h) = drop-IsSorted n xs h
