-- ===== src/Base/Lists.antt =====
-- Lists measured by native numbers, Boolean selection, and permutations as far as the table
-- queries need them.
use Prim.Native.Nat.{ℕ, zero, suc, ◌≤◌}
use mathlib.Core.List.Permᴰ
use mathlib.Core.Path.{subst, ◌≡◌, refl, ap, ◌∙◌}
use mathlib.Core.Bool.{Bool, true, false}
use mathlib.Core.Option.{Option, none, some}
use mathlib.Core.List.{List, [], ◌∷◌, ◌++◌, Permᴰ}
use native.Mathlib.Omega.{arith}

module _ {ℓ} {A : Type ℓ} where
  abbrev pub length : List A → ℕ
  length [] = 0
  length (x ∷ xs) = suc (length xs)

  abbrev pub take : ℕ → List A → List A
  take zero xs = []
  take (suc n) [] = []
  take (suc n) (x ∷ xs) = x ∷ take n xs

  abbrev pub drop : ℕ → List A → List A
  drop zero xs = xs
  drop (suc n) [] = []
  drop (suc n) (x ∷ xs) = drop n xs

  abbrev pub head? : List A → Option A
  head? [] = none
  head? (x ∷ xs) = some x

  abbrev keep : Bool → A → List A → List A
  keep true x xs = x ∷ xs
  keep false x xs = xs

  -- The entries that pass a Boolean test, in their order.
  abbrev pub select : (A → Bool) → List A → List A
  select p [] = []
  select p (x ∷ xs) = keep (p x) x (select p xs)

  -- Every entry has the property.
  abbrev pub All {κ} : (A → Type κ) → List A → Type κ
  All P [] = Unit
  All P (x ∷ xs) = P x × All P xs

-- Rearrangement seen through a Boolean selection and at a single entry.
module _ {ℓ} {A : Type ℓ} where
  keep_perm :
      (b : Bool) {x y : A} {xs ys : List A}
      → x ≡ y
      → Permᴰ xs ys
      → Permᴰ (keep b x xs) (keep b y ys)
  keep_perm true e p = Permᴰ.cons e p
  keep_perm false e p = p

  tail_nil : (a : A) (xs : List A) (r : A) → a ∷ xs ≡ r ∷ [] → xs ≡ []
  tail_nil a xs r h = cc

  keep_swap :
      (b c : Bool) (x y : A) (xs : List A) → Permᴰ (keep b x (keep c y xs)) (keep c y (keep b x xs))
  keep_swap true true x y xs = Permᴰ.swap refl refl
  keep_swap true false x y xs = Permᴰ.refl _
  keep_swap false c x y xs = Permᴰ.refl _

  pub select-perm :
      (p : A → Bool) {xs ys : List A} → Permᴰ xs ys → Permᴰ (select p xs) (select p ys)
  select-perm p Permᴰ.nil = Permᴰ.nil
  select-perm p (Permᴰ.cons {b = b} e q) = rw e (keep_perm (p b) refl (select-perm p q))
  select-perm p (Permᴰ.swap {a' = a'} {b' = b'} {l = l} e f) =
      rw (e, f) (keep_swap (p b') (p a') b' a' (select p l))
  select-perm p (Permᴰ.trans q r) = Permᴰ.trans (select-perm p q) (select-perm p r)

  pub length-perm : {xs ys : List A} → Permᴰ xs ys → length xs ≡ length ys
  length-perm Permᴰ.nil = refl
  length-perm (Permᴰ.cons e q) = ap suc (length-perm q)
  length-perm (Permᴰ.swap e f) = refl
  length-perm (Permᴰ.trans q r) = length-perm q ∙ length-perm r

  nil_of_length : (xs : List A) → length xs ≡ 0 → xs ≡ []
  nil_of_length [] h = refl
  nil_of_length (x ∷ xs) h = absurd (omega arith)

  pub nil_of_perm : {xs ys : List A} → Permᴰ xs ys → ys ≡ [] → xs ≡ []
  nil_of_perm {xs} q e = nil_of_length xs (length-perm q ∙ ap length e)

  singleton_both :
      (r : A) {xs ys : List A}
      → Permᴰ xs ys
      → (xs ≡ r ∷ [] → ys ≡ r ∷ []) × (ys ≡ r ∷ [] → xs ≡ r ∷ [])
  singleton_both r Permᴰ.nil = (λ h. h, λ h. h)
  singleton_both r (Permᴰ.cons {a = a} {b = b} {l₁ = xs} {l₂ = ys} e q) = (
    λ h. cc (e, h, nil_of_perm (Permᴰ.symm q) (tail_nil a xs r h)),
    λ h. cc (e, h, nil_of_perm q (tail_nil b ys r h)),
  )
  singleton_both r (Permᴰ.swap e f) = (λ h. cc, λ h. cc)
  singleton_both r (Permᴰ.trans q s) =
      let (up, down) = singleton_both r q in
      let (up', down') = singleton_both r s in (λ h. up' (up h), λ h. down (down' h))

  pub singleton_of_perm : (r : A) {xs ys : List A} → Permᴰ xs ys → ys ≡ r ∷ [] → xs ≡ r ∷ []
  singleton_of_perm r q = (singleton_both r q).1

  pub All-perm {κ} : (P : A → Type κ) {xs ys : List A} → Permᴰ xs ys → All P xs → All P ys
  All-perm P Permᴰ.nil h = h
  All-perm P (Permᴰ.cons e q) (h, hs) = (subst P e h, All-perm P q hs)
  All-perm P (Permᴰ.swap e f) (h, (k, hs)) = (subst P f k, (subst P e h, hs))
  All-perm P (Permᴰ.trans q r) h = All-perm P r (All-perm P q h)

  -- A selection that no entry passes is empty.
  pub select-none : (p : A → Bool) (xs : List A) → All (λ x. p x ≡ false) xs → select p xs ≡ []
  select-none p [] h = refl
  select-none p (x ∷ xs) (h, hs) = rw h (select-none p xs hs)

  pub All-map_imp {κ μ} :
      {P : A → Type κ} {Q : A → Type μ}
      → ((x : A) → P x → Q x)
      → (xs : List A) → All P xs
      → All Q xs
  All-map_imp f [] h = tt
  All-map_imp f (x ∷ xs) (h, hs) = (f x h, All-map_imp f xs hs)

  pub All-both {κ μ} :
      (P : A → Type κ) (Q : A → Type μ) (xs : List A)
      → All P xs
      → All Q xs
      → All (λ x. P x × Q x) xs
  All-both P Q [] h k = tt
  All-both P Q (x ∷ xs) (h, hs) (k, ks) = ((h, k), All-both P Q xs hs ks)

  pub All-append {κ} : (P : A → Type κ) (xs ys : List A) → All P xs → All P ys → All P (xs ++ ys)
  All-append P [] ys h k = k
  All-append P (x ∷ xs) ys (h, hs) k = (h, All-append P xs ys hs k)

  keep-All {κ} :
      (P : A → Type κ) (b : Bool) (x : A) (xs : List A) → P x → All P xs → All P (keep b x xs)
  keep-All P true x xs h hs = (h, hs)
  keep-All P false x xs h hs = hs

  pub All-select {κ} :
      (P : A → Type κ) (p : A → Bool) (xs : List A) → All P xs → All P (select p xs)
  All-select P p [] h = tt
  All-select P p (x ∷ xs) (h, hs) = keep-All P (p x) x (select p xs) h (All-select P p xs hs)

  keep-passing {κ} :
      (P : A → Type κ) (b : Bool) (x : A) (xs : List A)
      → (b ≡ true → P x)
      → All P xs
      → All P (keep b x xs)
  keep-passing P true x xs h hs = (h refl, hs)
  keep-passing P false x xs h hs = hs

  -- What holds of whatever passes the test, holds of the entries selected.
  pub All-select_passing {κ} :
      (P : A → Type κ) (p : A → Bool)
      → ((x : A) → p x ≡ true → P x)
      → (xs : List A) → All P (select p xs)
  All-select_passing P p sound [] = tt
  All-select_passing P p sound (x ∷ xs) =
      keep-passing P (p x) x (select p xs) (sound x) (All-select_passing P p sound xs)

  -- What holds of the entries that pass the test and of any that does not, holds of all.
  pub All-unselect {κ} :
      (P : A → Type κ) (p : A → Bool) (xs : List A)
      → ((x : A) → p x ≡ false → P x)
      → All P (select p xs)
      → All P xs
  All-unselect P p [] others h = tt
  All-unselect P p (x ∷ xs) others h =
      let (here, rest) = kept_or (p x) x (select p xs) (others x) h in
      (here, All-unselect P p xs others rest)
    where
      kept_or :
          (b : Bool) (x : A) (ys : List A)
          → (b ≡ false → P x)
          → All P (keep b x ys)
          → P x × All P ys
      kept_or true x ys other k = k
      kept_or false x ys other k = (other refl, k)

  -- Every entry that passes the test is overwritten.
  abbrev pub replace : (A → Bool) → A → List A → List A
  replace p r [] = []
  replace p r (x ∷ xs) = elim (p x) [ true ↦ r | false ↦ x ] ∷ replace p r xs

  -- In the order of a numeric key.
  abbrev pub IsSorted : (A → ℕ) → List A → Type 0
  IsSorted f [] = Unit
  IsSorted f (x ∷ xs) = All (λ y. f x ≤ f y) xs × IsSorted f xs
