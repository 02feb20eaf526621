-- ===== src/Js/Number/Doubles.antt =====
-- Rounding to doubles leaves alone what it has rounded.
use tanta.Base.{
  ℕ, zero, suc, ◌+◌, ◌-◌, ◌*◌, ◌/◌, ◌%◌, ◌^◌, ◌<◌, ◌≤◌, ◌≡◌, refl, sym, ap, ◌∙◌, ◌⊎◌, Option, none,
  some, inl, inr, Bool-cases, arith, ltb, ltb→lt, lt→ltb,
}
use native.Mathlib.Nat.{mul-div_cancel, mul-mod_left, two-pow-succ, mul_assoc}
use tanta.Js.Int.{pos}
use tanta.Js.Number.{int, exponent, round_at, finite, rounded, double}

pow_pos : (e : ℕ) → 0 < 2 ^ e
pow_pos zero = omega arith
pow_pos (suc e) = omega (arith, two-pow-succ e, pow_pos e)

pow_add : (j e : ℕ) → 2 ^ j * 2 ^ e ≡ 2 ^ (j + e)
pow_add zero e = ground arith
pow_add (suc j) e = grind (arith, pow_add j e, two-pow-succ j, two-pow-succ (j + e))

-- The exponent is in reach of the fuel, and fits.
exponent_fits :
    (fuel n e : ℕ) {x : ℕ} → exponent fuel n e ≡ some x → (x < e + fuel) × (n / 2 ^ x < 2 ^ 53)
unfolding exponent
exponent_fits zero n e h = absurd (ground arith)
exponent_fits (suc fuel) n e {x} h = elim (Bool-cases (ltb (n / 2 ^ e) (2 ^ 53))) [
  | inl fits ↦ ground (arith, fits, h, ltb→lt (n / 2 ^ e) (2 ^ 53))
  | inr large ↦ ground (arith, exponent_fits fuel n (e + 1) {x = x} (rw large at h))
]

le_cases : (e d : ℕ) → e ≤ d → (e ≡ d) ⊎ (e + 1 ≤ d)
le_cases e d h = elim (Bool-cases (ltb e d)) [
  | inl below ↦ inr (ground arith)
  | inr not_below ↦ inl (ground arith)
]

-- An exponent that fits is at least the one that is found.
exponent_least :
    (fuel n e d : ℕ)
    → e ≤ d
    → d < e + fuel
    → n / 2 ^ d < 2 ^ 53
    → (x : ℕ) × (exponent fuel n e ≡ some x) × (x ≤ d)
unfolding exponent
exponent_least zero n e d h k fits = absurd (omega arith)
exponent_least (suc fuel) n e d h k fits = elim (Bool-cases (ltb (n / 2 ^ e) (2 ^ 53))) [
  | inl here ↦ (e, rw here, h)
  | inr large ↦ rw large (
      exponent_least fuel n (e + 1) d
        (elim (le_cases e d h) [
          | inl same ↦ absurd (ground (arith, same, fits, large))
          | inr above ↦ above
        ])
        (omega arith) fits)
]

sub_add : (d e : ℕ) → e ≤ d → d ≡ d - e + e
sub_add d e h = omega arith

-- A multiple of 2^d is a multiple of the smaller powers, and rounds to itself there.
round_at_multiple : (m d e : ℕ) → e ≤ d → round_at (m * 2 ^ d) e ≡ m * 2 ^ d
unfolding round_at
round_at_multiple m d e h =
    let k : ℕ = m * 2 ^ (d - e) in
    let split : m * 2 ^ d ≡ k * 2 ^ e =
      ap (λ t. m * 2 ^ t) (sub_add d e h)
      ∙ ap (λ t. m * t) (sym (pow_add (d - e) e))
      ∙ sym (mul_assoc m (2 ^ (d - e)) (2 ^ e)) in
    rw split (
      rw (
        mul-mod_left k (2 ^ e),
        mul-div_cancel k (pow_pos e),
        lt→ltb (2 * 0) (2 ^ e) (omega (arith, pow_pos e)),
      ))

-- What is rounded to is a number of fewer than 54 bits, times a power of two in reach.
finite_int : (n : ℕ) {k : ℕ} → finite n ≡ int (pos k) → (n ≡ k) × (k < 2 ^ 1024)
unfolding finite
finite_int n h = ground (arith, h)

quotient_bound :
    (n e : ℕ) → n / 2 ^ e < 2 ^ 53 → (m : ℕ) × (round_at n e ≡ m * 2 ^ e) × (m ≤ 2 ^ 53)
unfolding round_at
quotient_bound n e h = elim (Bool-cases (ltb (2 * (n % 2 ^ e)) (2 ^ e))) [
  | inl down ↦ (n / 2 ^ e, rw down, omega arith)
  | inr not_down ↦ elim (Bool-cases (ltb (2 ^ e) (2 * (n % 2 ^ e)))) [
    | inl up ↦ (n / 2 ^ e + 1, rw (not_down, up), omega arith)
    | inr tie ↦ (n / 2 ^ e + n / 2 ^ e % 2, rw (not_down, tie), omega arith)
  ]
]

-- So its exponent is found, and it is a multiple of that power.
Representable : ℕ → Type 0
Representable k = (m d : ℕ) × (k ≡ m * 2 ^ d) × (m < 2 ^ 53) × (d < 972)

top_exponent : (e k : ℕ) → k ≡ 2 ^ 53 * 2 ^ e → e < 972 → k < 2 ^ 1024 → e + 1 < 972
top_exponent e k is reach small = elim (le_cases (e + 1) 972 (omega arith)) [
  | inl last ↦
      let e_is : e ≡ 971 = omega arith in
      absurd (omega (arith, is ∙ pow_add 53 e ∙ ap (λ t. 2 ^ (53 + t)) e_is))
  | inr below ↦ omega arith
]

normalise : (m e k : ℕ) → k ≡ m * 2 ^ e → m ≤ 2 ^ 53 → e < 972 → k < 2 ^ 1024 → Representable k
unfolding Representable
normalise m e k is bound reach small = elim (le_cases m (2 ^ 53) bound) [
  | inl top ↦
      let k_is : k ≡ 2 ^ 53 * 2 ^ e = is ∙ ap (λ t. t * 2 ^ e) top in
      (
        2 ^ 52,
        e + 1,
        omega (arith, k_is, sym (pow_add e 1)),
        omega arith,
        top_exponent e k k_is reach small,
      )
  | inr below ↦ (m, e, is, omega arith, reach)
]

multiple_quotient : (m d k : ℕ) → k ≡ m * 2 ^ d → k / 2 ^ d ≡ m
multiple_quotient m d k is = ap (λ t. t / 2 ^ d) is ∙ mul-div_cancel m (pow_pos d)

finite_below : (k : ℕ) → k < 2 ^ 1024 → finite k ≡ int (pos k)
unfolding finite
finite_below k h = rw (lt→ltb k (2 ^ 1024) h)

rounded_at :
    (k : ℕ) (x : Option ℕ) (e : ℕ)
    → x ≡ some e
    → round_at k e ≡ k
    → k < 2 ^ 1024
    → rounded k x ≡ int (pos k)
unfolding rounded
rounded_at k x e found fixed small = rw (found, fixed) (finite_below k small)

rounded_representable :
    (fuel k m d : ℕ)
    → k ≡ m * 2 ^ d
    → m < 2 ^ 53
    → d < fuel
    → k < 2 ^ 1024
    → rounded k (exponent fuel k 0) ≡ int (pos k)
rounded_representable fuel k m d is small reach finite_k =
    let (e, found, least) =
      exponent_least fuel k 0 d (omega arith) (omega arith)
        (omega (arith, multiple_quotient m d k is)) in
    rounded_at k (exponent fuel k 0) e found
      (ap (λ t. round_at t e) is ∙ round_at_multiple m d e least ∙ sym is) finite_k

rounded-Representable :
    (n k : ℕ) (x : Option ℕ)
    → exponent 972 n 0 ≡ x
    → rounded n x ≡ int (pos k)
    → (Representable k) × (k < 2 ^ 1024)
unfolding rounded
rounded-Representable n k none h is = absurd (ground arith)
rounded-Representable n k (some e) h is =
    let (reach, fits) = exponent_fits 972 n 0 {x = e} h in
    let (k_is, small) = finite_int (round_at n e) {k = k} is in
    let (m, m_is, bound) = quotient_bound n e fits in
    (normalise m e k (sym k_is ∙ m_is) bound reach small, small)

-- Rounding what was rounded to changes nothing.
pub double_idempotent : (n k : ℕ) → double n ≡ int (pos k) → double k ≡ int (pos k)
unfolding Representable
double_idempotent n k h =
    let ((m, d, is, small, reach), finite_k) =
      rounded-Representable n k (exponent 972 n 0) refl (unfold double in h) in
    unfold double in rounded_representable 972 k m d is small reach finite_k
