-- ===== src/Shared/Exception.antt =====
-- wallet/src/lib/exception.ts and the enums of exception codes. An `Exception` holds a code string;
-- here it holds the enum's member, and `code` gives the string. A function that may throw returns
-- a `Result`.
use tanta.Base.{String, ◌≡◌, refl, ◌⊎◌, inl, inr, Bool, true, false}

pub data LibCode : Type 0 where
  invalid_pagination : LibCode

-- `INCOMPATIABLE_CURRENCY` and `WALLET__INCOMPATIABLE_CURRENCY` are one string, so one member.
pub data WalletCode : Type 0 where
  invalid_money incompatiable_currency persistence not_found invalid_transactions : WalletCode

pub data TransactionCode : Type 0 where
  insufficient_fund persistence not_found invalid_transaction_money : TransactionCode

pub data TransferringCode : Type 0 where
  persistence not_allowed : TransferringCode

pub data Exception : Type 0 where
  lib : LibCode → Exception
  wallet : WalletCode → Exception
  transaction : TransactionCode → Exception
  transferring : TransferringCode → Exception

abbrev pub lib_code : LibCode → String
lib_code invalid_pagination = "LIB__INVALID_PAGINATION"

abbrev pub wallet_code : WalletCode → String
wallet_code invalid_money = "WALLET__INVALID_MONEY"
wallet_code incompatiable_currency = "WALLET__INCOMPATIABLE_CURRENCY"
wallet_code persistence = "WALLET__PERSISTENCE"
wallet_code not_found = "WALLET__NOT_FOUND"
wallet_code invalid_transactions = "WALLET__INVALID_TRANSACTIONS"

abbrev pub transaction_code : TransactionCode → String
transaction_code insufficient_fund = "TRANSACTION__INSUFFICIENT_FUND"
transaction_code persistence = "TRANSACTION__PERSISTENCE"
transaction_code not_found = "TRANSACTION__NOT_FOUND"
transaction_code invalid_transaction_money = "TRANSACTION__INVALID_TRANSACTION_MONEY"

abbrev pub transferring_code : TransferringCode → String
transferring_code persistence = "TRANSFERRING__PERSISTENCE"
transferring_code not_allowed = "TRANSFERRING__NOT_ALLOWED"

-- The string that the exception carries.
abbrev pub code : Exception → String
code (lib c) = lib_code c
code (wallet c) = wallet_code c
code (transaction c) = transaction_code c
code (transferring c) = transferring_code c

pub data Result {ℓ} (Value : Type ℓ) : Type ℓ where
  throw : Exception → Result Value
  ok : Value → Result Value

-- `if (bad) throw e`
abbrev pub throw_if : (bad : Bool) → Exception → Result (Unit {0})
throw_if false e = ok tt
throw_if true e = throw e

module _ {ℓ κ} {A : Type ℓ} {B : Type κ} where
  abbrev pub map_ok : (A → B) → Result A → Result B
  map_ok f (throw e) = throw e
  map_ok f (ok a) = ok (f a)

  pub map_ok-eq-ok :
      (f : A → B) (r : Result A) {b : B} → map_ok f r ≡ ok b → (a : A) × (r ≡ ok a) × (f a ≡ b)
  map_ok-eq-ok f (throw e) h = cc
  map_ok-eq-ok f (ok a) h = (a, refl, cc)

  -- What comes after a call that may throw.
  infixl 5 ◌>>=◌
  abbrev pub ◌>>=◌ : (call : Result A) (rest : A → Result B) → Result B
  throw e >>= rest = throw e
  ok a >>= rest = rest a

  -- If the whole returns, the call did, and so did what comes after it.
  pub >>=-eq-ok :
      (call : Result A) (rest : A → Result B) {b : B}
      → (call >>= rest) ≡ ok b
      → (a : A) × (call ≡ ok a) × (rest a ≡ ok b)
  >>=-eq-ok (throw e) rest returned = cc
  >>=-eq-ok (ok a) rest returned = (a, refl, returned)

infixl 5 ◌>>◌
abbrev pub ◌>>◌ {ℓ} : {B : Type ℓ} (call : Result (Unit {0})) (rest : Result B) → Result B
call >> rest = call >>= λ _. rest

-- If what comes after a check returns, it returns without the check.
pub >>-eq-ok {ℓ} :
    {B : Type ℓ} (bad : Bool) (e : Exception) (rest : Result B) {b : B}
    → (throw_if bad e >> rest) ≡ ok b
    → rest ≡ ok b
>>-eq-ok false e rest returned = returned
>>-eq-ok true e rest returned = cc

pub ok_injective {ℓ} : {A : Type ℓ} {a b : A} → ok a ≡ ok b → a ≡ b
ok_injective h = cc

pub Result-cases {ℓ} :
    {A : Type ℓ} (r : Result A) → ((e : Exception) × (r ≡ throw e)) ⊎ ((a : A) × (r ≡ ok a))
Result-cases (throw e) = inl (e, refl)
Result-cases (ok a) = inr (a, refl)
