-- ===== src/Rest/Dto.antt =====
-- wallet/src/controllers/rest/wallet.dto.ts. A class is the list of its fields with their
-- decorators; what the decorators do is class-validator's and class-transformer's part, whose
-- documented behaviour `Validation` states.
use tanta.Base.{ℕ, String, ◌≡◌, ◌≢◌, Bool, true, false, List, [], ◌∷◌, All, str_eq, if◌then◌else◌}
use tanta.Js.Int.{ℤ, pos, ◌≤ℤ◌}
use tanta.Js.Number.{Number, int}
use tanta.Rest.Errors.{Errors, has_error}

pub data Decorator : Type 0 where
  is_not_empty is_string is_int : Decorator
  min_ max_ : ℕ → Decorator
  is_enum : List String → Decorator

-- `typed` tells whether `@Type(() => Number)` stands on the field.
pub record Field : Type 0 where
  pub name : String
  pub typed : Bool
  pub decorators : List Decorator

abbrev amount_in_kobo : Field
amount_in_kobo = record {
  name = "amount_in_kobo";
  typed = false;
  decorators = is_not_empty ∷ is_int ∷ min_ 0 ∷ [];
}

abbrev text : String → Field
text name = record { name = name; typed = false; decorators = is_not_empty ∷ is_string ∷ [] }

-- The classes, and their fields.
pub data Dto : Type 0 where
  fund_wallet_body_dto get_wallet_query_dto transfer_body_dto transfer_param_dto : Dto

unfoldable pub fields_of : Dto → List Field
fields_of fund_wallet_body_dto = text "wallet_id" ∷ amount_in_kobo ∷ []
fields_of get_wallet_query_dto =
    record {
      name = "limit";
      typed = true;
      decorators = is_not_empty ∷ is_int ∷ min_ 0 ∷ max_ 100 ∷ [];
    }
    ∷ record { name = "offset"; typed = true; decorators = is_not_empty ∷ is_int ∷ min_ 0 ∷ [] }
    ∷ []
fields_of transfer_body_dto =
    text "receiver_wallet_id"
    ∷ amount_in_kobo
    ∷ record {
      name = "notification_type";
      typed = false;
      decorators = is_not_empty ∷ is_enum ("EMAIL" ∷ "MOBILE" ∷ []) ∷ [];
    }
    ∷ []
fields_of transfer_param_dto = text "sender_wallet_id" ∷ []

-- A value that a client sends. `object` is an array or an object, by its properties.
pub data Value : Type 0 where
  undefined null : Value
  boolean : Bool → Value
  number : Number → Value
  string : String → Value
  object : (String → Value) → Value

abbrev pub property : Value → String → Value
property (object properties) name = properties name
property _ name = undefined

abbrev pub includes : List String → String → Bool
includes [] s = false
includes (t ∷ ts) s = let rest = includes ts s in if str_eq t s then true else rest

-- What a decorator checks, as far as it is used here.
abbrev pub Meets : Decorator → Value → Type 0
Meets is_not_empty v = (v ≢ undefined) × (v ≢ null) × (v ≢ string "")
Meets is_string v = (s : String) × (v ≡ string s)
Meets is_int v = (z : ℤ) × (v ≡ number (int z))
Meets (min_ n) v = (z : ℤ) → v ≡ number (int z) → pos n ≤ℤ z
Meets (max_ n) v = (z : ℤ) → v ≡ number (int z) → z ≤ℤ pos n
Meets (is_enum members) v = (s : String) × (v ≡ string s) × (includes members s ≡ true)

-- What a field of an instance tells of the plain value it was made from: a field with
-- `@Type(() => Number)` holds the number that the value converts to, any other field its value.
abbrev pub Comes : (Value → Number) → Bool → Value → Value → Type 0
Comes to_number true given made = (x : Number) → made ≡ number x → to_number given ≡ x
Comes to_number false given made =
    ((x : Number) → made ≡ number x → given ≡ number x)
    × ((s : String) → made ≡ string s → given ≡ string s)

-- `to_number` is JavaScript's `Number(v)`, which is `+v` too.
pub record Validation : Type 0 where
  pub to_number : Value → Number
  pub plain_to_instance : Dto → Value → Value
  pub validate : Dto → Value → Errors
  pub instance_of :
      (c : Dto) (v : Value)
      → All
          (λ f.
            Comes to_number f.typed (property v f.name) (property (plain_to_instance c v) f.name))
          (fields_of c)
  pub validate_meets :
      (c : Dto) (v : Value)
      → has_error (validate c v) ≡ false
      → All (λ f. All (λ d. Meets d (property v f.name)) f.decorators) (fields_of c)
