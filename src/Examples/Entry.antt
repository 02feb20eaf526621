-- ===== src/Examples/Entry.antt =====
-- Guards, pipes and filters on concrete requests: the inputs of the witnesses, and tests.
use tanta.Base.{
  String, ◌≡◌, ◌+◌, refl, sym, ap, ◌∙◌, inl, inr, Bool, true, false, not, Bool-cases, some, List,
  [], ◌∷◌, All, str_eq, arith, leb, leb→le, if◌then◌else◌,
}
use tanta.Js.Int.{ℤ, pos, pos_part, neg_part}
use tanta.Js.Number.{Number, int, non_int}
use tanta.Rest.Dto.{
  Decorator, is_not_empty, is_string, is_int, min_, max_, is_enum, Field, Dto, fields_of, Value,
  undefined, null, boolean, number, string, object, property, Validation, Meets, Comes, includes,
  fund_wallet_body_dto, get_wallet_query_dto, transfer_body_dto, transfer_param_dto,
}
use tanta.Rest.Errors.{error, Errors, nil, cons, childless, has_error}

-- The decorators as tests.
abbrev at_most : ℤ → ℤ → Bool
at_most a b = leb (pos_part a + neg_part b) (pos_part b + neg_part a)

abbrev on_integer : (ℤ → Bool) → Value → Bool
on_integer test (number (int z)) = test z
on_integer test _ = true

abbrev is_given : Value → Bool
is_given undefined = false
is_given null = false
is_given (string s) = not (str_eq s "")
is_given _ = true

abbrev meets : Decorator → Value → Bool
meets is_not_empty v = is_given v
meets is_string (string _) = true
meets is_int (number (int _)) = true
meets (min_ n) v = on_integer (λ z. at_most (pos n) z) v
meets (max_ n) v = on_integer (λ z. at_most z (pos n)) v
meets (is_enum members) (string s) = includes members s
meets _ _ = false

is_given-Meets : (v : Value) → is_given v ≡ true → Meets is_not_empty v
is_given-Meets v h = (
  λ e. absurd (ground (arith, h, ap is_given e)),
  λ e. absurd (ground (arith, h, ap is_given e)),
  λ e. absurd (ground (arith, h, ap is_given e)),
)

meets-Meets : (d : Decorator) (v : Value) → meets d v ≡ true → Meets d v
meets-Meets is_not_empty v h = is_given-Meets v h
meets-Meets is_string (string s) h = (s, refl)
meets-Meets is_string undefined h = absurd (ground arith)
meets-Meets is_string null h = absurd (ground arith)
meets-Meets is_string (boolean _) h = absurd (ground arith)
meets-Meets is_string (number _) h = absurd (ground arith)
meets-Meets is_string (object _) h = absurd (ground arith)
meets-Meets is_int (number (int z)) h = (z, refl)
meets-Meets is_int (number non_int) h = absurd (ground arith)
meets-Meets is_int undefined h = absurd (ground arith)
meets-Meets is_int null h = absurd (ground arith)
meets-Meets is_int (boolean _) h = absurd (ground arith)
meets-Meets is_int (string _) h = absurd (ground arith)
meets-Meets is_int (object _) h = absurd (ground arith)
meets-Meets (min_ n) v h = λ z e. leb→le _ _ (sym (ap (meets (min_ n)) e) ∙ h)
meets-Meets (max_ n) v h = λ z e. leb→le _ _ (sym (ap (meets (max_ n)) e) ∙ h)
meets-Meets (is_enum members) (string s) h = (s, refl, h)
meets-Meets (is_enum members) undefined h = absurd (ground arith)
meets-Meets (is_enum members) null h = absurd (ground arith)
meets-Meets (is_enum members) (boolean _) h = absurd (ground arith)
meets-Meets (is_enum members) (number _) h = absurd (ground arith)
meets-Meets (is_enum members) (object _) h = absurd (ground arith)

abbrev key_of : Decorator → String
key_of is_not_empty = "isNotEmpty"
key_of is_string = "isString"
key_of is_int = "isInt"
key_of (min_ _) = "min"
key_of (max_ _) = "max"
key_of (is_enum _) = "isEnum"

-- Each decorator that fails, with the field's name for a message.
abbrev failing : String → List Decorator → Value → List (String × String)
failing name [] v = []
failing name (d ∷ ds) v =
    let rest = failing name ds v in if meets d v then rest else (key_of d, name) ∷ rest

abbrev found : List (String × String) → Errors → Errors
found [] es = es
found (c ∷ cs) es = cons (error (some (c ∷ cs)) childless) es

abbrev pub errors_of : List Field → Value → Errors
errors_of [] v = nil
errors_of (f ∷ fs) v = found (failing f.name f.decorators (property v f.name)) (errors_of fs v)

found_nothing :
    (cs : List (String × String)) (es : Errors)
    → has_error (found cs es) ≡ false
    → (cs ≡ []) × (has_error es ≡ false)
found_nothing [] es h = (refl, h)
found_nothing (c ∷ cs) es h = absurd (ground arith)

failing-Meets :
    (name : String) (ds : List Decorator) (v : Value)
    → failing name ds v ≡ []
    → All (λ d. Meets d v) ds
failing-Meets name [] v h = tt
failing-Meets name (d ∷ ds) v h = elim (Bool-cases (meets d v)) [
  | inl met ↦ (meets-Meets d v met, failing-Meets name ds v (rw met at h))
  | inr unmet ↦ absurd (ground (arith, unmet, h))
]

pub errors_of-Meets :
    (fs : List Field) (v : Value)
    → has_error (errors_of fs v) ≡ false
    → All (λ f. All (λ d. Meets d (property v f.name)) f.decorators) fs
errors_of-Meets [] v h = tt
errors_of-Meets (f ∷ fs) v h =
    let (met, rest) =
      found_nothing (failing f.name f.decorators (property v f.name)) (errors_of fs v) h in
    (failing-Meets f.name f.decorators (property v f.name) met, errors_of-Meets fs v rest)

-- A few numerals.
abbrev pub read_number : Value → Number
read_number (number n) = n
read_number (string s) =
    if str_eq s "0"
    then int (pos 0)
    else if str_eq s "20"
    then int (pos 20)
    else if str_eq s "500"
    then int (pos 500)
    else non_int
read_number _ = non_int

abbrev pub instance_from : Dto → Value → Value
instance_from get_wallet_query_dto v = object (λ name. number (read_number (property v name)))
instance_from _ v = v

pub number_injective : {a b : Number} → number a ≡ number b → a ≡ b
number_injective e = cc

unfoldable pub checking : Validation
unfolding fields_of
checking = record {
  to_number = read_number;
  plain_to_instance = instance_from;
  validate = λ c v. errors_of (fields_of c) v;
  instance_of = λ c v. made c v;
  validate_meets = λ c v. errors_of-Meets (fields_of c) v;
}
  where
    made :
        (c : Dto) (v : Value)
        → All
            (λ f.
              Comes read_number f.typed (property v f.name) (property (instance_from c v) f.name))
            (fields_of c)
    made fund_wallet_body_dto v = ((λ x e. e, λ s e. e), ((λ x e. e, λ s e. e), tt))
    made get_wallet_query_dto v = (λ x e. number_injective e, (λ x e. number_injective e, tt))
    made transfer_body_dto v =
        ((λ x e. e, λ s e. e), ((λ x e. e, λ s e. e), ((λ x e. e, λ s e. e), tt)))
    made transfer_param_dto v = ((λ x e. e, λ s e. e), tt)
