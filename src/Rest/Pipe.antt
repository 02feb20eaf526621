-- ===== src/Rest/Pipe.antt =====
-- wallet/src/controllers/rest/common/validation.pipe.ts: `ValidationPipe.transform`, without its
-- lines of logging.
use tanta.Base.{
  String, ◌≡◌, sym, inl, inr, Bool-cases, Option, none, some, List, [], ◌∷◌, if◌then◌else◌, All,
  arith,
}
use tanta.Rest.Dto.{Dto, fields_of, Field, Value, Validation, Meets, Comes, property}
use tanta.Rest.Errors.{Errors, has_error, get_first_error}

-- The type of a parameter: one of JavaScript's own, or a class of wallet.dto.ts.
pub data Metatype : Type 0 where
  string_type boolean_type number_type array_type object_type : Metatype
  dto : Dto → Metatype

-- `toValidate`: the class, if the type is none of JavaScript's own.
abbrev pub to_validate : Metatype → Option Dto
to_validate (dto c) = some c
to_validate _ = none

-- The value that is returned, or the message of the `ValidationException` that is thrown.
pub data Transformed : Type 0 where
  passes : Value → Transformed
  rejects : (err_msg : Option String) → Transformed

passes_injective : {v w : Value} → passes v ≡ passes w → v ≡ w
passes_injective e = cc

module _ (lib : Validation) where
  abbrev validated : Value → Errors → Transformed
  validated value errors =
      if has_error errors then rejects (get_first_error errors) else passes value

  unfoldable pub transform : Value → Option Metatype → Transformed
  transform value none = passes value
  transform value (some metatype) = elim (to_validate metatype) [
    | none ↦ passes value
    | some c ↦ validated value (lib.validate c (lib.plain_to_instance c value))
  ]

  -- What the decorators of a field promise of the value that the client sent.
  abbrev pub Sent : Value → Field → Type 0
  Sent v f =
      (made : Value) × Comes lib.to_number f.typed (property v f.name) made
      × All (λ d. Meets d made) f.decorators

  All-Sent :
      (gs : List Field) (v w : Value)
      → All (λ f. Comes lib.to_number f.typed (property v f.name) (property w f.name)) gs
      → All (λ f. All (λ d. Meets d (property w f.name)) f.decorators) gs
      → All (Sent v) gs
  All-Sent [] v w cs ms = tt
  All-Sent (f ∷ gs) v w (c, cs) (m, ms) = ((property w f.name, c, m), All-Sent gs v w cs ms)

  -- A value that passes for a class is passed on as it came, and each field of the class was made
  -- from it to its decorators' liking.
  pub transform_passes :
      (c : Dto) (v : Value) {w : Value}
      → transform v (some (dto c)) ≡ passes w
      → (w ≡ v) × All (Sent v) (fields_of c)
  unfolding transform
  transform_passes c v {w} e =
      elim (Bool-cases (has_error (lib.validate c (lib.plain_to_instance c v)))) [
        | inl wrong ↦ absurd (ground (arith, wrong, e))
        | inr right ↦ (
          passes_injective (sym (rw right at e)),
          All-Sent (fields_of c) v (lib.plain_to_instance c v) (lib.instance_of c v)
              (lib.validate_meets c (lib.plain_to_instance c v) right),
        )
      ]
