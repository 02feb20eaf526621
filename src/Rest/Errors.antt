-- ===== src/Rest/Errors.antt =====
-- wallet/src/controllers/rest/common/validation.pipe.ts: the search for the first error. A
-- `ValidationError` is class-validator's: `constraints` maps the name of each decorator that fails
-- to its message, in the order of the object's keys, and `children` holds the errors of nested
-- objects; either may be undefined.
use tanta.Base.{
  String, ◌≡◌, refl, Bool, true, false, Option, none, some, List, [], ◌∷◌, ◌++◌, head?,
}

mutual
  pub data ValidationError : Type 0 where
    error : (constraints : Option (List (String × String))) (children : Children) → ValidationError

  -- `ValidationError[] | undefined`
  pub data Children : Type 0 where
    childless : Children
    parent_of : Errors → Children

  pub data Errors : Type 0 where
    nil : Errors
    cons : ValidationError → Errors → Errors

-- `errors.length > 0`
abbrev pub has_error : Errors → Bool
has_error nil = false
has_error (cons _ _) = true

-- `constraints ?? {}`
abbrev given_or_empty : Option (List (String × String)) → List (String × String)
given_or_empty none = []
given_or_empty (some constraints) = constraints

-- The value under the first of the object's keys.
abbrev first_constraint : List (String × String) → Option String
first_constraint [] = none
first_constraint ((key, message) ∷ _) = some message

abbrev pub or_else {ℓ} : {A : Type ℓ} → Option A → Option A → Option A
or_else none b = b
or_else (some a) _ = some a

-- The body of the loop, and the loop.
unfoldable mutual
  pub error_of : ValidationError → Option String
  error_of (error constraints childless) = first_constraint (given_or_empty constraints)
  error_of (error constraints (parent_of children)) =
      or_else (first_constraint (given_or_empty constraints)) (get_first_error children)

  pub get_first_error : Errors → Option String
  get_first_error nil = none
  get_first_error (cons e es) = or_else (error_of e) (get_first_error es)

-- All messages, those of an error before those of its children, in order.
abbrev texts : List (String × String) → List String
texts [] = []
texts ((key, message) ∷ constraints) = message ∷ texts constraints

unfoldable mutual
  messages_of : ValidationError → List String
  messages_of (error constraints childless) = texts (given_or_empty constraints)
  messages_of (error constraints (parent_of children)) =
      texts (given_or_empty constraints) ++ messages children

  pub messages : Errors → List String
  messages nil = []
  messages (cons e es) = messages_of e ++ messages es

head?-++ {ℓ} : {A : Type ℓ} (xs ys : List A) → head? (xs ++ ys) ≡ or_else (head? xs) (head? ys)
head?-++ [] ys = refl
head?-++ (x ∷ xs) ys = refl

head?-texts :
    (constraints : List (String × String))
    → head? (texts constraints) ≡ first_constraint constraints
head?-texts [] = refl
head?-texts ((key, message) ∷ constraints) = refl

mutual
  unfolding error_of messages_of

  error_of-messages : (e : ValidationError) → error_of e ≡ head? (messages_of e)
  error_of-messages (error constraints childless) =
      rw (head?-texts (given_or_empty constraints)) refl
  error_of-messages (error constraints (parent_of children)) =
      rw
        (
          head?-++ (texts (given_or_empty constraints)) (messages children),
          head?-texts (given_or_empty constraints),
          get_first_error-head children,
        )
        refl

  get_first_error-head : (es : Errors) → get_first_error es ≡ head? (messages es)
  get_first_error-head nil = refl
  get_first_error-head (cons e es) =
      rw (head?-++ (messages_of e) (messages es), error_of-messages e, get_first_error-head es) refl

-- The first error is the first of all messages of the tree of errors, each error's own before its
-- children's, in order, or none if there is no message.
pub get_first_error-messages : (es : Errors) → get_first_error es ≡ head? (messages es)
get_first_error-messages es = get_first_error-head es
