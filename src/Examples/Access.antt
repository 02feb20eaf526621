-- ===== src/Examples/Access.antt =====
-- Guards, pipes and filters run on concrete requests: tests, and a concrete input for each theorem.
use tanta.Base.{
  String, ◌≡◌, ◌↔◌, refl, true, false, Option, none, some, List, [], ◌∷◌, str_eq, head?,
  if◌then◌else◌, arith,
}
use tanta.Examples.Entry.{checking}
use tanta.Js.Int.{negsuc}
use tanta.Js.Number.{Number, int}
use tanta.Messaging.{Event, delivers, times_out}
use tanta.Messaging.Settling.{Answer}
use tanta.Rest.Access.{can_activate_granted_iff, can_activate_scheme, spaced, events_for}
use tanta.Rest.Dto.{
  fields_of, Value, string, number, object, undefined, get_wallet_query_dto, transfer_body_dto,
}
use tanta.Rest.Errors.{
  error, Errors, nil, cons, childless, parent_of, get_first_error, messages,
  get_first_error-messages,
}
use tanta.Rest.Guard.{denied, granted, first_word, can_activate}
use tanta.Rest.Pipe.{rejects, transform, dto}
use tanta.Shared.DateTime.{Date}
use tanta.User.{Line, Response}

-- The error of a nested object comes before the error of the next field.
abbrev nested : Errors
nested =
    cons (error none (parent_of (cons (error (some (("min", "too small") ∷ [])) childless) nil)))
      (cons (error (some (("isInt", "no integer") ∷ [])) childless) nil)

first_of_nested : get_first_error nested ≡ some "too small"
unfolding get_first_error
first_of_nested = refl

get_first_error-messages_example : get_first_error nested ≡ head? (messages nested)
get_first_error-messages_example = get_first_error-messages nested

abbrev pub body : Number → Value
body amount = object λ key.
    if str_eq key "receiver_wallet_id"
    then string "id-b"
    else if str_eq key "amount_in_kobo"
    then number amount
    else if str_eq key "notification_type"
    then string "EMAIL"
    else undefined

-- A negative amount is turned away.
negative_rejected :
    transform checking (body (int (negsuc 4))) (some (dto transfer_body_dto))
    ≡ rejects (some "amount_in_kobo")
unfolding transform checking get_first_error fields_of
negative_rejected = refl

abbrev pub page : String → Value
page limit = object λ key.
    if str_eq key "limit"
    then string limit
    else if str_eq key "offset"
    then string "0"
    else undefined

too_long_rejected :
    transform checking (page "500") (some (dto get_wallet_query_dto)) ≡ rejects (some "limit")
unfolding transform checking get_first_error fields_of
too_long_rejected = refl

abbrev pub iso : Date → String
iso time = "2023-07-02"

-- A foreign message, the answer, and the timer.
abbrev answering : Option String → List Event
answering sent =
    delivers none
    ∷ delivers (some (record { correlation_id = none; content = "{}" }))
    ∷ delivers (some (record { correlation_id = sent; content = "yes" }))
    ∷ times_out
    ∷ []

abbrev ann : Response
ann = record { user_id = some "ann"; is_authorized = true }

abbrev parse : String → Response
parse content =
    if str_eq content "yes" then ann else record { user_id = none; is_authorized = false }

abbrev pub line : Option String → Line
line sent = record {
  queue = "amq.gen-1";
  correlation_id = "c-1";
  stringify = λ token. "{}";
  parse = parse;
  broker = λ commands. answering sent;
}

can_activate_granted_iff_example :
    (can_activate (line (some "c-1")) (some "abc") ≡ granted (some "ann")) ↔ (
      (h : String) × (some "abc" ≡ some h)
      × Answer "c-1" parse (events_for (line (some "c-1")) h) ann)
can_activate_granted_iff_example =
    can_activate_granted_iff (line (some "c-1")) (some "abc") (some "ann")

-- The answer of the other service gives back the correlation id of the request, which had none.
unanswered : can_activate (line none) (some "abc") ≡ denied
unfolding can_activate
unanswered = refl

scheme_only : first_word "Bearer abc" ≡ "Bearer"
unfolding first_word
scheme_only = refl

can_activate_scheme_example :
    can_activate (line (some "c-1")) (some (spaced "JWT" "abc"))
    ≡ can_activate (line (some "c-1")) (some "JWT")
can_activate_scheme_example =
    can_activate_scheme (line (some "c-1")) "JWT" "abc"
      (λ e. omega (arith, e), (λ e. omega (arith, e), (λ e. omega (arith, e), tt)))
