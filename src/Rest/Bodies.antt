-- ===== src/Rest/Bodies.antt =====
-- validation.pipe.ts, wallet.dto.ts and wallet.controller.ts together: the values behind the pipe.
use tanta.Base.{
  ℕ, String, ◌≡◌, ◌≤◌, refl, sym, ap, ◌∙◌, [], ◌∷◌, true, false, Bool, Bool-cases, str_eq, eq_iff,
  inl, inr, some, arith,
}
use tanta.Js.Int.{ℤ, pos, negsuc, ◌≤ℤ◌}
use tanta.Js.Number.{int}
use tanta.Money.{new_money, ngn}
use tanta.Notification.{NotificationType, email, mobile, text_of}
use tanta.Rest.Dto.{
  Value, number, string, property, Validation, Meets, Comes, is_int, is_string, min_,
  fund_wallet_body_dto, transfer_body_dto, get_wallet_query_dto, transfer_param_dto, includes,
  fields_of,
}
use tanta.Rest.Pipe.{passes, dto, transform, transform_passes}
use tanta.Shared.Exception.{ok}

natural : (z : ℤ) → pos 0 ≤ℤ z → (n : ℕ) × (z ≡ pos n)
natural (pos n) h = (n, refl)
natural (negsuc n) h = absurd (omega arith)

abbrev pub IsAmount : Value → Type 0
IsAmount v =
    (n : ℕ) × (v ≡ number (int (pos n)))
    × (new_money (int (pos n)) ngn ≡ ok (record { value = n; currency = ngn }))

kind_of :
    (s : String)
    → includes ("EMAIL" ∷ "MOBILE" ∷ []) s ≡ true
    → (kind : NotificationType) × (s ≡ text_of kind)
kind_of s among = elim (Bool-cases (str_eq "EMAIL" s)) [
  | inl same ↦ (email, sym ((eq_iff "EMAIL" s).0 same))
  | inr other ↦ (mobile, sym ((eq_iff "MOBILE" s).0 (ground (arith, among, other))))
]

module _ (lib : Validation) where
  -- A field with `@IsInt` and `@Min(0)` was made from a natural number.
  counted :
      (typed : Bool) (given made : Value)
      → Meets is_int made
      → Meets (min_ 0) made
      → Comes lib.to_number typed given made
      → (n : ℕ) × (made ≡ number (int (pos n))) × (Comes lib.to_number typed given made)
  counted typed given made (z, is) least comes =
      let (n, signed) = natural z (least z is) in (n, is ∙ ap (λ y. number (int y)) signed, comes)

  amount_lem :
      (given made : Value)
      → Meets is_int made
      → Meets (min_ 0) made
      → Comes lib.to_number false given made
      → IsAmount given
  unfolding new_money
  amount_lem given made whole least comes =
      let (n, is, (numbers, _)) = counted false given made whole least comes in
      (n, numbers (int (pos n)) is, refl)

  text_lem :
      (given made : Value)
      → Meets is_string made
      → Comes lib.to_number false given made
      → (s : String) × (given ≡ string s)
  text_lem given made (s, is) (_, texts) = (s, texts s is)

  -- A body that the pipe lets through to the funding of a wallet is passed on as it came; it names
  -- the wallet by a text and holds an amount of which `Money` can be made.
  pub transform_fund :
      (body : Value) {v : Value}
      → transform lib body (some (dto fund_wallet_body_dto)) ≡ passes v
      → (v ≡ body)
        × ((id : String) × (property body "wallet_id" ≡ string id))
        × IsAmount (property body "amount_in_kobo")
  unfolding fields_of
  transform_fund body e =
      let (
        same,
        ((made, comes, (_, (is_text, _))), ((made', comes', (_, (whole, (least, _)))), _)),
      ) =
        transform_passes lib fund_wallet_body_dto body e in
      (
        same,
        text_lem (property body "wallet_id") made is_text comes,
        amount_lem (property body "amount_in_kobo") made' whole least comes',
      )

  -- A body that the pipe lets through to a transfer is passed on as it came; it names the receiver's
  -- wallet by a text, holds an amount of which `Money` can be made, and one of the two kinds of
  -- notification.
  pub transform_transfer :
      (body : Value) {v : Value}
      → transform lib body (some (dto transfer_body_dto)) ≡ passes v
      → (v ≡ body)
        × ((id : String) × (property body "receiver_wallet_id" ≡ string id))
        × IsAmount (property body "amount_in_kobo")
        × ((kind : NotificationType) × (property body "notification_type" ≡ string (text_of kind)))
  unfolding fields_of
  transform_transfer body e =
      let (
        same,
        (
          (made, comes, (_, (is_text, _))),
          (
            (made', comes', (_, (whole, (least, _)))),
            ((made'', comes'', (_, ((s, is, among), _))), _),
          ),
        ),
      ) =
        transform_passes lib transfer_body_dto body e in
      let (kind, spelled) = kind_of s among in
      (
        same,
        text_lem (property body "receiver_wallet_id") made is_text comes,
        amount_lem (property body "amount_in_kobo") made' whole least comes',
        (kind, comes''.1 s is ∙ ap (λ t. string t) spelled),
      )

  -- A path that the pipe lets through to a transfer is passed on as it came, and names the sender's
  -- wallet by a text.
  pub transform_param :
      (param : Value) {v : Value}
      → transform lib param (some (dto transfer_param_dto)) ≡ passes v
      → (v ≡ param) × ((id : String) × (property param "sender_wallet_id" ≡ string id))
  unfolding fields_of
  transform_param param e =
      let (same, ((made, comes, (_, (is_text, _))), _)) =
        transform_passes lib transfer_param_dto param e in
      (same, text_lem (property param "sender_wallet_id") made is_text comes)

  -- A query that the pipe lets through asks for a page of at most 100 wallets from a natural offset
  -- on.
  pub query_lem :
      (query : Value) {v : Value}
      → transform lib query (some (dto get_wallet_query_dto)) ≡ passes v
      → (v ≡ query)
        × (offset limit : ℕ) × (lib.to_number (property query "offset") ≡ int (pos offset))
        × (lib.to_number (property query "limit") ≡ int (pos limit))
        × (limit ≤ 100)
  unfolding fields_of
  query_lem query e =
      let (
        same,
        (
          (made, comes, (_, (whole, (least, (most, _))))),
          ((made', comes', (_, (whole', (least', _)))), _),
        ),
      ) =
        transform_passes lib get_wallet_query_dto query e in
      let (limit, is, number_is) = counted true (property query "limit") made whole least comes in
      let (offset, is', number_is') =
        counted true (property query "offset") made' whole' least' comes' in
      (
        same,
        offset,
        limit,
        number_is' (int (pos offset)) is',
        number_is (int (pos limit)) is,
        omega (arith, most (pos limit) is),
      )
