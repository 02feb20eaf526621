-- ===== src/Rest/Server/Funding.antt =====
-- wallet.controller.ts: `fundWallet`, the route without a guard, as a request meets it.
use tanta.Base.{ℕ, String, ◌≡◌, ◌⊎◌, refl, sym, ap, ◌∙◌, inl, inr, Option, none, some}
use tanta.Js.Int.{pos}
use tanta.Js.Number.{int}
use tanta.Rest.Dto.{Validation, property, string, number}
use tanta.Rest.Filter.{catch}
use tanta.Rest.Guard.{granted}
use tanta.Rest.Nest.{Nest, Rejects, entry, failed, bad_request}
use tanta.Rest.Pipe.{rejects}
use tanta.Rest.Routes.{fund_wallet, Request, transaction_data, route_of, taken, handler}
use tanta.Rest.Server.{pipes-cases}
use tanta.Rest.Server.Handled.{fund_wallet_called}
use tanta.Rest.Server.Users.{IsReplied, respond-answer}
use tanta.Shared.DateTime.{Date}
use tanta.WalletController
use tanta.World.{Database, World}

rejects_injective : {a b : Option String} → rejects a ≡ rejects b → a ≡ b
rejects_injective e = cc

-- The route has one parameter, so one message at most.
fund_wallet-Rejects :
    (lib : Validation) (r : Request) {a b : Option String}
    → Rejects lib (taken r none) (route_of fund_wallet).parameters a
    → Rejects lib (taken r none) (route_of fund_wallet).parameters b
    → a ≡ b
unfolding route_of
fund_wallet-Rejects lib r (inl p) (inl q) = rejects_injective (sym p ∙ q)
fund_wallet-Rejects lib r (inl p) (inr q) = elim q [ ]
fund_wallet-Rejects lib r (inr p) _ = elim p [ ]

unguarded : (r : Request) → entry fund_wallet r ≡ granted none
unfolding entry route_of
unguarded r = refl

module _ (lib : Validation) {iso : Date → String} {db : Database} (nest : Nest lib iso db) where
  refused :
      (r : Request) (s : World db) (m : Option String)
      → Rejects lib (taken r none) (route_of fund_wallet).parameters m
      → nest.respond fund_wallet r s ≡ (some (failed (catch (bad_request m))), s)
  refused r s m bad =
      let (m', bad', replies) = nest.refuses fund_wallet r s m (unguarded r) bad in
      replies
      ∙ ap (λ m. (some (failed (catch (bad_request m))), s)) (fund_wallet-Rejects lib r bad' bad)

  -- A request to fund is answered for the body alone.
  abbrev pub IsFunding : Request → World db → Type 0
  IsFunding r s =
      ((m : Option String) × Rejects lib (taken r none) (route_of fund_wallet).parameters m
        × (nest.respond fund_wallet r s ≡ (some (failed (catch (bad_request m))), s)))
      ⊎ ((id : String) × (n : ℕ) × (property r.body "wallet_id" ≡ string id)
          × (property r.body "amount_in_kobo" ≡ number (int (pos n)))
          × IsReplied lib nest transaction_data
              (WalletController.fund_wallet iso db id (int (pos n))) fund_wallet r s)

  -- A request to fund a wallet, whoever sends it, is refused with the pipe's message, or the
  -- wallet that its body names is credited with the amount that the body holds.
  pub respond-fund_wallet : (r : Request) (s : World db) → IsFunding r s
  respond-fund_wallet r s =
      elim (pipes-cases lib (taken r none) (route_of fund_wallet).parameters) [
        | inl (m, bad) ↦ inl (m, bad, refused r s m bad)
        | inr passed ↦
            let (id, n, has_id, has_amount, called) = fund_wallet_called lib iso db r none passed in
            let m = WalletController.fund_wallet iso db id (int (pos n)) in
            inr (
              id,
              n,
              has_id,
              has_amount,
              respond-answer lib nest transaction_data m fund_wallet r s (m s).0 called
                  (nest.runs fund_wallet r s (unguarded r) passed called) called refl,
            )
      ]

  -- Who sends a request to fund a wallet makes no difference: with one body, any two requests, with
  -- whatever header or none and whatever the other service would say of it, get the same reply and
  -- leave the same world.
  pub respond-fund_wallet-body :
      (r r' : Request) (s : World db)
      → r.body ≡ r'.body
      → nest.respond fund_wallet r s ≡ nest.respond fund_wallet r' s
  unfolding handler route_of
  respond-fund_wallet-body r r' s same =
      elim (pipes-cases lib (taken r none) (route_of fund_wallet).parameters) [
        | inl (m, inr no_parameter) ↦ elim no_parameter [ ]
        | inl (m, inl bad) ↦ refused r s m (inl bad) ∙ sym (refused r' s m (inl (rw same at bad)))
        | inr (passed, _) ↦
            let (_, _, _, _, called) = fund_wallet_called lib iso db r none (passed, tt) in
            nest.runs fund_wallet r s (unguarded r) (passed, tt) called
            ∙ sym (
                nest.runs fund_wallet r' s (unguarded r') (rw same at passed, tt)
                  (rw same at called))
      ]
