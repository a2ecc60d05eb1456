-- ===== src/AgentPayments/Pay.antt =====
-- `payIntent`.
use farm_backend.Prelude.{
  ℕ, ⊤, Bool, false, not, Option, none, some, ◌&&◌, ◌==◌, ltb, if◌then◌else◌,
}
use farm_backend.Prelude.Int.{pos}
use farm_backend.Prelude.Text.{Text}
use farm_backend.Prelude.Table.{find}
use farm_backend.Store.{
  Intent, requires_payment, in_payment, succeeded, Action, bad_request, forbidden, not_found, gone,
  raise, pure, gets, or_raise, raise_if, rescue, claim_in, update_in, create_in, ◌>>=◌, ◌>>◌,
}
use farm_backend.Escrow.Env.{Env, given}
use farm_backend.Escrow.{is_id, active_wallet}
use farm_backend.Wallets.{send_funds}
use farm_backend.AgentPayments.Tables.{
  Limits, ensure, is_at, intent_rows, business_payment_rows, business_named,
}
use farm_backend.AgentPayments.Intents.{expire_intent}

-- What a payment takes from outside: the midnight before the call, whether the recipient pays the
-- merchant fee, the limits, the id of the new row, and whether an agent asked for it.
pub record Channel : Type 0 where
  pub today : ℕ
  pub merchant_pays : Bool
  pub limits : Limits
  pub new_payment : ℕ
  pub by_agent : Bool

abbrev pub take_up : ℕ → Intent → Intent
take_up payer_id i = record i { status = in_payment; payer_user_id = some payer_id }

abbrev pub hand_back : Intent → Intent
hand_back i = record i { status = requires_payment; payer_user_id = none }

abbrev pub settle_intent : ℕ → ℕ → Intent → Intent
settle_intent ref now i = record i {
  status = succeeded;
  transaction_reference = some ref;
  paid_at = some now;
}

module _ (env : Env) (ch : Channel) (payer_id id : ℕ) where
  unfoldable pub send_to_owner : Text → ℕ → Intent → Action ⊤
  send_to_owner pin owner_id i = do
    found ← gets (active_wallet owner_id)
    wallet ← or_raise (not_found "Business wallet not found") found
    send_funds env ch.today payer_id ch.merchant_pays (record {
      recipient_identifier = wallet.1.wallet_address;
      amount = pos i.amount;
      proof = record { pin = some pin; biometric_auth = false; device_fingerprint = none };
    })
    pure tt

  unfoldable pub pay_claimed : Text → ℕ → Intent → Action Intent
  unfolding send_to_owner
  pay_claimed pin owner_id i = do
    rescue (send_to_owner pin owner_id i)
        (λ e. claim_in intent_rows id (λ r. is_at r.status in_payment) hand_back >> raise e)
    done ← update_in intent_rows id (settle_intent env.reference env.now)
    create_in business_payment_rows ch.new_payment (record {
      business_id = i.business_id;
      source_id = id;
      payer_user_id = payer_id;
      amount = i.amount;
      transaction_reference = env.reference;
      by_agent = ch.by_agent;
    })
    pure done

  unfoldable pub pay_open : Text → Intent → Action Intent
  unfolding pay_claimed
  pay_open pin i = do
    raise_if (not (is_at i.status requires_payment)) (gone "This payment is no longer payable")
    b ← business_named i.business_id
    raise_if (b.owner_user_id == payer_id) (forbidden "You cannot pay your own business")
    claimed ←
        claim_in intent_rows id (λ r. is_at r.status requires_payment && ltb env.now r.expires_at)
          (take_up payer_id)
    raise_if (not claimed) (gone "This payment is no longer payable")
    pay_claimed pin b.owner_user_id i

  unfoldable pub pay_intent : Option Text → Action Intent
  unfolding pay_open
  pay_intent pin = do
    ensure ch.limits
    text ← or_raise (bad_request "Transaction PIN is required") (given pin)
    expire_intent env.now id
    found ← gets (λ db. find id db.payment_intents)
    i ← or_raise (not_found "Payment not found") found
    raise_if (not i.live_mode) (not_found "Payment not found")
    if is_at i.status succeeded && is_id payer_id i.payer_user_id then pure i else pay_open text i
