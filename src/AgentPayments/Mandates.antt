-- ===== src/AgentPayments/Mandates.antt =====
-- `createMandate`, `revokeMandate`, `usage` and `checkCaps`.
use farm_backend.Prelude.{
  ℕ, ◌+◌, ◌*◌, ⊤, Bool, true, false, not, Option, none, some, [], ◌∷◌, ◌&&◌, ◌||◌, ◌==◌, ltb, leb,
  take, if◌then◌else◌,
}
use farm_backend.Prelude.Int.{ℤ, pos_part}
use farm_backend.Prelude.Text.{Text, trim}
use farm_backend.Prelude.Table.{Table, find}
use farm_backend.Auth.{verify_pin}
use farm_backend.Store.{
  Db, Mandate, MandateStatus, in_force, revoked, AgentRequest, AgentStatus, awaiting, in_progress,
  confirmed, Action, bad_request, forbidden, not_found, pure, gets, or_raise, raise_if, claim_in,
  create_in, update_where, ◌>>=◌, ◌>>◌,
}
use farm_backend.Escrow.Env.{Env, given}
use farm_backend.AgentPayments.Tables.{Limits, ensure, r2, mandate_rows, agent_rows, business_named}
use farm_backend.AgentPayments.Intents.{is_awaiting, withdraw}

pub record MandateDto : Type 0 where
  pub business_id : ℕ
  pub per_tx_cap : ℤ
  pub daily_cap : ℤ
  pub monthly_cap : ℤ
  pub expires_in_days : ℕ
  pub label : Option Text
  pub pin : Text

abbrev pub label_of : Option Text → Option Text
label_of none = none
label_of (some t) = given (some (take 100 (trim t)))

abbrev pub new_mandate : Env → ℕ → MandateDto → ℕ → ℕ → ℕ → Mandate
new_mandate env user_id dto per day month = record {
  user_id = user_id;
  business_id = dto.business_id;
  label = label_of dto.label;
  per_tx_cap = per;
  daily_cap = day;
  monthly_cap = month;
  status = in_force;
  expires_at = env.now + dto.expires_in_days * 86_400_000;
  revoked_at = none;
}

unfoldable pub create_mandate : Env → Limits → ℕ → MandateDto → ℕ → Action (ℕ × Mandate)
create_mandate env l user_id dto new_id = do
  ensure l
  verify_pin env.bcrypt user_id dto.pin
  b ← business_named dto.business_id
  raise_if (not b.is_approved) (bad_request "This business is not verified")
  raise_if (b.owner_user_id == user_id) (bad_request "You cannot authorize your own business")
  let per = r2 (pos_part dto.per_tx_cap)
  let day = r2 (pos_part dto.daily_cap)
  let month = r2 (pos_part dto.monthly_cap)
  raise_if (per == 0 || ltb l.max_per_tx per) (bad_request "Per-payment limit out of range")
  raise_if (ltb day per) (bad_request "Daily limit must be at least the per-payment limit")
  raise_if (ltb month day) (bad_request "Monthly limit must be at least the daily limit")
  raise_if (ltb l.max_monthly month) (bad_request "Monthly limit out of range")
  raise_if (ltb dto.expires_in_days 1 || ltb 365 dto.expires_in_days)
      (bad_request "Expiry must be 1–365 days")
  let row = new_mandate env user_id dto per day month
  create_in mandate_rows new_id row
  pure (new_id, row)

unfoldable pub is_in_force : MandateStatus → Bool
is_in_force in_force = true
is_in_force revoked = false

abbrev pub revoke : ℕ → Mandate → Mandate
revoke now m = record m { status = revoked; revoked_at = some now }

unfoldable pub revoke_mandate : ℕ → ℕ → ℕ → Action Mandate
unfolding is_in_force is_awaiting
revoke_mandate now user_id id = do
  claimed ←
      claim_in mandate_rows id (λ m. m.user_id == user_id && is_in_force m.status) (revoke now)
  raise_if (not claimed) (not_found "Active authorization not found")
  update_where agent_rows (λ r. r.authorization_id == id && is_awaiting r.status) (withdraw now)
  found ← gets (λ db. find id db.agent_authorizations)
  or_raise (not_found "Active authorization not found") found

-- `ACTIVE_REQ`
unfoldable pub is_active_request : AgentStatus → Bool
is_active_request awaiting = true
is_active_request in_progress = true
is_active_request confirmed = true
is_active_request _ = false

abbrev pub is_id_of : ℕ → Option ℕ → Bool
is_id_of k none = false
is_id_of k (some j) = j == k

-- Requests under an authorization from `since` on that count, less one that is left out.
unfoldable pub is_used : ℕ → Option ℕ → ℕ → ℕ → AgentRequest → Bool
unfolding is_active_request
is_used authorization_id exclude since k r =
    r.authorization_id == authorization_id
    && is_active_request r.status
    && not (is_id_of k exclude)
    && leb since r.created_at

-- `aggregate({ where, _sum: { amount } })`
unfoldable pub sum_amount : (ℕ → AgentRequest → Bool) → Table AgentRequest → ℕ
sum_amount p [] = 0
sum_amount p ((k, r) ∷ t) = let rest = sum_amount p t in if p k r then r.amount + rest else rest

unfoldable pub usage : ℕ → Option ℕ → ℕ → Db → ℕ
unfolding is_used sum_amount
usage authorization_id exclude since db =
    sum_amount (is_used authorization_id exclude since) db.agent_requests

-- The starts of the day and of the month.
pub record Calendar : Type 0 where
  pub day : ℕ
  pub month : ℕ

unfoldable pub check_caps : ℕ → Calendar → ℕ → Mandate → ℕ → Option ℕ → Action ⊤
unfolding usage is_in_force
check_caps now cal id m amount exclude = do
  raise_if (not (is_in_force m.status) || leb m.expires_at now)
      (forbidden "The authorization is not active")
  raise_if (ltb m.per_tx_cap amount) (forbidden "Amount exceeds the per-payment limit")
  day ← gets (usage id exclude cal.day)
  month ← gets (usage id exclude cal.month)
  raise_if (ltb m.daily_cap (day + amount))
      (forbidden "Amount exceeds the daily limit for this authorization")
  raise_if (ltb m.monthly_cap (month + amount))
      (forbidden "Amount exceeds the monthly limit for this authorization")
