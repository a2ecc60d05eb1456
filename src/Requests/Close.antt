-- ===== src/Requests/Close.antt =====
-- `rejectRequest`, `cancelRequest`, `processExpiredRequests`, and the mark of expired requests in
-- `getPendingRequests`.
use farm_backend.Prelude.{
  ℕ, suc, Bool, true, false, not, ⊤, Option, none, some, [], ◌∷◌, ◌&&◌, leb, if◌then◌else◌, take,
}
use farm_backend.Prelude.Table.{Table, find}
use farm_backend.Store.{
  MoneyRequest, rejected, called_off, Result, ok, err, Db, Action, bad_request, forbidden, pure,
  gets, or_raise, raise_if, update_in, update_where, ◌>>=◌, ◌>>◌,
}
use farm_backend.Escrow.{is_id}
use farm_backend.Requests.Service.{Service, transfer_service, payment_service, is_requested}
use farm_backend.Requests.Accept.{lapse}

abbrev pub reject : ℕ → MoneyRequest → MoneyRequest
reject now r = record r { status = rejected; rejected_at = some now }

abbrev pub call_off : MoneyRequest → MoneyRequest
call_off r = record r { status = called_off }

-- `expires_at: { lte: now }`, which no null passes
unfoldable pub is_due : ℕ → MoneyRequest → Bool
is_due now r = is_requested r.status && elim r.expires_at [ none ↦ false | some t ↦ leb t now ]

-- `findMany({ where })`
unfoldable pub rows_where : {V : Type 0} → (V → Bool) → Table V → Table V
rows_where p [] = []
rows_where p ((k, v) ∷ t) = let rest = rows_where p t in if p v then (k, v) ∷ rest else rest

-- Whether the `try` block came to `processed++`.
abbrev pub is_ok : {A : Type 0} → Result A → Bool
is_ok (ok _) = true
is_ok (err _) = false

module _ (s : Service) where
  -- The read and the write are two statements, not a transaction.
  unfoldable pub close_request :
      (MoneyRequest → Option ℕ) → (MoneyRequest → MoneyRequest) → ℕ → ℕ → Action ℕ
  close_request party f user_id id = do
    found ← gets (λ db. find id (s.rows.get db))
    r ← or_raise s.no_request found
    raise_if (not (is_id user_id (party r))) (forbidden "You are not authorized for this request")
    raise_if (not (is_requested r.status)) (bad_request "Request status is not pending")
    updated ← update_in s.rows id f
    pure updated.request_reference

  unfoldable pub reject_request : ℕ → ℕ → ℕ → Action ℕ
  unfolding close_request
  reject_request now = close_request (λ r. r.payer_user_id) (reject now)

  unfoldable pub cancel_request : ℕ → ℕ → Action ℕ
  unfolding close_request
  cancel_request = close_request (λ r. r.requester_user_id) call_off

  -- The loop over the rows that were read.
  unfoldable pub expire_each : Table MoneyRequest → Db → ℕ × Db
  expire_each [] db = (0, db)
  expire_each ((k, _) ∷ t) db =
      let tried = update_in s.rows k lapse db in
      let rest = expire_each t tried.1 in if is_ok tried.0 then (suc rest.0, rest.1) else rest

-- `TransferRequestsService.processExpiredRequests`
unfoldable pub expire_transfers : ℕ → Db → ℕ × Db
unfolding expire_each rows_where
expire_transfers now db =
    expire_each transfer_service (rows_where (is_due now) db.transfer_requests) db

-- `PaymentRequestsService.processExpiredRequests`: at most 500 rows in one run
unfoldable pub expire_payments : ℕ → Db → ℕ × Db
unfolding expire_each rows_where
expire_payments now db =
    expire_each payment_service (take 500 (rows_where (is_due now) db.payment_requests)) db

-- The first statement of `getPendingRequests`.
unfoldable pub mark_expired : Service → ℕ → ℕ → Action ⊤
unfolding is_due
mark_expired s now user_id =
    update_where s.rows (λ r. is_id user_id r.payer_user_id && is_due now r) lapse

-- The handlers of `TransferRequestsService`.
unfoldable pub reject_transfer : ℕ → ℕ → ℕ → Action ℕ
reject_transfer = reject_request transfer_service

unfoldable pub cancel_transfer : ℕ → ℕ → Action ℕ
cancel_transfer = cancel_request transfer_service

unfoldable pub mark_transfers : ℕ → ℕ → Action ⊤
mark_transfers = mark_expired transfer_service

-- The handlers of `PaymentRequestsService`.
unfoldable pub reject_payment : ℕ → ℕ → ℕ → Action ℕ
reject_payment = reject_request payment_service

unfoldable pub cancel_payment : ℕ → ℕ → Action ℕ
cancel_payment = cancel_request payment_service

unfoldable pub mark_payments : ℕ → ℕ → Action ⊤
mark_payments = mark_expired payment_service
