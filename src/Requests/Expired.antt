-- ===== src/Requests/Expired.antt =====
-- What `processExpiredRequests` makes of each row where no other code runs during the sweep.
use farm_backend.Prelude.{
  subst, Bool, true, ℕ, ◌≤◌, ◌<◌, ◌≡◌, ◌≢◌, refl, ap, sym, ◌∙◌, true, false, Option, none, some,
  arith, if◌then◌else◌, inl, inr, Bool-cases, length, leb,
}
use farm_backend.Prelude.Table.{Table, find, HasKeys}
use farm_backend.Store.{
  Db, MoneyRequest, RequestStatus, requested, paid_out, rejected, called_off, lapsed, map_where,
  update_where,
}
use farm_backend.Store.Side.{find-map_where, map_if_passes}
use farm_backend.Requests.Service.{is_requested}
use farm_backend.Requests.Accept.{lapse}
use farm_backend.Requests.Close.{is_due, rows_where, expire_transfers, expire_payments}
use farm_backend.Requests.Sweep.{expire_transfers-update_where, expire_payments-update_where}

-- A pending request whose expiry time has passed is marked as expired; one that is not pending, has
-- no expiry time, or ends later stays as it is.
pub data Expires (now : ℕ) (r : MoneyRequest) : MoneyRequest → Type 0 where
  overdue :
      {t : ℕ}
      → r.status ≡ requested
      → r.expires_at ≡ some t
      → t ≤ now
      → Expires now r (record r { status = lapsed })
  settled_before : r.status ≢ requested → Expires now r r
  endless : r.expires_at ≡ none → Expires now r r
  in_time : {t : ℕ} → r.expires_at ≡ some t → now < t → Expires now r r

later_than : (t now : ℕ) → leb t now ≡ false → now < t
later_than t now h = ground arith

no_later : (t now : ℕ) → leb t now ≡ true → t ≤ now
no_later t now h = ground arith

-- By whether the row is due.
lapse_by :
    (now : ℕ) (r : MoneyRequest) (b : Bool)
    → is_due now r ≡ b
    → Expires now r (if b then lapse r else r)
    → Expires now r (if is_due now r then lapse r else r)
lapse_by now r b e h = subst (λ b. Expires now r (if b then lapse r else r)) (sym e) h

lapse_if_due : (now : ℕ) (r : MoneyRequest) → Expires now r (if is_due now r then lapse r else r)
unfolding is_due is_requested
lapse_if_due now r = by_status r.status refl
  where
    by_time :
        (o : Option ℕ)
        → r.expires_at ≡ o
        → r.status ≡ requested
        → Expires now r (if is_due now r then lapse r else r)
    by_time none ends waits = lapse_by now r false (rw (waits, ends) refl) (endless ends)
    by_time (some t) ends waits = elim (Bool-cases (leb t now)) [
      | inl passed ↦
          lapse_by now r true (rw (waits, ends, passed) refl)
            (overdue waits ends (no_later t now passed))
      | inr not_yet ↦
          lapse_by now r false (rw (waits, ends, not_yet) refl)
            (in_time ends (later_than t now not_yet))
    ]

    settled :
        (st : RequestStatus)
        → r.status ≡ st
        → is_requested st ≡ false
        → st ≢ requested
        → Expires now r (if is_due now r then lapse r else r)
    settled st e not_it left =
        lapse_by now r false (rw (e, not_it) refl) (settled_before (λ w. left (sym e ∙ w)))

    by_status :
        (st : RequestStatus) → r.status ≡ st → Expires now r (if is_due now r then lapse r else r)
    by_status requested e = by_time r.expires_at refl e
    by_status paid_out e = settled _ e refl (λ w. cc)
    by_status rejected e = settled _ e refl (λ w. cc)
    by_status called_off e = settled _ e refl (λ w. cc)
    by_status lapsed e = settled _ e refl (λ w. cc)

map_where-Expires :
    (now i : ℕ) (t : Table MoneyRequest) {r : MoneyRequest}
    → find i t ≡ some r
    → (r' : MoneyRequest) × (find i (map_where (is_due now) lapse t) ≡ some r') × Expires now r r'
map_where-Expires now i t {r} found = (
  (if is_due now r then lapse r else r),
  find-map_where i (is_due now) lapse t ∙ ap (map_if_passes (is_due now) lapse) found,
  lapse_if_due now r,
)

-- Where no two transfer requests have the same id and no other code runs during the sweep,
-- `processExpiredRequests` marks each pending transfer request whose expiry time has passed as
-- expired and changes nothing else of its row; the row of a request that is not pending, has no
-- expiry time, or ends later stays as it is.
pub expire_transfers-Expires :
    (now i : ℕ) (db : Db) (r : MoneyRequest)
    → HasKeys db.transfer_requests
    → find i db.transfer_requests ≡ some r
    → (r' : MoneyRequest) × (find i (expire_transfers now db).1.transfer_requests ≡ some r')
      × Expires now r r'
unfolding update_where
expire_transfers-Expires now i db r keys found =
    rw (expire_transfers-update_where now db keys)
      (map_where-Expires now i db.transfer_requests found)

-- Where no two payment requests have the same id, at most 500 are due, and no other code runs
-- during the sweep, `processExpiredRequests` marks each pending payment request whose expiry time
-- has passed as expired and changes nothing else of its row; the row of a request that is not
-- pending, has no expiry time, or ends later stays as it is.
pub expire_payments-Expires :
    (now i : ℕ) (db : Db) (r : MoneyRequest)
    → HasKeys db.payment_requests
    → length (rows_where (is_due now) db.payment_requests) ≤ 500
    → find i db.payment_requests ≡ some r
    → (r' : MoneyRequest) × (find i (expire_payments now db).1.payment_requests ≡ some r')
      × Expires now r r'
unfolding update_where
expire_payments-Expires now i db r keys few found =
    rw (expire_payments-update_where now db keys few)
      (map_where-Expires now i db.payment_requests found)
