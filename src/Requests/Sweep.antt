-- ===== src/Requests/Sweep.antt =====
-- `processExpiredRequests`: the loop of single updates against one update of all rows.
use farm_backend.Prelude.{
  ℕ, zero, suc, ◌≤◌, ◌≡◌, refl, ap, sym, ◌∙◌, Bool, false, Option, none, some, [], ◌∷◌, ◌==◌, arith,
  inl, inr, Bool-cases, take, length,
}
use farm_backend.Prelude.Table.{Table, find, modify, HasKeys}
use farm_backend.Store.{Db, MoneyRequest, update_in, write_in, map_where, update_where}
use farm_backend.Requests.Service.{
  Service, transfer_service, transfer_rows, payment_rows, payment_service,
}
use farm_backend.Requests.Accept.{lapse}
use farm_backend.Requests.Close.{
  is_ok, is_due, rows_where, expire_each, expire_transfers, expire_payments,
}
use farm_backend.Requests.Avoids.{Avoids, Avoids-absent}

unfoldable pub lapse_each : Table MoneyRequest → Table MoneyRequest → Table MoneyRequest
lapse_each [] t = t
lapse_each ((k, _) ∷ l) t = lapse_each l (modify k lapse t)

modify-absent : (k : ℕ) (t : Table MoneyRequest) → find k t ≡ none → modify k lapse t ≡ t
unfolding find modify
modify-absent k [] h = refl
modify-absent k ((j, v) ∷ t) h = elim (Bool-cases (j == k)) [
  | inl same ↦ absurd (let e = rw same at h in cc)
  | inr other ↦ rw other (ap (λ t. (j, v) ∷ t) (modify-absent k t (rw other at h)))
]

modify_head :
    (k : ℕ) (v : MoneyRequest) (t : Table MoneyRequest)
    → modify k lapse ((k, v) ∷ t) ≡ (k, lapse v) ∷ t
unfolding modify
modify_head k v t = ground arith

module _ (s : Service) where
  pub updated :
      (k : ℕ) (db : Db)
      → s.rows.get (update_in s.rows k lapse db).1 ≡ modify k lapse (s.rows.get db)
  unfolding update_in write_in
  updated k db = go (find k (s.rows.get db)) refl
    where
      go :
          (o : Option MoneyRequest)
          → find k (s.rows.get db) ≡ o
          → s.rows.get (write_in s.rows k lapse o db).1 ≡ modify k lapse (s.rows.get db)
      go none at = sym (modify-absent k (s.rows.get db) at)
      go (some v) at = s.rows.got (modify k lapse (s.rows.get db)) db

  pub expire_each-lapse_each :
      (l : Table MoneyRequest) (db : Db)
      → s.rows.get (expire_each s l db).1 ≡ lapse_each l (s.rows.get db)
  unfolding expire_each lapse_each
  expire_each-lapse_each [] db = refl
  expire_each-lapse_each ((k, v) ∷ t) db =
      let rest =
        expire_each-lapse_each t (update_in s.rows k lapse db).1
        ∙ ap (lapse_each t) (updated k db) in
      elim (Bool-cases (is_ok (update_in s.rows k lapse db).0)) [
        | inl done ↦ rw done rest
        | inr failed ↦ rw failed rest
      ]

lapse_each-skip :
    (k : ℕ) (v : MoneyRequest) (l t : Table MoneyRequest)
    → Avoids k l
    → lapse_each l ((k, v) ∷ t) ≡ (k, v) ∷ lapse_each l t
unfolding lapse_each Avoids modify
lapse_each-skip k v [] t far = refl
lapse_each-skip k v ((j, _) ∷ l) t far =
    rw (flip k j far.0) (lapse_each-skip k v l (modify j lapse t) far.1)
  where
    flip : (a b : ℕ) → (b == a) ≡ false → (a == b) ≡ false
    flip a b h = ground arith

module _ (p : MoneyRequest → Bool) where
  lapse_each-map_where :
      (t : Table MoneyRequest) → HasKeys t → lapse_each (rows_where p t) t ≡ map_where p lapse t
  unfolding lapse_each rows_where map_where HasKeys modify
  lapse_each-map_where [] keys = refl
  lapse_each-map_where ((k, v) ∷ t) (unseen, keys) =
      let far = Avoids-absent k p t unseen in
      let rest = lapse_each-map_where t keys in
      elim (Bool-cases (p v)) [
        | inl passes ↦ rw passes (
            ap (lapse_each (rows_where p t)) (modify_head k v t)
            ∙ lapse_each-skip k (lapse v) (rows_where p t) t far
            ∙ ap (λ t. (k, lapse v) ∷ t) rest)
        | inr fails ↦
            rw fails (lapse_each-skip k v (rows_where p t) t far ∙ ap (λ t. (k, v) ∷ t) rest)
      ]

pub take-all : (n : ℕ) (t : Table MoneyRequest) → length t ≤ n → take n t ≡ t
take-all zero [] h = refl
take-all zero (e ∷ t) h = absurd (omega (arith, h))
take-all (suc n) [] h = refl
take-all (suc n) (e ∷ t) h = ap (λ t. e ∷ t) (take-all n t (omega (arith, h)))

-- Where no two transfer requests have the same id, the loop of `processExpiredRequests` leaves
-- their table as one `updateMany` over all pending requests that are due would.
pub expire_transfers-update_where :
    (now : ℕ) (db : Db)
    → HasKeys db.transfer_requests
    → (expire_transfers now db).1.transfer_requests
      ≡ (update_where transfer_rows (is_due now) lapse db).1.transfer_requests
unfolding expire_transfers update_where
expire_transfers-update_where now db keys =
    expire_each-lapse_each transfer_service (rows_where (is_due now) db.transfer_requests) db
    ∙ lapse_each-map_where (is_due now) db.transfer_requests keys

-- Where no two payment requests have the same id and at most 500 are due, the loop of
-- `processExpiredRequests` leaves their table as one `updateMany` over all pending requests that
-- are due would.
pub expire_payments-update_where :
    (now : ℕ) (db : Db)
    → HasKeys db.payment_requests
    → length (rows_where (is_due now) db.payment_requests) ≤ 500
    → (expire_payments now db).1.payment_requests
      ≡ (update_where payment_rows (is_due now) lapse db).1.payment_requests
unfolding expire_payments update_where
expire_payments-update_where now db keys few =
    rw (take-all 500 (rows_where (is_due now) db.payment_requests) few) (
      expire_each-lapse_each payment_service (rows_where (is_due now) db.payment_requests) db
      ∙ lapse_each-map_where (is_due now) db.payment_requests keys)
