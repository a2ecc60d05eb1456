-- ===== src/Requests/Settled.antt =====
-- A request that is paid, rejected, called off or expired stays as it is.
use farm_backend.Prelude.{
  ℕ, ◌≡◌, refl, sym, subst, Bool, true, false, some, take, [], ◌∷◌, inl, inr, Bool-cases, ◌&&◌,
}
use farm_backend.Prelude.Table.{Table, find, HasKeys}
use farm_backend.Store.{Db, MoneyRequest, transaction, update_in}
use farm_backend.Store.Rules.{Post-transaction}
use farm_backend.Store.Side.{
  Row, HasRow, On, Row-update_in, find-modify_other, find-insert_found, find-map_where_not, last,
}
use farm_backend.Escrow.Env.{Env}
use farm_backend.Requests.Service.{Service, is_requested}
use farm_backend.Requests.Ask.{AskDto, ask}
use farm_backend.Requests.Accept.{accept_tx, lapse}
use farm_backend.Requests.Close.{
  is_ok, reject, call_off, is_due, rows_where, reject_request, cancel_request, expire_each,
  mark_expired,
}
use farm_backend.Requests.Avoids.{Avoids, Avoids-take, Avoids-rows_where, differ}
use farm_backend.Requests.Untouched.{
  IsStable, accept_tx-On, close_request-On, mark_expired-On, ask-On,
}

-- What the handlers of a service, and any code that leaves its table alone, make of the database
-- one after the other. The table has a primary key when the sweep reads it.
pub data Reach (s : Service) (start : Db) : Db → Type 0 where
  here : Reach s start start
  asked :
      {db : Db} (env : Env) (new_id who : ℕ) (dto : AskDto)
      → Reach s start db
      → Reach s start (ask s env new_id who dto db).1
  accepted :
      {db : Db} (env : Env) (user_id id : ℕ)
      → Reach s start db
      → Reach s start (transaction (accept_tx s env user_id id) db).1
  turned_down :
      {db : Db} (now user_id id : ℕ)
      → Reach s start db
      → Reach s start (reject_request s now user_id id db).1
  cancelled :
      {db : Db} (user_id id : ℕ)
      → Reach s start db
      → Reach s start (cancel_request s user_id id db).1
  swept :
      {db : Db} (now limit : ℕ)
      → HasKeys (s.rows.get db)
      → Reach s start db
      → Reach s start (expire_each s (take limit (rows_where (is_due now) (s.rows.get db))) db).1
  marked :
      {db : Db} (now user_id : ℕ)
      → Reach s start db
      → Reach s start (mark_expired s now user_id db).1
  elsewhere : {db db' : Db} → s.rows.get db' ≡ s.rows.get db → Reach s start db → Reach s start db'

-- A stable property outlives whatever handlers of the service run, in whatever order.
pub Reach-On :
    (s : Service) (P : Table MoneyRequest → Type 0) (stable : IsStable s P) (start db : Db)
    → On s.rows P start
    → Reach s start db
    → On s.rows P db
unfolding reject_request cancel_request
Reach-On s P stable start db at here = at
Reach-On s P stable start db at (asked {db = d} env new_id who dto reach) =
    last _ (ask-On s P stable env new_id who dto d (Reach-On s P stable start d at reach))
Reach-On s P stable start db at (accepted {db = d} env user_id id reach) =
    let h = Reach-On s P stable start d at reach in
    last _ (
      Post-transaction (accept_tx s env user_id id) d h
        (accept_tx-On s P stable env user_id id d h))
Reach-On s P stable start db at (turned_down {db = d} now user_id id reach) = last _ (
    close_request-On s P stable (λ r. r.payer_user_id) (reject now) user_id id d
      (Reach-On s P stable start d at reach))
Reach-On s P stable start db at (cancelled {db = d} user_id id reach) = last _ (
    close_request-On s P stable (λ r. r.requester_user_id) call_off user_id id d
      (Reach-On s P stable start d at reach))
Reach-On s P stable start db at (swept {db = d} now limit keys reach) =
    stable.sweeps now limit d keys (Reach-On s P stable start d at reach)
Reach-On s P stable start db at (marked {db = d} now user_id reach) =
    last _ (mark_expired-On s P stable now user_id d (Reach-On s P stable start d at reach))
Reach-On s P stable start db at (elsewhere {db = d} same reach) =
    subst P (sym same) (Reach-On s P stable start d at reach)

module _ (s : Service) (i : ℕ) (r : MoneyRequest) where
  expire_each-Row :
      (l : Table MoneyRequest) (db : Db)
      → Avoids i l
      → Row s.rows i r db
      → Row s.rows i r (expire_each s l db).1
  unfolding expire_each Avoids
  expire_each-Row [] db far h = h
  expire_each-Row ((k, v) ∷ t) db far h =
      let rest =
        expire_each-Row t (update_in s.rows k lapse db).1 far.1
          (last _ (Row-update_in s.rows i r k lapse db far.0 h)) in
      elim (Bool-cases (is_ok (update_in s.rows k lapse db).0)) [
        | inl done ↦ rw done rest
        | inr failed ↦ rw failed rest
      ]

  HasRow-IsStable : is_requested r.status ≡ false → IsStable s (HasRow s.rows i r)
  unfolding is_due
  HasRow-IsStable settled = record {
    answers = λ k x t found waits at f u h.
        find-modify_other i k f u (differ t k i at settled found waits) h;
    adds = λ k v t h. find-insert_found i k v t h;
    marks = λ now p t h. find-map_where_not _ lapse i t h (both (p r) now);
    sweeps = λ now limit db keys h.
        expire_each-Row _ db
          (Avoids-take i limit _
            (Avoids-rows_where i (is_due now) r (s.rows.get db) keys h (not_due now)))
          h;
  }
    where
      not_due : (now : ℕ) → is_due now r ≡ false
      not_due now = rw settled refl

      both : (b : Bool) (now : ℕ) → (b && is_due now r) ≡ false
      both true now = not_due now
      both false now = refl

-- A request that no longer waits for an answer keeps its row, field for field, whatever handlers
-- of its service run after that and in whatever order, if the table has no two rows of one id when
-- a sweep reads it.
pub settled-stays :
    (s : Service) (i : ℕ) (r : MoneyRequest) (start db : Db)
    → find i (s.rows.get start) ≡ some r
    → is_requested r.status ≡ false
    → Reach s start db
    → find i (s.rows.get db) ≡ some r
settled-stays s i r start db at settled reach =
    Reach-On s (HasRow s.rows i r) (HasRow-IsStable s i r settled) start db at reach
