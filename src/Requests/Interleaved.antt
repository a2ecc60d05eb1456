-- ===== src/Requests/Interleaved.antt =====
-- The loop of `processExpiredRequests` where other handlers run between its statements.
use farm_backend.Prelude.{
  if◌then◌else◌, ℕ, ◌≤◌, ◌≡◌, ◌≢◌, ◌⊎◌, refl, ap, sym, ◌∙◌, subst, Bool, true, false, some, [], ◌∷◌,
  ◌==◌, arith, inl, inr, Bool-cases, take, length, some_inj,
}
use farm_backend.Prelude.Table.{Table, find, modify, map_if, find-modify}
use farm_backend.Store.{
  Db, MoneyRequest, RequestStatus, requested, paid_out, rejected, called_off, lapsed, map_where,
  update_in,
}
use farm_backend.Store.Side.{
  On, find-insert_found, find-modify_other, find-map_where, map_if_passes,
}
use farm_backend.Requests.Service.{Service, is_requested}
use farm_backend.Requests.Accept.{lapse}
use farm_backend.Requests.Close.{is_ok, is_due, rows_where, expire_each}
use farm_backend.Requests.Untouched.{IsStable}
use farm_backend.Requests.Settled.{Reach, Reach-On, settled-stays}
use farm_backend.Requests.Sweep.{take-all, updated, lapse_each, expire_each-lapse_each}

-- The rest of a sweep that still has the listed rows to go through. Before each of its updates, and
-- after the last, handlers of the same service may run.
pub data Sweep (s : Service) : Table MoneyRequest → Db → Db → Type 0 where
  all_done : {db : Db} → Sweep s [] db db
  next_row :
      {k : ℕ} {r : MoneyRequest} {l : Table MoneyRequest} {db db' : Db}
      → Sweep s l (update_in s.rows k lapse db).1 db'
      → Sweep s ((k, r) ∷ l) db db'
  meanwhile :
      {l : Table MoneyRequest} {db d db' : Db} → Reach s db d → Sweep s l d db' → Sweep s l db db'

-- A sweep that nothing interrupts is one of them.
pub expire_each-Sweep :
    (s : Service) (l : Table MoneyRequest) (db : Db) → Sweep s l db (expire_each s l db).1
unfolding expire_each
expire_each-Sweep s [] db = all_done
expire_each-Sweep s ((k, r) ∷ l) db =
    let rest = expire_each-Sweep s l (update_in s.rows k lapse db).1 in
    elim (Bool-cases (is_ok (update_in s.rows k lapse db).0)) [
      | inl done ↦ rw done (next_row rest)
      | inr failed ↦ rw failed (next_row rest)
    ]

-- There is a row of that id.
abbrev pub HasSome : ℕ → Table MoneyRequest → Type 0
HasSome i t = (r : MoneyRequest) × (find i t ≡ some r)

-- The id is among those of the rows.
unfoldable Lists : ℕ → Table MoneyRequest → Type 0
Lists i [] = ⊥
Lists i ((k, _) ∷ l) = ((k == i) ≡ true) ⊎ Lists i l

-- The row of that id is there and pending no more.
abbrev pub HasLeft : ℕ → Table MoneyRequest → Type 0
HasLeft i t = (r : MoneyRequest) × (find i t ≡ some r) × (r.status ≢ requested)

HasSome-modify :
    (i k : ℕ) (f : MoneyRequest → MoneyRequest) (t : Table MoneyRequest)
    → HasSome i t
    → HasSome i (modify k f t)
HasSome-modify i k f t (r, at) =
    ((if k == i then f r else r), find-modify i k f t ∙ ap (map_if (k == i) f) at)

HasSome-map_where :
    (i : ℕ) (p : MoneyRequest → Bool) (f : MoneyRequest → MoneyRequest) (t : Table MoneyRequest)
    → HasSome i t
    → HasSome i (map_where p f t)
HasSome-map_where i p f t (r, at) =
    ((if p r then f r else r), find-map_where i p f t ∙ ap (map_if_passes p f) at)

module _ (s : Service) (i : ℕ) where
  HasSome-update_in :
      (k : ℕ) (db : Db)
      → On s.rows (HasSome i) db
      → On s.rows (HasSome i) (update_in s.rows k lapse db).1
  HasSome-update_in k db h =
      subst (HasSome i) (sym (updated s k db)) (HasSome-modify i k lapse (s.rows.get db) h)

  HasSome-expire_each :
      (l : Table MoneyRequest) (db : Db)
      → On s.rows (HasSome i) db
      → On s.rows (HasSome i) (expire_each s l db).1
  unfolding lapse_each
  HasSome-expire_each l db h =
      subst (HasSome i) (sym (expire_each-lapse_each s l db)) (go l (s.rows.get db) h)
    where
      go : (l t : Table MoneyRequest) → HasSome i t → HasSome i (lapse_each l t)
      go [] t h = h
      go ((k, _) ∷ l) t h = go l (modify k lapse t) (HasSome-modify i k lapse t h)

  HasSome-IsStable : IsStable s (HasSome i)
  HasSome-IsStable = record {
    answers = λ k x t found waits at f u h. HasSome-modify i k f u h;
    adds = λ k v t h. (h.0, find-insert_found i k v t h.1);
    marks = λ now p t h. HasSome-map_where i _ lapse t h;
    sweeps = λ now limit db keys h. HasSome-expire_each _ db h;
  }

  HasLeft-Reach :
      (start db : Db) → On s.rows (HasLeft i) start → Reach s start db → On s.rows (HasLeft i) db
  unfolding is_requested
  HasLeft-Reach start db (r, at, left) reach =
      (r, settled-stays s i r start db at (closed r.status left) reach, left)
    where
      closed : (st : RequestStatus) → st ≢ requested → is_requested st ≡ false
      closed requested left = absurd (left refl)
      closed paid_out _ = refl
      closed rejected _ = refl
      closed called_off _ = refl
      closed lapsed _ = refl

  HasLeft-update_in :
      (k : ℕ) (db : Db)
      → On s.rows (HasSome i) db
      → ((k == i) ≡ true) ⊎ On s.rows (HasLeft i) db
      → On s.rows (HasLeft i) (update_in s.rows k lapse db).1
  HasLeft-update_in k db some_row why = subst (HasLeft i) (sym (updated s k db)) (go some_row why)
    where
      lapsed_not : lapsed ≢ requested
      lapsed_not e = absurd (cc)

      go :
          HasSome i (s.rows.get db)
          → ((k == i) ≡ true) ⊎ HasLeft i (s.rows.get db)
          → HasLeft i (modify k lapse (s.rows.get db))
      go (r, at) (inl same) =
          (lapse r, rw (find-modify i k lapse (s.rows.get db), same, at) refl, lapsed_not)
      go _ (inr (r, at, left)) = elim (Bool-cases (k == i)) [
        | inl same ↦
            (lapse r, rw (find-modify i k lapse (s.rows.get db), same, at) refl, lapsed_not)
        | inr other ↦ (r, find-modify_other i k lapse (s.rows.get db) other at, left)
      ]

  HasLeft-Sweep :
      {l : Table MoneyRequest} {db db' : Db}
      → On s.rows (HasLeft i) db
      → Sweep s l db db'
      → On s.rows (HasLeft i) db'
  HasLeft-Sweep h all_done = h
  HasLeft-Sweep {db = db} h (next_row {k = k} rest) =
      HasLeft-Sweep (HasLeft-update_in k db (h.0, h.1) (inr h)) rest
  HasLeft-Sweep {db = db} h (meanwhile {d = d} reach rest) =
      HasLeft-Sweep (HasLeft-Reach db d h reach) rest

  Lists-HasLeft :
      {l : Table MoneyRequest} {db db' : Db}
      → Lists i l
      → On s.rows (HasSome i) db
      → Sweep s l db db'
      → On s.rows (HasLeft i) db'
  unfolding Lists
  Lists-HasLeft listed h all_done = absurd listed
  Lists-HasLeft {db = db} (inl same) h (next_row {k = k} rest) =
      HasLeft-Sweep (HasLeft-update_in k db h (inl same)) rest
  Lists-HasLeft {db = db} (inr later) h (next_row {k = k} rest) =
      Lists-HasLeft later (HasSome-update_in k db h) rest
  Lists-HasLeft {db = db} listed h (meanwhile {d = d} reach rest) =
      Lists-HasLeft listed (Reach-On s (HasSome i) HasSome-IsStable db d h reach) rest

Lists-rows_where :
    (i : ℕ) (p : MoneyRequest → Bool) (t : Table MoneyRequest) {r : MoneyRequest}
    → find i t ≡ some r
    → p r ≡ true
    → Lists i (rows_where p t)
unfolding Lists rows_where find
Lists-rows_where i p [] found passes = absurd (cc)
Lists-rows_where i p ((k, v) ∷ t) {r} found passes = elim (Bool-cases (k == i)) [
  | inl same ↦
      let e : v ≡ r = some_inj (rw same at found) in
      let e' : p v ≡ true = ap p e ∙ passes in rw e' (inl same)
  | inr other ↦
      let later = Lists-rows_where i p t (rw other at found) passes in
      elim (Bool-cases (p v)) [
        | inl taken ↦ rw taken (inr later)
        | inr passed_over ↦ rw passed_over later
      ]
]

due :
    (now t : ℕ) (r : MoneyRequest)
    → r.status ≡ requested
    → r.expires_at ≡ some t
    → t ≤ now
    → is_due now r ≡ true
unfolding is_due is_requested
due now t r waits ends passed = rw (waits, ends) (ground arith)

-- Take a request that is pending and whose expiry time has passed when a sweep reads the requests
-- that are due, of which there are at most as many as it reads. Whatever handlers of the service
-- run between the statements of the sweep, and in whatever order, when it has ended the request is
-- still in the table, and is no longer pending. A handler's own read and write are one step, and
-- where an uninterrupted sweep is among them the table has no two rows of one id.
pub swept-HasLeft :
    (s : Service) (now limit i t : ℕ) (r : MoneyRequest) (start db : Db)
    → find i (s.rows.get start) ≡ some r
    → r.status ≡ requested
    → r.expires_at ≡ some t
    → t ≤ now
    → length (rows_where (is_due now) (s.rows.get start)) ≤ limit
    → Sweep s (take limit (rows_where (is_due now) (s.rows.get start))) start db
    → (r' : MoneyRequest) × (find i (s.rows.get db) ≡ some r') × (r'.status ≢ requested)
swept-HasLeft s now limit i t r start db at waits ends passed few sweep =
    Lists-HasLeft s i
      (Lists-rows_where i (is_due now) (s.rows.get start) at (due now t r waits ends passed))
      (r, at) (subst (λ l. Sweep s l start db) (take-all limit _ few) sweep)
