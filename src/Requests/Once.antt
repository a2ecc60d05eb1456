-- ===== src/Requests/Once.antt =====
-- A request is paid at most once.
use farm_backend.Prelude.{ℕ, ◌≡◌, refl, ap, sym, ◌∙◌, false, some, some_inj}
use farm_backend.Prelude.Int.{pos, negate, ◌+ℤ◌}
use farm_backend.Prelude.Table.{find}
use farm_backend.Store.{
  Db, Wallet, MoneyRequest, ok, adjust_wallet, create_transaction, create_entry, update_transaction,
  update_in, transaction,
}
use farm_backend.Store.Rules.{
  Refuses, Refuses-of_Post, returned, Post, Any, Post-bind, Post-then, Post-gets, Post-or_raise,
  Post-pure, Post-check, Post-transaction, Post-nothing,
}
use farm_backend.Store.Side.{update_in-found}
use farm_backend.Escrow.Env.{Env}
use farm_backend.Requests.Service.{Service, is_requested}
use farm_backend.Requests.Accept.{
  Accepted, wallet_at, settle_request, pay_request, check_expiry, accept_open, accept_tx,
}
use farm_backend.Requests.Settled.{Reach, settled-stays}

-- The row is there and waits for no answer.
pub record Closed (s : Service) (id : ℕ) (db : Db) : Type 0 where
  pub row : MoneyRequest
  pub at : find id (s.rows.get db) ≡ some row
  pub settled : is_requested row.status ≡ false

module _ (s : Service) (id : ℕ) where
  pay_request-Closed :
      (env : Env) (x : MoneyRequest) (payer requester : ℕ × Wallet) (fee : ℕ) (db : Db)
      → Post Any (λ _. Closed s id) (pay_request s env id x payer requester fee db)
  unfolding pay_request is_requested
  pay_request-Closed env x payer requester fee db =
      let out = pos x.amount +ℤ pos fee in
      Post-bind (create_transaction env.new_transaction _) _ db (Post-nothing _) λ txn d₁ _.
        Post-bind (adjust_wallet payer.0 (negate out) (pos 0)) _ d₁ (Post-nothing _) λ from d₂ _.
          Post-bind (adjust_wallet requester.0 (pos x.amount) (pos 0)) _ d₂ (Post-nothing _)
            λ to d₃ _. Post-then (create_entry _) _ d₃ (Post-nothing _) λ _ d₄ _.
              Post-then (create_entry _) _ d₄ (Post-nothing _) λ _ d₅ _.
                Post-then (update_transaction txn _) _ d₅ (Post-nothing _) λ _ d₆ _.
                  Post-then (update_in s.rows id _) _ d₆
                    (update_in-found s.rows id (settle_request txn env.now) d₆)
                    λ v d₇ (y, e, found).
                      Post-pure _ d₇
                        (record { row = v; at = found; settled = paid v y txn env.now e })
    where
      paid :
          (v y : MoneyRequest) (txn now : ℕ)
          → v ≡ settle_request txn now y
          → is_requested v.status ≡ false
      paid v y txn now e = ap (λ (x : MoneyRequest). is_requested x.status) e

  accept_tx-Closed :
      (env : Env) (user_id : ℕ) (db : Db)
      → Post Any (λ _. Closed s id) (accept_tx s env user_id id db)
  unfolding accept_tx accept_open
  accept_tx-Closed env user_id db = Post-gets _ _ db (
      Post-or_raise _ (find id (s.rows.get db)) _ db tt λ x _. Post-check _ _ _ db tt λ _.
        Post-check _ _ _ db tt λ _.
          Post-then (check_expiry s env id x) _ db (Post-nothing _) λ _ d _. Post-gets _ _ d (
            Post-gets _ _ d (
              Post-or_raise _ (wallet_at x.payer_wallet_id d) _ d tt λ payer _.
                Post-check _ _ _ d tt λ _. Post-check _ _ _ d tt λ _.
                  Post-or_raise _ (wallet_at x.requester_wallet_id d) _ d tt
                    λ requester _. pay_request-Closed env x payer requester _ d)))

  -- An accepted request that is closed is refused, and nothing is written.
  no_second_time :
      (env : Env) (user_id : ℕ) (db : Db)
      → Closed s id db
      → Post (λ d. d ≡ db) (λ _ _. ⊥) (transaction (accept_tx s env user_id id) db)
  unfolding accept_tx
  no_second_time env user_id db c = Post-transaction (accept_tx s env user_id id) db refl (
      Post-gets _ _ db (
        Post-or_raise _ (find id (s.rows.get db)) _ db tt λ x found. Post-check _ _ _ db tt λ _.
          Post-check _ _ _ db tt λ waits. absurd (
            let e : x ≡ c.row = some_inj (sym found ∙ c.at) in
            let e' : is_requested x.status ≡ false =
              ap (λ (x : MoneyRequest). is_requested x.status) e ∙ c.settled in
            let w = rw e' at waits in cc)))

-- Take a request whose `acceptAndTransfer` transaction has returned, and any state that handlers
-- of the same service, and code that leaves its table alone, then make, the table having no two
-- rows of one id when a sweep reads it. There every further `acceptAndTransfer` transaction of the
-- request, by any user, raises and leaves every table as it was.
pub accepted-once :
    (s : Service) (id : ℕ) (env env' : Env) (user_id user_id' : ℕ) (start after db : Db)
    (a : Accepted)
    → transaction (accept_tx s env user_id id) start ≡ (ok a, after)
    → Reach s after db
    → Refuses db (transaction (accept_tx s env' user_id' id) db)
accepted-once s id env env' user_id user_id' start after db a paid reach =
    let c : Closed s id after =
      returned (transaction (accept_tx s env user_id id) start)
        (Post-transaction (accept_tx s env user_id id) start tt
          (accept_tx-Closed s id env user_id start))
        paid in
    Refuses-of_Post _ (
      no_second_time s id env' user_id' db (record {
        row = c.row;
        at = settled-stays s id c.row after db c.at c.settled reach;
        settled = c.settled;
      }))
