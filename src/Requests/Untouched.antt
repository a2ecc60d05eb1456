-- ===== src/Requests/Untouched.antt =====
-- What each action of a service leaves of a property of the service's table.
use farm_backend.Prelude.{ℕ, ◌≡◌, sym, Bool, false, not, Option, some, ◌&&◌, subst, take}
use farm_backend.Prelude.Text.{Text}
use farm_backend.Prelude.Int.{pos, pos_part, negate, ◌+ℤ◌}
use farm_backend.Prelude.Table.{Table, find, HasKeys, modify, insert}
use farm_backend.Store.{
  Db, Wallet, MoneyRequest, adjust_wallet, create_transaction, create_entry, update_transaction,
  update_in, create_in, map_where,
}
use farm_backend.Store.Rules.{
  Post, Any, Post-bind, Post-then, Post-gets, Post-or_raise, Post-pure, Post-check,
  Post-transaction, forget,
}
use farm_backend.Store.Side.{
  On, On-adjust_wallet, On-create_transaction, On-update_transaction, On-create_entry, On-update_in,
  On-create_in, On-update_where,
}
use farm_backend.Escrow.Env.{Env}
use farm_backend.Escrow.{is_id, active_wallet}
use farm_backend.Wallets.{sent, transfer_fee_of}
use farm_backend.Requests.Service.{Service, is_requested}
use farm_backend.Requests.Ask.{AskDto, payer_of, ask_tx, ask}
use farm_backend.Requests.Accept.{
  wallet_at, settle_request, lapse, pay_request, check_expiry, accept_open, accept_tx,
}
use farm_backend.Requests.Close.{is_due, rows_where, close_request, expire_each, mark_expired}
use farm_backend.Requests.Conserve.{check_expiry-returns}

-- A property of the table that outlives an answer to a request that waits for one, a new request,
-- the mark of requests that are due, and a sweep of them.
pub record IsStable (s : Service) (P : Table MoneyRequest → Type 0) : Type 0 where
  pub answers :
      (k : ℕ) (x : MoneyRequest) (t : Table MoneyRequest)
      → find k t ≡ some x
      → not (is_requested x.status) ≡ false
      → P t
      → (f : MoneyRequest → MoneyRequest) (u : Table MoneyRequest) → P u
      → P (modify k f u)
  pub adds : (k : ℕ) (v : MoneyRequest) (t : Table MoneyRequest) → P t → P (insert k v t)
  pub marks :
      (now : ℕ) (p : MoneyRequest → Bool) (t : Table MoneyRequest)
      → P t
      → P (map_where (λ x. p x && is_due now x) lapse t)
  pub sweeps :
      (now limit : ℕ) (db : Db)
      → HasKeys (s.rows.get db)
      → On s.rows P db
      → On s.rows P (expire_each s (take limit (rows_where (is_due now) (s.rows.get db))) db).1

module _ (s : Service) (P : Table MoneyRequest → Type 0) where
  pay_request-On :
      (env : Env) (id : ℕ) (x : MoneyRequest) (payer requester : ℕ × Wallet) (fee : ℕ) (db : Db)
      → ((f : MoneyRequest → MoneyRequest) (u : Table MoneyRequest) → P u → P (modify id f u))
      → On s.rows P db
      → Post (On s.rows P) (λ _. On s.rows P) (pay_request s env id x payer requester fee db)
  unfolding pay_request
  pay_request-On env id x payer requester fee db step h =
      let out = pos x.amount +ℤ pos fee in
      Post-bind (create_transaction env.new_transaction _) _ db
        (On-create_transaction s.rows P env.new_transaction _ db h)
        λ txn d₁ h₁.
          Post-bind (adjust_wallet payer.0 (negate out) (pos 0)) _ d₁
            (On-adjust_wallet s.rows P payer.0 (negate out) (pos 0) d₁ h₁)
            λ from d₂ h₂.
              Post-bind (adjust_wallet requester.0 (pos x.amount) (pos 0)) _ d₂
                (On-adjust_wallet s.rows P requester.0 (pos x.amount) (pos 0) d₂ h₂)
                λ to d₃ h₃.
                  Post-then (create_entry _) _ d₃ (On-create_entry s.rows P _ d₃ h₃) λ _ d₄ h₄.
                    Post-then (create_entry _) _ d₄ (On-create_entry s.rows P _ d₄ h₄) λ _ d₅ h₅.
                      Post-then (update_transaction txn _) _ d₅
                        (On-update_transaction s.rows P txn (sent env.now) d₅ h₅)
                        λ _ d₆ h₆.
                          Post-then (update_in s.rows id _) _ d₆
                            (On-update_in s.rows P id (settle_request txn env.now) d₆
                              (λ y _. step _ _ h₆) h₆)
                            λ _ d₇ h₇. Post-pure _ d₇ h₇

  module _ (stable : IsStable s P) where
    pub accept_tx-On :
        (env : Env) (user_id id : ℕ) (db : Db)
        → On s.rows P db
        → Post Any (λ _. On s.rows P) (accept_tx s env user_id id db)
    unfolding accept_tx accept_open
    accept_tx-On env user_id id db h = Post-gets _ _ db (
        Post-or_raise _ (find id (s.rows.get db)) _ db tt λ x found. Post-check _ _ _ db tt λ _.
          Post-check _ _ _ db tt λ waits.
            Post-then (check_expiry s env id x) _ db (check_expiry-returns s env id x db)
              λ _ d (same, _). Post-gets _ _ d (
                Post-gets _ _ d (
                  Post-or_raise _ (wallet_at x.payer_wallet_id d) _ d tt λ payer _.
                    Post-check _ _ _ d tt λ _. Post-check _ _ _ d tt λ _.
                      Post-or_raise _ (wallet_at x.requester_wallet_id d) _ d tt λ requester _.
                        forget
                          (pay_request s env id x payer requester (transfer_fee_of env x.amount) d)
                          (pay_request-On env id x payer requester (transfer_fee_of env x.amount) d
                            (stable.answers id x (s.rows.get db) found waits h)
                            (subst (On s.rows P) (sym same) h)))))

    pub close_request-On :
        (party : MoneyRequest → Option ℕ) (f : MoneyRequest → MoneyRequest) (user_id id : ℕ)
        (db : Db)
        → On s.rows P db
        → Post (On s.rows P) (λ _. On s.rows P) (close_request s party f user_id id db)
    unfolding close_request
    close_request-On party f user_id id db h = Post-gets _ _ db (
        Post-or_raise _ (find id (s.rows.get db)) _ db h λ x found. Post-check _ _ _ db h λ _.
          Post-check _ _ _ db h λ waits.
            Post-bind (update_in s.rows id f) _ db
              (On-update_in s.rows P id f db
                (λ y _. stable.answers id x (s.rows.get db) found waits h f (s.rows.get db) h) h)
              λ _ d h'. Post-pure _ d h')

    pub mark_expired-On :
        (now user_id : ℕ) (db : Db)
        → On s.rows P db
        → Post (On s.rows P) (λ _. On s.rows P) (mark_expired s now user_id db)
    unfolding mark_expired
    mark_expired-On now user_id db h =
        On-update_where s.rows P (λ x. is_id user_id x.payer_user_id && is_due now x) lapse db
          (stable.marks now (λ x. is_id user_id x.payer_user_id) (s.rows.get db) h)

    ask_tx-On :
        (env : Env) (new_id who : ℕ) (ident : Text) (amount : ℕ) (db : Db)
        → On s.rows P db
        → Post (On s.rows P) (λ _. On s.rows P) (ask_tx s env new_id who ident amount db)
    unfolding ask_tx
    ask_tx-On env new_id who ident amount db h = Post-gets _ _ db (
        Post-or_raise _ (active_wallet who db) _ db h λ wallet _. Post-gets _ _ db (
          Post-or_raise _ (payer_of ident db) _ db h λ payer _. Post-check _ _ _ db h λ _.
            Post-check _ _ _ db h λ _.
              Post-then (create_in s.rows new_id _) _ db
                (On-create_in s.rows P new_id _ db (stable.adds new_id _ (s.rows.get db)) h)
                λ _ d h'. Post-pure _ d h'))

    pub ask-On :
        (env : Env) (new_id who : ℕ) (dto : AskDto) (db : Db)
        → On s.rows P db
        → Post (On s.rows P) (λ _. On s.rows P) (ask s env new_id who dto db)
    unfolding ask
    ask-On env new_id who dto db h = Post-check _ _ _ db h λ _. Post-check _ _ _ db h λ _.
        Post-transaction (ask_tx s env new_id who dto.payer_identifier (pos_part dto.amount)) db h
          (forget _ (ask_tx-On env new_id who dto.payer_identifier (pos_part dto.amount) db h))
