-- ===== src/Escrow/Guard.antt =====
-- The other handlers, and all requests together, and the escrows that are settled already.
use farm_backend.Prelude.{ℕ, ◌≡◌, refl, ap, ◌∙◌, Option, none, ==_iff}
use farm_backend.Prelude.Text.{Text, trim}
use farm_backend.Prelude.Table.{find}
use farm_backend.Store.{
  Db, Result, adjust_wallet, update_escrow, create_escrow, create_transaction, update_many_escrow,
}
use farm_backend.Store.Rules.{
  returns, raises, Post-bind, Post-then, Post-gets, Post-or_raise, Post-pure, Post-check,
}
use farm_backend.Store.Ledger.{SameMoney-refl}
use farm_backend.Escrow.Env.{Env}
use farm_backend.Escrow.Money.{credit_superadmin}
use farm_backend.Escrow.Create.{
  CreateDto, Prepared, funded, fund_writes, create_tx, create_checks, create,
}
use farm_backend.Escrow.Attachment.{Media, Attachment, stored_url}
use farm_backend.Escrow.Dispute.{
  other_party, disputed_row, dispute_tx, dispute, cancelled_row, cancel, add_message,
}
use farm_backend.Escrow.Checks.{create_checks-IsHarmless}
use farm_backend.Escrow.Disputes.{stored_url-IsHarmless}
use farm_backend.Escrow.Handlers.{read-Post}
use farm_backend.Escrow.Requests.{
  Request, open_escrow, release_escrow, release_milestone, open_dispute, cancel_escrow,
  send_message, decide_dispute, auto_release, tables_after,
}
use farm_backend.Escrow.Settled.{
  IsSettled, IsSettled-same, checked, Stays, Stays-of_harmless, transaction-Stays,
  adjust_wallet-Stays, create_transaction-Stays, create_message-Stays, update_escrow-Stays,
  create_escrow-Stays, update_many-Stays, credit_superadmin-Stays, fresh_ne,
}
use farm_backend.Escrow.Stays.{
  opens_active, execute_release-Stays, release-Stays, release_partial-Stays, resolve_dispute-Stays,
}

module _ {id : ℕ} (env : Env) where
  fund_writes-Stays :
      (p : Prepared) (db : Db)
      → find env.new_escrow db.escrows ≡ none
      → IsSettled id db
      → Stays id (fund_writes env p db)
  unfolding fund_writes
  fund_writes-Stays p db fresh s =
      let other = fresh_ne fresh s in
      Post-then (create_escrow env.new_escrow _) _ db
        (create_escrow-Stays env.new_escrow _ db fresh s)
        λ _ d s₁.
          Post-then (adjust_wallet p.buyer_wallet _ _) _ d
            (adjust_wallet-Stays p.buyer_wallet _ _ d s₁)
            λ _ d₁ s₂.
              Post-then (update_escrow env.new_escrow (funded env.now)) _ d₁
                (update_escrow-Stays env.new_escrow (funded env.now) d₁
                  (λ same r _. absurd (other ((==_iff env.new_escrow id).0 same))) s₂)
                λ _ d₂ s₃.
                  Post-then (create_transaction env.new_transaction _) _ d₂
                    (create_transaction-Stays env.new_transaction _ d₂ s₃)
                    λ _ d₃ s₄.
                      Post-then (credit_superadmin p.fee) _ d₃ (credit_superadmin-Stays p.fee d₃ s₄)
                        λ _ d₄ s₅. Post-pure env.new_escrow d₄ s₅

  create_tx-Stays :
      (p : Prepared) (db : Db)
      → find env.new_escrow db.escrows ≡ none
      → IsSettled id db
      → Stays id (create_tx env p db)
  unfolding create_tx
  create_tx-Stays p db fresh s = Post-gets _ _ db (
      Post-or_raise _ (find p.buyer_wallet db.wallets) _ db s
        λ w _. Post-check _ _ _ db s λ _. fund_writes-Stays p db fresh s)

  create-Stays :
      (buyer_id : ℕ) (dto : CreateDto) (db : Db)
      → find env.new_escrow db.escrows ≡ none
      → IsSettled id db
      → Stays id (create env buyer_id dto db)
  unfolding create
  create-Stays buyer_id dto db fresh s =
      Post-bind (create_checks env buyer_id dto) _ db
        (checked _ s (create_checks-IsHarmless env buyer_id dto db))
        λ p d h.
          let s₁ = IsSettled-same s h.escrows in
          transaction-Stays (create_tx env p) d s₁
            (create_tx-Stays p d (ap (find env.new_escrow) h.escrows ∙ fresh) s₁)

  dispute_tx-Stays :
      (k user_id : ℕ) (reason : Text) (url : Option Text) (mime : Text) (db : Db)
      → IsSettled id db
      → Stays id (dispute_tx env k user_id reason url mime db)
  unfolding dispute_tx
  dispute_tx-Stays k user_id reason url mime db s =
      Post-bind (update_many_escrow k _ _) _ db
        (update_many-Stays k _ (disputed_row env.now _) db opens_active s)
        λ claimed d s₁. Post-check _ _ _ d s₁ λ _. create_message-Stays _ d s₁

  dispute-Stays :
      (media : Media) (k user_id : ℕ) (reason : Text) (a : Attachment) (db : Db)
      → IsSettled id db
      → Stays id (dispute env media k user_id reason a db)
  unfolding dispute
  dispute-Stays media k user_id reason a db s = Post-check _ _ _ db s λ _.
      Post-check _ _ _ db s λ _. Post-check _ _ _ db s λ _. Post-check _ _ _ db s λ _.
        read-Post k _ db s λ e _. Post-check _ _ _ db s λ _. Post-check _ _ _ db s λ _.
          Post-bind (stored_url media k a) _ db
            (Stays-of_harmless _ s (stored_url-IsHarmless media k a db (SameMoney-refl db)))
            λ url d s₁. Post-or_raise _ (other_party user_id e) _ d s₁ λ other _.
              transaction-Stays (dispute_tx env k user_id (trim reason) url a.mime_type) d s₁
                (dispute_tx-Stays k user_id (trim reason) url a.mime_type d s₁)

cancel-Stays : {id : ℕ} (k user_id : ℕ) (db : Db) → IsSettled id db → Stays id (cancel k user_id db)
unfolding cancel
cancel-Stays k user_id db s = read-Post k _ db s λ e _. Post-check _ _ _ db s λ _.
    Post-check _ _ _ db s λ _. Post-check _ _ _ db s λ _.
      Post-then (update_escrow k cancelled_row) _ db
        (update_escrow-Stays k cancelled_row db (λ _ r _. refl) s)
        λ _ d s₁. Post-or_raise _ e.seller_id _ d s₁ λ seller _. Post-pure tt d s₁

add_message-Stays :
    {id : ℕ} (k sender_id : ℕ) (message : Text) (db : Db)
    → IsSettled id db
    → Stays id (add_message k sender_id message db)
unfolding add_message
add_message-Stays k sender_id message db s =
    read-Post k _ db s λ e _. Post-check _ _ _ db s λ _. create_message-Stays _ db s

state : {A : Type 0} {id : ℕ} (r : Result A × Db) → Stays id r → IsSettled id r.1
state r (returns s) = s
state r (raises s) = s

-- Whatever the request, a settled escrow stays settled.
pub request-Stays :
    {id : ℕ} (env : Env) (media : Media) (r : Request) (db : Db)
    → find env.new_escrow db.escrows ≡ none
    → IsSettled id db
    → IsSettled id (tables_after env media r db)
unfolding tables_after
request-Stays env media (open_escrow buyer_id dto) db fresh s =
    state _ (create-Stays env buyer_id dto db fresh s)
request-Stays env media (release_escrow k buyer_id proof) db fresh s =
    state _ (release-Stays env k buyer_id proof db s)
request-Stays env media (release_milestone k buyer_id amount pin label) db fresh s =
    state _ (release_partial-Stays env k buyer_id amount pin label db s)
request-Stays env media (open_dispute k user_id reason a) db fresh s =
    state _ (dispute-Stays env media k user_id reason a db s)
request-Stays env media (cancel_escrow k user_id) db fresh s = state _ (cancel-Stays k user_id db s)
request-Stays env media (send_message k sender_id message) db fresh s =
    state _ (add_message-Stays k sender_id message db s)
request-Stays env media (decide_dispute k admin_id winner note) db fresh s =
    state _ (resolve_dispute-Stays env k admin_id winner note db s)
request-Stays env media (auto_release k e) db fresh s =
    state _ (execute_release-Stays env k e none db s)
