-- ===== src/Escrow/Requests.antt =====
-- The escrow service as a whole: any requests, in any order, by anybody.
use farm_backend.Prelude.{ℕ, ⊤, ◌≡◌, refl, ◌∙◌, none, some}
use farm_backend.Prelude.Number.{JsNumber}
use farm_backend.Prelude.Text.{Text}
use farm_backend.Prelude.Table.{find}
use farm_backend.Auth.{verify_pin}
use farm_backend.Auth.Harmless.{verify_pin-IsHarmless}
use farm_backend.Store.{Db, Escrow}
use farm_backend.Store.Rules.{Post-gets, Post-or_raise, Post-check, Post-then}
use farm_backend.Store.Balance.{total}
use farm_backend.Store.Ledger.{SameMoney-refl}
use farm_backend.Escrow.Env.{Env, Proof}
use farm_backend.Escrow.Create.{CreateDto, create}
use farm_backend.Escrow.Release.{Resolution, execute_release, release}
use farm_backend.Escrow.Partial.{to_cents, partial_tx, release_partial}
use farm_backend.Escrow.Refund.{Winner, buyer, seller, settle, resolve_dispute}
use farm_backend.Escrow.Attachment.{Media, Attachment}
use farm_backend.Escrow.Dispute.{dispute, cancel, add_message}
use farm_backend.Escrow.Debt.{Solvent}
use farm_backend.Escrow.Settle.{Keeps, Keeps-of_Post, IsFeeFair, IsRowOf, execute_release-Keeps}
use farm_backend.Escrow.Giveback.{execute_refund-Keeps}
use farm_backend.Escrow.Checks.{create-Keeps, transaction-Keeps, Solvent-SameMoney}
use farm_backend.Escrow.Milestone.{partial_tx-Books}
use farm_backend.Escrow.Handlers.{
  Kept, Kept-refl, IsSafe, IsSafe-of_Keeps, Kept-state, read-Post, IsRowOf-of_find, release-IsSafe,
}
use farm_backend.Escrow.Disputes.{dispute-Keeps, cancel-IsSafe, add_message-IsSafe}

-- Take a release fee of at most its amount and a state in which every wallet covers what its open
-- escrows hold. `releasePartial` that returns leaves the sum of all balances as it was and every
-- wallet covering what its open escrows hold; if it raises, all rows about money are as they were.
pub release_partial-Keeps :
    (env : Env) (id buyer_id : ℕ) (amount : JsNumber) (pin label : Text) (db : Db)
    → IsFeeFair env
    → Solvent db
    → Keeps db (release_partial env id buyer_id amount pin label db)
unfolding release_partial
release_partial-Keeps env id buyer_id amount pin label db fair s =
    let h = SameMoney-refl db in
    Keeps-of_Post _ (
      Post-check _ _ _ db h λ _. read-Post id _ db h λ e found. Post-check _ _ _ db h λ _.
        Post-check _ _ _ db h λ _. Post-or_raise _ e.buyer_wallet_id _ db h λ bw wallet.
          Post-or_raise _ e.seller_wallet_id _ db h λ sw _.
            Post-then (verify_pin env.bcrypt buyer_id pin) _ db
              (verify_pin-IsHarmless env.bcrypt buyer_id pin db h)
              λ _ d h'. transaction-Keeps (partial_tx env id e bw sw (to_cents amount) label) d h' (
                partial_tx-Books env fair id bw sw (to_cents amount) e label d
                  (Solvent-SameMoney s h') wallet (IsRowOf-of_find id e found h')))

settle-IsSafe :
    (env : Env) (id : ℕ) (e : Escrow) (r : Resolution) (w : Winner) (db : Db)
    → IsFeeFair env
    → Solvent db
    → find id db.escrows ≡ some e
    → IsSafe db (settle env id e r w db)
unfolding settle
settle-IsSafe env id e r seller db fair s found = IsSafe-of_Keeps _ (Kept-refl s) (
    execute_release-Keeps env id e (some r) db fair s
      (IsRowOf-of_find id e found (SameMoney-refl db)))
settle-IsSafe env id e r buyer db fair s found =
    IsSafe-of_Keeps _ (Kept-refl s)
      (execute_refund-Keeps env id e (some r) db s (IsRowOf-of_find id e found (SameMoney-refl db)))

resolve_dispute-IsSafe :
    (env : Env) (id admin_id : ℕ) (w : Winner) (note : Text) (db : Db)
    → IsFeeFair env
    → Solvent db
    → IsSafe db (resolve_dispute env id admin_id w note db)
unfolding resolve_dispute
resolve_dispute-IsSafe env id admin_id w note db fair s =
    let k = Kept-refl s in
    Post-gets _ _ db (
      Post-or_raise _ (find id db.escrows) _ db k
        λ e found. Post-check _ _ _ db k λ _. settle-IsSafe env id e _ w db fair s found)

-- What reaches the service: a request of a user or an admin, or a round of the automatic releases.
pub data Request : Type 0 where
  open_escrow : (buyer_id : ℕ) → CreateDto → Request
  release_escrow : (id buyer_id : ℕ) → Proof → Request
  release_milestone : (id buyer_id : ℕ) → JsNumber → (pin label : Text) → Request
  open_dispute : (id user_id : ℕ) → (reason : Text) → Attachment → Request
  cancel_escrow : (id user_id : ℕ) → Request
  send_message : (id sender_id : ℕ) → Text → Request
  decide_dispute : (id admin_id : ℕ) → Winner → (note : Text) → Request
  auto_release : (id : ℕ) → (read_before : Escrow) → Request

-- The tables after a request, whatever it answers.
unfoldable pub tables_after : Env → Media → Request → Db → Db
tables_after env media (open_escrow buyer_id dto) db = (create env buyer_id dto db).1
tables_after env media (release_escrow id buyer_id proof) db = (release env id buyer_id proof db).1
tables_after env media (release_milestone id buyer_id amount pin label) db =
    (release_partial env id buyer_id amount pin label db).1
tables_after env media (open_dispute id user_id reason a) db =
    (dispute env media id user_id reason a db).1
tables_after env media (cancel_escrow id user_id) db = (cancel id user_id db).1
tables_after env media (send_message id sender_id message) db =
    (add_message id sender_id message db).1
tables_after env media (decide_dispute id admin_id winner note) db =
    (resolve_dispute env id admin_id winner note db).1
tables_after env media (auto_release id e) db = (execute_release env id e none db).1

-- A row that the loop of the automatic releases has read before may have changed since, but for the
-- buyer's wallet.
abbrev pub IsCurrent : Request → Db → Type 0
IsCurrent (auto_release id e) db = IsRowOf id e db
IsCurrent _ db = ⊤

-- The states that the service reaches from `start` by requests in any order, each with a clock, fee
-- rules and ids of its own.
pub data Reach (media : Media) (start : Db) : Db → Type 0 where
  begin : Reach media start start
  serve :
      {db : Db} (env : Env) (r : Request)
      → Reach media start db
      → IsFeeFair env
      → find env.new_escrow db.escrows ≡ none
      → IsCurrent r db
      → Reach media start (tables_after env media r db)

request-Kept :
    (env : Env) (media : Media) (r : Request) (db : Db)
    → IsFeeFair env
    → Solvent db
    → find env.new_escrow db.escrows ≡ none
    → IsCurrent r db
    → Kept db (tables_after env media r db)
unfolding tables_after
request-Kept env media (open_escrow buyer_id dto) db fair s fresh current =
    Kept-state _ (IsSafe-of_Keeps _ (Kept-refl s) (create-Keeps env buyer_id dto db s fresh))
request-Kept env media (release_escrow id buyer_id proof) db fair s fresh current =
    Kept-state _ (release-IsSafe env id buyer_id proof db fair s)
request-Kept env media (release_milestone id buyer_id amount pin label) db fair s fresh current =
    Kept-state _ (
      IsSafe-of_Keeps _ (Kept-refl s)
        (release_partial-Keeps env id buyer_id amount pin label db fair s))
request-Kept env media (open_dispute id user_id reason a) db fair s fresh current =
    Kept-state _
      (IsSafe-of_Keeps _ (Kept-refl s) (dispute-Keeps env media id user_id reason a db s))
request-Kept env media (cancel_escrow id user_id) db fair s fresh current =
    Kept-state _ (cancel-IsSafe id user_id db s)
request-Kept env media (send_message id sender_id message) db fair s fresh current =
    Kept-state _ (add_message-IsSafe id sender_id message db s)
request-Kept env media (decide_dispute id admin_id winner note) db fair s fresh current =
    Kept-state _ (resolve_dispute-IsSafe env id admin_id winner note db fair s)
request-Kept env media (auto_release id e) db fair s fresh current =
    Kept-state _
      (IsSafe-of_Keeps _ (Kept-refl s) (execute_release-Keeps env id e none db fair s current))

-- Take a state in which of every wallet at least what its open escrows still hold is locked, and
-- no more is locked than its balance. Let the service then serve any requests, in any order,
-- succeeding or failing, where each release fee is at most its amount, each new escrow has an
-- unused id, and a row that the automatic releases have read before names the buyer's wallet that
-- it names now. Then the sum of all balances is the one at the start, and every wallet still
-- covers what its open escrows hold.
pub service_conserves_money :
    (media : Media) (start db : Db)
    → Solvent start
    → Reach media start db
    → (total db ≡ total start) × Solvent db
service_conserves_money media start _ s begin = (refl, s)
service_conserves_money media start _ s (serve {db} env r reach fair fresh current) =
    let (same_total, solvent) = service_conserves_money media start db s reach in
    let k = request-Kept env media r db fair solvent fresh current in
    (k.same_total ∙ same_total, k.solvent)
