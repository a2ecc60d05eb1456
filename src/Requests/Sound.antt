-- ===== src/Requests/Sound.antt =====
-- What `requestFunds` and `createRequest` write.
use farm_backend.Prelude.{ℕ, ◌+◌, ◌≤◌, ◌<◌, ◌≡◌, ◌≢◌, refl, true, false, none, some, arith, ◌==◌}
use farm_backend.Prelude.Text.{Text}
use farm_backend.Prelude.Int.{ℤ, pos, negsuc, pos_part, ltb_ℤ, leb_ℤ}
use farm_backend.Prelude.Table.{find, insert, find-insert_self}
use farm_backend.Store.{Db, MoneyRequest, Field, create_in}
use farm_backend.Store.Rules.{
  Post, returns, Any, Post-then, Post-gets, Post-or_raise, Post-pure, Post-check, Post-transaction,
}
use farm_backend.Escrow.Env.{Env}
use farm_backend.Escrow.{active_wallet}
use farm_backend.Requests.Service.{Service, is_requested, transfer_service, payment_service}
use farm_backend.Requests.Ask.{
  AskDto, payer_of, new_request, ask_tx, ask, max_single_request, request_funds, create_request,
}

-- A request that one user makes of another, of at most 100,000 FARM, which ends five minutes
-- (300,000 milliseconds) after it was made.
pub record IsSound (now : ℕ) (r : MoneyRequest) : Type 0 where
  pub requester : ℕ
  pub payer : ℕ
  pub from : r.requester_user_id ≡ some requester
  pub of : r.payer_user_id ≡ some payer
  pub other_user : requester ≢ payer
  pub from_wallet : ℕ
  pub of_wallet : ℕ
  pub into : r.requester_wallet_id ≡ some from_wallet
  pub out_of : r.payer_wallet_id ≡ some of_wallet
  pub other_wallet : from_wallet ≢ of_wallet
  pub waits : is_requested r.status ≡ true
  pub positive : 0 < r.amount
  pub within : r.amount ≤ 10_000_000_000_000
  pub ends : r.expires_at ≡ some (now + 300_000)

created_in :
    {V : Type 0} (fd : Field V) (k : ℕ) (v : V) (db : Db)
    → find k (fd.get db) ≡ none
    → Post Any (λ _ d. find k (fd.get d) ≡ some v) (create_in fd k v db)
unfolding create_in
created_in fd k v db fresh =
    returns (rw (fd.got (insert k v (fd.get db)) db) (find-insert_self k v (fd.get db) fresh))

apart : (a b : ℕ) → (a == b) ≡ false → a ≢ b
apart a b h = ground arith

positive_part : (a : ℤ) → leb_ℤ a (pos 0) ≡ false → 0 < pos_part a
positive_part (pos n) h = ground arith
positive_part (negsuc n) h = ground arith

part_within : (a : ℤ) (n : ℕ) → ltb_ℤ (pos n) a ≡ false → pos_part a ≤ n
part_within (pos m) n h = ground arith
part_within (negsuc m) n h = omega arith

abbrev Asked : Service → Env → ℕ → Db → Type 0
Asked s env k d = (r : MoneyRequest) × (find k (s.rows.get d) ≡ some r) × IsSound env.now r

module _ (s : Service) (env : Env) (new_id who : ℕ) where
  ask_tx-IsSound :
      (ident : Text) (amount : ℕ) (db : Db)
      → 0 < amount
      → amount ≤ max_single_request
      → find new_id (s.rows.get db) ≡ none
      → Post Any (λ _. Asked s env new_id) (ask_tx s env new_id who ident amount db)
  unfolding ask_tx is_requested
  ask_tx-IsSound ident amount db positive within fresh = Post-gets _ _ db (
      Post-or_raise _ (active_wallet who db) _ db tt λ wallet _. Post-gets _ _ db (
        Post-or_raise _ (payer_of ident db) _ db tt λ payer _. Post-check _ _ _ db tt λ wallets.
          Post-check _ _ _ db tt λ users.
            Post-then (create_in s.rows new_id _) _ db
              (created_in s.rows new_id (new_request env who wallet.0 payer amount) db fresh)
              λ _ d found. Post-pure new_id d (
                new_request env who wallet.0 payer amount,
                found,
                record {
                  requester = who;
                  payer = payer.0;
                  from = refl;
                  of = refl;
                  other_user = apart who payer.0 users;
                  from_wallet = wallet.0;
                  of_wallet = payer.1;
                  into = refl;
                  out_of = refl;
                  other_wallet = apart wallet.0 payer.1 wallets;
                  waits = refl;
                  positive = positive;
                  within = within;
                  ends = refl;
                },
              )))

  ask-IsSound :
      (dto : AskDto) (db : Db)
      → find new_id (s.rows.get db) ≡ none
      → Post (λ d. d ≡ db) (λ _. Asked s env new_id) (ask s env new_id who dto db)
  unfolding ask
  ask-IsSound dto db fresh = Post-check _ _ _ db refl λ positive. Post-check _ _ _ db refl λ within.
      Post-transaction (ask_tx s env new_id who dto.payer_identifier (pos_part dto.amount)) db refl
        (ask_tx-IsSound dto.payer_identifier (pos_part dto.amount) db
          (positive_part dto.amount positive) (part_within dto.amount max_single_request within)
          fresh)

-- Where the id of the new row is unused, a call of `requestFunds` that returns has put a transfer
-- request under that id that waits for an answer, asks a positive amount of at most 100,000 FARM
-- (10^13 atoms) of another user and of another wallet, and ends five minutes (300,000
-- milliseconds) after the call. A call that raises has written no table.
pub request_funds-IsSound :
    (env : Env) (new_id who : ℕ) (dto : AskDto) (db : Db)
    → find new_id db.transfer_requests ≡ none
    → Post
        (λ d. d ≡ db)
        (λ _ d. (r : MoneyRequest) × (find new_id d.transfer_requests ≡ some r) × IsSound env.now r)
        (request_funds env new_id who dto db)
unfolding request_funds
request_funds-IsSound env new_id who dto db fresh =
    ask-IsSound transfer_service env new_id who dto db fresh

-- Where the id of the new row is unused, a call of `createRequest` that returns has put a payment
-- request under that id that waits for an answer, asks a positive amount of at most 100,000 FARM
-- (10^13 atoms) of another user and of another wallet, and ends five minutes (300,000
-- milliseconds) after the call, not the twelve hours of payment-request-expiry.ts. A call that
-- raises has written no table.
pub create_request-IsSound :
    (env : Env) (new_id who : ℕ) (dto : AskDto) (db : Db)
    → find new_id db.payment_requests ≡ none
    → Post
        (λ d. d ≡ db)
        (λ _ d. (r : MoneyRequest) × (find new_id d.payment_requests ≡ some r) × IsSound env.now r)
        (create_request env new_id who dto db)
unfolding create_request
create_request-IsSound env new_id who dto db fresh =
    ask-IsSound payment_service env new_id who dto db fresh
