-- ===== src/Escrow/Handlers.antt =====
-- `release`, and what the handlers of the escrow service share.
use farm_backend.Prelude.{ℕ, ◌≡◌, refl, ap, sym, ◌∙◌, not, Option, none, some, ◌&&◌, some_inj}
use farm_backend.Prelude.Table.{find}
use farm_backend.Auth.Harmless.{IsHarmless}
use farm_backend.Store.{
  Db, Escrow, active, completed, Result, ok, err, Action, gets, or_raise, next, bad_request,
  unauthorized, not_found, ◌>>=◌,
}
use farm_backend.Store.Rules.{
  Post, returns, raises, Post-check, Post-then, Post-bind, Post-raise, Post-pure, Post-branch,
}
use farm_backend.Store.Balance.{total}
use farm_backend.Store.Ledger.{SameMoney, SameMoney-refl}
use farm_backend.Escrow.Env.{Env, Proof, authorize}
use farm_backend.Escrow.Money.{is_id}
use farm_backend.Escrow.Release.{
  already_released, released_to_seller, status_eq, execute_release, get_escrow_or_fail,
  settle_release, attempt, release_open, release, cannot_release,
}
use farm_backend.Escrow.Debt.{Solvent}
use farm_backend.Escrow.Settle.{Keeps, done, failed, IsFeeFair, IsRowOf, execute_release-Keeps}
use farm_backend.Escrow.Checks.{authorize-IsHarmless, Solvent-SameMoney, total-SameMoney}

-- The total of `db`, and every wallet covered.
pub record Kept (db d : Db) : Type 0 where
  pub same_total : total d ≡ total db
  pub solvent : Solvent d

pub Kept-refl : {db : Db} → Solvent db → Kept db db
Kept-refl s = record { same_total = refl; solvent = s }

pub Kept-of_SameMoney : {db d e : Db} → Kept db d → SameMoney d e → Kept db e
Kept-of_SameMoney k h = record {
  same_total = total-SameMoney h ∙ k.same_total;
  solvent = Solvent-SameMoney k.solvent h;
}

-- A call that began at `db` and ended, one way or the other, in a state that is kept.
abbrev pub IsSafe : {A : Type 0} → Db → Result A × Db → Type 0
IsSafe {A} db r = Post {A = A} (Kept db) (λ _. Kept db) r

pub IsSafe-of_Keeps :
    {A : Type 0} {db d : Db} (r : Result A × Db) → Kept db d → Keeps d r → IsSafe db r
IsSafe-of_Keeps r k (done e s) = returns (record { same_total = e ∙ k.same_total; solvent = s })
IsSafe-of_Keeps r k (failed h) = raises (Kept-of_SameMoney k h)

pub Kept-state : {A : Type 0} {db : Db} (r : Result A × Db) → IsSafe db r → Kept db r.1
Kept-state r (returns k) = k
Kept-state r (raises k) = k

-- Reading a row hands it to the rest, which runs in the same tables.
pub read-Post :
    {B : Type 0} {E : Db → Type 0} {Q : B → Db → Type 0} (id : ℕ) (f : Escrow → Action B) (db : Db)
    → E db
    → ((e : Escrow) → find id db.escrows ≡ some e → Post E Q (f e db))
    → Post E Q ((get_escrow_or_fail id >>= f) db)
unfolding get_escrow_or_fail gets or_raise next ◌>>=◌
read-Post {E = E} {Q = Q} id f db h k = go (find id db.escrows) k
  where
    go :
        (o : Option Escrow)
        → ((e : Escrow) → o ≡ some e → Post E Q (f e db))
        → Post E Q (next f (or_raise (not_found "Escrow contract not found") o db))
    go none k = raises h
    go (some e) k = k e refl

-- The wallets' ids of the row just read are those of the row in the table.
pub IsRowOf-of_find :
    (id : ℕ) (e : Escrow) {db d : Db}
    → find id db.escrows ≡ some e
    → SameMoney db d
    → IsRowOf id e d
IsRowOf-of_find id e found h r here =
    ap (λ (x : Escrow). x.buyer_wallet_id) (some_inj (sym here ∙ (ap (find id) h.escrows ∙ found)))

pub weaken :
    {A : Type 0} {db : Db} (r : Result A × Db)
    → Solvent db
    → IsHarmless db r
    → Post (Kept db) (λ _. SameMoney db) r
weaken r s (returns h) = returns h
weaken r s (raises h) = raises (Kept-of_SameMoney (Kept-refl s) h)

-- A check of who sends the request, as a step of a safe call.
authorized :
    (env : Env) (buyer_id : ℕ) (proof : Proof) (db : Db)
    → Solvent db
    → Post (Kept db) (λ _. SameMoney db) (authorize env buyer_id proof db)
authorized env buyer_id proof db s =
    weaken _ s (authorize-IsHarmless env buyer_id proof db (SameMoney-refl db))

module _ (env : Env) (id : ℕ) where
  settle_release-IsSafe :
      (buyer_id : ℕ) (r : Result ℕ) (db d : Db)
      → Kept db d
      → IsSafe db (settle_release id buyer_id r d)
  unfolding settle_release
  settle_release-IsSafe buyer_id (ok n) db d k = Post-pure released_to_seller d k
  settle_release-IsSafe buyer_id (err (bad_request m)) db d k = read-Post id _ d k λ e _.
      Post-branch (is_id buyer_id e.buyer_id && status_eq e.status completed) _ _ d
        (λ _. Post-pure already_released d k) λ _. Post-raise (bad_request m) d k
  settle_release-IsSafe buyer_id (err (unauthorized m)) db d k = Post-raise (unauthorized m) d k
  settle_release-IsSafe buyer_id (err e) db d k = Post-raise e d k

  attempt-IsSafe :
      {A : Type 0} (m : Action A) (db d : Db) → IsSafe db (m d) → IsSafe db (attempt m d)
  unfolding attempt
  attempt-IsSafe m db d p = returns (Kept-state (m d) p)

  release_open-IsSafe :
      (buyer_id : ℕ) (proof : Proof) (e : Escrow) (db : Db)
      → IsFeeFair env
      → Solvent db
      → find id db.escrows ≡ some e
      → IsSafe db (release_open env id buyer_id proof e db)
  unfolding release_open
  release_open-IsSafe buyer_id proof e db fair s found =
      Post-check (not (status_eq e.status active)) cannot_release _ db (Kept-refl s) λ _.
        Post-then (authorize env buyer_id proof) _ db (authorized env buyer_id proof db s) λ _ d h.
          let k = Kept-of_SameMoney (Kept-refl s) h in
          Post-bind (attempt (execute_release env id e none)) _ d
            (attempt-IsSafe (execute_release env id e none) db d (
              IsSafe-of_Keeps _ k (
                execute_release-Keeps env id e none d fair k.solvent
                  (IsRowOf-of_find id e found h))))
            λ r d' k'. settle_release-IsSafe buyer_id r db d' k'

  -- `release` by anybody, of any escrow.
  pub release-IsSafe :
      (buyer_id : ℕ) (proof : Proof) (db : Db)
      → IsFeeFair env
      → Solvent db
      → IsSafe db (release env id buyer_id proof db)
  unfolding release
  release-IsSafe buyer_id proof db fair s = read-Post id _ db (Kept-refl s) λ e found.
      Post-check (not (is_id buyer_id e.buyer_id)) _ _ db (Kept-refl s) λ _.
        Post-branch (status_eq e.status completed) _ _ db
          (λ _. Post-pure already_released db (Kept-refl s))
          λ _. release_open-IsSafe buyer_id proof e db fair s found
