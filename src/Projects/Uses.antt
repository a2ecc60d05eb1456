-- ===== src/Projects/Uses.antt =====
-- No project pays out more than its own reserve.
use farm_backend.Prelude.{ℕ, ◌+◌, ◌≤◌, ◌≡◌, sym, some, subst}
use farm_backend.Prelude.Text.{Text}
use farm_backend.Prelude.Table.{find}
use farm_backend.Store.{Db, Project, transaction}
use farm_backend.Store.Rules.{Post-transaction, forget}
use farm_backend.Store.Side.{last}
use farm_backend.Store.Every.{Every, Every-find}
use farm_backend.Escrow.Env.{Env}
use farm_backend.Projects.Reserve.{close_round, pay_from_reserve}
use farm_backend.Projects.Loss.{refund_for_loss, release_to_farm}
use farm_backend.Projects.Kept.{
  IsReserved, Reserved, close_round-KeepsReserve, pay-KeepsReserve, refund_for_loss-KeepsReserve,
  release_to_farm-KeepsReserve,
}

-- One use of a reserve; or code that leaves the projects' reserves alone.
pub data Use (d : Db) : Db → Type 0 where
  closing : (env : Env) (id : ℕ) → Use d (close_round env id d).1
  losing : (env : Env) (id : ℕ) (notes : Text) → Use d (refund_for_loss env id notes d).1
  completing : (env : Env) (id : ℕ) (notes : Text) → Use d (release_to_farm env id notes d).1
  paying_back : (id amount txn : ℕ) → Use d (transaction (pay_from_reserve id amount txn) d).1
  unrelated : {d' : Db} → d'.projects ≡ d.projects → Use d d'

pub data Uses (start : Db) : Db → Type 0 where
  unused : Uses start start
  then_use : {d d' : Db} → Uses start d → Use d d' → Uses start d'

Use-Reserved : (d d' : Db) → Use d d' → Reserved d → Reserved d'
Use-Reserved d d' (closing env id) h = last _ (close_round-KeepsReserve env id d h)
Use-Reserved d d' (losing env id notes) h = last _ (refund_for_loss-KeepsReserve env id notes d h)
Use-Reserved d d' (completing env id notes) h =
    last _ (release_to_farm-KeepsReserve env id notes d h)
Use-Reserved d d' (paying_back id amount txn) h = last _ (
    Post-transaction (pay_from_reserve id amount txn) d h
      (forget _ (pay-KeepsReserve id amount txn d h)))
Use-Reserved d d' (unrelated same) h = subst (Every IsReserved) (sym same) h

Uses-Reserved : (start db : Db) → Uses start db → Reserved start → Reserved db
Uses-Reserved start db unused h = h
Uses-Reserved start db (then_use {d = d} before use_) h =
    Use-Reserved d db use_ (Uses-Reserved start d before h)

-- Start from projects that have paid out and released at most their consolidation fee, which is
-- zero where it is not yet charged. Whatever closings of rounds, refunds for a loss, releases to
-- FARM and payments out of a reserve then follow, in any order, returning or raising, with code in
-- between that leaves the projects alone, no project pays out and releases more than its own fee.
pub reserve_never_overspent :
    (start db : Db) (id : ℕ) (p : Project)
    → Reserved start
    → Uses start db
    → find id db.projects ≡ some p
    → p.consolidation_refunded + p.consolidation_released ≤ p.consolidation_fee
reserve_never_overspent start db id p h uses found =
    (Every-find IsReserved id db.projects (Uses-Reserved start db uses h) found).within
