-- ===== src/Fees/Cache.antt =====
-- How old the answers of the cached schedule can be.
use farm_backend.Prelude.{
  ℕ, ◌+◌, ◌<◌, ◌≡◌, refl, ◌⊎◌, inl, inr, ⊤, Option, none, some, List, [], ◌∷◌, arith, ltb, ltb→lt,
  Bool-cases,
}
use farm_backend.Fees.Rule.{FeeKey, FeeRule}
use farm_backend.Fees.Schedule.{FeeEnv, FeeRow, Cache, ttl_ms, rule_from, rules, invalidate}

-- What reaches the service: a read of the schedule, at a time and over the table as it is then
-- (`none` where the query throws), or an `invalidate`.
pub data Event : Type 0 where
  read : ℕ → Option (List FeeRow) → Event
  drop : Event

abbrev pub step : FeeEnv → Event → Cache → Cache
step env (read now rows) c = (rules env rows now c).1
step env drop c = invalidate c

-- The cache after a history, whose last event stands first.
unfoldable pub after : FeeEnv → List Event → Cache
after env [] = none
after env (e ∷ es) = step env e (after env es)

abbrev pub Occurs : Event → List Event → Type 0
Occurs e [] = ⊥
Occurs e (x ∷ es) = (x ≡ e) ⊎ Occurs e es

-- What is cached was computed by a read of the history, from the table as it was then.
pub record Snapshot (env : FeeEnv) (es : List Event) (at : ℕ) (rs : FeeKey → FeeRule) : Type 0 where
  pub rows : Option (List FeeRow)
  pub seen : Occurs (read at rows) es
  pub computed : rs ≡ rule_from env rows

abbrev Backed : FeeEnv → List Event → Cache → Type 0
Backed env es none = ⊤
Backed env es (some (at, rs)) = Snapshot env es at rs

older :
    {env : FeeEnv} {es : List Event} {at : ℕ} {rs : FeeKey → FeeRule} (e : Event)
    → Snapshot env es at rs
    → Snapshot env (e ∷ es) at rs
older e s = record { rows = s.rows; seen = inr s.seen; computed = s.computed }

fresh :
    (env : FeeEnv) (es : List Event) (now : ℕ) (rows : Option (List FeeRow))
    → Snapshot env (read now rows ∷ es) now (rule_from env rows)
fresh env es now rows = record { rows = rows; seen = inl refl; computed = refl }

-- One read: what it answers and what it leaves in the cache are of a read that is young enough.
abbrev pub IsYoung : FeeEnv → List Event → ℕ → (FeeKey → FeeRule) → Type 0
IsYoung env es now rs = (at : ℕ) × (now < at + ttl_ms) × Snapshot env es at rs

-- `rules` answers with what the cache holds and still counts as young, or reads the table.
rules_answer :
    (env : FeeEnv) (es : List Event) (now : ℕ) (rows : Option (List FeeRow)) (c : Cache)
    → Backed env es c
    → IsYoung env (read now rows ∷ es) now (rules env rows now c).0
      × Backed env (read now rows ∷ es) (rules env rows now c).1
unfolding rules
rules_answer env es now rows none b =
    ((now, omega arith, fresh env es now rows), fresh env es now rows)
rules_answer env es now rows (some (at, rs)) b = elim (Bool-cases (ltb now (at + ttl_ms))) [
  | inl young ↦
      rw young
        ((at, ltb→lt now (at + ttl_ms) young, older (read now rows) b), older (read now rows) b)
  | inr old ↦ rw old ((now, omega arith, fresh env es now rows), fresh env es now rows)
]

after-Backed : (env : FeeEnv) (es : List Event) → Backed env es (after env es)
unfolding after invalidate
after-Backed env [] = tt
after-Backed env (read now rows ∷ es) =
    (rules_answer env es now rows (after env es) (after-Backed env es)).1
after-Backed env (drop ∷ es) = tt

-- Whatever the history of reads and invalidations, the schedule that a read answers with is the
-- one that is computed from the table as some read of the history, this one included, found it,
-- and that read is less than 30 seconds older.
pub rules_staleness :
    (env : FeeEnv) (es : List Event) (now : ℕ) (rows : Option (List FeeRow))
    → IsYoung env (read now rows ∷ es) now (rules env rows now (after env es)).0
rules_staleness env es now rows =
    (rules_answer env es now rows (after env es) (after-Backed env es)).0
