-- ===== src/Prelude/Table.antt =====
-- A database table as an association list from row ids to rows, in insertion order.
use farm_backend.Prelude.Tests.{⊤, ◌==◌, if◌then◌else◌, Bool-cases, some_inj}
use farm_backend.Prelude.Int.{ℤ, pos, ◌+ℤ◌, int_laws}
use Prim.Native.Nat.{ℕ}
use mathlib.Core.Path.{◌≡◌, refl, ap, subst}
use mathlib.Core.Logic.{◌≢◌, inl, inr}
use mathlib.Core.Bool.{Bool, false}
use mathlib.Core.Option.{Option, none, some}
use mathlib.Core.List.{List, [], ◌∷◌}
use native.Mathlib.Omega.{arith}

abbrev pub Table {ℓ} : Type ℓ → Type ℓ
Table V = List (ℕ × V)

module _ {ℓ} {V : Type ℓ} where
  -- `findUnique({ where: { id } })`
  unfoldable pub find : ℕ → Table V → Option V
  find k [] = none
  find k ((j, v) ∷ t) = if j == k then some v else find k t

  -- `findFirst({ where })`, in insertion order
  unfoldable pub find_first : (V → Bool) → Table V → Option (ℕ × V)
  find_first p [] = none
  find_first p ((j, v) ∷ t) = if p v then some (j, v) else find_first p t

  -- `update({ where: { id }, data })`; a missing row is the caller's error
  unfoldable pub modify : ℕ → (V → V) → Table V → Table V
  modify k f [] = []
  modify k f ((j, v) ∷ t) = if j == k then (j, f v) ∷ t else (j, v) ∷ modify k f t

  -- `create({ data })`
  unfoldable pub insert : ℕ → V → Table V → Table V
  insert k v [] = (k, v) ∷ []
  insert k v (e ∷ t) = e ∷ insert k v t

  unfoldable pub sum_by : (V → ℤ) → Table V → ℤ
  sum_by f [] = pos 0
  sum_by f ((j, v) ∷ t) = f v +ℤ sum_by f t

  abbrev pub map_if : Bool → (V → V) → Option V → Option V
  map_if c f none = none
  map_if c f (some v) = some (if c then f v else v)

  pub find-modify :
      (j k : ℕ) (f : V → V) (t : Table V) → find j (modify k f t) ≡ map_if (k == j) f (find j t)
  unfolding find modify
  find-modify j k f [] = refl
  find-modify j k f ((i, v) ∷ t) = ground (arith, find-modify j k f t)

  pub find-insert_ne : (j k : ℕ) (v : V) (t : Table V) → k ≢ j → find j (insert k v t) ≡ find j t
  unfolding find insert
  find-insert_ne j k v [] h = ground arith
  find-insert_ne j k v ((i, w) ∷ t) h = ground (arith, find-insert_ne j k v t h)

  pub find-insert_self :
      (k : ℕ) (v : V) (t : Table V) → find k t ≡ none → find k (insert k v t) ≡ some v
  unfolding find insert
  find-insert_self k v [] h = ground arith
  find-insert_self k v ((i, w) ∷ t) h = ground (arith, find-insert_self k v t)

  -- Changing one row moves a sum by the change of that row's term.
  pub sum_by-modify :
      (f : V → ℤ) (k : ℕ) (g : V → V) {v : V} (t : Table V)
      → find k t ≡ some v
      → sum_by f (modify k g t) +ℤ f v ≡ sum_by f t +ℤ f (g v)
  unfolding find modify sum_by
  sum_by-modify f k g [] h = cc
  sum_by-modify f k g {v} ((i, w) ∷ t) h = grind (int_laws, sum_by-modify f k g {v = v} t)

  pub sum_by-insert :
      (f : V → ℤ) (k : ℕ) (v : V) (t : Table V) → sum_by f (insert k v t) ≡ sum_by f t +ℤ f v
  unfolding insert sum_by
  sum_by-insert f k v [] = omega int_laws
  sum_by-insert f k v ((i, w) ∷ t) = rw (sum_by-insert f k v t) (omega int_laws)

module _ {V : Type 0} where
  -- No two rows have the same id.
  unfoldable pub HasKeys : Table V → Type 0
  HasKeys [] = ⊤
  HasKeys ((k, v) ∷ t) = (find k t ≡ none) × HasKeys t

  -- What `find_first` answers is the row of that id.
  pub find-find_first :
      (p : V → Bool) (t : Table V) {k : ℕ} {v : V}
      → HasKeys t
      → find_first p t ≡ some (k, v)
      → find k t ≡ some v
  unfolding find find_first HasKeys
  find-find_first p [] keys e = absurd (cc)
  find-find_first p ((j, w) ∷ t) {k} {v} (unseen, keys) e = elim (Bool-cases (p w)) [
    | inl passes ↦
        let same = some_inj (rw passes at e) in
        subst (λ r. find r.0 ((j, w) ∷ t) ≡ some r.1) same (ground arith)
    | inr fails ↦
        let rest = find-find_first p t keys (rw fails at e) in ground (arith, rest, unseen)
  ]

  -- A change of another row that the test does not see.
  pub find_first-modify :
      (p : V → Bool) (j : ℕ) (f : V → V) (t : Table V) {k : ℕ} {v : V}
      → ((x : V) → p (f x) ≡ p x)
      → (j == k) ≡ false
      → find_first p t ≡ some (k, v)
      → find_first p (modify j f t) ≡ some (k, v)
  unfolding find_first modify
  find_first-modify p j f [] blind other e = absurd (cc)
  find_first-modify p j f ((i, w) ∷ t) {k} {v} blind other e = elim (Bool-cases (p w)) [
    | inl passes ↦
        let same = some_inj (rw passes at e) in
        ground (arith, passes, same, ap (λ r. r.0) same, other)
    | inr fails ↦
        let later = rw fails at e in
        let rest = find_first-modify p j f t blind other later in
        ground (arith, rest, fails, blind w, later)
  ]
