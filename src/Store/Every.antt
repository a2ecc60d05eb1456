-- ===== src/Store/Every.antt =====
-- A property of every row of a table, and what changes of the table keep it.
use farm_backend.Prelude.{
  ℕ, ⊤, ◌≡◌, refl, Bool, some, [], ◌∷◌, ◌==◌, inl, inr, Bool-cases, some_inj, subst,
}
use farm_backend.Prelude.Table.{Table, find, modify, insert}
use farm_backend.Store.Fields.{map_where}

module _ {V : Type 0} (P : V → Type 0) where
  unfoldable pub Every : Table V → Type 0
  Every [] = ⊤
  Every ((k, v) ∷ t) = P v × Every t

  pub Every-find : (k : ℕ) (t : Table V) {v : V} → Every t → find k t ≡ some v → P v
  unfolding Every find
  Every-find k [] h e = absurd (cc)
  Every-find k ((j, x) ∷ t) {v} h e = elim (Bool-cases (j == k)) [
    | inl same ↦ subst P (some_inj (rw same at e)) h.0
    | inr other ↦ Every-find k t h.1 (rw other at e)
  ]

  pub Every-modify :
      (k : ℕ) (f : V → V) (t : Table V)
      → Every t
      → ((x : V) → find k t ≡ some x → P (f x))
      → Every (modify k f t)
  unfolding Every modify find
  Every-modify k f [] h step = tt
  Every-modify k f ((j, x) ∷ t) h step = elim (Bool-cases (j == k)) [
    | inl same ↦ let here = rw same at step in rw same (here x refl, h.1)
    | inr other ↦ let later = rw other at step in rw other (h.0, Every-modify k f t h.1 later)
  ]

  pub Every-insert : (k : ℕ) (v : V) (t : Table V) → Every t → P v → Every (insert k v t)
  unfolding Every insert
  Every-insert k v [] h p = (p, tt)
  Every-insert k v (e ∷ t) h p = (h.0, Every-insert k v t h.1 p)

  pub Every-map_where :
      (p : V → Bool) (f : V → V) (t : Table V)
      → Every t
      → ((x : V) → P x → P (f x))
      → Every (map_where p f t)
  unfolding Every map_where
  Every-map_where p f [] h step = tt
  Every-map_where p f ((j, x) ∷ t) h step = elim (Bool-cases (p x)) [
    | inl passes ↦ rw passes (step x h.0, Every-map_where p f t h.1 step)
    | inr fails ↦ rw fails (h.0, Every-map_where p f t h.1 step)
  ]
