-- ===== src/Requests/Avoids.antt =====
-- Lists of rows that a sweep does not take up, and rows that differ.
use farm_backend.Prelude.{
  ℕ, zero, suc, ⊤, ◌≡◌, ap, sym, ◌∙◌, Bool, false, not, none, some, [], ◌∷◌, ◌==◌, some_inj, inl,
  inr, Bool-cases, subst, take, ==_iff,
}
use farm_backend.Prelude.Table.{Table, find, HasKeys}
use farm_backend.Store.{MoneyRequest}
use farm_backend.Requests.Service.{is_requested}
use farm_backend.Requests.Close.{rows_where}

-- `i` is not among the ids.
unfoldable pub Avoids : ℕ → Table MoneyRequest → Type 0
Avoids i [] = ⊤
Avoids i ((k, _) ∷ t) = ((k == i) ≡ false) × Avoids i t

pub Avoids-take : (i n : ℕ) (t : Table MoneyRequest) → Avoids i t → Avoids i (take n t)
unfolding Avoids
Avoids-take i zero t h = tt
Avoids-take i (suc n) [] h = tt
Avoids-take i (suc n) (e ∷ t) h = (h.0, Avoids-take i n t h.1)

module _ (i : ℕ) (p : MoneyRequest → Bool) where
  pub Avoids-absent : (t : Table MoneyRequest) → find i t ≡ none → Avoids i (rows_where p t)
  unfolding Avoids rows_where find
  Avoids-absent [] h = tt
  Avoids-absent ((k, v) ∷ t) h = elim (Bool-cases (k == i)) [
    | inl same ↦ absurd (let e = rw same at h in cc)
    | inr other ↦
        let later = Avoids-absent t (rw other at h) in
        elim (Bool-cases (p v)) [
          | inl passes ↦ rw passes (other, later)
          | inr fails ↦ rw fails later
        ]
  ]

  -- A search passes over a row that fails the test.
  pub Avoids-rows_where :
      (r : MoneyRequest) (t : Table MoneyRequest)
      → HasKeys t
      → find i t ≡ some r
      → p r ≡ false
      → Avoids i (rows_where p t)
  unfolding Avoids rows_where find HasKeys
  Avoids-rows_where r [] keys h fails = tt
  Avoids-rows_where r ((k, v) ∷ t) (unseen, keys) h fails = elim (Bool-cases (k == i)) [
    | inl same ↦
        let e : v ≡ r = some_inj (rw same at h) in
        let e' : p v ≡ false = ap p e ∙ fails in
        rw e' (Avoids-absent t (subst (λ k. find k t ≡ none) ((==_iff k i).0 same) unseen))
    | inr other ↦
        let later = Avoids-rows_where r t keys (rw other at h) fails in
        elim (Bool-cases (p v)) [
          | inl passes ↦ rw passes (other, later)
          | inr not_it ↦ rw not_it later
        ]
  ]

-- Two ids whose rows differ in whether they wait for an answer are two.
pub differ :
    (t : Table MoneyRequest) (id i : ℕ) {r x : MoneyRequest}
    → find i t ≡ some r
    → is_requested r.status ≡ false
    → find id t ≡ some x
    → not (is_requested x.status) ≡ false
    → (id == i) ≡ false
differ t id i {r} {x} at settled found waits = elim (Bool-cases (id == i)) [
  | inl same ↦
      let e : x ≡ r = some_inj (sym found ∙ (ap (λ k. find k t) ((==_iff id i).0 same) ∙ at)) in
      let e' : is_requested x.status ≡ false =
        ap (λ (x : MoneyRequest). is_requested x.status) e ∙ settled in
      absurd (let w = rw e' at waits in cc)
  | inr other ↦ other
]
