-- ===== src/Store/Rules.antt =====
-- What an action returns or raises, and in which state: one rule for each way to build an action.
use farm_backend.Prelude.{
  ap, sym, subst, ⊤, ◌≡◌, refl, Bool, true, false, Option, none, some, if◌then◌else◌,
}
use farm_backend.Store.Rows.{Db}
use farm_backend.Store.Effects.{
  Error, Result, ok, err, Action, pure, raise, gets, or_raise, commit, transaction, raise_if,
  rescued, rescue, next, ◌>>=◌, ◌>>◌,
}

-- `Q` holds of what is returned and of the state with it, `E` of the state of an exception.
pub data Post {A : Type 0} (E : Db → Type 0) (Q : A → Db → Type 0) : Result A × Db → Type 0 where
  returns : {a : A} {d : Db} → Q a d → Post E Q (ok a, d)
  raises : {e : Error} {d : Db} → E d → Post E Q (err e, d)

abbrev pub Any : Db → Type 0
Any d = ⊤

module _ {A : Type 0} {E : Db → Type 0} {Q : A → Db → Type 0} where
  pub Post-pure : (a : A) (d : Db) → Q a d → Post E Q (pure a d)
  unfolding pure
  Post-pure a d q = returns q

  pub Post-raise : (e : Error) (d : Db) → E d → Post E Q (raise e d)
  unfolding raise
  Post-raise e d h = raises h

  pub Post-mono :
      {R : A → Db → Type 0} (r : Result A × Db)
      → Post E R r
      → ((a : A) (d : Db) → R a d → Q a d)
      → Post E Q r
  Post-mono r (returns h) f = returns (f _ _ h)
  Post-mono r (raises h) f = raises h

  pub Post-transaction :
      (m : Action A) (d : Db) → E d → Post Any Q (m d) → Post E Q (transaction m d)
  unfolding transaction
  Post-transaction m d h p = go (m d) p
    where
      go : (r : Result A × Db) → Post Any Q r → Post E Q (commit d r)
      go r (returns q) = returns q
      go r (raises _) = raises h

  pub Post-if :
      (c : Bool) (x y : Result A × Db)
      → (c ≡ true → Post E Q x)
      → (c ≡ false → Post E Q y)
      → Post E Q (if c then x else y)
  Post-if true x y hx hy = hx refl
  Post-if false x y hx hy = hy refl

  pub Post-branch :
      (c : Bool) (m n : Action A) (d : Db)
      → (c ≡ true → Post E Q (m d))
      → (c ≡ false → Post E Q (n d))
      → Post E Q ((if c then m else n) d)
  Post-branch true m n d hm hn = hm refl
  Post-branch false m n d hm hn = hn refl

  pub Post-or :
      (e : Error) (o : Option A) (d : Db) → E d → ((a : A) → Q a d) → Post E Q (or_raise e o d)
  unfolding or_raise
  Post-or e none d h k = raises h
  Post-or e (some a) d h k = returns (k a)

module _ {A B : Type 0} {E : Db → Type 0} {Q : B → Db → Type 0} where
  pub Post-next :
      {R : A → Db → Type 0} (f : A → Action B) (r : Result A × Db)
      → Post E R r
      → ((a : A) (d : Db) → R a d → Post E Q (f a d))
      → Post E Q (next f r)
  unfolding next
  Post-next f r (returns h) k = k _ _ h
  Post-next f r (raises h) k = raises h

  pub Post-bind :
      {R : A → Db → Type 0} (m : Action A) (f : A → Action B) (d : Db)
      → Post E R (m d)
      → ((a : A) (d' : Db) → R a d' → Post E Q (f a d'))
      → Post E Q ((m >>= f) d)
  unfolding ◌>>=◌
  Post-bind m f d p k = Post-next f (m d) p k

  pub Post-then :
      {R : A → Db → Type 0} (m : Action A) (k : Action B) (d : Db)
      → Post E R (m d)
      → ((a : A) (d' : Db) → R a d' → Post E Q (k d'))
      → Post E Q ((m >> k) d)
  unfolding ◌>>◌
  Post-then m k d p h = Post-next (λ _. k) (m d) p h

  pub Post-or_raise :
      (e : Error) (o : Option A) (f : A → Action B) (d : Db)
      → E d
      → ((a : A) → o ≡ some a → Post E Q (f a d))
      → Post E Q ((or_raise e o >>= f) d)
  unfolding or_raise ◌>>=◌
  Post-or_raise e none f d h k = raises h
  Post-or_raise e (some a) f d h k = k a refl

  pub Post-gets :
      (g : Db → A) (f : A → Action B) (d : Db) → Post E Q (f (g d) d) → Post E Q ((gets g >>= f) d)
  unfolding gets ◌>>=◌
  Post-gets g f d p = p

module _ {B : Type 0} {E : Db → Type 0} {Q : B → Db → Type 0} where
  pub Post-check :
      (c : Bool) (e : Error) (k : Action B) (d : Db)
      → E d
      → (c ≡ false → Post E Q (k d))
      → Post E Q ((raise_if c e >> k) d)
  unfolding raise_if ◌>>◌
  Post-check true e k d h p = raises h
  Post-check false e k d h p = p refl

-- A check whose exception comes with what it has found.
pub Post-guard :
    {B : Type 0} {E : Db → Type 0} {Q : B → Db → Type 0} (c : Bool) (e : Error) (k : Action B)
    (d : Db)
    → (c ≡ true → E d)
    → (c ≡ false → Post E Q (k d))
    → Post E Q ((raise_if c e >> k) d)
unfolding raise_if ◌>>◌
Post-guard true e k d h p = raises (h refl)
Post-guard false e k d h p = p refl

pub Post-raise_if :
    {E : Db → Type 0} {Q : ⊤ → Db → Type 0} (c : Bool) (e : Error) (d : Db)
    → E d
    → Q tt d
    → Post E Q (raise_if c e d)
unfolding raise_if
Post-raise_if true e d h q = raises h
Post-raise_if false e d h q = returns q

pub Post-nothing : {A : Type 0} (r : Result A × Db) → Post Any (λ _ _. ⊤) r
Post-nothing (ok a, d) = returns tt
Post-nothing (err e, d) = raises tt

pub forget :
    {A : Type 0} {E : Db → Type 0} {Q : A → Db → Type 0} (r : Result A × Db)
    → Post E Q r
    → Post Any Q r
forget r (returns q) = returns q
forget r (raises _) = raises tt

-- A check with which an action ends.
pub Post-last :
    {E : Db → Type 0} {Q : ⊤ → Db → Type 0} (c : Bool) (e : Error) (d : Db)
    → E d
    → (c ≡ false → Q tt d)
    → Post E Q (raise_if c e d)
unfolding raise_if
Post-last true e d h q = raises h
Post-last false e d h q = returns (q refl)

-- An exception that is handled in the state that the action left.
pub Post-recover :
    {A : Type 0} {E F : Db → Type 0} {Q : A → Db → Type 0} (m : Action A) (h : Error → Action A)
    (d : Db)
    → Post F Q (m d)
    → ((e : Error) (d' : Db) → F d' → Post E Q (h e d'))
    → Post E Q (rescue m h d)
unfolding rescue rescued
Post-recover {A} {E} {F} {Q} m h d p k = go (m d) p
  where
    go : (r : Result A × Db) → Post F Q r → Post E Q (rescued h r)
    go r (returns q) = returns q
    go r (raises {e = e} {d = d'} x) = k e d' x

-- An exception that wrote nothing.
pub data Refuses {A : Type 0} (db : Db) : Result A × Db → Type 0 where
  refuses : {e : Error} → Refuses db (err e, db)

pub Refuses-of_Post :
    {A : Type 0} {db : Db} (r : Result A × Db) → Post (λ d. d ≡ db) (λ _ _. ⊥) r → Refuses db r
Refuses-of_Post r (returns h) = absurd h
Refuses-of_Post {A} {db} r (raises {e = e} h) =
    subst (λ d. Refuses {A = A} db (err e, d)) (sym h) refuses

abbrev Returned : {A : Type 0} → (A → Db → Type 0) → Result A × Db → Type 0
Returned Q (ok a, d) = Q a d
Returned Q (err _, d) = ⊤

-- What holds of each return holds of this one.
pub returned :
    {A : Type 0} {Q : A → Db → Type 0} (r : Result A × Db) {a : A} {d : Db}
    → Post Any Q r
    → r ≡ (ok a, d)
    → Q a d
returned {A} {Q} r (returns h) e = subst (Returned Q) e h
returned r (raises h) e = absurd (let f = ap (λ x. x.0) e in cc)
