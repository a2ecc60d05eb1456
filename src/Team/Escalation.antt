-- ===== src/Team/Escalation.antt =====
-- Who can make or unmake the admins of a team.
use farm_backend.Prelude.{
  ℕ, ⊤, ◌≡◌, refl, ap, sym, ◌∙◌, Bool, true, false, not, Option, none, some, ◌==◌, ◌&&◌, inl, inr,
  Bool-cases, ==_iff, arith,
}
use farm_backend.Prelude.Text.{Text, trim}
use farm_backend.Prelude.Table.{
  find, modify, insert, find-modify, find-insert_ne, find-insert_self, map_if, HasKeys,
  find-find_first,
}
use farm_backend.Auth.{Bcrypt, verify_pin}
use farm_backend.Auth.Harmless.{IsHarmless, verify_pin-IsHarmless}
use farm_backend.Store.{Db, Member, BusinessRole, owner, admin, Result, Action, ◌>>=◌, ◌>>◌}
use farm_backend.Store.Rules.{
  Post, returns, raises, Post-bind, Post-then, Post-gets, Post-or_raise, Post-pure, Post-check,
}
use farm_backend.Store.Ledger.{SameMoney-refl}
use farm_backend.Team.Permissions.{role_eq, assignable_roles, is_assignable, team_manage}
use farm_backend.Team.Access.{Actor, actor_of, resolve}
use farm_backend.Team.Members.{
  write_member, update_member, create_member, target_of, row_of, rejoined, with_role, left, enrol,
  add, member_of, update, remove,
}

abbrev pub is_owner : BusinessRole → Bool
is_owner owner = true
is_owner _ = false

-- A role that manages the team.
abbrev pub leads : BusinessRole → Bool
leads owner = true
leads admin = true
leads _ = false

abbrev pub active_lead : Option Member → Bool
active_lead none = false
active_lead (some m) = m.is_active && leads m.role

-- Whether row `k` is an active admin or owner.
abbrev pub leads_at : ℕ → Db → Bool
leads_at k db = active_lead (find k db.members)

-- No row has become an active admin, and none has ceased to be one.
pub record SameLeads (db d : Db) : Type 0 where
  pub same : (k : ℕ) → leads_at k d ≡ leads_at k db

abbrev KeepsLeads : {A : Type 0} → Db → Result A × Db → Type 0
KeepsLeads {A} db r = Post {A = A} (SameLeads db) (λ _. SameLeads db) r

-- Who is no owner assigns no role that manages the team.
assigns_no_lead :
    (actor role : BusinessRole)
    → is_owner actor ≡ false
    → not (is_assignable actor role) ≡ false
    → leads role ≡ false
unfolding is_assignable role_eq assignable_roles
assigns_no_lead actor role h k = ground (arith, h, k)

SameLeads-refl : (db : Db) → SameLeads db db
SameLeads-refl db = record { same = λ k. refl }

SameLeads-eq : {db d : Db} → d.members ≡ db.members → SameLeads db d
SameLeads-eq h = record { same = λ k. ap (λ ms. active_lead (find k ms)) h }

-- A write to a row that is no active lead before and none after.
wrote_member :
    (k : ℕ) (f : Member → Member) (m : Member) {db : Db} (d : Db)
    → d.members ≡ db.members
    → find k db.members ≡ some m
    → active_lead (some m) ≡ false
    → active_lead (some (f m)) ≡ false
    → KeepsLeads db (update_member k f d)
unfolding update_member write_member
wrote_member k f m {db} d same found before after = go (find k d.members)
  where
    unchanged : (o : Option Member) → active_lead (map_if false f o) ≡ active_lead o
    unchanged none = refl
    unchanged (some m) = refl

    changed : (j : ℕ) → active_lead (find j (modify k f db.members)) ≡ leads_at j db
    changed j = elim (Bool-cases (k == j)) [
      | inl eq ↦
          let here = ap (λ i. find i db.members) (sym ((==_iff k j).0 eq)) ∙ found in
          rw (find-modify j k f db.members, here, eq) (after ∙ sym before)
      | inr other ↦ rw (find-modify j k f db.members, other) (unchanged (find j db.members))
    ]

    go : (o : Option Member) → KeepsLeads db (write_member k f o d)
    go none = raises (SameLeads-eq same)
    go (some _) =
        returns
          (record { same = λ j. ap (λ ms. active_lead (find j (modify k f ms))) same ∙ changed j })

-- A new row that is no lead.
made_member :
    (k : ℕ) (m : Member) {db : Db} (d : Db)
    → d.members ≡ db.members
    → find k db.members ≡ none
    → active_lead (some m) ≡ false
    → KeepsLeads db (create_member k m d)
unfolding create_member
made_member k m {db} d same fresh after =
    returns
      (record { same = λ j. ap (λ ms. active_lead (find j (insert k m ms))) same ∙ changed j })
  where
    changed : (j : ℕ) → active_lead (find j (insert k m db.members)) ≡ leads_at j db
    changed j = elim (Bool-cases (k == j)) [
      | inl eq ↦ rw⁻¹ ((==_iff k j).0 eq) (rw (find-insert_self k m db.members fresh, fresh) after)
      | inr other ↦
          ap active_lead
            (find-insert_ne j k m db.members (λ e. let yes = (==_iff k j).1 e in absurd (cc)))
    ]

module _ (b : Bcrypt) (user_id : ℕ) (db : Db)
    (no_owner : (a : Actor) → actor_of user_id db ≡ some a → is_owner a.role ≡ false) where
  resolved :
      {B : Type 0} (k : Actor → Action B)
      → ((a : Actor) → is_owner a.role ≡ false → KeepsLeads db (k a db))
      → KeepsLeads db ((resolve user_id team_manage >>= k) db)
  unfolding resolve
  resolved k next =
      Post-bind {R = λ a d. (is_owner a.role ≡ false) × (d ≡ db)} _ k db
        (Post-gets (actor_of user_id) _ db (
          Post-or_raise _ (actor_of user_id db) _ db (SameLeads-refl db) λ a found.
            Post-check _ _ _ db (SameLeads-refl db) λ _. Post-pure a db (no_owner a found, refl)))
        λ a d (h, same). rw same (next a h)

  -- The PIN of the member who acts is checked, then the rest runs.
  after_pin :
      (pin : Text) (k : Action ⊤)
      → ((d : Db) → d.members ≡ db.members → KeepsLeads db (k d))
      → KeepsLeads db ((verify_pin b user_id pin >> k) db)
  after_pin pin k next =
      Post-then (verify_pin b user_id pin) k db
        (harmless (verify_pin b user_id pin db)
          (verify_pin-IsHarmless b user_id pin db (SameMoney-refl db)))
        λ _ d same. next d same
    where
      harmless :
          (r : Result ⊤ × Db)
          → IsHarmless db r
          → Post (SameLeads db) (λ _ d. d.members ≡ db.members) r
      harmless r (returns h) = returns h.members
      harmless r (raises h) = raises (SameLeads-eq h.members)

  found_member :
      {B : Type 0} (business_id k : ℕ) (f : Member → Action B)
      → ((m : Member) → find k db.members ≡ some m → KeepsLeads db (f m db))
      → KeepsLeads db ((member_of business_id k >>= f) db)
  unfolding member_of
  found_member business_id k f next =
      Post-bind {R = λ m d. (find k db.members ≡ some m) × (d ≡ db)} _ f db
        (Post-gets (λ d. find k d.members) _ db
          (Post-or_raise _ (find k db.members) _ db (SameLeads-refl db)
            λ m found. Post-check _ _ _ db (SameLeads-refl db) λ _. Post-pure m db (found, refl)))
        λ m d (found, same). rw same (next m found)

  enrol_keeps :
      (new_id by business_id target : ℕ) (role : BusinessRole) (d : Db) (o : Option (ℕ × Member))
      → d.members ≡ db.members
      → HasKeys db.members
      → find new_id db.members ≡ none
      → leads role ≡ false
      → row_of business_id target d ≡ o
      → KeepsLeads db (enrol new_id by business_id target role o d)
  unfolding enrol row_of
  enrol_keeps new_id by business_id target role d none same keys fresh low e =
      made_member new_id _ d same fresh low
  enrol_keeps new_id by business_id target role d (some (k, m)) same keys fresh low e =
      Post-check m.is_active _ _ d (SameLeads-eq same) λ inactive.
        wrote_member k (rejoined by role) m d same
          (find-find_first _ db.members keys (rw same at e)) (rw inactive refl) low

  add_keeps :
      (new_id : ℕ) (identifier : Text) (role : BusinessRole) (pin : Text)
      → HasKeys db.members
      → find new_id db.members ≡ none
      → KeepsLeads db (add b new_id user_id identifier role pin db)
  unfolding add
  add_keeps new_id identifier role pin keys fresh = resolved _ λ a low.
      Post-check _ _ _ db (SameLeads-refl db) λ may. after_pin pin _ λ d same.
        let k = SameLeads-eq same in
        Post-gets (target_of (trim identifier)) _ d (
          Post-or_raise _ (target_of (trim identifier) d) _ d k λ target _.
            Post-check _ _ _ d k λ _. Post-gets (row_of a.business_id target.0) _ d (
              enrol_keeps new_id user_id a.business_id target.0 role d
                (row_of a.business_id target.0 d) same keys fresh
                (assigns_no_lead a.role role low may) refl))

  -- A member below the leads stays below them under a role below them.
  still_low :
      (m : Member) (role : BusinessRole)
      → leads role ≡ false
      → active_lead (some (with_role role m)) ≡ false
  still_low m role low = ground (arith, low)

  low_row : (m : Member) → leads m.role ≡ false → active_lead (some m) ≡ false
  low_row m low = ground (arith, low)

  update_keeps :
      (member_id : ℕ) (role : BusinessRole) (pin : Text)
      → KeepsLeads db (update b user_id member_id role pin db)
  unfolding update
  update_keeps member_id role pin = resolved _ λ a low.
      found_member a.business_id member_id _ λ m found.
        Post-check _ _ _ db (SameLeads-refl db) λ may_old.
          Post-check _ _ _ db (SameLeads-refl db) λ may_new.
            Post-check _ _ _ db (SameLeads-refl db) λ _. after_pin pin _ λ d same.
              wrote_member member_id (with_role role) m d same found
                (low_row m (assigns_no_lead a.role m.role low may_old))
                (still_low m role (assigns_no_lead a.role role low may_new))

  remove_keeps : (member_id : ℕ) (pin : Text) → KeepsLeads db (remove b user_id member_id pin db)
  unfolding remove
  remove_keeps member_id pin = resolved _ λ a low. found_member a.business_id member_id _ λ m found.
      Post-check _ _ _ db (SameLeads-refl db) λ _. Post-check _ _ _ db (SameLeads-refl db) λ may.
        after_pin pin _ λ d same.
          wrote_member member_id left m d same found
            (low_row m (assigns_no_lead a.role m.role low may)) refl

after_call : {A : Type 0} {db : Db} (r : Result A × Db) → KeepsLeads db r → SameLeads db r.1
after_call r (returns h) = h
after_call r (raises h) = h

-- What a user asks of the team.
pub data Request : Type 0 where
  add_request : (new_id : ℕ) → (identifier : Text) → BusinessRole → Request
  update_request : (member_id : ℕ) → BusinessRole → Request
  remove_request : (member_id : ℕ) → Request

unfoldable pub serve_team : Bcrypt → ℕ → Text → Request → Action ⊤
serve_team b user_id pin (add_request new_id identifier role) =
    add b new_id user_id identifier role pin
serve_team b user_id pin (update_request member_id role) = update b user_id member_id role pin
serve_team b user_id pin (remove_request member_id) = remove b user_id member_id pin

abbrev pub IsUnused : Request → Db → Type 0
IsUnused (add_request new_id identifier role) db = find new_id db.members ≡ none
IsUnused _ db = ⊤

-- Take a user who does not act as the owner of a business, tables in which no two members' rows
-- have the same id, and an unused id for a new member's row. Whatever the user asks of the team,
-- adding a member, changing a role or removing a member, and whether it succeeds or fails, each
-- row is an active admin's or owner's afterwards just if it was before.
pub only_owners_make_admins :
    (b : Bcrypt) (user_id : ℕ) (pin : Text) (r : Request) (db : Db) (k : ℕ)
    → ((a : Actor) → actor_of user_id db ≡ some a → is_owner a.role ≡ false)
    → HasKeys db.members
    → IsUnused r db
    → leads_at k (serve_team b user_id pin r db).1 ≡ leads_at k db
unfolding serve_team
only_owners_make_admins b user_id pin (add_request new_id identifier role) db k no_owner keys
      fresh =
    (after_call _ (add_keeps b user_id db no_owner new_id identifier role pin keys fresh)).same k
only_owners_make_admins b user_id pin (update_request member_id role) db k no_owner keys fresh =
    (after_call _ (update_keeps b user_id db no_owner member_id role pin)).same k
only_owners_make_admins b user_id pin (remove_request member_id) db k no_owner keys fresh =
    (after_call _ (remove_keeps b user_id db no_owner member_id pin)).same k
