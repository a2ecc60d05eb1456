-- ===== src/Team/Access.antt =====
-- `BusinessAccessService.resolve`.
use farm_backend.Prelude.{ℕ, Bool, true, false, not, Option, none, some, ◌&&◌, ◌==◌}
use farm_backend.Prelude.Table.{find, find_first}
use farm_backend.Store.{
  Db, Business, Member, BusinessRole, owner, Action, forbidden, not_found, pure, gets, or_raise,
  raise_if, ◌>>=◌, ◌>>◌,
}
use farm_backend.Team.Permissions.{Permission, can}

pub record Actor : Type 0 where
  pub role : BusinessRole
  pub business_id : ℕ
  pub owner_user_id : ℕ

abbrev pub approved : Option Business → Bool
approved none = false
approved (some b) = b.is_approved

-- `owned`: a user owns at most one business.
unfoldable pub owned_by : ℕ → Db → Option (ℕ × Business)
owned_by user_id db = find_first (λ (b : Business). b.owner_user_id == user_id) db.businesses

-- The first active membership in an approved business; rows are in the order of their creation.
unfoldable pub membership : ℕ → Db → Option (ℕ × Member)
membership user_id db =
    find_first
      (λ (m : Member).
        m.user_id == user_id && m.is_active && approved (find m.business_id db.businesses))
      db.members

abbrev pub actor_in : Option Business → Option (ℕ × Member) → Option Actor
actor_in (some b) (some m) =
    some
      (record { role = m.1.role; business_id = m.1.business_id; owner_user_id = b.owner_user_id })
actor_in _ _ = none

abbrev pub business_of : Option (ℕ × Member) → Db → Option Business
business_of none db = none
business_of (some m) db = find m.1.business_id db.businesses

abbrev pub actor_by : Option (ℕ × Business) → Option Actor → Option Actor
actor_by none other = other
actor_by (some b) other = elim b.1.is_approved [
  | true ↦ some (record { role = owner; business_id = b.0; owner_user_id = b.1.owner_user_id })
  | false ↦ other
]

unfoldable pub actor_of : ℕ → Db → Option Actor
unfolding owned_by membership
actor_of user_id db =
    let m = membership user_id db in actor_by (owned_by user_id db) (actor_in (business_of m db) m)

unfoldable pub resolve : ℕ → Permission → Action Actor
unfolding actor_of
resolve user_id perm = do
  found ← gets (actor_of user_id)
  actor ← or_raise (not_found "No approved business account found") found
  raise_if (not (can actor.role perm)) (forbidden "Your business role does not allow this action")
  pure actor
