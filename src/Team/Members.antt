-- ===== src/Team/Members.antt =====
-- `BusinessTeamService.add`, `update` and `remove`.
use farm_backend.Prelude.{ℕ, ⊤, Bool, true, false, not, Option, none, some, ◌&&◌, ◌||◌, ◌==◌}
use farm_backend.Prelude.Text.{Text, text_eq, trim}
use farm_backend.Prelude.Table
use farm_backend.Prelude.Table.{Table, find, find_first, modify}
use farm_backend.Auth.{Bcrypt, verify_pin}
use farm_backend.Store.{
  Db, User, Member, BusinessRole, Action, bad_request, forbidden, not_found, conflict, no_record,
  ok, err, pure, gets, or_raise, raise_if, ◌>>=◌, ◌>>◌,
}
use farm_backend.Team.Permissions.{team_manage, is_assignable}
use farm_backend.Team.Access.{resolve}

unfoldable pub write_member : ℕ → (Member → Member) → Option Member → Action ⊤
write_member k f none db = (err no_record, db)
write_member k f (some m) db = (ok tt, record db { members = modify k f db.members })

-- `business_members.update`
unfoldable pub update_member : ℕ → (Member → Member) → Action ⊤
unfolding write_member
update_member k f db = write_member k f (find k db.members) db

unfoldable pub create_member : ℕ → Member → Action ⊤
create_member k m db = (ok tt, record db { members = Table.insert k m db.members })

abbrev pub assert_assignable : BusinessRole → BusinessRole → Action ⊤
assert_assignable actor role =
    raise_if (not (is_assignable actor role)) (forbidden "Your role cannot manage these members")

abbrev pub email_eq : Text → Option Text → Bool
email_eq ident none = false
email_eq ident (some e) = text_eq e ident

unfoldable pub target_of : Text → Db → Option (ℕ × User)
target_of ident db =
    find_first
      (λ (u : User).
        (text_eq u.username ident || text_eq u.phone ident || email_eq ident u.email)
        && not u.is_deleted
        && u.is_active)
      db.users

unfoldable pub row_of : ℕ → ℕ → Db → Option (ℕ × Member)
row_of business_id user_id db =
    find_first (λ (m : Member). m.business_id == business_id && m.user_id == user_id) db.members

abbrev pub rejoined : ℕ → BusinessRole → Member → Member
rejoined by role m = record m { is_active = true; role = role; invited_by = some by }

abbrev pub with_role : BusinessRole → Member → Member
with_role role m = record m { role = role }

abbrev pub left : Member → Member
left m = record m { is_active = false }

-- The end of `add`, on the row of the same user in the same team, if there is one.
unfoldable pub enrol : ℕ → ℕ → ℕ → ℕ → BusinessRole → Option (ℕ × Member) → Action ⊤
enrol new_id by business_id target role none = create_member new_id (record {
  business_id = business_id;
  user_id = target;
  role = role;
  is_active = true;
  invited_by = some by;
})
enrol new_id by business_id target role (some row) = do
  raise_if row.1.is_active (conflict "This user is already a team member")
  update_member row.0 (rejoined by role)

unfoldable pub add : Bcrypt → ℕ → ℕ → Text → BusinessRole → Text → Action ⊤
unfolding enrol target_of row_of
add b new_id user_id identifier role pin = do
  a ← resolve user_id team_manage
  assert_assignable a.role role
  verify_pin b user_id pin
  found ← gets (target_of (trim identifier))
  target ← or_raise (not_found "No Farm user found with that username, phone or email") found
  raise_if (target.0 == a.owner_user_id) (bad_request "The owner is already on the team")
  existing ← gets (row_of a.business_id target.0)
  enrol new_id user_id a.business_id target.0 role existing

-- `memberOf`
unfoldable pub member_of : ℕ → ℕ → Action Member
member_of business_id member_id = do
  found ← gets (λ db. find member_id db.members)
  m ← or_raise (not_found "Team member not found") found
  raise_if (not (m.business_id == business_id && m.is_active)) (not_found "Team member not found")
  pure m

unfoldable pub update : Bcrypt → ℕ → ℕ → BusinessRole → Text → Action ⊤
unfolding member_of
update b user_id member_id role pin = do
  a ← resolve user_id team_manage
  m ← member_of a.business_id member_id
  assert_assignable a.role m.role
  assert_assignable a.role role
  raise_if (m.user_id == user_id) (forbidden "You cannot change your own role")
  verify_pin b user_id pin
  update_member member_id (with_role role)

unfoldable pub remove : Bcrypt → ℕ → ℕ → Text → Action ⊤
unfolding member_of
remove b user_id member_id pin = do
  a ← resolve user_id team_manage
  m ← member_of a.business_id member_id
  raise_if (m.user_id == user_id) (forbidden "You cannot remove yourself")
  assert_assignable a.role m.role
  verify_pin b user_id pin
  update_member member_id left
