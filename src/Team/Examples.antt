-- ===== src/Team/Examples.antt =====
-- Tests and an example of the team.
use farm_backend.Prelude.{ℕ, ◌≡◌, refl, ap, sym, true, false, some, [], ◌∷◌, some_inj}
use farm_backend.Prelude.Text.{codes}
use farm_backend.Prelude.Table.{find, find_first, HasKeys}
use farm_backend.Store.{Db, Member, BusinessRole, admin, finance}
use farm_backend.Team.Permissions.{can, role_eq, permission_matrix, payouts_create}
use farm_backend.Team.Access.{Actor, owned_by, membership, actor_of}
use farm_backend.Team.Escalation.{
  is_owner, leads_at, update_request, serve_team, only_owners_make_admins,
}
use farm_backend.Fixture.{market, plain_bcrypt}

abbrev member : ℕ → BusinessRole → Member
member user_id role = record {
  business_id = 1;
  user_id = user_id;
  role = role;
  is_active = true;
  invited_by = some 1;
}

-- The firm of user 1, with user 2 as an admin and user 3 in finance.
abbrev firm : Db
firm = record market {
  businesses = (1, record { owner_user_id = 1; is_approved = true }) ∷ [];
  members = (1, member 2 admin) ∷ (2, member 3 finance) ∷ [];
}

admins_pay_nothing_out : can admin payouts_create ≡ false
unfolding can role_eq permission_matrix
admins_pay_nothing_out = refl

no_owner : (a : Actor) → actor_of 2 firm ≡ some a → is_owner a.role ≡ false
unfolding actor_of owned_by membership find find_first
no_owner a found = ap (λ (a : Actor). is_owner a.role) (sym (some_inj found))

firm-HasKeys : HasKeys firm.members
unfolding HasKeys find
firm-HasKeys = (refl, (refl, tt))

only_owners_make_admins_example :
    leads_at 2 (serve_team plain_bcrypt 2 (codes "1234") (update_request 2 admin) firm).1
    ≡ leads_at 2 firm
only_owners_make_admins_example =
    only_owners_make_admins plain_bcrypt 2 (codes "1234") (update_request 2 admin) firm 2 no_owner
      firm-HasKeys tt
