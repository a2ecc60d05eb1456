-- ===== src/Team/Permissions.antt =====
-- src/business-ops/permissions.ts.
use farm_backend.Prelude.{Bool, true, false, List, [], ◌∷◌, any}
use farm_backend.Store.{BusinessRole, owner, admin, finance, accountant, operations, developer}

pub data Permission : Type 0 where
  dashboard_read wallet_read team_read team_manage transactions_read : Permission
  customers_read customers_manage invoices_read invoices_manage : Permission
  links_read links_manage payouts_read payouts_create escrow_read escrow_manage : Permission
  analytics_read profile_read profile_manage developers_read developers_manage : Permission
  projects_read projects_manage : Permission

unfoldable pub role_eq : BusinessRole → BusinessRole → Bool
role_eq owner owner = true
role_eq admin admin = true
role_eq finance finance = true
role_eq accountant accountant = true
role_eq operations operations = true
role_eq developer developer = true
role_eq _ _ = false

abbrev pub all_roles : List BusinessRole
all_roles = owner ∷ admin ∷ finance ∷ accountant ∷ operations ∷ developer ∷ []

-- `PERMISSION_MATRIX`
unfoldable pub permission_matrix : Permission → List BusinessRole
permission_matrix dashboard_read = all_roles
permission_matrix wallet_read = owner ∷ admin ∷ finance ∷ accountant ∷ []
permission_matrix team_read = all_roles
permission_matrix team_manage = owner ∷ admin ∷ []
permission_matrix transactions_read = owner ∷ admin ∷ finance ∷ accountant ∷ operations ∷ []
permission_matrix customers_read = owner ∷ admin ∷ finance ∷ accountant ∷ operations ∷ []
permission_matrix customers_manage = owner ∷ admin ∷ finance ∷ operations ∷ []
permission_matrix invoices_read = owner ∷ admin ∷ finance ∷ accountant ∷ operations ∷ []
permission_matrix invoices_manage = owner ∷ admin ∷ finance ∷ []
permission_matrix links_read = all_roles
permission_matrix links_manage = owner ∷ admin ∷ finance ∷ operations ∷ []
permission_matrix payouts_read = owner ∷ admin ∷ finance ∷ accountant ∷ []
permission_matrix payouts_create = owner ∷ finance ∷ []
permission_matrix escrow_read = owner ∷ admin ∷ finance ∷ operations ∷ []
permission_matrix escrow_manage = owner ∷ admin ∷ operations ∷ []
permission_matrix analytics_read = owner ∷ admin ∷ finance ∷ accountant ∷ []
permission_matrix profile_read = all_roles
permission_matrix profile_manage = owner ∷ admin ∷ []
permission_matrix developers_read = owner ∷ admin ∷ developer ∷ []
permission_matrix developers_manage = owner ∷ admin ∷ developer ∷ []
permission_matrix projects_read = owner ∷ admin ∷ finance ∷ accountant ∷ operations ∷ []
permission_matrix projects_manage = owner ∷ admin ∷ []

unfoldable pub can : BusinessRole → Permission → Bool
unfolding role_eq permission_matrix
can role perm = any (role_eq role) (permission_matrix perm)

-- `assignableRoles`
unfoldable pub assignable_roles : BusinessRole → List BusinessRole
assignable_roles owner = admin ∷ finance ∷ accountant ∷ operations ∷ developer ∷ []
assignable_roles admin = finance ∷ accountant ∷ operations ∷ developer ∷ []
assignable_roles _ = []

-- The test of `assertAssignable`
unfoldable pub is_assignable : BusinessRole → BusinessRole → Bool
unfolding role_eq assignable_roles
is_assignable actor role = any (role_eq role) (assignable_roles actor)
