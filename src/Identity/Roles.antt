-- ===== src/Identity/Roles.antt =====
-- Staff roles: `Staff.Roles` of identity/models.py and `StaffRoleHierarchy` of
-- identity/permissions.py.
use vmlc_backend.Prelude.{ℕ, Bool, leb}

-- `Staff.Roles`, and any other string that the column may hold.
pub data Role : Type 0 where
  volunteer sponsor moderator admin manager superadmin unlisted : Role

-- `ROLE_LEVELS.get(user_role, 0)`
abbrev pub user_level : Role → ℕ
user_level Role.volunteer = 1
user_level Role.sponsor = 2
user_level Role.moderator = 3
user_level Role.admin = 4
user_level Role.manager = 5
user_level Role.superadmin = 6
user_level Role.unlisted = 0

-- `ROLE_LEVELS.get(minimum_role, 999)`
abbrev pub min_level : Role → ℕ
min_level Role.unlisted = 999
min_level r = user_level r

-- `has_minimum_role`
unfoldable pub has_minimum_role : Role → Role → Bool
has_minimum_role user_role minimum_role = leb (min_level minimum_role) (user_level user_role)
