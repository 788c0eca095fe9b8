-- ===== src/Identity/Permissions/Hierarchy.antt =====
-- The order of the staff roles.
use vmlc_backend.Prelude.{◌≤◌, ◌≡◌, Bool, true, false, arith, inl, inr, Option-cases}
use vmlc_backend.Identity.Roles.{Role, user_level, min_level, has_minimum_role}
use vmlc_backend.Identity.Permissions.{
  Request, is_active_staff, has_minimum_staff_role, active_permissions,
}

level_le : (m : Role) → user_level m ≤ min_level m
level_le Role.volunteer = omega arith
level_le Role.sponsor = omega arith
level_le Role.moderator = omega arith
level_le Role.admin = omega arith
level_le Role.manager = omega arith
level_le Role.superadmin = omega arith
level_le Role.unlisted = omega arith

-- Who has a role that is enough for a second role, has enough for whatever that role is enough for.
pub has_minimum_role_trans :
    (a b c : Role)
    → has_minimum_role a b ≡ true
    → has_minimum_role b c ≡ true
    → has_minimum_role a c ≡ true
unfolding has_minimum_role
has_minimum_role_trans a b c h k = ground (arith, level_le b)

-- A request that passes the permissions for a role passes those for every role that this role is
-- enough for; and a deactivated member passes none, whatever the role, outside of debug mode.
pub active_permissions_mono :
    (debug : Bool) (m m' : Role) (r : Request)
    → has_minimum_role m' m ≡ true
    → active_permissions debug m' r ≡ true
    → (active_permissions debug m r ≡ true) × (is_active_staff false r ≡ false → debug ≡ true)
unfolding active_permissions has_minimum_staff_role is_active_staff
active_permissions_mono debug m m' r h k = elim (Option-cases r.staff_profile) [
  | inl e ↦ absurd (ground arith)
  | inr (s, e) ↦
      let role = has_minimum_role_trans s.role m' m in (ground (arith, role), λ z. ground arith)
]
