-- ===== src/Identity.antt =====
-- The identity app: identity/models.py, identity/permissions.py and core/utils/auth.py.
pub mod Roles
pub mod Otp
pub mod Permissions
