-- ===== src/Access.antt =====
-- The rights of a role: the access matrix of common/types/role-access.types.ts and the permission keys
-- of common/auth/role-permissions.ts.
pub mod Keys
pub mod Matrix
pub mod Resolve
pub mod Granted
pub mod Guard
pub mod RoundTrip
pub mod Users
pub mod UserRights
