-- ===== src/Shared.antt =====
-- packages/shared/src/index.ts: roles, statuses, permissions and who may manage whom.
pub mod Roles
pub mod Laws
