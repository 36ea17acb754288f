-- ===== src/Store.antt =====
-- packages/db/src/store.ts
pub mod Db
pub mod Monad
pub mod Users
pub mod Update
pub mod NewUser
pub mod Accounts
pub mod Bootstrap
pub mod Frames
pub mod Guards
pub mod Invariant
pub mod Owner
pub mod Unique
pub mod SessionsActive
pub mod Consistent
pub mod Audit
pub mod Settings
pub mod SettingsUpdate
pub mod Tokens
pub mod ProxyInput
pub mod Proxy
pub mod Sessions
pub mod Refine
pub mod RefineInsert
pub mod Steps
pub mod StepsUsers
pub mod StepsProxy
pub mod History
pub mod Refinement
pub mod UpdateLaws
pub mod Failures
pub mod AuditTrail
pub mod Audited
pub mod KeptLog
pub mod AuditedCalls
pub mod BootstrapLaws
pub mod TokenLaws
pub mod MaskedUrl
pub mod AuditList
pub mod LockOut
pub mod ProxyLaws
pub mod SettingsLaws
pub mod Status
