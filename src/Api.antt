-- ===== src/Api.antt =====
-- apps/api/src/app.ts and apps/api/src/auth.ts: the login throttle, and what stands in front of the
-- handlers.
pub mod Throttle
pub mod Headers
pub mod Login
pub mod Session
pub mod Access
pub mod Routes
pub mod Attempts
pub mod ThrottleLaws
pub mod LoginLaws
pub mod AccessLaws
pub mod RouteLaws
pub mod PermissionLaws
pub mod Subscription
pub mod SubscriptionLaws
pub mod Inputs
pub mod Caddyfile
pub mod Boundary
pub mod Replies
pub mod Handlers
pub mod ProxyHandlers
pub mod Requests
pub mod Setup
pub mod Events
pub mod Reached
pub mod ReachedHandlers
pub mod EventLaws
pub mod Yields
pub mod SecretLaws
pub mod PasswordLaws
pub mod RenderLaws
pub mod BuildLaws
pub mod Actions
