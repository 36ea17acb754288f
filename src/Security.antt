-- ===== src/Security.antt =====
-- packages/security/src/index.ts: text checks, normalisation and the masking of secrets.
pub mod Platform
pub mod Texts
pub mod Validate
pub mod Json
pub mod Mask
pub mod MaskLaws
pub mod JsonLaws
