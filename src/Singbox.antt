-- ===== src/Singbox.antt =====
-- singbox-core/src: the command line that renders the proxy's configuration and supervises it.
pub mod Argv
pub mod Migrate
pub mod MigrateLaws
pub mod ModernLaws
pub mod ArgvLaws
pub mod Supervise
pub mod SuperviseLaws
pub mod Overlap
pub mod Boot
