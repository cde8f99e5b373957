-- ===== src/Config.antt =====
-- internal/config/config.go: the configuration.
pub mod Types
pub mod Environment
pub mod DotEnv
pub mod Overrides
pub mod Load
