-- ===== src/Config.antt =====
-- internal/config: the settings, their file and the store.
pub mod Base64
pub mod Settings
pub mod File
pub mod Store
pub mod Atomic
pub mod Restart
pub mod Paths
pub mod Replace
pub use Settings.*
