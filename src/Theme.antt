-- ===== src/Theme.antt =====
-- The theme switcher: nvim/rust/plugins/theme-switcher/src/core.
pub mod Catalog
pub mod Lookup
pub mod Cycle
pub mod Picker
pub mod Session
