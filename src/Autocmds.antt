-- ===== src/Autocmds.antt =====
-- The state machines of the autocmds plugin, nvim/rust/plugins/autocmds/src/machines.
pub mod BufferMru
pub mod OilLastBuf
pub mod Wezterm
