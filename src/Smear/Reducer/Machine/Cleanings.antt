-- ===== src/Smear/Reducer/Machine/Cleanings.antt =====
-- Cleanup goes on until it is cold: smear-cursor/src/core/reducer/machine/apply.rs and timers.rs.
use dotfiles_nix.Smear.Payloads.{Payloads}
