-- ===== src/Smear/Policy.antt =====
-- Policies of the reducer's ingress and recovery: `BufferPerfClass`, `RecoveryPolicyState` and
-- `IngressPolicyState` of smear-cursor/src/core/state/policy.rs. Times are milliseconds.
pub mod Laws
use dotfiles_nix.Base.{ℕ, Bool, true, false, Option, none, some, ltb, if◌then◌else◌}

pub data BufferPerfClass : Type 0 where
  full fast_motion skip : BufferPerfClass

unfoldable pub keeps_ornamental_effects : BufferPerfClass → Bool
keeps_ornamental_effects full = true
keeps_ornamental_effects _ = false

pub record RecoveryPolicyState : Type 0 where
  pub retry_attempt : ℕ

pub record IngressPolicyState : Type 0 where
  pub last_cursor_autocmd_at : Option ℕ
  pub pending_delay_until : Option ℕ

unfoldable pub default_ingress_policy : IngressPolicyState
default_ingress_policy = record { last_cursor_autocmd_at = none; pending_delay_until = none }

-- The later of a remembered time and a new one: the `match` of both `note_` methods.
abbrev later : Option ℕ → ℕ → ℕ
later none at = at
later (some previous) at = if ltb at previous then previous else at

unfoldable pub note_cursor_autocmd : IngressPolicyState → ℕ → IngressPolicyState
note_cursor_autocmd s at = record s {
  last_cursor_autocmd_at = some (later s.last_cursor_autocmd_at at);
}

unfoldable pub note_pending_delay_until : IngressPolicyState → ℕ → IngressPolicyState
note_pending_delay_until s at = record s {
  pending_delay_until = some (later s.pending_delay_until at);
}

unfoldable pub clear_pending_delay : IngressPolicyState → IngressPolicyState
clear_pending_delay s = record s { pending_delay_until = none }
