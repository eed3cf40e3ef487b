-- ===== src/Smear/Reducer/Delays.antt =====
-- Timers and the recovery's backoff: smear-cursor/src/core/reducer/machine/support.rs, lines 55 to
-- 165. `1_u64.checked_shl(shift)` fails for a shift of 64 or more.
use dotfiles_nix.Base.{ℕ, ◌^◌, min, Bool, true, false, Option, none, some, ltb, ◌==◌, if◌then◌else◌}
use dotfiles_nix.Base.Words.{saturating_add_u8, saturating_mul, saturating_sub}
use dotfiles_nix.Smear.Types.{TimerId}
use dotfiles_nix.Smear.Types.TimerId.{recovery}
use dotfiles_nix.Smear.Timers.{arm}
use dotfiles_nix.Smear.Demand.{ExternalDemandKind, external_cursor, mode_changed}
use dotfiles_nix.Smear.Payloads.{Payloads}
use dotfiles_nix.Smear.Protocol.Core.{CoreState}
use dotfiles_nix.Smear.Protocol.Setters.{with_timers, with_recovery_policy}
use dotfiles_nix.Smear.Protocol.Moves.{enter_recovering}
use dotfiles_nix.Smear.Reducer.Snapshot.{parts}
use dotfiles_nix.Smear.Reducer.Effects.{Effect, schedule_timer}

-- `DelayBudgetMs::DEFAULT_ANIMATION`.
abbrev pub default_animation_delay_ms : ℕ
default_animation_delay_ms = 8

abbrev pub recovery_max_attempts : ℕ
recovery_max_attempts = 5

abbrev pub default_recovery_delay_ms : ℕ
default_recovery_delay_ms = 16

abbrev pub recovery_max_delay_ms : ℕ
recovery_max_delay_ms = 256

-- `DelayBudgetMs::try_new`: a delay is positive.
unfoldable pub try_new : ℕ → Option ℕ
try_new value = if value == 0 then none else some value

unfoldable pub delay_budget_from_ms : ℕ → ℕ
unfolding try_new
delay_budget_from_ms delay_ms = elim (try_new delay_ms) [
  | none ↦ default_animation_delay_ms
  | some delay ↦ delay
]

unfoldable pub recovery_backoff_delay : ℕ → ℕ
recovery_backoff_delay attempt =
    if attempt == 0
    then delay_budget_from_ms default_recovery_delay_ms
    else let shift = saturating_sub attempt 1 in
      let scaled =
        if ltb shift 64
        then saturating_mul default_recovery_delay_ms (2 ^ shift)
        else recovery_max_delay_ms in
      delay_budget_from_ms (min scaled recovery_max_delay_ms)

unfoldable pub ingress_marks_cursor_autocmd_freshness : ExternalDemandKind → Bool
ingress_marks_cursor_autocmd_freshness external_cursor = true
ingress_marks_cursor_autocmd_freshness mode_changed = true
ingress_marks_cursor_autocmd_freshness _ = false

module _ {w : Payloads} where
  unfoldable pub next_recovery_attempt : CoreState (parts w) → ℕ
  next_recovery_attempt s =
      min (saturating_add_u8 s.protocol.shared.recovery_policy.retry_attempt 1)
        recovery_max_attempts

  unfoldable pub with_recovery_attempt : CoreState (parts w) → ℕ → CoreState (parts w)
  unfolding with_recovery_policy
  with_recovery_attempt s attempt = with_recovery_policy s (record { retry_attempt = attempt })

  unfoldable pub reset_recovery_attempt : CoreState (parts w) → CoreState (parts w)
  unfolding with_recovery_attempt
  reset_recovery_attempt s = with_recovery_attempt s 0

  unfoldable pub schedule_timer_with_delay :
      CoreState (parts w) → TimerId → ℕ → ℕ → CoreState (parts w) × Effect w
  unfolding arm with_timers
  schedule_timer_with_delay s id delay requested_at =
      let (timers, token) = arm s.protocol.shared.timers id in
      (
        with_timers s timers,
        schedule_timer (record { token = token; delay = delay; requested_at = requested_at }),
      )

  unfoldable pub enter_recovering_with_backoff :
      CoreState (parts w) → ℕ → CoreState (parts w) × Effect w
  unfolding with_recovery_attempt enter_recovering schedule_timer_with_delay
  enter_recovering_with_backoff s observed_at =
      let attempt = next_recovery_attempt s in
      let recovering = with_recovery_attempt (enter_recovering s) attempt in
      schedule_timer_with_delay recovering recovery (recovery_backoff_delay attempt) observed_at
