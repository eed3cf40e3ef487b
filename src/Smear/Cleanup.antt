-- ===== src/Smear/Cleanup.antt =====
-- The schedule by which retained render windows are released:
-- smear-cursor/src/core/state/render_cleanup.rs. Times and delays are milliseconds in `u64`, the
-- retry attempt is a `u8`; the additions saturate as in the source. `1 << shift` with a shift of at
-- most 63 is a power of two below 2^64.

pub mod Backoff
pub mod Deadlines
use dotfiles_nix.Base.{
  ℕ, ◌-◌, ◌*◌, ◌^◌, min, max, Bool, true, false, Option, none, some, ltb, leb, ◌==◌, if◌then◌else◌,
}
use dotfiles_nix.Base.Words.{saturating_add, saturating_add_u8, saturating_mul, saturating_sub}

pub data RenderThermalState : Type 0 where
  hot_state cooling_state cold_state : RenderThermalState

pub data RenderCleanupTimerRearm : Type 0 where
  allowed quiesced : RenderCleanupTimerRearm

pub record RenderCleanupRetryPolicy : Type 0 where
  pub initial_delay_ms : ℕ
  pub max_delay_ms : ℕ

unfoldable pub new_retry_policy : ℕ → ℕ → RenderCleanupRetryPolicy
new_retry_policy initial_delay_ms max_delay_ms =
    let first = if initial_delay_ms == 0 then 1 else initial_delay_ms in
    record {
      initial_delay_ms = first;
      max_delay_ms = if ltb max_delay_ms first then first else max_delay_ms;
    }

unfoldable pub delay_ms : RenderCleanupRetryPolicy → ℕ → ℕ
delay_ms p attempt =
    let shift = min (saturating_sub attempt 1) 63 in
    min (saturating_mul p.initial_delay_ms (2 ^ shift)) p.max_delay_ms

pub record HotRenderCleanupState : Type 0 where
  pub next_compaction_due_at : ℕ
  pub hard_purge_due_at : ℕ
  pub timer_rearm : RenderCleanupTimerRearm

pub record CoolingRenderCleanupState : Type 0 where
  pub entered_cooling_at : ℕ
  pub next_compaction_due_at : ℕ
  pub hard_purge_due_at : ℕ
  pub compaction_attempted : Bool
  pub retained_resource_retry_attempt : ℕ
  pub timer_rearm : RenderCleanupTimerRearm

unfoldable pub hot_scheduled : ℕ → ℕ → ℕ → HotRenderCleanupState
hot_scheduled observed_at soft_delay_ms hard_delay_ms =
    let soft = max soft_delay_ms 1 in
    let hard = max hard_delay_ms soft in
    record {
      next_compaction_due_at = saturating_add observed_at soft;
      hard_purge_due_at = saturating_add observed_at hard;
      timer_rearm = allowed;
    }

unfoldable pub hot_enter_cooling : HotRenderCleanupState → ℕ → CoolingRenderCleanupState
hot_enter_cooling s observed_at = record {
  entered_cooling_at = observed_at;
  next_compaction_due_at = observed_at;
  hard_purge_due_at = s.hard_purge_due_at;
  compaction_attempted = false;
  retained_resource_retry_attempt = 0;
  timer_rearm = s.timer_rearm;
}

unfoldable pub after_soft_clear : CoolingRenderCleanupState → ℕ → ℕ → CoolingRenderCleanupState
after_soft_clear s observed_at hard_cleanup_delay_ms = record s {
  next_compaction_due_at = observed_at;
  hard_purge_due_at =
      if leb s.hard_purge_due_at observed_at
      then saturating_add observed_at (max hard_cleanup_delay_ms 1)
      else s.hard_purge_due_at;
  compaction_attempted = false;
  retained_resource_retry_attempt = 0;
}

unfoldable pub hot_enter_cooling_after_soft_clear :
    HotRenderCleanupState → ℕ → ℕ → CoolingRenderCleanupState
unfolding hot_enter_cooling after_soft_clear
hot_enter_cooling_after_soft_clear s observed_at hard_cleanup_delay_ms =
    after_soft_clear (hot_enter_cooling s observed_at) observed_at hard_cleanup_delay_ms

unfoldable pub schedule_progress_compaction :
    CoolingRenderCleanupState → ℕ → ℕ → ℕ → CoolingRenderCleanupState
schedule_progress_compaction s observed_at cadence_delay_ms hard_cleanup_delay_ms =
    let progress = saturating_add observed_at (max hard_cleanup_delay_ms 1) in
    record s {
      next_compaction_due_at = saturating_add observed_at (max cadence_delay_ms 1);
      hard_purge_due_at =
          if ltb s.hard_purge_due_at progress then progress else s.hard_purge_due_at;
      compaction_attempted = true;
      retained_resource_retry_attempt = 0;
    }

unfoldable pub await_hard_purge : CoolingRenderCleanupState → CoolingRenderCleanupState
await_hard_purge s = record s {
  next_compaction_due_at = s.hard_purge_due_at;
  compaction_attempted = true;
}

unfoldable pub retry_hard_purge :
    CoolingRenderCleanupState → ℕ → RenderCleanupRetryPolicy → CoolingRenderCleanupState
unfolding delay_ms
retry_hard_purge s observed_at policy =
    let attempt = saturating_add_u8 s.retained_resource_retry_attempt 1 in
    let due = saturating_add observed_at (max (delay_ms policy attempt) 1) in
    record s {
      next_compaction_due_at = due;
      hard_purge_due_at = due;
      compaction_attempted = true;
      retained_resource_retry_attempt = attempt;
    }

unfoldable pub cooling_next_deadline : CoolingRenderCleanupState → ℕ
cooling_next_deadline s =
    if leb s.next_compaction_due_at s.hard_purge_due_at
    then s.next_compaction_due_at
    else s.hard_purge_due_at

pub data RenderCleanupState : Type 0 where
  hot : HotRenderCleanupState → RenderCleanupState
  cooling : CoolingRenderCleanupState → RenderCleanupState
  cold : RenderCleanupState

unfoldable pub converge_to_cold : RenderCleanupState → RenderCleanupState
converge_to_cold s = cold

unfoldable pub scheduled : ℕ → ℕ → ℕ → RenderCleanupState
unfolding hot_scheduled
scheduled observed_at soft_delay_ms hard_delay_ms =
    hot (hot_scheduled observed_at soft_delay_ms hard_delay_ms)

unfoldable pub thermal : RenderCleanupState → RenderThermalState
thermal (hot s) = hot_state
thermal (cooling s) = cooling_state
thermal cold = cold_state

unfoldable pub next_compaction_due_at : RenderCleanupState → Option ℕ
next_compaction_due_at (hot s) = some s.next_compaction_due_at
next_compaction_due_at (cooling s) = some s.next_compaction_due_at
next_compaction_due_at cold = none

unfoldable pub entered_cooling_at : RenderCleanupState → Option ℕ
entered_cooling_at (hot s) = none
entered_cooling_at (cooling s) = some s.entered_cooling_at
entered_cooling_at cold = none

unfoldable pub hard_purge_due_at : RenderCleanupState → Option ℕ
hard_purge_due_at (hot s) = some s.hard_purge_due_at
hard_purge_due_at (cooling s) = some s.hard_purge_due_at
hard_purge_due_at cold = none

unfoldable pub next_deadline : RenderCleanupState → Option ℕ
unfolding cooling_next_deadline
next_deadline (hot s) = some s.next_compaction_due_at
next_deadline (cooling s) = some (cooling_next_deadline s)
next_deadline cold = none

abbrev with_rearm : RenderCleanupState → RenderCleanupTimerRearm → RenderCleanupState
with_rearm (hot s) r = hot (record s { timer_rearm = r })
with_rearm (cooling s) r = cooling (record s { timer_rearm = r })
with_rearm cold r = cold

unfoldable pub quiesce_timer_rearm : RenderCleanupState → RenderCleanupState
quiesce_timer_rearm s = with_rearm s quiesced

unfoldable pub revive_timer_rearm : RenderCleanupState → RenderCleanupState
revive_timer_rearm s = with_rearm s allowed

abbrev is_quiesced : RenderCleanupTimerRearm → Bool
is_quiesced quiesced = true
is_quiesced allowed = false

unfoldable pub timer_rearm_is_quiesced : RenderCleanupState → Bool
timer_rearm_is_quiesced (hot s) = is_quiesced s.timer_rearm
timer_rearm_is_quiesced (cooling s) = is_quiesced s.timer_rearm
timer_rearm_is_quiesced cold = false

unfoldable pub enter_cooling_after_soft_clear : RenderCleanupState → ℕ → ℕ → RenderCleanupState
unfolding hot_enter_cooling_after_soft_clear after_soft_clear
enter_cooling_after_soft_clear (hot s) observed_at delay =
    cooling (hot_enter_cooling_after_soft_clear s observed_at delay)
enter_cooling_after_soft_clear (cooling s) observed_at delay =
    cooling (after_soft_clear s observed_at delay)
enter_cooling_after_soft_clear cold observed_at delay = cold

unfoldable pub continue_cooling_after_progress : RenderCleanupState → ℕ → ℕ → ℕ → RenderCleanupState
unfolding hot_enter_cooling schedule_progress_compaction
continue_cooling_after_progress (hot s) observed_at cadence delay =
    cooling
      (schedule_progress_compaction (hot_enter_cooling s observed_at) observed_at cadence delay)
continue_cooling_after_progress (cooling s) observed_at cadence delay =
    cooling (schedule_progress_compaction s observed_at cadence delay)
continue_cooling_after_progress cold observed_at cadence delay = cold

unfoldable pub await_hard_purge_after_stalled_compaction :
    RenderCleanupState → ℕ → RenderCleanupState
unfolding hot_enter_cooling await_hard_purge
await_hard_purge_after_stalled_compaction (hot s) observed_at =
    cooling (await_hard_purge (hot_enter_cooling s observed_at))
await_hard_purge_after_stalled_compaction (cooling s) observed_at = cooling (await_hard_purge s)
await_hard_purge_after_stalled_compaction cold observed_at = cold

-- What both retries start from when cleanup was cold.
abbrev cooling_from_cold : ℕ → CoolingRenderCleanupState
cooling_from_cold observed_at = record {
  entered_cooling_at = observed_at;
  next_compaction_due_at = observed_at;
  hard_purge_due_at = observed_at;
  compaction_attempted = true;
  retained_resource_retry_attempt = 0;
  timer_rearm = allowed;
}

unfoldable pub retry_hard_purge_after_retained_resources :
    RenderCleanupState → ℕ → RenderCleanupRetryPolicy → RenderCleanupState
unfolding hot_enter_cooling retry_hard_purge
retry_hard_purge_after_retained_resources (hot s) observed_at policy =
    cooling (retry_hard_purge (hot_enter_cooling s observed_at) observed_at policy)
retry_hard_purge_after_retained_resources (cooling s) observed_at policy =
    cooling (retry_hard_purge s observed_at policy)
retry_hard_purge_after_retained_resources cold observed_at policy =
    cooling (retry_hard_purge (cooling_from_cold observed_at) observed_at policy)

unfoldable pub retry_hard_purge_after_observed_retained_resources :
    RenderCleanupState → ℕ → RenderCleanupRetryPolicy → RenderCleanupState
unfolding retry_hard_purge
retry_hard_purge_after_observed_retained_resources (hot s) observed_at policy = hot s
retry_hard_purge_after_observed_retained_resources (cooling s) observed_at policy =
    cooling (retry_hard_purge s observed_at policy)
retry_hard_purge_after_observed_retained_resources cold observed_at policy =
    cooling (retry_hard_purge (cooling_from_cold observed_at) observed_at policy)
