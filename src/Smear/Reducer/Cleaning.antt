-- ===== src/Smear/Reducer/Cleaning.antt =====
-- The reducer's cleanup of rendered windows: smear-cursor/src/core/reducer/machine/support.rs, lines
-- 112 to 130 and 434 to 594.
use dotfiles_nix.Base.{
  ℕ, max, Bool, true, false, not, ◌&&◌, List, [], ◌∷◌, Option, none, some, is_some, ltb, leb, ◌==◌,
  if◌then◌else◌,
}
use dotfiles_nix.Base.Words.{saturating_sub}
use dotfiles_nix.Smear.Types.{TimerId}
use dotfiles_nix.Smear.Timers.{active_token}
use dotfiles_nix.Smear.Cleanup.{
  RenderCleanupState, hot, cooling, cold, CoolingRenderCleanupState, scheduled, revive_timer_rearm,
  timer_rearm_is_quiesced, next_deadline, enter_cooling_after_soft_clear,
  retry_hard_purge_after_retained_resources, converge_to_cold, continue_cooling_after_progress,
  await_hard_purge_after_stalled_compaction,
}
use dotfiles_nix.Smear.Payloads.{Payloads}
use dotfiles_nix.Smear.Protocol.Core.{CoreState}
use dotfiles_nix.Smear.Protocol.Setters.{with_render_cleanup}
use dotfiles_nix.Smear.Reducer.Config.{
  RuntimeConfig, render_cleanup_delay_ms, render_hard_cleanup_delay_ms, render_cleanup_retry_policy,
  render_cleanup_idle_target_budget, render_cleanup_max_teardown_attempts_per_tick,
}
use dotfiles_nix.Smear.Reducer.Snapshot.{
  parts, Calls, InFlightProposal, draw, clear, noop, failure, no_action, schedule, invalidate,
}
use dotfiles_nix.Smear.Reducer.Effects.{
  Effect, apply_render_cleanup, redraw_cmdline, soft_clear, compact_to_budget, compact_to_zero,
  RenderCleanupAppliedAction, soft_cleared, compacted_to_budget, cleanup_stalled, made_progress,
  no_progress,
}
use dotfiles_nix.Smear.Reducer.Delays.{schedule_timer_with_delay, delay_budget_from_ms}

module _ {w : Payloads} where
  unfoldable pub arm_render_cleanup_timer :
      CoreState (parts w) → ℕ → CoreState (parts w) × List (Effect w)
  unfolding timer_rearm_is_quiesced next_deadline schedule_timer_with_delay
  arm_render_cleanup_timer s requested_at =
      if timer_rearm_is_quiesced s.protocol.shared.render_cleanup
      then (s, [])
      else elim (next_deadline s.protocol.shared.render_cleanup) [
        | none ↦ (s, [])
        | some deadline ↦
            let (t, effect) =
              schedule_timer_with_delay s TimerId.cleanup
                (delay_budget_from_ms (max (saturating_sub deadline requested_at) 1))
                requested_at in
            (t, effect ∷ [])
      ]

  -- The end that `enter_hot_cleanup_state` and `advance_cleanup_for_proposal` share: a timer that is
  -- armed stays as it is.
  unfoldable pub arm_unless_active : CoreState (parts w) → ℕ → CoreState (parts w) × List (Effect w)
  unfolding active_token arm_render_cleanup_timer
  arm_unless_active s observed_at =
      if is_some (active_token s.protocol.shared.timers TimerId.cleanup)
      then (s, [])
      else arm_render_cleanup_timer s observed_at

  unfoldable pub redraw_effect_for_proposal : InFlightProposal w → Bool → Option (Effect w)
  redraw_effect_for_proposal p visual_change =
      if not visual_change then none else elim p.execution [
        | draw patch realization ↦
            if p.redraw_after_draw_if_cmdline then some redraw_cmdline else none
        | clear patch realization ↦ some redraw_cmdline
        | noop patch ↦ none
        | failure patch reason ↦ none
      ]

  abbrev pub compact : RuntimeConfig w → Effect w
  compact config = apply_render_cleanup (
      compact_to_budget (render_cleanup_idle_target_budget config)
        (render_cleanup_max_teardown_attempts_per_tick config))

  abbrev cooling_effect : CoolingRenderCleanupState → RuntimeConfig w → ℕ → Option (Effect w)
  cooling_effect cleanup config observed_at =
      if not cleanup.compaction_attempted && leb cleanup.next_compaction_due_at observed_at
      then some (compact config)
      else if leb cleanup.hard_purge_due_at observed_at
      then some (
          apply_render_cleanup
            (compact_to_zero (render_cleanup_max_teardown_attempts_per_tick config)))
      else if ltb observed_at cleanup.next_compaction_due_at
      then none
      else some (compact config)

  unfoldable pub cleanup_effect_for_timer_fire :
      RenderCleanupState → RuntimeConfig w → ℕ → Option (Effect w)
  cleanup_effect_for_timer_fire (hot cleanup) config observed_at =
      if ltb observed_at cleanup.next_compaction_due_at
      then none
      else some (apply_render_cleanup (soft_clear config.max_kept_windows))
  cleanup_effect_for_timer_fire (cooling cleanup) config observed_at =
      cooling_effect cleanup config observed_at
  cleanup_effect_for_timer_fire cold config observed_at = none

  unfoldable pub cleanup_state_after_applied :
      RenderCleanupState → RenderCleanupAppliedAction → ℕ → RuntimeConfig w → RenderCleanupState
  cleanup_state_after_applied cleanup (soft_cleared retained_resources) observed_at config =
      if retained_resources == 0
      then enter_cooling_after_soft_clear cleanup observed_at (render_hard_cleanup_delay_ms config)
      else retry_hard_purge_after_retained_resources cleanup observed_at
          (render_cleanup_retry_policy config)
  cleanup_state_after_applied cleanup (compacted_to_budget true _) observed_at config =
      converge_to_cold cleanup
  cleanup_state_after_applied cleanup (compacted_to_budget false made_progress) observed_at config =
      continue_cooling_after_progress cleanup observed_at (render_cleanup_delay_ms config)
        (render_hard_cleanup_delay_ms config)
  cleanup_state_after_applied cleanup (compacted_to_budget false no_progress) observed_at config =
      await_hard_purge_after_stalled_compaction cleanup observed_at
  cleanup_state_after_applied cleanup cleanup_stalled observed_at config =
      retry_hard_purge_after_retained_resources cleanup observed_at
        (render_cleanup_retry_policy config)

module _ {w : Payloads} (c : Calls w) where
  unfoldable pub hot_cleanup_state : CoreState (parts w) → ℕ → RenderCleanupState
  hot_cleanup_state s observed_at =
      let config = c.config s.payload.motion in
      scheduled observed_at (render_cleanup_delay_ms config) (render_hard_cleanup_delay_ms config)

  unfoldable pub scheduled_cleanup_state : CoreState (parts w) → ℕ → RenderCleanupState
  scheduled_cleanup_state s observed_at = elim s.protocol.shared.render_cleanup [
    | cold ↦ hot_cleanup_state s observed_at
    | hot cleanup ↦ revive_timer_rearm (hot cleanup)
    | cooling cleanup ↦ revive_timer_rearm (cooling cleanup)
  ]

  unfoldable pub enter_hot_cleanup_state :
      CoreState (parts w) → ℕ → CoreState (parts w) × List (Effect w)
  unfolding arm_unless_active with_render_cleanup
  enter_hot_cleanup_state s observed_at =
      arm_unless_active (with_render_cleanup s (hot_cleanup_state s observed_at)) observed_at

  unfoldable pub advance_cleanup_for_proposal :
      CoreState (parts w) → InFlightProposal w → ℕ → CoreState (parts w) × List (Effect w)
  unfolding enter_hot_cleanup_state arm_unless_active with_render_cleanup scheduled_cleanup_state
  advance_cleanup_for_proposal s p observed_at = elim p.cleanup_action [
    | no_action ↦ (s, [])
    | invalidate ↦ enter_hot_cleanup_state s observed_at
    | schedule ↦
        arm_unless_active (with_render_cleanup s (scheduled_cleanup_state s observed_at))
          observed_at
  ]
