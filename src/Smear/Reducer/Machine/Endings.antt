-- ===== src/Smear/Reducer/Machine/Endings.antt =====
-- When a cleanup may be over: the schedules that follow one another in
-- smear-cursor/src/core/reducer/machine/apply.rs and timers.rs.
use dotfiles_nix.Base.{
  leb, ◌&&◌, ℕ, ◌≤◌, ◌≡◌, refl, Bool, true, false, not, ◌||◌, ◌==◌, List, ◌∷◌, arith, if◌then◌else◌,
}
use dotfiles_nix.Smear.Payloads.{Payloads}
use dotfiles_nix.Smear.Types.{TimerId, TimerToken, cleanup}
use dotfiles_nix.Smear.Timers.{TimerSlotState}
use dotfiles_nix.Smear.Cleanup.{
  RenderCleanupState, hot, cooling, cold, RenderCleanupTimerRearm, allowed, quiesced,
  timer_rearm_is_quiesced, RenderCleanupRetryPolicy, enter_cooling_after_soft_clear,
  retry_hard_purge_after_retained_resources, converge_to_cold, continue_cooling_after_progress,
  await_hard_purge_after_stalled_compaction, retry_hard_purge_after_observed_retained_resources,
}
use dotfiles_nix.Smear.Protocol.Phase.{ProtocolPhase, idle}
use dotfiles_nix.Smear.Protocol.Core.{CoreState}
use dotfiles_nix.Smear.Reducer.Config.{RuntimeConfig}
use dotfiles_nix.Smear.Reducer.Snapshot.{parts}
use dotfiles_nix.Smear.Reducer.Effects.{
  Effect, Transition, apply_render_cleanup, schedule_timer, RenderCleanupAppliedAction,
  soft_cleared, compacted_to_budget, cleanup_stalled, Event, render_cleanup_applied,
  render_cleanup_retained_resources_observed, timer_fired_with_token,
}
use dotfiles_nix.Smear.Reducer.Cleaning.{cleanup_state_after_applied}

abbrev pub rearm_held : RenderCleanupTimerRearm → Bool
rearm_held allowed = false
rearm_held quiesced = true

-- The timer must not be armed.
abbrev pub is_held : RenderCleanupState → Bool
is_held (hot s) = rearm_held s.timer_rearm
is_held (cooling s) = rearm_held s.timer_rearm
is_held cold = false

abbrev pub is_over : RenderCleanupState → Bool
is_over cold = true
is_over _ = false

-- Nothing is left to do, or the timer must not be armed.
abbrev pub is_settled : RenderCleanupState → Bool
is_settled cold = true
is_settled s = is_held s

abbrev pub is_cleanup : TimerId → Bool
is_cleanup cleanup = true
is_cleanup _ = false

-- A schedule may follow `previous`: it is cold only where `ends` holds, and its timer must not be
-- armed only where that was so before.
abbrev pub allows : Bool → RenderCleanupState → RenderCleanupState → Bool
allows ends previous cold = ends
allows ends previous next = not (is_held next) || is_held previous

module _ {w : Payloads} where
  -- The first effect is work of the cleanup.
  abbrev pub works : List (Effect w) → Bool
  works (apply_render_cleanup execution ∷ es) = true
  works _ = false

  -- The first effect schedules the timer of the cleanup, with the token that is active then.
  abbrev arms : List (Effect w) → TimerSlotState → Bool
  arms (schedule_timer e ∷ es) after =
      is_cleanup e.token.id && after.armed && after.generation == e.token.generation
  arms _ after = false

  -- The timer was armed before the event, which is not its firing, and is the same after it.
  abbrev keeps : Event w → TimerSlotState → TimerSlotState → Bool
  keeps (timer_fired_with_token k n) before after = false
  keeps e before after = before.armed && after.armed && before.generation == after.generation

  -- The cleanup is at work, or waits for its timer.
  abbrev pub goes_on : CoreState (parts w) → Event w → Transition w → Bool
  goes_on s e t =
      works t.effects
      || arms t.effects t.next.protocol.shared.timers.slots.cleanup
      || keeps e s.protocol.shared.timers.slots.cleanup t.next.protocol.shared.timers.slots.cleanup

  -- The event says that rendered resources are left.
  abbrev pub leaves : Event w → Bool
  leaves (render_cleanup_applied (soft_cleared retained) n) = leb 1 retained
  leaves (render_cleanup_applied cleanup_stalled n) = true
  leaves (render_cleanup_retained_resources_observed retained n) = leb 1 retained
  leaves _ = false

  -- The event says that the compaction reached its end.
  abbrev pub converges : Event w → Bool
  converges (render_cleanup_applied (compacted_to_budget true p) n) = true
  converges _ = false

  -- When a cleanup is cold after an event: its compaction reached its end, or it was cold before and
  -- the event does not say that resources are left.
  abbrev pub may_end : RenderCleanupState → Event w → Bool
  may_end previous e = converges e || (is_over previous && not (leaves e))

  -- By the schedule after the event: cold only where it may end; quiesced only where it was quiesced
  -- before; else at work or with its timer armed.
  abbrev pub GoesOnFrom : RenderCleanupState → Event w → RenderCleanupState → Bool → Type 0
  GoesOnFrom previous e cold on = may_end previous e ≡ true
  GoesOnFrom previous e next on = (if is_held next then is_held previous else on) ≡ true

  abbrev pub GoesOn : CoreState (parts w) → Event w → Transition w → Type 0
  GoesOn s e t =
      GoesOnFrom s.protocol.shared.render_cleanup e t.next.protocol.shared.render_cleanup
        (goes_on s e t)

  abbrev pub is_initialized : ProtocolPhase (parts w) → Bool
  is_initialized idle = false
  is_initialized _ = true

  -- An event by which the cleanup of an initialised state goes on: work that was done, resources
  -- that were left, or the timer that is armed.
  abbrev pub concerns_cleanup : CoreState (parts w) → Event w → Bool
  concerns_cleanup s (render_cleanup_applied a n) = is_initialized s.protocol.phase
  concerns_cleanup s (render_cleanup_retained_resources_observed r n) =
      is_initialized s.protocol.phase && leb 1 r
  concerns_cleanup s (timer_fired_with_token k n) =
      is_cleanup k.id
      && s.protocol.shared.timers.slots.cleanup.armed
      && s.protocol.shared.timers.slots.cleanup.generation == k.generation
  concerns_cleanup s _ = false

  -- Nothing is to be done by the schedule, or the cleanup goes on.
  abbrev pub Waits : CoreState (parts w) → Event w → Transition w → Type 0
  Waits s e t = (is_settled t.next.protocol.shared.render_cleanup || goes_on s e t) ≡ true

  -- The schedule after applied work is cold or quiesced only where it may be.
  pub cleanup_state_after_applied-allows :
      (previous : RenderCleanupState) (a : RenderCleanupAppliedAction) (n : ℕ) (r : RuntimeConfig w)
      → allows
          (may_end previous (render_cleanup_applied a n))
          previous
          (cleanup_state_after_applied previous a n r)
        ≡ true
  unfolding cleanup_state_after_applied timer_rearm_is_quiesced enter_cooling_after_soft_clear
      retry_hard_purge_after_retained_resources converge_to_cold continue_cooling_after_progress
      await_hard_purge_after_stalled_compaction
  cleanup_state_after_applied-allows previous (soft_cleared retained) n r = ground arith
  cleanup_state_after_applied-allows previous (compacted_to_budget true p) n r = refl
  cleanup_state_after_applied-allows previous (compacted_to_budget false p) n r = ground arith
  cleanup_state_after_applied-allows previous cleanup_stalled n r = ground arith

pub retained-allows :
    (w : Payloads) (previous : RenderCleanupState) (r n : ℕ) (p : RenderCleanupRetryPolicy)
    → 1 ≤ r
    → allows
        (may_end {w = w} previous (render_cleanup_retained_resources_observed r n))
        previous
        (retry_hard_purge_after_observed_retained_resources previous n p)
      ≡ true
unfolding timer_rearm_is_quiesced retry_hard_purge_after_observed_retained_resources
retained-allows w previous r n p h = ground arith

-- A timer leaves the schedule as it is, and neither ends a cleanup nor finds resources.
pub timer-allows :
    (w : Payloads) (previous : RenderCleanupState) (k : TimerToken) (n : ℕ)
    → allows (may_end {w = w} previous (timer_fired_with_token k n)) previous previous ≡ true
unfolding timer_rearm_is_quiesced
timer-allows w previous k n = ground arith

module _ {w : Payloads} where
  -- The two parts of what is claimed of an event.
  pub GoesOn-from :
      (s : CoreState (parts w)) (e : Event w) (t : Transition w)
      → Waits s e t
      → allows
          (may_end s.protocol.shared.render_cleanup e)
          s.protocol.shared.render_cleanup
          t.next.protocol.shared.render_cleanup
        ≡ true
      → GoesOn s e t
  GoesOn-from s e t = from t.next.protocol.shared.render_cleanup
    where
      from :
          (next : RenderCleanupState)
          → (is_settled next || goes_on s e t) ≡ true
          → allows
              (may_end s.protocol.shared.render_cleanup e)
              s.protocol.shared.render_cleanup
              next
            ≡ true
          → GoesOnFrom s.protocol.shared.render_cleanup e next (goes_on s e t)
      from cold settled permitted = permitted
      from (hot h) settled permitted = ground arith
      from (cooling k) settled permitted = ground arith
