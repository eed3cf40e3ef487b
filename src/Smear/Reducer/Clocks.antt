-- ===== src/Smear/Reducer/Clocks.antt =====
-- Timers that fire and timers that are lost: smear-cursor/src/core/reducer/machine/timers.rs.
-- `none` is an `unreachable!` of the source.
use dotfiles_nix.Base.{ℕ, max, ◌||◌, not, [], ◌∷◌, Option, none, some, ltb, if◌then◌else◌}
use dotfiles_nix.Base.Words.{saturating_sub}
use mathlib.Core.Option
use dotfiles_nix.Smear.Types.{Lifecycle, lifecycle_eq, TimerId, TimerToken}
use dotfiles_nix.Smear.Types.TimerId.{animation, ingress, recovery, cleanup}
use dotfiles_nix.Smear.Timers.{is_active, clear_matching}
use dotfiles_nix.Smear.Cleanup.{quiesce_timer_rearm}
use dotfiles_nix.Smear.Payloads.{Payloads}
use dotfiles_nix.Smear.Protocol.Core.{CoreState, lifecycle, needs_initialize, with_runtime}
use dotfiles_nix.Smear.Protocol.Setters.{with_timers, with_render_cleanup}
use dotfiles_nix.Smear.Protocol.Moves.{into_primed, restore_retained_observation_to_ready}
use dotfiles_nix.Smear.Reducer.Snapshot.{parts, Calls}
use dotfiles_nix.Smear.Reducer.Effects.{
  Transition, record_event_loop_metric, stale_token, apply_render_cleanup, soft_clear,
}
use dotfiles_nix.Smear.Reducer.Delays.{
  schedule_timer_with_delay, delay_budget_from_ms, reset_recovery_attempt,
}
use dotfiles_nix.Smear.Reducer.Requests.{
  exact_boundary_refresh_required, start_boundary_refresh_observation,
}
use dotfiles_nix.Smear.Reducer.Cleaning.{arm_render_cleanup_timer, cleanup_effect_for_timer_fire}
use dotfiles_nix.Smear.Reducer.Planning.{stay_owned}
use dotfiles_nix.Smear.Reducer.Observing.{
  primed_or_ready, opt_effects, or_plan, clear_delay, start_next_observation,
  transition_ready_or_observe, observe_or_plan, plan_or_stay,
}

module _ {w : Payloads} where
  -- What both functions do with a token that is not active.
  unfoldable pub stale_timer : CoreState (parts w) → TimerId → Transition w
  stale_timer s cleanup = stay_owned s
  stale_timer s _ = record { next = s; effects = record_event_loop_metric stale_token ∷ [] }

  unfoldable pub disarm : CoreState (parts w) → TimerToken → CoreState (parts w)
  unfolding with_timers clear_matching
  disarm s token = with_timers s (clear_matching s.protocol.shared.timers token)

  -- The end of a recovery.
  unfoldable pub settle_recovery : CoreState (parts w) → CoreState (parts w)
  unfolding restore_retained_observation_to_ready reset_recovery_attempt into_primed
  settle_recovery s =
      let (t, restored) = restore_retained_observation_to_ready s in
      if restored then reset_recovery_attempt t else reset_recovery_attempt (into_primed t)

module _ {w : Payloads} (c : Calls w) where
  -- Both ends of an animation's pause: a boundary refresh if one is required, else what `plan` does.
  unfoldable pub refresh_or :
      CoreState (parts w) → ℕ → Option (Transition w) → Option (Transition w)
  unfolding start_boundary_refresh_observation
  refresh_or s observed_at plan =
      if exact_boundary_refresh_required c s
      then Option.map (λ r. record { next = r.0; effects = r.1 ∷ [] })
          (start_boundary_refresh_observation c s observed_at)
      else plan

  unfoldable pub animation_fired : CoreState (parts w) → ℕ → Option (Transition w)
  unfolding needs_initialize lifecycle start_next_observation refresh_or plan_or_stay
  animation_fired s observed_at =
      if needs_initialize s
      then some (stay_owned s)
      else if primed_or_ready (lifecycle s)
      then or_plan (start_next_observation c s)
          (λ t. refresh_or t observed_at (plan_or_stay c t observed_at))
      else some (stay_owned s)

  unfoldable pub reduce_ingress_timer_signal : CoreState (parts w) → ℕ → Option (Transition w)
  unfolding lifecycle clear_delay schedule_timer_with_delay transition_ready_or_observe
  reduce_ingress_timer_signal s observed_at =
      elim s.protocol.shared.ingress_policy.pending_delay_until [
        | none ↦ some (stay_owned s)
        | some until ↦
            if not (primed_or_ready (lifecycle s))
            then some (stay_owned (clear_delay s))
            else if ltb observed_at until
            then (let (t, effect) =
                  schedule_timer_with_delay s ingress
                    (delay_budget_from_ms (max (saturating_sub until observed_at) 1)) observed_at in
                some (record { next = t; effects = effect ∷ [] }))
            else transition_ready_or_observe c (clear_delay s)
      ]

  unfoldable pub recovery_fired : CoreState (parts w) → ℕ → Option (Transition w)
  unfolding lifecycle observe_or_plan settle_recovery
  recovery_fired s observed_at =
      if lifecycle_eq (lifecycle s) Lifecycle.recovering
      then observe_or_plan c (settle_recovery s) observed_at
      else some (stay_owned s)

  unfoldable pub cleanup_fired : CoreState (parts w) → ℕ → Option (Transition w)
  unfolding arm_render_cleanup_timer
  cleanup_fired s observed_at =
      elim (cleanup_effect_for_timer_fire s.protocol.shared.render_cleanup
        (c.config s.payload.motion) observed_at) [
          | some effect ↦ some (record { next = s; effects = effect ∷ [] })
          | none ↦
              let (t, effects) = arm_render_cleanup_timer s observed_at in
              some (record { next = t; effects = effects })
        ]

  -- The `match` on a disarmed timer.
  unfoldable pub timer_fired : CoreState (parts w) → TimerId → ℕ → Option (Transition w)
  unfolding animation_fired reduce_ingress_timer_signal recovery_fired cleanup_fired
  timer_fired s animation observed_at = animation_fired s observed_at
  timer_fired s ingress observed_at = reduce_ingress_timer_signal s observed_at
  timer_fired s recovery observed_at = recovery_fired s observed_at
  timer_fired s cleanup observed_at = cleanup_fired s observed_at

  unfoldable pub reduce_timer_signal_with_token :
      CoreState (parts w) → TimerToken → ℕ → Option (Transition w)
  unfolding stale_timer
  reduce_timer_signal_with_token s token observed_at =
      if not (is_active s.protocol.shared.timers token)
      then some (stale_timer s token.id)
      else timer_fired (disarm s token) token.id observed_at

  unfoldable pub animation_lost : CoreState (parts w) → Option (Transition w)
  unfolding needs_initialize lifecycle with_runtime
  animation_lost s =
      if needs_initialize s || not (primed_or_ready (lifecycle s))
      then some (stay_owned s)
      else let t = with_runtime s (c.recover_from_clock_discontinuity s.payload.motion) in
        some (record {
          next = t;
          effects =
              apply_render_cleanup (soft_clear (c.config t.payload.motion).max_kept_windows) ∷ [];
        })

  unfoldable pub ingress_lost : CoreState (parts w) → Option (Transition w)
  unfolding clear_delay lifecycle transition_ready_or_observe
  ingress_lost s =
      let t = clear_delay s in
      if not (primed_or_ready (lifecycle t))
      then some (stay_owned t)
      else transition_ready_or_observe c t

  unfoldable pub recovery_lost : CoreState (parts w) → Option (Transition w)
  unfolding lifecycle settle_recovery
  recovery_lost s =
      if not (lifecycle_eq (lifecycle s) Lifecycle.recovering)
      then some (stay_owned s)
      else some (stay_owned (settle_recovery s))

  unfoldable pub cleanup_lost : CoreState (parts w) → ℕ → Option (Transition w)
  unfolding with_render_cleanup
  cleanup_lost s observed_at =
      let t = with_render_cleanup s (quiesce_timer_rearm s.protocol.shared.render_cleanup) in
      some (record {
        next = t;
        effects = opt_effects (
            cleanup_effect_for_timer_fire t.protocol.shared.render_cleanup
              (c.config t.payload.motion) observed_at);
      })

  unfoldable pub timer_lost : CoreState (parts w) → TimerId → ℕ → Option (Transition w)
  unfolding animation_lost ingress_lost recovery_lost cleanup_lost
  timer_lost s animation observed_at = animation_lost s
  timer_lost s ingress observed_at = ingress_lost s
  timer_lost s recovery observed_at = recovery_lost s
  timer_lost s cleanup observed_at = cleanup_lost s observed_at

  unfoldable pub reduce_timer_lost_with_token :
      CoreState (parts w) → TimerToken → ℕ → Option (Transition w)
  unfolding stale_timer
  reduce_timer_lost_with_token s token observed_at =
      if not (is_active s.protocol.shared.timers token)
      then some (stale_timer s token.id)
      else timer_lost (disarm s token) token.id observed_at
