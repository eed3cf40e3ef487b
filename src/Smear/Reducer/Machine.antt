-- ===== src/Smear/Reducer/Machine.antt =====
-- The reducer's dispatch on events: smear-cursor/src/core/reducer/machine/mod.rs.
pub mod Recovery
pub mod Inner
pub mod Total
pub mod Lifecycles
pub mod Failures
pub mod Reactions
pub mod Stale
pub mod Retries
pub mod Endings
pub mod Waiting
pub mod Cleanings
pub mod Runs
use dotfiles_nix.Base.{Option}
use dotfiles_nix.Smear.Payloads.{Payloads}
use dotfiles_nix.Smear.Protocol.Core.{CoreState}
use dotfiles_nix.Smear.Reducer.Snapshot.{parts, Calls}
use dotfiles_nix.Smear.Reducer.Effects.{
  Event, initialize, external_demand_queued, observation_base_collected, probe_reported,
  render_plan_computed, render_plan_failed, apply_reported, render_cleanup_applied,
  render_cleanup_retained_resources_observed, timer_fired_with_token, timer_lost_with_token,
  effect_failed, Transition,
}
use dotfiles_nix.Smear.Reducer.Observing.{reduce_initialize, reduce_external_demand_queued}
use dotfiles_nix.Smear.Reducer.Probes.{reduce_observation_base_collected, reduce_probe_reported}
use dotfiles_nix.Smear.Reducer.Clocks.{reduce_timer_signal_with_token, reduce_timer_lost_with_token}
use dotfiles_nix.Smear.Reducer.Applying.{
  reduce_render_plan_computed, reduce_render_plan_failed, reduce_render_cleanup_applied,
  reduce_render_cleanup_retained_resources_observed,
}
use dotfiles_nix.Smear.Reducer.Reports.{reduce_apply_reported, reduce_effect_failed}

module _ {w : Payloads} (c : Calls w) where
  -- `none` where the reducer would reach an `unreachable!`.
  unfoldable pub reduce_owned : CoreState (parts w) → Event w → Option (Transition w)
  unfolding reduce_initialize reduce_external_demand_queued reduce_observation_base_collected
      reduce_probe_reported reduce_render_plan_computed reduce_render_plan_failed
      reduce_apply_reported reduce_render_cleanup_applied
      reduce_render_cleanup_retained_resources_observed reduce_timer_signal_with_token
      reduce_timer_lost_with_token reduce_effect_failed
  reduce_owned s (initialize observed_at) = reduce_initialize c s
  reduce_owned s (external_demand_queued e) = reduce_external_demand_queued c s e
  reduce_owned s (observation_base_collected e) = reduce_observation_base_collected c s e
  reduce_owned s (probe_reported e) = reduce_probe_reported c s e
  reduce_owned s (render_plan_computed r observed_at) = reduce_render_plan_computed s r observed_at
  reduce_owned s (render_plan_failed id observed_at) = reduce_render_plan_failed s id observed_at
  reduce_owned s (apply_reported report) = reduce_apply_reported c s report
  reduce_owned s (render_cleanup_applied action observed_at) =
      reduce_render_cleanup_applied c s action observed_at
  reduce_owned s (render_cleanup_retained_resources_observed retained observed_at) =
      reduce_render_cleanup_retained_resources_observed c s retained observed_at
  reduce_owned s (timer_fired_with_token token observed_at) =
      reduce_timer_signal_with_token c s token observed_at
  reduce_owned s (timer_lost_with_token token observed_at) =
      reduce_timer_lost_with_token c s token observed_at
  reduce_owned s (effect_failed proposal observed_at) =
      reduce_effect_failed c s proposal observed_at
