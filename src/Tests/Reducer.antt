-- ===== src/Tests/Reducer.antt =====
-- The reducer of smear-cursor with numbers for the payloads, at concrete states and events.
use dotfiles_nix.Base.{◌≡◌, ◌≤◌, refl, true, false, none, some, [], ◌∷◌, arith, is_some}
use dotfiles_nix.Smear.Types.{Lifecycle, TimerId}
use dotfiles_nix.Smear.Timers.{is_active}
use dotfiles_nix.Smear.Policy.{full}
use dotfiles_nix.Smear.Demand.{
  ExternalDemand, external_cursor, mode_changed, queued, default_entropy,
}
use dotfiles_nix.Smear.Cleanup.{scheduled}
use dotfiles_nix.Tests.Numbers.{numbers}
use dotfiles_nix.Smear.Probe.{no_probes, default_probe_refresh}
use dotfiles_nix.Smear.Protocol.Phase.{
  ProtocolPhase, idle, collecting, default_shared, unchanged, PendingObservation,
}
use dotfiles_nix.Smear.Protocol.Core.{CoreState, lifecycle}
use dotfiles_nix.Smear.Reducer.Config.{RuntimeConfig}
use dotfiles_nix.Smear.Reducer.Snapshot.{
  parts, Calls, CursorTransition, clear_all, cleared, default_delay,
}
use dotfiles_nix.Smear.Reducer.Effects.{
  Event, Transition, initialize, external_demand_queued, render_plan_failed, effect_failed,
  render_cleanup_applied, soft_cleared, schedule_timer, ScheduleTimerEffect,
}
use dotfiles_nix.Smear.Reducer.Delays.{enter_recovering_with_backoff}
use dotfiles_nix.Smear.Reducer.Machine.{reduce_owned}
use dotfiles_nix.Smear.Reducer.Machine.Total.{reduce_owned-total}
use dotfiles_nix.Smear.Reducer.Machine.Recovery.{IsLive, reduce_owned-IsLive}
use dotfiles_nix.Smear.Reducer.Machine.Lifecycles.{Follows}
use dotfiles_nix.Smear.Reducer.Machine.Reactions.{reduce_owned-Follows}
use dotfiles_nix.Smear.Reducer.Machine.Stale.{is_only_metric, reduce_owned-stale}
use dotfiles_nix.Smear.Reducer.Machine.Retries.{
  Requeued, reduce_effect_failed-queue, enter_recovering_with_backoff_lem,
}
use dotfiles_nix.Smear.Reducer.Machine.Runs.{run, run-IsLive}

abbrev config : RuntimeConfig numbers
config = record {
  time_interval = 17;
  delay_event_to_smear = 0;
  max_kept_windows = 50;
  windows_zindex = 300;
  smear_to_cmd = true;
  scroll_buffer_space = true;
  cursor_color = none;
  cursor_color_insert_mode = none;
  particles_enabled = false;
  particles_over_text = false;
}

abbrev nothing : CursorTransition numbers
nothing = record {
  render_action = clear_all;
  render_decision = 0;
  animation_schedule = default_delay;
}

abbrev calls : Calls numbers
calls = record {
  config = λ r. config;
  is_initialized = λ r. true;
  is_animating = λ r. false;
  is_enabled = λ r. true;
  recover_from_clock_discontinuity = λ r. 0;
  release_cleanup_cold_storage = λ r. r;
  tracked_surface = λ r. none;
  tracked_buffer_position = λ r. none;
  current_corners = λ r. r;
  derive_witness = λ b g. none;
  plan_runtime_transition = λ r cell previous o n. (r, nothing);
  prepare_plan = λ r cell previous o n. (r, record { runtime = unchanged; transition = nothing });
}

abbrev state_in : ProtocolPhase (parts numbers) → CoreState (parts numbers)
state_in phase = record {
  generation = 3;
  protocol = record { shared = default_shared; phase = phase };
  payload = record {
    entropy = default_entropy;
    latest_exact_cursor_cell = none;
    motion = 20;
    semantics = 30;
    projection = 40;
    realization = cleared;
  };
}

abbrev demand : ExternalDemand
demand = record { seq = 3; kind = external_cursor; observed_at = 10; buffer_perf_class = full }

abbrev pending : PendingObservation
pending = record { demand = demand; requested_probes = no_probes }

abbrev idle_state : CoreState (parts numbers)
idle_state = state_in idle

abbrev collecting_state : CoreState (parts numbers)
collecting_state = state_in (collecting none pending default_probe_refresh)

abbrev cursor_moved : Event numbers
cursor_moved = external_demand_queued (record {
  kind = external_cursor;
  observed_at = 10;
  buffer_perf_class = full;
  ingress_cursor_presentation = none;
  ingress_observation_surface = some 7;
})

reduce_owned-total_example : is_some (reduce_owned calls idle_state cursor_moved) ≡ true
reduce_owned-total_example = reduce_owned-total calls idle_state cursor_moved

abbrev failed : Transition numbers
unfolding reduce_owned
failed =
    elim (reduce_owned calls collecting_state (effect_failed none 40))
      as (λ x. Transition numbers) [
        | none ↦ record { next = idle_state; effects = [] }
        | some t ↦ t
      ]

fails : reduce_owned calls collecting_state (effect_failed none 40) ≡ some failed
unfolding failed reduce_owned
fails = refl

reduce_owned-IsLive_example : IsLive failed.next
unfolding default_shared
reduce_owned-IsLive_example =
    reduce_owned-IsLive calls collecting_state (effect_failed none 40) failed fails
      (refl, omega arith)

run-IsLive_example :
    (t : CoreState (parts numbers)) × (run calls idle_state
        (initialize 5 ∷ cursor_moved ∷ effect_failed none 40 ∷ [])
      ≡ some t)
    × IsLive t
unfolding default_shared
run-IsLive_example =
    run-IsLive calls idle_state (initialize 5 ∷ cursor_moved ∷ effect_failed none 40 ∷ [])
      (refl, omega arith)

reduce_owned-Follows_example : Follows collecting_state (effect_failed none 40) failed
reduce_owned-Follows_example =
    reduce_owned-Follows calls collecting_state (effect_failed none 40) failed fails

abbrev late : Event numbers
late = render_plan_failed 8 40

abbrev stayed : Transition numbers
unfolding reduce_owned
stayed = elim (reduce_owned calls collecting_state late) as (λ x. Transition numbers) [
  | none ↦ record { next = idle_state; effects = [] }
  | some t ↦ t
]

stays : reduce_owned calls collecting_state late ≡ some stayed
unfolding stayed reduce_owned
stays = refl

reduce_owned-stale_example :
    (stayed.next ≡ collecting_state) × (is_only_metric stayed.effects ≡ true)
reduce_owned-stale_example = reduce_owned-stale calls collecting_state late stayed stays refl

reduce_effect_failed-queue_example :
    Requeued demand
      (queued collecting_state.protocol.shared.demand external_cursor)
      (queued failed.next.protocol.shared.demand external_cursor)
    × (queued failed.next.protocol.shared.demand mode_changed
        ≡ queued collecting_state.protocol.shared.demand mode_changed)
unfolding reduce_owned
reduce_effect_failed-queue_example =
    reduce_effect_failed-queue calls collecting_state 40 failed demand mode_changed fails refl
      (ground arith)

enter_recovering_with_backoff_lem_example :
    (e : ScheduleTimerEffect) × ((enter_recovering_with_backoff collecting_state 40).1
      ≡ schedule_timer e)
    × (lifecycle (enter_recovering_with_backoff collecting_state 40).0 ≡ Lifecycle.recovering)
    × (e.token.id ≡ TimerId.recovery)
    × (is_active
          (enter_recovering_with_backoff collecting_state 40).0.protocol.shared.timers
          e.token
        ≡ true)
    × (16 ≤ e.delay)
    × (e.delay ≤ 256)
enter_recovering_with_backoff_lem_example = enter_recovering_with_backoff_lem collecting_state 40

-- A window that was drawn at 10: its soft cleanup is due at 210.
abbrev drawn_state : CoreState (parts numbers)
drawn_state = record collecting_state {
  protocol = record {
    shared = record default_shared { render_cleanup = scheduled 10 200 3000 };
    phase = collecting none pending default_probe_refresh;
  };
}

abbrev cleared_at : Event numbers
cleared_at = render_cleanup_applied (soft_cleared 0) 210

abbrev cleaned : Transition numbers
unfolding reduce_owned
cleaned = elim (reduce_owned calls drawn_state cleared_at) as (λ x. Transition numbers) [
  | none ↦ record { next = idle_state; effects = [] }
  | some t ↦ t
]
