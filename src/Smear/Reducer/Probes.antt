-- ===== src/Smear/Reducer/Probes.antt =====
-- Collected observations and probe reports: smear-cursor/src/core/reducer/machine/observation.rs,
-- lines 223 to 321 and 431 to 546. `none` is an `unreachable!` of the source.
use dotfiles_nix.Base.{
  Bool, true, false, ◌||◌, not, [], ◌∷◌, Option, none, some, ◌==◌, if◌then◌else◌,
}
use mathlib.Core.Option
use dotfiles_nix.Smear.Payloads.{Payloads}
use dotfiles_nix.Smear.Probe.{ProbeKind, ProbeRefreshState, note_refresh_required}
use dotfiles_nix.Smear.Probe.Slots
use dotfiles_nix.Smear.Probe.Slots.{
  ProbeReuse, refresh_required, is_pending, is_requested, set_cursor_color_state, from_plan,
  accept_batch, apply_chunk, set_failed, ProbeState, BackgroundProbeState,
}
use dotfiles_nix.Smear.Protocol.Phase
use dotfiles_nix.Smear.Protocol.Phase.{
  ProtocolPhase, observing, ready, planning, applying, PreparedObservationPlan, PendingObservation,
}
use dotfiles_nix.Smear.Protocol.Core.{
  CoreState, fallback_cursor_cell, take_prepared_observation_plan, active_demand,
}
use dotfiles_nix.Smear.Protocol.Setters.{
  with_latest_exact_cursor_cell, take_retained, restore_retained,
}
use dotfiles_nix.Smear.Protocol.Moves.{
  enter_ready, activate_observation, set_prepared_observation_plan, set_probe_refresh_state,
  replace_active_observation_with_pending, complete_active_observation, into_primed,
}
use dotfiles_nix.Smear.Reducer.Config.{requires_cursor_color_sampling_for_mode}
use dotfiles_nix.Smear.Reducer.Snapshot.{
  parts, Calls, ObservationSnapshot, new_snapshot, with_generations, with_probes, exact_cell,
  pending_observation_id,
}
use dotfiles_nix.Smear.Reducer.Effects.{
  Effect, Transition, record_event_loop_metric, probe_refresh_retried,
  probe_refresh_budget_exhausted, ProbeReportedEvent, ObservationBaseCollectedEvent,
}
use dotfiles_nix.Smear.Reducer.Delays.{reset_recovery_attempt}
use dotfiles_nix.Smear.Reducer.Requests.{
  probe_requests_for, observation_cursor_color_fallback, next_pending_probe_effect,
  observation_base_effect,
}
use dotfiles_nix.Smear.Reducer.Planning.{
  stay_owned, plan_ready_state, plan_ready_state_with_prepared, prepare_observation_plan,
}
use dotfiles_nix.Smear.Reducer.Observing.{observe_or_plan, push_front}
use dotfiles_nix.Smear.Reducer.ProbeReports.{
  updated, refresh_required_for, apply_probe_report, with_observation, with_background_plan,
}

module _ {w : Payloads} (c : Calls w) where
  unfoldable pub complete_mode_scoped_cursor_color_probe :
      CoreState (parts w) → ObservationSnapshot w → ObservationSnapshot w
  complete_mode_scoped_cursor_color_probe s o =
      if not (is_requested o.probes.cursor_color)
        || requires_cursor_color_sampling_for_mode (c.config s.payload.motion) o.basis.mode
      then o
      else with_probes o (set_cursor_color_state o.probes (ProbeState.ready Slots.exact none)).0

  -- `prepared_plan.or_else(…)`: the plan that is staged is taken only where none was prepared.
  abbrev prepared_or_staged :
      CoreState (parts w)
      → Option (PreparedObservationPlan (parts w))
      → CoreState (parts w) × Option (PreparedObservationPlan (parts w))
  prepared_or_staged s (some plan) = (s, some plan)
  prepared_or_staged s none = take_prepared_observation_plan s

  unfoldable pub finalize_ready_observation :
      CoreState (parts w)
      → Option (PreparedObservationPlan (parts w))
      → Option (ObservationSnapshot w)
      → Option (Transition w)
  unfolding Phase.observation reset_recovery_attempt with_latest_exact_cursor_cell
      plan_ready_state_with_prepared plan_ready_state take_prepared_observation_plan
  finalize_ready_observation s prepared previous = elim (Phase.observation s.protocol.phase) [
    | none ↦ some (stay_owned s)
    | some o ↦
        let cell = fallback_cursor_cell s (exact_cell o.basis) in
        let (t, staged) = prepared_or_staged s prepared in
        let u = reset_recovery_attempt (with_latest_exact_cursor_cell t cell) in
        elim staged [
          | some plan ↦ plan_ready_state_with_prepared c u o.basis.observed_at plan
          | none ↦ plan_ready_state c u previous o.basis.observed_at
        ]
  ]

  -- The rest of `reduce_observation_base_collected` where no probe is pending.
  unfoldable pub finish_collected :
      CoreState (parts w)
      → ObservationSnapshot w
      → Option (PreparedObservationPlan (parts w))
      → Option (ObservationSnapshot w)
      → Option (Transition w)
  unfolding enter_ready finalize_ready_observation restore_retained
  finish_collected s o prepared previous =
      let (t, ok) = enter_ready s o in
      if ok
      then finalize_ready_observation t prepared previous
      else some (stay_owned (restore_retained t previous).0)

  -- The rest where a probe is pending.
  unfoldable pub probe_collected :
      CoreState (parts w)
      → ObservationSnapshot w
      → Option (PreparedObservationPlan (parts w))
      → Option (ObservationSnapshot w)
      → Effect w
      → Option (Transition w)
  unfolding activate_observation restore_retained set_prepared_observation_plan
  probe_collected s o prepared previous probe =
      let (t, activated) = activate_observation s o in
      if not activated
      then some (stay_owned (restore_retained t previous).0)
      else let (u, staged) = set_prepared_observation_plan t prepared in
        if not staged then some (stay_owned u) else some (record { next = u; effects = probe ∷ [] })

  -- The rest once the base of the pending observation is matched.
  unfoldable pub collect :
      CoreState (parts w)
      → PendingObservation
      → ObservationBaseCollectedEvent w
      → Option (Transition w)
  unfolding Phase.retained_observation take_retained prepare_observation_plan reset_recovery_attempt
      with_latest_exact_cursor_cell finish_collected probe_collected
  collect s p e =
      let cell = fallback_cursor_cell s (exact_cell e.basis) in
      let fallback =
        observation_cursor_color_fallback c (Phase.retained_observation s.protocol.phase) in
      let (t, previous) = take_retained s in
      let first =
        with_generations (new_snapshot p e.basis e.motion) e.cursor_color_probe_generations in
      let prepares : CoreState (parts w) × Option (PreparedObservationPlan (parts w)) =
        if p.requested_probes.background
        then (let (u, plan) = prepare_observation_plan c t previous first e.basis.observed_at in
            (u, some plan))
        else (t, none) in
      let o =
        complete_mode_scoped_cursor_color_probe prepares.0
          (with_background_plan first prepares.1) in
      let base = reset_recovery_attempt (with_latest_exact_cursor_cell prepares.0 cell) in
      elim (next_pending_probe_effect c base o fallback) [
        | none ↦ finish_collected base o prepares.1 previous
        | some probe ↦ probe_collected base o prepares.1 previous probe
      ]

  unfoldable pub reduce_observation_base_collected :
      CoreState (parts w) → ObservationBaseCollectedEvent w → Option (Transition w)
  unfolding Phase.pending_observation
  reduce_observation_base_collected s e = elim (Phase.pending_observation s.protocol.phase) [
    | none ↦ some (stay_owned s)
    | some p ↦
        if not (pending_observation_id p == e.observation_id)
        then some (stay_owned s)
        else collect s p e
  ]

  -- What a refresh does once its retry is counted.
  unfoldable pub retry_refresh :
      CoreState (parts w) → ProbeKind → ProbeRefreshState × Bool → Option (Transition w)
  unfolding observe_or_plan into_primed set_probe_refresh_state Phase.pending_observation
  retry_refresh s kind (refresh, true) = elim (active_demand s) [
    | none ↦ some (stay_owned s)
    | some demand ↦
        Option.map
          (push_front (some (record_event_loop_metric (probe_refresh_budget_exhausted kind))))
          (observe_or_plan c (into_primed s) demand.observed_at)
  ]
  retry_refresh s kind (refresh, false) =
      let (t, ok) = set_probe_refresh_state s refresh in
      if not ok then some (stay_owned t) else elim (Phase.pending_observation t.protocol.phase) [
        | none ↦ some (stay_owned t)
        | some p ↦ some (record {
          next = t;
          effects =
              record_event_loop_metric (probe_refresh_retried kind)
              ∷ observation_base_effect c t p none
              ∷ [];
        })
      ]

  unfoldable pub refresh_probe : CoreState (parts w) → ProbeKind → Option (Transition w)
  unfolding Phase.observation replace_active_observation_with_pending reset_recovery_attempt
      Phase.probe_refresh_state retry_refresh
  refresh_probe s kind = elim (Phase.observation s.protocol.phase) [
    | none ↦ some (stay_owned s)
    | some o ↦
        let pending : PendingObservation = record {
          demand = o.demand;
          requested_probes = probe_requests_for c s o.demand.buffer_perf_class;
        } in
        let (t, ok) = replace_active_observation_with_pending (reset_recovery_attempt s) pending in
        if not ok then some (stay_owned t) else elim (Phase.probe_refresh_state t.protocol.phase) [
          | none ↦ some (stay_owned t)
          | some refresh ↦ retry_refresh t kind (note_refresh_required refresh kind)
        ]
  ]

  unfoldable pub update_probe : CoreState (parts w) → Option (Transition w)
  unfolding Phase.observation take_prepared_observation_plan complete_active_observation
      finalize_ready_observation
  update_probe s = elim (Phase.observation s.protocol.phase) [
    | none ↦ some (stay_owned s)
    | some o ↦
        elim (next_pending_probe_effect c s o (observation_cursor_color_fallback c (some o))) [
          | some probe ↦ some (record { next = s; effects = probe ∷ [] })
          | none ↦
              let (t, prepared) = take_prepared_observation_plan s in
              let (u, ok) = complete_active_observation t in
              if not ok then some (stay_owned u) else finalize_ready_observation u prepared none
        ]
  ]

  unfoldable pub reduce_probe_reported :
      CoreState (parts w) → ProbeReportedEvent w → Option (Transition w)
  unfolding Phase.observation with_observation refresh_probe update_probe
  reduce_probe_reported s e = elim (Phase.observation s.protocol.phase) [
    | none ↦ some (stay_owned s)
    | some o ↦ elim (apply_probe_report o e) [
      | none ↦ some (stay_owned s)
      | some r ↦
          let t = with_observation s r.0 in
          elim r.1 [ refresh_required_for kind ↦ refresh_probe t kind | updated ↦ update_probe t ]
    ]
  ]
