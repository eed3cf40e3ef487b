-- ===== src/Smear/Reducer/Planning.antt =====
-- Planning from a ready observation: smear-cursor/src/core/reducer/machine/planning/mod.rs and
-- runtime.rs, lines 125 to 236. `none` is the `unreachable!` of the source.
use dotfiles_nix.Base.{ℕ, [], ◌∷◌, Option, none, some, if◌then◌else◌}
use dotfiles_nix.Smear.Types.{Lifecycle, lifecycle_eq}
use dotfiles_nix.Smear.Payloads.{Payloads}
use dotfiles_nix.Smear.Probe.Slots.{batch}
use dotfiles_nix.Smear.Protocol.Phase
use dotfiles_nix.Smear.Protocol.Phase.{
  PreparedObservationPlan, apply_to_runtime_and_take_transition,
}
use dotfiles_nix.Smear.Protocol.Core.{CoreState, with_runtime, lifecycle}
use dotfiles_nix.Smear.Protocol.Moves.{allocate_proposal_id, enter_planning}
use dotfiles_nix.Smear.Reducer.Snapshot.{
  parts, Calls, ObservationSnapshot, observation_id, CursorTransition, draw, clear_all, noop,
  trusted_acknowledged_for_patch,
}
use dotfiles_nix.Smear.Reducer.Effects.{
  Effect, Transition, request_render_plan, RenderPlanningObservation,
}

module _ {w : Payloads} where
  -- `Transition::new(state, Vec::new())`, `stay` and `stay_owned`.
  abbrev pub stay_owned : CoreState (parts w) → Transition w
  stay_owned s = record { next = s; effects = [] }

  unfoldable pub render_planning_observation : ObservationSnapshot w → RenderPlanningObservation w
  render_planning_observation o = record {
    observation_id = observation_id o;
    viewport = o.basis.viewport;
    background_probe = batch o.probes.background;
  }

  unfoldable pub background_probe_plan :
      PreparedObservationPlan (parts w) → w.Viewport → Option w.ProbePlan
  background_probe_plan plan viewport = elim plan.transition.render_action [
    | draw frame ↦ some (w.frame_plan frame viewport)
    | clear_all ↦ none
    | noop ↦ none
  ]

module _ {w : Payloads} (c : Calls w) where
  -- The request at the end of `plan_ready_state_with_transition`.
  unfoldable pub render_plan_effect :
      CoreState (parts w) → ObservationSnapshot w → ℕ → ℕ → CursorTransition w → Effect w
  render_plan_effect s o proposal_id observed_at t = request_render_plan (record {
    proposal_id = proposal_id;
    planning = record {
      semantics = s.payload.semantics;
      projection = s.payload.projection;
      observation = some (render_planning_observation o);
      acknowledged_projection = trusted_acknowledged_for_patch s.payload.realization;
      config = c.config s.payload.motion;
    };
    render_action = t.render_action;
    render_decision = t.render_decision;
    animation_schedule = t.animation_schedule;
    requested_at = observed_at;
  })

  -- What `plan_ready_state_with_transition` does with an observation and a new identity.
  abbrev plan_with :
      CoreState (parts w)
      → ObservationSnapshot w
      → ℕ
      → ℕ
      → CursorTransition w
      → Option (Transition w)
  plan_with s o proposal_id observed_at t =
      if lifecycle_eq (lifecycle s) Lifecycle.ready
      then elim (enter_planning s proposal_id) [
        | none ↦ none
        | some next ↦ some (record {
          next = next;
          effects = render_plan_effect s o proposal_id observed_at t ∷ [];
        })
      ]
      else some (stay_owned s)

  unfoldable pub plan_ready_state_with_transition :
      CoreState (parts w) → ℕ → CursorTransition w → Option (Transition w)
  unfolding Phase.observation allocate_proposal_id lifecycle enter_planning
  plan_ready_state_with_transition s observed_at t = elim (Phase.observation s.protocol.phase) [
    | none ↦ some (stay_owned s)
    | some o ↦
        let (u, proposal_id) = allocate_proposal_id s in plan_with u o proposal_id observed_at t
  ]

  unfoldable pub plan_ready_state :
      CoreState (parts w) → Option (ObservationSnapshot w) → ℕ → Option (Transition w)
  unfolding Phase.observation plan_ready_state_with_transition with_runtime
  plan_ready_state s previous observed_at = elim (Phase.observation s.protocol.phase) [
    | none ↦ some (stay_owned s)
    | some o ↦
        let (runtime, t) =
          c.plan_runtime_transition s.payload.motion s.payload.latest_exact_cursor_cell previous o
            observed_at in
        plan_ready_state_with_transition (with_runtime s runtime) observed_at t
  ]

  -- `plan_ready_state_with_prepared`, under its other name `…_with_observation_plan` too.
  unfoldable pub plan_ready_state_with_prepared :
      CoreState (parts w) → ℕ → PreparedObservationPlan (parts w) → Option (Transition w)
  unfolding plan_ready_state_with_transition with_runtime
  plan_ready_state_with_prepared s observed_at plan =
      let (runtime, t) = apply_to_runtime_and_take_transition plan s.payload.motion in
      plan_ready_state_with_transition (with_runtime s runtime) observed_at t

  -- The runtime is taken out of the state and put back.
  unfoldable pub prepare_observation_plan :
      CoreState (parts w)
      → Option (ObservationSnapshot w)
      → ObservationSnapshot w
      → ℕ
      → CoreState (parts w) × PreparedObservationPlan (parts w)
  unfolding with_runtime
  prepare_observation_plan s previous o observed_at =
      let (runtime, plan) =
        c.prepare_plan s.payload.motion s.payload.latest_exact_cursor_cell previous o observed_at in
      (with_runtime s runtime, plan)
