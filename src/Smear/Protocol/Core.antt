-- ===== src/Smear/Protocol/Core.antt =====
-- The reducer's root state and its phase transitions: smear-cursor/src/core/state/protocol.rs, from
-- line 585. `&mut self` methods return the new state with their result. `Rc::make_mut` copies a
-- shared value before it is written, so a reference that another holds never changes.
use dotfiles_nix.Base.{ℕ, Bool, true, false, Option, none, some, if◌then◌else◌, or_else}
use mathlib.Core.Option
use dotfiles_nix.Smear.Types.{Lifecycle, lifecycle_eq, next}
use dotfiles_nix.Smear.Demand.{ExternalDemand, EntropyState}
use dotfiles_nix.Smear.Protocol.Phase
use dotfiles_nix.Smear.Protocol.Phase.{
  Parts, ProtocolPhaseKind, PendingObservation, PreparedObservationPlan, ProtocolSharedState,
  ProtocolPhase, ProtocolState, idle, primed, collecting, observing, ready, planning, applying,
  recovering, phase_lifecycle, idle_protocol, into_retained_observation, take_plan_phase,
  reclaim_preview_particles_into,
}

pub record CoreStatePayload (h : Parts) : Type 0 where
  pub entropy : EntropyState
  pub latest_exact_cursor_cell : Option h.Cell
  pub motion : h.Runtime
  pub semantics : h.Semantics
  pub projection : h.Projection
  pub realization : h.Realization

pub record CoreState (h : Parts) : Type 0 where
  pub generation : ℕ
  pub protocol : ProtocolState h
  pub payload : CoreStatePayload h

pub record PlannedRender (h : Parts) : Type 0 where
  pub scene_update : h.SceneUpdate
  pub proposal : h.Proposal

module _ {h : Parts} where
  unfoldable pub lifecycle : CoreState h → Lifecycle
  unfolding phase_lifecycle
  lifecycle s = phase_lifecycle s.protocol.phase

  unfoldable pub needs_initialize : CoreState h → Bool
  unfolding Phase.kind
  needs_initialize s = elim (Phase.kind s.protocol.phase) [
    | ProtocolPhaseKind.idle ↦ true
    | _ ↦ false
  ]

  unfoldable pub active_demand : CoreState h → Option ExternalDemand
  unfolding Phase.pending_observation Phase.observation
  active_demand s =
      or_else (Option.map (λ p. p.demand) (Phase.pending_observation s.protocol.phase))
        (Option.map h.observation_demand (Phase.observation s.protocol.phase))

  unfoldable pub fallback_cursor_cell : CoreState h → Option h.Cell → Option h.Cell
  fallback_cursor_cell s observed = or_else observed s.payload.latest_exact_cursor_cell

  -- `commit_protocol`: a change of lifecycle is a new generation.
  unfoldable pub commit_protocol : CoreState h → ProtocolState h → Lifecycle → CoreState h
  unfolding phase_lifecycle next
  commit_protocol s protocol previous = record s {
    generation =
        if lifecycle_eq previous (phase_lifecycle protocol.phase)
        then s.generation
        else next s.generation;
    protocol = protocol;
  }

  -- A transition that moves the state to `phase` and keeps the shared facts: the bodies of
  -- `map_protocol` and `try_map_protocol`, and of the methods that call `commit_protocol`.
  unfoldable pub move_to : CoreState h → ProtocolPhase h → CoreState h
  unfolding lifecycle commit_protocol
  move_to s phase =
      commit_protocol s (record { shared = s.protocol.shared; phase = phase }) (lifecycle s)

  -- What the same methods do where the phase does not allow the transition.
  unfoldable pub stay : CoreState h → CoreState h
  unfolding lifecycle commit_protocol
  stay s = commit_protocol s s.protocol (lifecycle s)

  unfoldable pub take_prepared_observation_plan :
      CoreState h → CoreState h × Option (PreparedObservationPlan h)
  unfolding take_plan_phase
  take_prepared_observation_plan s =
      let (phase, plan) = take_plan_phase s.protocol.phase in
      (record s { protocol = record { shared = s.protocol.shared; phase = phase } }, plan)

  unfoldable pub with_runtime : CoreState h → h.Runtime → CoreState h
  with_runtime s r = record s {
    payload = record {
      entropy = s.payload.entropy;
      latest_exact_cursor_cell = s.payload.latest_exact_cursor_cell;
      motion = r;
      semantics = s.payload.semantics;
      projection = s.payload.projection;
      realization = s.payload.realization;
    };
  }

  abbrev reclaim_plan : CoreState h → Option (PreparedObservationPlan h) → CoreState h
  reclaim_plan s none = s
  reclaim_plan s (some plan) =
      with_runtime s (reclaim_preview_particles_into plan.runtime s.payload.motion)

  unfoldable pub recycle_staged_prepared_observation_plan : CoreState h → CoreState h
  unfolding take_prepared_observation_plan with_runtime reclaim_preview_particles_into
  recycle_staged_prepared_observation_plan s =
      let (t, plan) = take_prepared_observation_plan s in reclaim_plan t plan
