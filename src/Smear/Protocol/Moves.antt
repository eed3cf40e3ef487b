-- ===== src/Smear/Protocol/Moves.antt =====
-- Transitions of `CoreState`: smear-cursor/src/core/state/protocol.rs, lines 883 to 1215. A method
-- that consumes the state and fails returns `none`; a `&mut` method returns the state and whether it
-- moved. Each `…_phase` is the `match` on the phase of the method that it stands above.
use dotfiles_nix.Base.{ℕ, Bool, true, false, Option, none, some, ◌==◌, if◌then◌else◌}
use dotfiles_nix.Smear.Demand.{
  allocate_proposal_id as entropy_proposal_id, allocate_ingress_seq as entropy_ingress_seq,
  DemandQueue, EntropyState,
}
use dotfiles_nix.Smear.Probe.{ProbeRefreshState, default_probe_refresh}
use dotfiles_nix.Smear.Protocol.Phase.{
  Parts, PendingObservation, PreparedObservationPlan, ProtocolPhase, primed, collecting, observing,
  ready, planning, applying, recovering, into_retained_observation, set_plan_phase,
  set_probe_refresh_phase,
}
use dotfiles_nix.Smear.Protocol.Core.{
  CoreState, PlannedRender, move_to, stay, recycle_staged_prepared_observation_plan,
}

module _ {h : Parts} where
  abbrev with_entropy : CoreState h → EntropyState → CoreState h
  with_entropy s e = record s {
    payload = record {
      entropy = e;
      latest_exact_cursor_cell = s.payload.latest_exact_cursor_cell;
      motion = s.payload.motion;
      semantics = s.payload.semantics;
      projection = s.payload.projection;
      realization = s.payload.realization;
    };
  }

  abbrev enter_observing_request_phase :
      CoreState h → PendingObservation → ProtocolPhase h → Option (CoreState h)
  enter_observing_request_phase s p primed =
      some (move_to s (collecting none p default_probe_refresh))
  enter_observing_request_phase s p (ready o) =
      some (move_to s (collecting (some o) p default_probe_refresh))
  enter_observing_request_phase s p _ = none

  unfoldable pub enter_observing_request : CoreState h → PendingObservation → Option (CoreState h)
  unfolding recycle_staged_prepared_observation_plan move_to
  enter_observing_request s p =
      let t = recycle_staged_prepared_observation_plan s in
      enter_observing_request_phase t p t.protocol.phase

  abbrev activate_observation_phase :
      CoreState h → h.Observation → ProtocolPhase h → CoreState h × Bool
  activate_observation_phase s o (collecting r p f) = (move_to s (observing o f none), true)
  activate_observation_phase s o _ = (stay s, false)

  unfoldable pub activate_observation : CoreState h → h.Observation → CoreState h × Bool
  unfolding move_to stay
  activate_observation s o = activate_observation_phase s o s.protocol.phase

  abbrev replace_active_observation_with_pending_phase :
      CoreState h → PendingObservation → ProtocolPhase h → CoreState h × Bool
  replace_active_observation_with_pending_phase s p (observing o f plan) =
      (move_to s (collecting (some o) p f), true)
  replace_active_observation_with_pending_phase s p _ = (stay s, false)

  unfoldable pub replace_active_observation_with_pending :
      CoreState h → PendingObservation → CoreState h × Bool
  unfolding recycle_staged_prepared_observation_plan move_to stay
  replace_active_observation_with_pending s p =
      let t = recycle_staged_prepared_observation_plan s in
      replace_active_observation_with_pending_phase t p t.protocol.phase

  abbrev complete_active_observation_phase : CoreState h → ProtocolPhase h → CoreState h × Bool
  complete_active_observation_phase s (observing o f plan) = (move_to s (ready o), true)
  complete_active_observation_phase s _ = (stay s, false)

  unfoldable pub complete_active_observation : CoreState h → CoreState h × Bool
  unfolding recycle_staged_prepared_observation_plan move_to stay
  complete_active_observation s =
      let t = recycle_staged_prepared_observation_plan s in
      complete_active_observation_phase t t.protocol.phase

  abbrev restore_retained_observation_to_ready_phase :
      CoreState h → ProtocolPhase h → CoreState h × Bool
  restore_retained_observation_to_ready_phase s (recovering (some o)) = (move_to s (ready o), true)
  restore_retained_observation_to_ready_phase s _ = (stay s, false)

  unfoldable pub restore_retained_observation_to_ready : CoreState h → CoreState h × Bool
  unfolding recycle_staged_prepared_observation_plan move_to stay
  restore_retained_observation_to_ready s =
      let t = recycle_staged_prepared_observation_plan s in
      restore_retained_observation_to_ready_phase t t.protocol.phase

  abbrev enter_ready_phase : CoreState h → h.Observation → ProtocolPhase h → CoreState h × Bool
  enter_ready_phase s o (collecting r p f) = (move_to s (ready o), true)
  enter_ready_phase s o _ = (stay s, false)

  unfoldable pub enter_ready : CoreState h → h.Observation → CoreState h × Bool
  unfolding recycle_staged_prepared_observation_plan move_to stay
  enter_ready s o =
      let t = recycle_staged_prepared_observation_plan s in enter_ready_phase t o t.protocol.phase

  abbrev with_phase : CoreState h → ProtocolPhase h → CoreState h
  with_phase s p = record s { protocol = record { shared = s.protocol.shared; phase = p } }

  unfoldable pub set_probe_refresh_state : CoreState h → ProbeRefreshState → CoreState h × Bool
  unfolding set_probe_refresh_phase
  set_probe_refresh_state s f =
      let (p, ok) = set_probe_refresh_phase s.protocol.phase f in (with_phase s p, ok)

  unfoldable pub set_prepared_observation_plan :
      CoreState h → Option (PreparedObservationPlan h) → CoreState h × Bool
  unfolding recycle_staged_prepared_observation_plan set_plan_phase
  set_prepared_observation_plan s plan =
      let t = recycle_staged_prepared_observation_plan s in
      let (p, ok) = set_plan_phase t.protocol.phase plan in (with_phase t p, ok)

  abbrev enter_planning_phase : CoreState h → ℕ → ProtocolPhase h → Option (CoreState h)
  enter_planning_phase s id (ready o) = some (move_to s (planning o id))
  enter_planning_phase s id _ = none

  unfoldable pub enter_planning : CoreState h → ℕ → Option (CoreState h)
  unfolding move_to
  enter_planning s id = enter_planning_phase s id s.protocol.phase

  unfoldable pub into_primed : CoreState h → CoreState h
  unfolding recycle_staged_prepared_observation_plan move_to
  into_primed s = move_to (recycle_staged_prepared_observation_plan s) primed

  unfoldable pub enter_recovering : CoreState h → CoreState h
  unfolding recycle_staged_prepared_observation_plan move_to into_retained_observation
  enter_recovering s =
      let t = recycle_staged_prepared_observation_plan s in
      move_to t (recovering (into_retained_observation t.protocol.phase))

  unfoldable pub allocate_ingress_seq : CoreState h → CoreState h × ℕ
  unfolding entropy_ingress_seq
  allocate_ingress_seq s =
      let (e, seq) = entropy_ingress_seq s.payload.entropy in (with_entropy s e, seq)

  unfoldable pub allocate_proposal_id : CoreState h → CoreState h × ℕ
  unfolding entropy_proposal_id
  allocate_proposal_id s =
      let (e, id) = entropy_proposal_id s.payload.entropy in (with_entropy s e, id)

  abbrev take_pending_proposal_phase :
      CoreState h → ℕ → ProtocolPhase h → CoreState h × Option h.Proposal
  take_pending_proposal_phase s id (applying o p) =
      if h.proposal_id p == id then (move_to s (ready o), some p) else (stay s, none)
  take_pending_proposal_phase s id _ = (stay s, none)

  unfoldable pub take_pending_proposal : CoreState h → ℕ → CoreState h × Option h.Proposal
  unfolding move_to stay
  take_pending_proposal s id = take_pending_proposal_phase s id s.protocol.phase

  abbrev update_scene : CoreState h → h.SceneUpdate → CoreState h
  update_scene s u =
      let scene = h.apply_update u s.payload.semantics s.payload.projection in
      record s {
        payload = record {
          entropy = s.payload.entropy;
          latest_exact_cursor_cell = s.payload.latest_exact_cursor_cell;
          motion = s.payload.motion;
          semantics = scene.0;
          projection = scene.1;
          realization = s.payload.realization;
        };
      }

  abbrev accept_planned_render_phase :
      CoreState h → PlannedRender h → ProtocolPhase h → CoreState h × Bool
  accept_planned_render_phase s r (planning o id) =
      if id == h.proposal_id r.proposal
      then (update_scene (move_to s (applying o r.proposal)) r.scene_update, true)
      else (stay s, false)
  accept_planned_render_phase s r _ = (stay s, false)

  unfoldable pub accept_planned_render_mut : CoreState h → PlannedRender h → CoreState h × Bool
  unfolding move_to stay
  accept_planned_render_mut s r = accept_planned_render_phase s r s.protocol.phase

  -- The demand queue moved through a transition, with its result.
  unfoldable pub map_demand_queue :
      {R : Type 0}
      → CoreState h
      → (DemandQueue h.Surface → DemandQueue h.Surface × R)
      → CoreState h × R
  map_demand_queue s f =
      let shared = s.protocol.shared in
      let (queue, result) = f shared.demand in
      (
        record s {
          protocol = record {
            shared = record {
              demand = queue;
              timers = shared.timers;
              recovery_policy = shared.recovery_policy;
              ingress_policy = shared.ingress_policy;
              render_cleanup = shared.render_cleanup;
            };
            phase = s.protocol.phase;
          };
        },
        result,
      )
