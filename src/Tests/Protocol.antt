-- ===== src/Tests/Protocol.antt =====
-- The protocol of smear-cursor with numbers for the payloads, at concrete states.
use dotfiles_nix.Base.{ℕ, ◌≡◌, ◌+◌, refl, none, some, [], ◌∷◌, arith, if◌then◌else◌}
use dotfiles_nix.Smear.Policy.{full}
use dotfiles_nix.Smear.Demand.{ExternalDemand, external_cursor, default_entropy}
use dotfiles_nix.Smear.Probe.{default_probe_refresh}
use dotfiles_nix.Smear.Protocol.Phase.{
  Parts, PreparedObservationPlan, preview, ProtocolPhase, observing, ready, planning, applying,
  default_shared,
}
use dotfiles_nix.Smear.Protocol.Core.{CoreState, PlannedRender, lifecycle}
use dotfiles_nix.Smear.Protocol.Moves.{
  take_pending_proposal, accept_planned_render_mut, enter_planning, allocate_proposal_id,
}
use dotfiles_nix.Smear.Protocol.Steps.{completes, accepts, takes, step, run}
use dotfiles_nix.Smear.Protocol.Edges.{Edge, step-Edge}
use dotfiles_nix.Smear.Protocol.Generations.{run_same_generation}
use dotfiles_nix.Smear.Protocol.Retention.{staged-step, staged, give_back, drops_plan, staged_by}
use dotfiles_nix.Smear.Protocol.Proposals.{
  take_pending_proposal_lem, accept_planned_render_mut_lem, proposal_cycle, Taken, Accepted,
}

abbrev demand : ExternalDemand
demand = record { seq = 3; kind = external_cursor; observed_at = 10; buffer_perf_class = full }

-- A proposal is its identity, a scene is the sum of its updates, and a runtime counts the
-- particles that it was given back.
abbrev numbers : Parts
numbers = record {
  Surface = ℕ;
  Observation = ℕ;
  observation_demand = λ o. demand;
  Motion = ℕ;
  Transition = ℕ;
  Runtime = ℕ;
  reclaim = λ m r. r + m;
  apply_motion = λ m r. m;
  Proposal = ℕ;
  proposal_id = λ p. p;
  Cell = ℕ;
  Semantics = ℕ;
  Projection = ℕ;
  SceneUpdate = ℕ;
  apply_update = λ u s p. (s + u, p + u);
  Realization = ℕ;
}

abbrev state_in : ProtocolPhase numbers → ℕ → CoreState numbers
state_in phase generation = record {
  generation = generation;
  protocol = record { shared = default_shared; phase = phase };
  payload = record {
    entropy = default_entropy;
    latest_exact_cursor_cell = none;
    motion = 20;
    semantics = 30;
    projection = 40;
    realization = 50;
  };
}

abbrev plan : PreparedObservationPlan numbers
plan = record { runtime = preview 6; transition = 8 }

abbrev observing_state : CoreState numbers
observing_state = state_in (observing 5 default_probe_refresh (some plan)) 3

abbrev ready_after : CoreState numbers
ready_after = record (state_in (ready 5) 4) {
  payload = record {
    entropy = default_entropy;
    latest_exact_cursor_cell = none;
    motion = 26;
    semantics = 30;
    projection = 40;
    realization = 50;
  };
}

completes-ready_after : step observing_state completes ≡ some ready_after
unfolding step
completes-ready_after = refl

step-Edge_example : Edge (lifecycle observing_state) (lifecycle ready_after)
unfolding step
step-Edge_example = step-Edge observing_state ready_after completes refl

staged-step_example :
    (ready_after.payload.motion ≡ (
      if drops_plan {h = numbers} completes
      then give_back (staged observing_state.protocol.phase) observing_state.payload.motion
      else observing_state.payload.motion))
    × (staged ready_after.protocol.phase ≡ (
        if drops_plan {h = numbers} completes
        then staged_by observing_state.protocol.phase completes
        else staged observing_state.protocol.phase))
unfolding step
staged-step_example = staged-step observing_state ready_after completes refl

abbrev applying_state : CoreState numbers
applying_state = state_in (applying 5 9) 3

run_same_generation_example : lifecycle applying_state ≡ lifecycle applying_state
unfolding run step
run_same_generation_example =
    run_same_generation applying_state applying_state
      (takes 8 ∷ accepts (record { scene_update = 1; proposal = 9 }) ∷ []) refl (omega arith) refl

take_pending_proposal_lem_example : Taken applying_state 9 (take_pending_proposal applying_state 9)
take_pending_proposal_lem_example = take_pending_proposal_lem applying_state 9

abbrev planning_state : CoreState numbers
planning_state = state_in (planning 5 9) 3

abbrev render : PlannedRender numbers
render = record { scene_update = 1; proposal = 9 }

accept_planned_render_mut_lem_example :
    Accepted planning_state render (accept_planned_render_mut planning_state render)
accept_planned_render_mut_lem_example = accept_planned_render_mut_lem planning_state render

abbrev first_render : PlannedRender numbers
first_render = record { scene_update = 1; proposal = 1 }

proposal_cycle_example :
    (t : CoreState numbers) × (enter_planning
        (allocate_proposal_id ready_after).0
        (allocate_proposal_id ready_after).1
      ≡ some t)
    × (let u = (accept_planned_render_mut t first_render).0 in
        let (v, taken) = take_pending_proposal u (allocate_proposal_id ready_after).1 in
        (taken ≡ some 1)
        × (v.protocol.phase ≡ ready 5)
        × (v.generation ≡ ready_after.generation + 3))
unfolding allocate_proposal_id default_entropy
proposal_cycle_example = proposal_cycle ready_after 5 first_render refl (omega arith) refl
