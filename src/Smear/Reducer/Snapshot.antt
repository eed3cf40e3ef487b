-- ===== src/Smear/Reducer/Snapshot.antt =====
-- The payloads of the protocol that the reducer looks into, and the interface to the rest:
-- smear-cursor/src/core/state/observation/snapshot.rs, core/state/realization.rs,
-- core/runtime_reducer/decision.rs and position/observation.rs.
use dotfiles_nix.Base.{ℕ, Bool, true, false, Option, none, some, if◌then◌else◌}
use dotfiles_nix.Smear.Payloads.{Payloads}
use dotfiles_nix.Smear.Demand.{ExternalDemand}
use dotfiles_nix.Smear.Probe.Slots.{
  compatible, ProbeSlot, pending, ProbeSet, slot_reuse, sampled_cursor_color,
}
use dotfiles_nix.Smear.Probe.Slots
use dotfiles_nix.Smear.Protocol.Phase.{Parts, PendingObservation, PreparedObservationPlan}
use dotfiles_nix.Smear.Reducer.Config.{RuntimeConfig}

pub data ObservedCell (C : Type 0) : Type 0 where
  unavailable : ObservedCell C
  exact deferred : C → ObservedCell C

-- `PendingObservation::observation_id` and that of a snapshot: the demand's sequence number.
unfoldable pub pending_observation_id : PendingObservation → ℕ
pending_observation_id p = p.demand.seq

pub data AnimationSchedule : Type 0 where
  idle default_delay : AnimationSchedule
  deadline : ℕ → AnimationSchedule

unfoldable pub schedule_deadline : AnimationSchedule → Option ℕ
schedule_deadline idle = none
schedule_deadline default_delay = none
schedule_deadline (deadline at) = some at

pub data RenderCleanupAction : Type 0 where
  no_action schedule invalidate : RenderCleanupAction

module _ (w : Payloads) where
  pub record ObservationBasis : Type 0 where
    pub observed_at : ℕ
    pub mode : w.Text
    pub surface : w.Window
    pub cell : ObservedCell w.Cell
    pub viewport : w.Viewport
    pub cursor_text_context_state : w.Context

  pub record ObservationSnapshot : Type 0 where
    pub demand : ExternalDemand
    pub basis : ObservationBasis
    pub probes : ProbeSet w
    pub generations : Option w.Generations
    pub motion : w.ObservationMotion

  pub data RenderAction : Type 0 where
    draw : w.Frame → RenderAction
    clear_all noop : RenderAction

  -- `CursorTransition`, whose decision is split into its action and the rest.
  pub record CursorTransition : Type 0 where
    pub render_action : RenderAction
    pub render_decision : w.Decision
    pub animation_schedule : AnimationSchedule

  pub data RealizationDivergence : Type 0 where
    apply_metrics : w.ApplyMetrics → RealizationDivergence
    shell_state_unknown : RealizationDivergence

  pub data RealizationLedger : Type 0 where
    cleared : RealizationLedger
    consistent : w.Handle → RealizationLedger
    diverged : Option w.Handle → RealizationDivergence → RealizationLedger

  pub data ProposalExecution : Type 0 where
    draw : w.Patch → w.Draw → ProposalExecution
    clear : w.Patch → w.Clear → ProposalExecution
    noop : w.Patch → ProposalExecution
    failure : w.Patch → w.RealizationFailure → ProposalExecution

  pub record InFlightProposal : Type 0 where
    pub proposal_id : ℕ
    pub execution : ProposalExecution
    pub cleanup_action : RenderCleanupAction
    pub redraw_after_draw_if_cmdline : Bool
    pub animation_schedule : AnimationSchedule

  -- The protocol's payloads.
  abbrev pub parts : Parts
  parts = record {
    Surface = w.Surface;
    Observation = ObservationSnapshot;
    observation_demand = λ o. o.demand;
    Motion = w.Motion;
    Transition = CursorTransition;
    Runtime = w.Runtime;
    reclaim = w.reclaim;
    apply_motion = w.apply_motion;
    Proposal = InFlightProposal;
    proposal_id = λ p. p.proposal_id;
    Cell = w.Cell;
    Semantics = w.Semantics;
    Projection = w.Projection;
    SceneUpdate = w.SceneUpdate;
    apply_update = w.apply_update;
    Realization = RealizationLedger;
  }

  -- The functions of the runtime, the planner and the probe witnesses.
  pub record Calls : Type 0 where
    pub config : w.Runtime → RuntimeConfig w
    pub is_initialized : w.Runtime → Bool
    pub is_animating : w.Runtime → Bool
    pub is_enabled : w.Runtime → Bool
    pub recover_from_clock_discontinuity : w.Runtime → w.Runtime
    pub release_cleanup_cold_storage : w.Runtime → w.Runtime
    pub tracked_surface : w.Runtime → Option w.Window
    pub tracked_buffer_position : w.Runtime → Option w.Position
    pub current_corners : w.Runtime → w.Corners
    -- `derive_cursor_color_probe_witness`.
    pub derive_witness : ObservationBasis → w.Generations → Option w.Witness
    -- `plan_runtime_transition_for_runtime` and `prepare_observation_plan_with_runtime`.
    pub plan_runtime_transition :
        w.Runtime
        → Option w.Cell
        → Option ObservationSnapshot
        → ObservationSnapshot
        → ℕ
        → w.Runtime × CursorTransition
    pub prepare_plan :
        w.Runtime
        → Option w.Cell
        → Option ObservationSnapshot
        → ObservationSnapshot
        → ℕ
        → w.Runtime × PreparedObservationPlan parts

module _ {w : Payloads} where
  -- The `match` on the cursor's cell by which the reducer takes an exact one.
  unfoldable pub exact_cell : ObservationBasis w → Option w.Cell
  exact_cell b = elim b.cell [ unavailable ↦ none | exact c ↦ some c | deferred c ↦ none ]

  unfoldable pub new_snapshot :
      PendingObservation → ObservationBasis w → w.ObservationMotion → ObservationSnapshot w
  new_snapshot p basis motion = record {
    demand = p.demand;
    basis = basis;
    probes = record {
      cursor_color =
          if p.requested_probes.cursor_color
          then ProbeSlot.requested pending
          else ProbeSlot.unrequested;
      background = Slots.BackgroundProbeState.unrequested;
    };
    generations = none;
    motion = motion;
  }

  unfoldable pub observation_id : ObservationSnapshot w → ℕ
  observation_id o = o.demand.seq

  unfoldable pub with_generations :
      ObservationSnapshot w → Option w.Generations → ObservationSnapshot w
  with_generations o g = record o { generations = g }

  unfoldable pub with_probes : ObservationSnapshot w → ProbeSet w → ObservationSnapshot w
  with_probes o p = record o { probes = p }

  unfoldable pub cursor_color : ObservationSnapshot w → Option ℕ
  unfolding sampled_cursor_color
  cursor_color o = sampled_cursor_color o.probes

  unfoldable pub requires_exact_cursor_color_refresh : ObservationSnapshot w → Bool
  unfolding slot_reuse
  requires_exact_cursor_color_refresh o = elim (slot_reuse o.probes.cursor_color) [
    | none ↦ false
    | some reuse ↦ elim reuse [ compatible ↦ true | _ ↦ false ]
  ]

  unfoldable pub trusted_acknowledged_for_patch : RealizationLedger w → Option w.Handle
  trusted_acknowledged_for_patch (consistent acknowledged) = some acknowledged
  trusted_acknowledged_for_patch _ = none

  unfoldable pub cleanup_applied : RealizationLedger w → RealizationLedger w
  cleanup_applied cleared = cleared
  cleanup_applied (consistent acknowledged) = diverged (some acknowledged) shell_state_unknown
  cleanup_applied (diverged last divergence) = diverged last shell_state_unknown

  unfoldable pub acknowledge : Option w.Handle → RealizationLedger w
  acknowledge none = cleared
  acknowledge (some acknowledged) = consistent acknowledged

  unfoldable pub diverged_from : Option w.Handle → RealizationDivergence w → RealizationLedger w
  diverged_from last divergence = diverged last divergence

  unfoldable pub patch : ProposalExecution w → w.Patch
  patch (draw p realization) = p
  patch (clear p realization) = p
  patch (noop p) = p
  patch (failure p reason) = p

module _ {w : Payloads} (c : Calls w) where
  unfoldable pub cursor_color_probe_witness : ObservationSnapshot w → Option w.Witness
  cursor_color_probe_witness o = elim o.generations [
    | none ↦ none
    | some g ↦ c.derive_witness o.basis g
  ]
