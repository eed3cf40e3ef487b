-- ===== src/Smear/Protocol/Phase.antt =====
-- Phases of the protocol: smear-cursor/src/core/state/protocol.rs, lines 26 to 583.
use dotfiles_nix.Base.{ℕ, Bool, true, false, Option, none, some}
use dotfiles_nix.Smear.Types.{Lifecycle}
use dotfiles_nix.Smear.Demand.{ExternalDemand, DemandQueue, default_queue}
use dotfiles_nix.Smear.Timers.{TimerState, default_timers}
use dotfiles_nix.Smear.Policy.{RecoveryPolicyState, IngressPolicyState, default_ingress_policy}
use dotfiles_nix.Smear.Cleanup.{RenderCleanupState, cold}
use dotfiles_nix.Smear.Probe.{ProbeRequestSet, ProbeRefreshState}

-- The payloads that the protocol carries between its phases. It reads a proposal's identity, an
-- observation's demand, and the position of an observation whose cursor is exact; all else passes
-- through it unread.
pub record Parts : Type 1 where
  pub Surface : Type 0
  pub Observation : Type 0
  pub observation_demand : Observation → ExternalDemand
  pub Motion : Type 0
  pub Transition : Type 0
  pub Runtime : Type 0
  -- `reclaim_preview_particles_scratch` of the motion's particles, and `apply_prepared_motion`.
  pub reclaim : Motion → Runtime → Runtime
  pub apply_motion : Motion → Runtime → Runtime
  pub Proposal : Type 0
  pub proposal_id : Proposal → ℕ
  pub Cell : Type 0
  pub Semantics : Type 0
  pub Projection : Type 0
  pub SceneUpdate : Type 0
  -- `PlannedSceneUpdate::apply_to`.
  pub apply_update : SceneUpdate → Semantics → Projection → Semantics × Projection
  pub Realization : Type 0

pub record PendingObservation : Type 0 where
  pub demand : ExternalDemand
  pub requested_probes : ProbeRequestSet

pub data ProtocolPhaseKind : Type 0 where
  idle primed collecting observing ready planning applying recovering : ProtocolPhaseKind

module _ (h : Parts) where
  pub data PreparedObservationRuntime : Type 0 where
    preview : h.Motion → PreparedObservationRuntime
    unchanged : PreparedObservationRuntime

  pub record PreparedObservationPlan : Type 0 where
    pub runtime : PreparedObservationRuntime
    pub transition : h.Transition

  pub record ProtocolSharedState : Type 0 where
    pub demand : DemandQueue h.Surface
    pub timers : TimerState
    pub recovery_policy : RecoveryPolicyState
    pub ingress_policy : IngressPolicyState
    pub render_cleanup : RenderCleanupState

  pub data ProtocolPhase : Type 0 where
    idle : ProtocolPhase
    primed : ProtocolPhase
    collecting : Option h.Observation → PendingObservation → ProbeRefreshState → ProtocolPhase
    observing : h.Observation → ProbeRefreshState → Option PreparedObservationPlan → ProtocolPhase
    ready : h.Observation → ProtocolPhase
    planning : h.Observation → ℕ → ProtocolPhase
    applying : h.Observation → h.Proposal → ProtocolPhase
    recovering : Option h.Observation → ProtocolPhase

  pub record ProtocolState : Type 0 where
    pub shared : ProtocolSharedState
    pub phase : ProtocolPhase

module _ {h : Parts} where
  -- `ProtocolPhase::kind` and `lifecycle`.
  unfoldable pub kind : ProtocolPhase h → ProtocolPhaseKind
  kind idle = ProtocolPhaseKind.idle
  kind primed = ProtocolPhaseKind.primed
  kind (collecting r p f) = ProtocolPhaseKind.collecting
  kind (observing o f plan) = ProtocolPhaseKind.observing
  kind (ready o) = ProtocolPhaseKind.ready
  kind (planning o id) = ProtocolPhaseKind.planning
  kind (applying o p) = ProtocolPhaseKind.applying
  kind (recovering r) = ProtocolPhaseKind.recovering

abbrev kind_lifecycle : ProtocolPhaseKind → Lifecycle
kind_lifecycle idle = Lifecycle.idle
kind_lifecycle primed = Lifecycle.primed
kind_lifecycle collecting = Lifecycle.observing
kind_lifecycle observing = Lifecycle.observing
kind_lifecycle ready = Lifecycle.ready
kind_lifecycle planning = Lifecycle.planning
kind_lifecycle applying = Lifecycle.applying
kind_lifecycle recovering = Lifecycle.recovering

module _ {h : Parts} where
  unfoldable pub phase_lifecycle : ProtocolPhase h → Lifecycle
  unfolding kind
  phase_lifecycle p = kind_lifecycle (kind p)

  unfoldable pub observation : ProtocolPhase h → Option h.Observation
  observation (observing o f plan) = some o
  observation (ready o) = some o
  observation (planning o id) = some o
  observation (applying o p) = some o
  observation _ = none

  unfoldable pub phase_observation : ProtocolPhase h → Option h.Observation
  phase_observation (collecting r p f) = r
  phase_observation (recovering r) = r
  phase_observation (observing o f plan) = some o
  phase_observation (ready o) = some o
  phase_observation (planning o id) = some o
  phase_observation (applying o p) = some o
  phase_observation _ = none

  unfoldable pub retained_observation : ProtocolPhase h → Option h.Observation
  retained_observation (collecting r p f) = r
  retained_observation (recovering r) = r
  retained_observation _ = none

  unfoldable pub take_retained_observation :
      ProtocolPhase h → ProtocolPhase h × Option h.Observation
  take_retained_observation (collecting r p f) = (collecting none p f, r)
  take_retained_observation (recovering r) = (recovering none, r)
  take_retained_observation p = (p, none)

  unfoldable pub restore_retained_observation :
      ProtocolPhase h → Option h.Observation → ProtocolPhase h × Bool
  restore_retained_observation (collecting r p f) o = (collecting o p f, true)
  restore_retained_observation (recovering r) o = (recovering o, true)
  restore_retained_observation p o = (p, false)

  unfoldable pub into_retained_observation : ProtocolPhase h → Option h.Observation
  into_retained_observation (collecting r p f) = r
  into_retained_observation (recovering r) = r
  into_retained_observation (observing o f plan) = some o
  into_retained_observation (ready o) = some o
  into_retained_observation (planning o id) = some o
  into_retained_observation (applying o p) = some o
  into_retained_observation _ = none

  unfoldable pub pending_observation : ProtocolPhase h → Option PendingObservation
  pending_observation (collecting r p f) = some p
  pending_observation _ = none

  unfoldable pub probe_refresh_state : ProtocolPhase h → Option ProbeRefreshState
  probe_refresh_state (collecting r p f) = some f
  probe_refresh_state (observing o f plan) = some f
  probe_refresh_state _ = none

  unfoldable pub set_probe_refresh_phase :
      ProtocolPhase h → ProbeRefreshState → ProtocolPhase h × Bool
  set_probe_refresh_phase (collecting r p _) f = (collecting r p f, true)
  set_probe_refresh_phase (observing o _ plan) f = (observing o f plan, true)
  set_probe_refresh_phase p f = (p, false)

  unfoldable pub set_plan_phase :
      ProtocolPhase h → Option (PreparedObservationPlan h) → ProtocolPhase h × Bool
  set_plan_phase (observing o f _) plan = (observing o f plan, true)
  set_plan_phase p plan = (p, false)

  unfoldable pub take_plan_phase :
      ProtocolPhase h → ProtocolPhase h × Option (PreparedObservationPlan h)
  take_plan_phase (observing o f plan) = (observing o f none, plan)
  take_plan_phase p = (p, none)

  unfoldable pub pending_proposal : ProtocolPhase h → Option h.Proposal
  pending_proposal (applying o p) = some p
  pending_proposal _ = none

  unfoldable pub pending_plan_proposal_id : ProtocolPhase h → Option ℕ
  pending_plan_proposal_id (planning o id) = some id
  pending_plan_proposal_id _ = none

  unfoldable pub reclaim_preview_particles_into :
      PreparedObservationRuntime h → h.Runtime → h.Runtime
  reclaim_preview_particles_into (preview m) r = h.reclaim m r
  reclaim_preview_particles_into unchanged r = r

  unfoldable pub apply_to_runtime_and_take_transition :
      PreparedObservationPlan h → h.Runtime → h.Runtime × h.Transition
  apply_to_runtime_and_take_transition plan r =
      (elim plan.runtime [ preview m ↦ h.apply_motion m r | unchanged ↦ r ], plan.transition)

  unfoldable pub default_shared : ProtocolSharedState h
  default_shared = record {
    demand = default_queue;
    timers = default_timers;
    recovery_policy = record { retry_attempt = 0 };
    ingress_policy = default_ingress_policy;
    render_cleanup = cold;
  }

  unfoldable pub idle_protocol : ProtocolState h
  unfolding default_shared
  idle_protocol = record { shared = default_shared; phase = idle }
