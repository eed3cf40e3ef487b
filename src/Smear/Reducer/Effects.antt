-- ===== src/Smear/Reducer/Effects.antt =====
-- The events and the effects of the reducer: smear-cursor/src/core/event.rs, core/effect.rs and
-- core/reducer/transition.rs. The boxes around payloads are left out.
use dotfiles_nix.Base.{ℕ, List, Bool, true, false, Option}
use dotfiles_nix.Smear.Payloads.{Payloads}
use dotfiles_nix.Smear.Types.{TimerToken}
use dotfiles_nix.Smear.Policy.{BufferPerfClass}
use dotfiles_nix.Smear.Demand.{ExternalDemandKind}
use dotfiles_nix.Smear.Probe.{ProbeKind}
use dotfiles_nix.Smear.Probe.Slots.{ProbeReuse, ProbeFailure}
use dotfiles_nix.Smear.Protocol.Phase.{PendingObservation}
use dotfiles_nix.Smear.Protocol.Core.{CoreState, PlannedRender}
use dotfiles_nix.Smear.Reducer.Config.{RuntimeConfig}
use dotfiles_nix.Smear.Reducer.ProbePolicy.{ProbePolicy}
use dotfiles_nix.Smear.Reducer.Snapshot.{
  parts, ObservationBasis, RenderAction, AnimationSchedule, RealizationDivergence, InFlightProposal,
}

pub data IngressCursorModeAdmission : Type 0 where
  allowed blocked : IngressCursorModeAdmission

pub data IngressCursorCommandLineLocation : Type 0 where
  outside inside : IngressCursorCommandLineLocation

unfoldable pub is_allowed : IngressCursorModeAdmission → Bool
is_allowed allowed = true
is_allowed blocked = false

unfoldable pub is_outside : IngressCursorCommandLineLocation → Bool
is_outside outside = true
is_outside inside = false

pub data RenderCleanupExecution : Type 0 where
  soft_clear : ℕ → RenderCleanupExecution
  compact_to_budget : ℕ → ℕ → RenderCleanupExecution
  compact_to_zero : ℕ → RenderCleanupExecution

pub data EventLoopMetricEffect : Type 0 where
  ingress_coalesced delayed_ingress_pending_updated stale_token : EventLoopMetricEffect
  cleanup_converged_to_cold : ℕ → ℕ → EventLoopMetricEffect
  probe_refresh_retried probe_refresh_budget_exhausted : ProbeKind → EventLoopMetricEffect

-- `token`, `delay` and `requested_at`.
pub record ScheduleTimerEffect : Type 0 where
  pub token : TimerToken
  pub delay : ℕ
  pub requested_at : ℕ

pub data CompactionProgress : Type 0 where
  made_progress no_progress : CompactionProgress

pub data RenderCleanupAppliedAction : Type 0 where
  soft_cleared : ℕ → RenderCleanupAppliedAction
  compacted_to_budget : Bool → CompactionProgress → RenderCleanupAppliedAction
  cleanup_stalled : RenderCleanupAppliedAction

unfoldable pub converges_to_cold : RenderCleanupAppliedAction → Bool
converges_to_cold (soft_cleared retained_resources) = false
converges_to_cold (compacted_to_budget converged_to_idle _) = converged_to_idle
converges_to_cold cleanup_stalled = false

module _ (w : Payloads) where
  pub record IngressCursorPresentationRequest : Type 0 where
    pub mode_admission : IngressCursorModeAdmission
    pub command_line_location : IngressCursorCommandLineLocation
    pub prepaint_cell : Option w.Cell
    pub prepaint_shape : w.Shape

  pub data IngressCursorPresentationEffect : Type 0 where
    hide_cursor : IngressCursorPresentationEffect
    hide_cursor_and_prepaint : w.Cell → w.Shape → ℕ → IngressCursorPresentationEffect

  pub record CursorColorFallback : Type 0 where
    pub sample : ℕ
    pub witness : w.Witness

  -- `CursorPositionReadPolicy` is its only field, `smear_to_cmd`.
  pub record ObservationRuntimeContext : Type 0 where
    pub smear_to_cmd : Bool
    pub scroll_buffer_space : Bool
    pub tracked_surface : Option w.Window
    pub tracked_buffer_position : Option w.Position
    pub cursor_text_context_boundary : Option w.Boundary
    pub current_corners : w.Corners
    pub ingress_observation_surface : Option w.Surface
    pub buffer_perf_class : BufferPerfClass
    pub probe_policy : ProbePolicy

  pub record RequestProbeEffect : Type 0 where
    pub observation_id : ℕ
    pub observation_basis : ObservationBasis w
    pub cursor_color_probe_generations : Option w.Generations
    pub kind : ProbeKind
    pub smear_to_cmd : Bool
    pub buffer_perf_class : BufferPerfClass
    pub probe_policy : ProbePolicy
    pub background_chunk : Option w.Chunk
    pub cursor_color_fallback : Option CursorColorFallback

  pub record RenderPlanningObservation : Type 0 where
    pub observation_id : ℕ
    pub viewport : w.Viewport
    pub background_probe : Option w.Batch

  -- The scene is its semantics and its projection.
  pub record RenderPlanningContext : Type 0 where
    pub semantics : w.Semantics
    pub projection : w.Projection
    pub observation : Option RenderPlanningObservation
    pub acknowledged_projection : Option w.Handle
    pub config : RuntimeConfig w

  -- The decision of a `CursorTransition` stands here as its action and the rest.
  pub record RequestRenderPlanEffect : Type 0 where
    pub proposal_id : ℕ
    pub planning : RenderPlanningContext
    pub render_action : RenderAction w
    pub render_decision : w.Decision
    pub animation_schedule : AnimationSchedule
    pub requested_at : ℕ

  pub record ApplyProposalEffect : Type 0 where
    pub proposal : InFlightProposal w
    pub buffer_handle : Option w.Buffer
    pub requested_at : ℕ

  pub data Effect : Type 0 where
    schedule_timer : ScheduleTimerEffect → Effect
    request_observation_base : PendingObservation → ObservationRuntimeContext → Effect
    request_probe : RequestProbeEffect → Effect
    request_render_plan : RequestRenderPlanEffect → Effect
    apply_proposal : ApplyProposalEffect → Effect
    apply_render_cleanup : RenderCleanupExecution → Effect
    apply_ingress_cursor_presentation : IngressCursorPresentationEffect → Effect
    record_event_loop_metric : EventLoopMetricEffect → Effect
    redraw_cmdline : Effect

  pub record ExternalDemandQueuedEvent : Type 0 where
    pub kind : ExternalDemandKind
    pub observed_at : ℕ
    pub buffer_perf_class : BufferPerfClass
    pub ingress_cursor_presentation : Option IngressCursorPresentationRequest
    pub ingress_observation_surface : Option w.Surface

  pub record ObservationBaseCollectedEvent : Type 0 where
    pub observation_id : ℕ
    pub basis : ObservationBasis w
    pub cursor_color_probe_generations : Option w.Generations
    pub motion : w.ObservationMotion

  -- The first argument is the observation's identity.
  pub data ProbeReportedEvent : Type 0 where
    cursor_color_ready : ℕ → ProbeReuse → Option ℕ → ProbeReportedEvent
    cursor_color_failed : ℕ → ProbeFailure → ProbeReportedEvent
    background_ready : ℕ → ProbeReuse → w.Batch → ProbeReportedEvent
    background_chunk_ready : ℕ → w.Chunk → w.Mask → ProbeReportedEvent
    background_failed : ℕ → ProbeFailure → ProbeReportedEvent

  -- The first argument is the proposal's identity; the reason of a failure is not read.
  pub data ApplyReport : Type 0 where
    applied_fully : ℕ → ℕ → Bool → ApplyReport
    applied_degraded : ℕ → RealizationDivergence w → ℕ → Bool → ApplyReport
    apply_failed : ℕ → RealizationDivergence w → ℕ → ApplyReport

  -- Each event with its payload's fields; a time stands last.
  pub data Event : Type 0 where
    initialize : ℕ → Event
    external_demand_queued : ExternalDemandQueuedEvent → Event
    observation_base_collected : ObservationBaseCollectedEvent → Event
    probe_reported : ProbeReportedEvent → Event
    render_plan_computed : PlannedRender (parts w) → ℕ → Event
    render_plan_failed : ℕ → ℕ → Event
    apply_reported : ApplyReport → Event
    render_cleanup_applied : RenderCleanupAppliedAction → ℕ → Event
    render_cleanup_retained_resources_observed : ℕ → ℕ → Event
    timer_fired_with_token : TimerToken → ℕ → Event
    timer_lost_with_token : TimerToken → ℕ → Event
    effect_failed : Option ℕ → ℕ → Event

  pub record Transition : Type 0 where
    pub next : CoreState (parts w)
    pub effects : List Effect
