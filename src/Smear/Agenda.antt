-- ===== src/Smear/Agenda.antt =====
-- The two classes of effects, smear-cursor/src/core/effect.rs, and the agenda that joins shell-only
-- effects: smear-cursor/src/events/runtime/dispatch_queue.rs.
use dotfiles_nix.Base.{
  ◌≡◌, refl, ℕ, Bool, true, false, List, [], ◌∷◌, ◌++◌, some, ◌⊎◌, inl, inr, back, set_back, ◌+◌,
}
use dotfiles_nix.Base.Words.{saturating_add}
use dotfiles_nix.Smear.Payloads.{Payloads}
use dotfiles_nix.Smear.Probe.{cursor_color, background}
use dotfiles_nix.Smear.Protocol.Phase.{PendingObservation}
use dotfiles_nix.Smear.Reducer.Effects.{
  Effect, EventLoopMetricEffect, ingress_coalesced, delayed_ingress_pending_updated, stale_token,
  cleanup_converged_to_cold, probe_refresh_retried, probe_refresh_budget_exhausted,
  ScheduleTimerEffect, ObservationRuntimeContext, RequestProbeEffect, RequestRenderPlanEffect,
  ApplyProposalEffect, RenderCleanupExecution, IngressCursorPresentationEffect,
}

module _ (w : Payloads) where
  pub data OrderedEffect : Type 0 where
    schedule_timer : ScheduleTimerEffect → OrderedEffect
    request_observation_base : PendingObservation → ObservationRuntimeContext w → OrderedEffect
    request_probe : RequestProbeEffect w → OrderedEffect
    request_render_plan : RequestRenderPlanEffect w → OrderedEffect
    apply_proposal : ApplyProposalEffect w → OrderedEffect
    apply_render_cleanup : RenderCleanupExecution → OrderedEffect
    apply_ingress_cursor_presentation : IngressCursorPresentationEffect w → OrderedEffect

pub data ShellOnlyEffect : Type 0 where
  record_event_loop_metric : EventLoopMetricEffect → ShellOnlyEffect
  redraw_cmdline : ShellOnlyEffect

pub record PendingMetricEffects : Type 0 where
  pub ingress_coalesced : ℕ
  pub delayed_ingress_pending_updated : ℕ
  pub stale_token : ℕ
  pub cleanup_converged_to_cold : List (ℕ × ℕ)
  pub cursor_color_probe_refresh_retried : ℕ
  pub background_probe_refresh_retried : ℕ
  pub cursor_color_probe_refresh_budget_exhausted : ℕ
  pub background_probe_refresh_budget_exhausted : ℕ

abbrev pub no_metrics : PendingMetricEffects
no_metrics = record {
  ingress_coalesced = 0;
  delayed_ingress_pending_updated = 0;
  stale_token = 0;
  cleanup_converged_to_cold = [];
  cursor_color_probe_refresh_retried = 0;
  background_probe_refresh_retried = 0;
  cursor_color_probe_refresh_budget_exhausted = 0;
  background_probe_refresh_budget_exhausted = 0;
}

-- `PendingMetricEffects::record`.
unfoldable pub record_metric : PendingMetricEffects → EventLoopMetricEffect → PendingMetricEffects
record_metric p ingress_coalesced = record p {
  ingress_coalesced = saturating_add p.ingress_coalesced 1;
}
record_metric p delayed_ingress_pending_updated = record p {
  delayed_ingress_pending_updated = saturating_add p.delayed_ingress_pending_updated 1;
}
record_metric p (cleanup_converged_to_cold started_at converged_at) = record p {
  cleanup_converged_to_cold = p.cleanup_converged_to_cold ++ (started_at, converged_at) ∷ [];
}
record_metric p stale_token = record p { stale_token = saturating_add p.stale_token 1 }
record_metric p (probe_refresh_retried cursor_color) = record p {
  cursor_color_probe_refresh_retried = saturating_add p.cursor_color_probe_refresh_retried 1;
}
record_metric p (probe_refresh_retried background) = record p {
  background_probe_refresh_retried = saturating_add p.background_probe_refresh_retried 1;
}
record_metric p (probe_refresh_budget_exhausted cursor_color) = record p {
  cursor_color_probe_refresh_budget_exhausted =
      saturating_add p.cursor_color_probe_refresh_budget_exhausted 1;
}
record_metric p (probe_refresh_budget_exhausted background) = record p {
  background_probe_refresh_budget_exhausted =
      saturating_add p.background_probe_refresh_budget_exhausted 1;
}

pub data ShellOnlyStep : Type 0 where
  record_metrics : PendingMetricEffects → ShellOnlyStep
  redraw_step : ShellOnlyStep

-- `ShellOnlyAgenda::append_effect`: the steps, and whether one was added.
unfoldable pub append_effect : List ShellOnlyStep → ShellOnlyEffect → List ShellOnlyStep × Bool
append_effect steps (record_event_loop_metric metric) = elim (back steps) [
  | some (record_metrics p) ↦ (set_back steps (record_metrics (record_metric p metric)), false)
  | _ ↦ (steps ++ record_metrics (record_metric no_metrics metric) ∷ [], true)
]
append_effect steps redraw_cmdline = elim (back steps) [
  | some redraw_step ↦ (steps, false)
  | _ ↦ (steps ++ redraw_step ∷ [], true)
]

-- `usize::from`.
abbrev pub from_bool : Bool → ℕ
from_bool true = 1
from_bool false = 0

-- `append_effects`: the steps, and how many were added.
unfoldable pub append_effects : List ShellOnlyStep → List ShellOnlyEffect → List ShellOnlyStep × ℕ
append_effects steps [] = (steps, 0)
append_effects steps (e ∷ es) =
    let (next, added) = append_effect steps e in
    let (last, count) = append_effects next es in (last, from_bool added + count)

module _ {w : Payloads} where
  unfoldable pub into_ordered_or_shell_only : Effect w → OrderedEffect w ⊎ ShellOnlyEffect
  into_ordered_or_shell_only (Effect.schedule_timer payload) = inl (schedule_timer payload)
  into_ordered_or_shell_only (Effect.request_observation_base request context) =
      inl (request_observation_base request context)
  into_ordered_or_shell_only (Effect.request_probe payload) = inl (request_probe payload)
  into_ordered_or_shell_only (Effect.request_render_plan payload) =
      inl (request_render_plan payload)
  into_ordered_or_shell_only (Effect.apply_proposal payload) = inl (apply_proposal payload)
  into_ordered_or_shell_only (Effect.apply_render_cleanup execution) =
      inl (apply_render_cleanup execution)
  into_ordered_or_shell_only (Effect.apply_ingress_cursor_presentation payload) =
      inl (apply_ingress_cursor_presentation payload)
  into_ordered_or_shell_only (Effect.record_event_loop_metric metric) =
      inr (record_event_loop_metric metric)
  into_ordered_or_shell_only Effect.redraw_cmdline = inr redraw_cmdline

  -- `From<OrderedEffect>` and `From<ShellOnlyEffect>`.
  unfoldable pub from_ordered : OrderedEffect w → Effect w
  from_ordered (schedule_timer payload) = Effect.schedule_timer payload
  from_ordered (request_observation_base request context) =
      Effect.request_observation_base request context
  from_ordered (request_probe payload) = Effect.request_probe payload
  from_ordered (request_render_plan payload) = Effect.request_render_plan payload
  from_ordered (apply_proposal payload) = Effect.apply_proposal payload
  from_ordered (apply_render_cleanup execution) = Effect.apply_render_cleanup execution
  from_ordered (apply_ingress_cursor_presentation payload) =
      Effect.apply_ingress_cursor_presentation payload

  unfoldable pub from_shell_only : ShellOnlyEffect → Effect w
  from_shell_only (record_event_loop_metric metric) = Effect.record_event_loop_metric metric
  from_shell_only redraw_cmdline = Effect.redraw_cmdline

  abbrev from_class : OrderedEffect w ⊎ ShellOnlyEffect → Effect w
  from_class (inl e) = from_ordered e
  from_class (inr e) = from_shell_only e

  -- No payload is lost in the split into two classes.
  from_class-into : (e : Effect w) → from_class (into_ordered_or_shell_only e) ≡ e
  unfolding into_ordered_or_shell_only from_ordered from_shell_only
  from_class-into (Effect.schedule_timer payload) = refl
  from_class-into (Effect.request_observation_base request context) = refl
  from_class-into (Effect.request_probe payload) = refl
  from_class-into (Effect.request_render_plan payload) = refl
  from_class-into (Effect.apply_proposal payload) = refl
  from_class-into (Effect.apply_render_cleanup execution) = refl
  from_class-into (Effect.apply_ingress_cursor_presentation payload) = refl
  from_class-into (Effect.record_event_loop_metric metric) = refl
  from_class-into Effect.redraw_cmdline = refl
