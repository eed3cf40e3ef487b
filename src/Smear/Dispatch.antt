-- ===== src/Smear/Dispatch.antt =====
-- The queue of scheduled work between the reducer and the editor:
-- smear-cursor/src/events/runtime/dispatch_queue.rs. `none` of `pop_work_unit` is an `unreachable!`
-- of the source.
pub mod Marks
pub mod Segments
pub mod Agenda
pub mod Items
pub mod Staging
pub mod Draining
pub mod Counters
pub mod Metrics
use dotfiles_nix.Base.{
  ℕ, Bool, true, false, List, [], ◌∷◌, ◌++◌, Option, none, some, ◌⊎◌, inl, inr, back, set_back,
  if◌then◌else◌, ◌+◌,
}
use dotfiles_nix.Base.Words.{saturating_add, saturating_sub}
use dotfiles_nix.Smear.Payloads.{Payloads}
use dotfiles_nix.Smear.Probe.{ProbeKind, cursor_color, background}
use dotfiles_nix.Smear.Protocol.Phase.{PendingObservation}
use dotfiles_nix.Smear.Reducer.Effects.{
  Effect, Event, EventLoopMetricEffect, ingress_coalesced, delayed_ingress_pending_updated,
  stale_token, cleanup_converged_to_cold, probe_refresh_retried, probe_refresh_budget_exhausted,
  ScheduleTimerEffect, ObservationRuntimeContext, RequestProbeEffect, RequestRenderPlanEffect,
  ApplyProposalEffect, RenderCleanupExecution, IngressCursorPresentationEffect,
}
use dotfiles_nix.Smear.Agenda.{
  OrderedEffect, ShellOnlyEffect, ShellOnlyStep, append_effects, into_ordered_or_shell_only,
}

module _ (w : Payloads) where
  pub data EffectBatchSegment : Type 0 where
    ordered : List (OrderedEffect w) → EffectBatchSegment
    shell_only : List ShellOnlyEffect → EffectBatchSegment

  pub data ScheduledWorkItem : Type 0 where
    ordered_effect_batch : List (OrderedEffect w) → ScheduledWorkItem
    core_event : Event w → ScheduledWorkItem
    shell_only_agenda : List ShellOnlyStep → ScheduledWorkItem

  pub data ScheduledWorkUnit : Type 0 where
    ordered_effect_batch_unit : List (OrderedEffect w) → ScheduledWorkUnit
    core_event_unit : Event w → ScheduledWorkUnit
    shell_only_step_unit : ShellOnlyStep → ScheduledWorkUnit

  pub record ScheduledEffectQueueState : Type 0 where
    pub items : List ScheduledWorkItem
    pub pending_work_units : ℕ
    pub drain_scheduled : Bool

pub record ScheduledStageResult : Type 0 where
  pub should_schedule : Bool
  pub depth : ℕ

module _ {w : Payloads} where
  unfoldable pub append_ordered_effect :
      List (EffectBatchSegment w) → OrderedEffect w → List (EffectBatchSegment w)
  append_ordered_effect segments e = elim (back segments) [
    | some (ordered es) ↦ set_back segments (ordered (es ++ e ∷ []))
    | _ ↦ segments ++ ordered (e ∷ []) ∷ []
  ]

  unfoldable pub append_shell_only_effect :
      List (EffectBatchSegment w) → ShellOnlyEffect → List (EffectBatchSegment w)
  append_shell_only_effect segments e = elim (back segments) [
    | some (shell_only es) ↦ set_back segments (shell_only (es ++ e ∷ []))
    | _ ↦ segments ++ shell_only (e ∷ []) ∷ []
  ]

  -- The match in the loop of `split_effect_batch_by_semantic_power`.
  unfoldable pub append_segment :
      List (EffectBatchSegment w) → OrderedEffect w ⊎ ShellOnlyEffect → List (EffectBatchSegment w)
  append_segment segments (inl e) = append_ordered_effect segments e
  append_segment segments (inr e) = append_shell_only_effect segments e

  -- The loop of `split_effect_batch_by_semantic_power`.
  unfoldable pub split_from :
      List (EffectBatchSegment w) → List (Effect w) → List (EffectBatchSegment w)
  split_from segments [] = segments
  split_from segments (e ∷ es) =
      split_from (append_segment segments (into_ordered_or_shell_only e)) es

  unfoldable pub split_effect_batch_by_semantic_power :
      List (Effect w) → List (EffectBatchSegment w)
  unfolding split_from
  split_effect_batch_by_semantic_power es = split_from [] es

  -- The match in the loop of `stage_batch`: the items, and the units of work that were added.
  unfoldable pub stage_into :
      List (ScheduledWorkItem w) → EffectBatchSegment w → List (ScheduledWorkItem w) × ℕ
  stage_into items (ordered es) = (items ++ ordered_effect_batch es ∷ [], 1)
  stage_into items (shell_only es) = elim (back items) [
    | some (shell_only_agenda steps) ↦
        let (next, added) = append_effects steps es in
        (set_back items (shell_only_agenda next), added)
    | _ ↦ let (next, added) = append_effects [] es in (items ++ shell_only_agenda next ∷ [], added)
  ]

  unfoldable pub stage_segment :
      ScheduledEffectQueueState w → EffectBatchSegment w → ScheduledEffectQueueState w
  unfolding stage_into
  stage_segment q s =
      let (items, added) = stage_into q.items s in
      record q { items = items; pending_work_units = saturating_add q.pending_work_units added }

  unfoldable pub stage_segments :
      ScheduledEffectQueueState w → List (EffectBatchSegment w) → ScheduledEffectQueueState w
  stage_segments q [] = q
  stage_segments q (s ∷ ss) = stage_segments (stage_segment q s) ss

  unfoldable pub finish_stage :
      ScheduledEffectQueueState w → ScheduledEffectQueueState w × ScheduledStageResult
  finish_stage q =
      if q.drain_scheduled
      then (q, record { should_schedule = false; depth = q.pending_work_units })
      else (
        record q { drain_scheduled = true },
        record { should_schedule = true; depth = q.pending_work_units },
      )

  unfoldable pub stage_batch :
      ScheduledEffectQueueState w
      → List (Effect w)
      → ScheduledEffectQueueState w × ScheduledStageResult
  unfolding finish_stage
  stage_batch q [] = (q, record { should_schedule = false; depth = q.pending_work_units })
  stage_batch q (e ∷ es) =
      finish_stage (stage_segments q (split_effect_batch_by_semantic_power (e ∷ es)))

  unfoldable pub stage_irreducible_item :
      ScheduledEffectQueueState w
      → ScheduledWorkItem w
      → ScheduledEffectQueueState w × ScheduledStageResult
  unfolding finish_stage
  stage_irreducible_item q item = finish_stage (record q {
    items = q.items ++ item ∷ [];
    pending_work_units = saturating_add q.pending_work_units 1;
  })

  unfoldable pub stage_core_event :
      ScheduledEffectQueueState w → Event w → ScheduledEffectQueueState w × ScheduledStageResult
  unfolding stage_irreducible_item
  stage_core_event q e = stage_irreducible_item q (core_event e)

  abbrev with_items :
      ScheduledEffectQueueState w → List (ScheduledWorkItem w) → ScheduledEffectQueueState w
  with_items q items = record q {
    items = items;
    pending_work_units = saturating_sub q.pending_work_units 1;
  }

  -- The match of `pop_work_unit` on the front item.
  unfoldable pub pop_front :
      ScheduledEffectQueueState w
      → List (ScheduledWorkItem w)
      → Option (ScheduledEffectQueueState w × Option (ScheduledWorkUnit w))
  pop_front q [] = some (q, none)
  pop_front q (ordered_effect_batch es ∷ items) =
      some (with_items q items, some (ordered_effect_batch_unit es))
  pop_front q (core_event e ∷ items) = some (with_items q items, some (core_event_unit e))
  pop_front q (shell_only_agenda [] ∷ items) = none
  pop_front q (shell_only_agenda (step ∷ []) ∷ items) =
      some (with_items q items, some (shell_only_step_unit step))
  pop_front q (shell_only_agenda (step ∷ next ∷ steps) ∷ items) =
      some
        (with_items q (shell_only_agenda (next ∷ steps) ∷ items), some (shell_only_step_unit step))

  unfoldable pub pop_work_unit :
      ScheduledEffectQueueState w
      → Option (ScheduledEffectQueueState w × Option (ScheduledWorkUnit w))
  unfolding pop_front
  pop_work_unit q = pop_front q q.items

  -- The default, which `reset` puts back.
  unfoldable pub no_work : ScheduledEffectQueueState w
  no_work = record { items = []; pending_work_units = 0; drain_scheduled = false }

  unfoldable pub reset : ScheduledEffectQueueState w → ScheduledEffectQueueState w
  unfolding no_work
  reset q = no_work
