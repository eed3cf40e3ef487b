-- ===== src/Tests/Dispatch.antt =====
-- The dispatch queue of smear-cursor at concrete batches of effects.
use dotfiles_nix.Base.{◌+◌, ◌≡◌, refl, true, false, not, List, [], ◌∷◌, some, map, length, arith}
use dotfiles_nix.Smear.Reducer.Effects.{
  Effect, apply_render_cleanup, soft_clear, record_event_loop_metric, redraw_cmdline, stale_token,
}
use dotfiles_nix.Smear.Dispatch.{
  ScheduledEffectQueueState, ScheduledWorkUnit, stage_batch, stage_segments, stage_segment,
  split_effect_batch_by_semantic_power, split_from, append_segment, append_ordered_effect,
  append_shell_only_effect, stage_into, finish_stage,
}
use dotfiles_nix.Smear.Agenda.{
  into_ordered_or_shell_only, append_effects, append_effect, record_metric,
}
use dotfiles_nix.Smear.Dispatch.Marks.{put_all, mark, marks}
use dotfiles_nix.Smear.Dispatch.Items.{units}
use dotfiles_nix.Smear.Dispatch.Staging.{IsStaged, stage_batch_lem}
use dotfiles_nix.Smear.Dispatch.Draining.{drain, work, drained_in_order}
use dotfiles_nix.Smear.Dispatch.Counters.{stale}
use dotfiles_nix.Smear.Dispatch.Metrics.{queue_recorded, hits, stage_batch-recorded}
use dotfiles_nix.Tests.Numbers.{numbers}

abbrev empty_queue : ScheduledEffectQueueState numbers
empty_queue = record { items = []; pending_work_units = 0; drain_scheduled = false }

-- Two metrics are joined, the redraw stands after them, and the cleanup splits the work.
abbrev rest : List (Effect numbers)
rest =
    record_event_loop_metric stale_token
    ∷ redraw_cmdline
    ∷ apply_render_cleanup (soft_clear 20)
    ∷ record_event_loop_metric stale_token
    ∷ []

abbrev queue : ScheduledEffectQueueState numbers
queue = (stage_batch empty_queue (record_event_loop_metric stale_token ∷ rest)).0

empty_queue-IsStaged : IsStaged empty_queue
empty_queue-IsStaged = record { counted = refl; full = tt }

stage_batch_lem_example :
    (marks (stage_batch empty_queue (record_event_loop_metric stale_token ∷ rest)).0.items
      ≡ put_all (marks empty_queue.items) (map mark (record_event_loop_metric stale_token ∷ rest)))
    × IsStaged (stage_batch empty_queue (record_event_loop_metric stale_token ∷ rest)).0
    × ((stage_batch empty_queue (record_event_loop_metric stale_token ∷ rest)).1.should_schedule
        ≡ not empty_queue.drain_scheduled)
    × ((stage_batch empty_queue (record_event_loop_metric stale_token ∷ rest)).1.depth
        ≡ units (stage_batch empty_queue (record_event_loop_metric stale_token ∷ rest)).0.items)
    × ((stage_batch empty_queue (record_event_loop_metric stale_token ∷ rest)).0.drain_scheduled
        ≡ true)
stage_batch_lem_example =
    stage_batch_lem empty_queue (record_event_loop_metric stale_token) rest empty_queue-IsStaged
      (omega arith)

queue-units : queue.pending_work_units ≡ 4
unfolding stage_batch stage_segments stage_segment split_effect_batch_by_semantic_power split_from
    append_segment append_ordered_effect append_shell_only_effect stage_into finish_stage
    into_ordered_or_shell_only append_effects append_effect record_metric
queue-units = refl

drained_in_order_example :
    (t : ScheduledEffectQueueState numbers) × (us : List (ScheduledWorkUnit numbers)) × (drain
        queue.pending_work_units queue
      ≡ some (t, us))
    × (t.items ≡ [])
    × (t.pending_work_units ≡ 0)
    × (length us ≡ queue.pending_work_units)
    × (us ≡ work queue.items)
    × (t.drain_scheduled ≡ queue.drain_scheduled)
drained_in_order_example = drained_in_order queue stage_batch_lem_example.1

stage_batch-recorded_example :
    queue_recorded stale (stage_batch empty_queue rest).0.items
    ≡ queue_recorded stale empty_queue.items + hits stale rest
stage_batch-recorded_example = stage_batch-recorded stale empty_queue rest (omega arith)
