-- ===== src/Smear/Dispatch/Metrics.antt =====
-- The metrics in the queue: `PendingMetricEffects` of
-- smear-cursor/src/events/runtime/dispatch_queue.rs.
use dotfiles_nix.Base.{
  ℕ, ◌+◌, ◌≤◌, ◌≡◌, refl, ap, ◌∙◌, inl, inr, ◌⊎◌, List, [], ◌∷◌, ◌++◌, map, back-snoc,
  set_back-snoc, snoc_cases, length, length-append, length-map, arith,
}
use dotfiles_nix.Base.Words.{u64_max}
use dotfiles_nix.Smear.Payloads.{Payloads}
use dotfiles_nix.Smear.Reducer.Effects.{Effect}
use dotfiles_nix.Smear.Agenda.{
  OrderedEffect, ShellOnlyEffect, append_effects, into_ordered_or_shell_only,
}
use dotfiles_nix.Smear.Dispatch.{
  EffectBatchSegment, ordered, shell_only, ScheduledWorkItem, ordered_effect_batch, core_event,
  shell_only_agenda, ScheduledEffectQueueState, stage_into, stage_segment, stage_segments,
  finish_stage, stage_batch, split_from, split_effect_batch_by_semantic_power,
}
use dotfiles_nix.Smear.Dispatch.Segments.{segment_effects, all_segment_effects, split_from_lem}
use dotfiles_nix.Smear.Dispatch.Counters.{
  MetricKind, hit, shell_hit, shell_hits, steps_recorded, append_effects-recorded, shell_hit-le-one,
}

module _ {w : Payloads} where
  -- What the metrics of the queue come to.
  abbrev pub queue_recorded : MetricKind → List (ScheduledWorkItem w) → ℕ
  queue_recorded k [] = 0
  queue_recorded k (shell_only_agenda steps ∷ items) =
      steps_recorded k steps + queue_recorded k items
  queue_recorded k (_ ∷ items) = queue_recorded k items

  -- The metrics of a kind among effects.
  abbrev class_hit : MetricKind → OrderedEffect w ⊎ ShellOnlyEffect → ℕ
  class_hit k (inl o) = 0
  class_hit k (inr s) = shell_hit k s

  abbrev class_hits : MetricKind → List (OrderedEffect w ⊎ ShellOnlyEffect) → ℕ
  class_hits k [] = 0
  class_hits k (e ∷ es) = class_hit k e + class_hits k es

  abbrev pub hits : MetricKind → List (Effect w) → ℕ
  hits k [] = 0
  hits k (Effect.record_event_loop_metric m ∷ es) = hit k m + hits k es
  hits k (_ ∷ es) = hits k es

  queue_recorded-append :
      (k : MetricKind) (xs ys : List (ScheduledWorkItem w))
      → queue_recorded k (xs ++ ys) ≡ queue_recorded k xs + queue_recorded k ys
  queue_recorded-append k [] ys = omega arith
  queue_recorded-append k (shell_only_agenda steps ∷ xs) ys =
      omega (arith, queue_recorded-append k xs ys)
  queue_recorded-append k (ordered_effect_batch es ∷ xs) ys = queue_recorded-append k xs ys
  queue_recorded-append k (core_event e ∷ xs) ys = queue_recorded-append k xs ys

  class_hits-append :
      (k : MetricKind) (xs ys : List (OrderedEffect w ⊎ ShellOnlyEffect))
      → class_hits k (xs ++ ys) ≡ class_hits k xs + class_hits k ys
  class_hits-append k [] ys = omega arith
  class_hits-append k (x ∷ xs) ys = omega (arith, class_hits-append k xs ys)

  class_hits-ordered :
      (k : MetricKind) (es : List (OrderedEffect w)) → class_hits k (map inl es) ≡ 0
  class_hits-ordered k [] = refl
  class_hits-ordered k (e ∷ es) = omega (arith, class_hits-ordered k es)

class_hits-shell_only :
    (w : Payloads) (k : MetricKind) (es : List ShellOnlyEffect)
    → class_hits {w = w} k (map inr es) ≡ shell_hits k es
class_hits-shell_only w k [] = refl
class_hits-shell_only w k (e ∷ es) = omega (arith, class_hits-shell_only w k es)

module _ {w : Payloads} where
  class_hits-effects :
      (k : MetricKind) (es : List (Effect w))
      → class_hits k (map into_ordered_or_shell_only es) ≡ hits k es
  unfolding into_ordered_or_shell_only
  class_hits-effects k [] = refl
  class_hits-effects k (e ∷ es) = ground (arith, class_hits-effects k es)

  alone-recorded :
      (k : MetricKind) (items : List (ScheduledWorkItem w)) (es : List ShellOnlyEffect)
      → length es ≤ u64_max
      → queue_recorded k (items ++ shell_only_agenda (append_effects [] es).0 ∷ [])
        ≡ queue_recorded k items + shell_hits k es
  alone-recorded k items es h = omega (
    arith,
    queue_recorded-append k items (shell_only_agenda (append_effects [] es).0 ∷ []),
    append_effects-recorded k [] es,
  )

  stage_shell_only-recorded :
      (k : MetricKind) (items : List (ScheduledWorkItem w)) (es : List ShellOnlyEffect)
      → queue_recorded k items + length es ≤ u64_max
      → queue_recorded k (stage_into items (shell_only es)).0
        ≡ queue_recorded k items + shell_hits k es
  unfolding stage_into
  stage_shell_only-recorded k items es h = elim (snoc_cases items) [
    | inl n ↦ rw n (alone-recorded k [] es (omega arith))
    | inr (rest, item, n) ↦ rw n (after rest item (rw n at h))
  ]
    where
      after :
          (rest : List (ScheduledWorkItem w)) (item : ScheduledWorkItem w)
          → queue_recorded k (rest ++ item ∷ []) + length es ≤ u64_max
          → queue_recorded k (stage_into (rest ++ item ∷ []) (shell_only es)).0
            ≡ queue_recorded k (rest ++ item ∷ []) + shell_hits k es
      after rest (ordered_effect_batch os) h =
          rw (back-snoc rest (ordered_effect_batch os), stage_into)
            (alone-recorded k (rest ++ ordered_effect_batch os ∷ []) es (omega arith))
      after rest (core_event e) h =
          rw (back-snoc rest (core_event e), stage_into)
            (alone-recorded k (rest ++ core_event e ∷ []) es (omega arith))
      after rest (shell_only_agenda steps) h =
          rw
            (
              back-snoc {A = ScheduledWorkItem w} rest (shell_only_agenda steps),
              set_back-snoc,
              stage_into,
            )
            (omega (
              arith,
              queue_recorded-append k rest (shell_only_agenda steps ∷ []),
              queue_recorded-append k rest (shell_only_agenda (append_effects steps es).0 ∷ []),
              append_effects-recorded k steps es,
            ))

  stage_into-recorded :
      (k : MetricKind) (items : List (ScheduledWorkItem w)) (s : EffectBatchSegment w)
      → queue_recorded k items + length (segment_effects s) ≤ u64_max
      → queue_recorded k (stage_into items s).0
        ≡ queue_recorded k items + class_hits k (segment_effects s)
  unfolding stage_into
  stage_into-recorded k items (ordered es) h =
      omega (
        arith,
        queue_recorded-append k items (ordered_effect_batch es ∷ []),
        class_hits-ordered k es,
      )
  stage_into-recorded k items (shell_only es) h = omega (
    arith,
    stage_shell_only-recorded k items es,
    class_hits-shell_only w k es,
    length-map {B = OrderedEffect w ⊎ ShellOnlyEffect} inr es,
  )

  class_hits-le-length :
      (k : MetricKind) (es : List (OrderedEffect w ⊎ ShellOnlyEffect)) → class_hits k es ≤ length es
  class_hits-le-length k [] = omega arith
  class_hits-le-length k (inl o ∷ es) = omega (arith, class_hits-le-length k es)
  class_hits-le-length k (inr s ∷ es) =
      omega (arith, class_hits-le-length k es, shell_hit-le-one k s)

  stage_segments-recorded :
      (k : MetricKind) (q : ScheduledEffectQueueState w) (ss : List (EffectBatchSegment w))
      → queue_recorded k q.items + length (all_segment_effects ss) ≤ u64_max
      → queue_recorded k (stage_segments q ss).items
        ≡ queue_recorded k q.items + class_hits k (all_segment_effects ss)
  unfolding stage_segments stage_segment
  stage_segments-recorded k q [] h = omega arith
  stage_segments-recorded k q (s ∷ ss) h = omega (
    arith,
    stage_into-recorded k q.items s,
    stage_segments-recorded k (stage_segment q s) ss,
    class_hits-append k (segment_effects s) (all_segment_effects ss),
    length-append (segment_effects s) (all_segment_effects ss),
    class_hits-le-length k (segment_effects s),
  )

  finish_stage-items : (q : ScheduledEffectQueueState w) → (finish_stage q).0.items ≡ q.items
  unfolding finish_stage
  finish_stage-items q = ground arith

  -- Staging a batch loses no metric: the counters of the queue for each kind of metric, over all its
  -- agendas, grow by the number of metrics of that kind in the batch. A `usize` counts them.
  pub stage_batch-recorded :
      (k : MetricKind) (q : ScheduledEffectQueueState w) (es : List (Effect w))
      → queue_recorded k q.items + length es ≤ u64_max
      → queue_recorded k (stage_batch q es).0.items ≡ queue_recorded k q.items + hits k es
  unfolding stage_batch split_effect_batch_by_semantic_power
  stage_batch-recorded k q [] h = omega arith
  stage_batch-recorded k q (e ∷ es) h =
      let ss = split_from [] (e ∷ es) in
      let m = (split_from_lem [] (e ∷ es)).0 in
      ap (queue_recorded k) (finish_stage-items (stage_segments q ss))
      ∙ omega (
        arith,
        stage_segments-recorded k q ss,
        ap length m,
        ap (class_hits k) m,
        length-map into_ordered_or_shell_only (e ∷ es),
        class_hits-effects k (e ∷ es),
      )
