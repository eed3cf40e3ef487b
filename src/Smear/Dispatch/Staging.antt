-- ===== src/Smear/Dispatch/Staging.antt =====
-- Staging a batch of effects: `stage_batch` of
-- smear-cursor/src/events/runtime/dispatch_queue.rs.
use dotfiles_nix.Base.{
  All-snoc, ◌++◌, ℕ, ◌+◌, ◌≤◌, ◌≡◌, refl, ap, ◌∙◌, inl, inr, true, not, List, [], ◌∷◌, map,
  length-map, Bool-cases, length-append, length, All, arith,
}
use mathlib.Core.List.{map-map}
use dotfiles_nix.Base.Words.{u64_max, saturating_add}
use dotfiles_nix.Smear.Payloads.{Payloads}
use dotfiles_nix.Smear.Reducer.Effects.{Effect, Event}
use dotfiles_nix.Smear.Agenda.{into_ordered_or_shell_only}
use dotfiles_nix.Smear.Dispatch.{
  EffectBatchSegment, ordered, shell_only, split_from, split_effect_batch_by_semantic_power,
  ScheduledEffectQueueState, stage_segment, stage_segments, finish_stage, stage_batch,
  stage_core_event, stage_irreducible_item, core_event,
}
use dotfiles_nix.Smear.Dispatch.Marks.{
  class_mark, effect, put_all, shell_mark, mark, marks, put_all-append, event, marks-append,
}
use dotfiles_nix.Smear.Dispatch.Segments.{
  IsFull, split_from_lem, segment_marks, all_segment_marks, segment_marks-effects,
}
use dotfiles_nix.Smear.Dispatch.Items.{units, units-append, HasWork, weight, stage_into_lem}

-- The queue counts its units of work, and no item is empty.
pub record IsStaged {w : Payloads} (q : ScheduledEffectQueueState w) : Type 0 where
  pub counted : q.pending_work_units ≡ units q.items
  pub full : All HasWork q.items

module _ {w : Payloads} where
  abbrev total : List (EffectBatchSegment w) → ℕ
  total [] = 0
  total (s ∷ ss) = weight s + total ss

  length-segment_marks : (s : EffectBatchSegment w) → length (segment_marks s) ≡ weight s
  length-segment_marks (ordered es) = length-map effect es
  length-segment_marks (shell_only es) = length-map shell_mark es

  length-all_segment_marks :
      (ss : List (EffectBatchSegment w)) → length (all_segment_marks ss) ≡ total ss
  length-all_segment_marks [] = refl
  length-all_segment_marks (s ∷ ss) = omega (
    arith,
    length-append (segment_marks s) (all_segment_marks ss),
    length-segment_marks s,
    length-all_segment_marks ss,
  )

  stage_segments_lem :
      (q : ScheduledEffectQueueState w) (ss : List (EffectBatchSegment w))
      → IsStaged q
      → All IsFull ss
      → units q.items + total ss ≤ u64_max
      → (marks (stage_segments q ss).items ≡ put_all (marks q.items) (all_segment_marks ss))
        × IsStaged (stage_segments q ss)
  unfolding stage_segments stage_segment
  stage_segments_lem q [] v f h = (refl, v)
  stage_segments_lem q (s ∷ ss) v f h =
      let (m, full, count, few) = stage_into_lem q.items s v.full f.0 in
      let next : IsStaged (stage_segment q s) = record {
        counted = omega (arith, v.counted, count);
        full = full;
      } in
      let ih = stage_segments_lem (stage_segment q s) ss next f.1 (omega (arith, count)) in
      (
        ih.0
            ∙ rw (put_all-append (marks q.items) (segment_marks s) (all_segment_marks ss))
                (ap (λ ms. put_all ms (all_segment_marks ss)) m),
        ih.1,
      )

  stage_segments-drain_scheduled :
      (q : ScheduledEffectQueueState w) (ss : List (EffectBatchSegment w))
      → (stage_segments q ss).drain_scheduled ≡ q.drain_scheduled
  unfolding stage_segments stage_segment
  stage_segments-drain_scheduled q [] = refl
  stage_segments-drain_scheduled q (s ∷ ss) = stage_segments-drain_scheduled (stage_segment q s) ss

  finish_stage_lem :
      (q : ScheduledEffectQueueState w)
      → IsStaged q
      → (marks (finish_stage q).0.items ≡ marks q.items)
        × IsStaged (finish_stage q).0
        × ((finish_stage q).1.should_schedule ≡ not q.drain_scheduled)
        × ((finish_stage q).1.depth ≡ units (finish_stage q).0.items)
        × ((finish_stage q).0.drain_scheduled ≡ true)
  unfolding finish_stage
  finish_stage_lem q v = elim (Bool-cases q.drain_scheduled) [
    | inl e ↦ rw e (refl, record { counted = v.counted; full = v.full }, refl, v.counted, refl)
    | inr e ↦ rw e (refl, record { counted = v.counted; full = v.full }, refl, v.counted, refl)
  ]

  -- Staging a batch that is not empty puts its effects after what the queue holds, one by one and in
  -- their order; of shell-only work only what follows work of its own kind is joined with it. The
  -- queue counts its units of work, the result reports them, and a drain is asked for exactly if
  -- none is scheduled. A `usize` counts the units of work.
  pub stage_batch_lem :
      (q : ScheduledEffectQueueState w) (e : Effect w) (es : List (Effect w))
      → IsStaged q
      → units q.items + length (e ∷ es) ≤ u64_max
      → (marks (stage_batch q (e ∷ es)).0.items ≡ put_all (marks q.items) (map mark (e ∷ es)))
        × IsStaged (stage_batch q (e ∷ es)).0
        × ((stage_batch q (e ∷ es)).1.should_schedule ≡ not q.drain_scheduled)
        × ((stage_batch q (e ∷ es)).1.depth ≡ units (stage_batch q (e ∷ es)).0.items)
        × ((stage_batch q (e ∷ es)).0.drain_scheduled ≡ true)
  unfolding stage_batch split_effect_batch_by_semantic_power
  stage_batch_lem q e es v h =
      let ss = split_from [] (e ∷ es) in
      let (same_effects, f) = split_from_lem [] (e ∷ es) in
      let m =
        segment_marks-effects ss
        ∙ ap (map class_mark) same_effects
        ∙ map-map class_mark into_ordered_or_shell_only (e ∷ es) in
      let a =
        stage_segments_lem q ss v (f tt)
          (omega (arith, length-all_segment_marks ss, ap length m, length-map mark (e ∷ es))) in
      let fin = finish_stage_lem (stage_segments q ss) a.1 in
      (
        fin.0 ∙ a.0 ∙ ap (put_all (marks q.items)) m,
        fin.1,
        fin.2 ∙ ap not (stage_segments-drain_scheduled q ss),
        fin.3,
        fin.4,
      )

  -- An event of the core is staged after all that the queue holds, as a unit of work of its own.
  stage_core_event_lem :
      (q : ScheduledEffectQueueState w) (e : Event w)
      → IsStaged q
      → units q.items + 1 ≤ u64_max
      → (marks (stage_core_event q e).0.items ≡ marks q.items ++ event e ∷ [])
        × IsStaged (stage_core_event q e).0
        × ((stage_core_event q e).1.should_schedule ≡ not q.drain_scheduled)
  unfolding stage_core_event stage_irreducible_item
  stage_core_event_lem q e v h =
      let next : ScheduledEffectQueueState w = record q {
        items = q.items ++ core_event e ∷ [];
        pending_work_units = saturating_add q.pending_work_units 1;
      } in
      let staged : IsStaged next = record {
        counted = omega (arith, v.counted, units-append q.items (core_event e ∷ []));
        full = All-snoc HasWork q.items (core_event e) v.full tt;
      } in
      let fin = finish_stage_lem next staged in
      (fin.0 ∙ marks-append q.items (core_event e ∷ []), fin.1, fin.2)
