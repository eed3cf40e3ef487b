-- ===== src/Smear/Dispatch/Draining.antt =====
-- Draining the queue: `pop_work_unit` of
-- smear-cursor/src/events/runtime/dispatch_queue.rs.
use dotfiles_nix.Base.{
  ℕ, zero, suc, ◌≤◌, ◌≡◌, refl, sym, ap, ◌∙◌, List, [], ◌∷◌, ◌++◌, Option, none, some, length, All,
  arith, map,
}
use dotfiles_nix.Smear.Payloads.{Payloads}
use dotfiles_nix.Smear.Dispatch.{
  ScheduledWorkItem, ordered_effect_batch, core_event, shell_only_agenda, ScheduledWorkUnit,
  ordered_effect_batch_unit, core_event_unit, shell_only_step_unit, ScheduledEffectQueueState,
  pop_front, pop_work_unit,
}
use dotfiles_nix.Smear.Dispatch.Items.{units, HasWork}
use dotfiles_nix.Smear.Dispatch.Staging.{IsStaged}

module _ {w : Payloads} where
  -- `n` units of work, taken one after the other: `none` is an `unreachable!` or an empty queue.
  unfoldable pub drain :
      ℕ
      → ScheduledEffectQueueState w
      → Option (ScheduledEffectQueueState w × List (ScheduledWorkUnit w))
  drain zero q = some (q, [])
  drain (suc n) q = elim (pop_work_unit q) [
    | none ↦ none
    | some (t, none) ↦ none
    | some (t, some u) ↦ elim (drain n t) [ none ↦ none | some (r, us) ↦ some (r, u ∷ us) ]
  ]

  -- The units of work that an item stands for, with all that they hold: a batch and an event are one
  -- unit each, and an agenda is one for each of its steps.
  abbrev pub item_work : ScheduledWorkItem w → List (ScheduledWorkUnit w)
  item_work (ordered_effect_batch es) = ordered_effect_batch_unit es ∷ []
  item_work (core_event e) = core_event_unit e ∷ []
  item_work (shell_only_agenda steps) = map shell_only_step_unit steps

  abbrev pub work : List (ScheduledWorkItem w) → List (ScheduledWorkUnit w)
  work [] = []
  work (item ∷ items) = item_work item ++ work items

  -- One unit of work is taken from the front.
  pop_work_unit_lem :
      (q : ScheduledEffectQueueState w)
      → IsStaged q
      → 1 ≤ units q.items
      → (t : ScheduledEffectQueueState w) × (u : ScheduledWorkUnit w) × (pop_work_unit q
          ≡ some (t, some u))
        × IsStaged t
        × (u ∷ work t.items ≡ work q.items)
        × (t.drain_scheduled ≡ q.drain_scheduled)
        × (units q.items ≡ suc (units t.items))
  unfolding pop_work_unit
  pop_work_unit_lem q v h = pop_front_lem q q.items v.counted v.full h
    where
      pop_front_lem :
          (q : ScheduledEffectQueueState w) (items : List (ScheduledWorkItem w))
          → q.pending_work_units ≡ units items
          → All HasWork items
          → 1 ≤ units items
          → (t : ScheduledEffectQueueState w) × (u : ScheduledWorkUnit w) × (pop_front q items
              ≡ some (t, some u))
            × IsStaged t
            × (u ∷ work t.items ≡ work items)
            × (t.drain_scheduled ≡ q.drain_scheduled)
            × (units items ≡ suc (units t.items))
      pop_front_lem q [] c f h = absurd (omega arith)
      pop_front_lem q (ordered_effect_batch es ∷ items) c f h =
          (_, _, refl, record { counted = omega (arith, c); full = f.1 }, refl, refl, omega arith)
      pop_front_lem q (core_event e ∷ items) c f h =
          (_, _, refl, record { counted = omega (arith, c); full = f.1 }, refl, refl, omega arith)
      pop_front_lem q (shell_only_agenda [] ∷ items) c f h = absurd (f.0 refl)
      pop_front_lem q (shell_only_agenda (s ∷ []) ∷ items) c f h =
          (_, _, refl, record { counted = omega (arith, c); full = f.1 }, refl, refl, omega arith)
      pop_front_lem q (shell_only_agenda (s ∷ t ∷ ss) ∷ items) c f h = (
        _,
        _,
        refl,
        record { counted = omega (arith, c); full = (λ n. cc, f.1) },
        refl,
        refl,
        omega arith,
      )

  no_units : (items : List (ScheduledWorkItem w)) → All HasWork items → units items ≡ 0 → items ≡ []
  no_units [] f h = refl
  no_units (ordered_effect_batch es ∷ items) f h = absurd (omega arith)
  no_units (core_event e ∷ items) f h = absurd (omega arith)
  no_units (shell_only_agenda [] ∷ items) f h = absurd (f.0 refl)
  no_units (shell_only_agenda (s ∷ ss) ∷ items) f h = absurd (omega arith)

  -- As many units of work as the queue counts can be taken: no `unreachable!` is reached, and they
  -- are the batches, the events and the single steps of the agendas that the queue held, in its order
  -- and each unchanged. The queue is empty after them, and still marked as it was for a drain.
  pub drained_in_order :
      (q : ScheduledEffectQueueState w)
      → IsStaged q
      → (t : ScheduledEffectQueueState w) × (us : List (ScheduledWorkUnit w)) × (drain
            q.pending_work_units q
          ≡ some (t, us))
        × (t.items ≡ [])
        × (t.pending_work_units ≡ 0)
        × (length us ≡ q.pending_work_units)
        × (us ≡ work q.items)
        × (t.drain_scheduled ≡ q.drain_scheduled)
  unfolding drain
  drained_in_order q v = from q.pending_work_units q v refl
    where
      from :
          (n : ℕ) (q : ScheduledEffectQueueState w)
          → IsStaged q
          → n ≡ q.pending_work_units
          → (t : ScheduledEffectQueueState w) × (us : List (ScheduledWorkUnit w)) × (drain n q
              ≡ some (t, us))
            × (t.items ≡ [])
            × (t.pending_work_units ≡ 0)
            × (length us ≡ n)
            × (us ≡ work q.items)
            × (t.drain_scheduled ≡ q.drain_scheduled)
      from zero q v e =
          let nil = no_units q.items v.full (omega (arith, v.counted)) in
          (q, [], refl, nil, sym e, refl, ap work (sym nil), refl)
      from (suc n) q v e =
          let (t, u, popped, w, m, flag, c) = pop_work_unit_lem q v (omega (arith, v.counted)) in
          let (r, us, d, nil, none_left, l, all, same) =
            from n t w (omega (arith, v.counted, w.counted, c)) in
          (
            r,
            u ∷ us,
            rw (popped, d, drain) refl,
            nil,
            none_left,
            ap suc l,
            ap (λ rest. u ∷ rest) all ∙ m,
            same ∙ flag,
          )
