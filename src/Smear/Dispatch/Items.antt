-- ===== src/Smear/Dispatch/Items.antt =====
-- The items of the queue: what one segment of a batch adds in
-- smear-cursor/src/events/runtime/dispatch_queue.rs.
use dotfiles_nix.Base.{
  ℕ, ◌+◌, ◌≤◌, ◌≡◌, ◌≢◌, refl, sym, ap, ◌∙◌, inl, inr, List, [], ◌∷◌, ◌++◌, map, back-snoc,
  set_back-snoc, snoc_cases, snoc-ne-nil, length, All, All-snoc, All-split, arith,
}
use mathlib.Core.List.{append-nil, append_assoc, map-append}
use dotfiles_nix.Smear.Payloads.{Payloads}
use dotfiles_nix.Smear.Reducer.Effects.{Event}
use dotfiles_nix.Smear.Agenda.{
  OrderedEffect, ShellOnlyEffect, record_event_loop_metric, redraw_cmdline, ShellOnlyStep,
  append_effects,
}
use dotfiles_nix.Smear.Dispatch.{
  EffectBatchSegment, ordered, shell_only, ScheduledWorkItem, ordered_effect_batch, core_event,
  shell_only_agenda, stage_into,
}
use dotfiles_nix.Smear.Dispatch.Marks.{
  Mark, effect, event, metrics, redraw, put, put_all, shell_mark, step_mark, item_marks, marks,
  marks-append, put_all-after, put_all-effects, put-snoc,
}
use dotfiles_nix.Smear.Dispatch.Segments.{IsFull, segment_marks}
use dotfiles_nix.Smear.Dispatch.Agenda.{append_effects_lem, append_effects_full}

module _ {w : Payloads} where
  -- The units of work of an item.
  abbrev pub item_units : ScheduledWorkItem w → ℕ
  item_units (shell_only_agenda steps) = length steps
  item_units _ = 1

  abbrev pub units : List (ScheduledWorkItem w) → ℕ
  units [] = 0
  units (item ∷ items) = item_units item + units items

  -- No item is empty.
  abbrev pub HasWork : ScheduledWorkItem w → Type 0
  HasWork (ordered_effect_batch es) = es ≢ []
  HasWork (core_event e) = Unit
  HasWork (shell_only_agenda steps) = steps ≢ []

length-pos : {A : Type 0} (xs : List A) → xs ≢ [] → 1 ≤ length xs
length-pos [] h = absurd (h refl)
length-pos (x ∷ xs) h = omega arith

map-ne-nil : {A B : Type 0} (f : A → B) (xs : List A) → xs ≢ [] → map f xs ≢ []
map-ne-nil f [] h n = h refl
map-ne-nil f (x ∷ xs) h n = cc

module _ {w : Payloads} where
  pub units-append : (xs ys : List (ScheduledWorkItem w)) → units (xs ++ ys) ≡ units xs + units ys
  units-append [] ys = omega arith
  units-append (x ∷ xs) ys = omega (arith, units-append xs ys)

  -- Shell-only work that does not follow shell-only work stands by itself.
  put_all-shell :
      (pre : List (Mark w)) (e : ShellOnlyEffect) (es : List ShellOnlyEffect)
      → put pre (shell_mark e) ≡ pre ++ shell_mark e ∷ []
      → put_all pre (map shell_mark (e ∷ es)) ≡ pre ++ put_all [] (map shell_mark (e ∷ es))
  put_all-shell pre (record_event_loop_metric m) es h =
      ap (λ m. put_all m (map shell_mark es)) h
      ∙ put_all-after pre (metrics ∷ []) (map shell_mark es) (snoc-ne-nil [] _)
  put_all-shell pre redraw_cmdline es h =
      ap (λ m. put_all m (map shell_mark es)) h
      ∙ put_all-after pre (redraw ∷ []) (map shell_mark es) (snoc-ne-nil [] _)

  -- The number of effects of a segment.
  abbrev pub weight : EffectBatchSegment w → ℕ
  weight (ordered es) = length es
  weight (shell_only es) = length es

  -- What a segment does to the items.
  abbrev pub Stages :
      List (ScheduledWorkItem w) → EffectBatchSegment w → List (ScheduledWorkItem w) × ℕ → Type 0
  Stages items s r =
      (marks r.0 ≡ put_all (marks items) (segment_marks s))
      × All HasWork r.0
      × (units r.0 ≡ units items + r.1)
      × (r.1 ≤ weight s)

  marks-snoc :
      (items : List (ScheduledWorkItem w)) (item : ScheduledWorkItem w)
      → marks (items ++ item ∷ []) ≡ marks items ++ item_marks item
  marks-snoc items item = marks-append items (item ∷ []) ∙ simp append-nil

  stage_ordered :
      (items : List (ScheduledWorkItem w)) (es : List (OrderedEffect w))
      → All HasWork items
      → es ≢ []
      → Stages items (ordered es) (stage_into items (ordered es))
  unfolding stage_into
  stage_ordered items es v h = (
    rw put_all-effects (marks-snoc items (ordered_effect_batch es)),
    All-snoc HasWork items (ordered_effect_batch es) v h,
    units-append items (ordered_effect_batch es ∷ []),
    length-pos es h,
  )

  -- Shell-only work goes on the agenda that stands last.
  stage_joins :
      (rest : List (ScheduledWorkItem w)) (steps : List ShellOnlyStep) (es : List ShellOnlyEffect)
      → All HasWork (rest ++ shell_only_agenda steps ∷ [])
      → es ≢ []
      → Stages
          (rest ++ shell_only_agenda steps ∷ [])
          (shell_only es)
          (rest ++ shell_only_agenda (append_effects steps es).0 ∷ [], (append_effects steps es).1)
  stage_joins rest steps es v h =
      let (a, l, n) = append_effects_lem w steps es in
      (
        rw
            (
              marks-snoc rest (shell_only_agenda steps),
              marks-snoc rest (shell_only_agenda (append_effects steps es).0),
              a,
            )
            (sym (
              put_all-after (marks rest) (map step_mark steps) (map shell_mark es)
                (map-ne-nil step_mark steps (All-split HasWork rest _ v).1.0))),
        All-snoc HasWork rest _ (All-split HasWork rest _ v).0 (append_effects_full w steps es h),
        omega (
          arith,
          l,
          units-append rest (shell_only_agenda steps ∷ []),
          units-append rest (shell_only_agenda (append_effects steps es).0 ∷ []),
        ),
        n,
      )

  -- Else it stands by itself.
  stage_follows :
      (items : List (ScheduledWorkItem w)) (es : List ShellOnlyEffect)
      → All HasWork items
      → ((e : ShellOnlyEffect)
          → put (marks items) (shell_mark e) ≡ marks items ++ shell_mark e ∷ [])
      → es ≢ []
      → Stages items
          (shell_only es)
          (items ++ shell_only_agenda (append_effects [] es).0 ∷ [], (append_effects [] es).1)
  stage_follows items [] v f h = absurd (h refl)
  stage_follows items (e ∷ es) v f h =
      let (a, l, n) = append_effects_lem w [] (e ∷ es) in
      (
        rw (marks-snoc items (shell_only_agenda (append_effects [] (e ∷ es)).0), a)
            (sym (put_all-shell (marks items) e es (f e))),
        All-snoc HasWork items _ v (append_effects_full w [] (e ∷ es) h),
        omega
            (arith, l, units-append items (shell_only_agenda (append_effects [] (e ∷ es)).0 ∷ [])),
        n,
      )

  -- After an ordered effect or an event, shell-only work is put as it is.
  put_shell-effect :
      (ms : List (Mark w)) (o : OrderedEffect w) (e : ShellOnlyEffect)
      → put (ms ++ effect o ∷ []) (shell_mark e) ≡ (ms ++ effect o ∷ []) ++ shell_mark e ∷ []
  put_shell-effect ms o (record_event_loop_metric m) =
      put-snoc ms (effect o) metrics ∙ sym (append_assoc ms (effect o ∷ []) (metrics ∷ []))
  put_shell-effect ms o redraw_cmdline =
      put-snoc ms (effect o) redraw ∙ sym (append_assoc ms (effect o ∷ []) (redraw ∷ []))

  put_shell-event :
      (ms : List (Mark w)) (o : Event w) (e : ShellOnlyEffect)
      → put (ms ++ event o ∷ []) (shell_mark e) ≡ (ms ++ event o ∷ []) ++ shell_mark e ∷ []
  put_shell-event ms o (record_event_loop_metric m) =
      put-snoc ms (event o) metrics ∙ sym (append_assoc ms (event o ∷ []) (metrics ∷ []))
  put_shell-event ms o redraw_cmdline =
      put-snoc ms (event o) redraw ∙ sym (append_assoc ms (event o ∷ []) (redraw ∷ []))

  put_shell-nil : (e : ShellOnlyEffect) → put {w = w} [] (shell_mark e) ≡ shell_mark e ∷ []
  put_shell-nil (record_event_loop_metric m) = refl
  put_shell-nil redraw_cmdline = refl

  put_shell-batch :
      (ms : List (Mark w)) (es : List (OrderedEffect w)) (e : ShellOnlyEffect)
      → es ≢ []
      → put (ms ++ map effect es) (shell_mark e) ≡ (ms ++ map effect es) ++ shell_mark e ∷ []
  put_shell-batch ms es e h = elim (snoc_cases es) [
    | inl n ↦ absurd (h n)
    | inr (rest, o, n) ↦
        rw (n, map-append, sym (append_assoc ms (map effect rest) (effect o ∷ [])))
          (put_shell-effect (ms ++ map effect rest) o e)
  ]

  stage_after :
      (rest : List (ScheduledWorkItem w)) (item : ScheduledWorkItem w) (es : List ShellOnlyEffect)
      → All HasWork (rest ++ item ∷ [])
      → es ≢ []
      → Stages (rest ++ item ∷ []) (shell_only es) (stage_into (rest ++ item ∷ []) (shell_only es))
  unfolding stage_into
  stage_after rest (ordered_effect_batch os) es v h =
      rw (back-snoc rest (ordered_effect_batch os), stage_into)
        (stage_follows (rest ++ ordered_effect_batch os ∷ []) es v
          (λ e.
            rw (marks-snoc rest (ordered_effect_batch os))
              (put_shell-batch (marks rest) os e (All-split HasWork rest _ v).1.0))
          h)
  stage_after rest (core_event o) es v h =
      rw (back-snoc rest (core_event o), stage_into)
        (stage_follows (rest ++ core_event o ∷ []) es v
          (λ e. rw (marks-snoc rest (core_event o)) (put_shell-event (marks rest) o e)) h)
  stage_after rest (shell_only_agenda steps) es v h =
      rw
        (
          back-snoc {A = ScheduledWorkItem w} rest (shell_only_agenda steps),
          set_back-snoc,
          stage_into,
        )
        (stage_joins rest steps es v h)

  pub stage_into_lem :
      (items : List (ScheduledWorkItem w)) (s : EffectBatchSegment w)
      → All HasWork items
      → IsFull s
      → Stages items s (stage_into items s)
  unfolding stage_into
  stage_into_lem items (ordered es) v h = stage_ordered items es v h
  stage_into_lem items (shell_only es) v h = elim (snoc_cases items) [
    | inl n ↦ rw n (stage_follows [] es tt put_shell-nil h)
    | inr (rest, item, n) ↦ rw n (stage_after rest item es (rw n at v) h)
  ]
