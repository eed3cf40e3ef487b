-- ===== src/Smear/Dispatch/Marks.antt =====
-- What a queue of scheduled work holds, as one flat list: the order in which the editor will see
-- the effects and events of smear-cursor/src/events/runtime/dispatch_queue.rs.
use dotfiles_nix.Base.{
  ◌≡◌, ◌≢◌, refl, sym, ap, ◌∙◌, ◌⊎◌, inl, inr, List, [], ◌∷◌, ◌++◌, some, map, back, back-snoc,
  snoc_cases,
}
use mathlib.Core.List.{append-nil, append_assoc}
use dotfiles_nix.Smear.Payloads.{Payloads}
use dotfiles_nix.Smear.Reducer.Effects.{Effect, Event}
use dotfiles_nix.Smear.Agenda.{
  OrderedEffect, ShellOnlyEffect, record_event_loop_metric, redraw_cmdline, ShellOnlyStep,
  record_metrics, redraw_step, into_ordered_or_shell_only,
}
use dotfiles_nix.Smear.Dispatch.{
  ScheduledWorkItem, ordered_effect_batch, core_event, shell_only_agenda,
}

-- An ordered effect or an event is itself; of shell-only work only the kind is kept.
pub data Mark (w : Payloads) : Type 0 where
  effect : OrderedEffect w → Mark w
  event : Event w → Mark w
  metrics redraw : Mark w

module _ {w : Payloads} where
  -- One more mark. Shell-only work joins work of its own kind that stands last.
  abbrev pub put : List (Mark w) → Mark w → List (Mark w)
  put ms metrics = elim (back ms) [ some metrics ↦ ms | _ ↦ ms ++ metrics ∷ [] ]
  put ms redraw = elim (back ms) [ some redraw ↦ ms | _ ↦ ms ++ redraw ∷ [] ]
  put ms m = ms ++ m ∷ []

  abbrev pub put_all : List (Mark w) → List (Mark w) → List (Mark w)
  put_all ms [] = ms
  put_all ms (n ∷ ns) = put_all (put ms n) ns

  abbrev pub shell_mark : ShellOnlyEffect → Mark w
  shell_mark (record_event_loop_metric metric) = metrics
  shell_mark redraw_cmdline = redraw

  abbrev pub class_mark : OrderedEffect w ⊎ ShellOnlyEffect → Mark w
  class_mark (inl o) = effect o
  class_mark (inr s) = shell_mark s

  abbrev pub mark : Effect w → Mark w
  mark e = class_mark (into_ordered_or_shell_only e)

  abbrev pub step_mark : ShellOnlyStep → Mark w
  step_mark (record_metrics p) = metrics
  step_mark redraw_step = redraw

  abbrev pub item_marks : ScheduledWorkItem w → List (Mark w)
  item_marks (ordered_effect_batch es) = map effect es
  item_marks (core_event e) = event e ∷ []
  item_marks (shell_only_agenda steps) = map step_mark steps

  abbrev pub marks : List (ScheduledWorkItem w) → List (Mark w)
  marks [] = []
  marks (item ∷ items) = item_marks item ++ marks items

  pub marks-append : (xs ys : List (ScheduledWorkItem w)) → marks (xs ++ ys) ≡ marks xs ++ marks ys
  marks-append [] ys = refl
  marks-append (x ∷ xs) ys = simp (marks-append xs ys, append_assoc)

  pub put_all-append :
      (ms ns os : List (Mark w)) → put_all ms (ns ++ os) ≡ put_all (put_all ms ns) os
  put_all-append ms [] os = refl
  put_all-append ms (n ∷ ns) os = put_all-append (put ms n) ns os

  -- What `put` adds for a mark after the last one.
  abbrev pub extra : Mark w → Mark w → List (Mark w)
  extra metrics metrics = []
  extra redraw redraw = []
  extra n _ = n ∷ []

  pub put-snoc : (ms : List (Mark w)) (x n : Mark w) → put (ms ++ x ∷ []) n ≡ ms ++ (x ∷ extra n x)
  put-snoc ms x n = rw (sym (append_assoc ms (x ∷ []) (extra n x))) (put_after ms x n)
    where
      put_after :
          (ms : List (Mark w)) (x n : Mark w) → put (ms ++ x ∷ []) n ≡ (ms ++ x ∷ []) ++ extra n x
      put_after ms metrics metrics =
          rw (back-snoc {A = Mark w} ms metrics, put) (sym (append-nil (ms ++ metrics ∷ [])))
      put_after ms redraw redraw =
          rw (back-snoc {A = Mark w} ms redraw, put) (sym (append-nil (ms ++ redraw ∷ [])))
      put_after ms (effect e) metrics = rw (back-snoc ms (effect e), put) refl
      put_after ms (event e) metrics = rw (back-snoc ms (event e), put) refl
      put_after ms redraw metrics = rw (back-snoc {A = Mark w} ms redraw, put) refl
      put_after ms (effect e) redraw = rw (back-snoc ms (effect e), put) refl
      put_after ms (event e) redraw = rw (back-snoc ms (event e), put) refl
      put_after ms metrics redraw = rw (back-snoc {A = Mark w} ms metrics, put) refl
      put_after ms x (effect e) = refl
      put_after ms x (event e) = refl

  -- What stands before a non-empty list is not read.
  pub put-append :
      (pre ms : List (Mark w)) (n : Mark w) → ms ≢ [] → put (pre ++ ms) n ≡ pre ++ put ms n
  put-append pre ms n h = elim (snoc_cases ms) [
    | inl e ↦ absurd (h e)
    | inr (xs, x, e) ↦
        rw (e, sym (append_assoc pre xs (x ∷ [])), put-snoc (pre ++ xs) x n, put-snoc xs x n)
          (append_assoc pre xs (x ∷ extra n x))
  ]

  cons-ne-nil : (xs ys : List (Mark w)) (y : Mark w) → xs ++ y ∷ ys ≢ []
  cons-ne-nil [] ys y h = cc
  cons-ne-nil (x ∷ xs) ys y h = cc

  put-ne-nil : (ms : List (Mark w)) (n : Mark w) → put ms n ≢ []
  put-ne-nil ms n = elim (snoc_cases ms) [
    | inl e ↦ rw e (put_first n)
    | inr (xs, x, e) ↦ rw (e, put-snoc xs x n) (cons-ne-nil xs (extra n x) x)
  ]
    where
      put_first : (n : Mark w) → put [] n ≢ []
      put_first (effect e) h = cc
      put_first (event e) h = cc
      put_first metrics h = cc
      put_first redraw h = cc

  pub put_all-after :
      (pre ms ns : List (Mark w)) → ms ≢ [] → put_all (pre ++ ms) ns ≡ pre ++ put_all ms ns
  put_all-after pre ms [] h = refl
  put_all-after pre ms (n ∷ ns) h =
      ap (λ l. put_all l ns) (put-append pre ms n h)
      ∙ put_all-after pre (put ms n) ns (put-ne-nil ms n)

  pub put_all-effects :
      (ms : List (Mark w)) (es : List (OrderedEffect w))
      → put_all ms (map effect es) ≡ ms ++ map effect es
  put_all-effects ms [] = sym (append-nil ms)
  put_all-effects ms (e ∷ es) =
      put_all-effects (ms ++ effect e ∷ []) es ∙ append_assoc ms (effect e ∷ []) (map effect es)
