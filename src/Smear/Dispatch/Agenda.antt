-- ===== src/Smear/Dispatch/Agenda.antt =====
-- The agenda of shell-only work: `append_effects` of
-- smear-cursor/src/events/runtime/dispatch_queue.rs.
use dotfiles_nix.Base.{
  ◌+◌, ◌≤◌, ◌≡◌, ◌≢◌, refl, ap, ◌∙◌, inl, inr, Bool, true, false, List, [], ◌∷◌, ◌++◌, map,
  length-append, back-snoc, set_back-snoc, snoc_cases, snoc-ne-nil, length, arith,
}
use mathlib.Core.List.{append_assoc, map-append}
use dotfiles_nix.Smear.Payloads.{Payloads}
use dotfiles_nix.Smear.Agenda.{
  ShellOnlyEffect, record_event_loop_metric, redraw_cmdline, ShellOnlyStep, record_metrics,
  redraw_step, append_effect, append_effects, from_bool, no_metrics, record_metric,
}
use dotfiles_nix.Smear.Dispatch.Marks.{put, put_all, shell_mark, step_mark, extra, put-snoc}

module _ (w : Payloads) where
  -- The agenda after one more effect: its kind is put after the others, and the steps are counted.
  abbrev Appends : List ShellOnlyStep → ShellOnlyEffect → List ShellOnlyStep × Bool → Type 0
  Appends steps e r =
      (map (step_mark {w = w}) r.0 ≡ put (map step_mark steps) (shell_mark e))
      × (r.0 ≢ [])
      × (length r.0 ≡ length steps + from_bool r.1)

  joins :
      (rest : List ShellOnlyStep) (s t : ShellOnlyStep) (e : ShellOnlyEffect)
      → extra {w = w} (shell_mark e) (step_mark s) ≡ []
      → step_mark {w = w} t ≡ step_mark s
      → Appends (rest ++ s ∷ []) e (rest ++ t ∷ [], false)
  joins rest s t e none_more same =
      let m = step_mark {w = w} in
      (
        rw (map-append, map-append, put-snoc (map m rest) (m s) (shell_mark e), none_more, same)
            refl,
        snoc-ne-nil rest t,
        omega (arith, length-append rest (s ∷ []), length-append rest (t ∷ [])),
      )

  follows :
      (rest : List ShellOnlyStep) (s t : ShellOnlyStep) (e : ShellOnlyEffect)
      → extra {w = w} (shell_mark e) (step_mark s) ≡ step_mark t ∷ []
      → Appends (rest ++ s ∷ []) e ((rest ++ s ∷ []) ++ t ∷ [], true)
  follows rest s t e one_more =
      let m = step_mark {w = w} in
      (
        rw (map-append, map-append, put-snoc (map m rest) (m s) (shell_mark e), one_more)
            (append_assoc (map m rest) (m s ∷ []) (m t ∷ [])),
        snoc-ne-nil (rest ++ s ∷ []) t,
        length-append (rest ++ s ∷ []) (t ∷ []),
      )

  append_effect_first : (e : ShellOnlyEffect) → Appends [] e (append_effect [] e)
  unfolding append_effect
  append_effect_first (record_event_loop_metric m) = (refl, snoc-ne-nil [] _, refl)
  append_effect_first redraw_cmdline = (refl, snoc-ne-nil [] _, refl)

  append_effect_later :
      (rest : List ShellOnlyStep) (s : ShellOnlyStep) (e : ShellOnlyEffect)
      → Appends (rest ++ s ∷ []) e (append_effect (rest ++ s ∷ []) e)
  unfolding append_effect
  append_effect_later rest (record_metrics p) (record_event_loop_metric m) =
      rw (back-snoc rest (record_metrics p), set_back-snoc, append_effect)
        (joins rest (record_metrics p) (record_metrics (record_metric p m))
          (record_event_loop_metric m) refl refl)
  append_effect_later rest redraw_step (record_event_loop_metric m) =
      rw (back-snoc rest redraw_step, append_effect)
        (follows rest redraw_step (record_metrics (record_metric no_metrics m))
          (record_event_loop_metric m) refl)
  append_effect_later rest (record_metrics p) redraw_cmdline =
      rw (back-snoc rest (record_metrics p), append_effect)
        (follows rest (record_metrics p) redraw_step redraw_cmdline refl)
  append_effect_later rest redraw_step redraw_cmdline =
      rw (back-snoc rest redraw_step, append_effect)
        (joins rest redraw_step redraw_step redraw_cmdline refl refl)

  append_effect_lem :
      (steps : List ShellOnlyStep) (e : ShellOnlyEffect) → Appends steps e (append_effect steps e)
  append_effect_lem steps e = elim (snoc_cases steps) [
    | inl n ↦ rw n (append_effect_first e)
    | inr (rest, s, n) ↦ rw n (append_effect_later rest s e)
  ]

  pub append_effects_lem :
      (steps : List ShellOnlyStep) (es : List ShellOnlyEffect)
      → (map (step_mark {w = w}) (append_effects steps es).0
          ≡ put_all (map step_mark steps) (map shell_mark es))
        × (length (append_effects steps es).0 ≡ length steps + (append_effects steps es).1)
        × ((append_effects steps es).1 ≤ length es)
  unfolding append_effects
  append_effects_lem steps [] = (refl, omega arith, omega arith)
  append_effects_lem steps (e ∷ es) =
      let (r, b) = append_effect steps e in
      let a = append_effect_lem steps e in
      let ih = append_effects_lem r es in
      (
        ih.0 ∙ ap (λ m. put_all m (map shell_mark es)) a.0,
        omega (arith, a.2, ih.1),
        ground (arith, ih.2),
      )

  pub append_effects_full :
      (steps : List ShellOnlyStep) (es : List ShellOnlyEffect)
      → es ≢ []
      → (append_effects steps es).0 ≢ []
  unfolding append_effects
  append_effects_full steps [] h = absurd (h refl)
  append_effects_full steps (e ∷ []) h = (append_effect_lem steps e).1
  append_effects_full steps (e ∷ f ∷ es) h =
      append_effects_full (append_effect steps e).0 (f ∷ es) (λ n. cc)
