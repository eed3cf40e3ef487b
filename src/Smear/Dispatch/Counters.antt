-- ===== src/Smear/Dispatch/Counters.antt =====
-- The metrics of an agenda: `PendingMetricEffects` of
-- smear-cursor/src/events/runtime/dispatch_queue.rs.
use dotfiles_nix.Base.{
  ℕ, ◌+◌, ◌≤◌, ◌≡◌, refl, inl, inr, List, [], ◌∷◌, ◌++◌, back-snoc, set_back-snoc, snoc_cases,
  length, length-append, arith,
}
use dotfiles_nix.Base.Words.{u64_max}
use dotfiles_nix.Smear.Probe.{cursor_color, background}
use dotfiles_nix.Smear.Reducer.Effects.{
  EventLoopMetricEffect, ingress_coalesced, delayed_ingress_pending_updated, stale_token,
  cleanup_converged_to_cold, probe_refresh_retried, probe_refresh_budget_exhausted,
}
use dotfiles_nix.Smear.Agenda.{
  ShellOnlyEffect, record_event_loop_metric, redraw_cmdline, PendingMetricEffects, no_metrics,
  record_metric, ShellOnlyStep, record_metrics, redraw_step, append_effect, append_effects,
}

-- What a metric adds to: a counter, or the list of the cleanups that became cold.
pub data MetricKind : Type 0 where
  coalesced delayed stale converged : MetricKind
  color_retried background_retried color_exhausted background_exhausted : MetricKind

abbrev pub recorded : MetricKind → PendingMetricEffects → ℕ
recorded coalesced p = p.ingress_coalesced
recorded delayed p = p.delayed_ingress_pending_updated
recorded stale p = p.stale_token
recorded converged p = length p.cleanup_converged_to_cold
recorded color_retried p = p.cursor_color_probe_refresh_retried
recorded background_retried p = p.background_probe_refresh_retried
recorded color_exhausted p = p.cursor_color_probe_refresh_budget_exhausted
recorded background_exhausted p = p.background_probe_refresh_budget_exhausted

-- 1 for a metric of the kind.
abbrev pub hit : MetricKind → EventLoopMetricEffect → ℕ
hit coalesced ingress_coalesced = 1
hit delayed delayed_ingress_pending_updated = 1
hit stale stale_token = 1
hit converged (cleanup_converged_to_cold started_at converged_at) = 1
hit color_retried (probe_refresh_retried cursor_color) = 1
hit background_retried (probe_refresh_retried background) = 1
hit color_exhausted (probe_refresh_budget_exhausted cursor_color) = 1
hit background_exhausted (probe_refresh_budget_exhausted background) = 1
hit _ _ = 0

abbrev pub shell_hit : MetricKind → ShellOnlyEffect → ℕ
shell_hit k (record_event_loop_metric m) = hit k m
shell_hit k redraw_cmdline = 0

abbrev pub shell_hits : MetricKind → List ShellOnlyEffect → ℕ
shell_hits k [] = 0
shell_hits k (e ∷ es) = shell_hit k e + shell_hits k es

abbrev pub steps_recorded : MetricKind → List ShellOnlyStep → ℕ
steps_recorded k [] = 0
steps_recorded k (record_metrics p ∷ steps) = recorded k p + steps_recorded k steps
steps_recorded k (redraw_step ∷ steps) = steps_recorded k steps

pub shell_hit-le-one : (k : MetricKind) (e : ShellOnlyEffect) → shell_hit k e ≤ 1
shell_hit-le-one k e = ground arith

recorded-no_metrics : (k : MetricKind) → recorded k no_metrics ≡ 0
recorded-no_metrics coalesced = refl
recorded-no_metrics _ = refl

record_metric_lem :
    (k : MetricKind) (p : PendingMetricEffects) (m : EventLoopMetricEffect)
    → recorded k p + 1 ≤ u64_max
    → recorded k (record_metric p m) ≡ recorded k p + hit k m
unfolding record_metric
record_metric_lem converged p (cleanup_converged_to_cold a b) h =
    length-append p.cleanup_converged_to_cold ((a, b) ∷ [])
record_metric_lem k p m h = ground arith

steps_recorded-append :
    (k : MetricKind) (xs ys : List ShellOnlyStep)
    → steps_recorded k (xs ++ ys) ≡ steps_recorded k xs + steps_recorded k ys
steps_recorded-append k [] ys = omega arith
steps_recorded-append k (record_metrics p ∷ xs) ys = omega (arith, steps_recorded-append k xs ys)
steps_recorded-append k (redraw_step ∷ xs) ys = steps_recorded-append k xs ys

recorded_first :
    (k : MetricKind) (m : EventLoopMetricEffect) → recorded k (record_metric no_metrics m) ≡ hit k m
recorded_first k m = ground (arith, record_metric_lem k no_metrics m, recorded-no_metrics k)

append_effect-recorded :
    (k : MetricKind) (steps : List ShellOnlyStep) (e : ShellOnlyEffect)
    → steps_recorded k steps + 1 ≤ u64_max
    → steps_recorded k (append_effect steps e).0 ≡ steps_recorded k steps + shell_hit k e
unfolding append_effect
append_effect-recorded k steps e h = elim (snoc_cases steps) [
  | inl n ↦ rw n (first e)
  | inr (rest, s, n) ↦ rw n (later rest s e (rw n at h))
]
  where
    first :
        (e : ShellOnlyEffect)
        → steps_recorded k (append_effect [] e).0 ≡ steps_recorded k [] + shell_hit k e
    first (record_event_loop_metric m) = omega (arith, recorded_first k m)
    first redraw_cmdline = omega arith

    later :
        (rest : List ShellOnlyStep) (s : ShellOnlyStep) (e : ShellOnlyEffect)
        → steps_recorded k (rest ++ s ∷ []) + 1 ≤ u64_max
        → steps_recorded k (append_effect (rest ++ s ∷ []) e).0
          ≡ steps_recorded k (rest ++ s ∷ []) + shell_hit k e
    later rest (record_metrics p) (record_event_loop_metric m) h =
        rw (back-snoc rest (record_metrics p), set_back-snoc, append_effect)
          (omega (
            arith,
            steps_recorded-append k rest (record_metrics p ∷ []),
            steps_recorded-append k rest (record_metrics (record_metric p m) ∷ []),
            record_metric_lem k p m,
          ))
    later rest redraw_step (record_event_loop_metric m) h =
        rw (back-snoc rest redraw_step, append_effect)
          (omega (
            arith,
            steps_recorded-append k (rest ++ redraw_step ∷ [])
                (record_metrics (record_metric no_metrics m) ∷ []),
            recorded_first k m,
          ))
    later rest (record_metrics p) redraw_cmdline h =
        rw (back-snoc rest (record_metrics p), append_effect)
          (omega
            (arith, steps_recorded-append k (rest ++ record_metrics p ∷ []) (redraw_step ∷ [])))
    later rest redraw_step redraw_cmdline h =
        rw (back-snoc rest redraw_step, append_effect) (omega arith)

pub append_effects-recorded :
    (k : MetricKind) (steps : List ShellOnlyStep) (es : List ShellOnlyEffect)
    → steps_recorded k steps + length es ≤ u64_max
    → steps_recorded k (append_effects steps es).0 ≡ steps_recorded k steps + shell_hits k es
unfolding append_effects
append_effects-recorded k steps [] h = omega arith
append_effects-recorded k steps (e ∷ es) h = omega (
  arith,
  append_effect-recorded k steps e,
  append_effects-recorded k (append_effect steps e).0 es,
  shell_hit-le-one k e,
)
