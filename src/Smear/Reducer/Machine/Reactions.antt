-- ===== src/Smear/Reducer/Machine/Reactions.antt =====
-- The lifecycles that each event of smear-cursor/src/core/reducer/machine leads to.
use dotfiles_nix.Base.{refl, ℕ, ◌≡◌, sym, ap, Bool, false, some, arith, Bool-cases, inl, inr}
use dotfiles_nix.Smear.Types.{TimerId, TimerToken, animation, ingress, recovery, cleanup}
use dotfiles_nix.Smear.Payloads.{Payloads}
use dotfiles_nix.Smear.Timers.{arm, is_active}
use dotfiles_nix.Smear.Protocol.Core.{CoreState, lifecycle, needs_initialize}
use dotfiles_nix.Smear.Reducer.Snapshot.{parts, Calls}
use dotfiles_nix.Smear.Reducer.Effects.{
  Transition, Event, initialize, external_demand_queued, observation_base_collected, probe_reported,
  render_plan_computed, render_plan_failed, apply_reported, render_cleanup_applied,
  render_cleanup_retained_resources_observed, timer_fired_with_token, timer_lost_with_token,
  effect_failed, applied_fully, applied_degraded, apply_failed, ExternalDemandQueuedEvent,
}
use dotfiles_nix.Smear.Reducer.Observing.{dispatch_queued, reduce_external_demand_queued}
use dotfiles_nix.Smear.Reducer.Machine.Inner.{next_of, reduce_external_demand_queued-Dispatched}
use dotfiles_nix.Smear.Reducer.Probes.{collect}
use dotfiles_nix.Smear.Reducer.Applying.{
  reduce_render_cleanup_applied, reduce_render_cleanup_retained_resources_observed,
}
use dotfiles_nix.Smear.Reducer.Effects.{RenderCleanupAppliedAction}
use dotfiles_nix.Smear.Reducer.Clocks.{cleanup_fired, timer_fired, timer_lost, disarm}
use dotfiles_nix.Smear.Reducer.Machine.Lifecycles.{Follows, lifecycle_of_phase, Follows-same}
use dotfiles_nix.Smear.Reducer.Machine.Failures.{
  applied-Follows, failed-Follows, reduce_effect_failed-Follows,
}
use dotfiles_nix.Smear.Reducer.Machine.{reduce_owned}

module _ {w : Payloads} (c : Calls w) where
  dispatch_queued-Follows :
      (s : CoreState (parts w)) (delays : Bool) (n : ℕ) (t : Transition w)
      (e : ExternalDemandQueuedEvent w)
      → dispatch_queued c s delays n ≡ some t
      → Follows s (external_demand_queued e) t
  unfolding dispatch_queued lifecycle
  dispatch_queued-Follows s delays n t e h = ground arith

  cleanup_fired-phase :
      (s : CoreState (parts w)) (n : ℕ) (t : Transition w)
      → cleanup_fired c s n ≡ some t
      → t.next.protocol.phase ≡ s.protocol.phase
  unfolding cleanup_fired arm
  cleanup_fired-phase s n t h = ground arith

  timer_fired-Follows :
      (s : CoreState (parts w)) (id : TimerId) (k : TimerToken) (n m : ℕ) (t : Transition w)
      → timer_fired c s id n ≡ some t
      → Follows s (timer_fired_with_token k m) t
  unfolding timer_fired lifecycle
  timer_fired-Follows s animation k n m t h = ground arith
  timer_fired-Follows s ingress k n m t h = ground arith
  timer_fired-Follows s recovery k n m t h = ground arith
  timer_fired-Follows s cleanup k n m t h =
      Follows-same s (timer_fired_with_token k m) t (cleanup_fired-phase s n t h)

  Follows-disarmed :
      (s : CoreState (parts w)) (k : TimerToken) (e : Event w) (t : Transition w)
      → Follows (disarm s k) e t
      → Follows s e t
  unfolding disarm lifecycle
  Follows-disarmed s k e t f = f

  timer_lost-Follows :
      (s : CoreState (parts w)) (id : TimerId) (k : TimerToken) (n m : ℕ) (t : Transition w)
      → timer_lost c s id n ≡ some t
      → Follows s (timer_lost_with_token k m) t
  unfolding timer_lost lifecycle
  timer_lost-Follows s animation k n m t h = ground arith
  timer_lost-Follows s ingress k n m t h = ground arith
  timer_lost-Follows s recovery k n m t h = ground arith
  timer_lost-Follows s cleanup k n m t h = ground arith

  cleanup_applied-phase :
      (s : CoreState (parts w)) (a : RenderCleanupAppliedAction) (n : ℕ) (t : Transition w)
      → reduce_render_cleanup_applied c s a n ≡ some t
      → t.next.protocol.phase ≡ s.protocol.phase
  unfolding reduce_render_cleanup_applied arm
  cleanup_applied-phase s a n t h = ground arith

  retained_observed-phase :
      (s : CoreState (parts w)) (r n : ℕ) (t : Transition w)
      → reduce_render_cleanup_retained_resources_observed c s r n ≡ some t
      → t.next.protocol.phase ≡ s.protocol.phase
  unfolding reduce_render_cleanup_retained_resources_observed arm
  retained_observed-phase s r n t h = ground arith

  reduce_external_demand_queued-Follows :
      (s : CoreState (parts w)) (e : ExternalDemandQueuedEvent w) (t : Transition w)
      → reduce_external_demand_queued c s e ≡ some t
      → Follows s (external_demand_queued e) t
  unfolding reduce_external_demand_queued
  reduce_external_demand_queued-Follows s e t h = elim (Bool-cases (needs_initialize s)) [
    | inl i ↦
        Follows-same s (external_demand_queued e) t
          (ap (λ x. x.protocol.phase) (sym (next_of (rw i at h))))
    | inr i ↦
        let (u, r, q, same, k) = reduce_external_demand_queued-Dispatched c s e t h i in
        rw (same, lifecycle_of_phase u s (sym k.0)) (dispatch_queued-Follows u _ _ r e q)
  ]

  -- Each event changes the lifecycle as its table allows, or leaves it: so no event leads back to
  -- `idle`, only a computed plan leads to `applying`, and only a failure, a degraded application or
  -- a failed plan leads to `recovering`.
  pub reduce_owned-Follows :
      (s : CoreState (parts w)) (e : Event w) (t : Transition w)
      → reduce_owned c s e ≡ some t
      → Follows s e t
  unfolding reduce_owned lifecycle collect
  reduce_owned-Follows s (initialize n) t h = ground arith
  reduce_owned-Follows s (external_demand_queued e) t h =
      reduce_external_demand_queued-Follows s e t h
  reduce_owned-Follows s (observation_base_collected e) t h = ground arith
  reduce_owned-Follows s (probe_reported r) t h = ground arith
  reduce_owned-Follows s (render_plan_computed r n) t h = ground arith
  reduce_owned-Follows s (render_plan_failed r n) t h = ground arith
  reduce_owned-Follows s (apply_reported (applied_fully id n b)) t h =
      applied-Follows c s (apply_reported (applied_fully id n b)) id n b t h (λ l r. ground arith)
  reduce_owned-Follows s (apply_reported (applied_degraded id d n b)) t h =
      failed-Follows c s (apply_reported (applied_degraded id d n b)) id d n b t h refl
  reduce_owned-Follows s (apply_reported (apply_failed id d n)) t h =
      failed-Follows c s (apply_reported (apply_failed id d n)) id d n false t h refl
  reduce_owned-Follows s (render_cleanup_applied a n) t h =
      Follows-same s (render_cleanup_applied a n) t (cleanup_applied-phase s a n t h)
  reduce_owned-Follows s (render_cleanup_retained_resources_observed r n) t h =
      Follows-same s (render_cleanup_retained_resources_observed r n) t
        (retained_observed-phase s r n t h)
  reduce_owned-Follows s (timer_fired_with_token k n) t h =
      elim (Bool-cases (is_active s.protocol.shared.timers k)) [
        | inl i ↦
            Follows-disarmed s k (timer_fired_with_token k n) t
              (timer_fired-Follows (disarm s k) k.id k n n t (rw i at h))
        | inr i ↦ ground arith
      ]
  reduce_owned-Follows s (timer_lost_with_token k n) t h =
      elim (Bool-cases (is_active s.protocol.shared.timers k)) [
        | inl i ↦
            Follows-disarmed s k (timer_lost_with_token k n) t
              (timer_lost-Follows (disarm s k) k.id k n n t (rw i at h))
        | inr i ↦ ground arith
      ]
  reduce_owned-Follows s (effect_failed p n) t h = reduce_effect_failed-Follows c s p n t h
