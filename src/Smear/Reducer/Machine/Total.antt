-- ===== src/Smear/Reducer/Machine/Total.antt =====
-- No `unreachable!` of smear-cursor/src/core/reducer/machine is reached.
use dotfiles_nix.Base.{
  refl, ℕ, ◌≡◌, Bool, true, false, Option, none, some, is_some, arith, List, Bool-cases,
  Option-cases, inl, inr,
}
use mathlib.Core.Option
use dotfiles_nix.Smear.Types.{Lifecycle}
use dotfiles_nix.Smear.Payloads.{Payloads}
use dotfiles_nix.Smear.Timers.{is_active}
use dotfiles_nix.Smear.Protocol.Core.{CoreState, lifecycle, needs_initialize}
use dotfiles_nix.Smear.Protocol.Moves.{take_pending_proposal}
use dotfiles_nix.Smear.Reducer.Snapshot.{parts, Calls, InFlightProposal, RealizationDivergence}
use dotfiles_nix.Smear.Reducer.Effects.{
  Effect, Event, initialize, external_demand_queued, observation_base_collected, probe_reported,
  render_plan_computed, render_plan_failed, apply_reported, render_cleanup_applied,
  render_cleanup_retained_resources_observed, timer_fired_with_token, timer_lost_with_token,
  effect_failed, applied_fully, applied_degraded, apply_failed, ExternalDemandQueuedEvent,
}
use dotfiles_nix.Smear.Reducer.Observing.{
  dispatch_queued, queue_external_demand, reduce_external_demand_queued,
}
use dotfiles_nix.Smear.Reducer.Reports.{
  continue_from, complete, acknowledge_target, reduce_apply_completed, reduce_apply_non_success,
  reduce_effect_failed, fail_generic,
}
use dotfiles_nix.Smear.Reducer.Cleaning.{advance_cleanup_for_proposal}
use dotfiles_nix.Smear.Reducer.Machine.Inner.{
  advance_cleanup_for_proposal-SameRecovery, take_pending_proposal-taken,
}
use dotfiles_nix.Smear.Reducer.Probes.{collect}
use dotfiles_nix.Smear.Reducer.Clocks.{timer_fired, timer_lost, disarm}
use dotfiles_nix.Smear.Reducer.Machine.{reduce_owned}

is_some-map {ℓ} :
    {A B : Type ℓ} (f : A → B) (o : Option A) → is_some o ≡ true → is_some (Option.map f o) ≡ true
is_some-map f none h = h
is_some-map f (some a) h = refl

module _ {w : Payloads} (c : Calls w) where
  dispatch_queued-total :
      (s : CoreState (parts w)) (delays : Bool) (n : ℕ)
      → is_some (dispatch_queued c s delays n) ≡ true
  unfolding dispatch_queued
  dispatch_queued-total s delays n = ground arith

  continue_from-total :
      (s : CoreState (parts w)) (p : InFlightProposal w) (n : ℕ) (es : List (Effect w))
      → lifecycle s ≡ Lifecycle.ready
      → is_some (continue_from c s p n es) ≡ true
  unfolding continue_from lifecycle
  continue_from-total s p n es h = ground arith

  reduce_external_demand_queued-total :
      (s : CoreState (parts w)) (e : ExternalDemandQueuedEvent w)
      → is_some (reduce_external_demand_queued c s e) ≡ true
  unfolding reduce_external_demand_queued queue_external_demand
  reduce_external_demand_queued-total s e = elim (Bool-cases (needs_initialize s)) [
    | inl i ↦ rw i refl
    | inr i ↦ rw i (is_some-map _ _ (is_some-map _ _ (dispatch_queued-total _ _ _)))
  ]

  complete-total :
      (s : CoreState (parts w)) (p : InFlightProposal w) (n : ℕ) (b : Bool)
      → lifecycle s ≡ Lifecycle.ready
      → is_some (complete c s p n b) ≡ true
  unfolding complete acknowledge_target lifecycle
  complete-total s p n b h =
      let u = acknowledge_target s p in
      let kept = advance_cleanup_for_proposal-SameRecovery c u p n in
      continue_from-total (advance_cleanup_for_proposal c u p n).0 p n _ (rw kept.0 h)

  reduce_apply_completed-total :
      (s : CoreState (parts w)) (id n : ℕ) (b : Bool)
      → is_some (reduce_apply_completed c s id n b) ≡ true
  unfolding reduce_apply_completed
  reduce_apply_completed-total s id n b = elim (Option-cases (take_pending_proposal s id).1) [
    | inl stale ↦ rw (stale, reduce_apply_completed) refl
    | inr (p, taken) ↦
        rw (taken, reduce_apply_completed)
          (complete-total (take_pending_proposal s id).0 p n b
            (take_pending_proposal-taken s id p taken).1)
  ]

  reduce_apply_non_success-total :
      (s : CoreState (parts w)) (id : ℕ) (d : RealizationDivergence w) (n : ℕ) (b : Bool)
      → is_some (reduce_apply_non_success c s id d n b) ≡ true
  unfolding reduce_apply_non_success
  reduce_apply_non_success-total s id d n b = elim (Option-cases (take_pending_proposal s id).1) [
    | inl stale ↦ rw (stale, reduce_apply_non_success) refl
    | inr (p, taken) ↦ rw (taken, reduce_apply_non_success) refl
  ]

  reduce_effect_failed-total :
      (s : CoreState (parts w)) (p : Option ℕ) (n : ℕ)
      → is_some (reduce_effect_failed c s p n) ≡ true
  unfolding reduce_effect_failed fail_generic
  reduce_effect_failed-total s none n = elim (Bool-cases (needs_initialize s)) [
    | inl i ↦ rw i refl
    | inr i ↦ rw i refl
  ]
  reduce_effect_failed-total s (some id) n = elim (Bool-cases (needs_initialize s)) [
    | inl i ↦ rw i refl
    | inr i ↦ rw i (reduce_apply_non_success-total s id _ n false)
  ]

  -- The reducer returns a transition for every state and every event: it reaches no `unreachable!`.
  pub reduce_owned-total :
      (s : CoreState (parts w)) (e : Event w) → is_some (reduce_owned c s e) ≡ true
  unfolding reduce_owned collect timer_fired timer_lost disarm is_active
  reduce_owned-total s (initialize n) = ground arith
  reduce_owned-total s (external_demand_queued e) = reduce_external_demand_queued-total s e
  reduce_owned-total s (observation_base_collected e) = ground arith
  reduce_owned-total s (probe_reported r) = ground arith
  reduce_owned-total s (render_plan_computed r n) = ground arith
  reduce_owned-total s (render_plan_failed r n) = ground arith
  reduce_owned-total s (apply_reported (applied_fully id n b)) =
      reduce_apply_completed-total s id n b
  reduce_owned-total s (apply_reported (applied_degraded id d n b)) =
      reduce_apply_non_success-total s id d n b
  reduce_owned-total s (apply_reported (apply_failed id d n)) =
      reduce_apply_non_success-total s id d n false
  reduce_owned-total s (render_cleanup_applied r n) = ground arith
  reduce_owned-total s (render_cleanup_retained_resources_observed r n) = ground arith
  reduce_owned-total s (timer_fired_with_token k n) = ground arith
  reduce_owned-total s (timer_lost_with_token k n) = ground arith
  reduce_owned-total s (effect_failed p n) = reduce_effect_failed-total s p n
