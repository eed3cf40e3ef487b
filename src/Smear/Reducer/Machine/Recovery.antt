-- ===== src/Smear/Reducer/Machine/Recovery.antt =====
-- A recovery never hangs: smear-cursor/src/core/reducer/machine.
use dotfiles_nix.Base.{
  Bool-cases, Option-cases, inl, inr, ℕ, ◌≡◌, ◌≤◌, Bool, true, false, Option, none, some, arith,
  List,
}
use dotfiles_nix.Smear.Payloads.{Payloads}
use dotfiles_nix.Smear.Timers.{TimerSlotState, arm, is_active}
use dotfiles_nix.Smear.Protocol.Phase.{ProtocolPhase, recovering}
use dotfiles_nix.Smear.Protocol.Core.{CoreState, needs_initialize}
use dotfiles_nix.Smear.Reducer.Snapshot.{
  parts, Calls, InFlightProposal, RealizationDivergence, shell_state_unknown,
}
use dotfiles_nix.Smear.Reducer.Effects.{
  Effect, Transition, ExternalDemandQueuedEvent, Event, applied_fully, applied_degraded,
  apply_failed, initialize, external_demand_queued, observation_base_collected, probe_reported,
  render_plan_computed, render_plan_failed, apply_reported, render_cleanup_applied,
  render_cleanup_retained_resources_observed, timer_fired_with_token, timer_lost_with_token,
  effect_failed,
}
use dotfiles_nix.Smear.Reducer.Delays.{next_recovery_attempt}
use dotfiles_nix.Smear.Protocol.Moves.{take_pending_proposal}
use dotfiles_nix.Smear.Reducer.Observing.{dispatch_queued, reduce_external_demand_queued}
use dotfiles_nix.Smear.Reducer.Reports.{
  acknowledge_target, continue_from, complete, diverge, reduce_apply_completed,
  reduce_apply_non_success, fail_generic, reduce_effect_failed,
}
use dotfiles_nix.Smear.Reducer.Cleaning.{advance_cleanup_for_proposal}
use dotfiles_nix.Smear.Reducer.Machine.Inner.{
  next_of, SameRecovery, reduce_external_demand_queued-Dispatched,
  advance_cleanup_for_proposal-SameRecovery,
}
use dotfiles_nix.Smear.Reducer.Probes.{collect}
use dotfiles_nix.Smear.Reducer.Clocks.{timer_fired, timer_lost, disarm}
use dotfiles_nix.Smear.Reducer.Machine.{reduce_owned}

module _ {w : Payloads} where
  -- A recovering phase has its timer armed.
  abbrev pub has_recovery : ProtocolPhase (parts w) → TimerSlotState → Bool
  has_recovery (recovering r) slot = slot.armed
  has_recovery _ slot = true

  abbrev pub IsLive : CoreState (parts w) → Type 0
  IsLive s =
      (has_recovery s.protocol.phase s.protocol.shared.timers.slots.recovery ≡ true)
      × (s.protocol.shared.recovery_policy.retry_attempt ≤ 5)

  -- What `IsLive` reads.
  IsLive-of_same : (s u : CoreState (parts w)) → SameRecovery s u → IsLive s → IsLive u
  IsLive-of_same s u r v = rw (r.0, r.1, r.2) v

module _ {w : Payloads} (c : Calls w) where
  dispatch_queued-IsLive :
      (s : CoreState (parts w)) (delays : Bool) (n : ℕ) (t : Transition w)
      → dispatch_queued c s delays n ≡ some t
      → IsLive s
      → IsLive t.next
  unfolding dispatch_queued arm
  dispatch_queued-IsLive s delays n t h v = ground arith

  continue_from-IsLive :
      (s : CoreState (parts w)) (p : InFlightProposal w) (n : ℕ) (es : List (Effect w))
      (t : Transition w)
      → continue_from c s p n es ≡ some t
      → IsLive s
      → IsLive t.next
  unfolding continue_from arm
  continue_from-IsLive s p n es t h v = ground arith

  diverge-IsLive :
      (s : CoreState (parts w)) (p : InFlightProposal w) (d : RealizationDivergence w) (n : ℕ)
      (b : Bool)
      → IsLive (diverge c s p d n b).next
  unfolding diverge arm next_recovery_attempt
  diverge-IsLive s p d n b = ground arith

  take_pending_proposal-IsLive :
      (s : CoreState (parts w)) (id : ℕ) → IsLive s → IsLive (take_pending_proposal s id).0
  unfolding take_pending_proposal
  take_pending_proposal-IsLive s id v = ground arith

  reduce_external_demand_queued-IsLive :
      (s : CoreState (parts w)) (e : ExternalDemandQueuedEvent w) (t : Transition w)
      → reduce_external_demand_queued c s e ≡ some t
      → IsLive s
      → IsLive t.next
  unfolding reduce_external_demand_queued
  reduce_external_demand_queued-IsLive s e t h v = elim (Bool-cases (needs_initialize s)) [
    | inl i ↦ rw⁻¹ (next_of (rw i at h)) v
    | inr i ↦
        let (u, r, q, same, k) = reduce_external_demand_queued-Dispatched c s e t h i in
        rw same (dispatch_queued-IsLive u _ _ r q (IsLive-of_same s u k v))
  ]

  complete-IsLive :
      (s : CoreState (parts w)) (p : InFlightProposal w) (n : ℕ) (b : Bool) (t : Transition w)
      → complete c s p n b ≡ some t
      → IsLive s
      → IsLive t.next
  unfolding complete acknowledge_target
  complete-IsLive s p n b t h v =
      let u = acknowledge_target s p in
      let r = advance_cleanup_for_proposal c u p n in
      let kept = advance_cleanup_for_proposal-SameRecovery c u p n in
      continue_from-IsLive r.0 p n _ t h (IsLive-of_same u r.0 kept v)

  reduce_apply_completed-IsLive :
      (s : CoreState (parts w)) (id n : ℕ) (b : Bool) (t : Transition w)
      → reduce_apply_completed c s id n b ≡ some t
      → IsLive s
      → IsLive t.next
  unfolding reduce_apply_completed
  reduce_apply_completed-IsLive s id n b t h v =
      let kept = take_pending_proposal-IsLive s id v in
      elim (Option-cases (take_pending_proposal s id).1) [
        | inl stale ↦ rw⁻¹ (next_of (rw (stale, reduce_apply_completed) at h)) kept
        | inr (p, taken) ↦ complete-IsLive _ p n b t (rw (taken, reduce_apply_completed) at h) kept
      ]

  reduce_apply_non_success-IsLive :
      (s : CoreState (parts w)) (id : ℕ) (d : RealizationDivergence w) (n : ℕ) (b : Bool)
      (t : Transition w)
      → reduce_apply_non_success c s id d n b ≡ some t
      → IsLive s
      → IsLive t.next
  unfolding reduce_apply_non_success
  reduce_apply_non_success-IsLive s id d n b t h v =
      elim (Option-cases (take_pending_proposal s id).1) [
        | inl stale ↦
            rw⁻¹ (next_of (rw (stale, reduce_apply_non_success) at h))
              (take_pending_proposal-IsLive s id v)
        | inr (p, taken) ↦
            rw⁻¹ (next_of (rw (taken, reduce_apply_non_success) at h))
              (diverge-IsLive (take_pending_proposal s id).0 p d n b)
      ]

  fail_generic-IsLive :
      (s : CoreState (parts w)) (n : ℕ) (t : Transition w)
      → fail_generic c s n ≡ some t
      → IsLive t.next
  unfolding fail_generic arm next_recovery_attempt
  fail_generic-IsLive s n t h = ground arith

  reduce_effect_failed-IsLive :
      (s : CoreState (parts w)) (p : Option ℕ) (n : ℕ) (t : Transition w)
      → reduce_effect_failed c s p n ≡ some t
      → IsLive s
      → IsLive t.next
  unfolding reduce_effect_failed
  reduce_effect_failed-IsLive s p n t h v = elim (Bool-cases (needs_initialize s)) [
    | inl i ↦ rw⁻¹ (next_of (rw i at h)) v
    | inr i ↦ failed p (rw i at h)
  ]
    where
      failed :
          (p : Option ℕ)
          → elim p [
            | some id ↦ reduce_apply_non_success c s id shell_state_unknown n false
            | none ↦ fail_generic c s n
          ]
            ≡ some t
          → IsLive t.next
      failed none h' = fail_generic-IsLive s n t h'
      failed (some id) h' = reduce_apply_non_success-IsLive s id _ n false t h' v

  -- Every event keeps a state live: while it recovers, the timer that ends the recovery is armed, and
  -- the count of attempts is at most 5.
  pub reduce_owned-IsLive :
      (s : CoreState (parts w)) (e : Event w) (t : Transition w)
      → reduce_owned c s e ≡ some t
      → IsLive s
      → IsLive t.next
  unfolding reduce_owned collect timer_fired timer_lost disarm is_active arm next_recovery_attempt
  reduce_owned-IsLive s (initialize n) t h v = ground arith
  reduce_owned-IsLive s (external_demand_queued e) t h v =
      reduce_external_demand_queued-IsLive s e t h v
  reduce_owned-IsLive s (observation_base_collected e) t h v = ground arith
  reduce_owned-IsLive s (probe_reported r) t h v = ground arith
  reduce_owned-IsLive s (render_plan_computed r n) t h v = ground arith
  reduce_owned-IsLive s (render_plan_failed r n) t h v = ground arith
  reduce_owned-IsLive s (apply_reported (applied_fully id n b)) t h v =
      reduce_apply_completed-IsLive s id n b t h v
  reduce_owned-IsLive s (apply_reported (applied_degraded id d n b)) t h v =
      reduce_apply_non_success-IsLive s id d n b t h v
  reduce_owned-IsLive s (apply_reported (apply_failed id d n)) t h v =
      reduce_apply_non_success-IsLive s id d n false t h v
  reduce_owned-IsLive s (render_cleanup_applied r n) t h v = ground arith
  reduce_owned-IsLive s (render_cleanup_retained_resources_observed r n) t h v = ground arith
  reduce_owned-IsLive s (timer_fired_with_token k n) t h v = ground arith
  reduce_owned-IsLive s (timer_lost_with_token k n) t h v = ground arith
  reduce_owned-IsLive s (effect_failed p n) t h v = reduce_effect_failed-IsLive s p n t h v
