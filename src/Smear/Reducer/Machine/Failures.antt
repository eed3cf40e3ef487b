-- ===== src/Smear/Reducer/Machine/Failures.antt =====
-- The lifecycles after reports and failures: smear-cursor/src/core/reducer/machine/apply.rs.
use dotfiles_nix.Base.{
  refl, ℕ, ◌≡◌, sym, ap, ◌∙◌, Bool, true, false, List, Option, none, some, arith, Bool-cases,
  Option-cases, inl, inr,
}
use dotfiles_nix.Smear.Types.{Lifecycle}
use dotfiles_nix.Smear.Types.Lifecycle.{observing, ready, applying, recovering}
use dotfiles_nix.Smear.Payloads.{Payloads}
use dotfiles_nix.Smear.Protocol.Core.{CoreState, lifecycle, needs_initialize}
use dotfiles_nix.Smear.Protocol.Moves.{take_pending_proposal}
use dotfiles_nix.Smear.Reducer.Snapshot.{parts, Calls, InFlightProposal, RealizationDivergence}
use dotfiles_nix.Smear.Reducer.Effects.{Effect, Transition, Event, effect_failed}
use dotfiles_nix.Smear.Reducer.Reports.{
  continue_from, complete, acknowledge_target, diverge, reduce_apply_completed,
  reduce_apply_non_success, fail_generic, reduce_effect_failed,
}
use dotfiles_nix.Smear.Reducer.Cleaning.{advance_cleanup_for_proposal}
use dotfiles_nix.Smear.Reducer.Machine.Inner.{
  next_of, take_pending_proposal-taken, take_pending_proposal-stale,
  advance_cleanup_for_proposal-SameRecovery,
}
use dotfiles_nix.Smear.Reducer.Machine.Lifecycles.{
  may_follow, Follows, lifecycle_of_phase, Follows-same,
}

module _ {w : Payloads} (c : Calls w) where
  abbrev pub ready_or_observing : Lifecycle → Bool
  ready_or_observing ready = true
  ready_or_observing observing = true
  ready_or_observing _ = false

  continue_from-lifecycle :
      (s : CoreState (parts w)) (p : InFlightProposal w) (n : ℕ) (es : List (Effect w))
      (t : Transition w)
      → lifecycle s ≡ ready
      → continue_from c s p n es ≡ some t
      → ready_or_observing (lifecycle t.next) ≡ true
  unfolding continue_from lifecycle
  continue_from-lifecycle s p n es t r h = ground arith

  complete-lifecycle :
      (s : CoreState (parts w)) (p : InFlightProposal w) (n : ℕ) (b : Bool) (t : Transition w)
      → lifecycle s ≡ ready
      → complete c s p n b ≡ some t
      → ready_or_observing (lifecycle t.next) ≡ true
  unfolding complete acknowledge_target
  complete-lifecycle s p n b t r h =
      let u = acknowledge_target s p in
      let v = (advance_cleanup_for_proposal c u p n).0 in
      let kept = advance_cleanup_for_proposal-SameRecovery c u p n in
      continue_from-lifecycle v p n _ t (lifecycle_of_phase s v kept.0 ∙ r) h

  diverge-lifecycle :
      (s : CoreState (parts w)) (p : InFlightProposal w) (d : RealizationDivergence w) (n : ℕ)
      (b : Bool)
      → lifecycle (diverge c s p d n b).next ≡ recovering
  unfolding diverge lifecycle
  diverge-lifecycle s p d n b = ground arith

  -- Whatever an event's table allows from `applying`.
  pub applied-Follows :
      (s : CoreState (parts w)) (e : Event w) (id n : ℕ) (b : Bool) (t : Transition w)
      → reduce_apply_completed c s id n b ≡ some t
      → ((l : Lifecycle) → ready_or_observing l ≡ true → may_follow e applying l ≡ true)
      → Follows s e t
  unfolding reduce_apply_completed
  applied-Follows s e id n b t h allowed = elim (Option-cases (take_pending_proposal s id).1) [
    | inl stale ↦ Follows-same s e t (
        ap (λ x. x.protocol.phase) (sym (next_of (rw (stale, reduce_apply_completed) at h)))
        ∙ take_pending_proposal-stale s id stale)
    | inr (p, taken) ↦
        let (from, to) = take_pending_proposal-taken s id p taken in
        rw from
          (allowed _ (complete-lifecycle _ p n b t to (rw (taken, reduce_apply_completed) at h)))
  ]

  pub failed-Follows :
      (s : CoreState (parts w)) (e : Event w) (id : ℕ) (d : RealizationDivergence w) (n : ℕ)
      (b : Bool) (t : Transition w)
      → reduce_apply_non_success c s id d n b ≡ some t
      → may_follow e applying recovering ≡ true
      → Follows s e t
  unfolding reduce_apply_non_success
  failed-Follows s e id d n b t h allowed = elim (Option-cases (take_pending_proposal s id).1) [
    | inl stale ↦ Follows-same s e t (
        ap (λ x. x.protocol.phase) (sym (next_of (rw (stale, reduce_apply_non_success) at h)))
        ∙ take_pending_proposal-stale s id stale)
    | inr (p, taken) ↦
        let u = (take_pending_proposal s id).0 in
        let (from, to) = take_pending_proposal-taken s id p taken in
        rw
          (
            from,
            sym (next_of (rw (taken, reduce_apply_non_success) at h)),
            diverge-lifecycle u p d n b,
          )
          allowed
  ]

  fail_generic-lifecycle :
      (s : CoreState (parts w)) (n : ℕ) (t : Transition w)
      → fail_generic c s n ≡ some t
      → lifecycle t.next ≡ recovering
  unfolding fail_generic lifecycle
  fail_generic-lifecycle s n t h = ground arith

  -- A state that is initialised is not idle.
  failure_moves :
      (s : CoreState (parts w)) (n : ℕ) (l : Lifecycle)
      → needs_initialize s ≡ false
      → l ≡ recovering
      → may_follow {w = w} (effect_failed none n) (lifecycle s) l ≡ true
  unfolding needs_initialize lifecycle
  failure_moves s n l i r = ground arith

  pub reduce_effect_failed-Follows :
      (s : CoreState (parts w)) (p : Option ℕ) (n : ℕ) (t : Transition w)
      → reduce_effect_failed c s p n ≡ some t
      → Follows s (effect_failed p n) t
  unfolding reduce_effect_failed
  reduce_effect_failed-Follows s none n t h = elim (Bool-cases (needs_initialize s)) [
    | inl i ↦
        Follows-same s (effect_failed none n) t
          (ap (λ x. x.protocol.phase) (sym (next_of (rw i at h))))
    | inr i ↦ failure_moves s n _ i (fail_generic-lifecycle s n t (rw i at h))
  ]
  reduce_effect_failed-Follows s (some id) n t h = elim (Bool-cases (needs_initialize s)) [
    | inl i ↦
        Follows-same s (effect_failed (some id) n) t
          (ap (λ x. x.protocol.phase) (sym (next_of (rw i at h))))
    | inr i ↦ failed-Follows s (effect_failed (some id) n) id _ n false t (rw i at h) refl
  ]
