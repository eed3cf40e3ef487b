-- ===== src/Smear/Reducer/Machine/Inner.antt =====
-- What the inner functions of the reducer change: smear-cursor/src/core/reducer/machine.
use mathlib.Core.Option
use dotfiles_nix.Base.{refl, ap, sym, ◌∙◌, ℕ, ◌≡◌, Bool, false, Option, none, some, arith}
use dotfiles_nix.Smear.Types.{Lifecycle}
use dotfiles_nix.Smear.Demand.{is_cursor, QueuedDemand}
use dotfiles_nix.Smear.Payloads.{Payloads}
use dotfiles_nix.Smear.Protocol.Core.{CoreState, lifecycle, needs_initialize}
use dotfiles_nix.Smear.Protocol.Moves.{
  take_pending_proposal, enter_observing_request, allocate_ingress_seq,
}
use dotfiles_nix.Smear.Reducer.Snapshot.{parts, Calls, ObservationSnapshot, InFlightProposal}
use dotfiles_nix.Smear.Reducer.Effects.{Effect, Transition, ExternalDemandQueuedEvent}
use dotfiles_nix.Smear.Reducer.Requests.{
  start_observation, refresh_observation, start_boundary_refresh_observation,
}
use dotfiles_nix.Smear.Timers.{arm}
use dotfiles_nix.Smear.Reducer.Delays.{schedule_timer_with_delay}
use dotfiles_nix.Smear.Reducer.Cleaning.{
  scheduled_cleanup_state, advance_cleanup_for_proposal, enter_hot_cleanup_state,
}
use dotfiles_nix.Smear.Reducer.Planning.{plan_ready_state}
use dotfiles_nix.Smear.Reducer.Observing.{
  clear_delay, start_next_observation, request_of, push_front, reduce_external_demand_queued,
  queue_external_demand, dispatch_queued, note_freshness,
}

module _ {w : Payloads} where
  -- The timers and the count of attempts are as before.
  abbrev pub Quiet : CoreState (parts w) → CoreState (parts w) → Type 0
  Quiet s t =
      (t.protocol.shared.timers ≡ s.protocol.shared.timers)
      × (t.protocol.shared.recovery_policy ≡ s.protocol.shared.recovery_policy)

  -- The phase, the recovery timer and the count of attempts are as before.
  abbrev pub SameRecovery : CoreState (parts w) → CoreState (parts w) → Type 0
  SameRecovery s t =
      (t.protocol.phase ≡ s.protocol.phase)
      × (t.protocol.shared.recovery_policy ≡ s.protocol.shared.recovery_policy)
      × (t.protocol.shared.timers.slots.recovery ≡ s.protocol.shared.timers.slots.recovery)

  -- A state that waits is in the same phase; one with a request is observing.
  abbrev pub Next : CoreState (parts w) → CoreState (parts w) → Option (Effect w) → Type 0
  Next s t none = t.protocol.phase ≡ s.protocol.phase
  Next s t (some effect) = lifecycle t ≡ Lifecycle.observing

module _ {w : Payloads} where
  -- A proposal is taken from an applying state, which is ready then.
  pub take_pending_proposal-taken :
      (s : CoreState (parts w)) (id : ℕ) (p : InFlightProposal w)
      → (take_pending_proposal s id).1 ≡ some p
      → (lifecycle s ≡ Lifecycle.applying)
        × (lifecycle (take_pending_proposal s id).0 ≡ Lifecycle.ready)
  unfolding take_pending_proposal lifecycle
  take_pending_proposal-taken s id p h = ground arith

  pub take_pending_proposal-stale :
      (s : CoreState (parts w)) (id : ℕ)
      → (take_pending_proposal s id).1 ≡ none
      → (take_pending_proposal s id).0.protocol.phase ≡ s.protocol.phase
  unfolding take_pending_proposal
  take_pending_proposal-stale s id h = ground arith

  pub transition_of : {t u : Transition w} → some t ≡ some u → t ≡ u
  transition_of e = ground arith

  pub next_of : {t u : Transition w} → some t ≡ some u → t.next ≡ u.next
  next_of e = ap (λ t. t.next) (transition_of e)

-- A value that `Option.map` returns comes from a value.
map-some {ℓ} :
    {A B : Type ℓ} (f : A → B) (o : Option A) (b : B)
    → Option.map f o ≡ some b
    → (a : A) × (o ≡ some a) × (f a ≡ b)
map-some f none b h = cc
map-some f (some a) b h = (a, refl, ground arith)

module _ {w : Payloads} (c : Calls w) where
  pub start_next_observation-Quiet :
      (s t : CoreState (parts w)) (effect : Option (Effect w))
      → start_next_observation c s ≡ some (t, effect)
      → Quiet s t × Next s t effect
  unfolding start_next_observation lifecycle request_of clear_delay start_observation
      enter_observing_request
  start_next_observation-Quiet s t effect e = (ground arith, ground arith)

  pub refresh-Quiet :
      (s t : CoreState (parts w)) (n : ℕ) (effect : Effect w)
      → start_boundary_refresh_observation c s n ≡ some (t, effect)
      → Quiet s t × (lifecycle t ≡ Lifecycle.observing)
  unfolding start_boundary_refresh_observation refresh_observation lifecycle start_observation
      enter_observing_request
  refresh-Quiet s t n effect e = ground arith

  pub plan_ready_state-Quiet :
      (s : CoreState (parts w)) (p : Option (ObservationSnapshot w)) (n : ℕ) (t : Transition w)
      → plan_ready_state c s p n ≡ some t
      → Quiet s t.next
  unfolding plan_ready_state lifecycle
  plan_ready_state-Quiet s p n t e = ground arith

  pub advance_cleanup_for_proposal-SameRecovery :
      (s : CoreState (parts w)) (p : InFlightProposal w) (n : ℕ)
      → SameRecovery s (advance_cleanup_for_proposal c s p n).0
  unfolding advance_cleanup_for_proposal schedule_timer_with_delay arm scheduled_cleanup_state
  advance_cleanup_for_proposal-SameRecovery s p n = ground arith

  push_front-next : (e : Option (Effect w)) (t : Transition w) → (push_front e t).next ≡ t.next
  push_front-next none t = refl
  push_front-next (some e) t = refl

  enter_hot_cleanup_state-SameRecovery :
      (s : CoreState (parts w)) (n : ℕ) → SameRecovery s (enter_hot_cleanup_state c s n).0
  unfolding enter_hot_cleanup_state schedule_timer_with_delay arm
  enter_hot_cleanup_state-SameRecovery s n = ground arith

  -- The dispatch from which a transition comes, and what its state has in common with `s`.
  abbrev pub Dispatched : CoreState (parts w) → Bool → ℕ → Transition w → Type 0
  Dispatched s delays n t =
      (u : CoreState (parts w)) × (r : Transition w) × (dispatch_queued c u delays n ≡ some r)
      × (t.next ≡ r.next)
      × SameRecovery s u

  queue_external_demand-Dispatched :
      (s : CoreState (parts w)) (d : QueuedDemand w.Surface) (n : ℕ) (t : Transition w)
      → queue_external_demand c s d n ≡ some t
      → Dispatched s (is_cursor d.demand.kind) n t
  unfolding queue_external_demand
  queue_external_demand-Dispatched s d n t h =
      let (r, e, f) = map-some _ _ t h in
      let same : t.next ≡ r.next = ap (λ x. x.next) (sym f) ∙ push_front-next _ _ in
      (_, r, e, same, enter_hot_cleanup_state-SameRecovery _ n)

  note_freshness-SameRecovery :
      (s : CoreState (parts w)) (e : ExternalDemandQueuedEvent w)
      → SameRecovery s (allocate_ingress_seq (note_freshness s e)).0
  unfolding note_freshness allocate_ingress_seq
  note_freshness-SameRecovery s e = ground arith

  -- A demand that an initialised state takes in is dispatched from a state with the same phase,
  -- recovery timer and count of attempts.
  pub reduce_external_demand_queued-Dispatched :
      (s : CoreState (parts w)) (e : ExternalDemandQueuedEvent w) (t : Transition w)
      → reduce_external_demand_queued c s e ≡ some t
      → needs_initialize s ≡ false
      → Dispatched s (is_cursor e.kind) e.observed_at t
  unfolding reduce_external_demand_queued
  reduce_external_demand_queued-Dispatched s e t h i =
      let (r, q, f) = map-some _ _ t (rw i at h) in
      let (u, r', q', same, v) = queue_external_demand-Dispatched _ _ _ r q in
      let first = note_freshness-SameRecovery s e in
      let same' : t.next ≡ r.next = ap (λ x. x.next) (sym f) ∙ push_front-next _ _ in
      (u, r', q', same' ∙ same, (v.0 ∙ first.0, v.1 ∙ first.1, v.2 ∙ first.2))
