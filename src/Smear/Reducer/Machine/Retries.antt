-- ===== src/Smear/Reducer/Machine/Retries.antt =====
-- Failures of effects: smear-cursor/src/core/reducer/machine/apply.rs and support.rs.
use dotfiles_nix.Base.{
  ℕ, ◌-◌, ◌^◌, ◌≡◌, ◌≤◌, ◌<◌, refl, ◌≢◌, ◌⊎◌, inl, inr, true, Option, none, some, arith, dec_lt,
}
use dotfiles_nix.Smear.Payloads.{Payloads}
use dotfiles_nix.Smear.Types.{Lifecycle, TimerId}
use dotfiles_nix.Smear.Timers.{arm, is_active}
use dotfiles_nix.Smear.Demand.{
  ExternalDemand, ExternalDemandKind, QueuedDemand, DemandQueue, queued, enqueue,
}
use dotfiles_nix.Smear.Protocol.Phase.{ProtocolPhase, collecting, observing}
use dotfiles_nix.Smear.Protocol.Core.{CoreState, lifecycle, active_demand}
use dotfiles_nix.Smear.Reducer.Snapshot.{parts, Calls}
use dotfiles_nix.Smear.Reducer.Effects.{Transition, schedule_timer, ScheduleTimerEffect}
use dotfiles_nix.Smear.Reducer.Delays.{
  recovery_backoff_delay, delay_budget_from_ms, next_recovery_attempt,
  enter_recovering_with_backoff,
}
use dotfiles_nix.Smear.Reducer.Reports.{reduce_effect_failed, queue_retry, fail_generic}
use native.Mathlib.Nat.{one-le-pow}

-- The backoff doubles from 16 ms up to 256 ms.
backoff_delays :
    (recovery_backoff_delay 0 ≡ 16)
    × (recovery_backoff_delay 1 ≡ 16)
    × (recovery_backoff_delay 2 ≡ 32)
    × (recovery_backoff_delay 3 ≡ 64)
    × (recovery_backoff_delay 4 ≡ 128)
    × (recovery_backoff_delay 5 ≡ 256)
unfolding recovery_backoff_delay delay_budget_from_ms
backoff_delays = (refl, refl, refl, refl, refl, refl)

-- The delay of every attempt lies between 16 and 256 milliseconds.
recovery_backoff_delay_bounds :
    (n : ℕ) → (16 ≤ recovery_backoff_delay n) × (recovery_backoff_delay n ≤ 256)
unfolding recovery_backoff_delay delay_budget_from_ms
recovery_backoff_delay_bounds n =
    let two_pow : 1 ≤ 2 ^ (n - 1) = one-le-pow (n - 1) 2 (omega arith) in ground (arith, two_pow)

-- How the queue takes a demand back: what it has of the kind stays if it is not older, as it is, and
-- else the demand itself stands there, with no surface that was captured at ingress.
abbrev pub Requeued :
    {S : Type 0} → ExternalDemand → Option (QueuedDemand S) → Option (QueuedDemand S) → Type 0
Requeued d none after = after ≡ some (record { demand = d; ingress_observation_surface = none })
Requeued d (some e) after =
    ((d.seq ≤ e.demand.seq) × (after ≡ some e))
    ⊎ ((e.demand.seq < d.seq)
        × (after ≡ some (record { demand = d; ingress_observation_surface = none })))

Requeued-retry :
    {S : Type 0} (q : DemandQueue S) (d : ExternalDemand) (o : Option (QueuedDemand S))
    → queued q d.kind ≡ o
    → Requeued d o (queued (queue_retry q d).0 d.kind)
unfolding queue_retry queued enqueue
Requeued-retry q d none e = ground arith
Requeued-retry q d (some x) e = elim (dec_lt x.demand.seq d.seq) [
  | yes older ↦ inr (older, ground arith)
  | no newer ↦ inl (omega arith, ground arith)
]

-- The demands of the other kinds are as before a retry.
queue_retry_lem :
    {S : Type 0} (q : DemandQueue S) (d : ExternalDemand) (k : ExternalDemandKind)
    → k ≢ d.kind
    → queued (queue_retry q d).0 k ≡ queued q k
unfolding queue_retry queued enqueue
queue_retry_lem q d k other = ground arith

module _ {w : Payloads} where
  -- The entry to a recovery emits one effect, which schedules the recovery's timer: the state is
  -- recovering, the effect's token is active, and its delay is 16 to 256 milliseconds.
  pub enter_recovering_with_backoff_lem :
      (s : CoreState (parts w)) (n : ℕ)
      → (e : ScheduleTimerEffect) × ((enter_recovering_with_backoff s n).1 ≡ schedule_timer e)
        × (lifecycle (enter_recovering_with_backoff s n).0 ≡ Lifecycle.recovering)
        × (e.token.id ≡ TimerId.recovery)
        × (is_active (enter_recovering_with_backoff s n).0.protocol.shared.timers e.token ≡ true)
        × (16 ≤ e.delay)
        × (e.delay ≤ 256)
  unfolding enter_recovering_with_backoff lifecycle arm is_active
  enter_recovering_with_backoff_lem s n =
      let d = recovery_backoff_delay_bounds (next_recovery_attempt s) in
      (_, refl, refl, refl, ground arith, d.0, d.1)

  -- The demand of the observation that is being collected or probed.
  abbrev pub in_progress : ProtocolPhase (parts w) → Option ExternalDemand
  in_progress (collecting r p f) = some p.demand
  in_progress (observing o f plan) = some o.demand
  in_progress _ = none

module _ {w : Payloads} (c : Calls w) where
  failed_queue :
      (s : CoreState (parts w)) (n : ℕ) (t : Transition w) (d : ExternalDemand)
      → reduce_effect_failed c s none n ≡ some t
      → in_progress s.protocol.phase ≡ some d
      → t.next.protocol.shared.demand ≡ (queue_retry s.protocol.shared.demand d).0
  unfolding reduce_effect_failed fail_generic active_demand
  failed_queue s n t d h p = ground arith

  -- A failure in the middle of an observation does not lose its demand: the queue keeps a demand of
  -- its kind that is not older as it is, and has the demand itself, unchanged and without a surface
  -- captured at ingress, where it had none or an older one. The demands of the other kinds are as
  -- before.
  pub reduce_effect_failed-queue :
      (s : CoreState (parts w)) (n : ℕ) (t : Transition w) (d : ExternalDemand)
      (k : ExternalDemandKind)
      → reduce_effect_failed c s none n ≡ some t
      → in_progress s.protocol.phase ≡ some d
      → k ≢ d.kind
      → Requeued d
          (queued s.protocol.shared.demand d.kind)
          (queued t.next.protocol.shared.demand d.kind)
        × (queued t.next.protocol.shared.demand k ≡ queued s.protocol.shared.demand k)
  unfolding reduce_effect_failed fail_generic
  reduce_effect_failed-queue s n t d k h p other =
      let q = s.protocol.shared.demand in
      rw (failed_queue s n t d h p)
        (Requeued-retry q d (queued q d.kind) refl, queue_retry_lem q d k other)
