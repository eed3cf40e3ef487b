-- ===== src/Smear/Reducer/Reports.antt =====
-- Reports of applied proposals, and failures of effects:
-- smear-cursor/src/core/reducer/machine/apply.rs, lines 88 to 106 and 246 to 390. `none` is an
-- `unreachable!` of the source.
use dotfiles_nix.Base.{
  ℕ, max, Bool, true, false, ◌&&◌, List, [], ◌∷◌, ◌++◌, Option, none, some, leb, if◌then◌else◌,
}
use dotfiles_nix.Base.Words.{saturating_sub}
use mathlib.Core.Option
use dotfiles_nix.Smear.Types.{TimerId}
use dotfiles_nix.Smear.Demand.{ExternalDemand, QueuedDemand, DemandQueue, queued, enqueue}
use dotfiles_nix.Smear.Payloads.{Payloads}
use dotfiles_nix.Smear.Protocol.Phase
use dotfiles_nix.Smear.Protocol.Phase.{ProtocolPhaseKind}
use dotfiles_nix.Smear.Protocol.Core.{CoreState, needs_initialize, active_demand}
use dotfiles_nix.Smear.Protocol.Setters.{with_realization}
use dotfiles_nix.Smear.Protocol.Moves.{take_pending_proposal, map_demand_queue, into_primed}
use dotfiles_nix.Smear.Reducer.Snapshot.{
  parts, Calls, InFlightProposal, RealizationDivergence, shell_state_unknown, acknowledge,
  diverged_from, patch, AnimationSchedule, idle, schedule_deadline,
}
use dotfiles_nix.Smear.Reducer.Effects.{
  Effect, Transition, ApplyReport, applied_fully, applied_degraded, apply_failed,
}
use dotfiles_nix.Smear.Reducer.Delays.{
  schedule_timer_with_delay, delay_budget_from_ms, default_animation_delay_ms,
  enter_recovering_with_backoff,
}
use dotfiles_nix.Smear.Reducer.Requests.{
  exact_boundary_refresh_required, start_boundary_refresh_observation,
}
use dotfiles_nix.Smear.Reducer.Cleaning.{advance_cleanup_for_proposal, redraw_effect_for_proposal}
use dotfiles_nix.Smear.Reducer.Planning.{stay_owned}
use dotfiles_nix.Smear.Reducer.Observing.{opt_effects, start_next_observation}
use dotfiles_nix.Smear.Reducer.Applying.{stale}

abbrev delay_until : Option ℕ → ℕ → ℕ
delay_until none observed_at = default_animation_delay_ms
delay_until (some at) observed_at = delay_budget_from_ms (max (saturating_sub at observed_at) 1)

abbrev pub is_idle : AnimationSchedule → Bool
is_idle idle = true
is_idle _ = false

module _ {S : Type 0} where
  -- A queued demand that is not older than `demand`.
  abbrev has_newer : Option (QueuedDemand S) → ExternalDemand → Bool
  has_newer none demand = false
  has_newer (some d) demand = leb demand.seq d.demand.seq

  unfoldable pub queue_retry : DemandQueue S → ExternalDemand → DemandQueue S × Unit {0}
  queue_retry q demand =
      if has_newer (queued q demand.kind) demand
      then (q, tt)
      else ((enqueue q (record { demand = demand; ingress_observation_surface = none })).0, tt)

module _ {w : Payloads} where
  abbrev retry_demand : CoreState (parts w) → ProtocolPhaseKind → Option ExternalDemand
  retry_demand s ProtocolPhaseKind.collecting = active_demand s
  retry_demand s ProtocolPhaseKind.observing = active_demand s
  retry_demand s _ = none

  abbrev requeue : CoreState (parts w) → Option ExternalDemand → CoreState (parts w)
  requeue s none = s
  requeue s (some demand) = (map_demand_queue s (λ q. queue_retry q demand)).0

  -- The state from which a generic failure recovers, by the kind of its phase.
  unfoldable pub recovery_source : CoreState (parts w) → CoreState (parts w)
  unfolding Phase.kind into_primed map_demand_queue
  recovery_source s =
      let t = requeue s (retry_demand s (Phase.kind s.protocol.phase)) in
      elim (Phase.kind s.protocol.phase) [ ProtocolPhaseKind.observing ↦ into_primed t | _ ↦ t ]

  unfoldable pub acknowledge_target : CoreState (parts w) → InFlightProposal w → CoreState (parts w)
  unfolding with_realization
  acknowledge_target s p = with_realization s (acknowledge (w.patch_target (patch p.execution)))

  -- The timer at the end of `reduce_apply_completed`.
  unfoldable pub schedule_animation :
      CoreState (parts w) → AnimationSchedule → List (Effect w) → ℕ → Transition w
  unfolding schedule_timer_with_delay
  schedule_animation s schedule effects observed_at =
      if is_idle schedule
      then record { next = s; effects = effects }
      else let (t, effect) =
          schedule_timer_with_delay s TimerId.animation
            (delay_until (schedule_deadline schedule) observed_at) observed_at in
        record { next = t; effects = effects ++ effect ∷ [] }

module _ {w : Payloads} (c : Calls w) where
  -- What follows the next observation: its request, or a boundary refresh if one is required.
  abbrev refresh_after :
      InFlightProposal w
      → ℕ
      → List (Effect w)
      → CoreState (parts w) × Option (Effect w)
      → Option (CoreState (parts w) × List (Effect w))
  refresh_after p observed_at effects (s, some effect) = some (s, effects ++ effect ∷ [])
  refresh_after p observed_at effects (s, none) =
      if is_idle p.animation_schedule && exact_boundary_refresh_required c s
      then Option.map (λ r. (r.0, effects ++ r.1 ∷ []))
          (start_boundary_refresh_observation c s observed_at)
      else some (s, effects)

  -- `reduce_apply_completed` once cleanup is advanced, from the next observation on.
  unfoldable pub continue_from :
      CoreState (parts w) → InFlightProposal w → ℕ → List (Effect w) → Option (Transition w)
  unfolding start_next_observation start_boundary_refresh_observation schedule_animation
  continue_from s p observed_at effects = elim (start_next_observation c s) [
    | none ↦ none
    | some r ↦
        Option.map (λ q. schedule_animation q.0 p.animation_schedule q.1 observed_at)
          (refresh_after p observed_at effects r)
  ]

  -- `reduce_apply_completed` once the proposal is taken.
  unfoldable pub complete :
      CoreState (parts w) → InFlightProposal w → ℕ → Bool → Option (Transition w)
  complete s p observed_at visual_change =
      let r = advance_cleanup_for_proposal c (acknowledge_target s p) p observed_at in
      continue_from r.0 p observed_at
        (r.1 ++ opt_effects (redraw_effect_for_proposal p visual_change))

  unfoldable pub reduce_apply_completed : CoreState (parts w) → ℕ → ℕ → Bool → Option (Transition w)
  unfolding take_pending_proposal complete
  reduce_apply_completed s proposal_id observed_at visual_change =
      let (t, taken) = take_pending_proposal s proposal_id in
      elim taken [ none ↦ some (stale t) | some p ↦ complete t p observed_at visual_change ]

  -- `reduce_apply_non_success` once the proposal is taken.
  unfoldable pub diverge :
      CoreState (parts w) → InFlightProposal w → RealizationDivergence w → ℕ → Bool → Transition w
  unfolding with_realization advance_cleanup_for_proposal enter_recovering_with_backoff
  diverge s p divergence observed_at visual_change =
      let diverged =
        with_realization s (diverged_from (w.patch_acknowledged (patch p.execution)) divergence) in
      let (t, cleanup_effects) = advance_cleanup_for_proposal c diverged p observed_at in
      let effects = cleanup_effects ++ opt_effects (redraw_effect_for_proposal p visual_change) in
      let (u, effect) = enter_recovering_with_backoff t observed_at in
      record { next = u; effects = effects ++ effect ∷ [] }

  unfoldable pub reduce_apply_non_success :
      CoreState (parts w) → ℕ → RealizationDivergence w → ℕ → Bool → Option (Transition w)
  unfolding take_pending_proposal diverge
  reduce_apply_non_success s proposal_id divergence observed_at visual_change =
      let (t, taken) = take_pending_proposal s proposal_id in
      elim taken [
        | none ↦ some (stale t)
        | some p ↦ some (diverge t p divergence observed_at visual_change)
      ]

  unfoldable pub reduce_apply_reported : CoreState (parts w) → ApplyReport w → Option (Transition w)
  unfolding reduce_apply_completed reduce_apply_non_success
  reduce_apply_reported s (applied_fully id observed_at visual_change) =
      reduce_apply_completed s id observed_at visual_change
  reduce_apply_reported s (applied_degraded id divergence observed_at visual_change) =
      reduce_apply_non_success s id divergence observed_at visual_change
  reduce_apply_reported s (apply_failed id divergence observed_at) =
      reduce_apply_non_success s id divergence observed_at false

  -- A failure that no proposal is named for.
  unfoldable pub fail_generic : CoreState (parts w) → ℕ → Option (Transition w)
  unfolding enter_recovering_with_backoff recovery_source
  fail_generic s observed_at =
      let (t, effect) = enter_recovering_with_backoff (recovery_source s) observed_at in
      some (record { next = t; effects = effect ∷ [] })

  unfoldable pub reduce_effect_failed : CoreState (parts w) → Option ℕ → ℕ → Option (Transition w)
  unfolding needs_initialize reduce_apply_non_success fail_generic
  reduce_effect_failed s proposal observed_at =
      if needs_initialize s then some (stay_owned s) else elim proposal [
        | some id ↦ reduce_apply_non_success s id shell_state_unknown observed_at false
        | none ↦ fail_generic s observed_at
      ]
