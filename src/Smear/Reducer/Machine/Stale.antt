-- ===== src/Smear/Reducer/Machine/Stale.antt =====
-- Events that name something that is over: smear-cursor/src/core/reducer/machine.
use dotfiles_nix.Base.{
  ℕ, ◌≡◌, Bool, true, false, not, ◌==◌, ◌&&◌, List, [], ◌∷◌, none, some, arith, inl, inr,
  Option-cases,
}
use dotfiles_nix.Smear.Payloads.{Payloads}
use dotfiles_nix.Smear.Types.{TimerId, animation, ingress, recovery, cleanup, TimerToken}
use dotfiles_nix.Smear.Timers.{TimerState, TimerSlotState, is_active}
use dotfiles_nix.Smear.Protocol.Phase.{
  ProtocolPhase, collecting, observing, ready, planning, applying, observation,
}
use dotfiles_nix.Smear.Protocol.Core.{CoreState, lifecycle}
use dotfiles_nix.Smear.Reducer.Snapshot.{
  parts, Calls, pending_observation_id, ObservationSnapshot, observation_id,
}
use dotfiles_nix.Smear.Reducer.Effects.{
  Effect, Transition, Event, record_event_loop_metric, stale_token, observation_base_collected,
  render_plan_computed, render_plan_failed, apply_reported, timer_fired_with_token,
  timer_lost_with_token, effect_failed, applied_fully, applied_degraded, apply_failed,
  probe_reported, ProbeReportedEvent, cursor_color_ready, cursor_color_failed, background_ready,
  background_chunk_ready, background_failed,
}
use dotfiles_nix.Smear.Reducer.ProbeReports.{apply_probe_report}
use dotfiles_nix.Smear.Reducer.Probes.{reduce_probe_reported}
use dotfiles_nix.Smear.Reducer.Machine.{reduce_owned}

abbrev timer_slot : TimerState → TimerId → TimerSlotState
timer_slot s animation = s.slots.animation
timer_slot s ingress = s.slots.ingress
timer_slot s recovery = s.slots.recovery
timer_slot s cleanup = s.slots.cleanup

-- The timer is armed, and the token is the one it was armed with last.
abbrev is_awaited : TimerState → TimerToken → Bool
is_awaited s k = (timer_slot s k.id).armed && (timer_slot s k.id).generation == k.generation

module _ {w : Payloads} where
  abbrev is_planned : ProtocolPhase (parts w) → ℕ → Bool
  is_planned (planning o id) proposal = id == proposal
  is_planned _ proposal = false

  abbrev is_applied : ProtocolPhase (parts w) → ℕ → Bool
  is_applied (applying o p) proposal = p.proposal_id == proposal
  is_applied _ proposal = false

  abbrev is_collected : ProtocolPhase (parts w) → ℕ → Bool
  is_collected (collecting r p f) observation = p.demand.seq == observation
  is_collected _ observation = false

  -- The phase works on the observation.
  abbrev is_observed : ProtocolPhase (parts w) → ℕ → Bool
  is_observed (observing o f plan) observation = o.demand.seq == observation
  is_observed (ready o) observation = o.demand.seq == observation
  is_observed (planning o id) observation = o.demand.seq == observation
  is_observed (applying o p) observation = o.demand.seq == observation
  is_observed _ observation = false

  -- The observation that a report of a probe names.
  abbrev reported_observation : ProbeReportedEvent w → ℕ
  reported_observation (cursor_color_ready id reuse sample) = id
  reported_observation (cursor_color_failed id failure) = id
  reported_observation (background_ready id reuse batch) = id
  reported_observation (background_chunk_ready id chunk mask) = id
  reported_observation (background_failed id failure) = id

  -- The event names a timer, a proposal or an observation that the state does not wait for.
  abbrev pub is_stale : CoreState (parts w) → Event w → Bool
  is_stale s (timer_fired_with_token k n) = not (is_awaited s.protocol.shared.timers k)
  is_stale s (timer_lost_with_token k n) = not (is_awaited s.protocol.shared.timers k)
  is_stale s (render_plan_computed r n) = not (is_planned s.protocol.phase r.proposal.proposal_id)
  is_stale s (render_plan_failed id n) = not (is_planned s.protocol.phase id)
  is_stale s (apply_reported (applied_fully id n b)) = not (is_applied s.protocol.phase id)
  is_stale s (apply_reported (applied_degraded id d n b)) = not (is_applied s.protocol.phase id)
  is_stale s (apply_reported (apply_failed id d n)) = not (is_applied s.protocol.phase id)
  is_stale s (effect_failed (some id) n) = not (is_applied s.protocol.phase id)
  is_stale s (observation_base_collected e) = not (is_collected s.protocol.phase e.observation_id)
  is_stale s (probe_reported e) = not (is_observed s.protocol.phase (reported_observation e))
  is_stale s _ = false

  -- Nothing, or the metric of a stale token.
  abbrev pub is_only_metric : List (Effect w) → Bool
  is_only_metric [] = true
  is_only_metric (record_event_loop_metric stale_token ∷ []) = true
  is_only_metric _ = false

  -- A report that names another observation is not applied.
  apply_probe_report-other :
      (o : ObservationSnapshot w) (e : ProbeReportedEvent w)
      → (o.demand.seq == reported_observation e) ≡ false
      → apply_probe_report o e ≡ none
  unfolding apply_probe_report observation_id
  apply_probe_report-other o (cursor_color_ready id reuse sample) h = ground arith
  apply_probe_report-other o (cursor_color_failed id failure) h = ground arith
  apply_probe_report-other o (background_ready id reuse batch) h = ground arith
  apply_probe_report-other o (background_chunk_ready id chunk mask) h = ground arith
  apply_probe_report-other o (background_failed id failure) h = ground arith

module _ {w : Payloads} (c : Calls w) where
  reduce_probe_reported-stale :
      (s : CoreState (parts w)) (e : ProbeReportedEvent w) (t : Transition w)
      → reduce_probe_reported c s e ≡ some t
      → not (is_observed s.protocol.phase (reported_observation e)) ≡ true
      → (t.next ≡ s) × (is_only_metric t.effects ≡ true)
  unfolding reduce_probe_reported
  reduce_probe_reported-stale s e t h i = elim (Option-cases (observation s.protocol.phase)) [
    | inl unobserved ↦ ground arith
    | inr (o, observed) ↦ ground (arith, apply_probe_report-other o e)
  ]

  -- An event that names a timer, a proposal or an observation that the state does not wait for
  -- changes nothing, and has no effect but the metric of a stale token.
  pub reduce_owned-stale :
      (s : CoreState (parts w)) (e : Event w) (t : Transition w)
      → reduce_owned c s e ≡ some t
      → is_stale s e ≡ true
      → (t.next ≡ s) × (is_only_metric t.effects ≡ true)
  unfolding reduce_owned lifecycle is_active pending_observation_id
  reduce_owned-stale s (timer_fired_with_token k n) t h i = ground arith
  reduce_owned-stale s (timer_lost_with_token k n) t h i = ground arith
  reduce_owned-stale s (render_plan_computed r n) t h i = ground arith
  reduce_owned-stale s (render_plan_failed id n) t h i = ground arith
  reduce_owned-stale s (apply_reported (applied_fully id n b)) t h i = ground arith
  reduce_owned-stale s (apply_reported (applied_degraded id d n b)) t h i = ground arith
  reduce_owned-stale s (apply_reported (apply_failed id d n)) t h i = ground arith
  reduce_owned-stale s (effect_failed (some id) n) t h i = ground arith
  reduce_owned-stale s (observation_base_collected e) t h i = ground arith
  reduce_owned-stale s (probe_reported e) t h i = reduce_probe_reported-stale s e t h i
  reduce_owned-stale s _ t h i = ground arith
