-- ===== src/Smear/Reducer/Observing.antt =====
-- Observations of the reducer: smear-cursor/src/core/reducer/machine/observation.rs, lines 36 to 345.
-- `none` is an `unreachable!` of the source.
use dotfiles_nix.Base.{
  ℕ, Bool, true, false, ◌&&◌, ◌||◌, not, List, [], ◌∷◌, ◌++◌, Option, none, some, is_some, ◌==◌,
  if◌then◌else◌,
}
use dotfiles_nix.Base.Words.{saturating_add}
use mathlib.Core.Option
use dotfiles_nix.Smear.Types.{Lifecycle, TimerId}
use dotfiles_nix.Smear.Types.Lifecycle.{primed, ready}
use dotfiles_nix.Smear.Policy.{note_cursor_autocmd, note_pending_delay_until, clear_pending_delay}
use dotfiles_nix.Smear.Demand.{ExternalDemand, QueuedDemand, is_cursor, enqueue, dequeue_ready}
use dotfiles_nix.Smear.Payloads.{Payloads}
use dotfiles_nix.Smear.Protocol.Core.{CoreState, lifecycle, needs_initialize, active_demand}
use dotfiles_nix.Smear.Protocol.Setters.{with_ingress_policy}
use dotfiles_nix.Smear.Protocol.Moves.{map_demand_queue, into_primed, allocate_ingress_seq}
use dotfiles_nix.Smear.Reducer.Snapshot.{parts, Calls}
use dotfiles_nix.Smear.Reducer.Effects.{
  Effect, Transition, record_event_loop_metric, ingress_coalesced, delayed_ingress_pending_updated,
  ExternalDemandQueuedEvent,
}
use dotfiles_nix.Smear.Reducer.Delays.{
  schedule_timer_with_delay, delay_budget_from_ms, ingress_marks_cursor_autocmd_freshness,
}
use dotfiles_nix.Smear.Reducer.Requests.{
  probe_requests_for, start_observation, ingress_cursor_presentation_effect,
}
use dotfiles_nix.Smear.Reducer.Cleaning.{enter_hot_cleanup_state}
use dotfiles_nix.Smear.Reducer.Planning.{stay_owned, plan_ready_state}

-- `matches!(lifecycle, Lifecycle::Primed | Lifecycle::Ready)`.
abbrev pub primed_or_ready : Lifecycle → Bool
primed_or_ready primed = true
primed_or_ready ready = true
primed_or_ready _ = false

module _ {w : Payloads} where
  -- `Option<Effect>` as the effects of a transition.
  abbrev pub opt_effects : Option (Effect w) → List (Effect w)
  opt_effects none = []
  opt_effects (some effect) = effect ∷ []

  -- `transition.effects.insert(0, …)` and `transition.effects.extend(…)`.
  abbrev pub push_front : Option (Effect w) → Transition w → Transition w
  push_front none t = t
  push_front (some effect) t = record t { effects = effect ∷ t.effects }

  abbrev pub push_back : List (Effect w) → Transition w → Transition w
  push_back effects t = record t { effects = t.effects ++ effects }

  unfoldable pub clear_delay : CoreState (parts w) → CoreState (parts w)
  unfolding with_ingress_policy
  clear_delay s = with_ingress_policy s (clear_pending_delay s.protocol.shared.ingress_policy)

  -- What `observe_or_plan` and the animation timer do with the result of `start_next_observation`.
  abbrev pub or_plan :
      Option (CoreState (parts w) × Option (Effect w))
      → (CoreState (parts w) → Option (Transition w))
      → Option (Transition w)
  or_plan none plan = none
  or_plan (some (t, some effect)) plan = some (record { next = t; effects = effect ∷ [] })
  or_plan (some (t, none)) plan = plan t

  -- The cursor's autocommand that `reduce_external_demand_queued` notes.
  unfoldable pub note_freshness :
      CoreState (parts w) → ExternalDemandQueuedEvent w → CoreState (parts w)
  unfolding with_ingress_policy
  note_freshness s e =
      if ingress_marks_cursor_autocmd_freshness e.kind
      then with_ingress_policy s
          (note_cursor_autocmd s.protocol.shared.ingress_policy e.observed_at)
      else s

module _ {w : Payloads} (c : Calls w) where
  unfoldable pub request_of :
      CoreState (parts w)
      → ExternalDemand
      → Option w.Surface
      → Option (CoreState (parts w) × Option (Effect w))
  unfolding clear_delay start_observation
  request_of s demand surface =
      let t = clear_delay s in
      Option.map (λ r. (r.0, some r.1))
        (start_observation c t
          (record {
            demand = demand;
            requested_probes = probe_requests_for c t demand.buffer_perf_class;
          })
          surface)

  -- `start_next_observation_from_queue`, under its other name too.
  unfoldable pub start_next_observation :
      CoreState (parts w) → Option (CoreState (parts w) × Option (Effect w))
  unfolding map_demand_queue request_of
  start_next_observation s =
      let (t, queued) = map_demand_queue s dequeue_ready in
      elim queued [
        | none ↦ some (t, none)
        | some d ↦ request_of t d.demand d.ingress_observation_surface
      ]

  unfoldable pub plan_or_stay : CoreState (parts w) → ℕ → Option (Transition w)
  unfolding lifecycle plan_ready_state
  plan_or_stay s observed_at = elim (lifecycle s) [
    | ready ↦ plan_ready_state c s none observed_at
    | _ ↦ some (stay_owned s)
  ]

  unfoldable pub transition_ready_or_observe : CoreState (parts w) → Option (Transition w)
  unfolding start_next_observation
  transition_ready_or_observe s =
      Option.map (λ r. record { next = r.0; effects = opt_effects r.1 }) (start_next_observation s)

  unfoldable pub observe_or_plan : CoreState (parts w) → ℕ → Option (Transition w)
  unfolding lifecycle start_next_observation plan_or_stay
  observe_or_plan s observed_at =
      if not (primed_or_ready (lifecycle s))
      then some (stay_owned s)
      else or_plan (start_next_observation s) (λ t. plan_or_stay t observed_at)

  unfoldable pub reduce_initialize : CoreState (parts w) → Option (Transition w)
  unfolding needs_initialize into_primed
  reduce_initialize s =
      if not (needs_initialize s) then some (stay_owned s) else some (stay_owned (into_primed s))

  unfoldable pub delayed_cursor_ingress_transition : CoreState (parts w) → ℕ → Option (Transition w)
  unfolding with_ingress_policy schedule_timer_with_delay
  delayed_cursor_ingress_transition s observed_at =
      let delay_ms = w.as_delay_ms (c.config s.payload.motion).delay_event_to_smear in
      if delay_ms == 0
      then none
      else let policy = s.protocol.shared.ingress_policy in
        let t =
          with_ingress_policy s
            (note_pending_delay_until policy (saturating_add observed_at delay_ms)) in
        if is_some policy.pending_delay_until
        then some (record {
          next = t;
          effects = record_event_loop_metric delayed_ingress_pending_updated ∷ [];
        })
        else let (u, effect) =
            schedule_timer_with_delay t TimerId.ingress (delay_budget_from_ms delay_ms)
              observed_at in
          some (record { next = u; effects = effect ∷ [] })

  -- The `match` of `queue_external_demand` on the lifecycle.
  unfoldable pub dispatch_queued : CoreState (parts w) → Bool → ℕ → Option (Transition w)
  unfolding lifecycle delayed_cursor_ingress_transition transition_ready_or_observe
  dispatch_queued s delays observed_at =
      if primed_or_ready (lifecycle s)
      then if delays
        then elim (delayed_cursor_ingress_transition s observed_at) [
          | some t ↦ some t
          | none ↦ transition_ready_or_observe s
        ]
        else transition_ready_or_observe s
      else some (stay_owned s)

  -- The active demand is a cursor demand, and so is the queued one.
  abbrev supersedes : Option ExternalDemand → QueuedDemand w.Surface → Bool
  supersedes none d = false
  supersedes (some active) d = is_cursor active.kind && is_cursor d.demand.kind

  unfoldable pub queue_external_demand :
      CoreState (parts w) → QueuedDemand w.Surface → ℕ → Option (Transition w)
  unfolding map_demand_queue
  queue_external_demand s d observed_at =
      let r = map_demand_queue s (λ q. enqueue q d) in
      let hot = enter_hot_cleanup_state c r.0 observed_at in
      let metric =
        if supersedes (active_demand s) d || r.1
        then some (record_event_loop_metric ingress_coalesced)
        else none in
      Option.map (λ t. push_front metric (push_back hot.1 t))
        (dispatch_queued hot.0 (is_cursor d.demand.kind) observed_at)

  unfoldable pub reduce_external_demand_queued :
      CoreState (parts w) → ExternalDemandQueuedEvent w → Option (Transition w)
  unfolding needs_initialize note_freshness allocate_ingress_seq
  reduce_external_demand_queued s e =
      if needs_initialize s
      then some (stay_owned s)
      else let t = note_freshness s e in
        let ingress = ingress_cursor_presentation_effect c t e.ingress_cursor_presentation in
        let (u, seq) = allocate_ingress_seq t in
        let demand : ExternalDemand = record {
          seq = seq;
          kind = e.kind;
          observed_at = e.observed_at;
          buffer_perf_class = e.buffer_perf_class;
        } in
        let queued : QueuedDemand w.Surface = record {
          demand = demand;
          ingress_observation_surface = e.ingress_observation_surface;
        } in
        Option.map (push_front ingress) (queue_external_demand u queued e.observed_at)
