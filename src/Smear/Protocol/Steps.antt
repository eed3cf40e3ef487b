-- ===== src/Smear/Protocol/Steps.antt =====
-- One type for the transitions of smear-cursor/src/core/state/protocol.rs, and their runs. Methods
-- that only hand the runtime out, `with_runtime` and `take_runtime`, are not among them.
use dotfiles_nix.Base.{ℕ, List, [], ◌∷◌, Option, none, some}
use dotfiles_nix.Smear.Probe.{ProbeRefreshState}
use dotfiles_nix.Smear.Protocol.Phase.{Parts, PendingObservation, PreparedObservationPlan}
use dotfiles_nix.Smear.Protocol.Core.{CoreState, PlannedRender}
use dotfiles_nix.Smear.Timers.{TimerState}
use dotfiles_nix.Smear.Policy.{RecoveryPolicyState, IngressPolicyState}
use dotfiles_nix.Smear.Cleanup.{RenderCleanupState}
use dotfiles_nix.Smear.Protocol.Setters.{
  with_timers, with_recovery_policy, with_ingress_policy, with_render_cleanup,
  with_latest_exact_cursor_cell, with_realization, take_retained, restore_retained,
}
use dotfiles_nix.Smear.Protocol.Moves.{
  enter_observing_request, activate_observation, replace_active_observation_with_pending,
  complete_active_observation, restore_retained_observation_to_ready, enter_ready,
  set_probe_refresh_state, set_prepared_observation_plan, enter_planning, into_primed,
  enter_recovering, allocate_ingress_seq, allocate_proposal_id, take_pending_proposal,
  accept_planned_render_mut,
}

pub data Move (h : Parts) : Type 0 where
  requests : PendingObservation → Move h
  activates : h.Observation → Move h
  replaces : PendingObservation → Move h
  completes restores : Move h
  readies : h.Observation → Move h
  refreshes : ProbeRefreshState → Move h
  prepares : Option (PreparedObservationPlan h) → Move h
  plans : ℕ → Move h
  primes recovers : Move h
  takes : ℕ → Move h
  accepts : PlannedRender h → Move h
  allocates_seq allocates_proposal : Move h
  sets_timers : TimerState → Move h
  sets_recovery_policy : RecoveryPolicyState → Move h
  sets_ingress_policy : IngressPolicyState → Move h
  sets_render_cleanup : RenderCleanupState → Move h
  sets_cursor_cell : Option h.Cell → Move h
  sets_realization : h.Realization → Move h
  takes_retained : Move h
  restores_retained : Option h.Observation → Move h

module _ {h : Parts} where
  -- `none` where the method consumes the state and fails.
  unfoldable pub step : CoreState h → Move h → Option (CoreState h)
  unfolding enter_observing_request activate_observation replace_active_observation_with_pending
      complete_active_observation restore_retained_observation_to_ready enter_ready
      set_probe_refresh_state set_prepared_observation_plan enter_planning into_primed
      enter_recovering allocate_ingress_seq allocate_proposal_id take_pending_proposal
      accept_planned_render_mut with_timers with_recovery_policy with_ingress_policy
      with_render_cleanup with_latest_exact_cursor_cell with_realization take_retained
      restore_retained
  step s (requests p) = enter_observing_request s p
  step s (activates o) = some (activate_observation s o).0
  step s (replaces p) = some (replace_active_observation_with_pending s p).0
  step s completes = some (complete_active_observation s).0
  step s restores = some (restore_retained_observation_to_ready s).0
  step s (readies o) = some (enter_ready s o).0
  step s (refreshes f) = some (set_probe_refresh_state s f).0
  step s (prepares plan) = some (set_prepared_observation_plan s plan).0
  step s (plans id) = enter_planning s id
  step s primes = some (into_primed s)
  step s recovers = some (enter_recovering s)
  step s (takes id) = some (take_pending_proposal s id).0
  step s (accepts r) = some (accept_planned_render_mut s r).0
  step s allocates_seq = some (allocate_ingress_seq s).0
  step s allocates_proposal = some (allocate_proposal_id s).0
  step s (sets_timers timers) = some (with_timers s timers)
  step s (sets_recovery_policy policy) = some (with_recovery_policy s policy)
  step s (sets_ingress_policy policy) = some (with_ingress_policy s policy)
  step s (sets_render_cleanup cleanup) = some (with_render_cleanup s cleanup)
  step s (sets_cursor_cell cell) = some (with_latest_exact_cursor_cell s cell)
  step s (sets_realization realization) = some (with_realization s realization)
  step s takes_retained = some (take_retained s).0
  step s (restores_retained o) = some (restore_retained s o).0

  unfoldable pub run : CoreState h → List (Move h) → Option (CoreState h)
  run s [] = some s
  run s (m ∷ ms) = elim (step s m) [ none ↦ none | some t ↦ run t ms ]
