-- ===== src/Smear/Reducer/Applying.antt =====
-- Render plans, their application and cleanup, and failures:
-- smear-cursor/src/core/reducer/machine/apply.rs. `none` is an `unreachable!` of the source.
use dotfiles_nix.Base.{
  ℕ, Bool, true, false, ◌&&◌, ◌||◌, not, List, [], ◌∷◌, ◌++◌, Option, none, some, is_some, leb,
  ◌==◌, if◌then◌else◌,
}
use mathlib.Core.Option
use dotfiles_nix.Smear.Types.{TimerId}
use dotfiles_nix.Smear.Timers.{active_token}
use dotfiles_nix.Smear.Cleanup.{
  RenderCleanupState, hot, cooling, cold, RenderCleanupTimerRearm, allowed, quiesced,
  timer_rearm_is_quiesced, next_compaction_due_at, next_deadline,
  retry_hard_purge_after_observed_retained_resources,
}
use dotfiles_nix.Smear.Payloads.{Payloads}
use dotfiles_nix.Smear.Protocol.Phase
use dotfiles_nix.Smear.Protocol.Phase.{ProtocolPhaseKind, collecting, observing}
use dotfiles_nix.Smear.Protocol.Core.{CoreState, PlannedRender, needs_initialize, with_runtime}
use dotfiles_nix.Smear.Protocol.Setters.{with_realization, with_render_cleanup}
use dotfiles_nix.Smear.Protocol.Moves.{accept_planned_render_mut}
use dotfiles_nix.Smear.Reducer.Config.{render_cleanup_retry_policy}
use dotfiles_nix.Smear.Reducer.Snapshot.{parts, Calls, cleanup_applied}
use dotfiles_nix.Smear.Reducer.Effects.{
  Effect, Transition, record_event_loop_metric, stale_token, apply_proposal,
  cleanup_converged_to_cold, RenderCleanupAppliedAction, soft_cleared, converges_to_cold,
}
use dotfiles_nix.Smear.Reducer.Delays.{enter_recovering_with_backoff}
use dotfiles_nix.Smear.Reducer.Cleaning.{
  arm_render_cleanup_timer, cleanup_effect_for_timer_fire, cleanup_state_after_applied, compact,
}
use dotfiles_nix.Smear.Reducer.Planning.{stay_owned}

-- The comparison of an `Option<ProposalId>` with an identity.
abbrev is_pending_id : Option ℕ → ℕ → Bool
is_pending_id none id = false
is_pending_id (some pending) id = pending == id

-- A time that is set and not after `now`.
abbrev is_due : Option ℕ → ℕ → Bool
is_due none now = false
is_due (some at) now = leb at now

abbrev is_cold : RenderCleanupState → Bool
is_cold cold = true
is_cold _ = false

abbrev is_soft_cleared : RenderCleanupAppliedAction → Bool
is_soft_cleared (soft_cleared retained_resources) = true
is_soft_cleared _ = false

abbrev rearm_eq : RenderCleanupTimerRearm → RenderCleanupTimerRearm → Bool
rearm_eq allowed allowed = true
rearm_eq quiesced quiesced = true
rearm_eq _ _ = false

abbrev bool_eq : Bool → Bool → Bool
bool_eq true b = b
bool_eq false b = not b

-- The derived `==` of schedules.
unfoldable pub cleanup_eq : RenderCleanupState → RenderCleanupState → Bool
cleanup_eq (hot s) (hot t) =
    s.next_compaction_due_at == t.next_compaction_due_at
    && s.hard_purge_due_at == t.hard_purge_due_at
    && rearm_eq s.timer_rearm t.timer_rearm
cleanup_eq (cooling s) (cooling t) =
    s.entered_cooling_at == t.entered_cooling_at
    && s.next_compaction_due_at == t.next_compaction_due_at
    && s.hard_purge_due_at == t.hard_purge_due_at
    && bool_eq s.compaction_attempted t.compaction_attempted
    && s.retained_resource_retry_attempt == t.retained_resource_retry_attempt
    && rearm_eq s.timer_rearm t.timer_rearm
cleanup_eq cold cold = true
cleanup_eq _ _ = false

module _ {w : Payloads} where
  abbrev pub stale : CoreState (parts w) → Transition w
  stale s = record { next = s; effects = record_event_loop_metric stale_token ∷ [] }

  unfoldable pub reduce_render_plan_computed :
      CoreState (parts w) → PlannedRender (parts w) → ℕ → Option (Transition w)
  unfolding Phase.pending_plan_proposal_id Phase.observation accept_planned_render_mut
  reduce_render_plan_computed s r observed_at =
      if not
        (is_pending_id (Phase.pending_plan_proposal_id s.protocol.phase) r.proposal.proposal_id)
      then some (stale s)
      else let buffer =
          Option.map (λ o. w.window_buffer o.basis.surface) (Phase.observation s.protocol.phase) in
        let (t, accepted) = accept_planned_render_mut s r in
        if not accepted
        then some (stale t)
        else some (record {
          next = t;
          effects =
              apply_proposal (record {
                proposal = r.proposal;
                buffer_handle = buffer;
                requested_at = observed_at;
              })
              ∷ [];
        })

  unfoldable pub reduce_render_plan_failed : CoreState (parts w) → ℕ → ℕ → Option (Transition w)
  unfolding Phase.pending_plan_proposal_id enter_recovering_with_backoff
  reduce_render_plan_failed s proposal_id observed_at =
      if not (is_pending_id (Phase.pending_plan_proposal_id s.protocol.phase) proposal_id)
      then some (stale s)
      else let (t, effect) = enter_recovering_with_backoff s observed_at in
        some (record { next = t; effects = effect ∷ [] })

  -- The end of both cleanup events: work that is due is done at once, else the timer is armed, and
  -- the effects of `after` follow.
  abbrev pub due_or_arm :
      CoreState (parts w) → Option (Effect w) → List (Effect w) → ℕ → Transition w
  due_or_arm s (some effect) after observed_at = record { next = s; effects = effect ∷ [] }
  due_or_arm s none after observed_at =
      let (t, effects) = arm_render_cleanup_timer s observed_at in
      record { next = t; effects = effects ++ after }

  -- The metric of a cleanup that ends: from cooling to cold.
  abbrev converged_metric : RenderCleanupState → RenderCleanupState → ℕ → List (Effect w)
  converged_metric (cooling previous) cold observed_at =
      record_event_loop_metric (cleanup_converged_to_cold previous.entered_cooling_at observed_at)
      ∷ []
  converged_metric _ _ observed_at = []

module _ {w : Payloads} (c : Calls w) where
  -- The cleanup effect where the next deadline has come.
  abbrev pub due_effect : CoreState (parts w) → ℕ → Option (Effect w)
  due_effect s observed_at =
      if is_due (next_deadline s.protocol.shared.render_cleanup) observed_at
      then cleanup_effect_for_timer_fire s.protocol.shared.render_cleanup
          (c.config s.payload.motion) observed_at
      else none

  -- What follows the cleanup that was applied, from the state with the next schedule.
  unfoldable pub follow_cleanup :
      CoreState (parts w) → RenderCleanupState → RenderCleanupAppliedAction → ℕ → Transition w
  unfolding timer_rearm_is_quiesced arm_render_cleanup_timer
  follow_cleanup s previous action observed_at =
      let cleanup = s.protocol.shared.render_cleanup in
      if timer_rearm_is_quiesced cleanup
      then stay_owned s
      else if is_soft_cleared action && is_due (next_compaction_due_at cleanup) observed_at
      then record { next = s; effects = compact (c.config s.payload.motion) ∷ [] }
      else due_or_arm s (due_effect s observed_at) (converged_metric previous cleanup observed_at)
          observed_at

  -- The cold storage is released where cleanup has become cold.
  unfoldable pub release_cold :
      CoreState (parts w) → RenderCleanupState → RenderCleanupAppliedAction → CoreState (parts w)
  unfolding with_runtime
  release_cold s previous action =
      if not (is_cold previous) && converges_to_cold action
      then with_runtime s (c.release_cleanup_cold_storage s.payload.motion)
      else s

  unfoldable pub reduce_render_cleanup_applied :
      CoreState (parts w) → RenderCleanupAppliedAction → ℕ → Option (Transition w)
  unfolding needs_initialize with_realization with_render_cleanup release_cold follow_cleanup
  reduce_render_cleanup_applied s action observed_at =
      if needs_initialize s
      then some (stay_owned s)
      else let previous = s.protocol.shared.render_cleanup in
        let cleanup =
          cleanup_state_after_applied previous action observed_at (c.config s.payload.motion) in
        let t =
          with_render_cleanup (with_realization s (cleanup_applied s.payload.realization))
            cleanup in
        some (follow_cleanup (release_cold t previous action) previous action observed_at)

  unfoldable pub reduce_render_cleanup_retained_resources_observed :
      CoreState (parts w) → ℕ → ℕ → Option (Transition w)
  unfolding needs_initialize with_render_cleanup with_realization timer_rearm_is_quiesced
      active_token arm_render_cleanup_timer
  reduce_render_cleanup_retained_resources_observed s retained_resources observed_at =
      if needs_initialize s || retained_resources == 0
      then some (stay_owned s)
      else let previous = s.protocol.shared.render_cleanup in
        let cleanup =
          retry_hard_purge_after_observed_retained_resources previous observed_at
            (render_cleanup_retry_policy (c.config s.payload.motion)) in
        let t =
          with_render_cleanup (with_realization s (cleanup_applied s.payload.realization))
            cleanup in
        if timer_rearm_is_quiesced cleanup
        then some (stay_owned t)
        else if cleanup_eq cleanup previous
            && is_some (active_token t.protocol.shared.timers TimerId.cleanup)
        then some (stay_owned t)
        else some (due_or_arm t (due_effect t observed_at) [] observed_at)
