-- ===== src/Smear/Protocol/Retention.antt =====
-- What the transitions of smear-cursor/src/core/state/protocol.rs keep: the observation, and the
-- scratch buffers of a staged plan.
use dotfiles_nix.Base.{◌≡◌, Bool, true, false, Option, none, some, arith, if◌then◌else◌}
use dotfiles_nix.Smear.Protocol.Phase.{
  Parts, ProtocolPhase, PreparedObservationPlan, preview, unchanged, collecting, observing,
  recovering, phase_observation,
}
use dotfiles_nix.Smear.Protocol.Core.{CoreState}
use dotfiles_nix.Smear.Protocol.Steps.{
  Move, requests, activates, readies, refreshes, prepares, plans, primes, takes, accepts,
  allocates_seq, allocates_proposal, sets_timers, sets_recovery_policy, sets_ingress_policy,
  sets_render_cleanup, sets_cursor_cell, sets_realization, takes_retained, restores_retained, step,
}

module _ {h : Parts} where
  -- What the observation of the state becomes: a new one if the move brings one to a phase that
  -- collects or retains, none if the move resets the protocol or takes what is retained, and the
  -- same otherwise.
  abbrev pub expected_observation : ProtocolPhase h → Move h → Option h.Observation
  expected_observation p primes = none
  expected_observation (collecting r q f) (activates o) = some o
  expected_observation (collecting r q f) (readies o) = some o
  expected_observation (collecting r q f) takes_retained = none
  expected_observation (recovering r) takes_retained = none
  expected_observation (collecting r q f) (restores_retained o) = o
  expected_observation (recovering r) (restores_retained o) = o
  expected_observation p _ = phase_observation p

  -- No transition drops an observation but a reset and the taking of a retained one, and none
  -- replaces one but the end of a collection and the restoring of a retained one.
  phase_observation-step :
      (s t : CoreState h) (m : Move h)
      → step s m ≡ some t
      → phase_observation t.protocol.phase ≡ expected_observation s.protocol.phase m
  unfolding step phase_observation
  phase_observation-step s t (requests p) e = ground arith
  phase_observation-step s t (activates o) e = ground arith
  phase_observation-step s t (readies o) e = ground arith
  phase_observation-step s t takes_retained e = ground arith
  phase_observation-step s t (restores_retained o) e = ground arith
  phase_observation-step s t _ e = ground arith

  -- The plan staged while observing.
  abbrev pub staged : ProtocolPhase h → Option (PreparedObservationPlan h)
  staged (observing o f plan) = plan
  staged _ = none

  -- The runtime after a plan's particles, if it holds any, are given back.
  abbrev pub give_back : Option (PreparedObservationPlan h) → h.Runtime → h.Runtime
  give_back none r = r
  give_back (some plan) r = elim plan.runtime [ preview m ↦ h.reclaim m r | unchanged ↦ r ]

  -- The moves that drop a staged plan.
  abbrev pub drops_plan : Move h → Bool
  drops_plan (activates o) = false
  drops_plan (refreshes f) = false
  drops_plan (plans id) = false
  drops_plan (takes id) = false
  drops_plan (accepts r) = false
  drops_plan allocates_seq = false
  drops_plan allocates_proposal = false
  drops_plan (sets_timers timers) = false
  drops_plan (sets_recovery_policy policy) = false
  drops_plan (sets_ingress_policy policy) = false
  drops_plan (sets_render_cleanup cleanup) = false
  drops_plan (sets_cursor_cell cell) = false
  drops_plan (sets_realization realization) = false
  drops_plan takes_retained = false
  drops_plan (restores_retained o) = false
  drops_plan _ = true

  abbrev pub staged_by : ProtocolPhase h → Move h → Option (PreparedObservationPlan h)
  staged_by (observing o f _) (prepares plan) = plan
  staged_by p m = none

  -- A staged plan is never lost: a move that drops it gives its particles back to the runtime, once,
  -- and any other move leaves plan and runtime as they are.
  pub staged-step :
      (s t : CoreState h) (m : Move h)
      → step s m ≡ some t
      → (t.payload.motion ≡ (
          if drops_plan m
          then give_back (staged s.protocol.phase) s.payload.motion
          else s.payload.motion))
        × (staged t.protocol.phase
            ≡ (if drops_plan m then staged_by s.protocol.phase m else staged s.protocol.phase))
  unfolding step
  staged-step s t (requests p) e = (ground arith, ground arith)
  staged-step s t (activates o) e = (ground arith, ground arith)
  staged-step s t _ e = (ground arith, ground arith)
