-- ===== src/Smear/Protocol/Setters.antt =====
-- The methods of smear-cursor/src/core/state/protocol.rs, lines 765 to 863, that replace one field of
-- the state, and those that take the retained observation out and put one back.
use dotfiles_nix.Base.{Bool, Option}
use dotfiles_nix.Smear.Timers.{TimerState}
use dotfiles_nix.Smear.Policy.{RecoveryPolicyState, IngressPolicyState}
use dotfiles_nix.Smear.Cleanup.{RenderCleanupState}
use dotfiles_nix.Smear.Protocol.Phase
use dotfiles_nix.Smear.Protocol.Phase.{Parts, ProtocolSharedState, ProtocolPhase}
use dotfiles_nix.Smear.Protocol.Core.{CoreState, CoreStatePayload}

module _ {h : Parts} where
  abbrev with_shared : CoreState h → ProtocolSharedState h → CoreState h
  with_shared s shared = record s {
    protocol = record { shared = shared; phase = s.protocol.phase };
  }

  abbrev with_payload : CoreState h → CoreStatePayload h → CoreState h
  with_payload s payload = record s { payload = payload }

  unfoldable pub with_timers : CoreState h → TimerState → CoreState h
  with_timers s timers =
      let shared = s.protocol.shared in with_shared s (record shared { timers = timers })

  unfoldable pub with_recovery_policy : CoreState h → RecoveryPolicyState → CoreState h
  with_recovery_policy s policy =
      let shared = s.protocol.shared in with_shared s (record shared { recovery_policy = policy })

  unfoldable pub with_ingress_policy : CoreState h → IngressPolicyState → CoreState h
  with_ingress_policy s policy =
      let shared = s.protocol.shared in with_shared s (record shared { ingress_policy = policy })

  unfoldable pub with_render_cleanup : CoreState h → RenderCleanupState → CoreState h
  with_render_cleanup s cleanup =
      let shared = s.protocol.shared in with_shared s (record shared { render_cleanup = cleanup })

  unfoldable pub with_latest_exact_cursor_cell : CoreState h → Option h.Cell → CoreState h
  with_latest_exact_cursor_cell s cell =
      let payload = s.payload in with_payload s (record payload { latest_exact_cursor_cell = cell })

  unfoldable pub with_realization : CoreState h → h.Realization → CoreState h
  with_realization s realization =
      let payload = s.payload in with_payload s (record payload { realization = realization })

  unfoldable pub take_retained : CoreState h → CoreState h × Option h.Observation
  unfolding Phase.take_retained_observation
  take_retained s =
      let (phase, o) = Phase.take_retained_observation s.protocol.phase in
      (record s { protocol = record { shared = s.protocol.shared; phase = phase } }, o)

  unfoldable pub restore_retained : CoreState h → Option h.Observation → CoreState h × Bool
  unfolding Phase.restore_retained_observation
  restore_retained s o =
      let (phase, ok) = Phase.restore_retained_observation s.protocol.phase o in
      (record s { protocol = record { shared = s.protocol.shared; phase = phase } }, ok)
