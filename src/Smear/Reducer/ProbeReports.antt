-- ===== src/Smear/Reducer/ProbeReports.antt =====
-- What a probe report does to the active observation:
-- smear-cursor/src/core/reducer/machine/observation.rs,
-- lines 258 to 275 and 323 to 429.
use dotfiles_nix.Base.{Bool, true, false, ◌||◌, not, Option, none, some, ◌==◌, if◌then◌else◌}
use dotfiles_nix.Smear.Payloads.{Payloads}
use dotfiles_nix.Smear.Probe.{ProbeKind}
use dotfiles_nix.Smear.Probe.ProbeKind.{cursor_color, background}
use dotfiles_nix.Smear.Probe.Slots
use dotfiles_nix.Smear.Probe.Slots.{
  ProbeReuse, refresh_required, is_pending, is_requested, set_cursor_color_state, from_plan,
  accept_batch, apply_chunk, set_failed, ProbeState, BackgroundProbeState,
}
use dotfiles_nix.Smear.Protocol.Phase.{
  ProtocolPhase, observing, ready, planning, applying, PreparedObservationPlan,
}
use dotfiles_nix.Smear.Protocol.Core.{CoreState}
use dotfiles_nix.Smear.Reducer.Snapshot.{parts, ObservationSnapshot, with_probes, observation_id}
use dotfiles_nix.Smear.Reducer.Effects.{
  ProbeReportedEvent, cursor_color_ready, cursor_color_failed, background_ready,
  background_chunk_ready, background_failed,
}
use dotfiles_nix.Smear.Reducer.Planning.{background_probe_plan}

pub data ProbeReportResolution : Type 0 where
  updated : ProbeReportResolution
  refresh_required_for : ProbeKind → ProbeReportResolution

abbrev is_refresh : ProbeReuse → Bool
is_refresh refresh_required = true
is_refresh _ = false

module _ {w : Payloads} where
  abbrev with_background : ObservationSnapshot w → BackgroundProbeState w → ObservationSnapshot w
  with_background o b =
      with_probes o (record { cursor_color = o.probes.cursor_color; background = b })

  -- A report that changed a probe, if it did.
  abbrev updated_background :
      ObservationSnapshot w
      → BackgroundProbeState w × Bool
      → Option (ObservationSnapshot w × ProbeReportResolution)
  updated_background o (b, true) = some (with_background o b, updated)
  updated_background o (b, false) = none

  abbrev updated_color :
      ObservationSnapshot w
      → Slots.ProbeSet w × Bool
      → Option (ObservationSnapshot w × ProbeReportResolution)
  updated_color o (p, true) = some (with_probes o p, updated)
  updated_color o (p, false) = none

  unfoldable pub apply_probe_report :
      ObservationSnapshot w
      → ProbeReportedEvent w
      → Option (ObservationSnapshot w × ProbeReportResolution)
  apply_probe_report o (cursor_color_ready id reuse sample) =
      if not (id == observation_id o) || not (is_pending o.probes.cursor_color)
      then none
      else if is_refresh reuse
      then some (o, refresh_required_for cursor_color)
      else updated_color o (set_cursor_color_state o.probes (ProbeState.ready reuse sample))
  apply_probe_report o (cursor_color_failed id failure) =
      if not (id == observation_id o) || not (is_pending o.probes.cursor_color)
      then none
      else updated_color o (set_cursor_color_state o.probes (ProbeState.failed failure))
  apply_probe_report o (background_ready id reuse batch) =
      if not (id == observation_id o)
      then none
      else if is_refresh reuse
      then some (o, refresh_required_for background)
      else updated_background o (accept_batch o.probes.background o.basis.viewport reuse batch)
  apply_probe_report o (background_chunk_ready id chunk mask) =
      if not (id == observation_id o)
      then none
      else updated_background o (apply_chunk o.probes.background o.basis.viewport chunk mask)
  apply_probe_report o (background_failed id failure) =
      if not (id == observation_id o)
      then none
      else updated_background o (set_failed o.probes.background failure)

  -- A write through `observation_mut`.
  unfoldable pub write_observation :
      ProtocolPhase (parts w) → ObservationSnapshot w → ProtocolPhase (parts w)
  write_observation (observing _ f plan) o = observing o f plan
  write_observation (ready _) o = ready o
  write_observation (planning _ id) o = planning o id
  write_observation (applying _ p) o = applying o p
  write_observation phase o = phase

  unfoldable pub with_observation :
      CoreState (parts w) → ObservationSnapshot w → CoreState (parts w)
  unfolding write_observation
  with_observation s o = record s {
    protocol = record { shared = s.protocol.shared; phase = write_observation s.protocol.phase o };
  }

  -- The plan of the background probe, from the plan that was prepared for its observation.
  unfoldable pub with_background_plan :
      ObservationSnapshot w → Option (PreparedObservationPlan (parts w)) → ObservationSnapshot w
  with_background_plan o none = o
  with_background_plan o (some prepared) = elim (background_probe_plan prepared o.basis.viewport) [
    | none ↦ o
    | some plan ↦ with_background o (from_plan plan)
  ]
