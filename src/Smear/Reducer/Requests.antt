-- ===== src/Smear/Reducer/Requests.antt =====
-- The requests that the reducer makes: smear-cursor/src/core/reducer/machine/support.rs, lines 167 to
-- 432. `unreachable!` ends the process: the functions that may reach one return `none` there.
use dotfiles_nix.Base.{ℕ, Bool, true, false, ◌&&◌, ◌||◌, not, Option, none, some, if◌then◌else◌}
use mathlib.Core.Option
use dotfiles_nix.Smear.Policy.{BufferPerfClass, full}
use dotfiles_nix.Smear.Demand.{ExternalDemand, boundary_refresh}
use dotfiles_nix.Smear.Payloads.{Payloads}
use dotfiles_nix.Smear.Probe.{
  ProbeKind, ProbeRequestSet, no_probes, with_requested, cursor_color, background,
}
use dotfiles_nix.Smear.Probe.Slots.{is_pending, next_chunk}
use dotfiles_nix.Smear.Protocol.Phase
use dotfiles_nix.Smear.Protocol.Phase.{PendingObservation}
use dotfiles_nix.Smear.Protocol.Core.{CoreState}
use dotfiles_nix.Smear.Protocol.Moves.{allocate_ingress_seq, enter_observing_request}
use dotfiles_nix.Smear.Reducer.Config.{
  requires_cursor_color_sampling, requires_cursor_color_sampling_for_mode,
  requires_background_sampling_for_perf_class,
}
use dotfiles_nix.Smear.Reducer.Snapshot
use dotfiles_nix.Smear.Reducer.Snapshot.{
  parts, Calls, ObservationSnapshot, ObservationBasis, unavailable, deferred,
  requires_exact_cursor_color_refresh, cursor_color_probe_witness, observation_id,
}
use dotfiles_nix.Smear.Reducer.ProbePolicy.{
  RetainedCursorColorFallback, compatible_sample, for_demand,
}
use dotfiles_nix.Smear.Reducer.Effects.{
  Effect, request_observation_base, request_probe, apply_ingress_cursor_presentation,
  CursorColorFallback, ObservationRuntimeContext, IngressCursorPresentationRequest, hide_cursor,
  hide_cursor_and_prepaint, is_allowed, is_outside,
}

module _ {w : Payloads} (c : Calls w) where
  unfoldable pub probe_requests_for : CoreState (parts w) → BufferPerfClass → ProbeRequestSet
  probe_requests_for s perf_class =
      let config = c.config s.payload.motion in
      let first =
        if requires_cursor_color_sampling config
        then with_requested no_probes cursor_color
        else no_probes in
      if requires_background_sampling_for_perf_class config perf_class
      then with_requested first background
      else first

  unfoldable pub observation_cursor_color_fallback :
      Option (ObservationSnapshot w) → Option (CursorColorFallback w)
  observation_cursor_color_fallback none = none
  observation_cursor_color_fallback (some o) = elim (Snapshot.cursor_color o) [
    | none ↦ none
    | some sample ↦
        Option.map (λ witness. record { sample = sample; witness = witness })
          (cursor_color_probe_witness c o)
  ]

  unfoldable pub observation_cursor_text_context_boundary :
      Option (ObservationSnapshot w) → Option w.Boundary
  observation_cursor_text_context_boundary none = none
  observation_cursor_text_context_boundary (some o) =
      w.context_boundary o.basis.cursor_text_context_state

  -- The `match` on the fallback of both requests.
  abbrev retained_fallback : Option (CursorColorFallback w) → RetainedCursorColorFallback
  retained_fallback none = RetainedCursorColorFallback.unavailable
  retained_fallback (some fallback) = compatible_sample

  unfoldable pub observation_runtime_context :
      CoreState (parts w) → PendingObservation → Option w.Surface → ObservationRuntimeContext w
  observation_runtime_context s p surface =
      let observation = Phase.phase_observation s.protocol.phase in
      let runtime = s.payload.motion in
      let config = c.config runtime in
      record {
        smear_to_cmd = config.smear_to_cmd;
        scroll_buffer_space = config.scroll_buffer_space;
        tracked_surface = c.tracked_surface runtime;
        tracked_buffer_position = c.tracked_buffer_position runtime;
        cursor_text_context_boundary = observation_cursor_text_context_boundary observation;
        current_corners = c.current_corners runtime;
        ingress_observation_surface = surface;
        buffer_perf_class = p.demand.buffer_perf_class;
        probe_policy =
            for_demand p.demand.kind p.demand.buffer_perf_class
              (retained_fallback (observation_cursor_color_fallback observation));
      }

  -- `request_observation_base` of support.rs.
  unfoldable pub observation_base_effect :
      CoreState (parts w) → PendingObservation → Option w.Surface → Effect w
  observation_base_effect s p surface =
      request_observation_base p (observation_runtime_context s p surface)

  -- The two refreshes of `exact_boundary_refresh_required`.
  abbrev refresh_of : CoreState (parts w) → ObservationSnapshot w → Bool
  refresh_of s o =
      requires_cursor_color_sampling_for_mode (c.config s.payload.motion) o.basis.mode
        && requires_exact_cursor_color_refresh o
      || elim o.basis.cell [ deferred cell ↦ true | _ ↦ false ]

  unfoldable pub exact_boundary_refresh_required : CoreState (parts w) → Bool
  unfolding Phase.phase_observation
  exact_boundary_refresh_required s = elim (Phase.phase_observation s.protocol.phase) [
    | none ↦ false
    | some o ↦
        if not (c.is_initialized s.payload.motion) || c.is_animating s.payload.motion
        then false
        else refresh_of s o
  ]

  -- The end of both functions that start an observation: `none` is `unreachable!`.
  unfoldable pub start_observation :
      CoreState (parts w)
      → PendingObservation
      → Option w.Surface
      → Option (CoreState (parts w) × Effect w)
  unfolding enter_observing_request
  start_observation s p surface = elim (enter_observing_request s p) [
    | none ↦ none
    | some t ↦ some (t, observation_base_effect t p surface)
  ]

  abbrev perf_class_of : Option (ObservationSnapshot w) → BufferPerfClass
  perf_class_of none = full
  perf_class_of (some o) = o.demand.buffer_perf_class

  -- The body of `start_boundary_refresh_observation` where a refresh is required.
  unfoldable pub refresh_observation :
      CoreState (parts w) → ℕ → Option (CoreState (parts w) × Effect w)
  unfolding Phase.phase_observation allocate_ingress_seq start_observation
  refresh_observation s observed_at =
      let perf_class = perf_class_of (Phase.phase_observation s.protocol.phase) in
      let (t, seq) = allocate_ingress_seq s in
      let demand : ExternalDemand = record {
        seq = seq;
        kind = boundary_refresh;
        observed_at = observed_at;
        buffer_perf_class = perf_class;
      } in
      start_observation t
        (record { demand = demand; requested_probes = probe_requests_for t perf_class }) none

  -- The `Option` that the function returns: `none` where no refresh is required. A caller that has
  -- checked that one is required meets `unreachable!` there.
  unfoldable pub start_boundary_refresh_observation :
      CoreState (parts w) → ℕ → Option (CoreState (parts w) × Effect w)
  unfolding refresh_observation
  start_boundary_refresh_observation s observed_at =
      if exact_boundary_refresh_required s then refresh_observation s observed_at else none

  -- `request_probe` of support.rs, with the demand that its callers read from the observation.
  unfoldable pub probe_effect :
      CoreState (parts w)
      → ObservationSnapshot w
      → Option w.Generations
      → ProbeKind
      → Option w.Chunk
      → Option (CursorColorFallback w)
      → Effect w
  probe_effect s o generations kind chunk fallback = request_probe (record {
    observation_id = observation_id o;
    observation_basis = o.basis;
    cursor_color_probe_generations = generations;
    kind = kind;
    smear_to_cmd = (c.config s.payload.motion).smear_to_cmd;
    buffer_perf_class = o.demand.buffer_perf_class;
    probe_policy = for_demand o.demand.kind o.demand.buffer_perf_class (retained_fallback fallback);
    background_chunk = chunk;
    cursor_color_fallback = elim kind [ cursor_color ↦ fallback | background ↦ none ];
  })

  unfoldable pub next_pending_probe_effect :
      CoreState (parts w)
      → ObservationSnapshot w
      → Option (CursorColorFallback w)
      → Option (Effect w)
  next_pending_probe_effect s o fallback =
      if is_pending o.probes.cursor_color
      then some (probe_effect s o o.generations cursor_color none fallback)
      else elim (next_chunk o.probes.background) [
        | none ↦ none
        | some chunk ↦ some (probe_effect s o none background (some chunk) fallback)
      ]

  unfoldable pub ingress_cursor_presentation_effect :
      CoreState (parts w) → Option (IngressCursorPresentationRequest w) → Option (Effect w)
  ingress_cursor_presentation_effect s none = none
  ingress_cursor_presentation_effect s (some r) =
      let runtime = s.payload.motion in
      if not (c.is_enabled runtime)
        || c.is_animating runtime
        || not (is_allowed r.mode_admission)
        || not (is_outside r.command_line_location)
      then none
      else some (
          apply_ingress_cursor_presentation (elim r.prepaint_cell [
            | none ↦ hide_cursor
            | some cell ↦
                hide_cursor_and_prepaint cell r.prepaint_shape (c.config runtime).windows_zindex
          ]))
