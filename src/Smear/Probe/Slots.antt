-- ===== src/Smear/Probe/Slots.antt =====
-- The probes of one observation: smear-cursor/src/core/state/observation/probe.rs, lines 111 to 391.
-- `&mut self` methods return the new state with their result.
use dotfiles_nix.Base.{ℕ, Bool, true, false, not, Option, none, some, if◌then◌else◌}
use dotfiles_nix.Smear.Payloads.{Payloads}

pub data ProbeReuse : Type 0 where
  exact compatible refresh_required : ProbeReuse

pub data ProbeFailure : Type 0 where
  missing_witness witness_read_failed cache_access_failed missing_request : ProbeFailure
  runtime_access_failed host_bridge_failed decode_failed : ProbeFailure

pub data ProbeState (T : Type 0) : Type 0 where
  pending : ProbeState T
  ready : ProbeReuse → T → ProbeState T
  failed : ProbeFailure → ProbeState T

pub data ProbeSlot (T : Type 0) : Type 0 where
  unrequested : ProbeSlot T
  requested : ProbeState T → ProbeSlot T

module _ {T : Type 0} where
  unfoldable pub state_value : ProbeState T → Option T
  state_value pending = none
  state_value (ready reuse value) = some value
  state_value (failed failure) = none

  unfoldable pub state_reuse : ProbeState T → Option ProbeReuse
  state_reuse pending = none
  state_reuse (ready reuse value) = some reuse
  state_reuse (failed failure) = none

  unfoldable pub is_pending : ProbeSlot T → Bool
  is_pending (requested pending) = true
  is_pending _ = false

  unfoldable pub is_requested : ProbeSlot T → Bool
  is_requested unrequested = false
  is_requested (requested state) = true

  unfoldable pub slot_value : ProbeSlot T → Option T
  unfolding state_value
  slot_value unrequested = none
  slot_value (requested state) = state_value state

  unfoldable pub slot_reuse : ProbeSlot T → Option ProbeReuse
  unfolding state_reuse
  slot_reuse unrequested = none
  slot_reuse (requested state) = state_reuse state

module _ (w : Payloads) where
  pub data BackgroundProbeState : Type 0 where
    unrequested : BackgroundProbeState
    collecting : w.Progress → BackgroundProbeState
    ready : ProbeReuse → w.Batch → BackgroundProbeState
    failed : ProbeFailure → BackgroundProbeState

  pub record ProbeSet : Type 0 where
    pub cursor_color : ProbeSlot (Option ℕ)
    pub background : BackgroundProbeState

module _ {w : Payloads} where
  unfoldable pub set_cursor_color_state : ProbeSet w → ProbeState (Option ℕ) → ProbeSet w × Bool
  set_cursor_color_state s state = elim s.cursor_color [
    | unrequested ↦ (s, false)
    | requested current ↦ (record s { cursor_color = requested state }, true)
  ]

  unfoldable pub sampled_cursor_color : ProbeSet w → Option ℕ
  unfolding slot_value
  sampled_cursor_color s = elim (slot_value s.cursor_color) [ none ↦ none | some sample ↦ sample ]

  unfoldable pub from_plan : w.ProbePlan → BackgroundProbeState w
  from_plan plan =
      if w.plan_is_empty plan then ready exact w.empty_batch else collecting (w.new_progress plan)

  unfoldable pub next_chunk : BackgroundProbeState w → Option w.Chunk
  next_chunk (collecting progress) = w.progress_chunk progress
  next_chunk _ = none

  unfoldable pub batch : BackgroundProbeState w → Option w.Batch
  batch (ready reuse b) = some b
  batch _ = none

  unfoldable pub set_ready :
      BackgroundProbeState w → ProbeReuse → w.Batch → BackgroundProbeState w × Bool
  set_ready (collecting progress) reuse b = (ready reuse b, true)
  set_ready s reuse b = (s, false)

  unfoldable pub accept_batch :
      BackgroundProbeState w → w.Viewport → ProbeReuse → w.Batch → BackgroundProbeState w × Bool
  unfolding set_ready
  accept_batch s viewport reuse b =
      if not (w.is_valid_for_viewport b viewport) then (s, false) else set_ready s reuse b

  unfoldable pub set_failed : BackgroundProbeState w → ProbeFailure → BackgroundProbeState w × Bool
  set_failed (collecting progress) failure = (failed failure, true)
  set_failed s failure = (s, false)

  -- What `apply_chunk` does with the update that its progress made.
  abbrev apply_update :
      BackgroundProbeState w
      → w.Viewport
      → Option (w.Progress × Option w.Batch)
      → BackgroundProbeState w × Bool
  apply_update s viewport none = (s, false)
  apply_update s viewport (some (progress, none)) = (collecting progress, true)
  apply_update s viewport (some (progress, some b)) = accept_batch s viewport exact b

  unfoldable pub apply_chunk :
      BackgroundProbeState w → w.Viewport → w.Chunk → w.Mask → BackgroundProbeState w × Bool
  unfolding accept_batch
  apply_chunk (collecting progress) viewport chunk mask =
      apply_update (collecting progress) viewport (w.progress_apply progress chunk mask)
  apply_chunk s viewport chunk mask = (s, false)
