-- ===== src/Smear/Cleanup/Deadlines.antt =====
-- The deadlines of smear-cursor/src/core/state/render_cleanup.rs under every transition.
use dotfiles_nix.Base.{ℕ, ◌≤◌, ◌<◌, ◌≡◌, refl, ◌≢◌, true, Option, none, some, arith, max}
use dotfiles_nix.Base.Words.{u64_max, saturating_add}
use dotfiles_nix.Smear.Cleanup.{
  RenderCleanupRetryPolicy, CoolingRenderCleanupState, RenderCleanupState, hot, cooling, cold,
  RenderThermalState, hot_state, cooling_state, cold_state, thermal, scheduled, converge_to_cold,
  next_deadline, hard_purge_due_at, entered_cooling_at, quiesce_timer_rearm, revive_timer_rearm,
  timer_rearm_is_quiesced, enter_cooling_after_soft_clear, continue_cooling_after_progress,
  await_hard_purge_after_stalled_compaction, retry_hard_purge_after_retained_resources,
  retry_hard_purge_after_observed_retained_resources,
}

-- Where the clock is not at its end, a new schedule is hot, its next deadline and its hard purge lie
-- in the future, and the deadline is no later than the purge.
scheduled_lem :
    (now soft hard : ℕ)
    → now < u64_max
    → (compaction : ℕ) × (purge : ℕ) × (thermal (scheduled now soft hard) ≡ hot_state)
      × (next_deadline (scheduled now soft hard) ≡ some compaction)
      × (hard_purge_due_at (scheduled now soft hard) ≡ some purge)
      × (now < compaction)
      × (compaction ≤ purge)
unfolding scheduled thermal next_deadline hard_purge_due_at
scheduled_lem now soft hard h = (
  saturating_add now (max soft 1),
  saturating_add now (max hard (max soft 1)),
  refl,
  refl,
  refl,
  omega arith,
  omega arith,
)

-- The transitions that a cleanup event at a time makes.
pub data Event : Type 0 where
  soft_clear : ℕ → Event
  progress : ℕ → ℕ → Event
  stalled : Event
  retained : RenderCleanupRetryPolicy → Event
  observed_retained : RenderCleanupRetryPolicy → Event
  converge quiesce revive : Event

pub step : RenderCleanupState → ℕ → Event → RenderCleanupState
unfolding enter_cooling_after_soft_clear continue_cooling_after_progress
    await_hard_purge_after_stalled_compaction retry_hard_purge_after_retained_resources
    retry_hard_purge_after_observed_retained_resources converge_to_cold quiesce_timer_rearm
    revive_timer_rearm
step s now (soft_clear delay) = enter_cooling_after_soft_clear s now delay
step s now (progress cadence delay) = continue_cooling_after_progress s now cadence delay
step s now stalled = await_hard_purge_after_stalled_compaction s now
step s now (retained p) = retry_hard_purge_after_retained_resources s now p
step s now (observed_retained p) = retry_hard_purge_after_observed_retained_resources s now p
step s now converge = converge_to_cold s
step s now quiesce = quiesce_timer_rearm s
step s now revive = revive_timer_rearm s

-- The edges of the thermal state machine.
pub data Cools : RenderThermalState → RenderThermalState → Type 0 where
  stays : {s : RenderThermalState} → Cools s s
  cools : Cools hot_state cooling_state
  freezes : {s : RenderThermalState} → Cools s cold_state
  -- A retry takes up a purge that was thought to be over.
  reopens : Cools cold_state cooling_state

-- No cleanup event makes the state hot again: only a new schedule does.
step-Cools :
    (s : RenderCleanupState) (now : ℕ) (e : Event) → Cools (thermal s) (thermal (step s now e))
unfolding step thermal
step-Cools (hot s) now (soft_clear delay) = cools
step-Cools (hot s) now _ = search (stays, cools, freezes)
step-Cools (cooling s) now (soft_clear delay) = stays
step-Cools (cooling s) now _ = search (stays, freezes)
step-Cools cold now (soft_clear delay) = stays
step-Cools cold now _ = search (stays, reopens)

-- A deadline that is set and lies after `now`.
abbrev pub IsAfter : ℕ → Option ℕ → Type 0
IsAfter now none = ⊥
IsAfter now (some d) = now < d

-- A cold cleanup has no deadline, and any other one has a deadline after `now`.
abbrev pub IsAfterUnlessCold : RenderThermalState → ℕ → Option ℕ → Type 0
IsAfterUnlessCold cold_state now d = d ≡ none
IsAfterUnlessCold _ now d = IsAfter now d

-- A deadline that is set and not before `d`.
abbrev pub AtLeast : ℕ → Option ℕ → Type 0
AtLeast d none = ⊥
AtLeast d (some e) = d ≤ e

-- While the clock is not at its end, bounded progress gives a cleanup that is not cold a next
-- deadline strictly in the future, and leaves a cold one without. A purge that left resources behind
-- makes every cleanup cooling, a cold one too, with its next deadline and its hard purge strictly in
-- the future.
pub step_future :
    (s : RenderCleanupState) (now cadence delay : ℕ) (p : RenderCleanupRetryPolicy)
    → now < u64_max
    → IsAfterUnlessCold (thermal s) now (next_deadline (step s now (progress cadence delay)))
      × (thermal (step s now (retained p)) ≡ cooling_state)
      × IsAfter now (next_deadline (step s now (retained p)))
      × IsAfter now (hard_purge_due_at (step s now (retained p)))
unfolding step next_deadline thermal hard_purge_due_at
step_future (hot s) now cadence delay p h = (ground arith, refl, ground arith, ground arith)
step_future (cooling s) now cadence delay p h = (ground arith, refl, ground arith, ground arith)
step_future cold now cadence delay p h = (refl, refl, ground arith, ground arith)

module _ (c : CoolingRenderCleanupState) (now : ℕ) where
  -- While cooling goes on, whatever the event but a convergence, it keeps the time at which it began.
  pub entered_cooling_at-step :
      (e : Event)
      → e ≢ converge
      → entered_cooling_at (step (cooling c) now e) ≡ some c.entered_cooling_at
  unfolding step entered_cooling_at
  entered_cooling_at-step (soft_clear delay) h = refl
  entered_cooling_at-step (progress cadence delay) h = refl
  entered_cooling_at-step stalled h = refl
  entered_cooling_at-step (retained p) h = refl
  entered_cooling_at-step (observed_retained p) h = refl
  entered_cooling_at-step converge h = absurd (h refl)
  entered_cooling_at-step quiesce h = refl
  entered_cooling_at-step revive h = refl

  -- For a purge time that fits in `u64` and a clock that is not at its end, no clear, progress or
  -- stall brings the hard purge forward, and after a clear it lies strictly in the future while the
  -- next deadline is the present.
  purge_extends :
      (cadence delay : ℕ)
      → c.hard_purge_due_at ≤ u64_max
      → now < u64_max
      → AtLeast c.hard_purge_due_at (hard_purge_due_at (step (cooling c) now (soft_clear delay)))
        × AtLeast c.hard_purge_due_at
            (hard_purge_due_at (step (cooling c) now (progress cadence delay)))
        × AtLeast c.hard_purge_due_at (hard_purge_due_at (step (cooling c) now stalled))
        × IsAfter now (hard_purge_due_at (step (cooling c) now (soft_clear delay)))
        × (next_deadline (step (cooling c) now (soft_clear delay)) ≡ some now)
  unfolding step hard_purge_due_at next_deadline
  purge_extends cadence delay r h =
      (ground arith, ground arith, ground arith, ground arith, ground arith)

-- Every event but `revive` and `converge` leaves a quiesced schedule quiesced.
quiesced-step :
    (s : RenderCleanupState) (now : ℕ) (e : Event)
    → timer_rearm_is_quiesced s ≡ true
    → e ≢ revive
    → e ≢ converge
    → timer_rearm_is_quiesced (step s now e) ≡ true
unfolding step timer_rearm_is_quiesced
quiesced-step (hot s) now (soft_clear delay) h r c = h
quiesced-step (hot s) now revive h r c = absurd (r refl)
quiesced-step (hot s) now converge h r c = absurd (c refl)
quiesced-step (hot s) now quiesce h r c = refl
quiesced-step (hot s) now _ h r c = h
quiesced-step (cooling s) now (soft_clear delay) h r c = h
quiesced-step (cooling s) now revive h r c = absurd (r refl)
quiesced-step (cooling s) now converge h r c = absurd (c refl)
quiesced-step (cooling s) now quiesce h r c = refl
quiesced-step (cooling s) now _ h r c = h
quiesced-step cold now e h r c = cc
