-- ===== src/Tests/Cleanup.antt =====
-- The schedule of the render cleanup of smear-cursor at concrete times.
use dotfiles_nix.Base.{◌≡◌, refl, false, arith}
use dotfiles_nix.Smear.Cleanup.{
  RenderCleanupRetryPolicy, new_retry_policy, delay_ms, CoolingRenderCleanupState,
  RenderCleanupState, quiesced, scheduled, next_deadline, hard_purge_due_at, thermal, cooling_state,
}
use dotfiles_nix.Smear.Cleanup.Deadlines.{
  progress, retained, step, step_future, IsAfter, IsAfterUnlessCold,
}

abbrev policy : RenderCleanupRetryPolicy
policy = new_retry_policy 250 4000

delays : delay_ms policy 1 ≡ 250
unfolding delay_ms new_retry_policy
delays = refl

abbrev fresh : RenderCleanupState
fresh = scheduled 100 200 3000

abbrev cooling_slot : CoolingRenderCleanupState
cooling_slot = record {
  entered_cooling_at = 300;
  next_compaction_due_at = 300;
  hard_purge_due_at = 3100;
  compaction_attempted = false;
  retained_resource_retry_attempt = 0;
  timer_rearm = quiesced;
}

step_future_example :
    IsAfterUnlessCold (thermal fresh) 300 (next_deadline (step fresh 300 (progress 0 0)))
    × (thermal (step fresh 300 (retained policy)) ≡ cooling_state)
    × IsAfter 300 (next_deadline (step fresh 300 (retained policy)))
    × IsAfter 300 (hard_purge_due_at (step fresh 300 (retained policy)))
step_future_example = step_future fresh 300 0 0 policy (omega arith)
