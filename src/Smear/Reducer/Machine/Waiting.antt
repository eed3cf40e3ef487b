-- ===== src/Smear/Reducer/Machine/Waiting.antt =====
-- Where the timer of the cleanup is armed: smear-cursor/src/core/reducer/machine/apply.rs and
-- timers.rs.
use dotfiles_nix.Base.{
  if◌then◌else◌, ◌⊎◌, inl, inr, ◌&&◌, Bool, is_some, [], ◌==◌, subst, ℕ, ◌≤◌, ◌≡◌, refl, true,
  false, some, arith,
}
use dotfiles_nix.Smear.Payloads.{Payloads}
use dotfiles_nix.Smear.Types.{TimerId}
use dotfiles_nix.Smear.Timers.{arm, active_token}
use dotfiles_nix.Smear.Cleanup.{
  RenderCleanupState, next_deadline, timer_rearm_is_quiesced,
  retry_hard_purge_after_observed_retained_resources,
}
use dotfiles_nix.Smear.Protocol.Core.{CoreState, needs_initialize}
use dotfiles_nix.Smear.Protocol.Setters.{with_realization, with_render_cleanup}
use dotfiles_nix.Smear.Reducer.Config.{render_cleanup_retry_policy}
use dotfiles_nix.Smear.Reducer.Snapshot.{parts, Calls, cleanup_applied}
use dotfiles_nix.Smear.Reducer.Effects.{
  Transition, RenderCleanupAppliedAction, Event, render_cleanup_retained_resources_observed,
}
use dotfiles_nix.Smear.Reducer.Applying.{
  follow_cleanup, due_or_arm, due_effect, cleanup_eq,
  reduce_render_cleanup_retained_resources_observed,
}
use dotfiles_nix.Smear.Reducer.Cleaning.{arm_render_cleanup_timer, cleanup_effect_for_timer_fire}
use dotfiles_nix.Smear.Reducer.Planning.{stay_owned}
use dotfiles_nix.Smear.Reducer.Clocks.{cleanup_fired}
use dotfiles_nix.Smear.Reducer.Machine.Endings.{Waits}

-- The result of two tests is one of three.
three_ways :
    {A : Type 0} (b c : Bool) (x y z t : A)
    → (if b then some x else if c then some y else some z) ≡ some t
    → ((b ≡ true) × (x ≡ t)) ⊎ ((c ≡ true) × (y ≡ t)) ⊎ (z ≡ t)
three_ways true c x y z t h = inl (refl, ground arith)
three_ways false true x y z t h = inr (inl (refl, ground arith))
three_ways false false x y z t h = inr (inr (ground arith))

module _ {w : Payloads} where
  held-Waits :
      (v s : CoreState (parts w)) (e : Event w)
      → timer_rearm_is_quiesced v.protocol.shared.render_cleanup ≡ true
      → Waits s e (stay_owned v)
  unfolding timer_rearm_is_quiesced
  held-Waits v s e h = ground arith

  kept-Waits :
      (s : CoreState (parts w)) (same : Bool) (k : RenderCleanupState) (r n : ℕ)
      → (same && is_some (active_token s.protocol.shared.timers TimerId.cleanup)) ≡ true
      → Waits s (render_cleanup_retained_resources_observed r n) (
          stay_owned
            (with_render_cleanup (with_realization s (cleanup_applied s.payload.realization)) k))
  unfolding active_token with_render_cleanup with_realization
  kept-Waits s same k r n h = ground arith

module _ {w : Payloads} (c : Calls w) where
  pub follow_cleanup-Waits :
      (s : CoreState (parts w)) (previous : RenderCleanupState) (a : RenderCleanupAppliedAction)
      (n : ℕ) (first : CoreState (parts w)) (e : Event w)
      → Waits first e (follow_cleanup c s previous a n)
  unfolding follow_cleanup arm active_token timer_rearm_is_quiesced cleanup_effect_for_timer_fire
  follow_cleanup-Waits s previous a n first e = ground arith

  pub cleanup_fired-Waits :
      (s : CoreState (parts w)) (n : ℕ) (t : Transition w) (first : CoreState (parts w))
      (e : Event w)
      → cleanup_fired c s n ≡ some t
      → Waits first e t
  unfolding cleanup_fired arm active_token timer_rearm_is_quiesced cleanup_effect_for_timer_fire
  cleanup_fired-Waits s n t first e h = ground arith

  due_or_arm-Waits :
      (v : CoreState (parts w)) (n : ℕ) (first : CoreState (parts w)) (e : Event w)
      → Waits first e (due_or_arm v (due_effect c v n) [] n)
  unfolding arm_render_cleanup_timer next_deadline arm cleanup_effect_for_timer_fire
  due_or_arm-Waits v n first e = ground arith

  pub retained-Waits :
      (s : CoreState (parts w)) (r n : ℕ) (t : Transition w)
      → reduce_render_cleanup_retained_resources_observed c s r n ≡ some t
      → needs_initialize s ≡ false
      → 1 ≤ r
      → Waits s (render_cleanup_retained_resources_observed r n) t
  unfolding reduce_render_cleanup_retained_resources_observed
  retained-Waits s r n t h i p =
      let previous = s.protocol.shared.render_cleanup in
      let e : Event w = render_cleanup_retained_resources_observed r n in
      let next =
        retry_hard_purge_after_observed_retained_resources previous n
          (render_cleanup_retry_policy (c.config s.payload.motion)) in
      let v =
        with_render_cleanup (with_realization s (cleanup_applied s.payload.realization)) next in
      let left : (r == 0) ≡ false = ground arith in
      let same = cleanup_eq next previous in
      let waiting = is_some (active_token v.protocol.shared.timers TimerId.cleanup) in
      let late = due_or_arm v (due_effect c v n) [] n in
      let tests = three_ways (timer_rearm_is_quiesced next) (same && waiting) (stay_owned v) in
      elim (tests (stay_owned v) late t (rw (i, left) at h)) [
        | inl (held, x) ↦ subst (Waits s e) x (held-Waits v s e held)
        | inr (inl (kept, x)) ↦ subst (Waits s e) x (kept-Waits s same next r n kept)
        | inr (inr x) ↦ subst (Waits s e) x (due_or_arm-Waits v n s e)
      ]
