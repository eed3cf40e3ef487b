-- ===== src/Smear/Reducer/Machine/Lifecycles.antt =====
-- The table of the lifecycles that each event of smear-cursor/src/core/reducer/machine leads to.
use dotfiles_nix.Base.{◌≡◌, ap, Bool, true, false, ◌||◌, none, some, arith}
use dotfiles_nix.Smear.Types.{Lifecycle, lifecycle_eq}
use dotfiles_nix.Smear.Types.Lifecycle.{
  idle, primed, observing, ready, planning, applying, recovering,
}
use dotfiles_nix.Smear.Payloads.{Payloads}
use dotfiles_nix.Smear.Protocol.Phase.{phase_lifecycle}
use dotfiles_nix.Smear.Protocol.Core.{CoreState, lifecycle}
use dotfiles_nix.Smear.Reducer.Snapshot.{parts}
use dotfiles_nix.Smear.Reducer.Effects.{
  Transition, Event, initialize, external_demand_queued, observation_base_collected, probe_reported,
  render_plan_computed, render_plan_failed, apply_reported, timer_fired_with_token,
  timer_lost_with_token, effect_failed, applied_fully, applied_degraded, apply_failed,
}

module _ {w : Payloads} where
  -- The changes of lifecycle that an event may make.
  abbrev pub moves : Event w → Lifecycle → Lifecycle → Bool
  moves (initialize n) idle primed = true
  moves (external_demand_queued e) primed observing = true
  moves (external_demand_queued e) ready observing = true
  moves (observation_base_collected e) observing planning = true
  moves (probe_reported r) observing planning = true
  moves (probe_reported r) observing primed = true
  moves (render_plan_computed r n) planning applying = true
  moves (render_plan_failed id n) planning recovering = true
  moves (apply_reported (applied_fully id n b)) applying ready = true
  moves (apply_reported (applied_fully id n b)) applying observing = true
  moves (apply_reported (applied_degraded id d n b)) applying recovering = true
  moves (apply_reported (apply_failed id d n)) applying recovering = true
  moves (timer_fired_with_token k n) primed observing = true
  moves (timer_fired_with_token k n) ready observing = true
  moves (timer_fired_with_token k n) ready planning = true
  moves (timer_fired_with_token k n) recovering primed = true
  moves (timer_fired_with_token k n) recovering observing = true
  moves (timer_fired_with_token k n) recovering planning = true
  moves (timer_lost_with_token k n) primed observing = true
  moves (timer_lost_with_token k n) ready observing = true
  moves (timer_lost_with_token k n) recovering primed = true
  moves (timer_lost_with_token k n) recovering ready = true
  moves (effect_failed (some id) n) applying recovering = true
  moves (effect_failed none n) idle recovering = false
  moves (effect_failed none n) _ recovering = true
  moves _ _ _ = false

  abbrev pub may_follow : Event w → Lifecycle → Lifecycle → Bool
  may_follow e a b = lifecycle_eq a b || moves e a b

lifecycle_eq_refl : (a : Lifecycle) (b : Bool) → lifecycle_eq a a || b ≡ true
lifecycle_eq_refl a b = ground arith

module _ {w : Payloads} where
  abbrev pub Follows : CoreState (parts w) → Event w → Transition w → Type 0
  Follows s e t = may_follow e (lifecycle s) (lifecycle t.next) ≡ true

  pub lifecycle_of_phase :
      (s t : CoreState (parts w)) → t.protocol.phase ≡ s.protocol.phase → lifecycle t ≡ lifecycle s
  unfolding lifecycle
  lifecycle_of_phase s t h = ap phase_lifecycle h

  pub Follows-same :
      (s : CoreState (parts w)) (e : Event w) (t : Transition w)
      → t.next.protocol.phase ≡ s.protocol.phase
      → Follows s e t
  Follows-same s e t h =
      rw (lifecycle_of_phase s t.next h)
        (lifecycle_eq_refl (lifecycle s) (moves e (lifecycle s) (lifecycle s)))
