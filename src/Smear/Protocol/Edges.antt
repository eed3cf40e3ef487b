-- ===== src/Smear/Protocol/Edges.antt =====
-- The lifecycle graph of smear-cursor/src/core/state/protocol.rs, and what a generation tells.
use dotfiles_nix.Base.{◌≡◌, some, arith, if◌then◌else◌}
use dotfiles_nix.Smear.Types.{Lifecycle, lifecycle_eq, next}
use dotfiles_nix.Smear.Types.Lifecycle.{primed, observing, ready, planning, applying, recovering}
use dotfiles_nix.Smear.Protocol.Phase.{Parts}
use dotfiles_nix.Smear.Protocol.Core.{CoreState, lifecycle}
use dotfiles_nix.Smear.Protocol.Steps.{Move, requests, step}

-- The edges of the lifecycle graph.
pub data Edge : Lifecycle → Lifecycle → Type 0 where
  stays : {a : Lifecycle} → Edge a a
  first_request : Edge primed observing
  later_request : Edge ready observing
  observed : Edge observing ready
  planned : Edge ready planning
  accepted : Edge planning applying
  applied : Edge applying ready
  restored : Edge recovering ready
  reset : {a : Lifecycle} → Edge a primed
  failed : {a : Lifecycle} → Edge a recovering

pub ruleset edges = (
  stays, first_request, later_request, observed, planned, accepted, applied, restored, reset,
  failed,
)

module _ {h : Parts} where
  -- Every transition follows an edge of the lifecycle graph, or stays.
  pub step-Edge :
      (s t : CoreState h) (m : Move h) → step s m ≡ some t → Edge (lifecycle s) (lifecycle t)
  unfolding step lifecycle
  step-Edge s t (requests p) e = grind (arith, edges)
  step-Edge s t _ e = grind (arith, edges)

  -- A transition starts a new generation exactly when it changes the lifecycle.
  pub generation-step :
      (s t : CoreState h) (m : Move h)
      → step s m ≡ some t
      → t.generation
        ≡ (if lifecycle_eq (lifecycle s) (lifecycle t) then s.generation else next s.generation)
  unfolding step lifecycle next
  generation-step s t (requests p) e = ground arith
  generation-step s t _ e = ground arith
