-- ===== src/Smear/Protocol/Generations.antt =====
-- Generations over runs of smear-cursor/src/core/state/protocol.rs.
use dotfiles_nix.Base.{◌≤◌, ◌<◌, ◌≡◌, ◌∙◌, inl, inr, List, [], ◌∷◌, true, some, arith, Option-cases}
use dotfiles_nix.Base.Words.{u64_max}
use dotfiles_nix.Smear.Types.{Lifecycle, lifecycle_eq, next}
use dotfiles_nix.Smear.Protocol.Phase.{Parts}
use dotfiles_nix.Smear.Protocol.Core.{CoreState, lifecycle}
use dotfiles_nix.Smear.Protocol.Steps.{Move, step, run}
use dotfiles_nix.Smear.Protocol.Edges.{generation-step}

eq_of_lifecycle_eq : (a b : Lifecycle) → lifecycle_eq a b ≡ true → a ≡ b
eq_of_lifecycle_eq a b h = ground arith

module _ {h : Parts} where
  step_mono :
      (s t : CoreState h) (m : Move h)
      → step s m ≡ some t
      → s.generation ≤ u64_max
      → (s.generation ≤ t.generation) × (t.generation ≤ u64_max)
  unfolding next
  step_mono s t m e r = ground (arith, generation-step s t m e)

  step_same :
      (s t : CoreState h) (m : Move h)
      → step s m ≡ some t
      → s.generation < u64_max
      → t.generation ≡ s.generation
      → lifecycle s ≡ lifecycle t
  unfolding next
  step_same s t m e r g =
      eq_of_lifecycle_eq (lifecycle s) (lifecycle t) (ground (arith, generation-step s t m e))

  pub run_mono :
      (s t : CoreState h) (ms : List (Move h))
      → run s ms ≡ some t
      → s.generation ≤ u64_max
      → (s.generation ≤ t.generation) × (t.generation ≤ u64_max)
  unfolding run
  run_mono s t [] e r = ground arith
  run_mono s t (m ∷ ms) e r = elim (Option-cases (step s m)) [
    | inl fails ↦ absurd (cc (rw (fails, run) at e))
    | inr (u, to) ↦
        let first = step_mono s u m to r in
        let rest = run_mono u t ms (rw (to, run) at e) first.1 in omega (arith, first, rest)
  ]

  -- Two states of one run that carry the same generation are in the same lifecycle, as long as the
  -- counter has not reached its end.
  pub run_same_generation :
      (s t : CoreState h) (ms : List (Move h))
      → run s ms ≡ some t
      → s.generation < u64_max
      → t.generation ≡ s.generation
      → lifecycle s ≡ lifecycle t
  unfolding run
  run_same_generation s t [] e r g = ground arith
  run_same_generation s t (m ∷ ms) e r g = elim (Option-cases (step s m)) [
    | inl fails ↦ absurd (cc (rw (fails, run) at e))
    | inr (u, to) ↦
        let e' : run u ms ≡ some t = rw (to, run) at e in
        let first = step_mono s u m to (omega arith) in
        let rest = run_mono u t ms e' first.1 in
        let same : u.generation ≡ s.generation = omega (arith, first, rest) in
        step_same s u m to r same ∙ run_same_generation u t ms e' (omega arith) (omega arith)
  ]
