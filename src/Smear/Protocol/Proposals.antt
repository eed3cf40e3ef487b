-- ===== src/Smear/Protocol/Proposals.antt =====
-- Proposals of smear-cursor/src/core/state/protocol.rs: they are matched by identity.
use dotfiles_nix.Base.{
  ℕ, ◌+◌, ◌≤◌, ◌≡◌, refl, ◌⊎◌, inl, inr, Bool, true, false, Option, none, some, arith, ◌==◌,
  Bool-cases,
}
use dotfiles_nix.Base.Words.{u64_max}
use dotfiles_nix.Smear.Protocol.Phase.{Parts, ProtocolPhase, idle, ready, planning, applying}
use dotfiles_nix.Smear.Protocol.Core.{CoreState, PlannedRender, move_to}
use dotfiles_nix.Smear.Protocol.Moves.{
  enter_planning, take_pending_proposal, accept_planned_render_mut, allocate_proposal_id,
}

module _ {h : Parts} where
  -- The proposal `id` is being applied, over the observation `o`.
  abbrev pub InFlight : CoreState h → ℕ → h.Observation → h.Proposal → Type 0
  InFlight s id o q = (s.protocol.phase ≡ applying o q) × (h.proposal_id q ≡ id)

  abbrev pub Taken : CoreState h → ℕ → CoreState h × Option h.Proposal → Type 0
  Taken s id r =
      ((o : h.Observation) × (q : h.Proposal) × InFlight s id o q
        × (r.1 ≡ some q)
        × (r.0.protocol.phase ≡ ready o))
      ⊎ (((o : h.Observation) (q : h.Proposal) → ¬ InFlight s id o q) × (r ≡ (s, none)))

  take_phase :
      (s : CoreState h) (id : ℕ) (p : ProtocolPhase h)
      → s.protocol.phase ≡ p
      → Taken s id (take_pending_proposal s id)
  unfolding take_pending_proposal
  take_phase s id (applying o q) e = elim (Bool-cases (h.proposal_id q == id)) [
    | inl y ↦ inl (o, q, (e, ground arith), ground arith, ground arith)
    | inr n ↦ inr ((λ o' q' f. ground arith), ground arith)
  ]
  take_phase s id idle e = inr ((λ o q f. ground arith), ground arith)
  take_phase s id _ e = inr ((λ o q f. ground arith), ground arith)

  -- `take_pending_proposal` returns the proposal that is being applied if it has the identity asked
  -- for, and is ready again over the same observation; for any other identity, and in any other
  -- phase, it returns nothing and changes nothing.
  pub take_pending_proposal_lem :
      (s : CoreState h) (id : ℕ) → Taken s id (take_pending_proposal s id)
  take_pending_proposal_lem s id = take_phase s id s.protocol.phase refl

  -- A plan for the identity is awaited, over the observation `o`.
  abbrev pub Awaits : CoreState h → ℕ → h.Observation → Type 0
  Awaits s id o = s.protocol.phase ≡ planning o id

  abbrev pub Accepted : CoreState h → PlannedRender h → CoreState h × Bool → Type 0
  Accepted s r t =
      ((o : h.Observation) × Awaits s (h.proposal_id r.proposal) o
        × (t.1 ≡ true)
        × (t.0.protocol.phase ≡ applying o r.proposal)
        × ((t.0.payload.semantics, t.0.payload.projection)
            ≡ h.apply_update r.scene_update s.payload.semantics s.payload.projection))
      ⊎ (((o : h.Observation) → ¬ Awaits s (h.proposal_id r.proposal) o) × (t ≡ (s, false)))

  accept_phase :
      (s : CoreState h) (r : PlannedRender h) (p : ProtocolPhase h)
      → s.protocol.phase ≡ p
      → Accepted s r (accept_planned_render_mut s r)
  unfolding accept_planned_render_mut
  accept_phase s r (planning o id) e = elim (Bool-cases (id == h.proposal_id r.proposal)) [
    | inl y ↦ inl (o, ground arith, ground arith, ground arith, ground arith)
    | inr n ↦ inr ((λ o' f. ground arith), ground arith)
  ]
  accept_phase s r idle e = inr ((λ o f. ground arith), ground arith)
  accept_phase s r _ e = inr ((λ o f. ground arith), ground arith)

  -- A computed plan is applied, and the scene updated, only if it is the one that is awaited; any
  -- other plan, and a plan that comes in any other phase, is refused and changes nothing.
  pub accept_planned_render_mut_lem :
      (s : CoreState h) (r : PlannedRender h) → Accepted s r (accept_planned_render_mut s r)
  accept_planned_render_mut_lem s r = accept_phase s r s.protocol.phase refl

  -- From readiness, with room for three more generations, a proposal that carries the next identity
  -- goes round: planned under that identity, accepted and taken, it is returned, the state is ready
  -- over the same observation, and three generations have passed.
  pub proposal_cycle :
      (s : CoreState h) (o : h.Observation) (r : PlannedRender h)
      → s.protocol.phase ≡ ready o
      → s.generation + 3 ≤ u64_max
      → h.proposal_id r.proposal ≡ (allocate_proposal_id s).1
      → (t : CoreState h) × (enter_planning (allocate_proposal_id s).0 (allocate_proposal_id s).1
          ≡ some t)
        × (let u = (accept_planned_render_mut t r).0 in
            let (v, taken) = take_pending_proposal u (allocate_proposal_id s).1 in
            (taken ≡ some r.proposal)
            × (v.protocol.phase ≡ ready o)
            × (v.generation ≡ s.generation + 3))
  unfolding enter_planning accept_planned_render_mut take_pending_proposal allocate_proposal_id
  proposal_cycle s o r e room id =
      (planned, ground arith, (ground arith, ground arith, ground arith))
    where
      planned : CoreState h
      planned = move_to (allocate_proposal_id s).0 (planning o (allocate_proposal_id s).1)
