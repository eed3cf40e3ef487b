-- ===== src/Smear/Demand/Drain.antt =====
-- Draining the queue of smear-cursor/src/core/state/ingress.rs: a client that dequeues until the
-- queue is empty.
use mathlib.Core.List.{Memᴰ}
use dotfiles_nix.Base.{
  ℕ, zero, suc, ◌≤◌, ◌≡◌, refl, inl, inr, List, [], ◌∷◌, Option, none, some, arith, ite, All, ◌∙◌,
  if_neg, length, subst,
}
use dotfiles_nix.Smear.Demand.{
  ExternalDemandKind, external_cursor, mode_changed, buffer_entered, boundary_refresh, QueuedDemand,
  DemandQueue, queued, pending_len, dequeue_ready, ExternalDemandKind-discrete,
}
use dotfiles_nix.Smear.Demand.Laws.{dequeue_ready_lem, IsOldest, NotOlder}

module _ {S : Type 0} where
  unfoldable pub drain : ℕ → DemandQueue S → List (QueuedDemand S)
  drain zero q = []
  drain (suc n) q =
      let rest = drain n (dequeue_ready q).0 in
      elim (dequeue_ready q).1 [ none ↦ [] | some d ↦ d ∷ rest ]

  -- In the order of their sequence numbers.
  abbrev pub InOrder : List (QueuedDemand S) → Type 0
  InOrder [] = Unit
  InOrder (d ∷ ds) = All (λ e. d.demand.seq ≤ e.demand.seq) ds × InOrder ds

  abbrev pub Waits : DemandQueue S → QueuedDemand S → Type 0
  Waits q d = (k : ExternalDemandKind) × (queued q k ≡ some d)

  abbrev pub Serves : List (QueuedDemand S) → Option (QueuedDemand S) → Type 0
  Serves ds none = Unit
  Serves ds (some d) = Memᴰ d ds

  zero-pending :
      (q : DemandQueue S) → pending_len q ≡ 0 → (k : ExternalDemandKind) → queued q k ≡ none
  unfolding pending_len queued
  zero-pending q h k = ground arith

  pending_len_of_empty :
      (q : DemandQueue S) → ((k : ExternalDemandKind) → queued q k ≡ none) → pending_len q ≡ 0
  unfolding pending_len queued
  pending_len_of_empty q h =
      ground (arith, h external_cursor, h mode_changed, h buffer_entered, h boundary_refresh)

  -- The demands of `ds` are those that wait in `q`, in order.
  pub record Drained (q : DemandQueue S) (ds : List (QueuedDemand S)) : Type 0 where
    pub in_order : InOrder ds
    pub whole : length ds ≡ pending_len q
    pub waited : All (Waits q) ds
    pub served : (k : ExternalDemandKind) → Serves ds (queued q k)

  Serves-weaken :
      (d : QueuedDemand S) (ds : List (QueuedDemand S)) (o : Option (QueuedDemand S))
      → Serves ds o
      → Serves (d ∷ ds) o
  Serves-weaken d ds none h = tt
  Serves-weaken d ds (some e) h = Memᴰ.tail h

  module _ (q : DemandQueue S) (k : ExternalDemandKind) (d : QueuedDemand S)
      (found : queued q k ≡ some d) (old : IsOldest q d)
      (kept : (j : ExternalDemandKind)
        → queued (dequeue_ready q).0 j
          ≡ ite (ExternalDemandKind-discrete k j) none (queued q j)) where
    still : (e : QueuedDemand S) → Waits (dequeue_ready q).0 e → Waits q e
    still e (j, h) = (j, ground (arith, kept j))

    still_All : (ds : List (QueuedDemand S)) → All (Waits (dequeue_ready q).0) ds → All (Waits q) ds
    still_All [] h = tt
    still_All (e ∷ ds) h = (still e h.0, still_All ds h.1)

    older : (e : QueuedDemand S) → Waits q e → d.demand.seq ≤ e.demand.seq
    older e (j, h) = subst (NotOlder d) h (old j)

    older_All :
        (ds : List (QueuedDemand S))
        → All (Waits (dequeue_ready q).0) ds
        → All (λ e. d.demand.seq ≤ e.demand.seq) ds
    older_All [] h = tt
    older_All (e ∷ ds) h = (older e (still e h.0), older_All ds h.1)

    Serves-cons :
        (ds : List (QueuedDemand S)) (j : ExternalDemandKind)
        → Serves ds (queued (dequeue_ready q).0 j)
        → Serves (d ∷ ds) (queued q j)
    Serves-cons ds j h = elim (ExternalDemandKind-discrete k j) [
      | yes p ↦ rw (subst (λ i. queued q i ≡ some d) p found, Serves) (Memᴰ.head refl)
      | no n ↦
          Serves-weaken d ds (queued q j)
            (subst (Serves ds) (kept j ∙ if_neg (ExternalDemandKind-discrete k j) n _ _) h)
    ]

  drain-Drained : (n : ℕ) (q : DemandQueue S) → pending_len q ≡ n → Drained q (drain n q)
  unfolding drain
  drain-Drained zero q e = record {
    in_order = tt;
    whole = omega arith;
    waited = tt;
    served = λ k. rw (zero-pending q e k, Serves) tt;
  }
  drain-Drained (suc n) q e = elim (dequeue_ready_lem q) [
    | inl (empty, _) ↦ absurd (omega (arith, e, pending_len_of_empty q empty))
    | inr (k, d, found, old, out, kept, len) ↦
        let ds = drain n (dequeue_ready q).0 in
        let rest = drain-Drained n (dequeue_ready q).0 (omega arith) in
        rw (out, drain)
          (record {
            in_order = (older_All q k d found old kept ds rest.waited, rest.in_order);
            whole = omega (arith, rest.whole);
            waited = ((k, found), still_All q k d found old kept ds rest.waited);
            served = λ j. Serves-cons q k d found old kept ds j (rest.served j);
          })
  ]

  -- Dequeuing `pending_len` times returns as many demands, every one that is queued and no other,
  -- in the order of the sequence numbers.
  pub drain_lem : (q : DemandQueue S) → Drained q (drain (pending_len q) q)
  drain_lem q = drain-Drained (pending_len q) q refl
