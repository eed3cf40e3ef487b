-- ===== src/Smear/Demand/Laws.antt =====
-- The order in which the queue of smear-cursor/src/core/state/ingress.rs hands demands out.
use mathlib.Core.List.{Memᴰ}
use dotfiles_nix.Base.{
  ite, ℕ, suc, ◌+◌, ◌≤◌, ◌≡◌, refl, ◌⊎◌, inl, inr, List, [], ◌∷◌, Option, none, some, is_some,
  arith, Option-cases, Bool-cases, leb, if◌then◌else◌,
}
use dotfiles_nix.Smear.Demand.{
  ExternalDemandKind, external_cursor, mode_changed, buffer_entered, boundary_refresh, all_kinds,
  ExternalDemandKind-discrete, QueuedDemand, DemandQueue, queued, pending_len, enqueue, ready_kinds,
  min_by_key, first_ready, next_ready_kind, take_ready_demand, dequeue_ready,
}

module _ {S : Type 0} where
  -- After `enqueue` the demand is the one queued for its kind and no other kind is touched; it is
  -- reported as coalesced exactly when it replaced one, and otherwise the queue grows by one.
  enqueue_lem :
      (q : DemandQueue S) (d : QueuedDemand S) (k : ExternalDemandKind)
      → let (r, coalesced) = enqueue q d in
        (queued r k ≡ ite (ExternalDemandKind-discrete d.demand.kind k) (some d) (queued q k))
        × (coalesced ≡ is_some (queued q d.demand.kind))
        × (pending_len r ≡ (if coalesced then pending_len q else pending_len q + 1))
  unfolding enqueue queued pending_len
  enqueue_lem q d k = (ground arith, ground arith, ground arith)

-- What is queued, if anything, is not older than `d`.
abbrev pub NotOlder : {S : Type 0} → QueuedDemand S → Option (QueuedDemand S) → Type 0
NotOlder d none = Unit
NotOlder d (some e) = d.demand.seq ≤ e.demand.seq

abbrev Entry : Type 0
Entry = ExternalDemandKind × ℕ

-- `x` is one of the entries, and none has a smaller key.
abbrev IsLeast : Entry → List Entry → Type 0
IsLeast x xs = Memᴰ x xs × ((y : Entry) → Memᴰ y xs → x.1 ≤ y.1)

IsLeast-keep :
    (r best x : Entry) (xs : List Entry)
    → best.1 ≤ x.1
    → IsLeast r (best ∷ xs)
    → IsLeast r (best ∷ x ∷ xs)
IsLeast-keep r best x xs le (m, least) = (member m, below)
  where
    member : Memᴰ r (best ∷ xs) → Memᴰ r (best ∷ x ∷ xs)
    member (Memᴰ.head e) = Memᴰ.head e
    member (Memᴰ.tail t) = Memᴰ.tail (Memᴰ.tail t)

    below : (y : Entry) → Memᴰ y (best ∷ x ∷ xs) → r.1 ≤ y.1
    below y (Memᴰ.head e) = least y (Memᴰ.head e)
    below y (Memᴰ.tail (Memᴰ.head e)) = rw e (omega (arith, least best (Memᴰ.head refl)))
    below y (Memᴰ.tail (Memᴰ.tail t)) = least y (Memᴰ.tail t)

IsLeast-replace :
    (r best x : Entry) (xs : List Entry)
    → x.1 ≤ best.1
    → IsLeast r (x ∷ xs)
    → IsLeast r (best ∷ x ∷ xs)
IsLeast-replace r best x xs le (m, least) = (Memᴰ.tail m, below)
  where
    below : (y : Entry) → Memᴰ y (best ∷ x ∷ xs) → r.1 ≤ y.1
    below y (Memᴰ.head e) = rw e (omega (arith, least x (Memᴰ.head refl)))
    below y (Memᴰ.tail t) = least y t

min_by_key-IsLeast : (best : Entry) (xs : List Entry) → IsLeast (min_by_key best xs) (best ∷ xs)
unfolding min_by_key
min_by_key-IsLeast best [] = (Memᴰ.head refl, only)
  where
    only : (y : Entry) → Memᴰ y (best ∷ []) → best.1 ≤ y.1
    only y (Memᴰ.head e) = rw e (omega arith)
    only y (Memᴰ.tail t) = elim t [ ]
min_by_key-IsLeast best (x ∷ xs) =
    let kept = min_by_key-IsLeast best xs in
    let replaced = min_by_key-IsLeast x xs in
    elim (Bool-cases (leb best.1 x.1)) [
      | inl e ↦ rw (e, min_by_key) (IsLeast-keep (min_by_key best xs) best x xs (ground arith) kept)
      | inr e ↦
          rw (e, min_by_key) (IsLeast-replace (min_by_key x xs) best x xs (ground arith) replaced)
    ]

module _ {S : Type 0} (q : DemandQueue S) where
  mem-ready_kinds :
      (kinds : List ExternalDemandKind) (k : ExternalDemandKind) (d : QueuedDemand S)
      → queued q k ≡ some d
      → Memᴰ k kinds
      → Memᴰ (k, d.demand.seq) (ready_kinds q kinds)
  unfolding ready_kinds
  mem-ready_kinds [] k d e m = elim m [ ]
  mem-ready_kinds (j ∷ kinds) k d e (Memᴰ.head p) =
      let e' : queued q j ≡ some d = rw p at e in rw (e', p, ready_kinds) (Memᴰ.head refl)
  mem-ready_kinds (j ∷ kinds) k d e (Memᴰ.tail m) =
      let rest = mem-ready_kinds kinds k d e m in
      elim (Option-cases (queued q j)) [
        | inl e' ↦ rw (e', ready_kinds) rest
        | inr (_, e') ↦ rw (e', ready_kinds) (Memᴰ.tail rest)
      ]

  abbrev IsQueued : Entry → Type 0
  IsQueued x = (d : QueuedDemand S) × (queued q x.0 ≡ some d) × (x.1 ≡ d.demand.seq)

  ready_kinds-IsQueued :
      (kinds : List ExternalDemandKind) (x : Entry) → Memᴰ x (ready_kinds q kinds) → IsQueued x
  unfolding ready_kinds
  ready_kinds-IsQueued [] x m = elim m [ ]
  ready_kinds-IsQueued (j ∷ kinds) x m = elim (Option-cases (queued q j)) [
    | inl e ↦ ready_kinds-IsQueued kinds x (rw (e, ready_kinds) at m)
    | inr (d, e) ↦ split (ready_kinds-IsQueued kinds x) d e (rw (e, ready_kinds) at m)
  ]
    where
      split :
          (Memᴰ x (ready_kinds q kinds) → IsQueued x)
          → (d : QueuedDemand S) → queued q j ≡ some d
          → Memᴰ x ((j, d.demand.seq) ∷ ready_kinds q kinds)
          → IsQueued x
      split later d e (Memᴰ.head p) = (d, rw p e, rw p)
      split later d e (Memᴰ.tail t) = later t

  mem-all_kinds : (k : ExternalDemandKind) → Memᴰ k all_kinds
  mem-all_kinds external_cursor = Memᴰ.head refl
  mem-all_kinds mode_changed = Memᴰ.tail (Memᴰ.head refl)
  mem-all_kinds buffer_entered = Memᴰ.tail (Memᴰ.tail (Memᴰ.head refl))
  mem-all_kinds boundary_refresh = Memᴰ.tail (Memᴰ.tail (Memᴰ.tail (Memᴰ.head refl)))

  -- No demand that is queued is older.
  abbrev pub IsOldest : QueuedDemand S → Type 0
  IsOldest d = (j : ExternalDemandKind) → NotOlder d (queued q j)

  abbrev Choice : Type 0
  Choice =
      ((next_ready_kind q ≡ none) × ((k : ExternalDemandKind) → queued q k ≡ none))
      ⊎ ((k : ExternalDemandKind) × (d : QueuedDemand S) × (next_ready_kind q ≡ some k)
          × (queued q k ≡ some d)
          × IsOldest d)

  choice_of : (xs : List Entry) → ready_kinds q all_kinds ≡ xs → Choice
  unfolding next_ready_kind first_ready
  choice_of [] e = inl (rw (e, first_ready), missing)
    where
      missing : (k : ExternalDemandKind) → queued q k ≡ none
      missing k = elim (Option-cases (queued q k)) [
        | inl h ↦ h
        | inr (d, h) ↦
            absurd (elim (rw e at (mem-ready_kinds all_kinds k d h (mem-all_kinds k))) [ ])
      ]
  choice_of (x ∷ xs) e =
      let (d, found, seq) = ready_kinds-IsQueued all_kinds best (rw e (least.0)) in
      inr (best.0, d, rw (e, first_ready), found, oldest d seq)
    where
      best : Entry
      best = min_by_key x xs

      least : IsLeast best (x ∷ xs)
      least = min_by_key-IsLeast x xs

      oldest : (d : QueuedDemand S) → best.1 ≡ d.demand.seq → IsOldest d
      oldest d seq j = elim (Option-cases (queued q j)) [
        | inl h ↦ rw (h, NotOlder) tt
        | inr (f, h) ↦
            rw (h, NotOlder)
              (omega (
                arith,
                seq,
                least.1 (j, f.demand.seq)
                    (rw e at (mem-ready_kinds all_kinds j f h (mem-all_kinds j))),
              ))
      ]

  next_ready_kind-Choice : Choice
  next_ready_kind-Choice = choice_of (ready_kinds q all_kinds) refl

  -- What `dequeue_ready` returns: nothing from an empty queue, or an oldest demand, whose slot
  -- alone is freed.
  abbrev pub Dequeued : Type 0
  Dequeued =
      (((k : ExternalDemandKind) → queued q k ≡ none) × (dequeue_ready q ≡ (q, none)))
      ⊎ ((k : ExternalDemandKind) × (d : QueuedDemand S) × (queued q k ≡ some d)
          × IsOldest d
          × ((dequeue_ready q).1 ≡ some d)
          × ((j : ExternalDemandKind)
              → queued (dequeue_ready q).0 j
                ≡ ite (ExternalDemandKind-discrete k j) none (queued q j))
          × (pending_len q ≡ suc (pending_len (dequeue_ready q).0)))

  taken :
      (k : ExternalDemandKind) (d : QueuedDemand S)
      → queued q k ≡ some d
      → let (r, o) = take_ready_demand q k in
        (o ≡ some d)
        × ((j : ExternalDemandKind)
            → queued r j ≡ ite (ExternalDemandKind-discrete k j) none (queued q j))
        × (pending_len q ≡ suc (pending_len r))
  unfolding take_ready_demand queued pending_len
  taken k d h = (ground arith, λ j. ground arith, ground arith)

  -- `dequeue_ready` leaves an empty queue as it was; from any other it takes a demand with the
  -- least sequence number of all that are queued, frees its slot, and touches no other.
  pub dequeue_ready_lem : Dequeued
  unfolding dequeue_ready
  dequeue_ready_lem = elim next_ready_kind-Choice [
    | inl (e, empty) ↦ inl (empty, rw (e, dequeue_ready))
    | inr (k, d, e, h, old) ↦
        let (out, kept, len) = taken k d h in
        inr (
          k,
          d,
          h,
          old,
          rw (e, dequeue_ready) out,
          (λ j. rw (e, dequeue_ready) (kept j)),
          rw (e, dequeue_ready) len,
        )
  ]
