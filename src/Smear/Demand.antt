-- ===== src/Smear/Demand.antt =====
-- The queue of external demands: smear-cursor/src/core/state/ingress.rs. `S` is the type of the
-- surface captured at ingress, which the queue carries and never reads.

pub mod Laws
pub mod Drain
use dotfiles_nix.Base.{
  ℕ, ◌+◌, List, [], ◌∷◌, Bool, true, false, Option, none, some, is_some, leb, if◌then◌else◌,
}
use dotfiles_nix.Smear.Types.{next}
use dotfiles_nix.Smear.Policy.{BufferPerfClass}

pub data ExternalDemandKind : Type 0 where
  external_cursor mode_changed buffer_entered boundary_refresh : ExternalDemandKind

pub ExternalDemandKind-discrete : Discrete ExternalDemandKind
ExternalDemandKind-discrete = hlevel

abbrev pub all_kinds : List ExternalDemandKind
all_kinds = external_cursor ∷ mode_changed ∷ buffer_entered ∷ boundary_refresh ∷ []

unfoldable pub is_cursor : ExternalDemandKind → Bool
is_cursor external_cursor = true
is_cursor _ = false

pub record ExternalDemand : Type 0 where
  pub seq : ℕ
  pub kind : ExternalDemandKind
  pub observed_at : ℕ
  pub buffer_perf_class : BufferPerfClass

pub record EntropyState : Type 0 where
  pub next_proposal_id : ℕ
  pub next_ingress_seq : ℕ

unfoldable pub default_entropy : EntropyState
default_entropy = record { next_proposal_id = 0; next_ingress_seq = 0 }

unfoldable pub allocate_proposal_id : EntropyState → EntropyState × ℕ
unfolding next
allocate_proposal_id e =
    let id = next e.next_proposal_id in (record e { next_proposal_id = id }, id)

unfoldable pub allocate_ingress_seq : EntropyState → EntropyState × ℕ
unfolding next
allocate_ingress_seq e =
    let seq = next e.next_ingress_seq in (record e { next_ingress_seq = seq }, seq)

pub record QueuedDemand (S : Type 0) : Type 0 where
  pub demand : ExternalDemand
  pub ingress_observation_surface : Option S

pub record DemandSlots (S : Type 0) : Type 0 where
  pub latest_cursor : Option (QueuedDemand S)
  pub latest_mode_changed : Option (QueuedDemand S)
  pub latest_buffer_entered : Option (QueuedDemand S)
  pub latest_boundary_refresh : Option (QueuedDemand S)

pub record DemandQueue (S : Type 0) : Type 0 where
  pub slots : DemandSlots S

abbrev count : Bool → ℕ
count true = 1
count false = 0

module _ {S : Type 0} where
  unfoldable pub default_queue : DemandQueue S
  default_queue = record {
    slots = record {
      latest_cursor = none;
      latest_mode_changed = none;
      latest_buffer_entered = none;
      latest_boundary_refresh = none;
    };
  }

  unfoldable pub get : DemandSlots S → ExternalDemandKind → Option (QueuedDemand S)
  get s external_cursor = s.latest_cursor
  get s mode_changed = s.latest_mode_changed
  get s buffer_entered = s.latest_buffer_entered
  get s boundary_refresh = s.latest_boundary_refresh

  -- A write through `get_mut`.
  unfoldable pub set_slot :
      DemandSlots S → ExternalDemandKind → Option (QueuedDemand S) → DemandSlots S
  set_slot s external_cursor d = record s { latest_cursor = d }
  set_slot s mode_changed d = record s { latest_mode_changed = d }
  set_slot s buffer_entered d = record s { latest_buffer_entered = d }
  set_slot s boundary_refresh d = record s { latest_boundary_refresh = d }

  unfoldable pub insert : DemandSlots S → QueuedDemand S → DemandSlots S × Bool
  unfolding get set_slot
  insert s d = (set_slot s d.demand.kind (some d), is_some (get s d.demand.kind))

  unfoldable pub take_slot :
      DemandSlots S → ExternalDemandKind → DemandSlots S × Option (QueuedDemand S)
  unfolding get set_slot
  take_slot s kind = (set_slot s kind none, get s kind)

  unfoldable pub pending_len : DemandQueue S → ℕ
  pending_len q =
      count (is_some q.slots.latest_cursor)
      + count (is_some q.slots.latest_mode_changed)
      + count (is_some q.slots.latest_buffer_entered)
      + count (is_some q.slots.latest_boundary_refresh)

  unfoldable pub queued : DemandQueue S → ExternalDemandKind → Option (QueuedDemand S)
  unfolding get
  queued q kind = get q.slots kind

  unfoldable pub enqueue : DemandQueue S → QueuedDemand S → DemandQueue S × Bool
  unfolding insert
  enqueue q d = let (slots, coalesced) = insert q.slots d in (record q { slots = slots }, coalesced)

  -- `filter_map` over the kinds, with the sequence numbers.
  unfoldable pub ready_kinds :
      DemandQueue S → List ExternalDemandKind → List (ExternalDemandKind × ℕ)
  ready_kinds q [] = []
  ready_kinds q (kind ∷ kinds) =
      let rest = ready_kinds q kinds in
      elim (queued q kind) [ none ↦ rest | some d ↦ (kind, d.demand.seq) ∷ rest ]

-- The fold of `Iterator::min_by_key`: of equal keys the first one stays.
unfoldable pub min_by_key :
    ExternalDemandKind × ℕ → List (ExternalDemandKind × ℕ) → ExternalDemandKind × ℕ
min_by_key best [] = best
min_by_key best (x ∷ xs) = min_by_key (if leb best.1 x.1 then best else x) xs

unfoldable pub first_ready : List (ExternalDemandKind × ℕ) → Option ExternalDemandKind
first_ready [] = none
first_ready (x ∷ xs) = some (min_by_key x xs).0

module _ {S : Type 0} where
  unfoldable pub next_ready_kind : DemandQueue S → Option ExternalDemandKind
  next_ready_kind q = first_ready (ready_kinds q all_kinds)

  unfoldable pub take_ready_demand :
      DemandQueue S → ExternalDemandKind → DemandQueue S × Option (QueuedDemand S)
  unfolding take_slot
  take_ready_demand q kind =
      let (slots, d) = take_slot q.slots kind in (record q { slots = slots }, d)

  unfoldable pub dequeue_ready : DemandQueue S → DemandQueue S × Option (QueuedDemand S)
  dequeue_ready q = elim (next_ready_kind q) [
    | none ↦ (q, none)
    | some kind ↦ take_ready_demand q kind
  ]
