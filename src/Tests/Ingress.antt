-- ===== src/Tests/Ingress.antt =====
-- The queue of demands, the timers and the probes of smear-cursor at concrete inputs.
use dotfiles_nix.Base.{
  ℕ, ◌≡◌, ◌≤◌, refl, Bool, List, [], ◌∷◌, length, get_elem?, some, true, false, arith,
}
use dotfiles_nix.Base.Words.{u64_max}
use dotfiles_nix.Smear.Probe.Mask.{BackgroundProbeChunkMask, from_allowed_mask, packed_len_for, get}
use dotfiles_nix.Smear.Probe.Packing.{get-from_allowed_mask}
use dotfiles_nix.Smear.Types.{TimerId, animation, ingress, recovery, cleanup, TimerToken}
use dotfiles_nix.Smear.Timers.{TimerState, default_timers, slot, arm, is_active}
use dotfiles_nix.Smear.Timers.Laws.{arms, clears, run, stale_token-run}
use dotfiles_nix.Smear.Policy.{full}
use dotfiles_nix.Smear.Demand.{
  ExternalDemandKind, external_cursor, mode_changed, QueuedDemand, DemandQueue, default_queue,
  enqueue, queued, pending_len, dequeue_ready, next_ready_kind, first_ready, ready_kinds,
  take_ready_demand, min_by_key,
}
use dotfiles_nix.Smear.Demand.Drain.{drain, drain_lem, Drained}

abbrev demand_of : ExternalDemandKind → ℕ → QueuedDemand ℕ
demand_of kind seq = record {
  demand = record { seq = seq; kind = kind; observed_at = 10; buffer_perf_class = full };
  ingress_observation_surface = some 7;
}

abbrev mode_demand : QueuedDemand ℕ
mode_demand = demand_of mode_changed 4

abbrev cursor_demand : QueuedDemand ℕ
cursor_demand = demand_of external_cursor 5

abbrev two_demands : DemandQueue ℕ
two_demands = (enqueue (enqueue default_queue cursor_demand).0 mode_demand).0

two_demands-pending_len : pending_len two_demands ≡ 2
unfolding pending_len enqueue default_queue
two_demands-pending_len = refl

two_demands-first : (dequeue_ready two_demands).1 ≡ some mode_demand
unfolding dequeue_ready enqueue default_queue next_ready_kind first_ready ready_kinds queued
    take_ready_demand min_by_key
two_demands-first = refl

two_demands-drain : drain 2 two_demands ≡ mode_demand ∷ cursor_demand ∷ []
unfolding drain dequeue_ready enqueue default_queue next_ready_kind first_ready ready_kinds queued
    take_ready_demand min_by_key
two_demands-drain = refl

drain_lem_example : Drained two_demands (drain (pending_len two_demands) two_demands)
drain_lem_example = drain_lem two_demands

abbrev armed_once : TimerState
armed_once = (arm default_timers ingress).0

abbrev first_token : TimerToken
first_token = record { id = ingress; generation = 1 }

in_range : (j : TimerId) → (slot armed_once j).generation ≤ u64_max
unfolding arm default_timers slot
in_range animation = omega arith
in_range ingress = omega arith
in_range recovery = omega arith
in_range cleanup = omega arith

first_token-active : is_active armed_once first_token ≡ true
unfolding is_active arm default_timers
first_token-active = refl

stale_token-run_example :
    is_active
      (run (arm armed_once ingress).0 (arms recovery ∷ clears ingress ∷ arms ingress ∷ []))
      first_token
    ≡ false
unfolding arm default_timers slot
stale_token-run_example =
    stale_token-run armed_once (arms recovery ∷ clears ingress ∷ arms ingress ∷ []) first_token
      in_range (omega arith) (omega arith)

abbrev fifth : ℕ
fifth = 5

abbrev three_cells : List Bool
three_cells = true ∷ false ∷ true ∷ []

get-from_allowed_mask_example :
    (m : BackgroundProbeChunkMask) × (from_allowed_mask three_cells ≡ some m)
    × (m.cell_count ≡ 3)
    × (length m.packed ≡ packed_len_for 3)
    × ((i : ℕ) → get m i ≡ get_elem? three_cells i)
get-from_allowed_mask_example = get-from_allowed_mask three_cells (omega arith)
