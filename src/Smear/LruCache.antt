-- ===== src/Smear/LruCache.antt =====
-- The least-recently-used cache of smear-cursor/src/events/lru_cache.rs: a doubly linked list whose
-- nodes stand in a vector. `none` of `allocate_node` and `insert` is an index out of range, where
-- the source panics; `len` is a `usize`.
pub mod Links
pub mod Relinking
pub mod Detaching
pub mod Cells
pub mod Rep
pub mod Moving
pub mod Removing
pub mod Slots
pub mod Allocating
pub mod Inserting
pub mod Reading
pub mod Collecting
pub mod Sweeping
pub mod Runs
use dotfiles_nix.Base.{
  ℕ, zero, suc, ◌+◌, ◌-◌, ◌%◌, ◌^◌, Bool, true, false, List, [], ◌∷◌, ◌++◌, Option, none, some,
  length, leb, ◌==◌, if◌then◌else◌,
}
use dotfiles_nix.Base.Words.{saturating_sub}
use dotfiles_nix.Base.Maps
use mathlib.Core.Option
use dotfiles_nix.Base.Maps.{Map}

pub record LruCacheNode (K V : Type 0) : Type 0 where
  pub key : K
  pub value : V
  pub prev : Option ℕ
  pub next : Option ℕ

-- The last of `free_indices` stands first here.
pub record LruCache (K V : Type 0) : Type 0 where
  pub nodes : List (Option (LruCacheNode K V))
  pub free_indices : List ℕ
  pub indices_by_key : Map K ℕ
  pub head : Option ℕ
  pub tail : Option ℕ
  pub len : ℕ
  pub capacity : ℕ

-- The end of the list where there is no neighbour.
abbrev pub or_end : Option ℕ → Option ℕ → Option ℕ → Option ℕ
or_end none end_now end_next = end_next
or_end (some neighbour) end_now end_next = end_now

abbrev pub is_index : Option ℕ → ℕ → Bool
is_index none index = false
is_index (some i) index = i == index

module _ {K V : Type 0} where
  unfoldable pub new : ℕ → LruCache K V
  new capacity = record {
    nodes = [];
    free_indices = [];
    indices_by_key = [];
    head = none;
    tail = none;
    len = 0;
    capacity = capacity;
  }

  unfoldable pub clear : LruCache K V → LruCache K V
  clear c = record c {
    nodes = [];
    free_indices = [];
    indices_by_key = [];
    head = none;
    tail = none;
    len = 0;
  }

  -- `nodes.get(index).and_then(Option::as_ref)`.
  abbrev pub node_at : List (Option (LruCacheNode K V)) → ℕ → Option (LruCacheNode K V)
  node_at [] index = none
  node_at (slot ∷ slots) zero = slot
  node_at (slot ∷ slots) (suc index) = node_at slots index

  -- A write through `nodes.get_mut(index).and_then(Option::as_mut)`.
  abbrev pub update_node :
      (LruCacheNode K V → LruCacheNode K V)
      → List (Option (LruCacheNode K V))
      → ℕ
      → List (Option (LruCacheNode K V))
  update_node f [] index = []
  update_node f (none ∷ slots) zero = none ∷ slots
  update_node f (some n ∷ slots) zero = some (f n) ∷ slots
  update_node f (slot ∷ slots) (suc index) = slot ∷ update_node f slots index

  -- The write at a neighbour, where there is one.
  abbrev pub update_at :
      (LruCacheNode K V → LruCacheNode K V)
      → List (Option (LruCacheNode K V))
      → Option ℕ
      → List (Option (LruCacheNode K V))
  update_at f slots none = slots
  update_at f slots (some index) = update_node f slots index

  abbrev pub set_next : Option ℕ → LruCacheNode K V → LruCacheNode K V
  set_next next n = record n { next = next }

  abbrev pub set_prev : Option ℕ → LruCacheNode K V → LruCacheNode K V
  set_prev prev n = record n { prev = prev }

  abbrev pub unlink : LruCacheNode K V → LruCacheNode K V
  unlink n = record n { prev = none; next = none }

  -- `detach` of a node that is there.
  unfoldable pub detach_node : LruCache K V → ℕ → LruCacheNode K V → LruCache K V
  detach_node c index n = record c {
    nodes =
        update_node unlink
          (update_at (set_prev n.prev) (update_at (set_next n.next) c.nodes n.prev) n.next) index;
    head = or_end n.prev c.head n.next;
    tail = or_end n.next c.tail n.prev;
  }

  unfoldable pub detach : LruCache K V → ℕ → LruCache K V
  unfolding detach_node
  detach c index = elim (node_at c.nodes index) [ none ↦ c | some n ↦ detach_node c index n ]

  unfoldable pub attach_front : LruCache K V → ℕ → LruCache K V
  attach_front c index = record c {
    nodes =
        update_at (set_prev (some index))
          (update_node (λ n. record n { prev = none; next = c.head }) c.nodes index) c.head;
    head = some index;
    tail = or_end c.head c.tail (some index);
  }

  unfoldable pub move_to_front : LruCache K V → ℕ → LruCache K V
  unfolding detach attach_front
  move_to_front c index = if is_index c.head index then c else attach_front (detach c index) index

  -- `nodes[index] = slot`.
  abbrev pub write_slot :
      List (Option (LruCacheNode K V))
      → ℕ
      → Option (LruCacheNode K V)
      → Option (List (Option (LruCacheNode K V)))
  write_slot [] index slot = none
  write_slot (s ∷ slots) zero slot = some (slot ∷ slots)
  write_slot (s ∷ slots) (suc index) slot =
      Option.map (λ rest. s ∷ rest) (write_slot slots index slot)

  -- `nodes.get_mut(index)?.take()`.
  abbrev pub clear_slot : List (Option (LruCacheNode K V)) → ℕ → List (Option (LruCacheNode K V))
  clear_slot [] index = []
  clear_slot (s ∷ slots) zero = none ∷ slots
  clear_slot (s ∷ slots) (suc index) = s ∷ clear_slot slots index

  -- `allocate_node`, on the free indices.
  unfoldable pub allocate_node : LruCache K V → K → V → Option (LruCache K V × ℕ)
  allocate_node c key value =
      let node : LruCacheNode K V = record { key = key; value = value; prev = none; next = none } in
      elim c.free_indices [
        | index ∷ free ↦
            Option.map (λ nodes. (record c { nodes = nodes; free_indices = free }, index))
              (write_slot c.nodes index (some node))
        | [] ↦ some (record c { nodes = c.nodes ++ some node ∷ [] }, length c.nodes)
      ]

  -- The indices that `remove_where` collects, from an index on.
  unfoldable pub matching_from : (K → V → Bool) → ℕ → List (Option (LruCacheNode K V)) → List ℕ
  matching_from p index [] = []
  matching_from p index (none ∷ slots) = matching_from p (suc index) slots
  matching_from p index (some n ∷ slots) =
      let rest = matching_from p (suc index) slots in if p n.key n.value then index ∷ rest else rest

module _ {K V : Type 0} (dec : Discrete K) where
  -- The rest of `remove_node` where the node is there.
  unfoldable pub take_node : LruCache K V → ℕ → LruCacheNode K V → LruCache K V
  take_node c index n = record c {
    nodes = clear_slot c.nodes index;
    indices_by_key = Maps.remove dec n.key c.indices_by_key;
    free_indices = index ∷ c.free_indices;
    len = saturating_sub c.len 1;
  }

  unfoldable pub remove_node : LruCache K V → ℕ → LruCache K V × Option (LruCacheNode K V)
  unfolding detach take_node
  remove_node c index =
      let d = detach c index in
      elim (node_at d.nodes index) [ none ↦ (d, none) | some n ↦ (take_node d index n, some n) ]

  unfoldable pub remove : LruCache K V → K → LruCache K V × Option V
  unfolding remove_node
  remove c key = elim (Maps.get dec key c.indices_by_key) [
    | none ↦ (c, none)
    | some index ↦ let (d, node) = remove_node c index in (d, Option.map (λ n. n.value) node)
  ]

  unfoldable pub remove_nodes : LruCache K V → List ℕ → LruCache K V
  unfolding remove_node
  remove_nodes c [] = c
  remove_nodes c (index ∷ indices) = remove_nodes (remove_node c index).0 indices

  unfoldable pub remove_where : LruCache K V → (K → V → Bool) → LruCache K V × ℕ
  unfolding remove_nodes matching_from
  remove_where c p =
      let indices = matching_from p 0 c.nodes in (remove_nodes c indices, length indices)

  -- Room for one more entry: the last one is removed from a full cache.
  unfoldable pub evict : LruCache K V → LruCache K V
  unfolding remove_node
  evict c =
      if leb c.capacity c.len
      then elim c.tail [ none ↦ c | some index ↦ (remove_node c index).0 ]
      else c

  -- The end of `insert`, at the node that was allocated.
  unfoldable pub enter : LruCache K V → ℕ → LruCache K V
  unfolding attach_front
  enter c index = elim (node_at c.nodes index) [
    | none ↦ c
    | some n ↦
        let d = attach_front c index in
        record d {
          indices_by_key = Maps.insert dec n.key index d.indices_by_key;
          len = (d.len + 1) % 2 ^ 64;
        }
  ]

  unfoldable pub insert : LruCache K V → K → V → Option (LruCache K V)
  unfolding move_to_front evict allocate_node enter
  insert c key value = elim (Maps.get dec key c.indices_by_key) [
    | some index ↦
        let d = record c { nodes = update_node (λ n. record n { value = value }) c.nodes index } in
        some (move_to_front d index)
    | none ↦ Option.map (λ r. enter r.0 r.1) (allocate_node (evict c) key value)
  ]

  -- `peek_copy`.
  unfoldable pub peek : LruCache K V → K → Option V
  peek c key = elim (Maps.get dec key c.indices_by_key) [
    | none ↦ none
    | some index ↦ Option.map (λ n. n.value) (node_at c.nodes index)
  ]

  -- `get_cloned` and `get_copy`.
  unfoldable pub get : LruCache K V → K → LruCache K V × Option V
  unfolding move_to_front
  get c key = elim (Maps.get dec key c.indices_by_key) [
    | none ↦ (c, none)
    | some index ↦ elim (node_at c.nodes index) [
      | none ↦ (c, none)
      | some n ↦ (move_to_front c index, some n.value)
    ]
  ]
