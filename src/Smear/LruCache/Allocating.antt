-- ===== src/Smear/LruCache/Allocating.antt =====
-- `allocate_node`, and the end of `insert` at the new node, of smear-cursor/src/events/lru_cache.rs.
use dotfiles_nix.Base.{
  ℕ, suc, ◌≡◌, ◌≢◌, refl, ap, ◌∙◌, List, [], ◌∷◌, ◌++◌, none, some, Absent, Distinct, All, arith,
  length, ◌<◌, ◌≤◌, ◌+◌, ◌%◌, ◌^◌,
}
use dotfiles_nix.Base.Words.{u64_max}
use dotfiles_nix.Base.Maps
use mathlib.Core.Option
use dotfiles_nix.Smear.LruCache.{
  LruCacheNode, LruCache, node_at, allocate_node, enter, attach_front,
}
use dotfiles_nix.Smear.LruCache.Links.{Cell, node_of, indices, Linked-frame}
use dotfiles_nix.Smear.LruCache.Detaching.{attach_front_lem}
use dotfiles_nix.Smear.LruCache.Cells.{cell_keys, pairs}
use dotfiles_nix.Smear.LruCache.Rep.{Rep, IsFree}
use dotfiles_nix.Smear.LruCache.Moving.{attach_front-Moved, IsFree-kept, still_none}
use dotfiles_nix.Smear.LruCache.Slots.{
  pushed_last, pushed_others, written, still-IsFree, fresh-Absent, same_outside,
}

-- A node was put in a free slot.
pub record Allocated {K V : Type 0} (c d : LruCache K V) (i : ℕ) (n : LruCacheNode K V)
    : Type 0 where
  pub head : d.head ≡ c.head
  pub tail : d.tail ≡ c.tail
  pub entries : d.indices_by_key ≡ c.indices_by_key
  pub count : d.len ≡ c.len
  pub capacity : d.capacity ≡ c.capacity
  pub here : node_at d.nodes i ≡ some n
  pub fresh : node_at c.nodes i ≡ none
  pub others : (j : ℕ) → i ≢ j → node_at d.nodes j ≡ node_at c.nodes j
  pub free : All (IsFree d.nodes) d.free_indices
  pub free_once : Distinct d.free_indices

module _ {K V : Type 0} where
  allocate_from :
      (c : LruCache K V) (key : K) (value : V) (free : List ℕ)
      → c.free_indices ≡ free
      → All (IsFree c.nodes) free
      → Distinct free
      → (d : LruCache K V) × (i : ℕ) × (allocate_node c key value ≡ some (d, i))
        × Allocated c d i (node_of (record { index = i; key = key; value = value }) none none)
  unfolding allocate_node
  allocate_from c key value [] e f o =
      let n : LruCacheNode K V = record { key = key; value = value; prev = none; next = none } in
      let last = pushed_last c.nodes n in
      (
        record c { nodes = c.nodes ++ some n ∷ []; free_indices = [] },
        length c.nodes,
        rw (e, allocate_node)
            (ap
              (λ f.
                some
                  (record c { nodes = c.nodes ++ some n ∷ []; free_indices = f }, length c.nodes))
              e),
        record {
          head = refl;
          tail = refl;
          entries = refl;
          count = refl;
          capacity = refl;
          here = last.0;
          fresh = last.1;
          others = pushed_others c.nodes n;
          free = tt;
          free_once = tt;
        },
      )
  allocate_from c key value (i ∷ free) e f o =
      let n : LruCacheNode K V = record { key = key; value = value; prev = none; next = none } in
      let (out, done, here, others, size) = written c.nodes i n f.0.1 in
      (
        record c { nodes = out; free_indices = free },
        i,
        rw (e, allocate_node, done) refl,
        record {
          head = refl;
          tail = refl;
          entries = refl;
          count = refl;
          capacity = refl;
          here = here;
          fresh = f.0.0;
          others = others;
          free = still-IsFree c.nodes out i free others size o.0 f.1;
          free_once = o.1;
        },
      )

enter_entry :
    {K : Type 0} (dec : Discrete K) (j k : K) (i : ℕ) (m p : Maps.Map K ℕ)
    → Maps.get dec j m ≡ Maps.get dec j p
    → Maps.get dec j (Maps.insert dec k i m) ≡ Maps.get dec j ((k, i) ∷ p)
unfolding Maps.get
enter_entry dec j k i m p h = ground (arith, Maps.get-insert dec k j i m)

one_more :
    (len n capacity : ℕ) → len ≡ n → n < capacity → capacity ≤ u64_max → (len + 1) % 2 ^ 64 ≡ suc n
one_more len n capacity e h w = omega arith

module _ {K V : Type 0} (dec : Discrete K) where
  -- The new node becomes the first one.
  enter-Rep :
      (c d : LruCache K V) (x : Cell K V) (xs : List (Cell K V))
      → Rep dec c xs
      → Allocated c d x.index (node_of x none none)
      → Absent x.key (cell_keys xs)
      → length xs < c.capacity
      → Rep dec (enter dec d x.index) (x ∷ xs)
  unfolding enter
  enter-Rep c d x xs h a k room =
      let absent = fresh-Absent c.nodes x.index none xs none a.fresh h.linked in
      let linked =
        Linked-frame c.nodes d.nodes none xs none
          (same_outside c.nodes d.nodes x.index (indices xs) a.others absent) h.linked in
      let on =
        attach_front_lem d x xs none none linked (absent, h.places) (a.head ∙ h.head)
          (a.tail ∙ h.tail) a.here in
      let m = attach_front-Moved d x.index in
      rw (a.here, enter)
        (record {
          linked = on.linked;
          head = on.head;
          tail = on.tail;
          places = (absent, h.places);
          keys = (k, h.keys);
          entries = λ j.
              enter_entry dec j x.key x.index (attach_front d x.index).indices_by_key
                (pairs (λ y. y.index) xs) (rw (m.entries, a.entries) (h.entries j));
          count =
              one_more (attach_front d x.index).len (length xs) c.capacity
                (m.count ∙ a.count ∙ h.count) room h.word;
          free = rw (m.free) (
              IsFree-kept d.nodes (attach_front d x.index).nodes d.free_indices m.present m.size
                a.free);
          free_once = rw (m.free) a.free_once;
          used = λ j b.
              still_none (node_at d.nodes j) (node_at (attach_front d x.index).nodes j)
                (m.present j) (a.others j b.0 ∙ h.used j b.1);
          room = ground (arith, room, m.capacity, a.capacity);
          positive = ground (arith, h.positive, m.capacity, a.capacity);
          word = rw (m.capacity, a.capacity) h.word;
        })

  enter-capacity :
      (c d : LruCache K V) (i : ℕ) (n : LruCacheNode K V)
      → Allocated c d i n
      → (enter dec d i).capacity ≡ c.capacity
  unfolding enter attach_front
  enter-capacity c d i n a = rw (a.here, enter) (a.capacity)

  -- A new key is entered at the front of a cache that has room.
  pub allocate-Rep :
      (c : LruCache K V) (xs : List (Cell K V)) (key : K) (value : V)
      → Rep dec c xs
      → Absent key (cell_keys xs)
      → length xs < c.capacity
      → (d : LruCache K V) × (i : ℕ) × (Option.map
            (λ r. enter dec r.0 r.1)
            (allocate_node c key value)
          ≡ some d)
        × Rep dec d (record { index = i; key = key; value = value } ∷ xs)
        × (d.capacity ≡ c.capacity)
  allocate-Rep c xs key value h k room =
      let (d, i, e, a) = allocate_from c key value c.free_indices refl h.free h.free_once in
      (
        enter dec d i,
        i,
        rw e refl,
        enter-Rep c d (record { index = i; key = key; value = value }) xs h a k room,
        enter-capacity c d i _ a,
      )
