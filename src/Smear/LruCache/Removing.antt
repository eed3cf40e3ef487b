-- ===== src/Smear/LruCache/Removing.antt =====
-- `remove_node` of smear-cursor/src/events/lru_cache.rs.
use dotfiles_nix.Base.{
  ℕ_discrete, ◌≢◌, ℕ, zero, suc, ◌≡◌, refl, sym, ap, subst, ◌∙◌, List, [], ◌∷◌, ◌++◌, none, some,
  Absent, All, arith, length, ◌<◌, if_pos, if_neg,
}
use dotfiles_nix.Base.Maps
use dotfiles_nix.Smear.LruCache.{
  LruCacheNode, LruCache, node_at, clear_slot, detach, take_node, remove_node,
}
use dotfiles_nix.Smear.LruCache.Links.{
  Cell, Slots, node_of, indices, Linked-split, Linked-frame, node_at-clear_slot,
}
use dotfiles_nix.Smear.LruCache.Detaching.{detach_lem, Detached}
use dotfiles_nix.Smear.LruCache.Cells.{
  Distinct-front, Absent-back, Absent-before, length-middle, cell_keys, pairs, get-middle,
  get-Absent,
}
use dotfiles_nix.Smear.LruCache.Rep.{Rep, IsFree}
use dotfiles_nix.Smear.LruCache.Moving.{Moved, detach-Moved, IsFree-kept, still_none}

module _ {K V : Type 0} where
  length-clear_slot : (slots : Slots K V) (i : ℕ) → length (clear_slot slots i) ≡ length slots
  length-clear_slot [] i = refl
  length-clear_slot (s ∷ slots) zero = refl
  length-clear_slot (s ∷ slots) (suc i) = ap suc (length-clear_slot slots i)

  clear_slot-same :
      (slots : Slots K V) (i : ℕ) (js : List ℕ)
      → Absent i js
      → All (λ j. node_at (clear_slot slots i) j ≡ node_at slots j) js
  clear_slot-same slots i [] h = tt
  clear_slot-same slots i (j ∷ js) h =
      (ground (arith, node_at-clear_slot slots i j, h.0), clear_slot-same slots i js h.1)

  node_at-lt :
      (slots : Slots K V) (i : ℕ) (n : LruCacheNode K V)
      → node_at slots i ≡ some n
      → i < length slots
  node_at-lt [] i n h = ground arith
  node_at-lt (s ∷ slots) zero n h = omega arith
  node_at-lt (s ∷ slots) (suc i) n h = omega (arith, node_at-lt slots i n h)

  -- A slot in use is not free.
  Absent-free :
      (slots : Slots K V) (i : ℕ) (n : LruCacheNode K V) (js : List ℕ)
      → node_at slots i ≡ some n
      → All (IsFree slots) js
      → Absent i js
  Absent-free slots i n [] h f = tt
  Absent-free slots i n (j ∷ js) h f =
      (λ e. grind (arith, ap (node_at slots) e, f.0.0), Absent-free slots i n js h f.1)

  cleared-IsFree :
      (slots : Slots K V) (i : ℕ) (js : List ℕ)
      → All (IsFree slots) js
      → All (IsFree (clear_slot slots i)) js
  cleared-IsFree slots i [] f = tt
  cleared-IsFree slots i (j ∷ js) f = (
    (ground (arith, node_at-clear_slot slots i j, f.0.0), rw (length-clear_slot slots i) f.0.1),
    cleared-IsFree slots i js f.1,
  )

  -- A slot that no other cell takes is empty once this one is cleared.
  cleared_used :
      (slots : Slots K V) (i j : ℕ)
      → (i ≢ j → node_at slots j ≡ none)
      → node_at (clear_slot slots i) j ≡ none
  cleared_used slots i j h = elim (ℕ_discrete i j) [
    | yes e ↦ ground (arith, node_at-clear_slot slots i j, e)
    | no n ↦ ground (arith, node_at-clear_slot slots i j, h n)
  ]

module _ {K V : Type 0} (dec : Discrete K) where
  index_entry :
      (k : K) (m : Maps.Map K ℕ) (ys : List (Cell K V)) (x : Cell K V) (zs : List (Cell K V))
      → Maps.get dec k m ≡ Maps.get dec k (pairs (λ y. y.index) (ys ++ x ∷ zs))
      → Absent x.key (cell_keys (ys ++ zs))
      → Maps.get dec k (Maps.remove dec x.key m) ≡ Maps.get dec k (pairs (λ y. y.index) (ys ++ zs))
  index_entry k m ys x zs e a =
      let step = Maps.get-remove dec x.key k m in
      let mid =
        get-middle dec (λ y. y.index) k ys x zs (Absent-before (λ y. y.key) x.key ys zs a) in
      elim (dec x.key k) [
        | yes q ↦
            step
            ∙ if_pos (dec x.key k) q none (Maps.get dec k m)
            ∙ sym (
                subst (λ j. Maps.get dec j (pairs (λ y. y.index) (ys ++ zs)) ≡ none) q
                  (get-Absent dec (λ y. y.index) x.key (ys ++ zs) a))
        | no n ↦
            step
            ∙ if_neg (dec x.key k) n none (Maps.get dec k m)
            ∙ e
            ∙ mid
            ∙ if_neg (dec x.key k) n (some x.index)
                (Maps.get dec k (pairs (λ y. y.index) (ys ++ zs)))
      ]

  take_node-Rep :
      (c d : LruCache K V) (ys : List (Cell K V)) (x : Cell K V) (zs : List (Cell K V))
      → Rep dec c (ys ++ x ∷ zs)
      → Moved c d
      → Detached c d x (ys ++ zs)
      → Rep dec (take_node dec d x.index (node_of x none none)) (ys ++ zs)
  unfolding take_node
  take_node-Rep c d ys x zs h m out =
      let places = Distinct-front (λ y. y.index) ys x zs h.places in
      let keys = Distinct-front (λ y. y.key) ys x zs h.keys in
      let free : All (IsFree d.nodes) d.free_indices =
        rw (m.free) (IsFree-kept c.nodes d.nodes c.free_indices m.present m.size h.free) in
      let here = node_at-clear_slot d.nodes x.index x.index in
      record {
        linked =
            Linked-frame d.nodes (clear_slot d.nodes x.index) none (ys ++ zs) none
              (clear_slot-same d.nodes x.index (indices (ys ++ zs)) places.0) out.linked;
        head = out.head;
        tail = out.tail;
        places = places.1;
        keys = keys.1;
        entries = λ k. rw (m.entries) (index_entry k c.indices_by_key ys x zs (h.entries k) keys.0);
        count = ground (arith, m.count, h.count, length-middle ys x zs);
        free = (
          (
            ground (arith, here),
            rw (length-clear_slot d.nodes x.index) (node_at-lt d.nodes x.index _ out.alone),
          ),
          cleared-IsFree d.nodes x.index d.free_indices free,
        );
        free_once =
            (Absent-free d.nodes x.index _ d.free_indices out.alone free, rw (m.free) h.free_once);
        used = λ j a. cleared_used d.nodes x.index j (λ n.
            still_none (node_at c.nodes j) (node_at d.nodes j) (m.present j)
              (h.used j (Absent-back (λ y. y.index) j ys x zs n a)));
        room = ground (arith, m.capacity, h.room, length-middle ys x zs);
        positive = rw (m.capacity) h.positive;
        word = rw (m.capacity) h.word;
      }

  pub remove_node-Rep :
      (c : LruCache K V) (ys : List (Cell K V)) (x : Cell K V) (zs : List (Cell K V))
      → Rep dec c (ys ++ x ∷ zs)
      → Rep dec (remove_node dec c x.index).0 (ys ++ zs)
        × ((remove_node dec c x.index).1 ≡ some (node_of x none none))
        × ((remove_node dec c x.index).0.capacity ≡ c.capacity)
  unfolding remove_node take_node
  remove_node-Rep c ys x zs h =
      let (left, right) = Linked-split c.nodes none ys (x ∷ zs) none h.linked in
      let d = detach c x.index in
      let m = detach-Moved c x.index _ right.0 in
      let out = detach_lem c ys x zs h.linked h.places h.head h.tail in
      rw (out.alone, remove_node) (take_node-Rep c d ys x zs h m out, refl, m.capacity)
