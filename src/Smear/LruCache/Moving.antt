-- ===== src/Smear/LruCache/Moving.antt =====
-- `move_to_front` of smear-cursor/src/events/lru_cache.rs.
use dotfiles_nix.Base.{
  Absent, ℕ, zero, suc, ◌≡◌, ◌≢◌, refl, sym, ap, ◌∙◌, List, [], ◌∷◌, ◌++◌, Option, none, some,
  Distinct, All, arith, length, is_some, false, Bool-cases, inl, inr,
}
use dotfiles_nix.Base.Maps
use dotfiles_nix.Smear.LruCache.{
  LruCacheNode, LruCache, node_at, update_node, update_at, set_next, set_prev, unlink, detach_node,
  detach, attach_front, move_to_front, is_index,
}
use dotfiles_nix.Smear.LruCache.Links.{
  Cell, Slots, indices, first_or, last_or, Linked, Linked-split,
}
use dotfiles_nix.Smear.LruCache.Relinking.{update_at-present}
use dotfiles_nix.Smear.LruCache.Detaching.{detach_lem, attach_front_lem}
use dotfiles_nix.Smear.LruCache.Cells.{
  Distinct-front, Absent-back, Absent-before, length-middle, cell_keys, pairs, get-middle,
}
use dotfiles_nix.Smear.LruCache.Rep.{Rep, IsFree}

-- A step that only changes links.
pub record Moved {K V : Type 0} (c d : LruCache K V) : Type 0 where
  pub free : d.free_indices ≡ c.free_indices
  pub entries : d.indices_by_key ≡ c.indices_by_key
  pub count : d.len ≡ c.len
  pub capacity : d.capacity ≡ c.capacity
  pub present : (j : ℕ) → is_some (node_at d.nodes j) ≡ is_some (node_at c.nodes j)
  pub size : length d.nodes ≡ length c.nodes

other_head : (head : Option ℕ) (i j : ℕ) → head ≡ some i → i ≢ j → is_index head j ≡ false
other_head head i j h n = rw h (ground arith)

module _ {K V : Type 0} where
  pub length-update_node :
      (f : LruCacheNode K V → LruCacheNode K V) (slots : Slots K V) (i : ℕ)
      → length (update_node f slots i) ≡ length slots
  length-update_node f [] i = refl
  length-update_node f (none ∷ slots) zero = refl
  length-update_node f (some n ∷ slots) zero = refl
  length-update_node f (none ∷ slots) (suc i) = ap suc (length-update_node f slots i)
  length-update_node f (some n ∷ slots) (suc i) = ap suc (length-update_node f slots i)

  length-update_at :
      (f : LruCacheNode K V → LruCacheNode K V) (slots : Slots K V) (o : Option ℕ)
      → length (update_at f slots o) ≡ length slots
  length-update_at f slots none = refl
  length-update_at f slots (some i) = length-update_node f slots i

  pub Moved-trans : (c d e : LruCache K V) → Moved c d → Moved d e → Moved c e
  Moved-trans c d e a b = record {
    free = b.free ∙ a.free;
    entries = b.entries ∙ a.entries;
    count = b.count ∙ a.count;
    capacity = b.capacity ∙ a.capacity;
    present = λ j. b.present j ∙ a.present j;
    size = b.size ∙ a.size;
  }

  detach_node-Moved :
      (c : LruCache K V) (i : ℕ) (n : LruCacheNode K V) → Moved c (detach_node c i n)
  unfolding detach_node
  detach_node-Moved c i n =
      let slots1 = update_at (set_next n.next) c.nodes n.prev in
      let slots2 = update_at (set_prev n.prev) slots1 n.next in
      record {
        free = refl;
        entries = refl;
        count = refl;
        capacity = refl;
        present = λ j.
            update_at-present unlink slots2 (some i) j
            ∙ update_at-present (set_prev n.prev) slots1 n.next j
            ∙ update_at-present (set_next n.next) c.nodes n.prev j;
        size =
            length-update_node unlink slots2 i
            ∙ length-update_at (set_prev n.prev) slots1 n.next
            ∙ length-update_at (set_next n.next) c.nodes n.prev;
      }

  pub detach-Moved :
      (c : LruCache K V) (i : ℕ) (n : LruCacheNode K V)
      → node_at c.nodes i ≡ some n
      → Moved c (detach c i)
  unfolding detach
  detach-Moved c i n h = rw (h, detach) (detach_node-Moved c i n)

  pub attach_front-Moved : (c : LruCache K V) (i : ℕ) → Moved c (attach_front c i)
  unfolding attach_front
  attach_front-Moved c i =
      let enter = λ (m : LruCacheNode K V). record m { prev = none; next = c.head } in
      let slots = update_node enter c.nodes i in
      record {
        free = refl;
        entries = refl;
        count = refl;
        capacity = refl;
        present = λ j.
            update_at-present (set_prev (some i)) slots c.head j
            ∙ update_at-present enter c.nodes (some i) j;
        size =
            length-update_at (set_prev (some i)) slots c.head ∙ length-update_node enter c.nodes i;
      }

  pub still_none : (a b : Option (LruCacheNode K V)) → is_some b ≡ is_some a → a ≡ none → b ≡ none
  still_none a b e h = grind arith

  pub IsFree-kept :
      (slots other : Slots K V) (is : List ℕ)
      → ((j : ℕ) → is_some (node_at other j) ≡ is_some (node_at slots j))
      → length other ≡ length slots
      → All (IsFree slots) is
      → All (IsFree other) is
  IsFree-kept slots other [] p s h = tt
  IsFree-kept slots other (i ∷ is) p s h = (
    (still_none (node_at slots i) (node_at other i) (p i) h.0.0, rw s h.0.1),
    IsFree-kept slots other is p s h.1,
  )

  pub move_to_front-capacity :
      (c : LruCache K V) (i : ℕ) (n : LruCacheNode K V)
      → node_at c.nodes i ≡ some n
      → (move_to_front c i).capacity ≡ c.capacity
  unfolding move_to_front
  move_to_front-capacity c i n h = elim (Bool-cases (is_index c.head i)) [
    | inl e ↦ rw (e, move_to_front) refl
    | inr e ↦
        rw (e, move_to_front)
          ((attach_front-Moved (detach c i) i).capacity ∙ (detach-Moved c i n h).capacity)
  ]

module _ {K V : Type 0} (dec : Discrete K) where
  -- The links change, and the order of the cells with them.
  pub Rep-Moved :
      (c d : LruCache K V) (xs ys : List (Cell K V))
      → Rep dec c xs
      → Moved c d
      → (Linked d.nodes none ys none × (d.head ≡ first_or ys none) × (d.tail ≡ last_or none ys))
      → Distinct (indices ys)
      → Distinct (cell_keys ys)
      → ((k : K)
          → Maps.get dec k (pairs (λ x. x.index) xs) ≡ Maps.get dec k (pairs (λ x. x.index) ys))
      → length ys ≡ length xs
      → ((j : ℕ) → Absent j (indices ys) → Absent j (indices xs))
      → Rep dec d ys
  Rep-Moved c d xs ys h m l places keys entries size same = record {
    linked = l.0;
    head = l.1;
    tail = l.2;
    places = places;
    keys = keys;
    entries = λ k. rw (m.entries) (h.entries k ∙ entries k);
    count = rw (m.count, size) h.count;
    free = rw (m.free) (IsFree-kept c.nodes d.nodes c.free_indices m.present m.size h.free);
    free_once = rw (m.free) h.free_once;
    used = λ j a.
        still_none (node_at c.nodes j) (node_at d.nodes j) (m.present j) (h.used j (same j a));
    room = rw (m.capacity, size) h.room;
    positive = rw (m.capacity) h.positive;
    word = rw (m.capacity) h.word;
  }

  pub to_front-Rep :
      (c : LruCache K V) (ys : List (Cell K V)) (x : Cell K V) (zs : List (Cell K V))
      → Rep dec c (ys ++ x ∷ zs)
      → Rep dec (attach_front (detach c x.index) x.index) (x ∷ ys ++ zs)
  to_front-Rep c ys x zs h =
      let (left, right) = Linked-split c.nodes none ys (x ∷ zs) none h.linked in
      let places = Distinct-front (λ y. y.index) ys x zs h.places in
      let keys = Distinct-front (λ y. y.key) ys x zs h.keys in
      let d = detach c x.index in
      let e = attach_front d x.index in
      let out = detach_lem c ys x zs h.linked h.places h.head h.tail in
      let on =
        attach_front_lem d x (ys ++ zs) none none out.linked places out.head out.tail out.alone in
      Rep-Moved c e (ys ++ x ∷ zs) (x ∷ ys ++ zs) h
        (Moved-trans c d e (detach-Moved c x.index _ right.0) (attach_front-Moved d x.index))
        (on.linked, on.head, on.tail) places keys
        (λ k.
          get-middle dec (λ y. y.index) k ys x zs (Absent-before (λ y. y.key) x.key ys zs keys.0)
          ∙ sym (get-middle dec (λ y. y.index) k [] x (ys ++ zs) tt))
        (sym (length-middle ys x zs)) (λ j a. Absent-back (λ y. y.index) j ys x zs a.0 a.1)

  pub move_to_front-Rep :
      (c : LruCache K V) (ys : List (Cell K V)) (x : Cell K V) (zs : List (Cell K V))
      → Rep dec c (ys ++ x ∷ zs)
      → Rep dec (move_to_front c x.index) (x ∷ ys ++ zs)
  unfolding move_to_front
  move_to_front-Rep c [] x zs h = ground (arith, h.head)
  move_to_front-Rep c (y ∷ ys) x zs h =
      rw
        (
          other_head c.head y.index x.index h.head
              (Distinct-front (λ y. y.index) (y ∷ ys) x zs h.places).0.0,
          move_to_front,
        )
        (to_front-Rep c (y ∷ ys) x zs h)
