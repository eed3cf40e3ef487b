-- ===== src/Smear/LruCache/Detaching.antt =====
-- `detach` and `attach_front` of smear-cursor/src/events/lru_cache.rs.
use dotfiles_nix.Base.{
  ℕ, ◌≡◌, refl, sym, ap, subst, ◌∙◌, List, [], ◌∷◌, ◌++◌, Option, none, some, Distinct, is_some,
}
use mathlib.Core.List.{append-nil}
use dotfiles_nix.Smear.LruCache.{
  LruCacheNode, LruCache, node_at, update_node, update_at, set_next, set_prev, unlink, detach_node,
  detach, or_end, attach_front,
}
use dotfiles_nix.Smear.LruCache.Links.{
  Cell, Slots, node_of, indices, first_or, last_or, Linked, last_or-append, Linked-append,
  Linked-split,
}
use dotfiles_nix.Smear.LruCache.Relinking.{
  Distinct-split, Apart-sym, last_or-OptAbsent, first_or-OptAbsent, frame_node, frame_at,
  node_at-update_self, node_at-update_at, relink_first, flip_Absent, relink_last, or_end-last_or,
  update_at-present,
}

module _ {K V : Type 0} where
  -- What `detach` leaves of a list whose ends are known.
  pub record Detached (c d : LruCache K V) (x : Cell K V) (xs : List (Cell K V)) : Type 0 where
    pub linked : Linked d.nodes none xs none
    pub head : d.head ≡ first_or xs none
    pub tail : d.tail ≡ last_or none xs
    pub alone : node_at d.nodes x.index ≡ some (node_of x none none)
    pub present : (j : ℕ) → is_some (node_at d.nodes j) ≡ is_some (node_at c.nodes j)

  head_lem :
      (ys : List (Cell K V)) (x : Cell K V) (zs : List (Cell K V)) (head : Option ℕ)
      → head ≡ first_or (ys ++ x ∷ zs) none
      → or_end (last_or none ys) head (first_or zs none) ≡ first_or (ys ++ zs) none
  head_lem [] x zs head h = refl
  head_lem (y ∷ ys) x zs head h = or_end-last_or y.index ys head (first_or zs none) ∙ h

  tail_lem :
      (ys : List (Cell K V)) (x : Cell K V) (zs : List (Cell K V)) (tail : Option ℕ)
      → tail ≡ last_or none (ys ++ x ∷ zs)
      → or_end (first_or zs none) tail (last_or none ys) ≡ last_or none (ys ++ zs)
  tail_lem ys x [] tail h = ap (last_or none) (sym (append-nil ys))
  tail_lem ys x (z ∷ zs) tail h =
      h ∙ last_or-append none ys (x ∷ z ∷ zs) ∙ sym (last_or-append none ys (z ∷ zs))

  detach_node_lem :
      (c : LruCache K V) (ys : List (Cell K V)) (x : Cell K V) (zs : List (Cell K V))
      → Linked c.nodes none (ys ++ x ∷ zs) none
      → Distinct (indices (ys ++ x ∷ zs))
      → c.head ≡ first_or (ys ++ x ∷ zs) none
      → c.tail ≡ last_or none (ys ++ x ∷ zs)
      → Detached c
          (detach_node c x.index (node_of x (last_or none ys) (first_or zs none)))
          x
          (ys ++ zs)
  unfolding detach_node
  detach_node_lem c ys x zs a d h t =
      let (left, right) = Linked-split c.nodes none ys (x ∷ zs) none a in
      let (dl, dr, apart) = Distinct-split ys (x ∷ zs) d in
      let p = last_or none ys in
      let n = first_or zs none in
      let slots1 = update_at (set_next n) c.nodes p in
      let slots2 = update_at (set_prev p) slots1 n in
      let back_apart = Apart-sym ys (x ∷ zs) apart in
      let alone1 =
        node_at-update_at (set_next n) c.nodes p x.index
          (last_or-OptAbsent none ys (x.index ∷ []) tt (flip_Absent x.index ys back_apart.0)) in
      let alone2 =
        node_at-update_at (set_prev p) slots1 n x.index
          (first_or-OptAbsent zs (x.index ∷ []) (flip_Absent x.index zs dr.0)) in
      record {
        linked =
            Linked-append _ none ys zs none
              (frame_node unlink slots2 x.index none ys n back_apart.0 (
                frame_at (set_prev p) slots1 n none ys n
                  (first_or-OptAbsent zs (indices ys) back_apart.1)
                  (relink_last c.nodes none ys (some x.index) n dl left)))
              (frame_node unlink slots2 x.index p zs none dr.0 (
                relink_first slots1 (some x.index) p zs dr.1 (
                  frame_at (set_next n) c.nodes p (some x.index) zs none
                    (last_or-OptAbsent none ys (indices zs) tt (Apart-sym zs ys back_apart.1))
                    right.1)));
        head = head_lem ys x zs c.head h;
        tail = tail_lem ys x zs c.tail t;
        alone = node_at-update_self unlink slots2 x.index _ (alone2 ∙ alone1 ∙ right.0);
        present = λ j.
            update_at-present unlink slots2 (some x.index) j
            ∙ update_at-present (set_prev p) slots1 n j
            ∙ update_at-present (set_next n) c.nodes p j;
      }

  -- Detaching a node leaves the others linked in their order, and the node alone.
  pub detach_lem :
      (c : LruCache K V) (ys : List (Cell K V)) (x : Cell K V) (zs : List (Cell K V))
      → Linked c.nodes none (ys ++ x ∷ zs) none
      → Distinct (indices (ys ++ x ∷ zs))
      → c.head ≡ first_or (ys ++ x ∷ zs) none
      → c.tail ≡ last_or none (ys ++ x ∷ zs)
      → Detached c (detach c x.index) x (ys ++ zs)
  unfolding detach
  detach_lem c ys x zs a d h t =
      let (left, right) = Linked-split c.nodes none ys (x ∷ zs) none a in
      rw (right.0, detach) (detach_node_lem c ys x zs a d h t)

  attach_tail :
      (xs : List (Cell K V)) (i : ℕ)
      → or_end (first_or xs none) (last_or none xs) (some i) ≡ last_or (some i) xs
  attach_tail [] i = refl
  attach_tail (x ∷ xs) i = refl

  -- The list after `attach_front`.
  pub record Attached (c d : LruCache K V) (xs : List (Cell K V)) : Type 0 where
    pub linked : Linked d.nodes none xs none
    pub head : d.head ≡ first_or xs none
    pub tail : d.tail ≡ last_or none xs
    pub present : (j : ℕ) → is_some (node_at d.nodes j) ≡ is_some (node_at c.nodes j)

  -- The slots once the node has its new neighbours.
  abbrev front_slots : Slots K V → ℕ → Option ℕ → Slots K V
  front_slots slots i head =
      update_at (set_prev (some i))
        (update_node (λ m. record m { prev = none; next = head }) slots i) head

  front_Linked :
      (slots : Slots K V) (x : Cell K V) (xs : List (Cell K V)) (p n head : Option ℕ)
      → head ≡ first_or xs none
      → Linked slots none xs none
      → Distinct (indices (x ∷ xs))
      → node_at slots x.index ≡ some (node_of x p n)
      → Linked (front_slots slots x.index head) none (x ∷ xs) none
  front_Linked slots x xs p n head h a d alone =
      let enter = λ (m : LruCacheNode K V). record m { prev = none; next = first_or xs none } in
      subst (λ o. Linked (front_slots slots x.index o) none (x ∷ xs) none) (sym h)
        (
          node_at-update_at (set_prev (some x.index)) (update_node enter slots x.index)
                (first_or xs none) x.index
                (first_or-OptAbsent xs (x.index ∷ []) (flip_Absent x.index xs d.0))
              ∙ node_at-update_self enter slots x.index _ alone,
          relink_first (update_node enter slots x.index) none (some x.index) xs d.1
              (frame_node enter slots x.index none xs none d.0 a),
        )

  -- A node that stands alone becomes the first one.
  pub attach_front_lem :
      (c : LruCache K V) (x : Cell K V) (xs : List (Cell K V)) (p n : Option ℕ)
      → Linked c.nodes none xs none
      → Distinct (indices (x ∷ xs))
      → c.head ≡ first_or xs none
      → c.tail ≡ last_or none xs
      → node_at c.nodes x.index ≡ some (node_of x p n)
      → Attached c (attach_front c x.index) (x ∷ xs)
  unfolding attach_front
  attach_front_lem c x xs p n a d h t alone = record {
    linked = front_Linked c.nodes x xs p n c.head h a d alone;
    head = refl;
    tail = rw (h, t) (attach_tail xs x.index);
    present = λ j.
        update_at-present (set_prev (some x.index))
          (update_node (λ m. record m { prev = none; next = c.head }) c.nodes x.index) c.head j
        ∙ update_at-present (λ m. record m { prev = none; next = c.head }) c.nodes (some x.index) j;
  }
