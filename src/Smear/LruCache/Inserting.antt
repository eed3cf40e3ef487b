-- ===== src/Smear/LruCache/Inserting.antt =====
-- `insert` of smear-cursor/src/events/lru_cache.rs, on the entries in the order of their use.
use dotfiles_nix.Base.{
  Absent, ℕ, zero, suc, ◌≡◌, refl, sym, ap, ◌∙◌, List, [], ◌∷◌, ◌++◌, none, some, map, Distinct,
  arith, length, true, ◌≤◌, ◌-◌, leb, Bool-cases, inl, inr, take, subst, snoc_cases, length-append,
}
use dotfiles_nix.Base.Maps
use mathlib.Core.List.{append-nil}
use dotfiles_nix.Smear.LruCache.{LruCacheNode, LruCache, update_node, evict, remove_node}
use dotfiles_nix.Smear.LruCache.Links.{
  Cell, Linked-append, Linked-split, last_or-append, first_or-append,
}
use dotfiles_nix.Smear.LruCache.Relinking.{frame_node, node_at-update_self, update_at-present}
use dotfiles_nix.Smear.LruCache.Cells.{
  length-middle, map-change, Distinct-front, Absent-before, Absent-after,
}
use dotfiles_nix.Smear.LruCache.Rep.{Rep}
use dotfiles_nix.Smear.LruCache.Moving.{Rep-Moved, length-update_node}
use dotfiles_nix.Smear.LruCache.Removing.{remove_node-Rep}

pub take-all : {A : Type 0} (n : ℕ) (xs : List A) → length xs ≤ n → take n xs ≡ xs
take-all zero [] h = refl
take-all zero (x ∷ xs) h = absurd (omega arith)
take-all (suc n) [] h = refl
take-all (suc n) (x ∷ xs) h = ap (λ r. x ∷ r) (take-all n xs (omega arith))

take-snoc : {A : Type 0} (n : ℕ) (xs : List A) (x : A) → n ≡ length xs → take n (xs ++ x ∷ []) ≡ xs
take-snoc zero [] x h = refl
take-snoc (suc n) [] x h = absurd (omega arith)
take-snoc zero (y ∷ xs) x h = absurd (omega arith)
take-snoc (suc n) (y ∷ xs) x h = ap (λ r. y ∷ r) (take-snoc n xs x (omega arith))

pub take-cons :
    {A : Type 0} (n : ℕ) (x : A) (xs : List A) → 1 ≤ n → take n (x ∷ xs) ≡ x ∷ take (n - 1) xs
take-cons zero x xs h = absurd (omega arith)
take-cons (suc n) x xs h = ap (λ m. x ∷ take m xs) (omega arith)

pub take-map :
    {A B : Type 0} (f : A → B) (n : ℕ) (xs : List A) → take n (map f xs) ≡ map f (take n xs)
take-map f zero xs = refl
take-map f (suc n) [] = refl
take-map f (suc n) (x ∷ xs) = ap (λ r. f x ∷ r) (take-map f n xs)

module _ {K V : Type 0} (dec : Discrete K) where
  evict_last :
      (c : LruCache K V) (ys : List (Cell K V)) (x : Cell K V)
      → Rep dec c (ys ++ x ∷ [])
      → leb c.capacity c.len ≡ true
      → c.capacity - 1 ≡ length ys
      → Rep dec (evict dec c) (take (c.capacity - 1) (ys ++ x ∷ []))
        × ((evict dec c).capacity ≡ c.capacity)
  unfolding evict
  evict_last c ys x h full size =
      let tail : c.tail ≡ some x.index = h.tail ∙ last_or-append none ys (x ∷ []) in
      let (rep, out, capacity) = remove_node-Rep dec c ys x [] h in
      rw (full, tail, evict)
        (
          subst (Rep dec (remove_node dec c x.index).0)
              (append-nil ys ∙ sym (take-snoc (c.capacity - 1) ys x size)) rep,
          capacity,
        )

  -- What `evict` keeps has room for one more.
  pub evict-Rep :
      (c : LruCache K V) (xs : List (Cell K V))
      → Rep dec c xs
      → Rep dec (evict dec c) (take (c.capacity - 1) xs) × ((evict dec c).capacity ≡ c.capacity)
  unfolding evict
  evict-Rep c xs h = elim (Bool-cases (leb c.capacity c.len)) [
    | inr off ↦
        rw (off, evict)
          (
            subst (Rep dec c) (sym (take-all (c.capacity - 1) xs (ground (arith, off, h.count)))) h,
            refl,
          )
    | inl on ↦ elim (snoc_cases xs) [
      | inl e ↦ absurd (ground (arith, on, h.count, h.positive, ap length e))
      | inr (ys, x, e) ↦
          subst
            (λ zs.
              Rep dec (evict dec c) (take (c.capacity - 1) zs)
              × ((evict dec c).capacity ≡ c.capacity))
            (sym e)
            (evict_last c ys x (subst (Rep dec c) e h) on
              (ground (arith, on, h.count, h.room, ap length e, length-append ys (x ∷ []))))
    ]
  ]

module _ {K V : Type 0} (dec : Discrete K) where
  -- The value of a key that is there is replaced.
  pub revalue-Rep :
      (c : LruCache K V) (ys : List (Cell K V)) (x : Cell K V) (zs : List (Cell K V)) (value : V)
      → Rep dec c (ys ++ x ∷ zs)
      → Rep dec
          (record c { nodes = update_node (λ n. record n { value = value }) c.nodes x.index })
          (ys ++ record x { value = value } ∷ zs)
  revalue-Rep c ys x zs value h =
      let write = λ (n : LruCacheNode K V). record n { value = value } in
      let x1 : Cell K V = record x { value = value } in
      let (left, right) = Linked-split c.nodes none ys (x ∷ zs) none h.linked in
      let apart = (Distinct-front (λ y. y.index) ys x zs h.places).0 in
      let slots = update_node write c.nodes x.index in
      Rep-Moved dec c (record c { nodes = slots }) (ys ++ x ∷ zs) (ys ++ x1 ∷ zs) h
        (record {
          free = refl;
          entries = refl;
          count = refl;
          capacity = refl;
          present = update_at-present write c.nodes (some x.index);
          size = length-update_node write c.nodes x.index;
        })
        (
          Linked-append slots none ys (x1 ∷ zs) none
              (frame_node write c.nodes x.index none ys (some x.index)
                (Absent-before (λ y. y.index) x.index ys zs apart) left)
              (
                node_at-update_self write c.nodes x.index _ right.0,
                frame_node write c.nodes x.index (some x.index) zs none
                    (Absent-after (λ y. y.index) x.index ys zs apart) right.1,
              ),
          h.head ∙ first_or-append ys (x ∷ zs) none ∙ sym (first_or-append ys (x1 ∷ zs) none),
          h.tail ∙ last_or-append none ys (x ∷ zs) ∙ sym (last_or-append none ys (x1 ∷ zs)),
        )
        (subst Distinct (sym (map-change (λ y. y.index) ys x x1 zs refl)) h.places)
        (subst Distinct (sym (map-change (λ y. y.key) ys x x1 zs refl)) h.keys)
        (λ k. ap (Maps.get dec k) (sym (map-change (λ y. (y.key, y.index)) ys x x1 zs refl)))
        (length-middle ys x1 zs ∙ sym (length-middle ys x zs))
        (λ j. subst (Absent j) (map-change (λ y. y.index) ys x x1 zs refl))
