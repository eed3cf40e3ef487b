-- ===== src/Smear/LruCache/Reading.antt =====
-- `get_copy`, `get_cloned`, `peek_copy` and `remove` of smear-cursor/src/events/lru_cache.rs, on
-- the entries in the order of their use.
use dotfiles_nix.Base.{
  ℕ, ◌≡◌, refl, sym, ap, ◌∙◌, List, ◌∷◌, ◌++◌, none, some, Absent, Distinct, if_pos, subst, inl,
  inr, ◌⊎◌,
}
use dotfiles_nix.Base.Maps
use dotfiles_nix.Smear.LruCache.{LruCache, node_at, get, peek, remove, move_to_front}
use dotfiles_nix.Smear.LruCache.Links.{Cell, Linked-split, node_of, first_or, last_or}
use dotfiles_nix.Smear.LruCache.Cells.{
  cell_keys, pairs, find_cell, get-Absent, remove-Absent, get-middle, remove-middle, Distinct-front,
  Absent-before,
}
use dotfiles_nix.Smear.LruCache.Rep.{Rep}
use dotfiles_nix.Smear.LruCache.Moving.{move_to_front-Rep, move_to_front-capacity}
use dotfiles_nix.Smear.LruCache.Removing.{remove_node-Rep}

-- The cache stands for these entries, the one used last first.
abbrev pub Holds : {K V : Type 0} → Discrete K → ℕ → LruCache K V → Maps.Map K V → Type 0
Holds {K} {V} dec capacity c es =
    (xs : List (Cell K V)) × Rep dec c xs × (pairs (λ x. x.value) xs ≡ es) × (c.capacity ≡ capacity)

-- Where a key stands: nowhere, or at a cell that the index knows.
pub record Found {K V : Type 0} (dec : Discrete K) (c : LruCache K V) (k : K)
    (xs ys : List (Cell K V)) (x : Cell K V) (zs : List (Cell K V)) : Type 0 where
  pub split : xs ≡ ys ++ x ∷ zs
  pub index : Maps.get dec k c.indices_by_key ≡ some x.index
  pub value : Maps.get dec k (pairs (λ y. y.value) xs) ≡ some x.value
  pub others : Maps.remove dec k (pairs (λ y. y.value) xs) ≡ pairs (λ y. y.value) (ys ++ zs)
  pub key : x.key ≡ k

-- The entry of a key comes to the front.
abbrev pub touch : {K V : Type 0} → Discrete K → K → Maps.Map K V → Maps.Map K V
touch dec k es = elim (Maps.get dec k es) [ none ↦ es | some v ↦ Maps.insert dec k v es ]

module _ {K V : Type 0} (dec : Discrete K) where
  pub locate :
      (c : LruCache K V) (k : K) (xs : List (Cell K V))
      → Rep dec c xs
      → ((Maps.get dec k c.indices_by_key ≡ none) × Absent k (cell_keys xs))
        ⊎ ((ys : List (Cell K V)) × (x : Cell K V) × (zs : List (Cell K V)) × Found dec c k xs ys x
              zs)
  locate c k xs h = elim (find_cell dec k xs) [
    | inl a ↦ inl (h.entries k ∙ get-Absent dec (λ y. y.index) k xs a, a)
    | inr (ys, x, zs, e, q) ↦
        let keys =
          (Distinct-front (λ y. y.key) ys x zs (subst (λ r. Distinct (cell_keys r)) e h.keys)).0 in
        let before = Absent-before (λ y. y.key) x.key ys zs keys in
        inr (
          ys,
          x,
          zs,
          record {
            split = e;
            index =
                h.entries k
                ∙ ap (λ r. Maps.get dec k (pairs (λ y. y.index) r)) e
                ∙ get-middle dec (λ y. y.index) k ys x zs before
                ∙ if_pos (dec x.key k) q (some x.index)
                    (Maps.get dec k (pairs (λ y. y.index) (ys ++ zs)));
            value =
                ap (λ r. Maps.get dec k (pairs (λ y. y.value) r)) e
                ∙ get-middle dec (λ y. y.value) k ys x zs before
                ∙ if_pos (dec x.key k) q (some x.value)
                    (Maps.get dec k (pairs (λ y. y.value) (ys ++ zs)));
            others =
                ap (λ r. Maps.remove dec k (pairs (λ y. y.value) r)) e
                ∙ ap (λ j. Maps.remove dec j (pairs (λ y. y.value) (ys ++ x ∷ zs))) (sym q)
                ∙ remove-middle dec (λ y. y.value) ys x zs keys;
            key = q;
          },
        )
  ]

  node-Found :
      (c : LruCache K V) (k : K) (xs ys : List (Cell K V)) (x : Cell K V) (zs : List (Cell K V))
      → Rep dec c xs
      → Found dec c k xs ys x zs
      → node_at c.nodes x.index ≡ some (node_of x (last_or none ys) (first_or zs none))
  node-Found c k xs ys x zs h f =
      (Linked-split c.nodes none ys (x ∷ zs) none (subst (Rep dec c) f.split h).linked).1.0

  pub peek_cells :
      (c : LruCache K V) (k : K) (xs : List (Cell K V))
      → Rep dec c xs
      → peek dec c k ≡ Maps.get dec k (pairs (λ x. x.value) xs)
  unfolding peek
  peek_cells c k xs h = elim (locate c k xs h) [
    | inl (n, a) ↦ rw (n, peek) (sym (get-Absent dec (λ y. y.value) k xs a))
    | inr (ys, x, zs, f) ↦ rw (f.index, f.value, peek, node-Found c k xs ys x zs h f) refl
  ]

  move-Found :
      (c : LruCache K V) (k : K) (xs ys : List (Cell K V)) (x : Cell K V) (zs : List (Cell K V))
      → Rep dec c xs
      → Found dec c k xs ys x zs
      → Holds dec c.capacity
          (move_to_front c x.index)
          (Maps.insert dec k x.value (pairs (λ y. y.value) xs))
  unfolding Maps.insert
  move-Found c k xs ys x zs h f = (
    x ∷ ys ++ zs,
    move_to_front-Rep dec c ys x zs (subst (Rep dec c) f.split h),
    rw (f.others, f.key) refl,
    move_to_front-capacity c x.index _ (node-Found c k xs ys x zs h f),
  )

  pub get_cells :
      (c : LruCache K V) (k : K) (xs : List (Cell K V))
      → Rep dec c xs
      → ((get dec c k).1 ≡ Maps.get dec k (pairs (λ x. x.value) xs))
        × Holds dec c.capacity (get dec c k).0 (touch dec k (pairs (λ x. x.value) xs))
  unfolding get
  get_cells c k xs h = elim (locate c k xs h) [
    | inl (n, a) ↦
        rw (n, get-Absent dec (λ y. y.value) k xs a, get, touch) (refl, (xs, h, refl, refl))
    | inr (ys, x, zs, f) ↦
        rw (f.index, f.value, get, touch, node-Found c k xs ys x zs h f)
          (refl, move-Found c k xs ys x zs h f)
  ]

  pub remove_cells :
      (c : LruCache K V) (k : K) (xs : List (Cell K V))
      → Rep dec c xs
      → ((remove dec c k).1 ≡ Maps.get dec k (pairs (λ x. x.value) xs))
        × Holds dec c.capacity (remove dec c k).0 (Maps.remove dec k (pairs (λ x. x.value) xs))
  unfolding remove
  remove_cells c k xs h = elim (locate c k xs h) [
    | inl (n, a) ↦
        rw (n, get-Absent dec (λ y. y.value) k xs a, remove)
          (refl, (xs, h, sym (remove-Absent dec (λ y. y.value) k xs a), refl))
    | inr (ys, x, zs, f) ↦
        let (rep, node, capacity) = remove_node-Rep dec c ys x zs (subst (Rep dec c) f.split h) in
        rw (f.index, f.value, remove, node) (refl, (ys ++ zs, rep, sym f.others, capacity))
  ]
