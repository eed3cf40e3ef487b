-- ===== src/Smear/LruCache/Relinking.antt =====
-- Writing the links at and around a node of smear-cursor/src/events/lru_cache.rs.
use dotfiles_nix.Base.{
  ℕ, ◌≡◌, refl, sym, ◌∙◌, List, [], ◌∷◌, ◌++◌, Option, none, some, Absent, Distinct, All, arith,
  is_some,
}
use dotfiles_nix.Smear.LruCache.{
  LruCacheNode, node_at, update_node, update_at, set_next, set_prev, or_end,
}
use dotfiles_nix.Smear.LruCache.Links.{
  Cell, Slots, indices, first_or, last_or, Linked, node_at-update_node, Linked-frame,
  same_elsewhere,
}

abbrev pub OptAbsent : Option ℕ → List ℕ → Type 0
OptAbsent none js = Unit
OptAbsent (some i) js = Absent i js

module _ {K V : Type 0} where
  -- No index of the first cells is one of the others.
  abbrev pub Apart : List (Cell K V) → List (Cell K V) → Type 0
  Apart xs ys = All (λ j. Absent j (indices ys)) (indices xs)

  Absent-split :
      (i : ℕ) (xs ys : List (Cell K V))
      → Absent i (indices (xs ++ ys))
      → Absent i (indices xs) × Absent i (indices ys)
  Absent-split i [] ys h = (tt, h)
  Absent-split i (x ∷ xs) ys h = let (a, b) = Absent-split i xs ys h.1 in ((h.0, a), b)

  pub Distinct-split :
      (xs ys : List (Cell K V))
      → Distinct (indices (xs ++ ys))
      → Distinct (indices xs) × Distinct (indices ys) × Apart xs ys
  Distinct-split [] ys h = (tt, h, tt)
  Distinct-split (x ∷ xs) ys h =
      let (a, b, c) = Distinct-split xs ys h.1 in
      let s = Absent-split x.index xs ys h.0 in ((s.0, a), b, (s.1, c))

  pub Apart-sym : (xs ys : List (Cell K V)) → Apart xs ys → Apart ys xs
  Apart-sym xs [] h = tt
  Apart-sym xs (y ∷ ys) h = (column xs h, Apart-sym xs ys (rest xs h))
    where
      column : (xs : List (Cell K V)) → Apart xs (y ∷ ys) → Absent y.index (indices xs)
      column [] h = tt
      column (x ∷ xs) h = (λ e. h.0.0 (sym e), column xs h.1)

      rest : (xs : List (Cell K V)) → Apart xs (y ∷ ys) → Apart xs ys
      rest [] h = tt
      rest (x ∷ xs) h = (h.0.1, rest xs h.1)

  pub last_or-OptAbsent :
      (prev : Option ℕ) (xs : List (Cell K V)) (js : List ℕ)
      → OptAbsent prev js
      → All (λ j. Absent j js) (indices xs)
      → OptAbsent (last_or prev xs) js
  last_or-OptAbsent prev [] js h k = h
  last_or-OptAbsent prev (x ∷ xs) js h k = last_or-OptAbsent (some x.index) xs js k.0 k.1

  pub first_or-OptAbsent :
      (xs : List (Cell K V)) (js : List ℕ)
      → All (λ j. Absent j js) (indices xs)
      → OptAbsent (first_or xs none) js
  first_or-OptAbsent [] js k = tt
  first_or-OptAbsent (x ∷ xs) js k = k.0

  pub frame_node :
      (f : LruCacheNode K V → LruCacheNode K V) (slots : Slots K V) (i : ℕ) (prev : Option ℕ)
      (xs : List (Cell K V)) (next : Option ℕ)
      → Absent i (indices xs)
      → Linked slots prev xs next
      → Linked (update_node f slots i) prev xs next
  frame_node f slots i prev xs next h a =
      Linked-frame slots (update_node f slots i) prev xs next
        (same_elsewhere f slots i (indices xs) h) a

  pub frame_at :
      (f : LruCacheNode K V → LruCacheNode K V) (slots : Slots K V) (o : Option ℕ) (prev : Option ℕ)
      (xs : List (Cell K V)) (next : Option ℕ)
      → OptAbsent o (indices xs)
      → Linked slots prev xs next
      → Linked (update_at f slots o) prev xs next
  frame_at f slots none prev xs next h a = a
  frame_at f slots (some i) prev xs next h a = frame_node f slots i prev xs next h a

  pub node_at-update_self :
      (f : LruCacheNode K V → LruCacheNode K V) (slots : Slots K V) (i : ℕ) (n : LruCacheNode K V)
      → node_at slots i ≡ some n
      → node_at (update_node f slots i) i ≡ some (f n)
  node_at-update_self f slots i n h = ground (arith, node_at-update_node f slots i i)

  pub node_at-update_at :
      (f : LruCacheNode K V → LruCacheNode K V) (slots : Slots K V) (o : Option ℕ) (i : ℕ)
      → OptAbsent o (i ∷ [])
      → node_at (update_at f slots o) i ≡ node_at slots i
  node_at-update_at f slots none i h = refl
  node_at-update_at f slots (some j) i h = (same_elsewhere f slots j (i ∷ []) h).0

  pub relink_first :
      (slots : Slots K V) (prev other : Option ℕ) (xs : List (Cell K V))
      → Distinct (indices xs)
      → Linked slots prev xs none
      → Linked (update_at (set_prev other) slots (first_or xs none)) other xs none
  relink_first slots prev other [] d a = tt
  relink_first slots prev other (x ∷ xs) d a = (
    node_at-update_self (set_prev other) slots x.index _ a.0,
    frame_node (set_prev other) slots x.index (some x.index) xs none d.0 a.1,
  )

  pub flip_Absent :
      (i : ℕ) (xs : List (Cell K V))
      → Absent i (indices xs)
      → All (λ j. Absent j (i ∷ [])) (indices xs)
  flip_Absent i [] h = tt
  flip_Absent i (x ∷ xs) h = ((λ e. h.0 (sym e), tt), flip_Absent i xs h.1)

  pub relink_last :
      (slots : Slots K V) (prev : Option ℕ) (xs : List (Cell K V)) (next other : Option ℕ)
      → Distinct (indices xs)
      → Linked slots prev xs next
      → Linked (update_at (set_next other) slots (last_or prev xs)) prev xs other
  relink_last slots prev [] next other d a = tt
  relink_last slots prev (x ∷ []) next other d a =
      (node_at-update_self (set_next other) slots x.index _ a.0, tt)
  relink_last slots prev (x ∷ y ∷ xs) next other d a = (
    node_at-update_at (set_next other) slots (last_or (some y.index) xs) x.index (
          last_or-OptAbsent (some y.index) xs (x.index ∷ []) (flip_Absent x.index (y ∷ xs) d.0).0
            (flip_Absent x.index (y ∷ xs) d.0).1)
        ∙ a.0,
    relink_last slots (some x.index) (y ∷ xs) next other d.1 a.1,
  )

  pub or_end-last_or :
      (i : ℕ) (xs : List (Cell K V)) (a b : Option ℕ) → or_end (last_or (some i) xs) a b ≡ a
  or_end-last_or i [] a b = refl
  or_end-last_or i (x ∷ xs) a b = or_end-last_or x.index xs a b

  pub update_at-present :
      (f : LruCacheNode K V → LruCacheNode K V) (slots : Slots K V) (o : Option ℕ) (j : ℕ)
      → is_some (node_at (update_at f slots o) j) ≡ is_some (node_at slots j)
  update_at-present f slots none j = refl
  update_at-present f slots (some i) j = ground (arith, node_at-update_node f slots i j)
