-- ===== src/Smear/LruCache/Links.antt =====
-- Stretches of the doubly linked list of smear-cursor/src/events/lru_cache.rs.
use dotfiles_nix.Base.{
  ℕ, zero, suc, ◌≡◌, refl, ◌∙◌, List, [], ◌∷◌, ◌++◌, Option, none, some, map, Absent, All, arith,
  ◌==◌, if◌then◌else◌,
}
use mathlib.Core.Option
use dotfiles_nix.Smear.LruCache.{LruCacheNode, node_at, update_node, clear_slot}

-- What a node stands for: its index, its key and its value.
pub record Cell (K V : Type 0) : Type 0 where
  pub index : ℕ
  pub key : K
  pub value : V

abbrev pub Slots : Type 0 → Type 0 → Type 0
Slots K V = List (Option (LruCacheNode K V))

module _ {K V : Type 0} where
  abbrev pub node_of : Cell K V → Option ℕ → Option ℕ → LruCacheNode K V
  node_of x prev next = record { key = x.key; value = x.value; prev = prev; next = next }

  abbrev pub indices : List (Cell K V) → List ℕ
  indices = map (λ x. x.index)

  -- The index of the first cell, and of the last.
  abbrev pub first_or : List (Cell K V) → Option ℕ → Option ℕ
  first_or [] next = next
  first_or (x ∷ xs) next = some x.index

  abbrev pub last_or : Option ℕ → List (Cell K V) → Option ℕ
  last_or prev [] = prev
  last_or prev (x ∷ xs) = last_or (some x.index) xs

  -- The cells stand in the slots one after the other, between two neighbours.
  abbrev pub Linked : Slots K V → Option ℕ → List (Cell K V) → Option ℕ → Type 0
  Linked slots prev [] next = Unit
  Linked slots prev (x ∷ xs) next =
      (node_at slots x.index ≡ some (node_of x prev (first_or xs next)))
      × Linked slots (some x.index) xs next

  pub first_or-append :
      (xs ys : List (Cell K V)) (next : Option ℕ)
      → first_or (xs ++ ys) next ≡ first_or xs (first_or ys next)
  first_or-append [] ys next = refl
  first_or-append (x ∷ xs) ys next = refl

  pub last_or-append :
      (prev : Option ℕ) (xs ys : List (Cell K V))
      → last_or prev (xs ++ ys) ≡ last_or (last_or prev xs) ys
  last_or-append prev [] ys = refl
  last_or-append prev (x ∷ xs) ys = last_or-append (some x.index) xs ys

  pub Linked-append :
      (slots : Slots K V) (prev : Option ℕ) (xs ys : List (Cell K V)) (next : Option ℕ)
      → Linked slots prev xs (first_or ys next)
      → Linked slots (last_or prev xs) ys next
      → Linked slots prev (xs ++ ys) next
  Linked-append slots prev [] ys next a b = b
  Linked-append slots prev (x ∷ xs) ys next a b =
      (rw (first_or-append xs ys next) a.0, Linked-append slots (some x.index) xs ys next a.1 b)

  pub Linked-split :
      (slots : Slots K V) (prev : Option ℕ) (xs ys : List (Cell K V)) (next : Option ℕ)
      → Linked slots prev (xs ++ ys) next
      → Linked slots prev xs (first_or ys next) × Linked slots (last_or prev xs) ys next
  Linked-split slots prev [] ys next a = (tt, a)
  Linked-split slots prev (x ∷ xs) ys next a =
      let (b, c) = Linked-split slots (some x.index) xs ys next a.1 in
      ((rw (first_or-append xs ys next) at a.0, b), c)

  pub node_at-update_node :
      (f : LruCacheNode K V → LruCacheNode K V) (slots : Slots K V) (i j : ℕ)
      → node_at (update_node f slots i) j
        ≡ (if i == j then Option.map f (node_at slots j) else node_at slots j)
  node_at-update_node f [] i j = ground arith
  node_at-update_node f (none ∷ slots) zero zero = refl
  node_at-update_node f (some n ∷ slots) zero zero = refl
  node_at-update_node f (none ∷ slots) zero (suc j) = ground arith
  node_at-update_node f (some n ∷ slots) zero (suc j) = ground arith
  node_at-update_node f (s ∷ slots) (suc i) zero = ground arith
  node_at-update_node f (s ∷ slots) (suc i) (suc j) =
      ground (arith, node_at-update_node f slots i j)

  pub node_at-clear_slot :
      (slots : Slots K V) (i j : ℕ)
      → node_at (clear_slot slots i) j ≡ (if i == j then none else node_at slots j)
  node_at-clear_slot [] i j = ground arith
  node_at-clear_slot (s ∷ slots) zero zero = refl
  node_at-clear_slot (s ∷ slots) zero (suc j) = ground arith
  node_at-clear_slot (s ∷ slots) (suc i) zero = ground arith
  node_at-clear_slot (s ∷ slots) (suc i) (suc j) = ground (arith, node_at-clear_slot slots i j)

  -- A stretch does not see a change elsewhere.
  pub Linked-frame :
      (slots other : Slots K V) (prev : Option ℕ) (xs : List (Cell K V)) (next : Option ℕ)
      → All (λ j. node_at other j ≡ node_at slots j) (indices xs)
      → Linked slots prev xs next
      → Linked other prev xs next
  Linked-frame slots other prev [] next same a = tt
  Linked-frame slots other prev (x ∷ xs) next same a =
      (same.0 ∙ a.0, Linked-frame slots other (some x.index) xs next same.1 a.1)

  pub same_elsewhere :
      (f : LruCacheNode K V → LruCacheNode K V) (slots : Slots K V) (i : ℕ) (js : List ℕ)
      → Absent i js
      → All (λ j. node_at (update_node f slots i) j ≡ node_at slots j) js
  same_elsewhere f slots i [] h = tt
  same_elsewhere f slots i (j ∷ js) h =
      (ground (arith, node_at-update_node f slots i j, h.0), same_elsewhere f slots i js h.1)
