-- ===== src/Smear/LruCache/Sweeping.antt =====
-- `remove_where` of smear-cursor/src/events/lru_cache.rs.
use dotfiles_nix.Base.{
  ℕ, suc, ◌≡◌, ◌+◌, refl, sym, ap, ◌∙◌, List, [], ◌∷◌, ◌++◌, Option, none, some, Absent, Distinct,
  All, arith, length, is_some, if◌then◌else◌, Bool, not, subst, ℕ_discrete, length-map,
}
use dotfiles_nix.Base.Maps
use dotfiles_nix.Smear.LruCache.{
  LruCache, node_at, matching_from, remove_nodes, remove_node, remove_where,
}
use dotfiles_nix.Smear.LruCache.Links.{Cell, Slots, indices, Linked}
use dotfiles_nix.Smear.LruCache.Cells.{Absent-back, Distinct-front, pairs, length-middle}
use dotfiles_nix.Smear.LruCache.Rep.{Rep}
use dotfiles_nix.Smear.LruCache.Removing.{remove_node-Rep}
use dotfiles_nix.Smear.LruCache.Reading.{Holds}
use dotfiles_nix.Smear.LruCache.Collecting.{
  from_zero, member, InUse, matching_from-InUse, matching_from-Distinct, member-matching_from,
}

module _ {K V : Type 0} where
  -- The cells that a test keeps.
  abbrev keep : (Cell K V → Bool) → List (Cell K V) → List (Cell K V)
  keep f [] = []
  keep f (x ∷ xs) = let rest = keep f xs in if f x then x ∷ rest else rest

  keep-same :
      (f g : Cell K V → Bool) (xs : List (Cell K V))
      → All (λ x. f x ≡ g x) xs
      → keep f xs ≡ keep g xs
  keep-same f g [] h = refl
  keep-same f g (x ∷ xs) h = ground (arith, h.0, keep-same f g xs h.1)

  keep_others :
      (i : ℕ) (is : List ℕ) (xs : List (Cell K V))
      → Absent i (indices xs)
      → keep (λ y. not (member y.index (i ∷ is))) xs ≡ keep (λ y. not (member y.index is)) xs
  keep_others i is [] h = refl
  keep_others i is (x ∷ xs) h = ground (arith, h.0, keep_others i is xs h.1)

  keep-middle :
      (is : List ℕ) (ys : List (Cell K V)) (x : Cell K V) (zs : List (Cell K V))
      → Absent x.index (indices (ys ++ zs))
      → keep (λ y. not (member y.index (x.index ∷ is))) (ys ++ x ∷ zs)
        ≡ keep (λ y. not (member y.index is)) (ys ++ zs)
  keep-middle is [] x zs h = ground (arith, keep_others x.index is zs h)
  keep-middle is (y ∷ ys) x zs h = ground (arith, h.0, keep-middle is ys x zs h.1)

  keep_all : (xs : List (Cell K V)) → keep (λ y. not (member y.index [])) xs ≡ xs
  keep_all [] = refl
  keep_all (x ∷ xs) = ap (λ r. x ∷ r) (keep_all xs)

  -- The cell at an index that is not absent.
  place :
      (i : ℕ) (xs : List (Cell K V))
      → (Absent i (indices xs) → ⊥)
      → (ys : List (Cell K V)) × (x : Cell K V) × (zs : List (Cell K V)) × (xs ≡ ys ++ x ∷ zs)
        × (x.index ≡ i)
  place i [] h = absurd (h tt)
  place i (x ∷ xs) h = elim (ℕ_discrete x.index i) [
    | yes e ↦ ([], x, xs, refl, e)
    | no n ↦
        let (ys, y, zs, e, q) = place i xs (λ a. h (n, a)) in (x ∷ ys, y, zs, ap (λ r. x ∷ r) e, q)
  ]

  still_there :
      (is : List ℕ) (ys : List (Cell K V)) (x : Cell K V) (zs : List (Cell K V))
      → Absent x.index is
      → All (λ i. Absent i (indices (ys ++ x ∷ zs)) → ⊥) is
      → All (λ i. Absent i (indices (ys ++ zs)) → ⊥) is
  still_there [] ys x zs a h = tt
  still_there (i ∷ is) ys x zs a h = (
    λ b. h.0 (Absent-back (λ y. y.index) i ys x zs (λ e. a.0 (sym e)) b),
    still_there is ys x zs a.1 h.1,
  )

module _ {K V : Type 0} (dec : Discrete K) where
  remove_nodes-Rep :
      (c : LruCache K V) (xs : List (Cell K V)) (is : List ℕ)
      → Rep dec c xs
      → All (λ i. Absent i (indices xs) → ⊥) is
      → Distinct is
      → Rep dec (remove_nodes dec c is) (keep (λ y. not (member y.index is)) xs)
        × (length xs ≡ length (keep (λ y. not (member y.index is)) xs) + length is)
        × ((remove_nodes dec c is).capacity ≡ c.capacity)
  unfolding remove_nodes
  remove_nodes-Rep c xs [] h a d = rw (keep_all xs) (h, omega arith, refl)
  remove_nodes-Rep c xs (i ∷ is) h a d =
      let (ys, x, zs, e, q) = place i xs a.0 in
      let whole = subst (Rep dec c) e h in
      let (rep, node, capacity) = remove_node-Rep dec c ys x zs whole in
      let absent = (Distinct-front (λ y. y.index) ys x zs whole.places).0 in
      let apart = subst (λ j. Absent j is) (sym q) d.0 in
      let there = subst (λ l. All (λ j. Absent j (indices l) → ⊥) is) e a.1 in
      let (out, size, same) =
        remove_nodes-Rep (remove_node dec c x.index).0 (ys ++ zs) is rep
          (still_there is ys x zs apart there) d.1 in
      let Out = λ (j : ℕ) (l : List (Cell K V)).
        Rep dec (remove_nodes dec (remove_node dec c j).0 is)
          (keep (λ y. not (member y.index (j ∷ is))) l)
        × (length l ≡ length (keep (λ y. not (member y.index (j ∷ is))) l) + suc (length is))
        × ((remove_nodes dec (remove_node dec c j).0 is).capacity ≡ c.capacity) in
      subst (λ j. Out j xs) q
        (subst (Out x.index) (sym e) (
          rw (keep-middle is ys x zs absent)
            (out, omega (arith, size, length-middle ys x zs), same ∙ capacity)))

  retain-keep :
      (p : K → V → Bool) (xs : List (Cell K V))
      → Maps.retain (λ k v. not (p k v)) (pairs (λ y. y.value) xs)
        ≡ pairs (λ y. y.value) (keep (λ y. not (p y.key y.value)) xs)
  unfolding Maps.retain
  retain-keep p [] = refl
  retain-keep p (x ∷ xs) = ground (arith, retain-keep p xs)

  collected :
      (p : K → V → Bool) (slots : Slots K V) (prev : Option ℕ) (xs : List (Cell K V))
      → Linked slots prev xs none
      → All (λ y. not (member y.index (matching_from p 0 slots)) ≡ not (p y.key y.value)) xs
  collected p slots prev [] h = tt
  collected p slots prev (x ∷ xs) h = (
    ap (λ j. not (member j (matching_from p 0 slots))) (from_zero x.index)
        ∙ ap not (member-matching_from p 0 slots x.index _ h.0),
    collected p slots (some x.index) xs h.1,
  )

  InUse-there :
      (c : LruCache K V) (xs : List (Cell K V)) (is : List ℕ) (p : K → V → Bool)
      → Rep dec c xs
      → All (InUse p c.nodes 0) is
      → All (λ i. Absent i (indices xs) → ⊥) is
  InUse-there c xs [] p h u = tt
  InUse-there c xs (i ∷ is) p h (u, us) =
      let (j, e, used) = u in
      (
        λ a. ground (
          arith,
          used,
          e,
          ap (λ m. is_some (node_at c.nodes m)) (sym (from_zero j)),
          ap (λ m. is_some (node_at c.nodes m)) e,
          h.used i a,
        ),
        InUse-there c xs is p h us,
      )

  -- `remove_where` keeps the entries that do not match, and counts the others.
  pub remove_where_cells :
      (c : LruCache K V) (p : K → V → Bool) (xs : List (Cell K V))
      → Rep dec c xs
      → Holds dec c.capacity
          (remove_where dec c p).0
          (Maps.retain (λ k v. not (p k v)) (pairs (λ y. y.value) xs))
        × (length xs
            ≡ length (Maps.retain (λ k v. not (p k v)) (pairs (λ y. y.value) xs))
              + (remove_where dec c p).1)
  unfolding remove_where
  remove_where_cells c p xs h =
      let is = matching_from p 0 c.nodes in
      let (rep, size, capacity) =
        remove_nodes-Rep c xs is h (InUse-there c xs is p h (matching_from-InUse p 0 c.nodes))
          (matching_from-Distinct p 0 c.nodes) in
      let same =
        keep-same (λ y. not (member y.index is)) (λ y. not (p y.key y.value)) xs
          (collected p c.nodes none xs h.linked) in
      let entries = ap (pairs (λ y. y.value)) same ∙ sym (retain-keep p xs) in
      (
        (keep (λ y. not (member y.index is)) xs, rep, entries, capacity),
        omega (
          arith,
          size,
          ap length entries,
          length-map {B = K × V} (λ y. (y.key, y.value)) (keep (λ y. not (member y.index is)) xs),
        ),
      )
