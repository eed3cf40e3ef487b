-- ===== src/Smear/LruCache/Cells.antt =====
-- The cells of smear-cursor/src/events/lru_cache.rs as an association list: one cell taken out of
-- the middle, put at the front or changed in place.
use dotfiles_nix.Base.{
  suc, ◌≡◌, ◌≢◌, refl, sym, ap, List, [], ◌∷◌, ◌++◌, none, some, map, Absent, Distinct, arith,
  length, ite, ◌⊎◌, inl, inr,
}
use dotfiles_nix.Base.Maps
use dotfiles_nix.Smear.LruCache.Links.{Cell}

module _ {A B : Type 0} (f : A → B) where
  Absent-drop :
      (a : B) (ys : List A) (x : A) (zs : List A)
      → Absent a (map f (ys ++ x ∷ zs))
      → (f x ≢ a) × Absent a (map f (ys ++ zs))
  Absent-drop a [] x zs h = h
  Absent-drop a (y ∷ ys) x zs h = let (n, rest) = Absent-drop a ys x zs h.1 in (n, (h.0, rest))

  pub Distinct-front :
      (ys : List A) (x : A) (zs : List A)
      → Distinct (map f (ys ++ x ∷ zs))
      → Distinct (map f (x ∷ ys ++ zs))
  Distinct-front [] x zs h = h
  Distinct-front (y ∷ ys) x zs h =
      let (n, rest) = Absent-drop (f y) ys x zs h.0 in
      let (front, others) = Distinct-front ys x zs h.1 in ((λ e. n (sym e), front), (rest, others))

  -- What is absent after a cell is moved was absent before.
  pub Absent-back :
      (a : B) (ys : List A) (x : A) (zs : List A)
      → (f x ≢ a)
      → Absent a (map f (ys ++ zs))
      → Absent a (map f (ys ++ x ∷ zs))
  Absent-back a [] x zs n h = (n, h)
  Absent-back a (y ∷ ys) x zs n h = (h.0, Absent-back a ys x zs n h.1)

  pub Absent-before : (a : B) (ys zs : List A) → Absent a (map f (ys ++ zs)) → Absent a (map f ys)
  Absent-before a [] zs h = tt
  Absent-before a (y ∷ ys) zs h = (h.0, Absent-before a ys zs h.1)

  pub Absent-after : (a : B) (ys zs : List A) → Absent a (map f (ys ++ zs)) → Absent a (map f zs)
  Absent-after a [] zs h = h
  Absent-after a (y ∷ ys) zs h = Absent-after a ys zs h.1

  -- A cell is replaced by one that looks the same.
  pub map-change :
      (ys : List A) (x x1 : A) (zs : List A)
      → f x1 ≡ f x
      → map f (ys ++ x1 ∷ zs) ≡ map f (ys ++ x ∷ zs)
  map-change [] x x1 zs e = rw e refl
  map-change (y ∷ ys) x x1 zs e = ap (λ r. f y ∷ r) (map-change ys x x1 zs e)

pub length-middle :
    {A : Type 0} (ys : List A) (x : A) (zs : List A)
    → length (ys ++ x ∷ zs) ≡ suc (length (ys ++ zs))
length-middle [] x zs = refl
length-middle (y ∷ ys) x zs = ap suc (length-middle ys x zs)

module _ {K V : Type 0} where
  abbrev pub cell_keys : List (Cell K V) → List K
  cell_keys = map (λ x. x.key)

  -- The cells as a map to their indices, or to their values.
  abbrev pub pairs : {T : Type 0} → (Cell K V → T) → List (Cell K V) → Maps.Map K T
  pairs f = map (λ x. (x.key, f x))

module _ {K V : Type 0} (dec : Discrete K) where
  pub get-Absent :
      {T : Type 0} (f : Cell K V → T) (k : K) (xs : List (Cell K V))
      → Absent k (cell_keys xs)
      → Maps.get dec k (pairs f xs) ≡ none
  unfolding Maps.get
  get-Absent f k [] h = refl
  get-Absent f k (x ∷ xs) h = ground (arith, get-Absent f k xs h.1, h.0)

  pub remove-Absent :
      {T : Type 0} (f : Cell K V → T) (k : K) (xs : List (Cell K V))
      → Absent k (cell_keys xs)
      → Maps.remove dec k (pairs f xs) ≡ pairs f xs
  unfolding Maps.remove
  remove-Absent f k [] h = refl
  remove-Absent f k (x ∷ xs) h = ground (arith, remove-Absent f k xs h.1, h.0)

  pub get-middle :
      {T : Type 0} (f : Cell K V → T) (k : K) (ys : List (Cell K V)) (x : Cell K V)
      (zs : List (Cell K V))
      → Absent x.key (cell_keys ys)
      → Maps.get dec k (pairs f (ys ++ x ∷ zs))
        ≡ ite (dec x.key k) (some (f x)) (Maps.get dec k (pairs f (ys ++ zs)))
  unfolding Maps.get
  get-middle f k [] x zs h = refl
  get-middle f k (y ∷ ys) x zs h = ground (arith, get-middle f k ys x zs h.1, h.0)

  pub remove-middle :
      {T : Type 0} (f : Cell K V → T) (ys : List (Cell K V)) (x : Cell K V) (zs : List (Cell K V))
      → Absent x.key (cell_keys (ys ++ zs))
      → Maps.remove dec x.key (pairs f (ys ++ x ∷ zs)) ≡ pairs f (ys ++ zs)
  unfolding Maps.remove
  remove-middle f [] x zs h = ground (arith, remove-Absent f x.key zs h)
  remove-middle f (y ∷ ys) x zs h = ground (arith, remove-middle f ys x zs h.1, h.0)

  -- A key stands at no cell, or at one that the list splits at.
  pub find_cell :
      (k : K) (xs : List (Cell K V))
      → Absent k (cell_keys xs)
        ⊎ ((ys : List (Cell K V)) × (x : Cell K V) × (zs : List (Cell K V)) × (xs ≡ ys ++ x ∷ zs)
            × (x.key ≡ k))
  find_cell k [] = inl tt
  find_cell k (x ∷ xs) = elim (dec x.key k) [
    | yes e ↦ inr ([], x, xs, refl, e)
    | no n ↦ elim (find_cell k xs) [
      | inl a ↦ inl (n, a)
      | inr (ys, y, zs, e, h) ↦ inr (x ∷ ys, y, zs, ap (λ r. x ∷ r) e, h)
    ]
  ]
