-- ===== src/Base/Maps.antt =====
-- Maps from keys to values as association lists: `HashMap` and `BTreeMap`, whose order of
-- iteration no client reads. `insert` and `remove` leave at most one entry for a key.
use dotfiles_nix.Base.Lists.{length, Absent, Distinct}
use dotfiles_nix.Base.Tests.{is_some, Bool-cases, if◌then◌else◌}
use Prim.Native.Nat.{◌≤◌, ◌<◌}
use mathlib.Core.Path.{◌≡◌, refl}
use mathlib.Core.Logic.{inl, inr, ite, if_pos, if_neg}
use mathlib.Core.Bool.{Bool, true}
use mathlib.Core.List.{List, [], ◌∷◌, map}
use mathlib.Core.Option.{Option, none, some}
use native.Mathlib.Omega.{arith}

abbrev pub Map {ℓ} : Type ℓ → Type ℓ → Type ℓ
Map K V = List (K × V)

abbrev pub keys {ℓ} : {K V : Type ℓ} → Map K V → List K
keys = map (λ e. e.0)

-- `HashMap::retain`.
unfoldable pub retain {ℓ} : {K V : Type ℓ} → (K → V → Bool) → Map K V → Map K V
retain keep [] = []
retain keep ((k, v) ∷ m) = if keep k v then (k, v) ∷ retain keep m else retain keep m

module _ {ℓ} {K V : Type ℓ} (dec : Discrete K) where
  unfoldable pub get : K → Map K V → Option V
  get k [] = none
  get k ((j, v) ∷ m) = ite (dec j k) (some v) (get k m)

  unfoldable pub remove : K → Map K V → Map K V
  remove k [] = []
  remove k ((j, v) ∷ m) = ite (dec j k) (remove k m) ((j, v) ∷ remove k m)

  unfoldable pub insert : K → V → Map K V → Map K V
  insert k v m = (k, v) ∷ remove k m

  pub get-remove : (k j : K) (m : Map K V) → get j (remove k m) ≡ ite (dec k j) none (get j m)
  unfolding get remove
  get-remove k j [] = ground arith
  get-remove k j ((i, v) ∷ m) = ground (arith, get-remove k j m)

  pub get-insert :
      (k j : K) (v : V) (m : Map K V) → get j (insert k v m) ≡ ite (dec k j) (some v) (get j m)
  unfolding get insert
  get-insert k j v m = ground (arith, get-remove k j m)

  pub get-remove_self : (k : K) (m : Map K V) → get k (remove k m) ≡ none
  get-remove_self k m = ground (arith, get-remove k k m)

  pub get-insert_self : (k : K) (v : V) (m : Map K V) → get k (insert k v m) ≡ some v
  get-insert_self k v m = ground (arith, get-insert k k v m)

  pub Absent-remove_of_Absent :
      (a k : K) (m : Map K V) → Absent a (keys m) → Absent a (keys (remove k m))
  unfolding remove
  Absent-remove_of_Absent a k [] h = tt
  Absent-remove_of_Absent a k ((j, v) ∷ m) h = elim (dec j k) [
    | yes e ↦ rw (if_pos _ e) (Absent-remove_of_Absent a k m h.1)
    | no n ↦ rw (if_neg _ n) (h.0, Absent-remove_of_Absent a k m h.1)
  ]

  pub Absent-remove : (k : K) (m : Map K V) → Absent k (keys (remove k m))
  unfolding remove
  Absent-remove k [] = tt
  Absent-remove k ((j, v) ∷ m) = elim (dec j k) [
    | yes e ↦ rw (if_pos _ e) (Absent-remove k m)
    | no n ↦ rw (if_neg _ n) (n, Absent-remove k m)
  ]

  pub remove-Distinct : (k : K) (m : Map K V) → Distinct (keys m) → Distinct (keys (remove k m))
  unfolding remove
  remove-Distinct k [] h = tt
  remove-Distinct k ((j, v) ∷ m) h = elim (dec j k) [
    | yes e ↦ rw (if_pos _ e) (remove-Distinct k m h.1)
    | no n ↦ rw (if_neg _ n) (Absent-remove_of_Absent j k m h.0, remove-Distinct k m h.1)
  ]

  pub insert-Distinct :
      (k : K) (v : V) (m : Map K V) → Distinct (keys m) → Distinct (keys (insert k v m))
  unfolding insert
  insert-Distinct k v m h = (Absent-remove k m, remove-Distinct k m h)

  -- Removing an absent key changes nothing.
  pub remove_of_none : (k : K) (m : Map K V) → get k m ≡ none → remove k m ≡ m
  unfolding get remove
  remove_of_none k [] h = refl
  remove_of_none k ((j, v) ∷ m) h = ground (arith, remove_of_none k m)

  pub get_of_Absent : (k : K) (m : Map K V) → Absent k (keys m) → get k m ≡ none
  unfolding get
  get_of_Absent k [] h = refl
  get_of_Absent k ((j, v) ∷ m) h = elim (dec j k) [
    | yes e ↦ absurd (h.0 e)
    | no n ↦ rw (if_neg _ n) (get_of_Absent k m h.1)
  ]

  module _ (keep : K → V → Bool) where
    pub Absent-retain : (a : K) (m : Map K V) → Absent a (keys m) → Absent a (keys (retain keep m))
    unfolding retain
    Absent-retain a [] h = tt
    Absent-retain a ((j, v) ∷ m) h = elim (Bool-cases (keep j v)) [
      | inl e ↦ rw e (h.0, Absent-retain a m h.1)
      | inr e ↦ rw e (Absent-retain a m h.1)
    ]

    pub retain-Distinct : (m : Map K V) → Distinct (keys m) → Distinct (keys (retain keep m))
    unfolding retain
    retain-Distinct [] h = tt
    retain-Distinct ((j, v) ∷ m) h = elim (Bool-cases (keep j v)) [
      | inl e ↦ rw e (Absent-retain j m h.0, retain-Distinct m h.1)
      | inr e ↦ rw e (retain-Distinct m h.1)
    ]

    -- What an entry of `retain` is, where keys are distinct.
    pub get-retain :
        (k : K) (m : Map K V)
        → Distinct (keys m)
        → get k (retain keep m)
          ≡ elim (get k m) [ none ↦ none | some v ↦ if keep k v then some v else none ]
    unfolding get retain
    get-retain k [] h = refl
    get-retain k ((j, v) ∷ m) h = elim (dec j k) [
      | yes e ↦ ground (arith, get_of_Absent j (retain keep m) (Absent-retain j m h.0))
      | no n ↦ ground (arith, get-retain k m h.1)
    ]

pub length-retain-le {ℓ} :
    {K V : Type ℓ} (keep : K → V → Bool) (m : Map K V) → length (retain keep m) ≤ length m
unfolding retain
length-retain-le keep [] = omega arith
length-retain-le keep ((j, v) ∷ m) = ground (arith, length-retain-le keep m)

module _ {ℓ} {K V : Type ℓ} (dec : Discrete K) where
  pub length-remove-le : (k : K) (m : Map K V) → length (remove dec k m) ≤ length m
  unfolding remove
  length-remove-le k [] = omega arith
  length-remove-le k ((j, v) ∷ m) = ground (arith, length-remove-le k m)

  pub length-remove-lt :
      (k : K) (m : Map K V) → is_some (get dec k m) ≡ true → length (remove dec k m) < length m
  unfolding remove get
  length-remove-lt k [] h = ground arith
  length-remove-lt k ((j, v) ∷ m) h = elim (dec j k) [
    | yes e ↦ rw (if_pos _ e) (omega (arith, length-remove-le k m))
    | no n ↦ rw (if_neg _ n) (omega (arith, length-remove-lt k m (rw (if_neg _ n) at h)))
  ]
