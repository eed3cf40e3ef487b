-- ===== src/Smear/LruCache/Collecting.antt =====
-- The indices that `remove_where` of smear-cursor/src/events/lru_cache.rs collects.
use dotfiles_nix.Base.{
  ℕ, zero, suc, ◌≡◌, ◌≤◌, ◌+◌, refl, List, [], ◌∷◌, Option, none, some, Absent, Distinct, All,
  arith, ◌==◌, is_some, Bool, true, false, ◌||◌, Bool-cases, inl, inr,
}
use dotfiles_nix.Smear.LruCache.{LruCacheNode, node_at, matching_from}
use dotfiles_nix.Smear.LruCache.Links.{Slots}

abbrev pub member : ℕ → List ℕ → Bool
member i [] = false
member i (j ∷ js) = (j == i) || member i js

pub from_zero : (i : ℕ) → i ≡ 0 + i
from_zero i = omega arith

member_later : (i : ℕ) (js : List ℕ) → All (λ j. suc i ≤ j) js → member i js ≡ false
member_later i [] h = refl
member_later i (j ∷ js) h = ground (arith, h.0, member_later i js h.1)

after-Absent : (i : ℕ) (js : List ℕ) → All (λ j. suc i ≤ j) js → Absent i js
after-Absent i [] h = tt
after-Absent i (j ∷ js) h = ((λ e. absurd (omega (arith, h.0))), after-Absent i js h.1)

later : (i : ℕ) (js : List ℕ) → All (λ j. suc i ≤ j) js → All (λ j. i ≤ j) js
later i [] h = tt
later i (j ∷ js) h = (omega (arith, h.0), later i js h.1)

module _ {K V : Type 0} (p : K → V → Bool) where
  -- Every index stands for a slot in use.
  abbrev pub InUse : Slots K V → ℕ → ℕ → Type 0
  InUse slots k i = (j : ℕ) × (i ≡ k + j) × (is_some (node_at slots j) ≡ true)

  shift :
      (s : Option (LruCacheNode K V)) (slots : Slots K V) (k : ℕ) (is : List ℕ)
      → All (InUse slots (suc k)) is
      → All (InUse (s ∷ slots) k) is
  shift s slots k [] h = tt
  shift s slots k (i ∷ is) (h, hs) =
      let (j, e, u) = h in ((suc j, omega arith, u), shift s slots k is hs)

  pub matching_from-InUse :
      (k : ℕ) (slots : Slots K V) → All (InUse slots k) (matching_from p k slots)
  unfolding matching_from
  matching_from-InUse k [] = tt
  matching_from-InUse k (none ∷ slots) =
      shift none slots k (matching_from p (suc k) slots) (matching_from-InUse (suc k) slots)
  matching_from-InUse k (some n ∷ slots) =
      let rest =
        shift (some n) slots k (matching_from p (suc k) slots)
          (matching_from-InUse (suc k) slots) in
      elim (Bool-cases (p n.key n.value)) [
        | inl e ↦ rw (e, matching_from) ((0, omega arith, refl), rest)
        | inr e ↦ rw (e, matching_from) rest
      ]

  matching_from-le : (k : ℕ) (slots : Slots K V) → All (λ j. k ≤ j) (matching_from p k slots)
  unfolding matching_from
  matching_from-le k [] = tt
  matching_from-le k (none ∷ slots) =
      later k (matching_from p (suc k) slots) (matching_from-le (suc k) slots)
  matching_from-le k (some n ∷ slots) =
      let rest = later k (matching_from p (suc k) slots) (matching_from-le (suc k) slots) in
      elim (Bool-cases (p n.key n.value)) [
        | inl e ↦ rw (e, matching_from) (omega arith, rest)
        | inr e ↦ rw (e, matching_from) rest
      ]

  pub matching_from-Distinct : (k : ℕ) (slots : Slots K V) → Distinct (matching_from p k slots)
  unfolding matching_from
  matching_from-Distinct k [] = tt
  matching_from-Distinct k (none ∷ slots) = matching_from-Distinct (suc k) slots
  matching_from-Distinct k (some n ∷ slots) =
      let rest = matching_from-Distinct (suc k) slots in
      elim (Bool-cases (p n.key n.value)) [
        | inl e ↦
            rw (e, matching_from)
              (
                after-Absent k (matching_from p (suc k) slots) (matching_from-le (suc k) slots),
                rest,
              )
        | inr e ↦ rw (e, matching_from) rest
      ]

  -- An index is collected exactly if its node matches.
  pub member-matching_from :
      (k : ℕ) (slots : Slots K V) (i : ℕ) (n : LruCacheNode K V)
      → node_at slots i ≡ some n
      → member (k + i) (matching_from p k slots) ≡ p n.key n.value
  unfolding matching_from
  member-matching_from k [] i n h = ground arith
  member-matching_from k (none ∷ slots) zero n h = ground arith
  member-matching_from k (none ∷ slots) (suc i) n h =
      ground (arith, member-matching_from (suc k) slots i n h)
  member-matching_from k (some m ∷ slots) zero n h =
      ground
        (arith, h, member_later k (matching_from p (suc k) slots) (matching_from-le (suc k) slots))
  member-matching_from k (some m ∷ slots) (suc i) n h =
      ground (arith, member-matching_from (suc k) slots i n h)
