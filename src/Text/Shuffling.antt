-- ===== src/Text/Shuffling.antt =====
-- Lines in a random order: `randomize_lines` of plugins/text/src/core/mod.rs.
use dotfiles_nix.Base.{
  ℕ, zero, suc, ◌+◌, ◌-◌, ◌%◌, ◌≡◌, ◌<◌, ◌⊎◌, refl, ap, ◌∙◌, Bool, true, false, List, [], ◌∷◌, some,
  length, leb, if◌then◌else◌, arith, Bool-cases, inl, inr, ◌==◌,
}
use mathlib.Core.Option
use native.Mathlib.Nat.{mod-lt}
use dotfiles_nix.Text.{
  item_at, set_item, swap, next_u64, shuffle_from, shuffle_with_rng, small_rng, randomize_lines,
}

abbrev pub one : Bool → ℕ
one true = 1
one false = 0

in_range : (i n : ℕ) → (suc i ≡ 0) ⊎ (suc i < n) → suc i < n
in_range i n (inl e) = absurd (omega arith)
in_range i n (inr h) = h

start : (n : ℕ) → leb n 1 ≡ false → (n - 1 ≡ 0) ⊎ (n - 1 < n)
start n h = inr (ground arith)

module _ {A : Type 0} where
  -- How many elements pass a test.
  abbrev pub count : (A → Bool) → List A → ℕ
  count p [] = 0
  count p (x ∷ xs) = one (p x) + count p xs

  length-set_item : (xs : List A) (i : ℕ) (v : A) → length (set_item xs i v) ≡ length xs
  length-set_item [] i v = refl
  length-set_item (x ∷ xs) zero v = refl
  length-set_item (x ∷ xs) (suc i) v = ap suc (length-set_item xs i v)

  -- The element that is replaced goes, the new one comes.
  count-set_item :
      (p : A → Bool) (xs : List A) (i : ℕ) (old v : A)
      → item_at xs i ≡ some old
      → count p (set_item xs i v) + one (p old) ≡ count p xs + one (p v)
  count-set_item p [] i old v h = ground arith
  count-set_item p (x ∷ xs) zero old v h = ground (arith, h)
  count-set_item p (x ∷ xs) (suc i) old v h = omega (arith, count-set_item p xs i old v h)

  item_at-set_item :
      (xs : List A) (i j : ℕ) (v : A)
      → i < length xs
      → item_at (set_item xs i v) j ≡ (if i == j then some v else item_at xs j)
  item_at-set_item [] i j v h = absurd (omega arith)
  item_at-set_item (x ∷ xs) zero zero v h = refl
  item_at-set_item (x ∷ xs) zero (suc j) v h = ground arith
  item_at-set_item (x ∷ xs) (suc i) zero v h = ground arith
  item_at-set_item (x ∷ xs) (suc i) (suc j) v h =
      ground (arith, item_at-set_item xs i j v (omega arith))

  item_at_lt : (xs : List A) (i : ℕ) → i < length xs → (x : A) × (item_at xs i ≡ some x)
  item_at_lt [] i h = absurd (omega arith)
  item_at_lt (x ∷ xs) zero h = (x, refl)
  item_at_lt (x ∷ xs) (suc i) h = item_at_lt xs i (omega arith)

  -- Two elements in range change places.
  swap_lem :
      (xs : List A) (i j : ℕ)
      → i < length xs
      → j < length xs
      → (out : List A) × (swap xs i j ≡ some out)
        × (length out ≡ length xs)
        × ((p : A → Bool) → count p out ≡ count p xs)
  unfolding swap Option.bind
  swap_lem xs i j hi hj =
      let (x, ex) = item_at_lt xs i hi in
      let (y, ey) = item_at_lt xs j hj in
      (
        set_item (set_item xs i y) j x,
        rw (ex, ey) refl,
        length-set_item (set_item xs i y) j x ∙ length-set_item xs i y,
        λ p. omega (
          arith,
          count-set_item p xs i x y ex,
          count-set_item p (set_item xs i y) j y x
              (ground (arith, ey, item_at-set_item xs i j y hi)),
        ),
      )

  -- The loop keeps every element, and its indices are in range.
  shuffle_from_lem :
      (i : ℕ) (xs : List A) (state : ℕ)
      → (i ≡ 0) ⊎ (i < length xs)
      → (out : List A) × (shuffle_from i xs state ≡ some out)
        × ((p : A → Bool) → count p out ≡ count p xs)
  unfolding shuffle_from Option.bind
  shuffle_from_lem zero xs state h = (xs, refl, λ p. refl)
  shuffle_from_lem (suc i) xs state h =
      let next = next_u64 state in
      let inside : suc i < length xs = in_range i (length xs) h in
      let (mid, e, size, same) =
        swap_lem xs (suc i) (next % (suc i + 1)) inside
          (omega (arith, inside, mod-lt next {m = suc i + 1} (omega arith))) in
      let (out, f, kept) = shuffle_from_lem i mid next (inr (omega (arith, inside, size))) in
      (out, rw e f, λ p. kept p ∙ same p)

  -- A random order of the lines has the same lines, each as often; no index is out of range,
  -- whatever the seed.
  pub randomize_lines_lem :
      (lines : List A) (seed : ℕ)
      → (out : List A) × (randomize_lines lines seed ≡ some out)
        × ((p : A → Bool) → count p out ≡ count p lines)
  unfolding randomize_lines shuffle_with_rng
  randomize_lines_lem lines seed = elim (Bool-cases (leb (length lines) 1)) [
    | inl e ↦ (lines, rw e refl, λ p. refl)
    | inr e ↦
        let (out, f, kept) =
          shuffle_from_lem (length lines - 1) lines (small_rng seed) (start (length lines) e) in
        (out, rw e f, kept)
  ]
