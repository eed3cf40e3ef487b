-- ===== src/Theme/Cycle.antt =====
-- The wrapped order of theme-switcher/src/core/reducer.rs.
use dotfiles_nix.Base.{
  ℕ, zero, suc, ◌+◌, ◌-◌, ◌%◌, ◌<◌, ◌≡◌, sym, ap, ◌∙◌, List, [], ◌∷◌, none, some, if◌then◌else◌,
  length, get_elem?, ◌==◌, ltb, is_some, arith,
}
use dotfiles_nix.Theme.Catalog.{
  ThemeCatalog, ThemeCycleDirection, next, prev, len, next_wrapped, prev_wrapped,
  cycle_theme_index_from_index,
}
use native.Mathlib.Nat.{mod-eq_of_lt, mod_self, mod-lt, mod-add-mod}

pub get_elem?-is_some :
    {A : Type 0} (xs : List A) (i : ℕ) → is_some (get_elem? xs i) ≡ ltb i (length xs)
get_elem?-is_some [] i = ground arith
get_elem?-is_some (x ∷ xs) zero = ground arith
get_elem?-is_some (x ∷ xs) (suc i) = ground (arith, get_elem?-is_some xs i)

-- Both orders on a catalog of `n` themes, as numbers.
abbrev pub after : ℕ → ℕ → ℕ
after n i = if i + 1 == n then 0 else i + 1

abbrev pub before : ℕ → ℕ → ℕ
before n i = if i == 0 then n - 1 else i - 1

mod-after : (i n : ℕ) → i < n → (i + 1) % n ≡ after n i
mod-after i n h = ground (arith, mod_self n, λ (l : i + 1 < n). mod-eq_of_lt l)

module _ {S : Type 0} where
  pub next_wrapped-after :
      (c : ThemeCatalog S) (i : ℕ)
      → next_wrapped c i ≡ (if ltb i (len c) then some (after (len c) i) else none)
  unfolding next_wrapped
  next_wrapped-after c i = ground (arith, get_elem?-is_some c.themes i, mod-after i (len c))

  pub prev_wrapped-before :
      (c : ThemeCatalog S) (i : ℕ)
      → prev_wrapped c i ≡ (if ltb i (len c) then some (before (len c) i) else none)
  unfolding prev_wrapped
  prev_wrapped-before c i = ground (arith, get_elem?-is_some c.themes i)

  cycle-after :
      (c : ThemeCatalog S) (i : ℕ)
      → i < len c
      → cycle_theme_index_from_index c (some i) next ≡ after (len c) i
  unfolding cycle_theme_index_from_index
  cycle-after c i h = ground (arith, next_wrapped-after c i)

  cycle-before :
      (c : ThemeCatalog S) (i : ℕ)
      → i < len c
      → cycle_theme_index_from_index c (some i) prev ≡ before (len c) i
  unfolding cycle_theme_index_from_index
  cycle-before c i h = ground (arith, prev_wrapped-before c i)

  -- On the indexes of a catalog each direction undoes the other.
  pub wrapped_inverse :
      (c : ThemeCatalog S) (i : ℕ)
      → i < len c
      → cycle_theme_index_from_index c (some (cycle_theme_index_from_index c (some i) next)) prev
          ≡ i
        × cycle_theme_index_from_index c (some (cycle_theme_index_from_index c (some i) prev)) next
          ≡ i
  wrapped_inverse c i h =
      let n = len c in
      (
        rw (cycle-after c i h) (cycle-before c (after n i) (ground arith) ∙ ground arith),
        rw (cycle-before c i h) (cycle-after c (before n i) (ground arith) ∙ ground arith),
      )

  -- Cycling a catalog with a theme from any of its indexes or from none leads to one of its
  -- indexes.
  pub cycle-lt :
      (c : ThemeCatalog S) (i : ℕ) (direction : ThemeCycleDirection)
      → i < len c
      → cycle_theme_index_from_index c (some i) direction < len c
        × cycle_theme_index_from_index c none direction < len c
  unfolding cycle_theme_index_from_index
  cycle-lt c i direction h = ground (arith, next_wrapped-after c i, prev_wrapped-before c i)

  unfoldable pub cycle_times : ThemeCatalog S → ℕ → ℕ → ℕ
  cycle_times c zero i = i
  cycle_times c (suc k) i = cycle_theme_index_from_index c (some (cycle_times c k i)) next

  -- Cycling `k` times forward from index `i` of a catalog of `n` themes leads to
  -- `(i + k) % n`: every theme is reached, and `n` steps lead back.
  cycle_times-mod : (c : ThemeCatalog S) (i k : ℕ) → i < len c → cycle_times c k i ≡ (i + k) % len c
  unfolding cycle_times
  cycle_times-mod c i zero h = ground (arith, mod-eq_of_lt h)
  cycle_times-mod c i (suc k) h =
      let n = len c in
      let at : cycle_times c k i < n =
        rw (cycle_times-mod c i k h) (mod-lt (i + k) (omega arith)) in
      cycle-after c (cycle_times c k i) at
      ∙ sym (mod-after (cycle_times c k i) n at)
      ∙ ap (λ x. (x + 1) % n) (cycle_times-mod c i k h)
      ∙ mod-add-mod (i + k) n 1
      ∙ ap (λ x. x % n) (omega arith)
