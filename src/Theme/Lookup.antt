-- ===== src/Theme/Lookup.antt =====
-- Finding a theme by its colorscheme: the index that theme-switcher/src/core/reducer.rs builds.
use dotfiles_nix.Base.{
  ℕ, suc, ◌≡◌, ◌∙◌, List, [], ◌∷◌, Option, none, some, ite, or_else, arith, ◌↔◌,
}
use dotfiles_nix.Base.Maps.{Map, get, get-insert}
use dotfiles_nix.Theme.Catalog.{
  ThemeSpec, ThemeCatalog, or_insert, build_from, build_colorscheme_index, try_from_vec,
  find_by_colorscheme,
}

module _ {S : Type 0} (dec : Discrete S) where
  -- The place of the first theme with the colorscheme, from number `raw` on.
  unfoldable pub first_from : ℕ → S → List (ThemeSpec S) → Option ℕ
  first_from raw name [] = none
  first_from raw name (t ∷ ts) =
      ite (dec t.colorscheme name) (some raw) (first_from (suc raw) name ts)

  build_from-first :
      (raw : ℕ) (ts : List (ThemeSpec S)) (m : Map S ℕ) (name : S)
      → get dec name (build_from dec raw ts m) ≡ or_else (get dec name m) (first_from raw name ts)
  unfolding build_from first_from
  build_from-first raw [] m name = ground arith
  build_from-first raw (t ∷ ts) m name =
      build_from-first (suc raw) ts (or_insert dec t.colorscheme raw m) name
      ∙ ground (arith, get-insert dec t.colorscheme name raw m)

  -- What a catalog answers for the catalog and themes it is built from.
  abbrev pub found : Option (ThemeCatalog S) → S → Option ℕ
  found none name = none
  found (some c) name = find_by_colorscheme dec c name

  -- A list of themes makes a catalog exactly when it is not empty, and the catalog finds the first
  -- theme of the list that has the colorscheme.
  pub try_from_vec-first :
      (ts : List (ThemeSpec S)) (name : S)
      → (try_from_vec dec ts ≡ none ↔ ts ≡ [])
        × found (try_from_vec dec ts) name ≡ first_from 0 name ts
  unfolding first_from try_from_vec find_by_colorscheme build_colorscheme_index get
  try_from_vec-first [] name = ground arith
  try_from_vec-first (t ∷ ts) name = (ground arith, build_from-first 0 (t ∷ ts) [] name)
