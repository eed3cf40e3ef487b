-- ===== src/Theme/Catalog.antt =====
-- The themes and their order: ThemeSpec, ThemeCatalog and the cycling functions of
-- theme-switcher/src/core/reducer.rs, and selection.rs. `S` is the type of strings. A `NonEmpty`
-- is its list, and an index is its number.
use dotfiles_nix.Base.{
  ℕ, suc, ◌+◌, ◌-◌, ◌%◌, Bool, List, [], ◌∷◌, Option, none, some, if◌then◌else◌, length, get_elem?,
  ◌==◌, ltb, leb, is_some, or_else, unwrap_or,
}
use dotfiles_nix.Base.Maps.{Map, get, insert}

pub data ThemeSpecError : Type 0 where
  empty_name empty_colorscheme : ThemeSpecError

pub data Result (A E : Type 0) : Type 0 where
  ok : A → Result A E
  err : E → Result A E

pub record ThemeSpec (S : Type 0) : Type 0 where
  pub name : S
  pub colorscheme : S

-- `ThemeSpec::try_new`, which asks first whether the name is empty.
unfoldable pub try_new : {S : Type 0} → (S → Bool) → S → S → Result (ThemeSpec S) ThemeSpecError
try_new is_empty name colorscheme =
    if is_empty name
    then err empty_name
    else if is_empty colorscheme
    then err empty_colorscheme
    else ok (record { name = name; colorscheme = colorscheme })

pub record ThemeCatalog (S : Type 0) : Type 0 where
  pub themes : List (ThemeSpec S)
  pub colorscheme_to_index : Map S ℕ

pub data ThemeCycleDirection : Type 0 where
  next prev : ThemeCycleDirection

module _ {S : Type 0} (dec : Discrete S) where
  -- `entry(key).or_insert(index)`.
  abbrev pub or_insert : S → ℕ → Map S ℕ → Map S ℕ
  or_insert k i m = if is_some (get dec k m) then m else insert dec k i m

  -- The loop over the themes from number `raw` on.
  unfoldable pub build_from : ℕ → List (ThemeSpec S) → Map S ℕ → Map S ℕ
  build_from raw [] m = m
  build_from raw (t ∷ ts) m = build_from (suc raw) ts (or_insert t.colorscheme raw m)

  unfoldable pub build_colorscheme_index : List (ThemeSpec S) → Map S ℕ
  build_colorscheme_index ts = build_from 0 ts []

  unfoldable pub try_from_vec : List (ThemeSpec S) → Option (ThemeCatalog S)
  try_from_vec [] = none
  try_from_vec (t ∷ ts) =
      some (record { themes = t ∷ ts; colorscheme_to_index = build_colorscheme_index (t ∷ ts) })

  unfoldable pub find_by_colorscheme : ThemeCatalog S → S → Option ℕ
  find_by_colorscheme c name = get dec name c.colorscheme_to_index

module _ {S : Type 0} where
  abbrev pub len : ThemeCatalog S → ℕ
  len c = length c.themes

  abbrev pub first_index : ThemeCatalog S → ℕ
  first_index c = 0

  abbrev pub last_index : ThemeCatalog S → ℕ
  last_index c = len c - 1

  abbrev pub index : ThemeCatalog S → ℕ → Option ℕ
  index c raw = if ltb raw (len c) then some raw else none

  abbrev pub get_theme : ThemeCatalog S → ℕ → Option (ThemeSpec S)
  get_theme c i = get_elem? c.themes i

  unfoldable pub next_wrapped : ThemeCatalog S → ℕ → Option ℕ
  next_wrapped c current =
      if is_some (get_theme c current)
      then (if leb (len c) 1 then some current else some ((current + 1) % len c))
      else none

  unfoldable pub prev_wrapped : ThemeCatalog S → ℕ → Option ℕ
  prev_wrapped c current =
      if is_some (get_theme c current)
      then (if leb (len c) 1
          then some current
          else some (if current == 0 then len c - 1 else current - 1))
      else none

  unfoldable pub cycle_theme_index_from_index : ThemeCatalog S → Option ℕ → ThemeCycleDirection → ℕ
  cycle_theme_index_from_index c (some i) next = unwrap_or (next_wrapped c i) i
  cycle_theme_index_from_index c none next = first_index c
  cycle_theme_index_from_index c (some i) prev = unwrap_or (prev_wrapped c i) i
  cycle_theme_index_from_index c none prev = last_index c

module _ {S : Type 0} (dec : Discrete S) where
  abbrev and_find : ThemeCatalog S → Option S → Option ℕ
  and_find c none = none
  and_find c (some name) = find_by_colorscheme dec c name

  unfoldable pub cycle_theme_index : ThemeCatalog S → Option S → ThemeCycleDirection → ℕ
  cycle_theme_index c current direction =
      cycle_theme_index_from_index c (and_find c current) direction

  unfoldable pub resolve_effective_theme_index : ThemeCatalog S → Option S → Option S → Option ℕ
  resolve_effective_theme_index c persisted current =
      or_else (and_find c persisted) (and_find c current)
