-- ===== src/Tests/Theme.antt =====
-- The theme switcher on a catalog of three themes whose strings are numbers.
use dotfiles_nix.Base.{ℕ, ◌≡◌, ◌↔◌, none, List, [], ◌∷◌, arith, ℕ_discrete}
use dotfiles_nix.Theme.Catalog.{ThemeSpec, ThemeCatalog, try_from_vec, build_colorscheme_index}
use dotfiles_nix.Theme.Lookup.{found, first_from, try_from_vec-first}
use dotfiles_nix.Theme.Picker.{ThemeSwitcherEvent, move_next, move_prev, confirm, cancel, new}
use dotfiles_nix.Theme.Session.{screen_of, play, run, play-screen_of, IsValid, run-IsValid}

abbrev theme : ℕ → ThemeSpec ℕ
theme n = record { name = n; colorscheme = n }

abbrev themes : List (ThemeSpec ℕ)
themes = theme 7 ∷ theme 8 ∷ theme 7 ∷ []

abbrev catalog : ThemeCatalog ℕ
catalog = record {
  themes = themes;
  colorscheme_to_index = build_colorscheme_index ℕ_discrete themes;
}

try_from_vec-first_example :
    (try_from_vec ℕ_discrete themes ≡ none ↔ themes ≡ [])
    × found ℕ_discrete (try_from_vec ℕ_discrete themes) 7 ≡ first_from ℕ_discrete 0 7 themes
try_from_vec-first_example = try_from_vec-first ℕ_discrete themes 7

abbrev events : List ThemeSwitcherEvent
events = move_next ∷ move_next ∷ move_prev ∷ cancel ∷ confirm ∷ []

play-screen_of_example :
    play (new catalog 2) (screen_of (new catalog 2)) events ≡ screen_of (run (new catalog 2) events)
play-screen_of_example = play-screen_of (new catalog 2) events

run-IsValid_example : IsValid (run (new catalog 9) events)
run-IsValid_example = run-IsValid catalog 9 events (omega arith)
