-- ===== src/Theme/Picker.antt =====
-- One session of the theme picker: ThemeSwitcherMachine of theme-switcher/src/core/reducer.rs.
use dotfiles_nix.Base.{
  ℕ, Bool, true, false, not, [], ◌∷◌, ◌++◌, Option, none, some, if◌then◌else◌, ◌==◌, unwrap_or,
}
use dotfiles_nix.Machine.{Transition, NoCommand, default_transition, with_effect, with_effects}
use dotfiles_nix.Theme.Catalog.{ThemeCatalog, first_index, index, next_wrapped, prev_wrapped}

pub data PickerStatus : Type 0 where
  active closed : PickerStatus

pub data ThemeSwitcherEvent : Type 0 where
  move_next move_prev confirm cancel : ThemeSwitcherEvent

pub data ThemeSwitcherEffect : Type 0 where
  preview_theme persist_theme restore_theme : ℕ → ThemeSwitcherEffect
  close_picker : ThemeSwitcherEffect

pub record ThemeSwitcherMachine (S : Type 0) : Type 0 where
  pub catalog : ThemeCatalog S
  pub persisted : ℕ
  pub cursor : ℕ
  pub status : PickerStatus

abbrev pub is_active_status : PickerStatus → Bool
is_active_status active = true
is_active_status closed = false

module _ {S : Type 0} where
  unfoldable pub new : ThemeCatalog S → ℕ → ThemeSwitcherMachine S
  new c raw = record {
    catalog = c;
    persisted = unwrap_or (index c raw) (first_index c);
    cursor = unwrap_or (index c raw) (first_index c);
    status = active;
  }

  unfoldable pub reduce_move :
      ThemeSwitcherMachine S
      → (ThemeCatalog S → ℕ → Option ℕ)
      → ThemeSwitcherMachine S × Transition ThemeSwitcherEffect NoCommand
  unfolding default_transition with_effect
  reduce_move m pick_next = elim (pick_next m.catalog m.cursor) [
    | none ↦ (m, default_transition)
    | some i ↦
        if i == m.cursor
        then (m, default_transition)
        else (record m { cursor = i }, with_effect (preview_theme i))
  ]

  unfoldable pub reduce_confirm :
      ThemeSwitcherMachine S → ThemeSwitcherMachine S × Transition ThemeSwitcherEffect NoCommand
  unfolding with_effects
  reduce_confirm m = (
    record m { persisted = m.cursor; status = closed },
    with_effects (persist_theme m.cursor ∷ close_picker ∷ []),
  )

  unfoldable pub reduce_cancel :
      ThemeSwitcherMachine S → ThemeSwitcherMachine S × Transition ThemeSwitcherEffect NoCommand
  unfolding with_effects
  reduce_cancel m = (
    record m { cursor = m.persisted; status = closed },
    with_effects (
        (if not (m.cursor == m.persisted) then restore_theme m.persisted ∷ [] else [])
        ++ close_picker ∷ []),
  )

  unfoldable pub reduce :
      ThemeSwitcherMachine S
      → ThemeSwitcherEvent
      → ThemeSwitcherMachine S × Transition ThemeSwitcherEffect NoCommand
  unfolding default_transition
  reduce m event = if not (is_active_status m.status) then (m, default_transition) else elim event [
    | move_next ↦ reduce_move m next_wrapped
    | move_prev ↦ reduce_move m prev_wrapped
    | confirm ↦ reduce_confirm m
    | cancel ↦ reduce_cancel m
  ]
