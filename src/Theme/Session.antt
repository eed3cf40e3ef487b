-- ===== src/Theme/Session.antt =====
-- A whole session of the picker of theme-switcher/src/core/reducer.rs, with what the editor shows.
use dotfiles_nix.Base.{ℕ, ◌<◌, ◌≡◌, refl, ap, ◌∙◌, Bool, false, List, [], ◌∷◌, arith}
use dotfiles_nix.Machine.{default_transition, with_effect, with_effects}
use dotfiles_nix.Theme.Catalog.{ThemeCatalog, len}
use dotfiles_nix.Theme.Cycle.{next_wrapped-after, prev_wrapped-before}
use dotfiles_nix.Theme.Picker.{
  active, closed, ThemeSwitcherEvent, confirm, cancel, ThemeSwitcherEffect, preview_theme,
  persist_theme, restore_theme, close_picker, ThemeSwitcherMachine, is_active_status, new, reduce,
  reduce_move, reduce_confirm, reduce_cancel,
}

-- What the effects act on: the theme shown, the theme stored, and whether the picker is open.
pub record Screen : Type 0 where
  pub shown : ℕ
  pub stored : ℕ
  pub is_open : Bool

abbrev pub act : Screen → ThemeSwitcherEffect → Screen
act w (preview_theme i) = record w { shown = i }
act w (persist_theme i) = record w { stored = i }
act w (restore_theme i) = record w { shown = i }
act w close_picker = record w { is_open = false }

abbrev pub act_all : Screen → List ThemeSwitcherEffect → Screen
act_all w [] = w
act_all w (e ∷ es) = act_all (act w e) es

module _ {S : Type 0} where
  -- What a machine says of the screen.
  abbrev pub screen_of : ThemeSwitcherMachine S → Screen
  screen_of m = record {
    shown = m.cursor;
    stored = m.persisted;
    is_open = is_active_status m.status;
  }

  unfoldable pub run : ThemeSwitcherMachine S → List ThemeSwitcherEvent → ThemeSwitcherMachine S
  run m [] = m
  run m (e ∷ es) = run (reduce m e).0 es

  -- The screen after the effects of all the events.
  unfoldable pub play : ThemeSwitcherMachine S → Screen → List ThemeSwitcherEvent → Screen
  play m w [] = w
  play m w (e ∷ es) = play (reduce m e).0 (act_all w (reduce m e).1.effects) es

  reduce-screen_of :
      (m : ThemeSwitcherMachine S) (e : ThemeSwitcherEvent)
      → act_all (screen_of m) (reduce m e).1.effects ≡ screen_of (reduce m e).0
  unfolding reduce reduce_move reduce_confirm reduce_cancel default_transition with_effect
      with_effects
  reduce-screen_of m e = ground arith

  -- Carried out in order, the effects of a session keep the screen as the machine says: the theme
  -- of the cursor shown, the persisted theme stored, the picker open while the machine is active.
  pub play-screen_of :
      (m : ThemeSwitcherMachine S) (es : List ThemeSwitcherEvent)
      → play m (screen_of m) es ≡ screen_of (run m es)
  unfolding play run
  play-screen_of m [] = refl
  play-screen_of m (e ∷ es) =
      ap (λ w. play (reduce m e).0 w es) (reduce-screen_of m e) ∙ play-screen_of (reduce m e).0 es

  -- The cursor and the persisted index are indexes of the catalog.
  abbrev pub IsValid : ThemeSwitcherMachine S → Type 0
  IsValid m = m.cursor < len m.catalog × m.persisted < len m.catalog

  reduce-IsValid :
      (m : ThemeSwitcherMachine S) (e : ThemeSwitcherEvent) → IsValid m → IsValid (reduce m e).0
  unfolding reduce reduce_move reduce_confirm reduce_cancel
  reduce-IsValid m e v =
      ground (arith, next_wrapped-after m.catalog m.cursor, prev_wrapped-before m.catalog m.cursor)

  run_from-IsValid :
      (m : ThemeSwitcherMachine S) (es : List ThemeSwitcherEvent) → IsValid m → IsValid (run m es)
  unfolding run
  run_from-IsValid m [] v = v
  run_from-IsValid m (e ∷ es) v = run_from-IsValid (reduce m e).0 es (reduce-IsValid m e v)

  -- A session that starts on a catalog with a theme, from any number, keeps the cursor and the
  -- persisted index among the catalog's indexes.
  pub run-IsValid :
      (c : ThemeCatalog S) (raw : ℕ) (es : List ThemeSwitcherEvent)
      → 0 < len c
      → IsValid (run (new c raw) es)
  unfolding new
  run-IsValid c raw es h = run_from-IsValid (new c raw) es (ground arith)

  reduce_closed :
      (m : ThemeSwitcherMachine S) (e : ThemeSwitcherEvent) → m.status ≡ closed → (reduce m e).0 ≡ m
  unfolding reduce
  reduce_closed m e h = ground arith

  run_closed :
      (m : ThemeSwitcherMachine S) (es : List ThemeSwitcherEvent) → m.status ≡ closed → run m es ≡ m
  unfolding run
  run_closed m [] h = refl
  run_closed m (e ∷ es) h = ap (λ n. run n es) (reduce_closed m e h) ∙ run_closed m es h

  -- The first `confirm` or `cancel` ends the session: events after it change nothing, `confirm`
  -- persists the theme shown, and `cancel` shows the theme that was persisted before.
  pub run_ended :
      (m : ThemeSwitcherMachine S) (es : List ThemeSwitcherEvent)
      → m.status ≡ active
      → run m (confirm ∷ es) ≡ record m { persisted = m.cursor; status = closed }
        × run m (cancel ∷ es) ≡ record m { cursor = m.persisted; status = closed }
  unfolding run reduce reduce_confirm reduce_cancel
  run_ended m es h =
      let after_confirm = record m { persisted = m.cursor; status = closed } in
      let after_cancel = record m { cursor = m.persisted; status = closed } in
      (
        ap (λ n. run n es) (ground arith) ∙ run_closed after_confirm es refl,
        ap (λ n. run n es) (ground arith) ∙ run_closed after_cancel es refl,
      )
