-- ===== src/Autocmds/OilLastBuf.antt =====
-- The last oil buffer of each window: autocmds/src/machines/oil_last_buf (events.rs, state.rs,
-- reducer.rs). Handles are their numbers.
pub mod Refinement
use dotfiles_nix.Base.{
  ℕ, Bool, true, false, not, Option, none, some, ◌==◌, if◌then◌else◌, is_some, length, ℕ_discrete,
}
use dotfiles_nix.Base.Maps.{Map, get, insert, remove, retain}
use dotfiles_nix.Machine.{Transition, NoCommand, default_transition, with_effect}

pub data OilLastBufEvent : Type 0 where
  oil_buf_entered : ℕ → ℕ → OilLastBufEvent
  win_closed : ℕ → OilLastBufEvent
  buf_wiped : ℕ → OilLastBufEvent
  invalidate_if_mapped : ℕ → ℕ → OilLastBufEvent

pub data OilLastBufEffect : Type 0 where
  mapping_updated : ℕ → ℕ → OilLastBufEffect
  mapping_cleared_for_win : ℕ → OilLastBufEffect
  mappings_cleared_for_buf : ℕ → OilLastBufEffect

abbrev pub OilLastBufTransition : Type 0
OilLastBufTransition = Transition OilLastBufEffect NoCommand

pub record OilLastBufState : Type 0 where
  pub by_win : Map ℕ ℕ

unfoldable pub mapped_buf_for_win : OilLastBufState → ℕ → Option ℕ
mapped_buf_for_win s win = get ℕ_discrete win s.by_win

-- `self.by_win.get(&win).copied() == Some(buf)`.
abbrev pub is_mapped_to : Option ℕ → ℕ → Bool
is_mapped_to none buf = false
is_mapped_to (some b) buf = b == buf

unfoldable pub reduce : OilLastBufState → OilLastBufEvent → OilLastBufState × OilLastBufTransition
unfolding default_transition with_effect
reduce s (oil_buf_entered win buf) =
    if is_mapped_to (get ℕ_discrete win s.by_win) buf then (s, default_transition) else (
      record s { by_win = insert ℕ_discrete win buf s.by_win },
      with_effect (mapping_updated win buf),
    )
reduce s (win_closed win) = (
  record s { by_win = remove ℕ_discrete win s.by_win },
  if is_some (get ℕ_discrete win s.by_win)
      then with_effect (mapping_cleared_for_win win)
      else default_transition,
)
reduce s (buf_wiped buf) =
    let kept = retain (λ _ mapped. not (mapped == buf)) s.by_win in
    (
      record s { by_win = kept },
      if not (length kept == length s.by_win)
          then with_effect (mappings_cleared_for_buf buf)
          else default_transition,
    )
reduce s (invalidate_if_mapped win expected) =
    if is_mapped_to (get ℕ_discrete win s.by_win) expected
    then (
      record s { by_win = remove ℕ_discrete win s.by_win },
      with_effect (mapping_cleared_for_win win),
    )
    else (s, default_transition)
