-- ===== src/Autocmds/BufferMru.antt =====
-- Recently used buffers: autocmds/src/machines/buffer_mru/state.rs. A buffer handle is its number.
pub mod Recency
use dotfiles_nix.Base.{
  ℕ, Bool, true, false, not, List, [], ◌∷◌, Option, none, some, ◌==◌, if◌then◌else◌, take,
}

abbrev pub max_recent_buffers : ℕ
max_recent_buffers = 64

pub record BufferMruState : Type 0 where
  pub recent : List ℕ

-- `Vec::retain`.
unfoldable pub retain : (ℕ → Bool) → List ℕ → List ℕ
retain keep [] = []
retain keep (b ∷ bs) = if keep b then b ∷ retain keep bs else retain keep bs

unfoldable pub empty : BufferMruState
empty = record { recent = [] }

-- `retain`, `insert(0, buf)`, `truncate`.
unfoldable pub enter : BufferMruState → ℕ → BufferMruState
enter s buf = record s {
  recent = take max_recent_buffers (buf ∷ retain (λ b. not (b == buf)) s.recent);
}

unfoldable pub wipe : BufferMruState → ℕ → BufferMruState
wipe s buf = record s { recent = retain (λ b. not (b == buf)) s.recent }

-- `Iterator::find`.
unfoldable pub find_other : ℕ → List ℕ → Option ℕ
find_other current [] = none
find_other current (b ∷ bs) = if not (b == current) then some b else find_other current bs

unfoldable pub previous_buffer : BufferMruState → ℕ → (ℕ → Bool) → BufferMruState × Option ℕ
unfolding find_other
previous_buffer s current is_valid =
    let recent = retain is_valid s.recent in
    (record s { recent = recent }, find_other current recent)
