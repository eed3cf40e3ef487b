-- ===== src/Smear/Probe.antt =====
-- Probe requests and their retries: smear-cursor/src/core/state/observation/probe.rs, lines 11 to
-- 109. Identities are `u64` and wrap; retry counts are `u8`.
pub mod Slots
pub mod Mask
pub mod Packing
pub mod Laws
use dotfiles_nix.Base.{ℕ, ◌+◌, ◌*◌, ◌%◌, ◌^◌, Bool, true, false, ltb, if◌then◌else◌}
use dotfiles_nix.Base.Words.{saturating_add_u8}

pub data ProbeKind : Type 0 where
  cursor_color background : ProbeKind

pub record ProbeRequestSet : Type 0 where
  pub cursor_color : Bool
  pub background : Bool

unfoldable pub no_probes : ProbeRequestSet
no_probes = record { cursor_color = false; background = false }

unfoldable pub with_requested : ProbeRequestSet → ProbeKind → ProbeRequestSet
with_requested s cursor_color = record s { cursor_color = true }
with_requested s background = record s { background = true }

unfoldable pub ordinal : ProbeKind → ℕ
ordinal cursor_color = 1
ordinal background = 2

-- `wrapping_mul` and `wrapping_add` on `u64`.
unfoldable pub request_id : ProbeKind → ℕ → ℕ
unfolding ordinal
request_id kind observation_id = ((observation_id * 4) % 2 ^ 64 + ordinal kind) % 2 ^ 64

abbrev pub max_probe_refresh_retries_per_observation : ℕ
max_probe_refresh_retries_per_observation = 2

pub record ProbeRefreshState : Type 0 where
  pub cursor_color_retries : ℕ
  pub background_retries : ℕ

unfoldable pub default_probe_refresh : ProbeRefreshState
default_probe_refresh = record { cursor_color_retries = 0; background_retries = 0 }

unfoldable pub retry_count : ProbeRefreshState → ProbeKind → ℕ
retry_count s cursor_color = s.cursor_color_retries
retry_count s background = s.background_retries

abbrev with_retry_count : ProbeRefreshState → ProbeKind → ℕ → ProbeRefreshState
with_retry_count s cursor_color n = record s { cursor_color_retries = n }
with_retry_count s background n = record s { background_retries = n }

-- The new state, and whether the retries are exhausted.
unfoldable pub note_refresh_required : ProbeRefreshState → ProbeKind → ProbeRefreshState × Bool
unfolding retry_count
note_refresh_required s kind =
    let n = saturating_add_u8 (retry_count s kind) 1 in
    if ltb max_probe_refresh_retries_per_observation n
    then (s, true)
    else (with_retry_count s kind n, false)
