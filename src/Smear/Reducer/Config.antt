-- ===== src/Smear/Reducer/Config.antt =====
-- What the reducer reads of the configuration: smear-cursor/src/config.rs, lines 209 to 231, and
-- smear-cursor/src/core/runtime_reducer/cleanup.rs.
use dotfiles_nix.Base.{
  ℕ, max, Bool, false, ◌&&◌, ◌||◌, not, Option, none, some, ltb, ◌==◌, if◌then◌else◌,
}
use dotfiles_nix.Base.Words.{saturating_mul}
use dotfiles_nix.Smear.Payloads.{Payloads}
use dotfiles_nix.Smear.Policy.{BufferPerfClass, keeps_ornamental_effects}
use dotfiles_nix.Smear.Cleanup.{RenderCleanupRetryPolicy, new_retry_policy}

-- The fields that the reducer reads.
pub record RuntimeConfig (w : Payloads) : Type 0 where
  pub time_interval : w.Float
  pub delay_event_to_smear : w.Float
  pub max_kept_windows : ℕ
  pub windows_zindex : ℕ
  pub smear_to_cmd : Bool
  pub scroll_buffer_space : Bool
  pub cursor_color : Option w.Text
  pub cursor_color_insert_mode : Option w.Text
  pub particles_enabled : Bool
  pub particles_over_text : Bool

abbrev pub min_render_cleanup_delay_ms : ℕ
min_render_cleanup_delay_ms = 200

abbrev pub min_render_hard_purge_delay_ms : ℕ
min_render_hard_purge_delay_ms = 3000

abbrev render_hard_purge_delay_multiplier : ℕ
render_hard_purge_delay_multiplier = 8

abbrev pub default_max_render_cleanup_retry_delay_ms : ℕ
default_max_render_cleanup_retry_delay_ms = 30000

abbrev pub default_idle_retention_budget : ℕ
default_idle_retention_budget = 2

abbrev pub default_max_teardown_attempts_per_tick : ℕ
default_max_teardown_attempts_per_tick = 8

module _ {w : Payloads} where
  unfoldable pub requires_cursor_color_sampling_for_mode : RuntimeConfig w → w.Text → Bool
  requires_cursor_color_sampling_for_mode c mode =
      elim (if w.is_insert_like_mode mode then c.cursor_color_insert_mode else c.cursor_color) [
        | none ↦ false
        | some setting ↦ w.is_none_text setting
      ]

  unfoldable pub requires_cursor_color_sampling : RuntimeConfig w → Bool
  requires_cursor_color_sampling c =
      requires_cursor_color_sampling_for_mode c w.normal_mode
      || requires_cursor_color_sampling_for_mode c w.insert_mode

  unfoldable pub requires_background_sampling_for_perf_class :
      RuntimeConfig w → BufferPerfClass → Bool
  requires_background_sampling_for_perf_class c perf_class =
      c.particles_enabled && not c.particles_over_text && keeps_ornamental_effects perf_class

  unfoldable pub render_cleanup_delay_ms : RuntimeConfig w → ℕ
  render_cleanup_delay_ms c =
      max (w.as_delay_ms (w.float_add c.time_interval c.delay_event_to_smear))
        min_render_cleanup_delay_ms

  unfoldable pub render_hard_cleanup_delay_ms : RuntimeConfig w → ℕ
  render_hard_cleanup_delay_ms c =
      max (saturating_mul (render_cleanup_delay_ms c) render_hard_purge_delay_multiplier)
        min_render_hard_purge_delay_ms

  unfoldable pub render_cleanup_retry_policy : RuntimeConfig w → RenderCleanupRetryPolicy
  render_cleanup_retry_policy c =
      new_retry_policy (render_cleanup_delay_ms c)
        (max (render_hard_cleanup_delay_ms c) default_max_render_cleanup_retry_delay_ms)

  unfoldable pub render_cleanup_idle_target_budget : RuntimeConfig w → ℕ
  render_cleanup_idle_target_budget c =
      if ltb c.max_kept_windows default_idle_retention_budget
      then c.max_kept_windows
      else default_idle_retention_budget

  unfoldable pub render_cleanup_max_teardown_attempts_per_tick : RuntimeConfig w → ℕ
  render_cleanup_max_teardown_attempts_per_tick c =
      if c.max_kept_windows == 0
      then 1
      else if ltb c.max_kept_windows default_max_teardown_attempts_per_tick
      then c.max_kept_windows
      else default_max_teardown_attempts_per_tick
