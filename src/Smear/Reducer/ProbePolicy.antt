-- ===== src/Smear/Reducer/ProbePolicy.antt =====
-- How a probe may be answered: smear-cursor/src/core/effect.rs, lines 72 to 202.
use dotfiles_nix.Smear.Policy.{BufferPerfClass, fast_motion}
use dotfiles_nix.Smear.Demand.{ExternalDemandKind, external_cursor}

pub data CursorPositionProbeMode : Type 0 where
  exact deferred_allowed : CursorPositionProbeMode

pub data CursorColorReuseMode : Type 0 where
  exact_only compatible_within_line : CursorColorReuseMode

pub data CursorColorFallbackMode : Type 0 where
  syntax_then_extmarks : CursorColorFallbackMode

pub data RetainedCursorColorFallback : Type 0 where
  unavailable compatible_sample : RetainedCursorColorFallback

unfoldable pub reuse_mode : RetainedCursorColorFallback → CursorColorReuseMode
reuse_mode unavailable = exact_only
reuse_mode compatible_sample = compatible_within_line

pub record ProbePolicy : Type 0 where
  pub cursor_position_mode : CursorPositionProbeMode
  pub cursor_color_reuse_mode : CursorColorReuseMode
  pub cursor_color_fallback_mode : CursorColorFallbackMode

unfoldable pub exact_policy : ProbePolicy
exact_policy = record {
  cursor_position_mode = exact;
  cursor_color_reuse_mode = exact_only;
  cursor_color_fallback_mode = syntax_then_extmarks;
}

unfoldable pub for_demand :
    ExternalDemandKind → BufferPerfClass → RetainedCursorColorFallback → ProbePolicy
unfolding reuse_mode exact_policy
for_demand external_cursor fast_motion fallback = record {
  cursor_position_mode = deferred_allowed;
  cursor_color_reuse_mode = reuse_mode fallback;
  cursor_color_fallback_mode = syntax_then_extmarks;
}
for_demand external_cursor _ fallback = record {
  cursor_position_mode = exact;
  cursor_color_reuse_mode = reuse_mode fallback;
  cursor_color_fallback_mode = syntax_then_extmarks;
}
for_demand _ perf_class fallback = exact_policy
