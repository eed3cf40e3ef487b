-- ===== src/Text/Ranges.antt =====
-- The range of lines that a command works on: `resolve_line_range` of plugins/text/src/core/mod.rs.
use dotfiles_nix.Base.{
  ℕ, zero, suc, ◌≡◌, ◌≤◌, refl, sym, ◌∙◌, Option, none, some, ◌⊎◌, inl, inr, min, max, ltb, ◌==◌,
  if◌then◌else◌, arith,
}
use dotfiles_nix.Text.{
  ℤ, pos, negsuc, TextRangeError, invalid_line_index, range_out_of_bounds, empty_buffer, LineRange,
  new, ensure_within, parse_line_index, and_then, requested_lines, resolve_line_range,
}

-- The two lines that are asked for: one stands for a missing one, the cursor for both.
abbrev pub asked : Option ℤ → Option ℤ → ℕ → ℤ × ℤ
asked (some start) (some end) cursor_row = (start, end)
asked (some start) none cursor_row = (start, start)
asked none (some end) cursor_row = (end, end)
asked none none cursor_row = (pos cursor_row, pos cursor_row)

-- The range between two lines, in either order.
abbrev pub between : ℕ → ℕ → ℕ → TextRangeError ⊎ LineRange
between a b line_count =
    if line_count == 0
    then inl empty_buffer
    else if ltb line_count (max a b)
    then inl (range_out_of_bounds (min a b) (max a b) line_count)
    else inr (record { start = min a b; end = max a b })

-- The answer: the first line below 1 is refused.
abbrev pub outcome : ℤ × ℤ → ℕ → TextRangeError ⊎ LineRange
outcome (negsuc a, b) line_count = inl (invalid_line_index (negsuc a))
outcome (pos zero, b) line_count = inl (invalid_line_index (pos 0))
outcome (pos (suc a), negsuc b) line_count = inl (invalid_line_index (negsuc b))
outcome (pos (suc a), pos zero) line_count = inl (invalid_line_index (pos 0))
outcome (pos (suc a), pos (suc b)) line_count = between (suc a) (suc b) line_count

new-between :
    (a b line_count : ℕ)
    → and_then (new (suc a) (suc b)) (λ r. ensure_within r line_count)
      ≡ between (suc a) (suc b) line_count
unfolding new ensure_within
new-between a b line_count = ground arith

-- A command works on the lines between the two that are asked for, in either order; a missing line
-- is the other one, and both are the cursor's where none is given. The first line below 1, an empty
-- buffer and a line beyond the end of the buffer are errors, in this order.
pub resolve_line_range_lem :
    (start_line end_line : Option ℤ) (cursor_row line_count : ℕ)
    → resolve_line_range start_line end_line cursor_row line_count
      ≡ outcome (asked start_line end_line cursor_row) line_count
unfolding resolve_line_range requested_lines parse_line_index new
resolve_line_range_lem (some (pos zero)) (some end) cursor_row line_count = refl
resolve_line_range_lem (some (negsuc a)) (some end) cursor_row line_count = refl
resolve_line_range_lem (some (pos (suc a))) (some (pos zero)) cursor_row line_count = ground arith
resolve_line_range_lem (some (pos (suc a))) (some (negsuc b)) cursor_row line_count = ground arith
resolve_line_range_lem (some (pos (suc a))) (some (pos (suc b))) cursor_row line_count =
    ground (arith, new-between a b line_count)
resolve_line_range_lem (some (pos zero)) none cursor_row line_count = refl
resolve_line_range_lem (some (negsuc a)) none cursor_row line_count = refl
resolve_line_range_lem (some (pos (suc a))) none cursor_row line_count =
    ground (arith, new-between a a line_count)
resolve_line_range_lem none (some (pos zero)) cursor_row line_count = refl
resolve_line_range_lem none (some (negsuc a)) cursor_row line_count = refl
resolve_line_range_lem none (some (pos (suc a))) cursor_row line_count =
    ground (arith, new-between a a line_count)
resolve_line_range_lem none none zero line_count = refl
resolve_line_range_lem none none (suc a) line_count = new-between a a line_count

outcome-bounds :
    (a : ℤ × ℤ) (line_count : ℕ) (r : LineRange)
    → outcome a line_count ≡ inr r
    → (1 ≤ r.start) × (r.start ≤ r.end) × (r.end ≤ line_count)
outcome-bounds (negsuc a, b) line_count r e = ground arith
outcome-bounds (pos zero, b) line_count r e = ground arith
outcome-bounds (pos (suc a), negsuc b) line_count r e = ground arith
outcome-bounds (pos (suc a), pos zero) line_count r e = ground arith
outcome-bounds (pos (suc a), pos (suc b)) line_count r e = ground arith

-- A range that is resolved is not empty and lies in the buffer.
resolve_line_range-bounds :
    (start_line end_line : Option ℤ) (cursor_row line_count : ℕ) (r : LineRange)
    → resolve_line_range start_line end_line cursor_row line_count ≡ inr r
    → (1 ≤ r.start) × (r.start ≤ r.end) × (r.end ≤ line_count)
resolve_line_range-bounds start_line end_line cursor_row line_count r e =
    outcome-bounds (asked start_line end_line cursor_row) line_count r
      (sym (resolve_line_range_lem start_line end_line cursor_row line_count) ∙ e)
