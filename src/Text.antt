-- ===== src/Text.antt =====
-- The line commands of plugins/text/src/core: ranges of lines, lines without repetitions, and lines
-- in a random order.
pub mod Ranges
pub mod Unique
pub mod Shuffling
use dotfiles_nix.Base.{
  ℕ, zero, suc, ◌+◌, ◌-◌, ◌*◌, ◌%◌, ◌^◌, Bool, true, false, List, [], ◌∷◌, Option, none, some, ◌⊎◌,
  inl, inr, length, leb, ltb, ◌==◌, ◌||◌, if◌then◌else◌,
}
use mathlib.Core.Option

-- An `i64`.
pub data ℤ : Type 0 where
  pos negsuc : ℕ → ℤ

pub data TextRangeError : Type 0 where
  invalid_line_index : ℤ → TextRangeError
  range_out_of_bounds : ℕ → ℕ → ℕ → TextRangeError
  empty_buffer : TextRangeError

pub record LineRange : Type 0 where
  pub start : ℕ
  pub end : ℕ

-- `LineRange::new`.
unfoldable pub new : ℕ → ℕ → TextRangeError ⊎ LineRange
new start end =
    if (start == 0) || (end == 0)
    then inl (invalid_line_index (pos 0))
    else if leb start end
    then inr (record { start = start; end = end })
    else inr (record { start = end; end = start })

unfoldable pub ensure_within : LineRange → ℕ → TextRangeError ⊎ LineRange
ensure_within r line_count =
    if line_count == 0
    then inl empty_buffer
    else if ltb line_count r.start || ltb line_count r.end
    then inl (range_out_of_bounds r.start r.end line_count)
    else inr r

unfoldable pub to_zero_based : LineRange → ℕ × ℕ
to_zero_based r = (r.start - 1, r.end)

unfoldable pub parse_line_index : ℤ → TextRangeError ⊎ ℕ
parse_line_index (pos n) = if ltb n 1 then inl (invalid_line_index (pos n)) else inr n
parse_line_index (negsuc n) = inl (invalid_line_index (negsuc n))

-- The operator `?`.
abbrev pub and_then :
    {A B : Type 0} → TextRangeError ⊎ A → (A → TextRangeError ⊎ B) → TextRangeError ⊎ B
and_then (inl e) f = inl e
and_then (inr a) f = f a

-- The match of `resolve_line_range`.
unfoldable pub requested_lines : Option ℤ → Option ℤ → ℕ → TextRangeError ⊎ (ℕ × ℕ)
requested_lines (some start) (some end) cursor_row =
    and_then (parse_line_index start) (λ s. and_then (parse_line_index end) (λ e. inr (s, e)))
requested_lines (some start) none cursor_row = and_then (parse_line_index start) (λ s. inr (s, s))
requested_lines none (some end) cursor_row = and_then (parse_line_index end) (λ e. inr (e, e))
requested_lines none none cursor_row = inr (cursor_row, cursor_row)

unfoldable pub resolve_line_range : Option ℤ → Option ℤ → ℕ → ℕ → TextRangeError ⊎ LineRange
unfolding requested_lines
resolve_line_range start_line end_line cursor_row line_count =
    and_then (requested_lines start_line end_line cursor_row)
      (λ r. and_then (new r.0 r.1) (λ range. ensure_within range line_count))

module _ {A : Type 0} (dec : Discrete A) where
  abbrev pub contains : A → List A → Bool
  contains x [] = false
  contains x (y ∷ ys) = elim (dec y x) [ yes e ↦ true | no n ↦ contains x ys ]

  -- The loop of `uniquify_lines`.
  unfoldable pub uniquify_from : List A → List A → List A
  uniquify_from seen [] = []
  uniquify_from seen (x ∷ xs) = elim (contains x seen) [
    | true ↦ uniquify_from seen xs
    | false ↦ x ∷ uniquify_from (x ∷ seen) xs
  ]

  unfoldable pub uniquify_lines : List A → List A
  unfolding uniquify_from
  uniquify_lines lines = uniquify_from [] lines

-- The state of `SmallRng`.
unfoldable pub small_rng : ℕ → ℕ
small_rng seed = if seed == 0 then 0x9E3779B97F4A7C15 else seed

-- `next_u64` of `SmallRng`: the new state is the value.
unfoldable pub next_u64 : ℕ → ℕ
next_u64 state = (state * 6364136223846793005 + 1) % 2 ^ 64

module _ {A : Type 0} where
  abbrev pub item_at : List A → ℕ → Option A
  item_at [] i = none
  item_at (x ∷ xs) zero = some x
  item_at (x ∷ xs) (suc i) = item_at xs i

  abbrev pub set_item : List A → ℕ → A → List A
  set_item [] i v = []
  set_item (x ∷ xs) zero v = v ∷ xs
  set_item (x ∷ xs) (suc i) v = x ∷ set_item xs i v

  -- `swap`, which panics out of range.
  unfoldable pub swap : List A → ℕ → ℕ → Option (List A)
  swap items i j =
      Option.bind (item_at items i)
        (λ x. Option.map (λ y. set_item (set_item items i y) j x) (item_at items j))

  -- The loop of `shuffle_with_rng`, from an index down to 1.
  unfoldable pub shuffle_from : ℕ → List A → ℕ → Option (List A)
  unfolding swap next_u64
  shuffle_from zero items state = some items
  shuffle_from (suc i) items state =
      let next = next_u64 state in
      Option.bind (swap items (suc i) (next % (suc i + 1))) (λ swapped. shuffle_from i swapped next)

  unfoldable pub shuffle_with_rng : List A → ℕ → Option (List A)
  unfolding shuffle_from
  shuffle_with_rng items state =
      if leb (length items) 1 then some items else shuffle_from (length items - 1) items state

  unfoldable pub randomize_lines : List A → ℕ → Option (List A)
  unfolding shuffle_with_rng small_rng
  randomize_lines lines seed = shuffle_with_rng lines (small_rng seed)
