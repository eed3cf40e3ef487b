-- ===== src/Tests/Text.antt =====
-- The line commands of the text plugin at concrete lines.
use dotfiles_nix.Base.{ℕ, ◌≡◌, refl, Bool, List, [], ◌∷◌, some, inr, Distinct, ℕ_discrete}
use dotfiles_nix.Text.{
  pos, LineRange, resolve_line_range, uniquify_lines, uniquify_from, randomize_lines, new,
  ensure_within, requested_lines, parse_line_index,
}
use dotfiles_nix.Text.Ranges.{asked, outcome, resolve_line_range_lem}
use dotfiles_nix.Text.Unique.{firsts, uniquify_lines_lem}
use dotfiles_nix.Text.Shuffling.{count, randomize_lines_lem}

-- The lines 3 to 2 of 5.
abbrev range : LineRange
range = record { start = 2; end = 3 }

resolve_line_range_lem_example :
    resolve_line_range (some (pos 3)) (some (pos 2)) 1 5
    ≡ outcome (asked (some (pos 3)) (some (pos 2)) 1) 5
resolve_line_range_lem_example = resolve_line_range_lem (some (pos 3)) (some (pos 2)) 1 5

range-resolved : resolve_line_range (some (pos 3)) (some (pos 2)) 1 5 ≡ inr range
unfolding resolve_line_range requested_lines parse_line_index new ensure_within
range-resolved = refl

abbrev lines : List ℕ
lines = 7 ∷ 8 ∷ 7 ∷ 9 ∷ 8 ∷ []

uniquify_lines_lem_example :
    (uniquify_lines ℕ_discrete lines ≡ firsts ℕ_discrete lines)
    × Distinct (uniquify_lines ℕ_discrete lines)
uniquify_lines_lem_example = uniquify_lines_lem ℕ_discrete lines

lines_unique : uniquify_lines ℕ_discrete lines ≡ 7 ∷ 8 ∷ 9 ∷ []
unfolding uniquify_lines uniquify_from ℕ_discrete
lines_unique = refl

randomize_lines_lem_example :
    (out : List ℕ) × (randomize_lines lines 5 ≡ some out)
    × ((p : ℕ → Bool) → count p out ≡ count p lines)
randomize_lines_lem_example = randomize_lines_lem lines 5
