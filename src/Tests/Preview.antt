-- ===== src/Tests/Preview.antt =====
-- Previews with numbers for names and cleanups, at concrete events.
use dotfiles_nix.Base.{ℕ, refl, none, some, List, [], ◌∷◌, arith, ℕ_discrete}
use dotfiles_nix.Base.Maps.{get, insert, remove}
use dotfiles_nix.Registry.{
  empty, insert_replacing, insert_without_conflict, evict_all, conflicts_of,
}
use dotfiles_nix.Registry.Reachable.{RegistryOp, inserts, run, run-IsConsistent}
use dotfiles_nix.Preview.{
  DocPreviewState, PreviewRegistry, previews_iface, register, take_token, reduce,
}
use dotfiles_nix.Preview.Tokens.{IsFresh, take_token-IsFresh}
use dotfiles_nix.Preview.Indexes.{IsValid, Answers, reduce-Answers}
use dotfiles_nix.Preview.Cleanups.{reduce-Keeps}
use dotfiles_nix.Preview.Release.{Keeps}

abbrev opened_preview : DocPreviewState ℕ ℕ
opened_preview = record {
  token = 1;
  win = 30;
  group = some 7;
  cleanup = some 99;
  restore_name_plan = none;
}

abbrev one_preview : List (RegistryOp (previews_iface ℕ ℕ))
one_preview = inserts 5 opened_preview ∷ []

abbrev registry : PreviewRegistry ℕ ℕ
registry = record {
  next_token = 1;
  previews = run (previews_iface ℕ ℕ) (empty (previews_iface ℕ ℕ)) one_preview;
}

registry-IsValid : IsValid registry
registry-IsValid = record {
  indexed = run-IsConsistent (previews_iface ℕ ℕ) one_preview;
  counter = omega arith;
}

take_token-IsFresh_example : IsFresh registry (take_token registry)
unfolding run insert_replacing insert_without_conflict evict_all conflicts_of get insert remove
    ℕ_discrete
take_token-IsFresh_example = take_token-IsFresh registry (omega arith) (omega arith)

reduce-Answers_example : Answers (reduce registry (register 5 31 8 none))
unfolding run insert_replacing insert_without_conflict evict_all conflicts_of get insert remove
    ℕ_discrete
reduce-Answers_example =
    reduce-Answers registry (register 5 31 8 none) registry-IsValid (omega arith)

-- The window of the preview is given to another buffer.
reduce-Keeps_example : Keeps (reduce registry (register 6 30 8 none)) 5 99
unfolding run insert_replacing insert_without_conflict evict_all conflicts_of get insert remove
    ℕ_discrete
reduce-Keeps_example =
    reduce-Keeps registry (register 6 30 8 none) 5 99 registry-IsValid (omega arith) refl
