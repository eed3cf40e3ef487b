-- ===== src/Tests/LruCache.antt =====
-- The least-recently-used cache of smear-cursor at concrete calls.
use dotfiles_nix.Base.{◌==◌, ℕ, ◌≡◌, refl, List, [], ◌∷◌, none, some, arith, ℕ_discrete}
use dotfiles_nix.Base.Maps
use dotfiles_nix.Smear.LruCache.{LruCache, new}
use dotfiles_nix.Smear.LruCache.Rep.{new-Rep}
use dotfiles_nix.Smear.LruCache.Reading.{Holds}
use dotfiles_nix.Smear.LruCache.Runs.{
  remove_where_call, value, removed, nothing, CacheCall, get_call, peek_call, insert_call,
  remove_call, call, run, on_entries, answers, call_lem, run_lem,
}

-- The third key takes the place of the second one, since the first one was read.
abbrev calls : List (CacheCall ℕ ℕ)
calls =
    insert_call 1 10
    ∷ insert_call 2 20
    ∷ get_call 1
    ∷ insert_call 3 30
    ∷ peek_call 2
    ∷ remove_call 1
    ∷ remove_where_call (λ k v. v == 30)
    ∷ get_call 3
    ∷ []

calls-answers :
    answers ℕ_discrete 2 [] calls
    ≡ nothing
      ∷ nothing
      ∷ value (some 10)
      ∷ nothing
      ∷ value none
      ∷ value (some 10)
      ∷ removed 1
      ∷ value none
      ∷ []
unfolding answers on_entries Maps.get Maps.insert Maps.remove Maps.retain ℕ_discrete
calls-answers = refl

run_lem_example : run ℕ_discrete (new 2) calls ≡ some (answers ℕ_discrete 2 [] calls)
run_lem_example = run_lem ℕ_discrete 2 calls (omega arith) (omega arith)

new-Holds : Holds {V = ℕ} ℕ_discrete 2 (new 2) []
unfolding new
new-Holds = ([], new-Rep ℕ_discrete 2 (omega arith) (omega arith), refl, refl)

call_lem_example :
    (d : LruCache ℕ ℕ) × (call ℕ_discrete (new 2) (insert_call 1 10)
      ≡ some (d, (on_entries ℕ_discrete 2 [] (insert_call 1 10)).1))
    × Holds ℕ_discrete 2 d (on_entries ℕ_discrete 2 [] (insert_call 1 10)).0
call_lem_example = call_lem ℕ_discrete 2 (new 2) [] (insert_call 1 10) new-Holds
