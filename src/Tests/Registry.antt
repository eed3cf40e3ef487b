-- ===== src/Tests/Registry.antt =====
-- The registry with pairs of numbers for its values, each number an index.
use dotfiles_nix.Base.{ℕ, ◌≡◌, some, List, [], ◌∷◌, ite, ℕ_discrete}
use dotfiles_nix.Registry.{Iface, IndexedRegistry, empty, get_value, insert_replacing}
use dotfiles_nix.Registry.Consistency.{IsConsistent}
use dotfiles_nix.Registry.Replacing.{survivor, eviction, evicted_at, insert_replacing_lem}
use dotfiles_nix.Registry.Reachable.{RegistryOp, inserts, takes_one, run, run-IsConsistent}

abbrev pairs : Iface
pairs = record {
  K = ℕ;
  I1 = ℕ;
  I2 = ℕ;
  V = ℕ × ℕ;
  dec_key = ℕ_discrete;
  dec_one = ℕ_discrete;
  dec_two = ℕ_discrete;
  index_one_of = λ v. v.0;
  index_two_of = λ v. v.1;
}

abbrev ops : List (RegistryOp pairs)
ops =
    inserts 1 (10, 100)
    ∷ inserts 2 (20, 200)
    ∷ takes_one 20
    ∷ inserts 2 (10, 300)
    ∷ inserts 3 (30, 300)
    ∷ []

run-IsConsistent_example : IsConsistent pairs (run pairs (empty pairs) ops)
run-IsConsistent_example = run-IsConsistent pairs ops

abbrev reached : IndexedRegistry pairs
reached = run pairs (empty pairs) ops

insert_replacing_lem_example :
    get_value pairs (insert_replacing pairs reached 4 (30, 400)).0 3
      ≡ ite
          (ℕ_discrete 4 3)
          (some (30, 400))
          (survivor pairs 4 (30, 400) 3 (get_value pairs reached 3))
    × evicted_at pairs 3 (insert_replacing pairs reached 4 (30, 400)).1
      ≡ eviction pairs 4 (30, 400) 3 (get_value pairs reached 3)
insert_replacing_lem_example =
    insert_replacing_lem pairs reached 4 (30, 400) 3 (run-IsConsistent pairs ops)

abbrev one_insert : List (RegistryOp pairs)
one_insert = inserts 1 (10, 100) ∷ []

abbrev single : IndexedRegistry pairs
single = run pairs (empty pairs) one_insert
