-- ===== src/Registry/Reachable.antt =====
-- The registries that the operations of indexed_registry.rs reach.
use dotfiles_nix.Base.{◌≡◌, refl, inl, inr, List, [], ◌∷◌, Option, none, some, arith, Option-cases}
use dotfiles_nix.Registry.{
  Iface, IndexedRegistry, empty, with_key, take_by_index_one, take_by_index_two, get_value,
  key_by_index_one, key_by_index_two, take_by_key, insert_replacing,
}
use dotfiles_nix.Registry.Consistency.{empty-IsConsistent, IsConsistent, take_by_key-IsConsistent}
use dotfiles_nix.Registry.Replacing.{insert_replacing-IsConsistent}

module _ (P : Iface) where
  -- What is done to a registry.
  pub data RegistryOp : Type 0 where
    inserts : P.K → P.V → RegistryOp
    takes_key : P.K → RegistryOp
    takes_one : P.I1 → RegistryOp
    takes_two : P.I2 → RegistryOp
    clears : RegistryOp

  abbrev pub step : IndexedRegistry P → RegistryOp → IndexedRegistry P
  step s (inserts k v) = (insert_replacing P s k v).0
  step s (takes_key k) = (take_by_key P s k).0
  step s (takes_one i) = (take_by_index_one P s i).0
  step s (takes_two i) = (take_by_index_two P s i).0
  step s clears = empty P

  unfoldable pub run : IndexedRegistry P → List RegistryOp → IndexedRegistry P
  run s [] = s
  run s (op ∷ ops) = run (step s op) ops

  pub with_key-state : (k : P.K) (r : IndexedRegistry P × Option P.V) → (with_key P k r).0 ≡ r.0
  with_key-state k (s, none) = refl
  with_key-state k (s, some v) = refl

  pub step-IsConsistent :
      (s : IndexedRegistry P) (op : RegistryOp) → IsConsistent P s → IsConsistent P (step s op)
  unfolding take_by_index_one take_by_index_two
  step-IsConsistent s (inserts k v) c = insert_replacing-IsConsistent P s k v c
  step-IsConsistent s (takes_key k) c = take_by_key-IsConsistent P s k c
  step-IsConsistent s (takes_one i) c = elim (Option-cases (key_by_index_one P s i)) [
    | inl e ↦ rw (step, take_by_index_one, e) c
    | inr (k, e) ↦
        rw (step, take_by_index_one, e, with_key-state k (take_by_key P s k))
          (take_by_key-IsConsistent P s k c)
  ]
  step-IsConsistent s (takes_two i) c = elim (Option-cases (key_by_index_two P s i)) [
    | inl e ↦ rw (step, take_by_index_two, e) c
    | inr (k, e) ↦
        rw (step, take_by_index_two, e, with_key-state k (take_by_key P s k))
          (take_by_key-IsConsistent P s k c)
  ]
  step-IsConsistent s clears c = empty-IsConsistent P

  run_from-IsConsistent :
      (s : IndexedRegistry P) (ops : List RegistryOp)
      → IsConsistent P s
      → IsConsistent P (run s ops)
  unfolding run
  run_from-IsConsistent s [] c = c
  run_from-IsConsistent s (op ∷ ops) c =
      run_from-IsConsistent (step s op) ops (step-IsConsistent s op c)

  -- From the empty registry, whatever is inserted, taken and cleared, each index leads to exactly
  -- the keys whose value has it.
  pub run-IsConsistent : (ops : List RegistryOp) → IsConsistent P (run (empty P) ops)
  run-IsConsistent ops = run_from-IsConsistent (empty P) ops (empty-IsConsistent P)

  -- The value of an entry has at most one key for each of its indexes: in a consistent registry,
  -- taking a key by either index of its value takes that key and its value.
  take_by_index_lem :
      (s : IndexedRegistry P) (k : P.K) (v : P.V)
      → IsConsistent P s
      → get_value P s k ≡ some v
      → take_by_index_one P s (P.index_one_of v) ≡ ((take_by_key P s k).0, some (k, v))
        × take_by_index_two P s (P.index_two_of v) ≡ ((take_by_key P s k).0, some (k, v))
  unfolding take_by_index_one take_by_index_two take_by_key
  take_by_index_lem s k v c e =
      ground (arith, c.one (P.index_one_of v) k, c.two (P.index_two_of v) k)
