-- ===== src/Registry/Consistency.antt =====
-- The indexes of indexed_registry.rs and its map agree: `debug_assert_consistent`.
use dotfiles_nix.Base.{◌≡◌, inl, inr, ◌↔◌, Option, none, some, arith, Option-cases}
use dotfiles_nix.Base.Maps.{get, remove, get-remove, get-insert}
use dotfiles_nix.Registry.{
  Iface, IndexedRegistry, empty, get_value, key_by_index_one, key_by_index_two, take_by_key,
  insert_without_conflict,
}

module _ (P : Iface) where
  -- The looked-up value has the index.
  abbrev pub HasOne : Option P.V → P.I1 → Type 0
  HasOne none i = ⊥
  HasOne (some v) i = P.index_one_of v ≡ i

  abbrev pub HasTwo : Option P.V → P.I2 → Type 0
  HasTwo none i = ⊥
  HasTwo (some v) i = P.index_two_of v ≡ i

  -- Each index leads to exactly the keys whose value has it.
  pub record IsConsistent (s : IndexedRegistry P) : Type 0 where
    pub one : (i : P.I1) (k : P.K) → (key_by_index_one P s i ≡ some k) ↔ HasOne (get_value P s k) i
    pub two : (i : P.I2) (k : P.K) → (key_by_index_two P s i ≡ some k) ↔ HasTwo (get_value P s k) i

  pub empty-IsConsistent : IsConsistent (empty P)
  unfolding get
  empty-IsConsistent = record { one = λ i k. ground arith; two = λ i k. ground arith }

  take_one :
      (s : IndexedRegistry P) (k j : P.K) (v : P.V) (i : P.I1)
      → IsConsistent s
      → get_value P s k ≡ some v
      → (get P.dec_one i (remove P.dec_one (P.index_one_of v) s.by_index_one) ≡ some j)
        ↔ HasOne (get P.dec_key j (remove P.dec_key k s.by_key)) i
  take_one s k j v i c e = ground (
    arith,
    get-remove P.dec_one (P.index_one_of v) i s.by_index_one,
    get-remove P.dec_key k j s.by_key,
    c.one i j,
    c.one i k,
  )

  take_two :
      (s : IndexedRegistry P) (k j : P.K) (v : P.V) (i : P.I2)
      → IsConsistent s
      → get_value P s k ≡ some v
      → (get P.dec_two i (remove P.dec_two (P.index_two_of v) s.by_index_two) ≡ some j)
        ↔ HasTwo (get P.dec_key j (remove P.dec_key k s.by_key)) i
  take_two s k j v i c e = ground (
    arith,
    get-remove P.dec_two (P.index_two_of v) i s.by_index_two,
    get-remove P.dec_key k j s.by_key,
    c.two i j,
    c.two i k,
  )

  pub take_by_key-IsConsistent :
      (s : IndexedRegistry P) (k : P.K) → IsConsistent s → IsConsistent (take_by_key P s k).0
  unfolding take_by_key
  take_by_key-IsConsistent s k c = elim (Option-cases (get_value P s k)) [
    | inl e ↦ rw (e, take_by_key) c
    | inr (v, e) ↦
        rw (e, take_by_key)
          (record { one = λ i j. take_one s k j v i c e; two = λ i j. take_two s k j v i c e })
  ]

  pub insert_without_conflict-IsConsistent :
      (s : IndexedRegistry P) (k : P.K) (v : P.V)
      → IsConsistent s
      → get_value P s k ≡ none
      → key_by_index_one P s (P.index_one_of v) ≡ none
      → key_by_index_two P s (P.index_two_of v) ≡ none
      → IsConsistent (insert_without_conflict P s k v)
  unfolding insert_without_conflict
  insert_without_conflict-IsConsistent s k v c e e₁ e₂ = record {
    one = λ i j. ground (
      arith,
      get-insert P.dec_one (P.index_one_of v) i k s.by_index_one,
      get-insert P.dec_key k j v s.by_key,
      c.one i j,
      c.one i k,
    );
    two = λ i j. ground (
      arith,
      get-insert P.dec_two (P.index_two_of v) i k s.by_index_two,
      get-insert P.dec_key k j v s.by_key,
      c.two i j,
      c.two i k,
    );
  }
