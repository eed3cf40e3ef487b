-- ===== src/Registry/Replacing.antt =====
-- What `insert_replacing` of indexed_registry.rs leaves and what it evicts.
use dotfiles_nix.Base.{
  ◌≡◌, refl, ap, ◌∙◌, Bool-cases, inl, inr, Bool, ◌||◌, true, false, List, [], ◌∷◌, Option, none,
  some, is_some, ite, if◌then◌else◌, arith, Option-cases, unwrap_or,
}
use dotfiles_nix.Base.Maps.{get, get-remove, get-insert}
use dotfiles_nix.Registry.{
  Iface, IndexedRegistry, get_value, key_by_index_one, key_by_index_two, take_by_key,
  insert_without_conflict, ConflictReasonFlags, ConflictReasonKind, by_key_kind, by_index_one_kind,
  by_index_two_kind, add, default_flags, Conflicts, merge_conflict_reason, merge_found,
  conflicts_of, evict_all, insert_replacing, EvictedEntry, EvictionReason, key, index_one,
  index_two, key_and_index_one, key_and_index_two, index_one_and_index_two,
  key_and_index_one_and_index_two, to_eviction_reason,
}
use dotfiles_nix.Registry.Consistency.{
  IsConsistent, take_by_key-IsConsistent, insert_without_conflict-IsConsistent,
}

-- What a reason names: the key, the first index, the second index.
abbrev pub named : EvictionReason → ConflictReasonFlags
named key = record { flag_key = true; flag_one = false; flag_two = false }
named index_one = record { flag_key = false; flag_one = true; flag_two = false }
named index_two = record { flag_key = false; flag_one = false; flag_two = true }
named key_and_index_one = record { flag_key = true; flag_one = true; flag_two = false }
named key_and_index_two = record { flag_key = true; flag_one = false; flag_two = true }
named index_one_and_index_two = record { flag_key = false; flag_one = true; flag_two = true }
named key_and_index_one_and_index_two = record { flag_key = true; flag_one = true; flag_two = true }

-- The reason that is made of some flags names these.
named-to_eviction_reason :
    (f : ConflictReasonFlags)
    → (f.flag_key || f.flag_one || f.flag_two) ≡ true
    → named (to_eviction_reason f) ≡ f
named-to_eviction_reason f h = ground arith

module _ (P : Iface) where
  pub get-take_by_key :
      (s : IndexedRegistry P) (k j : P.K)
      → get_value P (take_by_key P s k).0 j ≡ ite (P.dec_key k j) none (get_value P s j)
        × (take_by_key P s k).1 ≡ get_value P s k
  unfolding take_by_key
  get-take_by_key s k j = ground (arith, get-remove P.dec_key k j s.by_key)

  get-merge :
      (cs : Conflicts P) (k j : P.K) (kind : ConflictReasonKind)
      → get P.dec_key j (merge_conflict_reason P cs k kind)
        ≡ ite
            (P.dec_key k j)
            (some (add (unwrap_or (get P.dec_key j cs) default_flags) kind))
            (get P.dec_key j cs)
  unfolding get merge_conflict_reason
  get-merge [] k j kind = ground arith
  get-merge ((i, flags) ∷ cs) k j kind = ground (arith, get-merge cs k j kind)

  get-merge_found :
      (cs : Conflicts P) (o : Option P.K) (j : P.K) (kind : ConflictReasonKind)
      → get P.dec_key j (merge_found P cs o kind) ≡ elim o [
        | none ↦ get P.dec_key j cs
        | some k ↦
            ite
              (P.dec_key k j)
              (some (add (unwrap_or (get P.dec_key j cs) default_flags) kind))
              (get P.dec_key j cs)
      ]
  get-merge_found cs none j kind = refl
  get-merge_found cs (some k) j kind = get-merge cs k j kind

  get-evict_all :
      (s : IndexedRegistry P) (cs : Conflicts P) (j : P.K)
      → get_value P (evict_all P s cs).0 j
        ≡ elim (get P.dec_key j cs) [ none ↦ get_value P s j | some flags ↦ none ]
  unfolding evict_all get
  get-evict_all s [] j = refl
  get-evict_all s ((k, flags) ∷ cs) j =
      get-evict_all (take_by_key P s k).0 cs j ∙ ground (arith, get-take_by_key s k j)

  evict_all-IsConsistent :
      (s : IndexedRegistry P) (cs : Conflicts P)
      → IsConsistent P s
      → IsConsistent P (evict_all P s cs).0
  unfolding evict_all
  evict_all-IsConsistent s [] c = c
  evict_all-IsConsistent s ((k, flags) ∷ cs) c =
      evict_all-IsConsistent (take_by_key P s k).0 cs (take_by_key-IsConsistent P s k c)

  -- The entries of the key in a list of evictions, each with what its reason names.
  unfoldable pub evicted_at : P.K → List (EvictedEntry P.K P.V) → List (P.V × ConflictReasonFlags)
  evicted_at j [] = []
  evicted_at j (e ∷ es) =
      let rest = evicted_at j es in
      ite (P.dec_key e.evicted_key j) ((e.evicted_value, named e.reason) ∷ rest) rest

  abbrev entry_of : Option P.V → Option ConflictReasonFlags → List (P.V × ConflictReasonFlags)
  entry_of none flags = []
  entry_of (some v) none = []
  entry_of (some v) (some flags) = (v, named (to_eviction_reason flags)) ∷ []

  evicted_at-evict_all :
      (s : IndexedRegistry P) (cs : Conflicts P) (j : P.K)
      → evicted_at j (evict_all P s cs).1 ≡ entry_of (get_value P s j) (get P.dec_key j cs)
  unfolding evict_all get evicted_at
  evicted_at-evict_all s [] j = ground arith
  evicted_at-evict_all s ((k, flags) ∷ cs) j =
      ground (arith, evicted_at-evict_all (take_by_key P s k).0 cs j, get-take_by_key s k j)

  abbrev test : {p : Type 0} → Dec p → Bool
  test d = ite d true false

  -- How the entry of `j` with value `w` clashes with a new entry of `k` with value `v`.
  abbrev pub clash : P.K → P.V → P.K → P.V → ConflictReasonFlags
  clash k v j w = record {
    flag_key = test (P.dec_key k j);
    flag_one = test (P.dec_one (P.index_one_of w) (P.index_one_of v));
    flag_two = test (P.dec_two (P.index_two_of w) (P.index_two_of v));
  }

  abbrev pub clashes : P.K → P.V → P.K → P.V → Bool
  clashes k v j w = (clash k v j w).flag_key || (clash k v j w).flag_one || (clash k v j w).flag_two

  get-conflicts_of :
      (s : IndexedRegistry P) (k : P.K) (v : P.V) (j : P.K)
      → IsConsistent P s
      → get P.dec_key j (conflicts_of P s k v) ≡ elim (get_value P s j) [
        | none ↦ none
        | some w ↦ if clashes k v j w then some (clash k v j w) else none
      ]
  unfolding conflicts_of get
  get-conflicts_of s k v j c =
      let c0 = if is_some (get_value P s k) then merge_conflict_reason P [] k by_key_kind else [] in
      let c1 = merge_found P c0 (key_by_index_one P s (P.index_one_of v)) by_index_one_kind in
      ground (
        arith,
        get-merge [] k j by_key_kind,
        get-merge_found c0 (key_by_index_one P s (P.index_one_of v)) j by_index_one_kind,
        get-merge_found c1 (key_by_index_two P s (P.index_two_of v)) j by_index_two_kind,
        c.one (P.index_one_of v) j,
        c.two (P.index_two_of v) j,
      )

  -- An entry stays unless it clashes with the new one.
  abbrev pub survivor : P.K → P.V → P.K → Option P.V → Option P.V
  survivor k v j none = none
  survivor k v j (some w) = if clashes k v j w then none else some w

  -- At most one eviction is reported for a key.
  abbrev pub eviction : P.K → P.V → P.K → Option P.V → List (P.V × ConflictReasonFlags)
  eviction k v j none = []
  eviction k v j (some w) = if clashes k v j w then (w, clash k v j w) ∷ [] else []

  -- What the flags of a clash report, and nothing where there is none.
  reported :
      (k : P.K) (v : P.V) (j : P.K) (w : P.V)
      → entry_of (some w) (if clashes k v j w then some (clash k v j w) else none)
        ≡ eviction k v j (some w)
  reported k v j w = elim (Bool-cases (clashes k v j w)) [
    | inl yes_clash ↦
        rw yes_clash (ap (λ f. (w, f) ∷ []) (named-to_eviction_reason (clash k v j w) yes_clash))
    | inr no_clash ↦ rw no_clash refl
  ]

  reported_at :
      (k : P.K) (v : P.V) (j : P.K) (o : Option P.V)
      → entry_of o
          (elim o [ none ↦ none | some w ↦ if clashes k v j w then some (clash k v j w) else none ])
        ≡ eviction k v j o
  reported_at k v j none = refl
  reported_at k v j (some w) = reported k v j w

  get-evicted :
      (s : IndexedRegistry P) (k : P.K) (v : P.V) (j : P.K)
      → IsConsistent P s
      → get_value P (evict_all P s (conflicts_of P s k v)).0 j ≡ survivor k v j (get_value P s j)
  get-evicted s k v j c =
      get-evict_all s (conflicts_of P s k v) j ∙ ground (arith, get-conflicts_of s k v j c)

  -- After an insertion of `v` at key `k` of a consistent registry, `k` leads to `v`, and any other
  -- key leads to what it led to, but that entries with an index of `v` are gone. What is
  -- reported as evicted for a key is its entry, once, when it had the key or an index of the new one,
  -- with the reason that names exactly those that it had, and else nothing.
  pub insert_replacing_lem :
      (s : IndexedRegistry P) (k : P.K) (v : P.V) (j : P.K)
      → IsConsistent P s
      → get_value P (insert_replacing P s k v).0 j
          ≡ ite (P.dec_key k j) (some v) (survivor k v j (get_value P s j))
        × evicted_at j (insert_replacing P s k v).1 ≡ eviction k v j (get_value P s j)
  unfolding insert_replacing insert_without_conflict
  insert_replacing_lem s k v j c =
      let rest = (evict_all P s (conflicts_of P s k v)).0 in
      (
        get-insert P.dec_key k j v rest.by_key ∙ ground (arith, get-evicted s k v j c),
        evicted_at-evict_all s (conflicts_of P s k v) j
            ∙ ap (entry_of (get_value P s j)) (get-conflicts_of s k v j c)
            ∙ reported_at k v j (get_value P s j),
      )

  one_gone :
      (s : IndexedRegistry P) (k : P.K) (v : P.V)
      → IsConsistent P s
      → key_by_index_one P (evict_all P s (conflicts_of P s k v)).0 (P.index_one_of v) ≡ none
  one_gone s k v c =
      let rest = (evict_all P s (conflicts_of P s k v)).0 in
      let c' = evict_all-IsConsistent s (conflicts_of P s k v) c in
      elim (Option-cases (key_by_index_one P rest (P.index_one_of v))) [
        | inl e ↦ e
        | inr (j, e) ↦ ground (arith, c'.one (P.index_one_of v) j, get-evicted s k v j c)
      ]

  two_gone :
      (s : IndexedRegistry P) (k : P.K) (v : P.V)
      → IsConsistent P s
      → key_by_index_two P (evict_all P s (conflicts_of P s k v)).0 (P.index_two_of v) ≡ none
  two_gone s k v c =
      let rest = (evict_all P s (conflicts_of P s k v)).0 in
      let c' = evict_all-IsConsistent s (conflicts_of P s k v) c in
      elim (Option-cases (key_by_index_two P rest (P.index_two_of v))) [
        | inl e ↦ e
        | inr (j, e) ↦ ground (arith, c'.two (P.index_two_of v) j, get-evicted s k v j c)
      ]

  pub insert_replacing-IsConsistent :
      (s : IndexedRegistry P) (k : P.K) (v : P.V)
      → IsConsistent P s
      → IsConsistent P (insert_replacing P s k v).0
  unfolding insert_replacing
  insert_replacing-IsConsistent s k v c =
      let rest = (evict_all P s (conflicts_of P s k v)).0 in
      insert_without_conflict-IsConsistent P rest k v
        (evict_all-IsConsistent s (conflicts_of P s k v) c) (get-evicted s k v k c ∙ ground arith)
        (one_gone s k v c) (two_gone s k v c)
