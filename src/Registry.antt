-- ===== src/Registry.antt =====
-- A registry with one primary key and two unique indexes:
-- nvim/rust/utils/nvim-oxi-utils/src/indexed_registry.rs. `Iface` is the trait `IndexedValue`; the
-- debug assertions, which release builds leave out, are the facts of Registry/Consistency.
pub mod Consistency
pub mod Replacing
pub mod Reachable
use dotfiles_nix.Base.{
  Bool, true, false, List, [], ◌∷◌, ◌++◌, Option, none, some, is_some, ite, if◌then◌else◌, ℕ,
  length,
}
use dotfiles_nix.Base.Maps.{Map, get, insert, remove}

pub data EvictionReason : Type 0 where
  key index_one index_two : EvictionReason
  key_and_index_one key_and_index_two index_one_and_index_two : EvictionReason
  key_and_index_one_and_index_two : EvictionReason

pub record EvictedEntry (K V : Type 0) : Type 0 where
  pub evicted_key : K
  pub evicted_value : V
  pub reason : EvictionReason

pub data ConflictReasonKind : Type 0 where
  by_key_kind by_index_one_kind by_index_two_kind : ConflictReasonKind

pub record ConflictReasonFlags : Type 0 where
  pub flag_key : Bool
  pub flag_one : Bool
  pub flag_two : Bool

abbrev pub default_flags : ConflictReasonFlags
default_flags = record { flag_key = false; flag_one = false; flag_two = false }

abbrev pub add : ConflictReasonFlags → ConflictReasonKind → ConflictReasonFlags
add f by_key_kind = record f { flag_key = true }
add f by_index_one_kind = record f { flag_one = true }
add f by_index_two_kind = record f { flag_two = true }

abbrev reason_of : Bool → Bool → Bool → EvictionReason
reason_of true false false = key
reason_of false true false = index_one
reason_of false false true = index_two
reason_of true true false = key_and_index_one
reason_of true false true = key_and_index_two
reason_of false true true = index_one_and_index_two
reason_of true true true = key_and_index_one_and_index_two
reason_of false false false = key

abbrev pub to_eviction_reason : ConflictReasonFlags → EvictionReason
to_eviction_reason f = reason_of f.flag_key f.flag_one f.flag_two

-- The key type, the two index types, the values and the two indexes of a value.
pub record Iface : Type 1 where
  pub K : Type 0
  pub I1 : Type 0
  pub I2 : Type 0
  pub V : Type 0
  pub dec_key : Discrete K
  pub dec_one : Discrete I1
  pub dec_two : Discrete I2
  pub index_one_of : V → I1
  pub index_two_of : V → I2

pub record IndexedRegistry (P : Iface) : Type 0 where
  pub by_key : Map P.K P.V
  pub by_index_one : Map P.I1 P.K
  pub by_index_two : Map P.I2 P.K

module _ (P : Iface) where
  abbrev pub empty : IndexedRegistry P
  empty = record { by_key = []; by_index_one = []; by_index_two = [] }

  abbrev pub get_value : IndexedRegistry P → P.K → Option P.V
  get_value s k = get P.dec_key k s.by_key

  abbrev pub key_by_index_one : IndexedRegistry P → P.I1 → Option P.K
  key_by_index_one s i = get P.dec_one i s.by_index_one

  abbrev pub key_by_index_two : IndexedRegistry P → P.I2 → Option P.K
  key_by_index_two s i = get P.dec_two i s.by_index_two

  abbrev and_value : IndexedRegistry P → Option P.K → Option (P.K × P.V)
  and_value s none = none
  and_value s (some k) = elim (get_value s k) [ none ↦ none | some v ↦ some (k, v) ]

  unfoldable pub get_by_index_one : IndexedRegistry P → P.I1 → Option (P.K × P.V)
  get_by_index_one s i = and_value s (key_by_index_one s i)

  unfoldable pub get_by_index_two : IndexedRegistry P → P.I2 → Option (P.K × P.V)
  get_by_index_two s i = and_value s (key_by_index_two s i)

  unfoldable pub take_by_key : IndexedRegistry P → P.K → IndexedRegistry P × Option P.V
  take_by_key s k = elim (get_value s k) [
    | none ↦ (s, none)
    | some v ↦ (
      record {
        by_key = remove P.dec_key k s.by_key;
        by_index_one = remove P.dec_one (P.index_one_of v) s.by_index_one;
        by_index_two = remove P.dec_two (P.index_two_of v) s.by_index_two;
      },
      some v,
    )
  ]

  abbrev pub with_key :
      P.K → IndexedRegistry P × Option P.V → IndexedRegistry P × Option (P.K × P.V)
  with_key k (s, none) = (s, none)
  with_key k (s, some v) = (s, some (k, v))

  unfoldable pub take_by_index_one :
      IndexedRegistry P → P.I1 → IndexedRegistry P × Option (P.K × P.V)
  take_by_index_one s i = elim (key_by_index_one s i) [
    | none ↦ (s, none)
    | some k ↦ with_key k (take_by_key s k)
  ]

  unfoldable pub take_by_index_two :
      IndexedRegistry P → P.I2 → IndexedRegistry P × Option (P.K × P.V)
  take_by_index_two s i = elim (key_by_index_two s i) [
    | none ↦ (s, none)
    | some k ↦ with_key k (take_by_key s k)
  ]

  abbrev pub Conflicts : Type 0
  Conflicts = List (P.K × ConflictReasonFlags)

  unfoldable pub merge_conflict_reason : Conflicts → P.K → ConflictReasonKind → Conflicts
  merge_conflict_reason [] k kind = (k, add default_flags kind) ∷ []
  merge_conflict_reason ((j, flags) ∷ cs) k kind =
      ite (P.dec_key j k) ((j, add flags kind) ∷ cs) ((j, flags) ∷ merge_conflict_reason cs k kind)

  abbrev merge_found : Conflicts → Option P.K → ConflictReasonKind → Conflicts
  merge_found cs none kind = cs
  merge_found cs (some k) kind = merge_conflict_reason cs k kind

  -- The conflicts of an insertion, in the order of the three tests.
  unfoldable pub conflicts_of : IndexedRegistry P → P.K → P.V → Conflicts
  conflicts_of s k v =
      let c0 = if is_some (get_value s k) then merge_conflict_reason [] k by_key_kind else [] in
      let c1 = merge_found c0 (key_by_index_one s (P.index_one_of v)) by_index_one_kind in
      merge_found c1 (key_by_index_two s (P.index_two_of v)) by_index_two_kind

  -- The loop over the conflicts: what is left, and what was evicted.
  unfoldable pub evict_all :
      IndexedRegistry P → Conflicts → IndexedRegistry P × List (EvictedEntry P.K P.V)
  evict_all s [] = (s, [])
  evict_all s ((k, flags) ∷ cs) =
      let taken = take_by_key s k in
      let rest = evict_all taken.0 cs in
      (
        rest.0,
        elim taken.1 [
          | none ↦ rest.1
          | some v ↦
              record { evicted_key = k; evicted_value = v; reason = to_eviction_reason flags }
              ∷ rest.1
        ],
      )

  unfoldable pub insert_without_conflict : IndexedRegistry P → P.K → P.V → IndexedRegistry P
  insert_without_conflict s k v = record {
    by_key = insert P.dec_key k v s.by_key;
    by_index_one = insert P.dec_one (P.index_one_of v) k s.by_index_one;
    by_index_two = insert P.dec_two (P.index_two_of v) k s.by_index_two;
  }

  unfoldable pub insert_replacing :
      IndexedRegistry P → P.K → P.V → IndexedRegistry P × List (EvictedEntry P.K P.V)
  insert_replacing s k v =
      let evicted = evict_all s (conflicts_of s k v) in
      (insert_without_conflict evicted.0 k v, evicted.1)
