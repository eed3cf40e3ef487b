-- ===== src/Preview/Indexes.antt =====
-- The reducer of snacks-preview/src/reducer.rs keeps its registry consistent, and always answers.
use dotfiles_nix.Base.{
  ℕ, ◌≤◌, ◌<◌, ◌≡◌, refl, inl, inr, List, [], ◌∷◌, Option, none, some, arith, length, Bool-cases,
  Option-cases, ℕ_discrete, ◌==◌,
}
use dotfiles_nix.Base.Words.{i64_max}
use dotfiles_nix.Base.Maps.{keys, get-insert, length-remove-le}
use dotfiles_nix.Registry.{get_value, key_by_index_one, take_by_key, take_by_index_one}
use dotfiles_nix.Registry.Consistency.{IsConsistent, take_by_key-IsConsistent}
use dotfiles_nix.Registry.Replacing.{insert_replacing-IsConsistent}
use dotfiles_nix.Registry.Reachable.{with_key-state, step-IsConsistent, takes_one, takes_two}
use dotfiles_nix.Preview.{
  DocPreviewState, PreviewEvent, reset, close, close_by_token, register, doc_find_arrived,
  cleanup_opened, PreviewRegistry, Previews, previews_iface, Reduced, take_token, close_all,
  write_preview, reduce_register, reduce, doc_find, opened, sort_keys,
}
use dotfiles_nix.Preview.Tokens.{IsFresh, take_token-IsFresh}

module _ {S C : Type 0} where
  abbrev pub IsIndexed : Previews S C → Type 0
  IsIndexed = IsConsistent (previews_iface S C)

  write-IsIndexed :
      (r : Previews S C) (key : ℕ) (old new : DocPreviewState S C)
      → IsIndexed r
      → get_value (previews_iface S C) r key ≡ some old
      → new.win ≡ old.win
      → new.token ≡ old.token
      → IsIndexed (write_preview r key new)
  unfolding write_preview
  write-IsIndexed r key old new c e w t = record {
    one = λ i k. ground (arith, get-insert ℕ_discrete key k new r.by_key, c.one i k, c.one i key);
    two = λ i k. ground (arith, get-insert ℕ_discrete key k new r.by_key, c.two i k, c.two i key);
  }

  close_all-IsIndexed :
      (r : Previews S C) (ks : List ℕ) → IsIndexed r → IsIndexed (close_all r ks).0
  unfolding close_all
  close_all-IsIndexed r [] c = c
  close_all-IsIndexed r (k ∷ ks) c =
      close_all-IsIndexed (take_by_key (previews_iface S C) r k).0 ks
        (take_by_key-IsConsistent (previews_iface S C) r k c)

  pub take-length :
      (r : Previews S C) (k : ℕ)
      → length (take_by_key (previews_iface S C) r k).0.by_index_two ≤ length r.by_index_two
  unfolding take_by_key
  take-length r k = elim (Option-cases (get_value (previews_iface S C) r k)) [
    | inl e ↦ rw (e, take_by_key) (omega arith)
    | inr (v, e) ↦ rw (e, take_by_key) (length-remove-le ℕ_discrete v.token r.by_index_two)
  ]

  pub take_one-length :
      (r : Previews S C) (i : ℕ)
      → length (take_by_index_one (previews_iface S C) r i).0.by_index_two ≤ length r.by_index_two
  unfolding take_by_index_one
  take_one-length r i = elim (Option-cases (key_by_index_one (previews_iface S C) r i)) [
    | inl e ↦ rw (e, take_by_index_one) (omega arith)
    | inr (k, e) ↦
        rw
          (
            e,
            take_by_index_one,
            with_key-state (previews_iface S C) k (take_by_key (previews_iface S C) r k),
          )
          (take-length r k)
  ]

  -- The registry is consistent and the counter an `i64` that is not negative.
  pub record IsValid (s : PreviewRegistry S C) : Type 0 where
    pub indexed : IsIndexed s.previews
    pub counter : s.next_token ≤ i64_max

  doc_find-IsValid :
      (s : PreviewRegistry S C) (key token : ℕ) (o : Option (DocPreviewState S C))
      → get_value (previews_iface S C) s.previews key ≡ o
      → IsValid s
      → IsValid (doc_find s key token o).0
  doc_find-IsValid s key token none e v = v
  doc_find-IsValid s key token (some old) e v = elim (Bool-cases (old.token == token)) [
    | inr t ↦ rw (t, doc_find) v
    | inl t ↦
        rw (t, doc_find)
          (record {
            indexed =
                write-IsIndexed s.previews key old (record old { restore_name_plan = none })
                  v.indexed e refl refl;
            counter = v.counter;
          })
  ]

  opened-IsValid :
      (s : PreviewRegistry S C) (key token : ℕ) (id : C) (o : Option (DocPreviewState S C))
      → get_value (previews_iface S C) s.previews key ≡ o
      → IsValid s
      → IsValid (opened s key token id o).0
  opened-IsValid s key token id none e v = v
  opened-IsValid s key token id (some old) e v = elim (Bool-cases (old.token == token)) [
    | inr t ↦ rw (t, opened) v
    | inl t ↦
        rw (t, opened)
          (record {
            indexed =
                write-IsIndexed s.previews key old (record old { cleanup = some id }) v.indexed e
                  refl refl;
            counter = v.counter;
          })
  ]

  abbrev pub Answers : Option (Reduced S C) → Type 0
  Answers none = ⊥
  Answers (some r) = IsValid r.0

  -- Every event is answered, by a valid registry, from a valid registry with fewer tokens than
  -- positive `i64`.
  pub reduce-Answers :
      (s : PreviewRegistry S C) (e : PreviewEvent S C)
      → IsValid s
      → length s.previews.by_index_two < i64_max
      → Answers (reduce s e)
  unfolding reduce
  reduce-Answers s reset v h = record {
    indexed = close_all-IsIndexed s.previews (sort_keys (keys s.previews.by_key)) v.indexed;
    counter = v.counter;
  }
  reduce-Answers s (close key) v h = record {
    indexed = take_by_key-IsConsistent (previews_iface S C) s.previews key v.indexed;
    counter = v.counter;
  }
  reduce-Answers s (close_by_token token) v h = record {
    indexed = step-IsConsistent (previews_iface S C) s.previews (takes_two token) v.indexed;
    counter = v.counter;
  }
  reduce-Answers s (register key win group plan) v h =
      let P = previews_iface S C in
      let by_key = (take_by_key P s.previews key).0 in
      let by_win = (take_by_index_one P by_key win).0 in
      let s' : PreviewRegistry S C = record { next_token = s.next_token; previews = by_win } in
      let by_key-IsIndexed = take_by_key-IsConsistent P s.previews key v.indexed in
      let by_win-IsIndexed = step-IsConsistent P by_key (takes_one win) by_key-IsIndexed in
      let fresh =
        take_token-IsFresh s' v.counter
          (omega (arith, h, take-length s.previews key, take_one-length by_key win)) in
      elim (Option-cases (take_token s')) [
        | inl e ↦ absurd (rw (e, IsFresh) at fresh)
        | inr (token, e) ↦
            rw (e, reduce_register)
              (record {
                indexed = insert_replacing-IsConsistent P by_win key _ by_win-IsIndexed;
                counter = (rw (e, IsFresh) at fresh).2;
              })
      ]
  reduce-Answers s (doc_find_arrived key token) v h =
      doc_find-IsValid s key token (get_value (previews_iface S C) s.previews key) refl v
  reduce-Answers s (cleanup_opened key token id) v h =
      opened-IsValid s key token id (get_value (previews_iface S C) s.previews key) refl v
