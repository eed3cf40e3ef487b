-- ===== src/Preview/Cleanups.antt =====
-- Registering and resetting in snacks-preview/src/reducer.rs, and all events together: no cleanup is
-- lost.
use dotfiles_nix.Base.{
  leb, ℕ, ◌<◌, ◌≡◌, sym, ◌∙◌, inl, inr, ◌≢◌, true, false, List, [], ◌∷◌, ◌++◌, Option, none, some,
  is_some, arith, length, Bool-cases, Option-cases, ℕ_discrete, ◌==◌, if_neg, if_pos,
}
use mathlib.Core.List.{Memᴰ}
use dotfiles_nix.Base.Words.{i64_max}
use dotfiles_nix.Base.Maps.{Map, keys, get}
use dotfiles_nix.Machine.{with_effects, set_command}
use dotfiles_nix.Registry.{
  get_value, key_by_index_one, key_by_index_two, take_by_key, take_by_index_one, insert_replacing,
}
use dotfiles_nix.Registry.Consistency.{take_by_key-IsConsistent}
use dotfiles_nix.Registry.Replacing.{insert_replacing_lem, get-take_by_key}
use dotfiles_nix.Registry.Reachable.{with_key-state, step-IsConsistent, takes_one}
use dotfiles_nix.Preview.{
  DocPreviewState, RestoreNamePlan, close_cleanup, PreviewEvent, reset, close, close_by_token,
  register, doc_find_arrived, cleanup_opened, PreviewRegistry, Previews, previews_iface, take_token,
  close_all, reduce_register, reduce, sort_keys, effects_of_closed, of_replaced, of_window,
  evicted_effects, insert_sorted,
}
use dotfiles_nix.Preview.Tokens.{IsFresh, take_token-IsFresh}
use dotfiles_nix.Preview.Release.{
  Memᴰ-append_left, Memᴰ-append_right, Holds, Keeps, TakenOf, take-fate, take_one-fate,
  mem-close_effects, mem-replace_effects, close-Keeps, close_by_token-Keeps, doc_find-Keeps,
  opened-Keeps,
}
use dotfiles_nix.Preview.Indexes.{take-length, take_one-length, IsValid, IsIndexed}

mem-insert_sorted : (j k : ℕ) (ks : List ℕ) → Memᴰ j (k ∷ ks) → Memᴰ j (insert_sorted k ks)
mem-insert_sorted j k [] m = m
mem-insert_sorted j k (i ∷ is) m = elim (Bool-cases (leb k i)) [
  | inl e ↦ rw (e, insert_sorted) m
  | inr e ↦ rw (e, insert_sorted) (later (mem-insert_sorted j k is) m)
]
  where
    later :
        (Memᴰ j (k ∷ is) → Memᴰ j (insert_sorted k is))
        → Memᴰ j (k ∷ i ∷ is)
        → Memᴰ j (i ∷ insert_sorted k is)
    later rest (Memᴰ.head p) = Memᴰ.tail (rest (Memᴰ.head p))
    later rest (Memᴰ.tail (Memᴰ.head p)) = Memᴰ.head p
    later rest (Memᴰ.tail (Memᴰ.tail t)) = Memᴰ.tail (rest (Memᴰ.tail t))

mem-sort_keys : (j : ℕ) (ks : List ℕ) → Memᴰ j ks → Memᴰ j (sort_keys ks)
mem-sort_keys j [] m = m
mem-sort_keys j (k ∷ ks) (Memᴰ.head p) = mem-insert_sorted j k (sort_keys ks) (Memᴰ.head p)
mem-sort_keys j (k ∷ ks) (Memᴰ.tail t) =
    mem-insert_sorted j k (sort_keys ks) (Memᴰ.tail (mem-sort_keys j ks t))

mem-keys :
    {A : Type 0} (j : ℕ) (m : Map ℕ A) → is_some (get ℕ_discrete j m) ≡ true → Memᴰ j (keys m)
unfolding get
mem-keys j [] h = ground arith
mem-keys j ((k, v) ∷ m) h = elim (ℕ_discrete k j) [
  | yes p ↦ Memᴰ.head (sym p)
  | no n ↦ Memᴰ.tail (mem-keys j m (rw (if_neg (ℕ_discrete k j) n _ _) at h))
]

module _ {S C : Type 0} where
  close_all-mem :
      (r : Previews S C) (ks : List ℕ) (j : ℕ) (c : C)
      → Holds (get_value (previews_iface S C) r j) c
      → Memᴰ j ks
      → Memᴰ (close_cleanup c) (close_all r ks).1
  unfolding close_all
  close_all-mem r [] j c h m = elim m [ ]
  close_all-mem r (k ∷ ks) j c h m =
      let P = previews_iface S C in
      let taken = take_by_key P r k in
      let later = (close_all taken.0 ks).1 in
      elim (take-fate r k j c h) [
        | inr (p, (v, out, cl)) ↦
            Memᴰ-append_left _ (effects_of_closed k taken.1) later
              (rw out (mem-close_effects k v c cl))
        | inl kept ↦
            Memᴰ-append_right _ (effects_of_closed k taken.1) later
              (close_all-mem taken.0 ks j c kept (other kept m))
      ]
    where
      other :
          Holds (get_value (previews_iface S C) (take_by_key (previews_iface S C) r k).0 j) c
          → Memᴰ j (k ∷ ks)
          → Memᴰ j ks
      other kept (Memᴰ.tail t) = t
      other kept (Memᴰ.head p) = absurd (
          rw ((get-take_by_key (previews_iface S C) r k j).0 ∙ if_pos (ℕ_discrete k j) (sym p) _ _)
            at kept)

  reset-Keeps :
      (s : PreviewRegistry S C) (j : ℕ) (c : C)
      → Holds (get_value (previews_iface S C) s.previews j) c
      → Keeps (reduce s reset) j c
  unfolding reduce with_effects
  reset-Keeps s j c h =
      let ks = keys s.previews.by_key in
      inr (
        close_all-mem s.previews (sort_keys ks) j c h
          (mem-sort_keys j ks (mem-keys j s.previews.by_key (some_of_Holds h))))
    where
      some_of_Holds :
          Holds (get_value (previews_iface S C) s.previews j) c
          → is_some (get ℕ_discrete j s.previews.by_key) ≡ true
      some_of_Holds h = ground arith

  taken_free :
      (r : Previews S C) (win k : ℕ)
      → IsIndexed r
      → key_by_index_one (previews_iface S C) r win ≡ some k
      → key_by_index_one (previews_iface S C) (take_by_key (previews_iface S C) r k).0 win ≡ none
  taken_free r win k c e =
      let P = previews_iface S C in
      let c' = take_by_key-IsConsistent P r k c in
      elim (Option-cases (key_by_index_one P (take_by_key P r k).0 win)) [
        | inl free ↦ free
        | inr (j, f) ↦ ground (arith, c'.one win j, c.one win j, get-take_by_key P r k j)
      ]

  -- After a window's preview was taken, the window has none.
  window_free :
      (r : Previews S C) (win : ℕ)
      → IsIndexed r
      → key_by_index_one (previews_iface S C) (take_by_index_one (previews_iface S C) r win).0 win
        ≡ none
  unfolding take_by_index_one
  window_free r win c =
      let P = previews_iface S C in
      elim (Option-cases (key_by_index_one P r win)) [
        | inl e ↦ rw (e, take_by_index_one) e
        | inr (k, e) ↦
            rw (e, take_by_index_one, with_key-state P k (take_by_key P r k))
              (taken_free r win k c e)
      ]

  -- An entry that has neither the key nor an index of the new one outlives the insertion.
  insert-Holds :
      (r : Previews S C) (key j : ℕ) (new : DocPreviewState S C) (c : C)
      → IsIndexed r
      → key ≢ j
      → key_by_index_one (previews_iface S C) r new.win ≡ none
      → key_by_index_two (previews_iface S C) r new.token ≡ none
      → Holds (get_value (previews_iface S C) r j) c
      → Holds
          (get_value (previews_iface S C) (insert_replacing (previews_iface S C) r key new).0 j)
          c
  insert-Holds r key j new c i n e₁ e₂ h =
      let after = (insert_replacing_lem (previews_iface S C) r key new j i).0 in
      ground (arith, after, i.one new.win j, i.two new.token j)

  other_key :
      (r : Previews S C) (key j : ℕ) (c : C)
      → Holds (get_value (previews_iface S C) (take_by_key (previews_iface S C) r key).0 j) c
      → key ≢ j
  other_key r key j c h p =
      rw ((get-take_by_key (previews_iface S C) r key j).0 ∙ if_pos (ℕ_discrete key j) p _ _) at h

  mem-of_window :
      (o : Option (ℕ × DocPreviewState S C)) (key j : ℕ) (c : C)
      → key ≢ j
      → TakenOf o j c
      → Memᴰ (close_cleanup c) (of_window o key)
  mem-of_window o key j c n (v, out, cl) =
      let differs : (j == key) ≡ false = ground arith in
      rw (out, differs) (mem-close_effects j v c cl)

  register-Keeps :
      (s : PreviewRegistry S C) (key win group : ℕ) (plan : Option (RestoreNamePlan S)) (j : ℕ)
      (c : C)
      → IsValid s
      → length s.previews.by_index_two < i64_max
      → Holds (get_value (previews_iface S C) s.previews j) c
      → Keeps (reduce s (register key win group plan)) j c
  unfolding reduce with_effects set_command
  register-Keeps s key win group plan j c v l h =
      let P = previews_iface S C in
      let by_key = take_by_key P s.previews key in
      let by_win = take_by_index_one P by_key.0 win in
      let s' : PreviewRegistry S C = record { next_token = s.next_token; previews = by_win.0 } in
      let by_key-IsIndexed = take_by_key-IsConsistent P s.previews key v.indexed in
      let by_win-IsIndexed = step-IsConsistent P by_key.0 (takes_one win) by_key-IsIndexed in
      let fresh =
        take_token-IsFresh s' v.counter
          (omega (arith, l, take-length s.previews key, take_one-length by_key.0 win)) in
      let A = of_replaced by_key.1 group in
      let B = of_window by_win.1 key in
      elim (Option-cases (take_token s')) [
        | inl e ↦ absurd (rw (e, IsFresh) at fresh)
        | inr (token, e) ↦
            let new : DocPreviewState S C = record {
              token = token;
              win = win;
              group = some group;
              cleanup = none;
              restore_name_plan = plan;
            } in
            let E = evicted_effects (insert_replacing P by_win.0 key new).1 group in
            let free = (rw (e, IsFresh) at fresh).0 in
            rw (e, reduce_register)
              (elim (take-fate s.previews key j c h) [
                | inr (p, (old, out, cl)) ↦ inr (
                    Memᴰ-append_left _ (A ++ B) E
                      (Memᴰ-append_left _ A B (rw out (mem-replace_effects old group c cl))))
                | inl kept ↦
                    let n = other_key s.previews key j c kept in
                    elim (take_one-fate by_key.0 win j c kept) [
                      | inr taken ↦ inr (
                          Memᴰ-append_left _ (A ++ B) E
                            (Memᴰ-append_right _ A B (mem-of_window by_win.1 key j c n taken)))
                      | inl kept' ↦ inl (
                          insert-Holds by_win.0 key j new c by_win-IsIndexed n
                            (window_free by_key.0 win by_key-IsIndexed) free kept')
                    ]
              ])
      ]

  -- From a valid registry with fewer tokens than positive `i64`, every event keeps the cleanup of
  -- each preview with that preview's buffer, or closes it.
  pub reduce-Keeps :
      (s : PreviewRegistry S C) (e : PreviewEvent S C) (j : ℕ) (c : C)
      → IsValid s
      → length s.previews.by_index_two < i64_max
      → Holds (get_value (previews_iface S C) s.previews j) c
      → Keeps (reduce s e) j c
  reduce-Keeps s reset j c v l h = reset-Keeps s j c h
  reduce-Keeps s (close key) j c v l h = close-Keeps s key j c h
  reduce-Keeps s (close_by_token token) j c v l h = close_by_token-Keeps s token j c h
  reduce-Keeps s (register key win group plan) j c v l h =
      register-Keeps s key win group plan j c v l h
  reduce-Keeps s (doc_find_arrived key token) j c v l h = doc_find-Keeps s key token j c h
  reduce-Keeps s (cleanup_opened key token id) j c v l h = opened-Keeps s key token j id c h
