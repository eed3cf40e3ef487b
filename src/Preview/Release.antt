-- ===== src/Preview/Release.antt =====
-- No cleanup of snacks-preview/src/reducer.rs is lost: it stays with its preview or is closed.
use dotfiles_nix.Base.{
  ℕ, ◌≡◌, refl, sym, ap, ◌∙◌, ◌⊎◌, inl, inr, List, [], ◌∷◌, ◌++◌, Option, none, some, arith,
  Bool-cases, Option-cases, ℕ_discrete, ◌==◌, if_neg,
}
use mathlib.Core.List.{Memᴰ}
use dotfiles_nix.Base.Maps.{get-insert}
use dotfiles_nix.Machine.{with_effects, default_transition}
use dotfiles_nix.Registry.{
  get_value, key_by_index_one, key_by_index_two, take_by_key, take_by_index_one, take_by_index_two,
  with_key,
}
use dotfiles_nix.Registry.Replacing.{get-take_by_key}
use dotfiles_nix.Registry.Reachable.{with_key-state}
use dotfiles_nix.Preview.{
  DocPreviewState, restore_name, delete_augroup, close_cleanup, close, close_by_token,
  doc_find_arrived, cleanup_opened, PreviewRegistry, Previews, previews_iface, Reduced,
  write_preview, reduce, close_effects, replace_effects, listed, other_group,
}

pub Memᴰ-append_left : {A : Type 0} (a : A) (xs ys : List A) → Memᴰ a xs → Memᴰ a (xs ++ ys)
Memᴰ-append_left a [] ys m = elim m [ ]
Memᴰ-append_left a (x ∷ xs) ys (Memᴰ.head e) = Memᴰ.head e
Memᴰ-append_left a (x ∷ xs) ys (Memᴰ.tail m) = Memᴰ.tail (Memᴰ-append_left a xs ys m)

pub Memᴰ-append_right : {A : Type 0} (a : A) (xs ys : List A) → Memᴰ a ys → Memᴰ a (xs ++ ys)
Memᴰ-append_right a [] ys m = m
Memᴰ-append_right a (x ∷ xs) ys m = Memᴰ.tail (Memᴰ-append_right a xs ys m)

module _ {S C : Type 0} where
  pub mem-close_effects :
      (key : ℕ) (state : DocPreviewState S C) (c : C)
      → state.cleanup ≡ some c
      → Memᴰ (close_cleanup c) (close_effects key state)
  unfolding close_effects
  mem-close_effects key state c e =
      Memᴰ-append_right _
        (listed state.restore_name_plan (restore_name key) ++ listed state.group delete_augroup)
        (listed state.cleanup close_cleanup) (rw e (Memᴰ.head refl))

  pub mem-replace_effects :
      (state : DocPreviewState S C) (group : ℕ) (c : C)
      → state.cleanup ≡ some c
      → Memᴰ (close_cleanup c) (replace_effects state group)
  unfolding replace_effects
  mem-replace_effects state group c e =
      Memᴰ-append_right _ (listed (other_group state.group group) delete_augroup)
        (listed state.cleanup close_cleanup) (rw e (Memᴰ.head refl))

  -- The buffer's preview still has the cleanup.
  abbrev pub Holds : Option (DocPreviewState S C) → C → Type 0
  Holds none c = ⊥
  Holds (some state) c = state.cleanup ≡ some c

  -- A value that was taken, with its cleanup.
  abbrev pub Taken : Option (DocPreviewState S C) → C → Type 0
  Taken o c = (v : DocPreviewState S C) × (o ≡ some v) × (v.cleanup ≡ some c)

  pub take-fate :
      (r : Previews S C) (key j : ℕ) (c : C)
      → Holds (get_value (previews_iface S C) r j) c
      → Holds (get_value (previews_iface S C) (take_by_key (previews_iface S C) r key).0 j) c
        ⊎ ((key ≡ j) × Taken (take_by_key (previews_iface S C) r key).1 c)
  take-fate r key j c h =
      let P = previews_iface S C in
      let (left, out) = get-take_by_key P r key j in
      elim (Option-cases (get_value P r j)) [
        | inl e ↦ absurd (rw e at h)
        | inr (v, e) ↦ elim (ℕ_discrete key j) [
          | yes p ↦ inr (p, (v, out ∙ ap (get_value P r) p ∙ e, rw e at h))
          | no n ↦ inl (rw (left ∙ if_neg (ℕ_discrete key j) n _ _) h)
        ]
      ]

  with_key-value :
      (k : ℕ) (x : Previews S C × Option (DocPreviewState S C)) (v : DocPreviewState S C)
      → x.1 ≡ some v
      → (with_key (previews_iface S C) k x).1 ≡ some (k, v)
  with_key-value k (r, none) v e = ground arith
  with_key-value k (r, some w) v e = ground arith

  -- What an index took, for the buffer.
  abbrev pub TakenOf : Option (ℕ × DocPreviewState S C) → ℕ → C → Type 0
  TakenOf o j c = (v : DocPreviewState S C) × (o ≡ some (j, v)) × (v.cleanup ≡ some c)

  pub take_one-fate :
      (r : Previews S C) (win j : ℕ) (c : C)
      → Holds (get_value (previews_iface S C) r j) c
      → Holds (get_value (previews_iface S C) (take_by_index_one (previews_iface S C) r win).0 j) c
        ⊎ TakenOf (take_by_index_one (previews_iface S C) r win).1 j c
  unfolding take_by_index_one
  take_one-fate r win j c h =
      let P = previews_iface S C in
      elim (Option-cases (key_by_index_one P r win)) [
        | inl e ↦ rw (e, take_by_index_one) (inl h)
        | inr (k, e) ↦ elim (take-fate r k j c h) [
          | inl kept ↦ rw (e, take_by_index_one, with_key-state P k (take_by_key P r k)) (inl kept)
          | inr (p, (v, out, cl)) ↦ inr (
            v,
            rw (e, take_by_index_one)
                (with_key-value k (take_by_key P r k) v out ∙ ap (λ i. some (i, v)) p),
            cl,
          )
        ]
      ]

  take_two-fate :
      (r : Previews S C) (token j : ℕ) (c : C)
      → Holds (get_value (previews_iface S C) r j) c
      → Holds
          (get_value (previews_iface S C) (take_by_index_two (previews_iface S C) r token).0 j)
          c
        ⊎ TakenOf (take_by_index_two (previews_iface S C) r token).1 j c
  unfolding take_by_index_two
  take_two-fate r token j c h =
      let P = previews_iface S C in
      elim (Option-cases (key_by_index_two P r token)) [
        | inl e ↦ rw (e, take_by_index_two) (inl h)
        | inr (k, e) ↦ elim (take-fate r k j c h) [
          | inl kept ↦ rw (e, take_by_index_two, with_key-state P k (take_by_key P r k)) (inl kept)
          | inr (p, (v, out, cl)) ↦ inr (
            v,
            rw (e, take_by_index_two)
                (with_key-value k (take_by_key P r k) v out ∙ ap (λ i. some (i, v)) p),
            cl,
          )
        ]
      ]

  -- The cleanup stays with the buffer's preview or is closed.
  abbrev pub Keeps : Option (Reduced S C) → ℕ → C → Type 0
  Keeps none j c = ⊥
  Keeps (some r) j c =
      Holds (get_value (previews_iface S C) r.0.previews j) c ⊎ Memᴰ (close_cleanup c) r.1.effects

  pub close-Keeps :
      (s : PreviewRegistry S C) (key j : ℕ) (c : C)
      → Holds (get_value (previews_iface S C) s.previews j) c
      → Keeps (reduce s (close key)) j c
  unfolding reduce with_effects
  close-Keeps s key j c h =
      let P = previews_iface S C in
      elim (take-fate s.previews key j c h) [
        | inl kept ↦ inl kept
        | inr (p, (v, out, cl)) ↦ inr (rw out (mem-close_effects key v c cl))
      ]

  pub close_by_token-Keeps :
      (s : PreviewRegistry S C) (token j : ℕ) (c : C)
      → Holds (get_value (previews_iface S C) s.previews j) c
      → Keeps (reduce s (close_by_token token)) j c
  unfolding reduce with_effects
  close_by_token-Keeps s token j c h = elim (take_two-fate s.previews token j c h) [
    | inl kept ↦ inl kept
    | inr (v, out, cl) ↦ inr (rw (out, reduce) (mem-close_effects j v c cl))
  ]

  pub doc_find-Keeps :
      (s : PreviewRegistry S C) (key token j : ℕ) (c : C)
      → Holds (get_value (previews_iface S C) s.previews j) c
      → Keeps (reduce s (doc_find_arrived key token)) j c
  unfolding reduce with_effects write_preview default_transition
  doc_find-Keeps s key token j c h =
      elim (Option-cases (get_value (previews_iface S C) s.previews key)) [
        | inl e ↦ rw (e, reduce) (inl h)
        | inr (old, e) ↦ inl (
            ground (
              arith,
              get-insert ℕ_discrete key j (record old { restore_name_plan = none })
                  s.previews.by_key,
            ))
      ]

  pub opened-Keeps :
      (s : PreviewRegistry S C) (key token j : ℕ) (id c : C)
      → Holds (get_value (previews_iface S C) s.previews j) c
      → Keeps (reduce s (cleanup_opened key token id)) j c
  unfolding reduce with_effects write_preview default_transition
  opened-Keeps s key token j id c h =
      let P = previews_iface S C in
      elim (Option-cases (get_value P s.previews key)) [
        | inl e ↦ rw (e, reduce) (inl h)
        | inr (old, e) ↦ elim (Bool-cases (old.token == token)) [
          | inr stale ↦ rw (e, reduce, stale) (inl h)
          | inl current ↦
              let new = record old { cleanup = some id } in
              let written = get-insert ℕ_discrete key j new s.previews.by_key in
              rw (e, reduce, current)
                (elim (ℕ_discrete key j) [
                  | yes p ↦
                      let held : old.cleanup ≡ some c =
                        rw (sym (ap (get_value P s.previews) p) ∙ e) at h in
                      inr (rw held (Memᴰ.head refl))
                  | no n ↦ inl (rw (written ∙ if_neg (ℕ_discrete key j) n _ _) h)
                ])
        ]
      ]
