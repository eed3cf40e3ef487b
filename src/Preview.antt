-- ===== src/Preview.antt =====
-- Previews of documents: nvim/rust/plugins/snacks-preview/src/reducer.rs, over the registry of
-- Registry. Buffers, windows and tokens are their numbers. `S` is the type of names and `C` that of
-- cleanup identities, which the reducer only passes on.
pub mod Tokens
pub mod Indexes
pub mod Release
pub mod Cleanups
use dotfiles_nix.Base.{
  ℕ, zero, suc, ◌+◌, ◌==◌, leb, ℕ_discrete, Bool, true, false, not, ◌&&◌, List, [], ◌∷◌, ◌++◌,
  Option, none, some, is_some, if◌then◌else◌, length,
}
use dotfiles_nix.Base.Maps.{keys, insert}
use dotfiles_nix.Base.Words.{i64_max}
use dotfiles_nix.Machine.{Transition, default_transition, with_effects, set_command}
use dotfiles_nix.Registry.{
  Iface, IndexedRegistry, EvictionReason, EvictedEntry, index_one, index_two,
  index_one_and_index_two, empty, get_value, key_by_index_two, take_by_key, take_by_index_one,
  take_by_index_two, insert_replacing,
}

pub record RestoreNamePlan (S : Type 0) : Type 0 where
  pub name : S
  pub preview_name : S

pub record DocPreviewState (S C : Type 0) : Type 0 where
  pub token : ℕ
  pub win : ℕ
  pub group : Option ℕ
  pub cleanup : Option C
  pub restore_name_plan : Option (RestoreNamePlan S)

pub data PreviewEffect (S C : Type 0) : Type 0 where
  restore_name : ℕ → RestoreNamePlan S → PreviewEffect S C
  delete_augroup : ℕ → PreviewEffect S C
  close_cleanup : C → PreviewEffect S C

pub data PreviewCommand : Type 0 where
  request_doc_find : ℕ → PreviewCommand

pub data PreviewEvent (S C : Type 0) : Type 0 where
  reset : PreviewEvent S C
  close : ℕ → PreviewEvent S C
  close_by_token : ℕ → PreviewEvent S C
  register : ℕ → ℕ → ℕ → Option (RestoreNamePlan S) → PreviewEvent S C
  doc_find_arrived : ℕ → ℕ → PreviewEvent S C
  cleanup_opened : ℕ → ℕ → C → PreviewEvent S C

-- The registry's keys are buffers, its indexes windows and tokens.
abbrev pub previews_iface : Type 0 → Type 0 → Iface
previews_iface S C = record {
  K = ℕ;
  I1 = ℕ;
  I2 = ℕ;
  V = DocPreviewState S C;
  dec_key = ℕ_discrete;
  dec_one = ℕ_discrete;
  dec_two = ℕ_discrete;
  index_one_of = λ v. v.win;
  index_two_of = λ v. v.token;
}

abbrev pub Previews : Type 0 → Type 0 → Type 0
Previews S C = IndexedRegistry (previews_iface S C)

pub record PreviewRegistry (S C : Type 0) : Type 0 where
  pub next_token : ℕ
  pub previews : Previews S C

-- The counter after the last token: it starts again at 1 after the greatest `i64`.
abbrev pub bump : ℕ → ℕ
bump n = if n == i64_max then 1 else n + 1

abbrev pub other_group : Option ℕ → ℕ → Option ℕ
other_group none new_group = none
other_group (some group) new_group = if not (group == new_group) then some group else none

-- The keys in increasing order.
abbrev pub insert_sorted : ℕ → List ℕ → List ℕ
insert_sorted k [] = k ∷ []
insert_sorted k (j ∷ js) = if leb k j then k ∷ j ∷ js else j ∷ insert_sorted k js

abbrev pub sort_keys : List ℕ → List ℕ
sort_keys [] = []
sort_keys (k ∷ ks) = insert_sorted k (sort_keys ks)

abbrev is_closed_reason : EvictionReason → Bool
is_closed_reason index_one = true
is_closed_reason index_two = true
is_closed_reason index_one_and_index_two = true
is_closed_reason _ = false

abbrev pub Reduced : Type 0 → Type 0 → Type 0
Reduced S C = PreviewRegistry S C × Transition (PreviewEffect S C) PreviewCommand

module _ {S C : Type 0} where
  -- The loop of `next_token`, on fuel.
  unfoldable pub token_loop : ℕ → Previews S C → ℕ → Option ℕ
  token_loop zero r n = none
  token_loop (suc fuel) r n =
      let rest = token_loop fuel r (bump n) in
      if is_some (key_by_index_two (previews_iface S C) r (bump n)) then rest else some (bump n)

  -- The token, which is also the new counter. One attempt more than there are tokens is enough.
  unfoldable pub take_token : PreviewRegistry S C → Option ℕ
  take_token s = token_loop (suc (length s.previews.by_index_two)) s.previews s.next_token

  abbrev pub listed : {A : Type 0} → Option A → (A → PreviewEffect S C) → List (PreviewEffect S C)
  listed none make = []
  listed (some a) make = make a ∷ []

  unfoldable pub close_effects : ℕ → DocPreviewState S C → List (PreviewEffect S C)
  close_effects key state =
      listed state.restore_name_plan (restore_name key)
      ++ listed state.group delete_augroup
      ++ listed state.cleanup close_cleanup

  unfoldable pub replace_effects : DocPreviewState S C → ℕ → List (PreviewEffect S C)
  replace_effects state new_group =
      listed (other_group state.group new_group) delete_augroup
      ++ listed state.cleanup close_cleanup

  abbrev pub effects_of_closed : ℕ → Option (DocPreviewState S C) → List (PreviewEffect S C)
  effects_of_closed key none = []
  effects_of_closed key (some old) = close_effects key old

  -- The loop of a reset.
  unfoldable pub close_all : Previews S C → List ℕ → Previews S C × List (PreviewEffect S C)
  close_all r [] = (r, [])
  close_all r (k ∷ ks) =
      let taken = take_by_key (previews_iface S C) r k in
      let rest = close_all taken.0 ks in (rest.0, effects_of_closed k taken.1 ++ rest.1)

  -- The loop over the entries that the insertion evicts.
  unfoldable pub evicted_effects :
      List (EvictedEntry ℕ (DocPreviewState S C)) → ℕ → List (PreviewEffect S C)
  evicted_effects [] group = []
  evicted_effects (e ∷ es) group =
      (if is_closed_reason e.reason
        then close_effects e.evicted_key e.evicted_value
        else replace_effects e.evicted_value group)
      ++ evicted_effects es group

  -- A write through `get_preview_mut`.
  unfoldable pub write_preview : Previews S C → ℕ → DocPreviewState S C → Previews S C
  write_preview r key state = record r { by_key = insert ℕ_discrete key state r.by_key }

  abbrev pub of_replaced : Option (DocPreviewState S C) → ℕ → List (PreviewEffect S C)
  of_replaced none group = []
  of_replaced (some old) group = replace_effects old group

  abbrev pub of_window : Option (ℕ × DocPreviewState S C) → ℕ → List (PreviewEffect S C)
  of_window none key = []
  of_window (some (old_key, old)) key =
      if not (old_key == key) then close_effects old_key old else []

  -- `none` only if `take_token` fails.
  unfoldable pub reduce_register :
      PreviewRegistry S C → ℕ → ℕ → ℕ → Option (RestoreNamePlan S) → Option (Reduced S C)
  unfolding set_command with_effects
  reduce_register s key win group plan =
      let P = previews_iface S C in
      let by_key = take_by_key P s.previews key in
      let by_win = take_by_index_one P by_key.0 win in
      elim (take_token (record { next_token = s.next_token; previews = by_win.0 })) [
        | none ↦ none
        | some token ↦
            let state : DocPreviewState S C = record {
              token = token;
              win = win;
              group = some group;
              cleanup = none;
              restore_name_plan = plan;
            } in
            let inserted = insert_replacing P by_win.0 key state in
            some (
              record { next_token = token; previews = inserted.0 },
              set_command
                  (with_effects (
                    of_replaced by_key.1 group
                    ++ of_window by_win.1 key
                    ++ evicted_effects inserted.1 group))
                  (request_doc_find token),
            )
      ]

  abbrev pub doc_find : PreviewRegistry S C → ℕ → ℕ → Option (DocPreviewState S C) → Reduced S C
  doc_find s key token none = (s, default_transition)
  doc_find s key token (some entry) =
      if not (entry.token == token) then (s, default_transition) else (
        record s {
          previews = write_preview s.previews key (record entry { restore_name_plan = none });
        },
        with_effects (listed entry.restore_name_plan (restore_name key)),
      )

  abbrev pub opened : PreviewRegistry S C → ℕ → ℕ → C → Option (DocPreviewState S C) → Reduced S C
  opened s key token id none = (s, with_effects (close_cleanup id ∷ []))
  opened s key token id (some entry) =
      if not (entry.token == token) then (s, with_effects (close_cleanup id ∷ [])) else (
        record s { previews = write_preview s.previews key (record entry { cleanup = some id }) },
        with_effects (listed entry.cleanup close_cleanup),
      )

  unfoldable pub reduce : PreviewRegistry S C → PreviewEvent S C → Option (Reduced S C)
  unfolding reduce_register with_effects default_transition write_preview close_all
  reduce s reset =
      let closed = close_all s.previews (sort_keys (keys s.previews.by_key)) in
      some (record s { previews = closed.0 }, with_effects closed.1)
  reduce s (close key) =
      let taken = take_by_key (previews_iface S C) s.previews key in
      some (record s { previews = taken.0 }, with_effects (effects_of_closed key taken.1))
  reduce s (close_by_token token) =
      let taken = take_by_index_two (previews_iface S C) s.previews token in
      some (
        record s { previews = taken.0 },
        elim taken.1 [
          | none ↦ default_transition
          | some (key, old) ↦ with_effects (close_effects key old)
        ],
      )
  reduce s (register key win group plan) = reduce_register s key win group plan
  reduce s (doc_find_arrived key token) =
      some (doc_find s key token (get_value (previews_iface S C) s.previews key))
  reduce s (cleanup_opened key token id) =
      some (opened s key token id (get_value (previews_iface S C) s.previews key))
