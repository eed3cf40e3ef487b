-- ===== src/Smear/Reducer/Machine/Runs.antt =====
-- Runs of the reducer: smear-cursor/src/core/reducer/machine/mod.rs.
use dotfiles_nix.Base.{◌≡◌, refl, List, [], ◌∷◌, Option, none, some, Option-cases, inl, inr}
use dotfiles_nix.Smear.Payloads.{Payloads}
use dotfiles_nix.Smear.Protocol.Core.{CoreState}
use dotfiles_nix.Smear.Reducer.Snapshot.{parts, Calls}
use dotfiles_nix.Smear.Reducer.Effects.{Event}
use dotfiles_nix.Smear.Reducer.Machine.Total.{reduce_owned-total}
use dotfiles_nix.Smear.Reducer.Machine.Recovery.{IsLive, reduce_owned-IsLive}
use dotfiles_nix.Smear.Reducer.Machine.{reduce_owned}

module _ {w : Payloads} (c : Calls w) where
  -- The events of a run, one after the other.
  unfoldable pub run : CoreState (parts w) → List (Event w) → Option (CoreState (parts w))
  run s [] = some s
  run s (e ∷ es) = elim (reduce_owned c s e) [ none ↦ none | some t ↦ run t.next es ]

  -- A run from a live state, such as the idle one, never stops at an `unreachable!`, and ends in a
  -- live state, whatever the events and their order.
  pub run-IsLive :
      (s : CoreState (parts w)) (es : List (Event w))
      → IsLive s
      → (t : CoreState (parts w)) × (run s es ≡ some t) × IsLive t
  unfolding run
  run-IsLive s [] v = (s, refl, v)
  run-IsLive s (e ∷ es) v = elim (Option-cases (reduce_owned c s e)) [
    | inl stops ↦ absurd (cc (stops, reduce_owned-total c s e))
    | inr (t, to) ↦ rw (to, run) (run-IsLive t.next es (reduce_owned-IsLive c s e t to v))
  ]
