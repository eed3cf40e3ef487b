-- ===== src/Autocmds/Wezterm/Channels.antt =====
-- The two channels of autocmds/src/machines/wezterm/reducer.rs, and the gate of its warnings.
use dotfiles_nix.Base.{
  ◌≡◌, ◌↔◌, ◌&&◌, ◌||◌, Bool, true, false, not, List, [], ◌∷◌, none, some, arith,
}
use dotfiles_nix.Machine.{Transition, NoEffect}
use dotfiles_nix.Autocmds.Wezterm.{
  clear_pending, request, start_queued, complete_success, complete_failure, FailureChannel,
  title_channel, cwd_channel, CliWarningGate, reset_after_success, take_unavailable, take_failed,
  unavailable, WeztermCommand, set_tab_title, set_working_dir, WeztermEvent, request_title,
  title_completed, working_dir_completed, WeztermState, clear_pending_updates, transition_from_next,
  reduce,
}
use dotfiles_nix.Autocmds.Wezterm.Slots.{IsOrdered}

module _ {T D : Type 0} (dec_t : Discrete T) (dec_d : Discrete D) where
  -- Both slots are ordered.
  abbrev pub IsValid : WeztermState T D → Type 0
  IsValid s = IsOrdered dec_t s.title × IsOrdered dec_d s.cwd

  -- The event says that the terminal's program is not available.
  abbrev pub is_unavailable : WeztermEvent T D → Bool
  is_unavailable (title_completed t unavailable) = true
  is_unavailable (working_dir_completed d unavailable) = true
  is_unavailable e = false

  abbrev pub is_of_title : WeztermEvent T D → Bool
  is_of_title (request_title t) = true
  is_of_title (title_completed t c) = true
  is_of_title e = false

  -- An event keeps both slots of a state ordered.
  pub reduce-IsValid :
      (s : WeztermState T D) (e : WeztermEvent T D) → IsValid s → IsValid (reduce dec_t dec_d s e).0
  unfolding reduce request complete_success complete_failure clear_pending clear_pending_updates
      start_queued
  reduce-IsValid s e v = ground arith

  -- A title is sent to the terminal by exactly the event that puts it in flight, and so is a
  -- directory.
  pub reduce-command :
      (s : WeztermState T D) (e : WeztermEvent T D) (t : T) (d : D)
      → IsValid s
      → ((reduce dec_t dec_d s e).1.command ≡ some (set_tab_title t)
          ↔ ((reduce dec_t dec_d s e).0.title.in_flight ≡ some t × ¬ (s.title.in_flight ≡ some t)))
        × ((reduce dec_t dec_d s e).1.command ≡ some (set_working_dir d)
            ↔ ((reduce dec_t dec_d s e).0.cwd.in_flight ≡ some d × ¬ (s.cwd.in_flight ≡ some d)))
  unfolding reduce request complete_success complete_failure clear_pending clear_pending_updates
      start_queued transition_from_next
  reduce-command s e t d v = ground arith

  -- The other channel is as it was, or the terminal is unavailable and nothing is pending.
  abbrev pub Contained :
      Bool
      → Bool
      → WeztermState T D
      → WeztermState T D × Transition NoEffect (WeztermCommand T D)
      → Type 0
  Contained true of_title s r =
      r.0.title ≡ clear_pending s.title × r.0.cwd ≡ clear_pending s.cwd × r.1.command ≡ none
  Contained false true s r = r.0.cwd ≡ s.cwd
  Contained false false s r = r.0.title ≡ s.title

  -- An event of one channel leaves the other channel's slot as it is, but that an unavailable
  -- terminal drops what is in flight and queued on both channels and sends nothing.
  pub reduce-Contained :
      (s : WeztermState T D) (e : WeztermEvent T D)
      → Contained (is_unavailable e) (is_of_title e) s (reduce dec_t dec_d s e)
  unfolding reduce clear_pending clear_pending_updates complete_failure start_queued
  reduce-Contained s e = ground arith

abbrev same_channel : FailureChannel → FailureChannel → Bool
same_channel title_channel title_channel = true
same_channel cwd_channel cwd_channel = true
same_channel a b = false

-- What happens to the gate: an update of a channel succeeds, or a warning is wanted.
pub data GateOp : Type 0 where
  succeeded warns_failed : FailureChannel → GateOp
  warns_unavailable : GateOp

abbrev new_gate : CliWarningGate
new_gate = record {
  unavailable_reported = false;
  title_failed_reported = false;
  cwd_failed_reported = false;
}

abbrev gate_step : CliWarningGate → GateOp → CliWarningGate
gate_step g (succeeded c) = reset_after_success g c
gate_step g (warns_failed c) = (take_failed g c).0
gate_step g warns_unavailable = (take_unavailable g).0

-- The gate after a history, whose newest operation comes first.
unfoldable pub gate_after : List GateOp → CliWarningGate
gate_after [] = new_gate
gate_after (op ∷ older) = gate_step (gate_after older) op

-- The history has a warning of the channel since the channel's last success.
unfoldable pub has_warned : FailureChannel → List GateOp → Bool
has_warned c [] = false
has_warned c (succeeded d ∷ older) = not (same_channel c d) && has_warned c older
has_warned c (warns_failed d ∷ older) = same_channel c d || has_warned c older
has_warned c (warns_unavailable ∷ older) = has_warned c older

-- The history has a warning of an unavailable terminal since the last success.
unfoldable pub has_warned_unavailable : List GateOp → Bool
has_warned_unavailable [] = false
has_warned_unavailable (succeeded d ∷ older) = false
has_warned_unavailable (warns_failed d ∷ older) = has_warned_unavailable older
has_warned_unavailable (warns_unavailable ∷ older) = true

abbrev is_failed_reported : FailureChannel → CliWarningGate → Bool
is_failed_reported title_channel g = g.title_failed_reported
is_failed_reported cwd_channel g = g.cwd_failed_reported

gate_after-flags :
    (c : FailureChannel) (history : List GateOp)
    → is_failed_reported c (gate_after history) ≡ has_warned c history
      × (gate_after history).unavailable_reported ≡ has_warned_unavailable history
unfolding gate_after has_warned has_warned_unavailable reset_after_success take_failed
    take_unavailable
gate_after-flags c [] = ground arith
gate_after-flags c (op ∷ older) = ground (arith, gate_after-flags c older)

-- A warning is given when none of its kind was given since the last success: for a failed update
-- the last success of its channel, for an unavailable terminal that of either channel.
take_once :
    (c : FailureChannel) (history : List GateOp)
    → (take_failed (gate_after history) c).1 ≡ not (has_warned c history)
      × (take_unavailable (gate_after history)).1 ≡ not (has_warned_unavailable history)
unfolding take_failed take_unavailable
take_once c history = ground (arith, gate_after-flags c history)
