-- ===== src/Autocmds/Wezterm.antt =====
-- Updates of the terminal's tab title and working directory: autocmds/src/machines/wezterm
-- (events.rs, state.rs, reducer.rs). `T` is the type of titles and `D` that of directories, whose
-- values the machine compares and passes on.
pub mod Slots
pub mod Channels
use dotfiles_nix.Base.{
  Bool, true, false, not, ◌&&◌, ◌||◌, List, [], ◌∷◌, Option, none, some, is_some, ite,
  if◌then◌else◌,
}
use dotfiles_nix.Machine.{Transition, NoEffect, default_transition, with_command}

pub record UpdateSlot (T : Type 0) : Type 0 where
  pub applied : Option T
  pub in_flight : Option T
  pub queued : Option T

unfoldable pub new_slot : {T : Type 0} → UpdateSlot T
new_slot = record { applied = none; in_flight = none; queued = none }

unfoldable pub clear_pending : {T : Type 0} → UpdateSlot T → UpdateSlot T
clear_pending s = record s { in_flight = none; queued = none }

module _ {T : Type 0} (dec : Discrete T) where
  -- `option.as_ref() == Some(&target)`.
  abbrev pub holds : Option T → T → Bool
  holds none t = false
  holds (some a) t = ite (dec a t) true false

  unfoldable pub request : UpdateSlot T → T → UpdateSlot T × Option T
  request s target =
      if holds s.applied target || holds s.in_flight target || holds s.queued target
      then (s, none)
      else if is_some s.in_flight
      then (record s { queued = some target }, none)
      else (record s { in_flight = some target }, some target)

  abbrev start_with : UpdateSlot T → Option T → UpdateSlot T × Option T
  start_with s none = (s, none)
  start_with s (some queued) =
      let t = record s { queued = none } in
      if holds s.applied queued
      then (t, none)
      else (record t { in_flight = some queued }, some queued)

  unfoldable pub start_queued : UpdateSlot T → UpdateSlot T × Option T
  start_queued s = start_with s s.queued

  unfoldable pub complete_success : UpdateSlot T → T → UpdateSlot T × Option T
  unfolding start_queued
  complete_success s target =
      if not (holds s.in_flight target)
      then (s, none)
      else start_queued (record s { applied = some target; in_flight = none })

  unfoldable pub complete_failure : UpdateSlot T → T → UpdateSlot T × Option T
  unfolding start_queued
  complete_failure s target =
      if not (holds s.in_flight target)
      then (s, none)
      else start_queued (record s { in_flight = none })

pub data FailureChannel : Type 0 where
  title_channel cwd_channel : FailureChannel

pub record CliWarningGate : Type 0 where
  pub unavailable_reported : Bool
  pub title_failed_reported : Bool
  pub cwd_failed_reported : Bool

unfoldable pub reset_after_success : CliWarningGate → FailureChannel → CliWarningGate
reset_after_success g title_channel = record g {
  unavailable_reported = false;
  title_failed_reported = false;
}
reset_after_success g cwd_channel = record g {
  unavailable_reported = false;
  cwd_failed_reported = false;
}

unfoldable pub take_unavailable : CliWarningGate → CliWarningGate × Bool
take_unavailable g =
    if g.unavailable_reported then (g, false) else (record g { unavailable_reported = true }, true)

unfoldable pub take_failed : CliWarningGate → FailureChannel → CliWarningGate × Bool
take_failed g title_channel =
    if g.title_failed_reported
    then (g, false)
    else (record g { title_failed_reported = true }, true)
take_failed g cwd_channel =
    if g.cwd_failed_reported then (g, false) else (record g { cwd_failed_reported = true }, true)

pub data WeztermCompletion : Type 0 where
  success failed unavailable : WeztermCompletion

pub data WeztermCommand (T D : Type 0) : Type 0 where
  set_tab_title : T → WeztermCommand T D
  set_working_dir : D → WeztermCommand T D

pub data WeztermEvent (T D : Type 0) : Type 0 where
  request_title : T → WeztermEvent T D
  request_working_dir : D → WeztermEvent T D
  title_completed : T → WeztermCompletion → WeztermEvent T D
  working_dir_completed : D → WeztermCompletion → WeztermEvent T D

pub record WeztermState (T D : Type 0) : Type 0 where
  pub title : UpdateSlot T
  pub cwd : UpdateSlot D
  pub warning_gate : CliWarningGate

-- The slot after a completion, what it starts next, and whether the completion was a success of
-- the update in flight.
abbrev pub complete :
    {A : Type 0}
    → Discrete A
    → UpdateSlot A
    → A
    → WeztermCompletion
    → (UpdateSlot A × Option A) × Bool
complete dec slot target success =
    (complete_success dec slot target, holds dec slot.in_flight target)
complete dec slot target failed = (complete_failure dec slot target, false)
complete dec slot target unavailable = (complete_failure dec slot target, false)

abbrev pub reset_if : Bool → CliWarningGate → FailureChannel → CliWarningGate
reset_if true g channel = reset_after_success g channel
reset_if false g channel = g

module _ {T D : Type 0} where
  unfoldable pub new_state : WeztermState T D
  unfolding new_slot
  new_state = record {
    title = new_slot;
    cwd = new_slot;
    warning_gate = record {
      unavailable_reported = false;
      title_failed_reported = false;
      cwd_failed_reported = false;
    };
  }

  unfoldable pub clear_pending_updates : WeztermState T D → WeztermState T D
  unfolding clear_pending
  clear_pending_updates s = record s { title = clear_pending s.title; cwd = clear_pending s.cwd }

  unfoldable pub transition_from_next :
      {A : Type 0} → Option A → (A → WeztermCommand T D) → Transition NoEffect (WeztermCommand T D)
  unfolding default_transition with_command
  transition_from_next none make = default_transition
  transition_from_next (some a) make = with_command (make a)

  -- The end of `complete_slot`: an unavailable terminal drops all that is pending.
  abbrev pub finish :
      {A : Type 0}
      → WeztermState T D
      → WeztermCompletion
      → Option A
      → (A → WeztermCommand T D)
      → WeztermState T D × Transition NoEffect (WeztermCommand T D)
  finish s unavailable next make = (clear_pending_updates s, default_transition)
  finish s _ next make = (s, transition_from_next next make)

  unfoldable pub reduce :
      Discrete T
      → Discrete D
      → WeztermState T D
      → WeztermEvent T D
      → WeztermState T D × Transition NoEffect (WeztermCommand T D)
  unfolding request complete_success complete_failure reset_after_success clear_pending_updates
      transition_from_next default_transition
  reduce dec_t dec_d s (request_title title) =
      let (slot, next) = request dec_t s.title title in
      (record s { title = slot }, transition_from_next next set_tab_title)
  reduce dec_t dec_d s (request_working_dir cwd) =
      let (slot, next) = request dec_d s.cwd cwd in
      (record s { cwd = slot }, transition_from_next next set_working_dir)
  reduce dec_t dec_d s (title_completed title completion) =
      let result = complete dec_t s.title title completion in
      finish
        (record s {
          title = result.0.0;
          warning_gate = reset_if result.1 s.warning_gate title_channel;
        })
        completion result.0.1 set_tab_title
  reduce dec_t dec_d s (working_dir_completed cwd completion) =
      let result = complete dec_d s.cwd cwd completion in
      finish
        (record s { cwd = result.0.0; warning_gate = reset_if result.1 s.warning_gate cwd_channel })
        completion result.0.1 set_working_dir
