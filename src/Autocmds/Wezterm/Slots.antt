-- ===== src/Autocmds/Wezterm/Slots.antt =====
-- One slot of autocmds/src/machines/wezterm/state.rs: what is applied, in flight and queued.
use dotfiles_nix.Base.{
  ◌≡◌, ◌⊎◌, ◌↔◌, true, List, [], ◌∷◌, Option, none, some, is_some, or_else, arith,
}
use dotfiles_nix.Autocmds.Wezterm.{
  UpdateSlot, new_slot, clear_pending, request, start_queued, complete_success, complete_failure,
}

module _ {T : Type 0} (dec : Discrete T) where
  -- What is applied, in flight and queued are different values, and nothing is queued while
  -- nothing is in flight.
  abbrev pub Ordered : Option T → Option T → Option T → Type 0
  Ordered applied none none = Unit
  Ordered applied none (some q) = ⊥
  Ordered applied (some f) none = ¬ (applied ≡ some f)
  Ordered applied (some f) (some q) = ¬ (applied ≡ some f) × ¬ (applied ≡ some q) × ¬ (f ≡ q)

  abbrev pub IsOrdered : UpdateSlot T → Type 0
  IsOrdered s = Ordered s.applied s.in_flight s.queued

  pub data SlotOp : Type 0 where
    requests succeeds fails : T → SlotOp
    clears : SlotOp

  -- The slot after an operation, and the update the operation starts.
  unfoldable pub slot_step : UpdateSlot T → SlotOp → UpdateSlot T × Option T
  slot_step s (requests t) = request dec s t
  slot_step s (succeeds t) = complete_success dec s t
  slot_step s (fails t) = complete_failure dec s t
  slot_step s clears = (clear_pending s, none)

  slot_step-Ordered :
      (a f q : Option T) (op : SlotOp)
      → Ordered a f q
      → IsOrdered (slot_step (record { applied = a; in_flight = f; queued = q }) op).0
  unfolding slot_step request complete_success complete_failure clear_pending start_queued
  slot_step-Ordered a f q (requests t) v = ground arith
  slot_step-Ordered a f q (succeeds t) v = ground arith
  slot_step-Ordered a f q (fails t) v = ground arith
  slot_step-Ordered a f q clears v = tt

  unfoldable pub run_slot : UpdateSlot T → List SlotOp → UpdateSlot T
  run_slot s [] = s
  run_slot s (op ∷ ops) = run_slot (slot_step s op).0 ops

  run_slot_from-Ordered :
      (s : UpdateSlot T) (ops : List SlotOp) → IsOrdered s → IsOrdered (run_slot s ops)
  unfolding run_slot
  run_slot_from-Ordered s [] v = v
  run_slot_from-Ordered s (op ∷ ops) v =
      run_slot_from-Ordered (slot_step s op).0 ops
        (slot_step-Ordered s.applied s.in_flight s.queued op v)

  -- However a new slot is used, what is applied, in flight and queued are different values, and
  -- nothing is queued while nothing is in flight.
  pub run_slot-IsOrdered : (ops : List SlotOp) → IsOrdered (run_slot new_slot ops)
  unfolding new_slot
  run_slot-IsOrdered ops = run_slot_from-Ordered new_slot ops tt

  -- The value the terminal ends with when every update succeeds.
  unfoldable pub newest : UpdateSlot T → Option T
  newest s = or_else s.queued (or_else s.in_flight s.applied)

  abbrev succeed_with : Option T → UpdateSlot T → UpdateSlot T
  succeed_with none s = s
  succeed_with (some t) s = (complete_success dec s t).0

  -- The update in flight, when there is one, succeeds.
  unfoldable pub succeed : UpdateSlot T → UpdateSlot T
  succeed s = succeed_with s.in_flight s

  -- A request waits for a value that is no longer the newest: it asks for the applied value while
  -- another is in flight, or for the value in flight while another is queued.
  abbrev pub IsSuperseded : UpdateSlot T → T → Type 0
  IsSuperseded s t =
      (s.applied ≡ some t × is_some s.in_flight ≡ true)
      ⊎ (s.in_flight ≡ some t × is_some s.queued ≡ true)

  -- When the update in flight of an ordered slot succeeds or fails, the queued value is in flight
  -- and started, nothing is queued, and a success alone changes what is applied.
  pub complete_lem :
      (s : UpdateSlot T) (t : T)
      → IsOrdered s
      → s.in_flight ≡ some t
      → complete_success dec s t
          ≡ (record { applied = some t; in_flight = s.queued; queued = none }, s.queued)
        × complete_failure dec s t
          ≡ (record { applied = s.applied; in_flight = s.queued; queued = none }, s.queued)
  unfolding complete_success complete_failure start_queued
  complete_lem s t v e = ground arith

  -- Two successes of an ordered slot leave nothing pending, with the newest value applied.
  succeed_lem :
      (s : UpdateSlot T)
      → IsOrdered s
      → succeed (succeed s) ≡ record { applied = newest s; in_flight = none; queued = none }
  unfolding succeed newest complete_success start_queued
  succeed_lem s v = ground arith

  -- After a request of an ordered slot the requested value is the newest, unless the request is
  -- superseded: then it is dropped, though it is the last one.
  pub request-newest :
      (s : UpdateSlot T) (t : T)
      → IsOrdered s
      → newest (request dec s t).0 ≡ some t ↔ ¬ IsSuperseded s t
  unfolding request newest
  request-newest s t v = ground arith
