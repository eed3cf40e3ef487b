-- ===== src/Smear/Timers.antt =====
-- Timers of the reducer: `TimerSlotState` and `TimerState` of smear-cursor/src/core/state/policy.rs.
pub mod Laws
use dotfiles_nix.Base.{
  ℕ, List, [], ◌∷◌, Bool, true, false, ◌&&◌, Option, none, some, ◌==◌, if◌then◌else◌,
}
use dotfiles_nix.Smear.Types.{
  next, TimerId, animation, ingress, recovery, cleanup, TimerSlots, filled, slot_get, slot_set,
  TimerToken, all_timers,
}

pub record TimerSlotState : Type 0 where
  pub generation : ℕ
  pub armed : Bool

abbrev pub initial_slot : TimerSlotState
initial_slot = record { generation = 0; armed = false }

unfoldable pub arm_slot : TimerSlotState → TimerId → TimerSlotState × TimerToken
arm_slot s id = (
  record { generation = next s.generation; armed = true },
  record { id = id; generation = next s.generation },
)

unfoldable pub active_token_slot : TimerSlotState → TimerId → Option TimerToken
active_token_slot s id =
    if s.armed then some (record { id = id; generation = s.generation }) else none

unfoldable pub is_active_slot : TimerSlotState → TimerToken → Bool
is_active_slot s token = s.armed && s.generation == token.generation

unfoldable pub clear_active_slot : TimerSlotState → TimerSlotState
clear_active_slot s = record s { armed = false }

pub record TimerState : Type 0 where
  pub slots : TimerSlots TimerSlotState

unfoldable pub default_timers : TimerState
unfolding filled
default_timers = record { slots = filled initial_slot }

unfoldable pub slot : TimerState → TimerId → TimerSlotState
unfolding slot_get
slot s id = slot_get s.slots id

unfoldable pub with_slot : TimerState → TimerId → TimerSlotState → TimerState
unfolding slot_set
with_slot s id v = record s { slots = slot_set s.slots id v }

unfoldable pub active_token : TimerState → TimerId → Option TimerToken
unfolding slot active_token_slot
active_token s id = active_token_slot (slot s id) id

-- `filter_map` over the array of timers.
unfoldable pub active_tokens_of : TimerState → List TimerId → List TimerToken
active_tokens_of s [] = []
active_tokens_of s (id ∷ ids) =
    let rest = active_tokens_of s ids in
    elim (active_token s id) [ none ↦ rest | some token ↦ token ∷ rest ]

unfoldable pub active_tokens : TimerState → List TimerToken
unfolding active_tokens_of
active_tokens s = active_tokens_of s all_timers

unfoldable pub arm : TimerState → TimerId → TimerState × TimerToken
unfolding slot with_slot arm_slot next
arm s id = let (v, token) = arm_slot (slot s id) id in (with_slot s id v, token)

unfoldable pub is_active : TimerState → TimerToken → Bool
unfolding slot is_active_slot
is_active s token = is_active_slot (slot s token.id) token

unfoldable pub clear_active : TimerState → TimerId → TimerState
unfolding slot with_slot clear_active_slot
clear_active s id = with_slot s id (clear_active_slot (slot s id))

unfoldable pub clear_matching : TimerState → TimerToken → TimerState
unfolding slot is_active_slot clear_active
clear_matching s token =
    if is_active_slot (slot s token.id) token then clear_active s token.id else s
