-- ===== src/Smear/Timers/Laws.antt =====
-- What the timers of smear-cursor/src/core/state/policy.rs promise to the reducer.
use dotfiles_nix.Base.{
  ite, if◌then◌else◌, ◌≤◌, ◌<◌, ◌≡◌, refl, ◌≢◌, inl, inr, List, [], ◌∷◌, true, false, none, some,
  arith, All, Option-cases, ◌↔◌,
}
use mathlib.Core.List.{Memᴰ}
use dotfiles_nix.Base.Words.{u64_max}
use dotfiles_nix.Smear.Types.{
  TimerId, animation, ingress, recovery, cleanup, TimerToken, all_timers, TimerId-discrete,
}
use dotfiles_nix.Smear.Timers.{
  TimerSlotState, TimerState, slot, with_slot, active_token, arm, is_active, clear_active,
  clear_matching, active_tokens, active_tokens_of,
}

pub slot-with_slot_self :
    (s : TimerState) (id : TimerId) (v : TimerSlotState) → slot (with_slot s id v) id ≡ v
unfolding slot with_slot
slot-with_slot_self s animation v = refl
slot-with_slot_self s ingress v = refl
slot-with_slot_self s recovery v = refl
slot-with_slot_self s cleanup v = refl

pub slot-with_slot_ne :
    (s : TimerState) (id j : TimerId) (v : TimerSlotState)
    → id ≢ j
    → slot (with_slot s id v) j ≡ slot s j
unfolding slot with_slot
slot-with_slot_ne s id j v h = ground arith

-- Arming returns a token that is active at once and is the timer's only one; every other timer
-- keeps the token it has.
pub arm_fresh :
    (s : TimerState) (id j : TimerId)
    → let (t, token) = arm s id in
      (is_active t token ≡ true)
      × (active_token t j ≡ ite (TimerId-discrete id j) (some token) (active_token s j))
unfolding arm is_active active_token
arm_fresh s id j = (ground arith, ground arith)

pub data Op : Type 0 where
  arms : TimerId → Op
  clears : TimerId → Op
  clears_matching : TimerToken → Op

pub step : TimerState → Op → TimerState
step s (arms id) = (arm s id).0
step s (clears id) = clear_active s id
step s (clears_matching token) = clear_matching s token

pub run : TimerState → List Op → TimerState
unfolding step
run s [] = s
run s (o ∷ os) = run (step s o) os

-- No operation takes a generation back.
pub step_mono :
    (s : TimerState) (o : Op) (j : TimerId)
    → (slot s j).generation ≤ u64_max
    → (slot s j).generation ≤ (slot (step s o) j).generation
unfolding step arm clear_active clear_matching
step_mono s (arms id) j h = ground arith
step_mono s (clears id) j h = ground arith
step_mono s (clears_matching token) j h = ground arith

-- Every generation is a `u64`.
abbrev pub InRange : TimerState → Type 0
InRange s = (j : TimerId) → (slot s j).generation ≤ u64_max

pub step-InRange : (s : TimerState) (o : Op) → InRange s → InRange (step s o)
unfolding step arm clear_active clear_matching
step-InRange s (arms id) h j = ground (arith, h j)
step-InRange s (clears id) h j = ground (arith, h j)
step-InRange s (clears_matching token) h j = ground (arith, h j)

pub run-InRange : (s : TimerState) (os : List Op) → InRange s → InRange (run s os)
unfolding run
run-InRange s [] h = h
run-InRange s (o ∷ os) h = run-InRange (step s o) os (step-InRange s o h)

run_mono :
    (s : TimerState) (os : List Op) (j : TimerId)
    → InRange s
    → (slot s j).generation ≤ (slot (run s os) j).generation
unfolding run
run_mono s [] j h = omega arith
run_mono s (o ∷ os) j h =
    omega (arith, step_mono s o j (h j), run_mono (step s o) os j (step-InRange s o h))

inactive_of_lt :
    (s : TimerState) (token : TimerToken)
    → token.generation < (slot s token.id).generation
    → is_active s token ≡ false
unfolding is_active
inactive_of_lt s token h = ground arith

arm-generation :
    (s : TimerState) (id : TimerId)
    → (slot s id).generation < u64_max
    → (slot s id).generation < (slot (arm s id).0 id).generation
unfolding arm
arm-generation s id h = ground arith

-- From a state whose generations are `u64`, once a timer is armed again while its generation can
-- still grow, no token of that generation or an earlier one is ever active, whatever is armed and
-- cleared later.
pub stale_token-run :
    (s : TimerState) (os : List Op) (token : TimerToken)
    → InRange s
    → (slot s token.id).generation < u64_max
    → token.generation ≤ (slot s token.id).generation
    → is_active (run (arm s token.id).0 os) token ≡ false
stale_token-run s os token r h old = inactive_of_lt (run (arm s token.id).0 os) token (
    omega (
      arith,
      arm-generation s token.id h,
      run_mono (arm s token.id).0 os token.id (unfold step in step-InRange s (arms token.id) r),
    ))

-- A token that is active disarms its own timer; one that is not, and any other timer's, changes
-- nothing.
pub clear_matching_lem :
    (s : TimerState) (token : TimerToken) (j : TimerId)
    → active_token (clear_matching s token) j
      ≡ ite
          (TimerId-discrete token.id j)
          (if is_active s token then none else active_token s j)
          (active_token s j)
unfolding clear_matching is_active active_token
clear_matching_lem s token j = ground arith

-- A token is handed out for a timer exactly when it is that timer's and is active.
active_token_iff :
    (s : TimerState) (id : TimerId) (t : TimerToken)
    → (active_token s id ≡ some t) ↔ ((t.id ≡ id) × (is_active s t ≡ true))
unfolding active_token is_active
active_token_iff s id t = (λ h. ground arith, λ h. ground arith)

active_tokens_of-All :
    (s : TimerState) (ids : List TimerId) → All (λ t. is_active s t ≡ true) (active_tokens_of s ids)
unfolding active_tokens_of
active_tokens_of-All s [] = tt
active_tokens_of-All s (id ∷ ids) = elim (Option-cases (active_token s id)) [
  | inl e ↦ rw (e, All) (active_tokens_of-All s ids)
  | inr (t, e) ↦ rw (e, All) (((active_token_iff s id t).0 e).1, active_tokens_of-All s ids)
]

mem-active_tokens_of :
    (s : TimerState) (ids : List TimerId) (t : TimerToken)
    → is_active s t ≡ true
    → Memᴰ t.id ids
    → Memᴰ t (active_tokens_of s ids)
unfolding active_tokens_of
mem-active_tokens_of s [] t h m = elim m [ ]
mem-active_tokens_of s (id ∷ ids) t h (Memᴰ.head e) =
    rw ((active_token_iff s id t).1 (e, h), active_tokens_of) (Memᴰ.head refl)
mem-active_tokens_of s (id ∷ ids) t h (Memᴰ.tail m) =
    let rest = mem-active_tokens_of s ids t h m in
    elim (Option-cases (active_token s id)) [
      | inl e ↦ rw (e, active_tokens_of) rest
      | inr (_, e) ↦ rw (e, active_tokens_of) (Memᴰ.tail rest)
    ]

mem-all_timers : (id : TimerId) → Memᴰ id all_timers
mem-all_timers animation = Memᴰ.head refl
mem-all_timers ingress = Memᴰ.tail (Memᴰ.head refl)
mem-all_timers recovery = Memᴰ.tail (Memᴰ.tail (Memᴰ.head refl))
mem-all_timers cleanup = Memᴰ.tail (Memᴰ.tail (Memᴰ.tail (Memᴰ.head refl)))

mem_of_All :
    (s : TimerState) (ts : List TimerToken) (t : TimerToken)
    → All (λ u. is_active s u ≡ true) ts
    → Memᴰ t ts
    → is_active s t ≡ true
mem_of_All s [] t h m = elim m [ ]
mem_of_All s (u ∷ ts) t h (Memᴰ.head e) = rw e h.0
mem_of_All s (u ∷ ts) t h (Memᴰ.tail m) = mem_of_All s ts t h.1 m

-- `active_tokens` lists the tokens that are active, all of them and nothing else.
active_tokens_lem :
    (s : TimerState) (t : TimerToken) → (is_active s t ≡ true) ↔ Memᴰ t (active_tokens s)
unfolding active_tokens
active_tokens_lem s t = (
  λ h. mem-active_tokens_of s all_timers t h (mem-all_timers t.id),
  mem_of_All s (active_tokens_of s all_timers) t (active_tokens_of-All s all_timers),
)
