-- ===== src/Smear/Types.antt =====
-- Counters, timers' identities and lifecycles: smear-cursor/src/core/types.rs. The newtypes over
-- `u64` are native numbers; the counters saturate, so `next` writes that out.
use dotfiles_nix.Base.{ℕ, List, [], ◌∷◌, Bool, ◌==◌}
use dotfiles_nix.Base.Words.{saturating_add}

pub data Lifecycle : Type 0 where
  idle primed observing ready planning applying recovering : Lifecycle

abbrev discriminant : Lifecycle → ℕ
discriminant idle = 0
discriminant primed = 1
discriminant observing = 2
discriminant ready = 3
discriminant planning = 4
discriminant applying = 5
discriminant recovering = 6

-- The derived `==` of lifecycles.
abbrev pub lifecycle_eq : Lifecycle → Lifecycle → Bool
lifecycle_eq a b = discriminant a == discriminant b

-- `next` of `Generation`, `IngressSeq`, `TimerGeneration` and `ProposalId`.
unfoldable pub next : ℕ → ℕ
next n = saturating_add n 1

pub data TimerId : Type 0 where
  animation ingress recovery cleanup : TimerId

pub TimerId-discrete : Discrete TimerId
TimerId-discrete = hlevel

abbrev pub all_timers : List TimerId
all_timers = animation ∷ ingress ∷ recovery ∷ cleanup ∷ []

-- The array of four slots, one field for each index.
pub record TimerSlots {ℓ} (T : Type ℓ) : Type ℓ where
  pub animation : T
  pub ingress : T
  pub recovery : T
  pub cleanup : T

module _ {ℓ} {T : Type ℓ} where
  unfoldable pub filled : T → TimerSlots T
  filled v = record { animation = v; ingress = v; recovery = v; cleanup = v }

  unfoldable pub slot_get : TimerSlots T → TimerId → T
  slot_get s animation = s.animation
  slot_get s ingress = s.ingress
  slot_get s recovery = s.recovery
  slot_get s cleanup = s.cleanup

  -- A write through `get_mut`.
  unfoldable pub slot_set : TimerSlots T → TimerId → T → TimerSlots T
  slot_set s animation v = record s { animation = v }
  slot_set s ingress v = record s { ingress = v }
  slot_set s recovery v = record s { recovery = v }
  slot_set s cleanup v = record s { cleanup = v }

pub record TimerToken : Type 0 where
  pub id : TimerId
  pub generation : ℕ
