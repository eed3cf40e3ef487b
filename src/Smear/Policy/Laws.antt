-- ===== src/Smear/Policy/Laws.antt =====
-- The delays of smear-cursor/src/core/state/policy.rs over sequences of events.
use dotfiles_nix.Base.{ℕ, ◌≡◌, refl, List, [], ◌∷◌, some, arith, max}
use dotfiles_nix.Smear.Policy.{IngressPolicyState, note_pending_delay_until, clear_pending_delay}

-- The greatest of a first time and those of a list.
abbrev pub latest : ℕ → List ℕ → ℕ
latest at [] = at
latest at (t ∷ ts) = latest (max at t) ts

pub note_all : IngressPolicyState → List ℕ → IngressPolicyState
note_all s [] = s
note_all s (t ∷ ts) = note_all (note_pending_delay_until s t) ts

note_all-some :
    (s : IngressPolicyState) (at : ℕ) (ts : List ℕ)
    → s.pending_delay_until ≡ some at
    → (note_all s ts).pending_delay_until ≡ some (latest at ts)
unfolding note_all
note_all-some s at [] h = h
note_all-some s at (t ∷ ts) h =
    note_all-some (note_pending_delay_until s t) (max at t) ts
      (unfold note_pending_delay_until in ground arith)

-- Whatever the order in which deadlines are noted after a clear, the pending delay runs until the
-- greatest of them, and the time of the last cursor event is not touched.
pub note_all-clear :
    (s : IngressPolicyState) (t : ℕ) (ts : List ℕ)
    → ((note_all (clear_pending_delay s) (t ∷ ts)).pending_delay_until ≡ some (latest t ts))
      × ((note_all (clear_pending_delay s) (t ∷ ts)).last_cursor_autocmd_at
          ≡ s.last_cursor_autocmd_at)
unfolding note_all
note_all-clear s t ts = (
  note_all-some (note_pending_delay_until (clear_pending_delay s) t) t ts
      (unfold note_pending_delay_until clear_pending_delay in refl),
  keeps (note_pending_delay_until (clear_pending_delay s) t) ts
      (unfold note_pending_delay_until clear_pending_delay in refl),
)
  where
    keeps :
        (r : IngressPolicyState) (us : List ℕ)
        → r.last_cursor_autocmd_at ≡ s.last_cursor_autocmd_at
        → (note_all r us).last_cursor_autocmd_at ≡ s.last_cursor_autocmd_at
    keeps r [] h = h
    keeps r (u ∷ us) h =
        keeps (note_pending_delay_until r u) us (unfold note_pending_delay_until in h)
