-- ===== src/Smear/Probe/Laws.antt =====
-- Bounded retries and distinct identities of smear-cursor/src/core/state/observation/probe.rs.
use dotfiles_nix.Base.{ℕ, ◌+◌, ◌^◌, ◌≤◌, ◌<◌, ◌≡◌, refl, ◌⊎◌, List, [], ◌∷◌, true, false, arith}
use dotfiles_nix.Smear.Probe.{
  ProbeKind, cursor_color, background, ProbeRefreshState, default_probe_refresh, retry_count,
  note_refresh_required, request_id,
}

pub run : ProbeRefreshState → List ProbeKind → ProbeRefreshState
run s [] = s
run s (k ∷ ks) = run (note_refresh_required s k).0 ks

-- Neither count passes the limit.
abbrev IsBounded : ProbeRefreshState → Type 0
IsBounded s = (s.cursor_color_retries ≤ 2) × (s.background_retries ≤ 2)

-- A refresh either raises the count of its own probe by one, or reports exhaustion, changes
-- nothing, and had two retries behind it.
pub note_refresh_required_lem :
    (s : ProbeRefreshState) (k : ProbeKind)
    → IsBounded s
    → ((retry_count (note_refresh_required s k).0 k ≡ retry_count s k + 1)
        × ((note_refresh_required s k).1 ≡ false)
        × (retry_count s k < 2))
      ⊎ ((note_refresh_required s k ≡ (s, true)) × (retry_count s k ≡ 2))
unfolding note_refresh_required
note_refresh_required_lem s cursor_color b = ground arith
note_refresh_required_lem s background b = ground arith

note-IsBounded :
    (s : ProbeRefreshState) (k : ProbeKind) → IsBounded s → IsBounded (note_refresh_required s k).0
unfolding note_refresh_required
note-IsBounded s cursor_color b = ground arith
note-IsBounded s background b = ground arith

-- However many refreshes are asked for, in whatever order, no probe of an observation is retried
-- more than twice.
run-IsBounded : (ks : List ProbeKind) → IsBounded (run default_probe_refresh ks)
unfolding run
run-IsBounded ks = go default_probe_refresh ks (unfold default_probe_refresh in omega arith)
  where
    go : (s : ProbeRefreshState) (ks : List ProbeKind) → IsBounded s → IsBounded (run s ks)
    go s [] b = b
    go s (k ∷ ks) b = go (note_refresh_required s k).0 ks (note-IsBounded s k b)

-- Below 2^62 observations, two requests share an identity only if they are for the same probe of
-- the same observation.
request_id-injective :
    (k j : ProbeKind) (a b : ℕ)
    → a < 2 ^ 62
    → b < 2 ^ 62
    → request_id k a ≡ request_id j b
    → (k ≡ j) × (a ≡ b)
unfolding request_id
request_id-injective cursor_color cursor_color a b ha hb e = (refl, omega arith)
request_id-injective background background a b ha hb e = (refl, omega arith)
request_id-injective cursor_color background a b ha hb e = absurd (omega arith)
request_id-injective background cursor_color a b ha hb e = absurd (omega arith)
