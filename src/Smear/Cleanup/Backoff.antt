-- ===== src/Smear/Cleanup/Backoff.antt =====
-- The exponential backoff of smear-cursor/src/core/state/render_cleanup.rs.
use dotfiles_nix.Base.{ℕ, suc, ◌-◌, ◌*◌, ◌^◌, ◌≤◌, ◌<◌, ◌≡◌, arith, min}
use dotfiles_nix.Base.Words.{u64_max}
use dotfiles_nix.Smear.Cleanup.{RenderCleanupRetryPolicy, new_retry_policy, delay_ms}
use native.Mathlib.Nat.{pow-le-pow_right, one-le-pow, pow-suc, mul-le-mul_left}

-- The constructor's two clamps.
new_retry_policy-clamps :
    (initial cap : ℕ)
    → let p = new_retry_policy initial cap in
      (1 ≤ p.initial_delay_ms) × (p.initial_delay_ms ≤ p.max_delay_ms)
unfolding new_retry_policy
new_retry_policy-clamps initial cap = ground arith

-- The delay of a policy that the constructor made is at least one millisecond, and at most the
-- policy's greatest delay.
delay_ms_bounds :
    (initial cap attempt : ℕ)
    → let p = new_retry_policy initial cap in
      (1 ≤ delay_ms p attempt) × (delay_ms p attempt ≤ p.max_delay_ms)
unfolding delay_ms
delay_ms_bounds initial cap attempt =
    let p = new_retry_policy initial cap in
    let w = new_retry_policy-clamps initial cap in
    let k = min (attempt - 1) 63 in
    let two_pow : 1 ≤ 2 ^ k = one-le-pow k 2 (omega arith) in grind (arith, w, two_pow)

-- A later attempt never waits less.
pub delay_ms_mono : (p : RenderCleanupRetryPolicy) (m n : ℕ) → m ≤ n → delay_ms p m ≤ delay_ms p n
unfolding delay_ms
delay_ms_mono p m n h =
    let grows : 2 ^ min (m - 1) 63 ≤ 2 ^ min (n - 1) 63 =
      pow-le-pow_right (omega arith) {i = min (m - 1) 63} {j = min (n - 1) 63} (omega arith) in
    let scaled : p.initial_delay_ms * 2 ^ min (m - 1) 63 ≤ p.initial_delay_ms * 2 ^ min (n - 1) 63 =
      mul-le-mul_left p.initial_delay_ms grows in
    omega arith

-- For a policy whose greatest delay fits in `u64`, each of the first 63 attempts after the first
-- doubles the delay, up to the greatest.
delay_ms_doubles :
    (p : RenderCleanupRetryPolicy) (n : ℕ)
    → p.max_delay_ms ≤ u64_max
    → n < 63
    → delay_ms p (suc (suc n)) ≡ min (2 * delay_ms p (suc n)) p.max_delay_ms
unfolding delay_ms
delay_ms_doubles p n r h =
    let now : min (suc n - 1) 63 ≡ n = omega arith in
    let later : min (suc (suc n) - 1) 63 ≡ suc n = omega arith in
    rw (now, later, pow-suc) (omega arith)
