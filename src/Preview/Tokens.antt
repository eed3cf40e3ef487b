-- ===== src/Preview/Tokens.antt =====
-- The loop of `next_token` in snacks-preview/src/reducer.rs ends with a token that is not in use.
use dotfiles_nix.Base.{
  ℕ, zero, suc, ◌+◌, ◌-◌, ◌≤◌, ◌<◌, ◌≡◌, ◌∙◌, inl, inr, ◌≢◌, true, Option, none, some, is_some,
  if◌then◌else◌, arith, length, Bool-cases, ℕ_discrete, leb,
}
use dotfiles_nix.Base.Words.{i64_max}
use dotfiles_nix.Base.Maps.{Map, get, remove, length-remove-lt, get-remove}
use dotfiles_nix.Registry.{key_by_index_two}
use dotfiles_nix.Preview.{PreviewRegistry, Previews, previews_iface, bump, token_loop, take_token}

-- The counter after `k` bumps.
abbrev bumps : ℕ → ℕ → ℕ
bumps zero n = n
bumps (suc k) n = bumps k (bump n)

bumps_lem :
    (k n : ℕ)
    → 1 ≤ n
    → n ≤ i64_max
    → k < i64_max
    → bumps k n ≡ (if leb (n + k) i64_max then n + k else n + k - i64_max)
bumps_lem zero n l u h = ground arith
bumps_lem (suc k) n l u h =
    bumps_lem k (bump n) (ground arith) (ground arith) (omega arith) ∙ ground arith

-- The keys that the loop finds in use from `n` on.
module _ {A : Type 0} where
  -- Every one of the next `k` counters is a key.
  abbrev Used : Map ℕ A → ℕ → ℕ → Type 0
  Used m zero n = Unit
  Used m (suc k) n = (is_some (get ℕ_discrete (bump n) m) ≡ true) × Used m k (bump n)

  Used-remove :
      (m : Map ℕ A) (c k n : ℕ)
      → ((j : ℕ) → j < k → bumps (suc j) n ≢ c)
      → Used m k n
      → Used (remove ℕ_discrete c m) k n
  Used-remove m c zero n away u = tt
  Used-remove m c (suc k) n away u = (
    ground (arith, away 0 (omega arith), get-remove ℕ_discrete c (bump n) m),
    Used-remove m c k (bump n) (λ j l. away (suc j) (omega arith)) u.1,
  )

  Used-length :
      (k : ℕ) (m : Map ℕ A) (n : ℕ) → n ≤ i64_max → k ≤ i64_max → Used m k n → k ≤ length m
  Used-length zero m n b h u = omega arith
  Used-length (suc k) m n b h u =
      let y = bump n in
      let rest =
        Used-remove m y k y
          (λ j l e. ground (arith, bumps_lem (suc j) y (ground arith) (ground arith) (omega arith)))
          u.1 in
      let shorter = length-remove-lt ℕ_discrete y m u.0 in
      omega
        (arith, shorter, Used-length k (remove ℕ_discrete y m) y (ground arith) (omega arith) rest)

module _ {S C : Type 0} where
  -- The loop answers with a counter that is not in use, or finds all the counters in use.
  abbrev Answer : Previews S C → ℕ → ℕ → Option ℕ → Type 0
  Answer r fuel n none = Used r.by_index_two fuel n
  Answer r fuel n (some token) =
      key_by_index_two (previews_iface S C) r token ≡ none × 1 ≤ token × token ≤ i64_max

  Answer-later :
      (r : Previews S C) (fuel n : ℕ) (o : Option ℕ)
      → is_some (key_by_index_two (previews_iface S C) r (bump n)) ≡ true
      → Answer r fuel (bump n) o
      → Answer r (suc fuel) n o
  Answer-later r fuel n none e a = (e, a)
  Answer-later r fuel n (some token) e a = a

  token_loop-Answer :
      (fuel : ℕ) (r : Previews S C) (n : ℕ) → n ≤ i64_max → Answer r fuel n (token_loop fuel r n)
  unfolding token_loop
  token_loop-Answer zero r n b = tt
  token_loop-Answer (suc fuel) r n b =
      let rest = token_loop-Answer fuel r (bump n) (ground arith) in
      elim (Bool-cases (is_some (key_by_index_two (previews_iface S C) r (bump n)))) [
        | inl e ↦ rw (e, token_loop) (Answer-later r fuel n _ e rest)
        | inr e ↦ rw (e, token_loop) (ground arith, ground arith, ground arith)
      ]

  abbrev pub IsFresh : PreviewRegistry S C → Option ℕ → Type 0
  IsFresh s none = ⊥
  IsFresh s (some token) =
      key_by_index_two (previews_iface S C) s.previews token ≡ none × 1 ≤ token × token ≤ i64_max

  IsFresh-of_Answer :
      (s : PreviewRegistry S C) (o : Option ℕ)
      → s.next_token ≤ i64_max
      → length s.previews.by_index_two < i64_max
      → Answer s.previews (suc (length s.previews.by_index_two)) s.next_token o
      → IsFresh s o
  IsFresh-of_Answer s none b h a =
      let n = length s.previews.by_index_two in
      absurd (
        omega
          (arith, h, Used-length (suc n) s.previews.by_index_two s.next_token b (omega arith) a))
  IsFresh-of_Answer s (some token) b h a = a

  -- With fewer previews than positive `i64`, and a counter that is an `i64`, the loop for the next
  -- token ends within one attempt more than there are tokens, and the token is a positive `i64` that
  -- no preview has.
  pub take_token-IsFresh :
      (s : PreviewRegistry S C)
      → s.next_token ≤ i64_max
      → length s.previews.by_index_two < i64_max
      → IsFresh s (take_token s)
  unfolding take_token
  take_token-IsFresh s b h =
      let fuel = suc (length s.previews.by_index_two) in
      IsFresh-of_Answer s _ b h (token_loop-Answer fuel s.previews s.next_token b)
