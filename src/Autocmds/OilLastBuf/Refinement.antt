-- ===== src/Autocmds/OilLastBuf/Refinement.antt =====
-- The reducer of autocmds/src/machines/oil_last_buf/reducer.rs against a partial function.
use dotfiles_nix.Base.{
  ℕ, ◌≡◌, refl, ◌∙◌, inl, inr, Bool, not, List, [], ◌∷◌, Option, none, some, arith, ◌==◌,
  if◌then◌else◌, Distinct, ℕ_discrete, length, Bool-cases,
}
use dotfiles_nix.Base.Maps.{
  Map, keys, get, retain, get-insert, get-remove, get-retain, remove-Distinct, insert-Distinct,
  retain-Distinct, length-retain-le, remove_of_none,
}
use dotfiles_nix.Autocmds.OilLastBuf.{
  OilLastBufState, OilLastBufEvent, oil_buf_entered, win_closed, buf_wiped, invalidate_if_mapped,
  mapped_buf_for_win, is_mapped_to, reduce,
}

-- Each window has one entry.
abbrev pub IsValid : OilLastBufState → Type 0
IsValid s = Distinct (keys s.by_win)

-- The event on a partial function from windows to buffers.
abbrev pub apply_model : (ℕ → Option ℕ) → OilLastBufEvent → ℕ → Option ℕ
apply_model m (oil_buf_entered win buf) w = if win == w then some buf else m w
apply_model m (win_closed win) w = if win == w then none else m w
apply_model m (buf_wiped buf) w = if is_mapped_to (m w) buf then none else m w
apply_model m (invalidate_if_mapped win expected) w =
    if win == w then (if is_mapped_to (m w) expected then none else m w) else m w

reduce-IsValid : (s : OilLastBufState) (e : OilLastBufEvent) → IsValid s → IsValid (reduce s e).0
unfolding reduce
reduce-IsValid s (oil_buf_entered win buf) v =
    elim (Bool-cases (is_mapped_to (get ℕ_discrete win s.by_win) buf)) [
      | inl e ↦ rw e v
      | inr e ↦ rw e (insert-Distinct ℕ_discrete win buf s.by_win v)
    ]
reduce-IsValid s (win_closed win) v = remove-Distinct ℕ_discrete win s.by_win v
reduce-IsValid s (buf_wiped buf) v = retain-Distinct ℕ_discrete (λ _ m. not (m == buf)) s.by_win v
reduce-IsValid s (invalidate_if_mapped win expected) v =
    elim (Bool-cases (is_mapped_to (get ℕ_discrete win s.by_win) expected)) [
      | inl e ↦ rw e (remove-Distinct ℕ_discrete win s.by_win v)
      | inr e ↦ rw e v
    ]

-- What every window maps to after an event is what the event makes of the partial function.
pub reduce-apply_model :
    (s : OilLastBufState) (e : OilLastBufEvent) (w : ℕ)
    → IsValid s
    → mapped_buf_for_win (reduce s e).0 w ≡ apply_model (mapped_buf_for_win s) e w
unfolding reduce mapped_buf_for_win
reduce-apply_model s (oil_buf_entered win buf) w v =
    ground (arith, get-insert ℕ_discrete win w buf s.by_win)
reduce-apply_model s (win_closed win) w v = ground (arith, get-remove ℕ_discrete win w s.by_win)
reduce-apply_model s (buf_wiped buf) w v =
    ground (arith, get-retain ℕ_discrete (λ _ m. not (m == buf)) w s.by_win v)
reduce-apply_model s (invalidate_if_mapped win expected) w v =
    ground (arith, get-remove ℕ_discrete win w s.by_win)

retain_all :
    (keep : ℕ → ℕ → Bool) (m : Map ℕ ℕ) → length (retain keep m) ≡ length m → retain keep m ≡ m
unfolding retain
retain_all keep [] e = refl
retain_all keep ((k, x) ∷ m) e = ground (arith, retain_all keep m, length-retain-le keep m)

-- An event that reports no effect has changed no entry.
pub reduce_silent :
    (s : OilLastBufState) (e : OilLastBufEvent) → (reduce s e).1.effects ≡ [] → (reduce s e).0 ≡ s
unfolding reduce
reduce_silent s (oil_buf_entered win buf) h = ground arith
reduce_silent s (win_closed win) h = ground (arith, remove_of_none ℕ_discrete win s.by_win)
reduce_silent s (buf_wiped buf) h = ground (arith, retain_all (λ _ m. not (m == buf)) s.by_win)
reduce_silent s (invalidate_if_mapped win expected) h = ground arith

pub run : OilLastBufState → List OilLastBufEvent → OilLastBufState
run s [] = s
run s (e ∷ es) = run (reduce s e).0 es

pub run_model : (ℕ → Option ℕ) → List OilLastBufEvent → ℕ → Option ℕ
run_model m [] w = m w
run_model m (e ∷ es) w = run_model (apply_model m e) es w

apply_model-congr :
    (m n : ℕ → Option ℕ) (e : OilLastBufEvent) (w : ℕ)
    → m w ≡ n w
    → apply_model m e w ≡ apply_model n e w
apply_model-congr m n (oil_buf_entered win buf) w h = ground arith
apply_model-congr m n (win_closed win) w h = ground arith
apply_model-congr m n (buf_wiped buf) w h = ground arith
apply_model-congr m n (invalidate_if_mapped win expected) w h = ground arith

run-from :
    (s : OilLastBufState) (m : ℕ → Option ℕ) (es : List OilLastBufEvent) (w : ℕ)
    → IsValid s
    → ((v : ℕ) → mapped_buf_for_win s v ≡ m v)
    → mapped_buf_for_win (run s es) w ≡ run_model m es w
unfolding run run_model
run-from s m [] w v h = h w
run-from s m (e ∷ es) w v h =
    run-from (reduce s e).0 (apply_model m e) es w (reduce-IsValid s e v)
      (λ u. reduce-apply_model s e u v ∙ apply_model-congr (mapped_buf_for_win s) m e u (h u))

abbrev pub empty : OilLastBufState
empty = record { by_win = [] }

-- After any events from the empty state, every window maps to what the partial function gives for
-- the same events.
pub run-run_model :
    (es : List OilLastBufEvent) (w : ℕ)
    → mapped_buf_for_win (run empty es) w ≡ run_model (λ _. none) es w
run-run_model es w = run-from empty (λ _. none) es w tt (unfold mapped_buf_for_win get in λ v. refl)
