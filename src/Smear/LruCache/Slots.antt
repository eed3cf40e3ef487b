-- ===== src/Smear/LruCache/Slots.antt =====
-- Writing a node in a free slot or in a new one of smear-cursor/src/events/lru_cache.rs.
use dotfiles_nix.Base.{
  ℕ, zero, suc, ◌≡◌, ◌≢◌, refl, sym, ap, ◌∙◌, List, [], ◌∷◌, ◌++◌, Option, none, some, Absent, All,
  arith, length, ◌<◌,
}
use mathlib.Core.Option
use dotfiles_nix.Smear.LruCache.{LruCacheNode, node_at, write_slot}
use dotfiles_nix.Smear.LruCache.Links.{Cell, Slots, indices, Linked}
use dotfiles_nix.Smear.LruCache.Rep.{IsFree}

module _ {K V : Type 0} where
  pub pushed_last :
      (slots : Slots K V) (n : LruCacheNode K V)
      → (node_at (slots ++ some n ∷ []) (length slots) ≡ some n)
        × (node_at slots (length slots) ≡ none)
  pushed_last [] n = (refl, refl)
  pushed_last (s ∷ slots) n = pushed_last slots n

  pub pushed_others :
      (slots : Slots K V) (n : LruCacheNode K V) (j : ℕ)
      → length slots ≢ j
      → node_at (slots ++ some n ∷ []) j ≡ node_at slots j
  pushed_others [] n zero h = absurd (h refl)
  pushed_others [] n (suc j) h = refl
  pushed_others (s ∷ slots) n zero h = refl
  pushed_others (s ∷ slots) n (suc j) h = pushed_others slots n j (λ e. h (ap suc e))

  pub written :
      (slots : Slots K V) (i : ℕ) (n : LruCacheNode K V)
      → i < length slots
      → (out : Slots K V) × (write_slot slots i (some n) ≡ some out)
        × (node_at out i ≡ some n)
        × ((j : ℕ) → i ≢ j → node_at out j ≡ node_at slots j)
        × (length out ≡ length slots)
  written [] i n h = absurd (omega arith)
  written (s ∷ slots) zero n h = (some n ∷ slots, refl, refl, others, refl)
    where
      others : (j : ℕ) → 0 ≢ j → node_at (some n ∷ slots) j ≡ node_at (s ∷ slots) j
      others zero h = absurd (h refl)
      others (suc j) h = refl
  written (s ∷ slots) (suc i) n h =
      let (out, e, here, rest, size) = written slots i n (omega arith) in
      (s ∷ out, ap (Option.map (λ r. s ∷ r)) e, here, others out rest, ap suc size)
    where
      others :
          (out : Slots K V)
          → ((j : ℕ) → i ≢ j → node_at out j ≡ node_at slots j)
          → (j : ℕ) → suc i ≢ j
          → node_at (s ∷ out) j ≡ node_at (s ∷ slots) j
      others out rest zero h = refl
      others out rest (suc j) h = rest j (λ e. h (ap suc e))

  pub still-IsFree :
      (slots out : Slots K V) (i : ℕ) (js : List ℕ)
      → ((j : ℕ) → i ≢ j → node_at out j ≡ node_at slots j)
      → length out ≡ length slots
      → Absent i js
      → All (IsFree slots) js
      → All (IsFree out) js
  still-IsFree slots out i [] others size a f = tt
  still-IsFree slots out i (j ∷ js) others size a f = (
    (others j (λ e. a.0 (sym e)) ∙ f.0.0, rw size f.0.1),
    still-IsFree slots out i js others size a.1 f.1,
  )

  pub fresh-Absent :
      (slots : Slots K V) (i : ℕ) (prev : Option ℕ) (xs : List (Cell K V)) (next : Option ℕ)
      → node_at slots i ≡ none
      → Linked slots prev xs next
      → Absent i (indices xs)
  fresh-Absent slots i prev [] next h a = tt
  fresh-Absent slots i prev (x ∷ xs) next h a = (
    λ e. grind (arith, ap (node_at slots) e, a.0),
    fresh-Absent slots i (some x.index) xs next h a.1,
  )

  pub same_outside :
      (slots out : Slots K V) (i : ℕ) (js : List ℕ)
      → ((j : ℕ) → i ≢ j → node_at out j ≡ node_at slots j)
      → Absent i js
      → All (λ j. node_at out j ≡ node_at slots j) js
  same_outside slots out i [] h a = tt
  same_outside slots out i (j ∷ js) h a =
      (h j (λ e. a.0 (sym e)), same_outside slots out i js h a.1)
