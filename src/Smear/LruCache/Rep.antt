-- ===== src/Smear/LruCache/Rep.antt =====
-- What the slots, the index and the free list of smear-cursor/src/events/lru_cache.rs stand for.
use dotfiles_nix.Base.{Absent, ℕ, ◌≡◌, refl, List, [], none, Distinct, All, length, ◌<◌, ◌≤◌, arith}
use dotfiles_nix.Base.Words.{u64_max}
use dotfiles_nix.Base.Maps
use dotfiles_nix.Smear.LruCache.{LruCache, new, clear, node_at}
use dotfiles_nix.Smear.LruCache.Links.{Cell, Slots, indices, first_or, last_or, Linked}
use dotfiles_nix.Smear.LruCache.Cells.{cell_keys, pairs}

-- A slot that a new node can take.
abbrev pub IsFree : {K V : Type 0} → Slots K V → ℕ → Type 0
IsFree slots i = (node_at slots i ≡ none) × (i < length slots)

-- The cache holds these cells, the one used last first.
pub record Rep {K V : Type 0} (dec : Discrete K) (c : LruCache K V) (xs : List (Cell K V))
    : Type 0 where
  pub linked : Linked c.nodes none xs none
  pub head : c.head ≡ first_or xs none
  pub tail : c.tail ≡ last_or none xs
  pub places : Distinct (indices xs)
  pub keys : Distinct (cell_keys xs)
  pub entries : (k : K) → Maps.get dec k c.indices_by_key ≡ Maps.get dec k (pairs (λ x. x.index) xs)
  pub count : c.len ≡ length xs
  pub free : All (IsFree c.nodes) c.free_indices
  pub free_once : Distinct c.free_indices
  pub used : (j : ℕ) → Absent j (indices xs) → node_at c.nodes j ≡ none
  pub room : length xs ≤ c.capacity
  pub positive : 1 ≤ c.capacity
  pub word : c.capacity ≤ u64_max

module _ {K V : Type 0} (dec : Discrete K) where
  pub new-Rep :
      (capacity : ℕ) → 1 ≤ capacity → capacity ≤ u64_max → Rep {V = V} dec (new capacity) []
  unfolding new
  new-Rep capacity p w = record {
    linked = tt;
    head = refl;
    tail = refl;
    places = tt;
    keys = tt;
    entries = λ k. refl;
    count = refl;
    free = tt;
    free_once = tt;
    used = λ j h. refl;
    room = omega arith;
    positive = p;
    word = w;
  }

  pub clear-Rep : (c : LruCache K V) (xs : List (Cell K V)) → Rep dec c xs → Rep dec (clear c) []
  unfolding clear
  clear-Rep c xs h = record {
    linked = tt;
    head = refl;
    tail = refl;
    places = tt;
    keys = tt;
    entries = λ k. refl;
    count = refl;
    free = tt;
    free_once = tt;
    used = λ j h. refl;
    room = omega arith;
    positive = h.positive;
    word = h.word;
  }
