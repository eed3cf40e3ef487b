-- ===== src/Smear/LruCache/Runs.antt =====
-- Sequences of calls of the cache of smear-cursor/src/events/lru_cache.rs, and what they answer.
use dotfiles_nix.Base.{
  Bool, not, ℕ, ◌≡◌, refl, sym, ap, ◌∙◌, List, [], ◌∷◌, ◌++◌, Option, none, some, Absent, arith,
  length, ◌≤◌, ◌-◌, subst, inl, inr, take, take-All, length-take-le, length-map,
}
use dotfiles_nix.Base.Words.{u64_max}
use dotfiles_nix.Base.Maps
use mathlib.Core.Option
use dotfiles_nix.Smear.LruCache.{
  LruCache, new, clear, get, peek, remove, remove_where, insert, evict, update_node,
}
use dotfiles_nix.Smear.LruCache.Links.{Cell, Linked-split}
use dotfiles_nix.Smear.LruCache.Cells.{cell_keys, pairs, remove-Absent, length-middle}
use dotfiles_nix.Smear.LruCache.Rep.{Rep, new-Rep, clear-Rep}
use dotfiles_nix.Smear.LruCache.Moving.{move_to_front-Rep, move_to_front-capacity}
use dotfiles_nix.Smear.LruCache.Allocating.{allocate-Rep}
use dotfiles_nix.Smear.LruCache.Inserting.{take-all, take-cons, take-map, evict-Rep, revalue-Rep}
use dotfiles_nix.Smear.LruCache.Sweeping.{remove_where_cells}
use dotfiles_nix.Smear.LruCache.Reading.{
  Holds, Found, touch, locate, get_cells, peek_cells, remove_cells,
}

-- A call of the cache.
pub data CacheCall (K V : Type 0) : Type 0 where
  get_call : K → CacheCall K V
  peek_call : K → CacheCall K V
  insert_call : K → V → CacheCall K V
  remove_call : K → CacheCall K V
  remove_where_call : (K → V → Bool) → CacheCall K V
  clear_call : CacheCall K V

-- What a call answers: a value, how many entries it removed, or nothing.
pub data CacheAnswer (V : Type 0) : Type 0 where
  value : Option V → CacheAnswer V
  removed : ℕ → CacheAnswer V
  nothing : CacheAnswer V

module _ {K V : Type 0} (dec : Discrete K) where
  -- The call on the cache; `none` where it panics.
  unfoldable pub call : LruCache K V → CacheCall K V → Option (LruCache K V × CacheAnswer V)
  call c (get_call k) = let (d, v) = get dec c k in some (d, value v)
  call c (peek_call k) = some (c, value (peek dec c k))
  call c (insert_call k v) = Option.map (λ d. (d, nothing)) (insert dec c k v)
  call c (remove_call k) = let (d, v) = remove dec c k in some (d, value v)
  call c (remove_where_call p) = let (d, n) = remove_where dec c p in some (d, removed n)
  call c clear_call = some (clear c, nothing)

  -- The answers of the calls, one after the other.
  unfoldable pub run : LruCache K V → List (CacheCall K V) → Option (List (CacheAnswer V))
  unfolding call
  run c [] = some []
  run c (m ∷ calls) = Option.bind (call c m) (λ r. Option.map (λ rest. r.1 ∷ rest) (run r.0 calls))

  -- The call on a list of entries, the one used last first.
  unfoldable pub on_entries : ℕ → Maps.Map K V → CacheCall K V → Maps.Map K V × CacheAnswer V
  on_entries capacity es (get_call k) = (touch dec k es, value (Maps.get dec k es))
  on_entries capacity es (peek_call k) = (es, value (Maps.get dec k es))
  on_entries capacity es (insert_call k v) = (take capacity (Maps.insert dec k v es), nothing)
  on_entries capacity es (remove_call k) = (Maps.remove dec k es, value (Maps.get dec k es))
  on_entries capacity es (remove_where_call p) =
      let kept = Maps.retain (λ k v. not (p k v)) es in (kept, removed (length es - length kept))
  on_entries capacity es clear_call = ([], nothing)

  unfoldable pub answers : ℕ → Maps.Map K V → List (CacheCall K V) → List (CacheAnswer V)
  unfolding on_entries
  answers capacity es [] = []
  answers capacity es (m ∷ calls) =
      (on_entries capacity es m).1 ∷ answers capacity (on_entries capacity es m).0 calls

  insert-Found :
      (c : LruCache K V) (k : K) (v : V) (xs ys : List (Cell K V)) (x : Cell K V)
      (zs : List (Cell K V))
      → Rep dec c xs
      → Found dec c k xs ys x zs
      → (d : LruCache K V) × (insert dec c k v ≡ some d)
        × Holds dec c.capacity d (take c.capacity (Maps.insert dec k v (pairs (λ y. y.value) xs)))
  unfolding insert Maps.insert
  insert-Found c k v xs ys x zs h f =
      let x1 : Cell K V = record x { value = v } in
      let c1 : LruCache K V = record c {
        nodes = update_node (λ n. record n { value = v }) c.nodes x.index;
      } in
      let rep = revalue-Rep dec c ys x zs v (subst (Rep dec c) f.split h) in
      let fits : length ((k, v) ∷ pairs (λ y. y.value) (ys ++ zs)) ≤ c.capacity = omega (
        arith,
        rep.room,
        length-middle ys x1 zs,
        length-map {B = K × V} (λ y. (y.key, y.value)) (ys ++ zs),
      ) in
      let front = move_to_front-Rep dec c1 ys x1 zs rep in
      (
        _,
        rw (f.index, insert) refl,
        (
          x1 ∷ ys ++ zs,
          front,
          rw (f.others, f.key)
              (sym (take-all c.capacity ((k, v) ∷ pairs (λ y. y.value) (ys ++ zs)) fits)),
          move_to_front-capacity c1 x.index _
              (Linked-split c1.nodes none ys (x1 ∷ zs) none rep.linked).1.0,
        ),
      )

  insert_fresh :
      (c : LruCache K V) (k : K) (v : V) (xs : List (Cell K V))
      → Rep dec c xs
      → Maps.get dec k c.indices_by_key ≡ none
      → Absent k (cell_keys xs)
      → (d : LruCache K V) × (insert dec c k v ≡ some d)
        × Holds dec c.capacity d (take c.capacity (Maps.insert dec k v (pairs (λ y. y.value) xs)))
  unfolding insert Maps.insert
  insert_fresh c k v xs h n a =
      let (kept, capacity) = evict-Rep dec c xs h in
      let ws = take (c.capacity - 1) xs in
      let (d, i, e, rep, same) =
        allocate-Rep dec (evict dec c) ws k v kept
          (subst (Absent k) (take-map (λ y. y.key) (c.capacity - 1) xs)
            (take-All (λ j. j ≡ k → ⊥) (c.capacity - 1) (cell_keys xs) a))
          (omega (arith, capacity, h.positive, length-take-le (c.capacity - 1) xs)) in
      (
        d,
        rw (n, insert) e,
        (
          record { index = i; key = k; value = v } ∷ ws,
          rep,
          rw (remove-Absent dec (λ y. y.value) k xs a) (
              sym (
                take-cons c.capacity (k, v) (pairs (λ y. y.value) xs) h.positive
                ∙ ap (λ r. (k, v) ∷ r) (take-map (λ y. (y.key, y.value)) (c.capacity - 1) xs))),
          same ∙ capacity,
        ),
      )

  insert_cells :
      (c : LruCache K V) (k : K) (v : V) (xs : List (Cell K V))
      → Rep dec c xs
      → (d : LruCache K V) × (insert dec c k v ≡ some d)
        × Holds dec c.capacity d (take c.capacity (Maps.insert dec k v (pairs (λ y. y.value) xs)))
  insert_cells c k v xs h = elim (locate dec c k xs h) [
    | inl (n, a) ↦ insert_fresh c k v xs h n a
    | inr (ys, x, zs, f) ↦ insert-Found c k v xs ys x zs h f
  ]

  -- One call: it does not panic, and answers and leaves what the list of entries does.
  call-Rep :
      (c : LruCache K V) (xs : List (Cell K V)) (m : CacheCall K V)
      → Rep dec c xs
      → (d : LruCache K V) × (call c m
          ≡ some (d, (on_entries c.capacity (pairs (λ y. y.value) xs) m).1))
        × Holds dec c.capacity d (on_entries c.capacity (pairs (λ y. y.value) xs) m).0
  unfolding call on_entries clear
  call-Rep c xs (get_call k) h =
      let (e, out) = get_cells dec c k xs h in
      ((get dec c k).0, ap (λ r. some ((get dec c k).0, value r)) e, out)
  call-Rep c xs (peek_call k) h =
      (c, ap (λ r. some (c, value r)) (peek_cells dec c k xs h), (xs, h, refl, refl))
  call-Rep c xs (insert_call k v) h =
      let (d, e, out) = insert_cells c k v xs h in (d, ap (Option.map (λ d. (d, nothing))) e, out)
  call-Rep c xs (remove_call k) h =
      let (e, out) = remove_cells dec c k xs h in
      ((remove dec c k).0, ap (λ r. some ((remove dec c k).0, value r)) e, out)
  call-Rep c xs (remove_where_call p) h =
      let (out, size) = remove_where_cells dec c p xs h in
      (
        (remove_where dec c p).0,
        ap (λ n. some ((remove_where dec c p).0, removed n))
            (omega (arith, size, length-map {B = K × V} (λ y. (y.key, y.value)) xs)),
        out,
      )
  call-Rep c xs clear_call h = (clear c, refl, ([], clear-Rep dec c xs h, refl, refl))

  -- A cache that stands for a list of entries, the one used last first, answers a call as the list
  -- does and stands for the changed list after it. The call does not panic.
  pub call_lem :
      (capacity : ℕ) (c : LruCache K V) (es : Maps.Map K V) (m : CacheCall K V)
      → Holds dec capacity c es
      → (d : LruCache K V) × (call c m ≡ some (d, (on_entries capacity es m).1))
        × Holds dec capacity d (on_entries capacity es m).0
  call_lem capacity c es m (xs, h, e, size) =
      let Out = λ (n : ℕ) (r : Maps.Map K V).
        (d : LruCache K V) × (call c m ≡ some (d, (on_entries n r m).1))
        × Holds dec n d (on_entries n r m).0 in
      subst (Out capacity) e (subst (λ n. Out n (pairs (λ y. y.value) xs)) size (call-Rep c xs m h))

  run-Holds :
      (capacity : ℕ) (c : LruCache K V) (es : Maps.Map K V) (calls : List (CacheCall K V))
      → Holds dec capacity c es
      → run c calls ≡ some (answers capacity es calls)
  unfolding run answers Option.bind
  run-Holds capacity c es [] h = refl
  run-Holds capacity c es (m ∷ calls) h =
      let (d, done, out) = call_lem capacity c es m h in
      rw (done, run-Holds capacity d (on_entries capacity es m).0 calls out) refl

  -- A new cache of a capacity from 1 to `u64::MAX` answers every sequence of calls as a list of
  -- entries does that keeps the entry used last first and drops what exceeds the capacity at its
  -- end. No call panics.
  pub run_lem :
      (capacity : ℕ) (calls : List (CacheCall K V))
      → 1 ≤ capacity
      → capacity ≤ u64_max
      → run (new capacity) calls ≡ some (answers capacity [] calls)
  unfolding new
  run_lem capacity calls p w =
      run-Holds capacity (new capacity) [] calls ([], new-Rep dec capacity p w, refl, refl)
