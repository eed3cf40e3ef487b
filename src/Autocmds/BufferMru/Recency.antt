-- ===== src/Autocmds/BufferMru/Recency.antt =====
-- The list of autocmds/src/machines/buffer_mru/state.rs against the history of events.
use dotfiles_nix.Base.{
  ℕ, zero, suc, ◌≤◌, ◌≡◌, refl, ap, ◌≢◌, ◌⊎◌, inl, inr, Bool, true, false, not, List, [], ◌∷◌,
  Option, none, some, arith, ◌==◌, take, length, All, Absent, Distinct, take-Distinct, take-All,
  length-take-le, Bool-cases, subst,
}
use mathlib.Core.List.{Memᴰ}
use dotfiles_nix.Autocmds.BufferMru.{
  BufferMruState, retain, enter, wipe, find_other, previous_buffer, empty, max_recent_buffers,
}

abbrev without : ℕ → List ℕ → List ℕ
without b = retain (λ c. not (c == b))

retain-All : (P : ℕ → Type 0) (keep : ℕ → Bool) (xs : List ℕ) → All P xs → All P (retain keep xs)
unfolding retain
retain-All P keep [] h = tt
retain-All P keep (x ∷ xs) h = elim (Bool-cases (keep x)) [
  | inl e ↦ rw e (h.0, retain-All P keep xs h.1)
  | inr e ↦ rw e (retain-All P keep xs h.1)
]

pub retain-Distinct : (keep : ℕ → Bool) (xs : List ℕ) → Distinct xs → Distinct (retain keep xs)
unfolding retain
retain-Distinct keep [] h = tt
retain-Distinct keep (x ∷ xs) h = elim (Bool-cases (keep x)) [
  | inl e ↦ rw e (retain-All (λ y. y ≡ x → ⊥) keep xs h.0, retain-Distinct keep xs h.1)
  | inr e ↦ rw e (retain-Distinct keep xs h.1)
]

Absent-without : (b : ℕ) (xs : List ℕ) → Absent b (without b xs)
unfolding retain
Absent-without b [] = tt
Absent-without b (x ∷ xs) = elim (Bool-cases (x == b)) [
  | inl e ↦ rw e (Absent-without b xs)
  | inr e ↦ rw e ((λ p. ground arith), Absent-without b xs)
]

length-retain-le : (keep : ℕ → Bool) (xs : List ℕ) → length (retain keep xs) ≤ length xs
unfolding retain
length-retain-le keep [] = omega arith
length-retain-le keep (x ∷ xs) = ground (arith, length-retain-le keep xs)

-- No buffer is listed twice, and at most `max_recent_buffers` are.
pub record IsValid (s : BufferMruState) : Type 0 where
  pub distinct : Distinct s.recent
  pub bounded : length s.recent ≤ max_recent_buffers

pub data Event : Type 0 where
  enters wipes : ℕ → Event
  asks : ℕ → (ℕ → Bool) → Event

pub step : BufferMruState → Event → BufferMruState
step s (enters b) = enter s b
step s (wipes b) = wipe s b
step s (asks current is_valid) = (previous_buffer s current is_valid).0

pub run : BufferMruState → List Event → BufferMruState
run s [] = s
run s (e ∷ es) = run (step s e) es

step-IsValid : (s : BufferMruState) (e : Event) → IsValid s → IsValid (step s e)
unfolding step enter wipe previous_buffer
step-IsValid s (enters b) v = record {
  distinct =
      take-Distinct max_recent_buffers (b ∷ without b s.recent)
        (Absent-without b s.recent, retain-Distinct (λ c. not (c == b)) s.recent v.distinct);
  bounded = length-take-le max_recent_buffers (b ∷ without b s.recent);
}
step-IsValid s (wipes b) v = record {
  distinct = retain-Distinct (λ c. not (c == b)) s.recent v.distinct;
  bounded = omega (arith, v.bounded, length-retain-le (λ c. not (c == b)) s.recent);
}
step-IsValid s (asks current is_valid) v = record {
  distinct = retain-Distinct is_valid s.recent v.distinct;
  bounded = omega (arith, v.bounded, length-retain-le is_valid s.recent);
}

run-IsValid : (s : BufferMruState) (es : List Event) → IsValid s → IsValid (run s es)
unfolding run
run-IsValid s [] v = v
run-IsValid s (e ∷ es) v = run-IsValid (step s e) es (step-IsValid s e v)

-- After any events the list names no buffer twice and holds at most 64.
pub run-empty-IsValid : (es : List Event) → IsValid (run empty es)
run-empty-IsValid es =
    run-IsValid empty es (unfold empty in record { distinct = tt; bounded = omega arith })

without_of_Absent : (b : ℕ) (xs : List ℕ) → Absent b xs → without b xs ≡ xs
unfolding retain
without_of_Absent b [] h = refl
without_of_Absent b (x ∷ xs) h = elim (Bool-cases (x == b)) [
  | inl e ↦ absurd (h.0 (ground arith))
  | inr e ↦ rw e (ap (◌∷◌ x) (without_of_Absent b xs h.1))
]

take-take : (n : ℕ) (xs : List ℕ) → take n (take n xs) ≡ take n xs
take-take zero xs = refl
take-take (suc n) [] = refl
take-take (suc n) (x ∷ xs) = ap (◌∷◌ x) (take-take n xs)

take-without-take :
    (n b : ℕ) (xs : List ℕ)
    → Distinct xs
    → take n (without b (take (suc n) xs)) ≡ take n (without b xs)
unfolding retain
take-without-take zero b xs d = refl
take-without-take (suc n) b [] d = refl
take-without-take (suc n) b (x ∷ xs) d = elim (Bool-cases (x == b)) [
  | inl e ↦
      let p : x ≡ b = ground arith in
      let away : Absent b xs = subst (λ y. Absent y xs) p d.0 in
      rw
        (
          e,
          without_of_Absent b xs away,
          without_of_Absent b (take (suc n) xs) (take-All (λ y. y ≡ b → ⊥) (suc n) xs away),
        )
        (take-take (suc n) xs)
  | inr e ↦ rw e (ap (◌∷◌ x) (take-without-take n b xs d.1))
]

-- The buffers of a history, the most recent first, with nothing forgotten.
abbrev pub note : List ℕ → ℕ → List ℕ
note bs b = b ∷ without b bs

pub history : List ℕ → List ℕ → List ℕ
history bs [] = bs
history bs (e ∷ es) = history (note bs e) es

pub enter_all : BufferMruState → List ℕ → BufferMruState
enter_all s [] = s
enter_all s (b ∷ bs) = enter_all (enter s b) bs

note-Distinct : (bs : List ℕ) (b : ℕ) → Distinct bs → Distinct (note bs b)
note-Distinct bs b d = (Absent-without b bs, retain-Distinct (λ c. not (c == b)) bs d)

enter_all-from :
    (s : BufferMruState) (bs es : List ℕ)
    → Distinct bs
    → s.recent ≡ take max_recent_buffers bs
    → (enter_all s es).recent ≡ take max_recent_buffers (history bs es)
unfolding enter_all history
enter_all-from s bs [] d h = h
enter_all-from s bs (e ∷ es) d h =
    enter_all-from (enter s e) (note bs e) es (note-Distinct bs e d)
      (unfold enter in rw h (ap (◌∷◌ e) (take-without-take 63 e bs d)))

-- Entering buffers keeps the 64 entered most recently, in that order, out of a history that forgets
-- none.
pub enter_all-history :
    (es : List ℕ) → (enter_all empty es).recent ≡ take max_recent_buffers (history [] es)
unfolding empty
enter_all-history es = enter_all-from empty [] es tt refl

-- The last buffer but one is the previous one, if it is still valid.
pub previous_buffer-enter :
    (s : BufferMruState) (a b : ℕ) (is_valid : ℕ → Bool)
    → a ≢ b
    → is_valid a ≡ true
    → (previous_buffer (enter (enter s a) b) b is_valid).1 ≡ some a
unfolding previous_buffer enter retain
previous_buffer-enter s a b is_valid n v = ground arith

-- What `previous_buffer` may answer for a list of recent buffers.
abbrev pub Answers : ℕ → (ℕ → Bool) → List ℕ → Option ℕ → Type 0
Answers current is_valid recent none = All (λ b. (is_valid b ≡ false) ⊎ (b ≡ current)) recent
Answers current is_valid recent (some b) = (is_valid b ≡ true) × (b ≢ current) × Memᴰ b recent

answer_later :
    (current : ℕ) (is_valid : ℕ → Bool) (b : ℕ) (bs : List ℕ) (o : Option ℕ)
    → (is_valid b ≡ false) ⊎ (b ≡ current)
    → Answers current is_valid bs o
    → Answers current is_valid (b ∷ bs) o
answer_later current is_valid b bs none h a = (h, a)
answer_later current is_valid b bs (some c) h a = (a.0, a.1, Memᴰ.tail a.2)

find_other-Answers :
    (current : ℕ) (is_valid : ℕ → Bool) (bs : List ℕ)
    → Answers current is_valid bs (find_other current (retain is_valid bs))
unfolding find_other retain
find_other-Answers current is_valid [] = tt
find_other-Answers current is_valid (b ∷ bs) =
    let rest = find_other-Answers current is_valid bs in
    elim (Bool-cases (is_valid b)) [
      | inr e ↦ rw e (answer_later current is_valid b bs _ (inl e) rest)
      | inl e ↦ elim (Bool-cases (b == current)) [
        | inl same ↦ rw (e, same) (answer_later current is_valid b bs _ (inr (ground arith)) rest)
        | inr other ↦ rw (e, other) (e, (λ p. ground arith), Memᴰ.head refl)
      ]
    ]

-- `previous_buffer` answers with a valid buffer of the list that is not the current one, and with
-- nothing only if the list holds no such buffer.
pub previous_buffer-Answers :
    (s : BufferMruState) (current : ℕ) (is_valid : ℕ → Bool)
    → Answers current is_valid s.recent (previous_buffer s current is_valid).1
unfolding previous_buffer
previous_buffer-Answers s current is_valid = find_other-Answers current is_valid s.recent
