-- ===== src/Smear/Probe/Packing.antt =====
-- What is packed is read back: smear-cursor/src/core/state/observation/background_probe.rs.
use dotfiles_nix.Base.{
  Bool-cases, inl, inr, ℕ, zero, suc, ◌+◌, ◌-◌, ◌*◌, ◌/◌, ◌%◌, ◌≤◌, ◌<◌, ◌≡◌, refl, sym, ap, ◌∙◌,
  Bool, true, false, ◌&&◌, ◌||◌, List, [], ◌∷◌, Option, none, some, length, get_elem?, leb, ◌==◌,
  if◌then◌else◌, arith,
}
use mathlib.Core.Option
use dotfiles_nix.Base.Words.{u64_max}
use dotfiles_nix.Smear.Probe.Mask.{
  packed_len_for, has_bit, with_bit, or_bit, zeros, pack_from, BackgroundProbeChunkMask,
  from_allowed_mask, get,
}

half : (b : ℕ) → (if b % 2 == 0 then b + 1 else b) / 2 ≡ b / 2
half b = ground arith

digit : (b x : ℕ) → (b % 2 + 2 * x) / 2 ≡ x
digit b x = omega arith

suc-== : (m n : ℕ) → (suc m == suc n) ≡ (m == n)
suc-== m n = ground arith

suc_zero : (n : ℕ) → (suc n == 0) ≡ false
suc_zero n = ground arith

zero_suc : (n : ℕ) → (0 == suc n) ≡ false
zero_suc n = ground arith

-- A bit that is set is read back, and the others stay.
has_bit-with_bit : (b n m : ℕ) → has_bit (with_bit b n) m ≡ (m == n) || has_bit b m
unfolding has_bit with_bit
has_bit-with_bit b zero zero = ground arith
has_bit-with_bit b zero (suc m) =
    ap (λ x. has_bit x m) (half b) ∙ ap (λ x. x || has_bit (b / 2) m) (sym (suc_zero m))
has_bit-with_bit b (suc n) zero = ground arith
has_bit-with_bit b (suc n) (suc m) =
    ap (λ x. has_bit x m) (digit b (with_bit (b / 2) n))
    ∙ has_bit-with_bit (b / 2) n m
    ∙ ap (λ x. x || has_bit (b / 2) m) (sym (suc-== m n))

-- The bit `n` of the byte at an index.
abbrev bit_of : Option ℕ → ℕ → Bool
bit_of none n = false
bit_of (some byte) n = has_bit byte n

zeros_lem : (k j m : ℕ) → bit_of (get_elem? (zeros k) j) m ≡ false
unfolding has_bit zeros
zeros_lem zero j m = refl
zeros_lem (suc k) zero zero = refl
zeros_lem (suc k) zero (suc m) = zeros_lem (suc k) zero m
zeros_lem (suc k) (suc j) m = zeros_lem k j m

length-zeros : (k : ℕ) → length (zeros k) ≡ k
unfolding zeros
length-zeros zero = refl
length-zeros (suc k) = omega (arith, length-zeros k)

head_bit :
    (b : ℕ) (p : List ℕ) (n j m : ℕ)
    → bit_of (get_elem? (with_bit b n ∷ p) j) m
      ≡ (j == 0) && (m == n) || bit_of (get_elem? (b ∷ p) j) m
head_bit b p n zero m = has_bit-with_bit b n m
head_bit b p n (suc j) m = ap (λ x. x && (m == n) || bit_of (get_elem? p j) m) (sym (suc_zero j))

tail_bit :
    (b : ℕ) (p q : List ℕ) (k n : ℕ)
    → ((j m : ℕ) → bit_of (get_elem? q j) m ≡ (j == k) && (m == n) || bit_of (get_elem? p j) m)
    → (j m : ℕ)
    → bit_of (get_elem? (b ∷ q) j) m ≡ (j == suc k) && (m == n) || bit_of (get_elem? (b ∷ p) j) m
tail_bit b p q k n f zero m = ap (λ x. x && (m == n) || has_bit b m) (sym (zero_suc k))
tail_bit b p q k n f (suc j) m =
    f j m ∙ ap (λ x. x && (m == n) || bit_of (get_elem? p j) m) (sym (suc-== j k))

-- Setting a bit in range changes that bit alone.
or_bit_lem :
    (p : List ℕ) (k n : ℕ)
    → k < length p
    → (q : List ℕ) × (or_bit p k n ≡ some q)
      × (length q ≡ length p)
      × ((j m : ℕ) → bit_of (get_elem? q j) m ≡ (j == k) && (m == n) || bit_of (get_elem? p j) m)
unfolding or_bit
or_bit_lem [] k n h = absurd (omega arith)
or_bit_lem (b ∷ p) zero n h = (_, refl, refl, head_bit b p n)
or_bit_lem (b ∷ p) (suc k) n h =
    let (q, e, l, f) = or_bit_lem p k n (omega arith) in
    (b ∷ q, rw e refl, ap suc l, tail_bit b p q k n f)

-- The truth of a mask at an index: `false` past its end.
abbrev allowed : List Bool → ℕ → Bool
allowed bits i = elim (get_elem? bits i) [ none ↦ false | some b ↦ b ]

allowed_past : (bits : List Bool) (n : ℕ) → length bits ≤ n → allowed bits n ≡ false
allowed_past [] n h = refl
allowed_past (b ∷ bits) zero h = absurd (omega arith)
allowed_past (b ∷ bits) (suc n) h = allowed_past bits n (omega arith)

allowed_step :
    (b : Bool) (bits : List Bool) (i j : ℕ)
    → leb i j && allowed (b ∷ bits) (j - i)
      ≡ (j == i) && b || (leb (suc i) j && allowed bits (j - suc i))
allowed_step b bits i j = elim (Bool-cases (leb (suc i) j)) [
  | inl h ↦ let e : j - i ≡ suc (j - suc i) = ground arith in rw e (ground arith)
  | inr h ↦ elim (Bool-cases (j == i)) [
    | inl h2 ↦ let e : j - i ≡ 0 = ground arith in rw e (ground arith)
    | inr h2 ↦ ground arith
  ]
]

same_place : (i j : ℕ) → (j / 8 == i / 8) && (j % 8 == i % 8) ≡ (j == i)
same_place i j = ground arith

drop : (a x : Bool) → x ≡ a && false || x
drop true x = refl
drop false x = refl

gather : (x a v : Bool) → x || (a || v) ≡ (a && true || x) || v
gather true true v = refl
gather true false v = refl
gather false true v = refl
gather false false v = refl

-- From index `i` on, the loop adds the bits of the mask and keeps those that were set.
pack_from_lem :
    (i : ℕ) (bits : List Bool) (p : List ℕ)
    → i + length bits ≤ 8 * length p
    → (q : List ℕ) × (pack_from i bits p ≡ some q)
      × (length q ≡ length p)
      × ((j : ℕ)
          → bit_of (get_elem? q (j / 8)) (j % 8)
            ≡ leb i j && allowed bits (j - i) || bit_of (get_elem? p (j / 8)) (j % 8))
unfolding pack_from
pack_from_lem i [] p h = (p, refl, refl, λ j. ground arith)
pack_from_lem i (false ∷ bits) p h =
    let (q, e, l, f) = pack_from_lem (suc i) bits p (omega arith) in
    (
      q,
      e,
      l,
      λ j.
          (f j
            ∙ ap (λ x. x || bit_of (get_elem? p (j / 8)) (j % 8))
                (drop (j == i) (leb (suc i) j && allowed bits (j - suc i))
                  ∙ sym (allowed_step false bits i j))),
    )
pack_from_lem i (true ∷ bits) p h =
    let (r, e, l, f) = or_bit_lem p (i / 8) (i % 8) (omega arith) in
    let (q, e2, l2, f2) = pack_from_lem (suc i) bits r (omega arith) in
    (
      q,
      rw (e, pack_from) e2,
      l2 ∙ l,
      λ j.
          (f2 j
            ∙ rw (f (j / 8) (j % 8), same_place i j, allowed_step true bits i j)
                (gather (leb (suc i) j && allowed bits (j - suc i)) (j == i)
                  (bit_of (get_elem? p (j / 8)) (j % 8)))),
    )

packed_room : (n : ℕ) → n ≤ u64_max → n ≤ 8 * packed_len_for n
unfolding packed_len_for
packed_room n h = ground arith

-- A byte of the packed mask that is in range is there.
bit_in_range :
    (p : List ℕ) (k m : ℕ)
    → k < length p
    → Option.map (λ byte. has_bit byte m) (get_elem? p k) ≡ some (bit_of (get_elem? p k) m)
bit_in_range [] k m h = absurd (omega arith)
bit_in_range (b ∷ p) zero m h = refl
bit_in_range (b ∷ p) (suc k) m h = bit_in_range p k m (omega arith)

allowed_in_range :
    (bits : List Bool) (i : ℕ) → i < length bits → get_elem? bits i ≡ some (allowed bits i)
allowed_in_range [] i h = absurd (omega arith)
allowed_in_range (b ∷ bits) zero h = refl
allowed_in_range (b ∷ bits) (suc i) h = allowed_in_range bits i (omega arith)

out_of_range : (bits : List Bool) (i : ℕ) → length bits ≤ i → get_elem? bits i ≡ none
out_of_range [] i h = refl
out_of_range (b ∷ bits) zero h = absurd (omega arith)
out_of_range (b ∷ bits) (suc i) h = out_of_range bits i (omega arith)

or_false : (b : Bool) → b || false ≡ b
or_false true = refl
or_false false = refl

-- The loop starts at index 0 with no bit set.
from_start :
    (bits : List Bool) (i : ℕ) (b : Bool)
    → b ≡ false
    → leb 0 i && allowed bits (i - 0) || b ≡ allowed bits i
from_start bits i b e =
    let zero_first : leb 0 i ≡ true = ground arith in
    let minus_zero : i - 0 ≡ i = omega arith in
    rw (e, zero_first, minus_zero) (or_false (allowed bits i))

-- Packing the bits of a mask never goes out of range, and every bit is read back from the bytes: a
-- read at any index gives what the mask has there, and nothing past its end. The mask has at most
-- as many bits as a `usize` counts.
pub get-from_allowed_mask :
    (bits : List Bool)
    → length bits ≤ u64_max
    → (m : BackgroundProbeChunkMask) × (from_allowed_mask bits ≡ some m)
      × (m.cell_count ≡ length bits)
      × (length m.packed ≡ packed_len_for (length bits))
      × ((i : ℕ) → get m i ≡ get_elem? bits i)
unfolding from_allowed_mask get
get-from_allowed_mask bits h =
    let n = packed_len_for (length bits) in
    let (q, e, l, f) =
      pack_from_lem 0 bits (zeros n) (omega (arith, packed_room (length bits) h, length-zeros n)) in
    (
      record { cell_count = length bits; packed = q },
      rw e refl,
      refl,
      l ∙ length-zeros n,
      λ i. elim (Bool-cases (leb (length bits) i)) [
        | inl past ↦ rw past (sym (out_of_range bits i (ground arith)))
        | inr inside ↦ rw inside (
            bit_in_range q (i / 8) (i % 8)
              (ground (arith, packed_room (length bits) h, length-zeros n))
            ∙ ap some (
                f i
                ∙ from_start bits i (bit_of (get_elem? (zeros n) (i / 8)) (i % 8))
                    (zeros_lem n (i / 8) (i % 8)))
            ∙ sym (allowed_in_range bits i (ground arith)))
      ],
    )
