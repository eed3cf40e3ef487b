-- ===== src/Smear/Probe/Mask.antt =====
-- The packed mask of a background probe, one bit for each cell:
-- smear-cursor/src/core/state/observation/background_probe.rs. `none` of `or_bit` and of what calls
-- it is an index out of range, where the source panics.
use dotfiles_nix.Base.{
  ℕ, zero, suc, ◌+◌, ◌*◌, ◌/◌, ◌%◌, Bool, true, false, not, List, [], ◌∷◌, Option, none, some,
  length, get_elem?, leb, ◌==◌, if◌then◌else◌,
}
use dotfiles_nix.Base.Words.{saturating_add}
use mathlib.Core.Option

pub record BackgroundProbeChunkMask : Type 0 where
  pub cell_count : ℕ
  pub packed : List ℕ

unfoldable pub packed_len_for : ℕ → ℕ
packed_len_for n = if n % 8 == 0 then n / 8 else saturating_add (n / 8) 1

-- `byte & (1 << n) != 0`, from the lowest bit.
unfoldable pub has_bit : ℕ → ℕ → Bool
has_bit byte zero = not (byte % 2 == 0)
has_bit byte (suc n) = has_bit (byte / 2) n

-- `byte | (1 << n)`.
unfoldable pub with_bit : ℕ → ℕ → ℕ
with_bit byte zero = if byte % 2 == 0 then byte + 1 else byte
with_bit byte (suc n) = byte % 2 + 2 * with_bit (byte / 2) n

-- `packed[index] |= 1 << n`.
unfoldable pub or_bit : List ℕ → ℕ → ℕ → Option (List ℕ)
or_bit [] index n = none
or_bit (byte ∷ bytes) zero n = some (with_bit byte n ∷ bytes)
or_bit (byte ∷ bytes) (suc index) n = Option.map (λ rest. byte ∷ rest) (or_bit bytes index n)

unfoldable pub zeros : ℕ → List ℕ
zeros zero = []
zeros (suc n) = 0 ∷ zeros n

-- The loop of `from_allowed_mask`, from an index on.
unfoldable pub pack_from : ℕ → List Bool → List ℕ → Option (List ℕ)
pack_from index [] packed = some packed
pack_from index (false ∷ bits) packed = pack_from (suc index) bits packed
pack_from index (true ∷ bits) packed = elim (or_bit packed (index / 8) (index % 8)) [
  | none ↦ none
  | some next ↦ pack_from (suc index) bits next
]

unfoldable pub all_disallowed : ℕ → BackgroundProbeChunkMask
all_disallowed n = record { cell_count = n; packed = zeros (packed_len_for n) }

unfoldable pub from_allowed_mask : List Bool → Option BackgroundProbeChunkMask
from_allowed_mask bits =
    Option.map (λ packed. record { cell_count = length bits; packed = packed })
      (pack_from 0 bits (zeros (packed_len_for (length bits))))

unfoldable pub get : BackgroundProbeChunkMask → ℕ → Option Bool
get m index =
    if leb m.cell_count index
    then none
    else Option.map (λ byte. has_bit byte (index % 8)) (get_elem? m.packed (index / 8))
