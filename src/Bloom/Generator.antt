-- ===== src/Bloom/Generator.antt =====
-- `Generator` (utils/bloom/generator.go): many blooms, turned into a row for each bit. An array is a
-- function of its index. The words of a `uint` do not overflow here.
use mjoy_go.Base.{
  ℕ, zero, suc, ◌-◌, ◌/◌, ◌%◌, ◌^◌, Bool, not, Option, none, some, List, [], ◌∷◌, replicate, ltb,
  leb, ◌==◌, if◌then◌else◌,
}
use Prim.Native.Nat.{bit_and, bit_or}
use mjoy_go.Bloom.Filter.{bloom_bit_length}

pub record Generator : Type 0 where
  pub blooms : ℕ → List ℕ
  pub sections : ℕ
  pub next_bit : ℕ

-- `NewGenerator`, `none` for its error
abbrev pub new_generator : ℕ → Option Generator
new_generator sections =
    if sections % 8 == 0
    then some
        (record { blooms = λ i. replicate (sections / 8) 0; sections = sections; next_bit = 0 })
    else none

-- `bloom[k]`, of a bloom that is the number of its bytes
abbrev pub bloom_byte : ℕ → ℕ → ℕ
bloom_byte bloom k = bloom / 256 ^ (255 - k) % 256

abbrev pub test_mask : ℕ → ℕ → Bool
test_mask x m = not (bit_and x (2 ^ m) == 0)

abbrev pub bloom_has : ℕ → ℕ → Bool
bloom_has i bloom = test_mask (bloom_byte bloom (255 - i / 8)) (i % 8)

-- `row[byteIndex] |= bitMask`; an index in range, as the number of sections is a multiple of 8.
abbrev pub or_byte : ℕ → ℕ → List ℕ → List ℕ
or_byte j m [] = []
or_byte zero m (x ∷ row) = bit_or x (2 ^ m) ∷ row
or_byte (suc j) m (x ∷ row) = x ∷ or_byte j m row

abbrev pub set_bit : ℕ → List ℕ → List ℕ
set_bit k row = or_byte (k / 8) (7 - k % 8) row

pub data Added : Type 0 where
  added : Generator → Added
  section_out_of_bounds unexpected_index : Added

-- The bits of the bloom go to the next place of each row.
abbrev pub add_column : ℕ → Generator → Generator
add_column bloom g = record g {
  blooms = λ i. if bloom_has i bloom then set_bit g.next_bit (g.blooms i) else g.blooms i;
  next_bit = suc g.next_bit;
}

-- `AddBloom`
unfoldable pub add_bloom : ℕ → ℕ → Generator → Added
add_bloom index bloom g =
    if leb g.sections g.next_bit
    then section_out_of_bounds
    else (if g.next_bit == index then added (add_column bloom g) else unexpected_index)

pub data BitVector : Type 0 where
  vector : List ℕ → BitVector
  not_generated bit_out_of_bounds index_panic : BitVector

-- `Bitset`: the index is compared with the number of sections.
unfoldable pub bitset_of : ℕ → Generator → BitVector
bitset_of i g =
    if g.next_bit == g.sections
    then (if leb g.sections i
        then bit_out_of_bounds
        else (if ltb i bloom_bit_length then vector (g.blooms i) else index_panic))
    else not_generated
