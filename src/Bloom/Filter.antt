-- ===== src/Bloom/Filter.antt =====
-- `CreateBloom` and `BloomLookup` (utils/bloom/bloom.go) with `Bloom` (common/types/bloom.go). A bloom
-- is the number that its 256 bytes spell. The hash is a function from the place of a byte to the byte.
use mjoy_go.Base.{
  ℕ, suc, ◌+◌, ◌*◌, ◌^◌, Bool, Option, none, some, List, [], ◌∷◌, ltb, ◌==◌, if◌then◌else◌,
}
use Prim.Native.Nat.{bit_and, bit_or}

abbrev pub bloom_bit_length : ℕ
bloom_bit_length = 2048

-- `BytesToBloom` of the bytes of a number: more than 256 of them are a panic.
abbrev pub bytes_to_bloom : ℕ → Option ℕ
bytes_to_bloom bin = if ltb bin (2 ^ bloom_bit_length) then some bin else none

module _ (keccak : List ℕ → ℕ → ℕ) where
  -- The bit that two bytes of the hash choose.
  unfoldable pub bit_index : List ℕ → ℕ → ℕ
  bit_index topic i = bit_and (keccak topic (suc i) + keccak topic i * 256) 2047

  unfoldable pub calculate_bloom : List ℕ → ℕ
  calculate_bloom topic =
      bit_or (bit_or (bit_or 0 (2 ^ bit_index topic 0)) (2 ^ bit_index topic 2))
        (2 ^ bit_index topic 4)

  unfoldable pub gather : List (List ℕ) → ℕ → ℕ
  gather [] bin = bin
  gather (topic ∷ topics) bin = gather topics (bit_or bin (calculate_bloom topic))

  -- `CreateBloom`
  abbrev pub create_bloom : List (List ℕ) → Option ℕ
  create_bloom topics = bytes_to_bloom (gather topics 0)

  -- `BloomLookup`
  unfoldable pub bloom_lookup : ℕ → List ℕ → Bool
  bloom_lookup bloom topic = bit_and bloom (calculate_bloom topic) == calculate_bloom topic
