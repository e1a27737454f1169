-- ===== src/Bloom/Lookup.antt =====
-- A topic that went into a bloom is found in it (utils/bloom/bloom.go).
use Prim.Native.Nat.{bit_and, bit_or}
use native.Mathlib.Nat.{pow-le-pow_right}
use mjoy_go.Base.{
  ℕ, ◌^◌, ◌≤◌, ◌<◌, ◌≡◌, true, Option, none, some, List, [], ◌∷◌, lt→ltb, ==_self, ltb, arith,
}
use mjoy_go.Bloom.Bits.{and_bound, or_keeps, or_adds, or_bound}
use mjoy_go.Bloom.Filter.{
  bloom_bit_length, bit_index, calculate_bloom, gather, create_bloom, bloom_lookup,
}

module _ (keccak : List ℕ → ℕ → ℕ) where
  bit_bound : (topic : List ℕ) (i : ℕ) → 2 ^ bit_index keccak topic i < 2 ^ bloom_bit_length
  unfolding bit_index
  bit_bound topic i =
      let capped : 2 ^ bit_index keccak topic i ≤ 2 ^ 2047 =
        pow-le-pow_right (omega arith) (and_bound _ 2047) in
      omega arith

  calculate_bloom_bound : (topic : List ℕ) → calculate_bloom keccak topic < 2 ^ bloom_bit_length
  unfolding calculate_bloom
  calculate_bloom_bound topic =
      or_bound bloom_bit_length _ _
        (or_bound bloom_bit_length _ _
          (or_bound bloom_bit_length _ _ (omega arith) (bit_bound topic 0)) (bit_bound topic 2))
        (bit_bound topic 4)

  gather_bound :
      (topics : List (List ℕ)) (bin : ℕ)
      → bin < 2 ^ bloom_bit_length
      → gather keccak topics bin < 2 ^ bloom_bit_length
  unfolding gather
  gather_bound [] bin h = h
  gather_bound (topic ∷ topics) bin h =
      gather_bound topics _ (or_bound bloom_bit_length _ _ h (calculate_bloom_bound topic))

  gather_keeps :
      (topics : List (List ℕ)) (bin c : ℕ)
      → bit_and bin c ≡ c
      → bit_and (gather keccak topics bin) c ≡ c
  unfolding gather
  gather_keeps [] bin c h = h
  gather_keeps (topic ∷ topics) bin c h =
      gather_keeps topics _ c (or_keeps bin (calculate_bloom keccak topic) c h)

  abbrev pub Finds : ℕ → List (List ℕ) → Type 0
  Finds bloom [] = Unit
  Finds bloom (topic ∷ topics) = (bloom_lookup keccak bloom topic ≡ true) × Finds bloom topics

  gather-Finds : (topics : List (List ℕ)) (bin : ℕ) → Finds (gather keccak topics bin) topics
  unfolding gather bloom_lookup
  gather-Finds [] bin = tt
  gather-Finds (topic ∷ topics) bin =
      let c : ℕ = calculate_bloom keccak topic in
      let found : bit_and (gather keccak topics (bit_or bin c)) c ≡ c =
        gather_keeps topics (bit_or bin c) c (or_adds bin c) in
      (rw found (==_self c), gather-Finds topics (bit_or bin c))

  abbrev pub Covers : List (List ℕ) → Option ℕ → Type 0
  Covers topics none = ⊥
  Covers topics (some bloom) = Finds bloom topics

  -- The bloom of any topics fits its 256 bytes, so that CreateBloom does not panic, and BloomLookup
  -- finds each of the topics in it.
  pub create_bloom-Covers : (topics : List (List ℕ)) → Covers topics (create_bloom keccak topics)
  create_bloom-Covers topics =
      let fits : ltb (gather keccak topics 0) (2 ^ bloom_bit_length) ≡ true =
        lt→ltb _ _ (gather_bound topics 0 (omega arith)) in
      rw fits (gather-Finds topics 0)
