-- ===== src/Bitutil/Bitset.antt =====
-- Which bytes are zero, and the bitset of it (common/bitutil/compress.go).
use mjoy_go.Base.{
  ℕ, ◌+◌, ◌/◌, ◌≡◌, refl, Bool, true, false, List, [], ◌∷◌, ◌++◌, length, map, ◌==◌, ==_cases,
  if◌then◌else◌, Bool-cases, inl, inr,
}
use mjoy_go.Bitutil.Compress.{nonzero, pack_bits, unpack, bitset}
use mjoy_go.Bitutil.Bits.{falses, length-pack_bits}
use mjoy_go.Bitutil.Spread.{unpack-pack_bits}

-- A byte is not zero.
abbrev pub some_set : List ℕ → Bool
some_set [] = false
some_set (b ∷ d) = if b == 0 then some_set d else true

abbrev pub some_true : List Bool → Bool
some_true [] = false
some_true (true ∷ bits) = true
some_true (false ∷ bits) = some_true bits

set_bits : (d : List ℕ) → some_true (map nonzero d) ≡ some_set d
set_bits [] = refl
set_bits (b ∷ d) = elim (==_cases b 0) [ inl e ↦ rw (e, set_bits d) | inr e ↦ rw e ]

clear-unpack : (xs : List ℕ) → some_set xs ≡ false → some_true (unpack xs) ≡ false
unfolding unpack
clear-unpack [] h = refl
clear-unpack (x ∷ xs) h = elim (==_cases x 0) [
  | inl e ↦ rw e (clear-unpack xs (rw e at h))
  | inr e ↦ let bad : true ≡ false = rw e at h in cc
]

set-append : (bits more : List Bool) → some_true bits ≡ true → some_true (bits ++ more) ≡ true
set-append [] more h = cc
set-append (true ∷ bits) more h = refl
set-append (false ∷ bits) more h = set-append bits more h

set-pack_bits : (bits : List Bool) → some_true bits ≡ true → some_set (pack_bits bits) ≡ true
set-pack_bits bits h = elim (Bool-cases (some_set (pack_bits bits))) [
  | inl e ↦ e
  | inr e ↦
      let p = unpack-pack_bits bits in
      let clear : some_true (bits ++ falses (p.0)) ≡ false =
        rw p.1 at (clear-unpack (pack_bits bits) e) in
      let set = set-append bits (falses (p.0)) h in cc
]

-- The bitset of bytes that are not all zero is not all zero, and has a bit for each byte.
pub set-bitset : (d : List ℕ) → some_set d ≡ true → some_set (bitset d) ≡ true
set-bitset d h = set-pack_bits (map nonzero d) (rw (set_bits d) h)

length-nonzero : (d : List ℕ) → length (map nonzero d) ≡ length d
length-nonzero [] = refl
length-nonzero (b ∷ d) = rw (length-nonzero d)

pub length-bitset : (d : List ℕ) → length (bitset d) ≡ (length d + 7) / 8
length-bitset d = rw (length-pack_bits (map nonzero d), length-nonzero d)
