-- ===== src/Bitutil/Roundtrip.antt =====
-- What `bitsetDecodePartialBytes` gives on the output of `bitsetEncodeBytes`
-- (common/bitutil/compress.go).
use mjoy_go.Base.{
  ℕ, zero, suc, ◌+◌, ◌/◌, ◌≤◌, ◌≡◌, refl, Bool, true, false, List, [], ◌∷◌, ◌++◌, length, map, ◌==◌,
  ==_cases, inl, inr, length-append, drop-append, arith, append_assoc,
}
use mjoy_go.Bitutil.Compress.{
  nonzero, nonzero_bytes, bitset, bitset_encode, bitset_decode_partial, with_bytes, decoded,
  distribute,
}
use mjoy_go.Bitutil.Spread.{unpack-pack_bits, spread-nonzero_bytes}
use mjoy_go.Bitutil.Bitset.{some_set, set-bitset, length-bitset}

abbrev nonempty : List ℕ → Bool
nonempty [] = false
nonempty (x ∷ xs) = true

decode_more :
    (fuel n : ℕ) (input : List ℕ)
    → nonempty input ≡ true
    → bitset_decode_partial (suc fuel) input (suc (suc n))
      ≡ distribute (suc (suc n)) input (bitset_decode_partial fuel input ((suc (suc n) + 7) / 8))
unfolding bitset_decode_partial
decode_more fuel n [] h = cc
decode_more fuel n (x ∷ input) h = refl

nonempty-append : (xs ys : List ℕ) → nonempty ys ≡ true → nonempty (xs ++ ys) ≡ true
nonempty-append [] ys h = h
nonempty-append (x ∷ xs) ys h = refl

nonempty-before : (xs ys : List ℕ) → nonempty xs ≡ true → nonempty (xs ++ ys) ≡ true
nonempty-before [] ys h = cc
nonempty-before (x ∷ xs) ys h = refl

nonempty-nonzero_bytes : (d : List ℕ) → some_set d ≡ true → nonempty (nonzero_bytes d) ≡ true
nonempty-nonzero_bytes [] h = cc
nonempty-nonzero_bytes (b ∷ d) h = elim (==_cases b 0) [
  | inl e ↦ rw e (nonempty-nonzero_bytes d (rw e at h))
  | inr e ↦ rw e
]

with-append : (xs ys : List ℕ) → nonempty ys ≡ true → with_bytes xs ys ≡ xs ++ ys
with-append xs [] h = cc
with-append xs (y ∷ ys) h = refl

-- The bytes put back, where the bitset is known.
distribute-bitset :
    (e d rest : List ℕ)
    → distribute (length d) (e ++ (nonzero_bytes d ++ rest)) (decoded (bitset d, length e))
      ≡ decoded (d, length (e ++ nonzero_bytes d))
distribute-bitset e d rest =
    let p = unpack-pack_bits (map nonzero d) in
    rw (
      p.1,
      drop-append e (nonzero_bytes d ++ rest),
      spread-nonzero_bytes d (p.0) rest,
      length-append e (nonzero_bytes d),
    )

one_byte :
    (fuel b : ℕ) (rest : List ℕ)
    → (b == 0) ≡ false
    → bitset_decode_partial fuel (b ∷ rest) 1 ≡ decoded (b ∷ [], 1)
unfolding bitset_decode_partial
one_byte fuel b rest h = rw h

pub partial-encode :
    (fuel : ℕ) (d rest : List ℕ)
    → length d ≤ fuel
    → some_set d ≡ true
    → bitset_decode_partial fuel (bitset_encode fuel d ++ rest) (length d)
      ≡ decoded (d, length (bitset_encode fuel d))
unfolding bitset_encode
partial-encode fuel [] rest l h = cc
partial-encode fuel (b ∷ []) rest l h = elim (==_cases b 0) [
  | inl e ↦ let bad : false ≡ true = rw e at h in cc
  | inr e ↦ rw e (one_byte fuel b rest e)
]
partial-encode zero (b ∷ c ∷ d) rest l h = ground arith
partial-encode (suc fuel) (b ∷ c ∷ d) rest l h =
    let e : List ℕ = bitset_encode fuel (bitset (b ∷ c ∷ d)) in
    let nz : List ℕ = nonzero_bytes (b ∷ c ∷ d) in
    let full : nonempty nz ≡ true = nonempty-nonzero_bytes (b ∷ c ∷ d) h in
    let size = length-bitset (b ∷ c ∷ d) in
    let inner =
      partial-encode fuel (bitset (b ∷ c ∷ d)) (nz ++ rest) (rw size (omega arith))
        (set-bitset (b ∷ c ∷ d) h) in
    let input = nonempty-append e (nz ++ rest) (nonempty-before nz rest full) in
    rw
      (
        with-append e nz full,
        append_assoc e nz rest,
        decode_more fuel (length d) (e ++ (nz ++ rest)) input,
        rw size at inner,
      )
      (distribute-bitset e (b ∷ c ∷ d) rest)
