-- ===== src/Bitutil/Compressed.antt =====
-- `CompressBytes` and `DecompressBytes` undo each other (common/bitutil/compress.go).
use mjoy_go.Base.{
  ℕ, zero, suc, ◌≡◌, refl, true, false, List, [], ◌∷◌, length, ltb, ◌==◌, ==_cases, ==_self, inl,
  inr, Bool-cases, append-nil, arith,
}
use mjoy_go.Bitutil.Compress.{
  nonzero_bytes, bitset_encode, bitset_decode_partial, bitset_decode, compress_bytes,
  decompress_bytes, zeros, decoded,
}
use mjoy_go.Bitutil.Bitset.{some_set}
use mjoy_go.Bitutil.Roundtrip.{partial-encode}

clear-nonzero_bytes : (d : List ℕ) → some_set d ≡ false → nonzero_bytes d ≡ []
clear-nonzero_bytes [] h = refl
clear-nonzero_bytes (b ∷ d) h = elim (==_cases b 0) [
  | inl e ↦ rw e (clear-nonzero_bytes d (rw e at h))
  | inr e ↦ let bad : true ≡ false = rw e at h in cc
]

clear-zeros : (d : List ℕ) → some_set d ≡ false → zeros (length d) ≡ d
clear-zeros [] h = refl
clear-zeros (b ∷ d) h = elim (==_cases b 0) [
  | inl e ↦ rw (e, clear-zeros d (rw e at h))
  | inr e ↦ let bad : true ≡ false = rw e at h in cc
]

clear-encode : (fuel : ℕ) (d : List ℕ) → some_set d ≡ false → bitset_encode fuel d ≡ []
unfolding bitset_encode
clear-encode fuel [] h = refl
clear-encode fuel (b ∷ []) h = elim (==_cases b 0) [
  | inl e ↦ rw e
  | inr e ↦ let bad : true ≡ false = rw e at h in cc
]
clear-encode zero (b ∷ c ∷ d) h = refl
clear-encode (suc fuel) (b ∷ c ∷ d) h = rw (clear-nonzero_bytes (b ∷ c ∷ d) h)

decode-nil : (fuel n : ℕ) → bitset_decode_partial fuel [] n ≡ decoded (zeros n, 0)
unfolding bitset_decode_partial
decode-nil fuel zero = refl
decode-nil fuel (suc n) = refl

partial-all :
    (d : List ℕ)
    → bitset_decode_partial (length d) (bitset_encode (length d) d) (length d)
      ≡ decoded (d, length (bitset_encode (length d) d))
partial-all d = elim (Bool-cases (some_set d)) [
  | inl e ↦
      rw (append-nil (bitset_encode (length d) d)) at
        (partial-encode (length d) d [] (omega arith) e)
  | inr e ↦ rw (clear-encode (length d) d e, decode-nil (length d) (length d), clear-zeros d e)
]

decode-encode : (d : List ℕ) → bitset_decode (bitset_encode (length d) d) (length d) ≡ decoded d
unfolding bitset_decode
decode-encode d = rw (partial-all d, ==_self (length (bitset_encode (length d) d)))

ltb_self : (n : ℕ) → ltb n n ≡ false
ltb_self n = ground arith

shorter_fits : (m n : ℕ) → ltb m n ≡ true → ltb n m ≡ false
shorter_fits m n h = ground arith

shorter_differs : (m n : ℕ) → ltb m n ≡ true → (m == n) ≡ false
shorter_differs m n h = ground arith

-- Bytes that are compressed and then decompressed to as many bytes as they were are the same bytes:
-- there is no error.
pub decompress_bytes-compress_bytes :
    (d : List ℕ) → decompress_bytes (compress_bytes d) (length d) ≡ decoded d
decompress_bytes-compress_bytes d =
    let size : ℕ = length (bitset_encode (length d) d) in
    elim (Bool-cases (ltb size (length d))) [
      | inl e ↦
          rw (e, shorter_fits size (length d) e, shorter_differs size (length d) e)
            (decode-encode d)
      | inr e ↦ rw (e, ltb_self (length d), ==_self (length d))
    ]
