-- ===== src/Bitutil/Spread.antt =====
-- The bytes put back at the bits that are set (common/bitutil/compress.go).
use mjoy_go.Base.{
  ℕ, zero, suc, ◌+◌, ◌≡◌, refl, Bool, false, List, [], ◌∷◌, ◌++◌, length, map, ==_cases, inl, inr,
  arith,
}
use mjoy_go.Bitutil.Compress.{decoded, nonzero, nonzero_bytes, byte, pack_bits, unpack, spread}
use mjoy_go.Bitutil.Bits.{falses, unpack-byte}

abbrev pub Padded : List Bool → List Bool → Type 0
Padded bits out = (k : ℕ) × out ≡ bits ++ falses k

unpack_nil : unpack [] ≡ []
unfolding unpack
unpack_nil = refl

unpack_last :
    (a b c d e f g h : Bool)
    → unpack (byte a b c d e f g h ∷ []) ≡ a ∷ b ∷ c ∷ d ∷ e ∷ f ∷ g ∷ h ∷ []
unpack_last a b c d e f g h = rw (unpack-byte a b c d e f g h [], unpack_nil)

pub unpack-pack_bits : (bits : List Bool) → Padded bits (unpack (pack_bits bits))
unfolding pack_bits
unpack-pack_bits [] = (0, unpack_nil)
unpack-pack_bits (a ∷ []) = (7, unpack_last a false false false false false false false)
unpack-pack_bits (a ∷ b ∷ []) = (6, unpack_last a b false false false false false false)
unpack-pack_bits (a ∷ b ∷ c ∷ []) = (5, unpack_last a b c false false false false false)
unpack-pack_bits (a ∷ b ∷ c ∷ d ∷ []) = (4, unpack_last a b c d false false false false)
unpack-pack_bits (a ∷ b ∷ c ∷ d ∷ e ∷ []) = (3, unpack_last a b c d e false false false)
unpack-pack_bits (a ∷ b ∷ c ∷ d ∷ e ∷ f ∷ []) = (2, unpack_last a b c d e f false false)
unpack-pack_bits (a ∷ b ∷ c ∷ d ∷ e ∷ f ∷ g ∷ []) = (1, unpack_last a b c d e f g false)
unpack-pack_bits (a ∷ b ∷ c ∷ d ∷ e ∷ f ∷ g ∷ h ∷ bits) =
    let r = unpack-pack_bits bits in (r.0, rw (unpack-byte a b c d e f g h (pack_bits bits), r.1))

spread-falses : (k : ℕ) (input : List ℕ) → spread (falses k) zero input ≡ decoded ([], 0)
spread-falses zero input = refl
spread-falses (suc k) input = spread-falses k input

pub spread-nonzero_bytes :
    (d : List ℕ) (k : ℕ) (rest : List ℕ)
    → spread (map nonzero d ++ falses k) (length d) (nonzero_bytes d ++ rest)
      ≡ decoded (d, length (nonzero_bytes d))
spread-nonzero_bytes [] k rest = spread-falses k rest
spread-nonzero_bytes (b ∷ d) k rest =
    let n : ℕ = length (nonzero_bytes d) in
    let none_more : 0 + n ≡ n = omega arith in
    let one_more : 1 + n ≡ suc n = omega arith in
    elim (==_cases b 0) [
      | inl e ↦ rw (e, spread-nonzero_bytes d k rest, none_more)
      | inr e ↦ rw (e, spread-nonzero_bytes d k rest, e, one_more)
    ]
