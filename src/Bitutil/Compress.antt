-- ===== src/Bitutil/Compress.antt =====
-- `CompressBytes` and `DecompressBytes` (common/bitutil/compress.go). A bitset is packed eight bits at
-- a time, the highest first, where the source sets bit 7-i%8 of byte i/8. The recursion on the bitset
-- is on fuel.
use mjoy_go.Base.{
  ℕ, zero, suc, ◌+◌, ◌*◌, ◌/◌, ◌%◌, Bool, true, false, not, List, [], ◌∷◌, ◌++◌, length, drop, map,
  ltb, ◌==◌, if◌then◌else◌,
}

pub data Decoded (A : Type 0) : Type 0 where
  decoded : A → Decoded A
  missing_data unreferenced_data exceeded_target zero_content : Decoded A
  exhausted : Decoded A

abbrev pub and_then : {A B : Type 0} → Decoded A → (A → Decoded B) → Decoded B
and_then (decoded x) next = next x
and_then missing_data next = missing_data
and_then unreferenced_data next = unreferenced_data
and_then exceeded_target next = exceeded_target
and_then zero_content next = zero_content
and_then exhausted next = exhausted

abbrev pub nonzero : ℕ → Bool
nonzero b = not (b == 0)

-- `nonZeroBytes`
abbrev pub nonzero_bytes : List ℕ → List ℕ
nonzero_bytes [] = []
nonzero_bytes (b ∷ input) = if nonzero b then b ∷ nonzero_bytes input else nonzero_bytes input

abbrev pub bit : Bool → ℕ
bit true = 1
bit false = 0

unfoldable pub byte : Bool → Bool → Bool → Bool → Bool → Bool → Bool → Bool → ℕ
byte a b c d e f g h =
    128 * bit a + 64 * bit b + 32 * bit c + 16 * bit d + 8 * bit e + 4 * bit f + 2 * bit g + bit h

unfoldable pub pack_bits : List Bool → List ℕ
pack_bits [] = []
pack_bits (a ∷ []) = byte a false false false false false false false ∷ []
pack_bits (a ∷ b ∷ []) = byte a b false false false false false false ∷ []
pack_bits (a ∷ b ∷ c ∷ []) = byte a b c false false false false false ∷ []
pack_bits (a ∷ b ∷ c ∷ d ∷ []) = byte a b c d false false false false ∷ []
pack_bits (a ∷ b ∷ c ∷ d ∷ e ∷ []) = byte a b c d e false false false ∷ []
pack_bits (a ∷ b ∷ c ∷ d ∷ e ∷ f ∷ []) = byte a b c d e f false false ∷ []
pack_bits (a ∷ b ∷ c ∷ d ∷ e ∷ f ∷ g ∷ []) = byte a b c d e f g false ∷ []
pack_bits (a ∷ b ∷ c ∷ d ∷ e ∷ f ∷ g ∷ h ∷ bits) = byte a b c d e f g h ∷ pack_bits bits

-- `nonZeroBitset`
abbrev pub bitset : List ℕ → List ℕ
bitset input = pack_bits (map nonzero input)

abbrev pub with_bytes : List ℕ → List ℕ → List ℕ
with_bytes rest [] = []
with_bytes rest (b ∷ bytes) = rest ++ b ∷ bytes

-- `bitsetEncodeBytes`
unfoldable pub bitset_encode : ℕ → List ℕ → List ℕ
bitset_encode fuel [] = []
bitset_encode fuel (b ∷ []) = if b == 0 then [] else b ∷ []
bitset_encode zero (b ∷ c ∷ input) = []
bitset_encode (suc fuel) (b ∷ c ∷ input) =
    with_bytes (bitset_encode fuel (bitset (b ∷ c ∷ input))) (nonzero_bytes (b ∷ c ∷ input))

-- As much fuel as there are bytes.
abbrev pub compress_bytes : List ℕ → List ℕ
compress_bytes input =
    let out : List ℕ = bitset_encode (length input) input in
    if ltb (length out) (length input) then out else input

abbrev pub zeros : ℕ → List ℕ
zeros zero = []
zeros (suc n) = 0 ∷ zeros n

abbrev pub test_bit : ℕ → ℕ → Bool
test_bit mask x = x / mask % 2 == 1

unfoldable pub unpack : List ℕ → List Bool
unpack [] = []
unpack (x ∷ xs) =
    test_bit 128 x
    ∷ test_bit 64 x
    ∷ test_bit 32 x
    ∷ test_bit 16 x
    ∷ test_bit 8 x
    ∷ test_bit 4 x
    ∷ test_bit 2 x
    ∷ test_bit 1 x
    ∷ unpack xs

abbrev pub push : ℕ → ℕ → Decoded (List ℕ × ℕ) → Decoded (List ℕ × ℕ)
push b n rest = and_then rest (λ r. decoded (b ∷ r.0, n + r.1))

-- The loop over the bits: the bytes of the output, and how many of the input it takes.
abbrev pub spread : List Bool → ℕ → List ℕ → Decoded (List ℕ × ℕ)
spread [] room input = decoded (zeros room, 0)
spread (false ∷ bits) zero input = spread bits zero input
spread (false ∷ bits) (suc room) input = push 0 0 (spread bits room input)
spread (true ∷ bits) room [] = missing_data
spread (true ∷ bits) zero (x ∷ input) = exceeded_target
spread (true ∷ bits) (suc room) (x ∷ input) =
    let rest : Decoded (List ℕ × ℕ) = spread bits room input in
    if x == 0 then zero_content else push x 1 rest

abbrev pub advance : ℕ → Decoded (List ℕ × ℕ) → Decoded (List ℕ × ℕ)
advance n rest = and_then rest (λ r. decoded (r.0, n + r.1))

abbrev pub distribute : ℕ → List ℕ → Decoded (List ℕ × ℕ) → Decoded (List ℕ × ℕ)
distribute target input set =
    and_then set (λ s. advance s.1 (spread (unpack s.0) target (drop s.1 input)))

-- `bitsetDecodePartialBytes`
unfoldable pub bitset_decode_partial : ℕ → List ℕ → ℕ → Decoded (List ℕ × ℕ)
bitset_decode_partial fuel input zero = decoded ([], 0)
bitset_decode_partial fuel [] (suc n) = decoded (zeros (suc n), 0)
bitset_decode_partial fuel (b ∷ input) (suc zero) =
    if b == 0 then decoded (b ∷ [], 0) else decoded (b ∷ [], 1)
bitset_decode_partial zero (b ∷ input) (suc (suc n)) = exhausted
bitset_decode_partial (suc fuel) (b ∷ input) (suc (suc n)) =
    distribute (suc (suc n)) (b ∷ input)
      (bitset_decode_partial fuel (b ∷ input) ((suc (suc n) + 7) / 8))

abbrev pub consumed : ℕ → Decoded (List ℕ × ℕ) → Decoded (List ℕ)
consumed n partial = and_then partial (λ r. if r.1 == n then decoded r.0 else unreferenced_data)

-- `bitsetDecodeBytes`, with as much fuel as the target
unfoldable pub bitset_decode : List ℕ → ℕ → Decoded (List ℕ)
bitset_decode input target = consumed (length input) (bitset_decode_partial target input target)

-- The target is not negative.
abbrev pub decompress_bytes : List ℕ → ℕ → Decoded (List ℕ)
decompress_bytes input target =
    if ltb target (length input)
    then exceeded_target
    else (if length input == target then decoded input else bitset_decode input target)
