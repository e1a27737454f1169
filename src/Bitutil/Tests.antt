-- ===== src/Bitutil/Tests.antt =====
-- Inputs for the compression of sparse bytes (common/bitutil/compress.go).
use mjoy_go.Base.{ℕ, ◌≡◌, refl, List, [], ◌∷◌, length}
use mjoy_go.Bitutil.Compress.{
  byte, pack_bits, bitset_encode, unpack, bitset_decode_partial, bitset_decode, compress_bytes,
  decompress_bytes, decoded, exceeded_target, missing_data, unreferenced_data, zero_content,
}
use mjoy_go.Bitutil.Compressed.{decompress_bytes-compress_bytes}
use mjoy_go.Bitutil.Sized.{Sized, decompress_bytes-Sized}

abbrev sparse : List ℕ
sparse = 0 ∷ 0 ∷ 7 ∷ 0 ∷ 0 ∷ 0 ∷ 0 ∷ 0 ∷ 0 ∷ 9 ∷ 0 ∷ 0 ∷ []

compressed_sparse : compress_bytes sparse ≡ 192 ∷ 32 ∷ 64 ∷ 7 ∷ 9 ∷ []
unfolding bitset_encode pack_bits byte
compressed_sparse = refl

short_input : decompress_bytes (192 ∷ 32 ∷ 64 ∷ 7 ∷ []) 12 ≡ missing_data
unfolding bitset_decode bitset_decode_partial unpack
short_input = refl

long_input : decompress_bytes (192 ∷ 32 ∷ 64 ∷ 7 ∷ 9 ∷ 1 ∷ []) 12 ≡ unreferenced_data
unfolding bitset_decode bitset_decode_partial unpack
long_input = refl

zero_input : decompress_bytes (192 ∷ 32 ∷ 64 ∷ 7 ∷ 0 ∷ []) 12 ≡ zero_content
unfolding bitset_decode bitset_decode_partial unpack
zero_input = refl

beyond_target : decompress_bytes (192 ∷ 32 ∷ 1 ∷ 7 ∷ 9 ∷ []) 12 ≡ exceeded_target
unfolding bitset_decode bitset_decode_partial unpack
beyond_target = refl

decompress_bytes-compress_bytes_example :
    decompress_bytes (compress_bytes sparse) (length sparse) ≡ decoded sparse
decompress_bytes-compress_bytes_example = decompress_bytes-compress_bytes sparse

decompress_bytes-Sized_example : Sized 12 (decompress_bytes (192 ∷ 32 ∷ 64 ∷ 7 ∷ 9 ∷ []) 12)
decompress_bytes-Sized_example = decompress_bytes-Sized (192 ∷ 32 ∷ 64 ∷ 7 ∷ 9 ∷ []) 12
