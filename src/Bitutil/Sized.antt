-- ===== src/Bitutil/Sized.antt =====
-- What `DecompressBytes` gives has the size that is asked for (common/bitutil/compress.go).
use mjoy_go.Base.{
  ℕ, zero, suc, ◌+◌, ◌/◌, ◌≤◌, ◌≡◌, refl, Bool, true, false, List, [], ◌∷◌, length, drop, ltb, ◌==◌,
  ==_cases, ==_self, inl, inr, Bool-cases, arith, ap,
}
use mjoy_go.Bitutil.Compress.{
  bitset_decode_partial, bitset_decode, decompress_bytes, consumed, zeros, push, advance,
  distribute, spread, unpack, Decoded, and_then, decoded, missing_data, unreferenced_data,
  exceeded_target, zero_content, exhausted,
}

-- A result with this property, or an error of the source.
abbrev pub Ends : {A : Type 0} → (A → Type 0) → Decoded A → Type 0
Ends P (decoded x) = P x
Ends P missing_data = Unit
Ends P unreferenced_data = Unit
Ends P exceeded_target = Unit
Ends P zero_content = Unit
Ends P exhausted = ⊥

and_then-Ends :
    {A B : Type 0} (P : A → Type 0) (Q : B → Type 0) (r : Decoded A) (next : A → Decoded B)
    → Ends P r
    → ((x : A) → P x → Ends Q (next x))
    → Ends Q (and_then r next)
and_then-Ends P Q (decoded x) next h step = step x h
and_then-Ends P Q missing_data next h step = h
and_then-Ends P Q unreferenced_data next h step = h
and_then-Ends P Q exceeded_target next h step = h
and_then-Ends P Q zero_content next h step = h
and_then-Ends P Q exhausted next h step = elim h [ ]

abbrev pub Sized : ℕ → Decoded (List ℕ) → Type 0
Sized n = Ends (λ out. length out ≡ n)

abbrev OfSize : ℕ → List ℕ × ℕ → Type 0
OfSize n r = length r.0 ≡ n

abbrev Partial : ℕ → Decoded (List ℕ × ℕ) → Type 0
Partial n = Ends (OfSize n)

length-zeros : (n : ℕ) → length (zeros n) ≡ n
length-zeros zero = refl
length-zeros (suc n) = rw (length-zeros n)

push-Partial : (b k n : ℕ) (r : Decoded (List ℕ × ℕ)) → Partial n r → Partial (suc n) (push b k r)
push-Partial b k n r h = and_then-Ends (OfSize n) (OfSize (suc n)) r _ h (λ x e. λ i. suc (e i))

advance-Partial : (k n : ℕ) (r : Decoded (List ℕ × ℕ)) → Partial n r → Partial n (advance k r)
advance-Partial k n r h = and_then-Ends (OfSize n) (OfSize n) r _ h (λ x e. e)

spread-Partial :
    (bits : List Bool) (room : ℕ) (input : List ℕ) → Partial room (spread bits room input)
spread-Partial [] room input = length-zeros room
spread-Partial (false ∷ bits) zero input = spread-Partial bits zero input
spread-Partial (false ∷ bits) (suc room) input =
    push-Partial 0 0 room _ (spread-Partial bits room input)
spread-Partial (true ∷ bits) room [] = tt
spread-Partial (true ∷ bits) zero (x ∷ input) = tt
spread-Partial (true ∷ bits) (suc room) (x ∷ input) = elim (Bool-cases (x == 0)) [
  | inl e ↦ rw e tt
  | inr e ↦ rw e (push-Partial x 1 room _ (spread-Partial bits room input))
]

distribute-Partial :
    (m n : ℕ) (input : List ℕ) (r : Decoded (List ℕ × ℕ))
    → Partial m r
    → Partial n (distribute n input r)
distribute-Partial m n input r h =
    and_then-Ends (OfSize m) (OfSize n) r _ h
      (λ s e. advance-Partial s.1 n _ (spread-Partial (unpack s.0) n (drop s.1 input)))

bitset_decode_partial-Partial :
    (fuel n : ℕ) (input : List ℕ) → n ≤ fuel → Partial n (bitset_decode_partial fuel input n)
unfolding bitset_decode_partial
bitset_decode_partial-Partial fuel zero input l = refl
bitset_decode_partial-Partial fuel (suc n) [] l = length-zeros (suc n)
bitset_decode_partial-Partial fuel (suc zero) (b ∷ input) l = elim (Bool-cases (b == 0)) [
  | inl e ↦ rw e refl
  | inr e ↦ rw e refl
]
bitset_decode_partial-Partial zero (suc (suc n)) (b ∷ input) l = ground arith
bitset_decode_partial-Partial (suc fuel) (suc (suc n)) (b ∷ input) l =
    distribute-Partial ((suc (suc n) + 7) / 8) (suc (suc n)) (b ∷ input) _
      (bitset_decode_partial-Partial fuel ((suc (suc n) + 7) / 8) (b ∷ input) (omega arith))

consumed-Sized : (m n : ℕ) (r : Decoded (List ℕ × ℕ)) → Partial n r → Sized n (consumed m r)
consumed-Sized m n r h =
    and_then-Ends (OfSize n) (λ out. length out ≡ n) r _ h
      (λ p e. elim (Bool-cases (p.1 == m)) [ inl t ↦ rw t e | inr t ↦ rw t tt ])

bitset_decode-Sized : (input : List ℕ) (target : ℕ) → Sized target (bitset_decode input target)
unfolding bitset_decode
bitset_decode-Sized input target =
    consumed-Sized (length input) target _
      (bitset_decode_partial-Partial target target input (omega arith))

-- Decompression ends: on any bytes and for any target it gives either an error of the source, or
-- exactly as many bytes as the target.
pub decompress_bytes-Sized :
    (input : List ℕ) (target : ℕ) → Sized target (decompress_bytes input target)
decompress_bytes-Sized input target = elim (Bool-cases (ltb target (length input))) [
  | inl e ↦ rw e tt
  | inr e ↦ elim (==_cases (length input) target) [
    | inl s ↦ rw (e, ap (λ n. n == target) s, ==_self target) s
    | inr s ↦ rw (e, s) (bitset_decode-Sized input target)
  ]
]
