-- ===== src/Bitutil/Bits.antt =====
-- Packed bits (common/bitutil/compress.go).
use mjoy_go.Base.{
  ℕ, zero, suc, ◌+◌, ◌/◌, ◌%◌, ◌≤◌, ◌≡◌, refl, Bool, true, false, List, [], ◌∷◌, length, ◌==◌,
  arith,
}
use mjoy_go.Bitutil.Compress.{bit, byte, pack_bits, unpack}

abbrev pub falses : ℕ → List Bool
falses zero = []
falses (suc k) = false ∷ falses k

bit_bound : (b : Bool) → bit b ≤ 1
bit_bound true = omega arith
bit_bound false = omega arith

bit_test : (b : Bool) (x : ℕ) → x ≡ bit b → (x == 1) ≡ b
bit_test true x e = rw e
bit_test false x e = rw e

digits :
    (a b c d e f g h : Bool)
    → ((byte a b c d e f g h) / 128 % 2 ≡ bit a)
      × ((byte a b c d e f g h) / 64 % 2 ≡ bit b)
      × ((byte a b c d e f g h) / 32 % 2 ≡ bit c)
      × ((byte a b c d e f g h) / 16 % 2 ≡ bit d)
      × ((byte a b c d e f g h) / 8 % 2 ≡ bit e)
      × ((byte a b c d e f g h) / 4 % 2 ≡ bit f)
      × ((byte a b c d e f g h) / 2 % 2 ≡ bit g)
      × ((byte a b c d e f g h) / 1 % 2 ≡ bit h)
unfolding byte
digits a b c d e f g h =
    let ba = bit_bound a in
    let bb = bit_bound b in
    let bc = bit_bound c in
    let bd = bit_bound d in
    let be = bit_bound e in
    let bf = bit_bound f in
    let bg = bit_bound g in
    let bh = bit_bound h in
    (
      omega arith,
      omega arith,
      omega arith,
      omega arith,
      omega arith,
      omega arith,
      omega arith,
      omega arith,
    )

pub unpack-byte :
    (a b c d e f g h : Bool) (xs : List ℕ)
    → unpack (byte a b c d e f g h ∷ xs) ≡ a ∷ b ∷ c ∷ d ∷ e ∷ f ∷ g ∷ h ∷ unpack xs
unfolding unpack
unpack-byte a b c d e f g h xs =
    let ds = digits a b c d e f g h in
    λ i.
      bit_test a _ (ds.0) i
      ∷ bit_test b _ (ds.1) i
      ∷ bit_test c _ (ds.2) i
      ∷ bit_test d _ (ds.3) i
      ∷ bit_test e _ (ds.4) i
      ∷ bit_test f _ (ds.5) i
      ∷ bit_test g _ (ds.6) i
      ∷ bit_test h _ (ds.7) i
      ∷ unpack xs

pub length-pack_bits : (bits : List Bool) → length (pack_bits bits) ≡ (length bits + 7) / 8
unfolding pack_bits
length-pack_bits [] = refl
length-pack_bits (a ∷ []) = refl
length-pack_bits (a ∷ b ∷ []) = refl
length-pack_bits (a ∷ b ∷ c ∷ []) = refl
length-pack_bits (a ∷ b ∷ c ∷ d ∷ []) = refl
length-pack_bits (a ∷ b ∷ c ∷ d ∷ e ∷ []) = refl
length-pack_bits (a ∷ b ∷ c ∷ d ∷ e ∷ f ∷ []) = refl
length-pack_bits (a ∷ b ∷ c ∷ d ∷ e ∷ f ∷ g ∷ []) = refl
length-pack_bits (a ∷ b ∷ c ∷ d ∷ e ∷ f ∷ g ∷ h ∷ bits) =
    let r : length (pack_bits bits) ≡ (length bits + 7) / 8 = length-pack_bits bits in omega arith
