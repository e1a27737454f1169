-- ===== src/Trie/Bytes.antt =====
-- Keys of bytes as keys of nibbles (trie/encoding.go, `keybytesToHex`).
use mjoy_go.Base.{
  ℕ, ◌/◌, ◌%◌, ◌≡◌, ◌≢◌, refl, Bool, true, false, some, List, [], ◌∷◌, lt→ltb, ◌==◌, ==_cases,
  ==_self, ==_ne, if◌then◌else◌, inl, inr, ◌∙◌, sym, arith, subst,
}
use mjoy_go.Trie.Encoding.{keybytes_to_hex}
use mjoy_go.Trie.Nibbles.{Below}
use mjoy_go.Trie.Walk.{equal}
use mjoy_go.Trie.Find.{after}

-- The key of a value ends where its nibbles do.
pub keybytes_to_hex-ended :
    (key : List ℕ) → Below 256 key → after false (keybytes_to_hex key) ≡ some true
unfolding keybytes_to_hex
keybytes_to_hex-ended [] b = refl
keybytes_to_hex-ended (x ∷ key) (small, b) =
    rw
      (
        lt→ltb (x / 16) 17 (omega arith),
        ==_ne (x / 16) 16 (omega arith),
        lt→ltb (x % 16) 17 (omega arith),
        ==_ne (x % 16) 16 (omega arith),
      )
      (keybytes_to_hex-ended key b)

ne_of : (x y : ℕ) → (x == y) ≡ false → x ≢ y
ne_of x y h e = let bad : true ≡ false = sym (==_self y) ∙ subst (λ z. (z == y) ≡ false) e h in cc

low_ne : (x y : ℕ) → (x == y) ≡ false → x / 16 ≡ y / 16 → (x % 16 == y % 16) ≡ false
low_ne x y h high = let apart = ne_of x y h in ==_ne (x % 16) (y % 16) (λ low. apart (omega arith))

lazy : (b : Bool) → (if b then false else false) ≡ false
lazy true = refl
lazy false = refl

-- Keys are equal as nibbles where they are as bytes.
pub keybytes_to_hex-equal :
    (k l : List ℕ)
    → Below 256 k
    → Below 256 l
    → equal (keybytes_to_hex k) (keybytes_to_hex l) ≡ equal k l
unfolding keybytes_to_hex
keybytes_to_hex-equal [] [] b c = refl
keybytes_to_hex-equal [] (y ∷ l) b (small, c) = rw (==_ne 16 (y / 16) (omega arith)) refl
keybytes_to_hex-equal (x ∷ k) [] (small, b) c = rw (==_ne (x / 16) 16 (omega arith)) refl
keybytes_to_hex-equal (x ∷ k) (y ∷ l) (small, b) (small', c) = elim (==_cases x y) [
  | inl e ↦ rw (e, ==_self y, ==_self (y / 16), ==_self (y % 16)) (keybytes_to_hex-equal k l b c)
  | inr e ↦ elim (==_cases (x / 16) (y / 16)) [
    | inl high ↦ rw (e, low_ne x y e high) (lazy (x / 16 == y / 16))
    | inr high ↦ rw (e, high)
  ]
]
