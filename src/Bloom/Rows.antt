-- ===== src/Bloom/Rows.antt =====
-- One bit of a row is set (utils/bloom/generator.go).
use Prim.Native.Nat.{bit_and, bit_or}
use native.Mathlib.Nat.{two-pow-succ, one-le-pow}
use mjoy_go.Base.{
  ℕ, zero, suc, ◌-◌, ◌*◌, ◌/◌, ◌%◌, ◌^◌, ◌≤◌, ◌<◌, ◌≡◌, refl, Bool, true, false, not, Option, none,
  some, List, [], ◌∷◌, length, get_elem?, ◌==◌, ==_self, ==_cases, ==_iff, if◌then◌else◌, inl, inr,
  ap, ◌∙◌, sym, arith,
}
use mjoy_go.Bloom.Bits.{bit_and_halves, bit_or_halves, and_bound, or_adds}
use mjoy_go.Bloom.Generator.{test_mask, or_byte, set_bit}

or_zero_upto : (n a : ℕ) → a ≤ n → bit_or a 0 ≡ a
or_zero_upto n zero l = omega (arith, bit_or_halves 0 0)
or_zero_upto zero (suc a) l = absurd (omega arith)
or_zero_upto (suc n) (suc a) l =
    omega (arith, bit_or_halves (suc a) 0, or_zero_upto n (suc a / 2) (omega arith))

-- The halves and the last bits of a number with a bit more.
or_half :
    (m x : ℕ)
    → (bit_or x (2 ^ suc m) / 2 ≡ bit_or (x / 2) (2 ^ m)) × (bit_or x (2 ^ suc m) % 2 ≡ x % 2)
or_half m x =
    let twice = two-pow-succ m in
    let half : 2 ^ suc m / 2 ≡ 2 ^ m = omega arith in
    let split = rw half at (bit_or_halves x (2 ^ suc m)) in (omega arith, omega arith)

and_half : (n x : ℕ) → bit_and x (2 ^ suc n) ≡ 2 * bit_and (x / 2) (2 ^ n)
and_half n x =
    let twice = two-pow-succ n in
    let half : 2 ^ suc n / 2 ≡ 2 ^ n = omega arith in
    let split = rw half at (bit_and_halves x (2 ^ suc n)) in omega arith

-- Another bit of a number is as it was.
other_bit : (m n x : ℕ) → (m == n) ≡ false → bit_and (bit_or x (2 ^ m)) (2 ^ n) ≡ bit_and x (2 ^ n)
other_bit zero zero x h = ground arith
other_bit zero (suc n) x h =
    let half : bit_or x 1 / 2 ≡ x / 2 =
      omega (arith, bit_or_halves x 1, or_zero_upto (x / 2) (x / 2) (omega arith)) in
    and_half n (bit_or x 1) ∙ ap (λ y. 2 * bit_and y (2 ^ n)) half ∙ sym (and_half n x)
other_bit (suc m) zero x h = omega (
  arith,
  bit_and_halves (bit_or x (2 ^ suc m)) 1,
  bit_and_halves x 1,
  and_bound (bit_or x (2 ^ suc m) / 2) 0,
  and_bound (x / 2) 0,
  (or_half m x).1,
)
other_bit (suc m) (suc n) x h =
    and_half n (bit_or x (2 ^ suc m))
    ∙ ap (λ y. 2 * bit_and y (2 ^ n)) (or_half m x).0
    ∙ ap (λ y. 2 * y) (other_bit m n (x / 2) (ground (arith, h)))
    ∙ sym (and_half n x)

same_bit : (m x : ℕ) → test_mask (bit_or x (2 ^ m)) m ≡ true
same_bit m x =
    let some_bit : 1 ≤ 2 ^ m = one-le-pow m 2 (omega arith) in rw (or_adds x (2 ^ m)) (ground arith)

-- The bit of a row: that of its byte.
abbrev pub byte_has : ℕ → Option ℕ → Bool
byte_has m none = false
byte_has m (some x) = test_mask x m

abbrev pub row_has : ℕ → List ℕ → Bool
row_has k row = byte_has (7 - k % 8) (get_elem? row (k / 8))

-- A byte of a row where one byte has a bit more.
abbrev altered : Bool → ℕ → Option ℕ → Option ℕ
altered b m none = none
altered b m (some x) = some (if b then bit_or x (2 ^ m) else x)

unaltered : (m : ℕ) (x : Option ℕ) → x ≡ altered false m x
unaltered m none = refl
unaltered m (some x) = refl

get_elem?-or_byte :
    (i j m : ℕ) (row : List ℕ)
    → get_elem? (or_byte j m row) i ≡ altered (i == j) m (get_elem? row i)
get_elem?-or_byte i j m [] = refl
get_elem?-or_byte zero zero m (x ∷ row) = refl
get_elem?-or_byte (suc i) zero m (x ∷ row) =
    let e : (suc i == 0) ≡ false = ground arith in rw e (unaltered m (get_elem? row i))
get_elem?-or_byte zero (suc j) m (x ∷ row) = let e : (0 == suc j) ≡ false = ground arith in rw e
get_elem?-or_byte (suc i) (suc j) m (x ∷ row) =
    let e : (suc i == suc j) ≡ (i == j) = ground arith in rw e (get_elem?-or_byte i j m row)

pub length-or_byte : (j m : ℕ) (row : List ℕ) → length (or_byte j m row) ≡ length row
length-or_byte j m [] = refl
length-or_byte zero m (x ∷ row) = refl
length-or_byte (suc j) m (x ∷ row) = ap suc (length-or_byte j m row)

get_elem?-in_range : (row : List ℕ) (i : ℕ) → i < length row → (x : ℕ) × (get_elem? row i ≡ some x)
get_elem?-in_range [] i l = absurd (omega arith)
get_elem?-in_range (x ∷ row) zero l = (x, refl)
get_elem?-in_range (x ∷ row) (suc i) l = get_elem?-in_range row i (omega arith)

-- A byte with one bit more, seen at a bit.
byte_has-altered :
    (k j : ℕ) (x : ℕ)
    → byte_has (7 - k % 8) (altered (k / 8 == j / 8) (7 - j % 8) (some x))
      ≡ (if k == j then true else test_mask x (7 - k % 8))
byte_has-altered k j x = elim (==_cases (k / 8) (j / 8)) [
  | inl e ↦ elim (==_cases (7 - j % 8) (7 - k % 8)) [
    | inl f ↦
        let same : (k == j) ≡ true = (==_iff k j).1 (omega arith) in
        rw (e, ==_self (j / 8), same, f) (same_bit (7 - k % 8) x)
    | inr f ↦
        let differ : (k == j) ≡ false = ground arith in
        rw (e, ==_self (j / 8), differ)
          (ap (λ y. not (y == 0)) (other_bit (7 - j % 8) (7 - k % 8) x f))
  ]
  | inr e ↦ let differ : (k == j) ≡ false = ground arith in rw (e, differ)
]

pub row_has-set_bit :
    (k j : ℕ) (row : List ℕ)
    → k / 8 < length row
    → row_has k (set_bit j row) ≡ (if k == j then true else row_has k row)
row_has-set_bit k j row l =
    let (x, there) = get_elem?-in_range row (k / 8) l in
    rw (get_elem?-or_byte (k / 8) (j / 8) (7 - j % 8) row, there) (byte_has-altered k j x)
