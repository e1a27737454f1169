-- ===== src/Bloom/Bits.antt =====
-- Bits that a number has, and numbers of so many bits.
use Prim.Native.Nat.{bit_and, bit_or, digits, bit_and-bitwise, bit_or-bitwise}
use native.Mathlib.Nat.{two-pow-succ}
use mjoy_go.Base.{ℕ, zero, suc, ◌+◌, ◌*◌, ◌/◌, ◌%◌, ◌^◌, ◌≤◌, ◌<◌, min, max, ◌≡◌, refl, arith}

-- Once there is a count for each digit, the count does not matter.
module _ (z : ℕ → ℕ) (f : ℕ → ℕ → ℕ) where
  digits_end : (n b : ℕ) → digits z f n 0 b ≡ z b
  digits_end zero b = refl
  digits_end (suc n) b = refl

  digits_count : (n m a b : ℕ) → a ≤ n → a ≤ m → digits z f n a b ≡ digits z f m a b
  digits_count n m zero b l k = rw (digits_end n b, digits_end m b)
  digits_count zero m (suc a) b l k = absurd (omega arith)
  digits_count (suc n) zero (suc a) b l k = absurd (omega arith)
  digits_count (suc n) (suc m) (suc a) b l k =
      rw (digits_count n m (suc a / 2) (b / 2) (omega arith) (omega arith))

-- The halves and the last bit.
pub bit_or_halves : (a b : ℕ) → bit_or a b ≡ 2 * bit_or (a / 2) (b / 2) + max (a % 2) (b % 2)
bit_or_halves zero b = omega (arith, bit_or-bitwise 0 b, bit_or-bitwise 0 (b / 2))
bit_or_halves (suc a) b = omega (
  arith,
  bit_or-bitwise (suc a) b,
  bit_or-bitwise (suc a / 2) (b / 2),
  digits_count (λ y. y) max a (suc a / 2) (suc a / 2) (b / 2) (omega arith) (omega arith),
)

pub bit_and_halves : (a b : ℕ) → bit_and a b ≡ 2 * bit_and (a / 2) (b / 2) + min (a % 2) (b % 2)
bit_and_halves zero b = omega (arith, bit_and-bitwise 0 b, bit_and-bitwise 0 (b / 2))
bit_and_halves (suc a) b = omega (
  arith,
  bit_and-bitwise (suc a) b,
  bit_and-bitwise (suc a / 2) (b / 2),
  digits_count (λ y. 0) min a (suc a / 2) (suc a / 2) (b / 2) (omega arith) (omega arith),
)

and_bound_upto : (n a b : ℕ) → a ≤ n → bit_and a b ≤ b
and_bound_upto n zero b l = omega (arith, bit_and-bitwise 0 b)
and_bound_upto zero (suc a) b l = absurd (omega arith)
and_bound_upto (suc n) (suc a) b l =
    omega (arith, bit_and_halves (suc a) b, and_bound_upto n (suc a / 2) (b / 2) (omega arith))

pub and_bound : (a b : ℕ) → bit_and a b ≤ b
and_bound a b = and_bound_upto a a b (omega arith)

-- What a number has of `c`, it has with more bits too.
or_keeps_upto : (n x y c : ℕ) → c ≤ n → bit_and x c ≡ c → bit_and (bit_or x y) c ≡ c
or_keeps_upto n x y zero l h = omega (arith, and_bound (bit_or x y) 0)
or_keeps_upto zero x y (suc c) l h = absurd (omega arith)
or_keeps_upto (suc n) x y (suc c) l h =
    let half : bit_or x y / 2 ≡ bit_or (x / 2) (y / 2) = omega (arith, bit_or_halves x y) in
    let inner : bit_and (x / 2) (suc c / 2) ≡ suc c / 2 =
      omega (arith, bit_and_halves x (suc c), and_bound (x / 2) (suc c / 2)) in
    let rest : bit_and (bit_or x y / 2) (suc c / 2) ≡ suc c / 2 =
      rw half (or_keeps_upto n (x / 2) (y / 2) (suc c / 2) (omega arith) inner) in
    let last : min (bit_or x y % 2) (suc c % 2) ≡ suc c % 2 =
      omega (arith, bit_or_halves x y, bit_and_halves x (suc c), inner) in
    omega (arith, bit_and_halves (bit_or x y) (suc c), rest, last)

pub or_keeps : (x y c : ℕ) → bit_and x c ≡ c → bit_and (bit_or x y) c ≡ c
or_keeps x y c h = or_keeps_upto c x y c (omega arith) h

or_adds_upto : (n x y : ℕ) → y ≤ n → bit_and (bit_or x y) y ≡ y
or_adds_upto n x zero l = omega (arith, and_bound (bit_or x 0) 0)
or_adds_upto zero x (suc y) l = absurd (omega arith)
or_adds_upto (suc n) x (suc y) l =
    let half : bit_or x (suc y) / 2 ≡ bit_or (x / 2) (suc y / 2) =
      omega (arith, bit_or_halves x (suc y)) in
    let rest : bit_and (bit_or x (suc y) / 2) (suc y / 2) ≡ suc y / 2 =
      rw half (or_adds_upto n (x / 2) (suc y / 2) (omega arith)) in
    let last : min (bit_or x (suc y) % 2) (suc y % 2) ≡ suc y % 2 =
      omega (arith, bit_or_halves x (suc y)) in
    omega (arith, bit_and_halves (bit_or x (suc y)) (suc y), rest, last)

pub or_adds : (x y : ℕ) → bit_and (bit_or x y) y ≡ y
or_adds x y = or_adds_upto y x y (omega arith)

-- Two numbers of `k` bits have no more bits together.
pub or_bound : (k a b : ℕ) → a < 2 ^ k → b < 2 ^ k → bit_or a b < 2 ^ k
or_bound zero zero zero p q = omega (arith, bit_or-bitwise 0 0)
or_bound zero (suc a) b p q = absurd (omega arith)
or_bound zero zero (suc b) p q = absurd (omega arith)
or_bound (suc k) a b p q =
    let twice = two-pow-succ k in
    omega (arith, bit_or_halves a b, or_bound k (a / 2) (b / 2) (omega arith) (omega arith), twice)
