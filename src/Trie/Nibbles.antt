-- ===== src/Trie/Nibbles.antt =====
-- The encodings of trie keys (trie/encoding.go) lose nothing.
use Prim.Native.Nat.{bit_or}
use mjoy_go.Base.{
  ℕ, zero, suc, ◌+◌, ◌*◌, ◌/◌, ◌%◌, ◌<◌, ◌≡◌, refl, Bool, true, false, ◌&&◌, some, List, [], ◌∷◌,
  ◌++◌, ◌==◌, ==_iff, if◌then◌else◌, Bool-cases, inl, inr, ap, ◌∙◌, arith,
}
use mjoy_go.Trie.Encoding.{
  has_term, init, join, decode_nibbles, is_odd, pack, hex_to_compact, expand, keybytes_to_hex,
  unflag, compact_to_hex, hex_to_keybytes,
}

-- A test that holds below a bound, value by value.
all_below : ℕ → (ℕ → Bool) → Bool
all_below zero p = true
all_below (suc n) p = p n && all_below n p

all_below-holds : (n : ℕ) (p : ℕ → Bool) (x : ℕ) → all_below n p ≡ true → x < n → p x ≡ true
unfolding all_below
all_below-holds zero p x h lt = absurd (omega arith)
all_below-holds (suc n) p x h lt = ground (arith, all_below-holds n p x)

byte_table : all_below 256 (λ x. join (x / 16) (x % 16) == x) ≡ true
unfolding all_below
byte_table = refl

join-split : (x : ℕ) → x < 256 → join (x / 16) (x % 16) ≡ x
join-split x h =
    (==_iff _ x).0 (all_below-holds 256 (λ x. join (x / 16) (x % 16) == x) x byte_table h)

-- The first byte of a compact key of odd length.
odd_table :
    all_below 16 (λ n. (bit_or (bit_or 0 16) n == 16 + n) && (bit_or (bit_or 32 16) n == 48 + n))
    ≡ true
unfolding all_below
odd_table = refl

-- All of the list lie below the bound.
abbrev pub Below : ℕ → List ℕ → Type 0
Below k [] = Unit
Below k (n ∷ ns) = (n < k) × Below k ns

join-nibbles : (n m : ℕ) → n < 16 → m < 16 → join n m ≡ n * 16 + m
join-nibbles n m p q = high ∙ join-split (n * 16 + m) (omega arith)
  where
    high : join n m ≡ join ((n * 16 + m) / 16) ((n * 16 + m) % 16)
    high = λ i. join (upper i) (lower i)
      where
        upper : n ≡ (n * 16 + m) / 16
        upper = omega arith

        lower : m ≡ (n * 16 + m) % 16
        lower = omega arith

expand-decode : (ns : List ℕ) → Below 16 ns → is_odd ns ≡ false → expand (decode_nibbles ns) ≡ ns
unfolding decode_nibbles
expand-decode [] b e = refl
expand-decode (n ∷ []) b e = ground arith
expand-decode (n ∷ m ∷ ns) (p, (q, b)) e = λ i. upper i ∷ lower i ∷ expand-decode ns b even i
  where
    upper : join n m / 16 ≡ n
    upper = omega (arith, join-nibbles n m p q)

    lower : join n m % 16 ≡ m
    lower = omega (arith, join-nibbles n m p q)

    even : is_odd ns ≡ false
    even = ground arith

decode-expand : (k : List ℕ) → Below 256 k → decode_nibbles (expand k) ≡ k
unfolding decode_nibbles
decode-expand [] b = refl
decode-expand (x ∷ k) (p, b) = λ i. join-split x p i ∷ decode-expand k b i

init-last : (ns : List ℕ) (x : ℕ) → init (ns ++ x ∷ []) ≡ ns
unfolding init
init-last [] x = refl
init-last (n ∷ []) x = refl
init-last (n ∷ m ∷ ns) x = ap (◌∷◌ n) (init-last (m ∷ ns) x)

has_term-last : (ns : List ℕ) → has_term (ns ++ 16 ∷ []) ≡ true
unfolding has_term
has_term-last [] = refl
has_term-last (n ∷ []) = refl
has_term-last (n ∷ m ∷ ns) = has_term-last (m ∷ ns)

has_term-nibbles : (ns : List ℕ) → Below 16 ns → has_term ns ≡ false
unfolding has_term
has_term-nibbles [] b = refl
has_term-nibbles (n ∷ []) (p, _) = ground arith
has_term-nibbles (n ∷ m ∷ ns) (_, b) = has_term-nibbles (m ∷ ns) b

expand-is_odd : (k : List ℕ) → is_odd (expand k) ≡ false
expand-is_odd [] = refl
expand-is_odd (x ∷ k) = ground (arith, expand-is_odd k)

hex_to_keybytes-keybytes_to_hex :
    (k : List ℕ) → Below 256 k → hex_to_keybytes (keybytes_to_hex k) ≡ some k
unfolding hex_to_keybytes keybytes_to_hex
hex_to_keybytes-keybytes_to_hex k b =
    rw (has_term-last (expand k), init-last (expand k) 16, expand-is_odd k)
      (ap some (decode-expand k b))

odd_bytes :
    (n : ℕ) → n < 16 → (bit_or (bit_or 0 16) n ≡ 16 + n) × (bit_or (bit_or 32 16) n ≡ 48 + n)
odd_bytes n h =
    let both =
      all_below-holds 16
        (λ n. (bit_or (bit_or 0 16) n == 16 + n) && (bit_or (bit_or 32 16) n == 48 + n)) n odd_table
        h in
    ((==_iff _ _).0 (and_left _ _ both), (==_iff _ _).0 (and_right _ _ both))
  where
    and_left : (a b : Bool) → (a && b) ≡ true → a ≡ true
    and_left a b h = ground arith

    and_right : (a b : Bool) → (a && b) ≡ true → b ≡ true
    and_right a b h = ground arith

-- A compact key of nibbles, with the terminator or without.
abbrev pub flag_of : Bool → ℕ
flag_of term = if term then 32 else 0

abbrev pub ended : Bool → List ℕ → List ℕ
ended term ns = if term then ns ++ 16 ∷ [] else ns

unflag-even :
    (term : Bool) (ns : List ℕ)
    → Below 16 ns
    → is_odd ns ≡ false
    → unflag (expand (pack (flag_of term) false ns)) ≡ some (ended term ns)
unflag-even true ns b e = ap (λ x. some (x ++ 16 ∷ [])) (expand-decode ns b e)
unflag-even false ns b e = ap some (expand-decode ns b e)

unflag-odd :
    (term : Bool) (ns : List ℕ)
    → Below 16 ns
    → is_odd ns ≡ true
    → unflag (expand (pack (flag_of term) true ns)) ≡ some (ended term ns)
unflag-odd term [] b e = ground arith
unflag-odd true (n ∷ ns) (p, b) e = λ i. unflag (upper i ∷ lower i ∷ expand-decode ns b even i)
  where
    upper : bit_or (bit_or 32 16) n / 16 ≡ 3
    upper = omega (arith, (odd_bytes n p).1)

    lower : bit_or (bit_or 32 16) n % 16 ≡ n
    lower = omega (arith, (odd_bytes n p).1)

    even : is_odd ns ≡ false
    even = ground arith
unflag-odd false (n ∷ ns) (p, b) e = λ i. unflag (upper i ∷ lower i ∷ expand-decode ns b even i)
  where
    upper : bit_or (bit_or 0 16) n / 16 ≡ 1
    upper = omega (arith, (odd_bytes n p).0)

    lower : bit_or (bit_or 0 16) n % 16 ≡ n
    lower = omega (arith, (odd_bytes n p).0)

    even : is_odd ns ≡ false
    even = ground arith

pack-unflag :
    (term : Bool) (ns : List ℕ)
    → Below 16 ns
    → unflag (expand (pack (flag_of term) (is_odd ns) ns)) ≡ some (ended term ns)
pack-unflag term ns b = elim (Bool-cases (is_odd ns)) [
  | inl e ↦ rw e (unflag-odd term ns b e)
  | inr e ↦ rw e (unflag-even term ns b e)
]

compact_to_hex-hex_to_compact :
    (term : Bool) (ns : List ℕ)
    → Below 16 ns
    → compact_to_hex (hex_to_compact (ended term ns)) ≡ some (ended term ns)
unfolding compact_to_hex hex_to_compact keybytes_to_hex
compact_to_hex-hex_to_compact true ns b =
    rw (has_term-last ns, init-last ns 16)
      (ap unflag (init-last (expand (pack 32 (is_odd ns) ns)) 16) ∙ pack-unflag true ns b)
compact_to_hex-hex_to_compact false ns b =
    rw (has_term-nibbles ns b)
      (ap unflag (init-last (expand (pack 0 (is_odd ns) ns)) 16) ∙ pack-unflag false ns b)

-- The encodings of keys lose nothing. A hex key, of nibbles below 16 and with or without the
-- terminator, comes back from its compact form, whatever its length; and a key of bytes comes back
-- from its nibbles.
pub encodings_invert :
    (term : Bool) (ns k : List ℕ)
    → Below 16 ns
    → Below 256 k
    → (compact_to_hex (hex_to_compact (ended term ns)) ≡ some (ended term ns))
      × (hex_to_keybytes (keybytes_to_hex k) ≡ some k)
encodings_invert term ns k b c =
    (compact_to_hex-hex_to_compact term ns b, hex_to_keybytes-keybytes_to_hex k c)
