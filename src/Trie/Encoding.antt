-- ===== src/Trie/Encoding.antt =====
-- The encodings of trie keys (trie/encoding.go): key bytes, hex nibbles with an optional terminator,
-- and the compact form. `none` is a panic.
use Prim.Native.Nat.{bit_or}
use mjoy_go.Base.{
  ℕ, suc, ◌-◌, ◌*◌, ◌/◌, ◌%◌, Bool, true, false, Option, none, some, List, [], ◌∷◌, ◌++◌, length,
  drop, leb, ◌==◌, if◌then◌else◌,
}

unfoldable pub has_term : List ℕ → Bool
has_term [] = false
has_term (x ∷ []) = x == 16
has_term (x ∷ y ∷ xs) = has_term (y ∷ xs)

-- `hex[:len(hex)-1]`
unfoldable pub init : List ℕ → List ℕ
init [] = []
init (x ∷ []) = []
init (x ∷ y ∷ xs) = x ∷ init (y ∷ xs)

-- `nibbles[ni]<<4 | nibbles[ni+1]`, a byte
abbrev pub join : ℕ → ℕ → ℕ
join n m = bit_or (n * 16 % 256) m

-- The callers pass an even number of nibbles.
unfoldable pub decode_nibbles : List ℕ → List ℕ
decode_nibbles [] = []
decode_nibbles (n ∷ []) = []
decode_nibbles (n ∷ m ∷ ns) = join n m ∷ decode_nibbles ns

abbrev pub is_odd : List ℕ → Bool
is_odd ns = length ns % 2 == 1

-- The flag byte, with the first nibble if their number is odd.
abbrev pub pack : ℕ → Bool → List ℕ → List ℕ
pack flag false ns = flag ∷ decode_nibbles ns
pack flag true [] = flag ∷ []
pack flag true (n ∷ ns) = bit_or (bit_or flag 16) n ∷ decode_nibbles ns

unfoldable pub hex_to_compact : List ℕ → List ℕ
hex_to_compact hex =
    let term : Bool = has_term hex in
    let ns : List ℕ = (if term then init hex else hex) in
    pack (if term then 32 else 0) (is_odd ns) ns

abbrev pub expand : List ℕ → List ℕ
expand [] = []
expand (b ∷ bs) = b / 16 ∷ b % 16 ∷ expand bs

unfoldable pub keybytes_to_hex : List ℕ → List ℕ
keybytes_to_hex str = expand str ++ 16 ∷ []

-- The terminator is put on, and the flag nibble taken off, with the padding if there is one.
abbrev pub unflag : List ℕ → Option (List ℕ)
unflag [] = none
unflag (b ∷ bs) = some (drop (2 - b % 2) (if leb 2 b then b ∷ bs ++ 16 ∷ [] else b ∷ bs))

unfoldable pub compact_to_hex : List ℕ → Option (List ℕ)
compact_to_hex compact = unflag (init (keybytes_to_hex compact))

unfoldable pub hex_to_keybytes : List ℕ → Option (List ℕ)
hex_to_keybytes hex =
    let ns : List ℕ = (if has_term hex then init hex else hex) in
    if is_odd ns then none else some (decode_nibbles ns)

unfoldable pub prefix_len : List ℕ → List ℕ → ℕ
prefix_len [] b = 0
prefix_len (x ∷ a) [] = 0
prefix_len (x ∷ a) (y ∷ b) = let rest : ℕ = prefix_len a b in if x == y then suc rest else 0
