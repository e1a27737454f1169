-- ===== src/Trie/Tests.antt =====
-- Keys at concrete nibbles, and the theorems at inputs that meet their hypotheses.
use mjoy_go.Base.{ℕ, ◌≤◌, ◌≡◌, true, some, List, [], ◌∷◌, length, take, get_elem?, arith}
use mjoy_go.Trie.Encoding.{
  hex_to_compact, compact_to_hex, keybytes_to_hex, hex_to_keybytes, prefix_len,
}
use mjoy_go.Trie.Nibbles.{ended, encodings_invert}
use mjoy_go.Trie.Prefix.{Parts, prefix_len-Parts}

abbrev key : List ℕ
key = 18 ∷ 255 ∷ 0 ∷ []

abbrev nibbles : List ℕ
nibbles = 1 ∷ 15 ∷ 7 ∷ []

encodings_invert_example :
    (compact_to_hex (hex_to_compact (ended true nibbles)) ≡ some (ended true nibbles))
    × (hex_to_keybytes (keybytes_to_hex key) ≡ some key)
encodings_invert_example =
    encodings_invert true nibbles key (omega arith, (omega arith, (omega arith, tt)))
      (omega arith, (omega arith, (omega arith, tt)))

prefix_len-Parts_example :
    (prefix_len key nibbles ≤ length key)
    × (prefix_len key nibbles ≤ length nibbles)
    × (take (prefix_len key nibbles) key ≡ take (prefix_len key nibbles) nibbles)
    × Parts (get_elem? key (prefix_len key nibbles)) (get_elem? nibbles (prefix_len key nibbles))
prefix_len-Parts_example = prefix_len-Parts key nibbles
