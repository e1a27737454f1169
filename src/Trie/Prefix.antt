-- ===== src/Trie/Prefix.antt =====
-- `prefixLen` (trie/encoding.go) finds the longest common prefix.
use mjoy_go.Base.{
  ℕ, ◌≤◌, ◌≡◌, refl, false, Option, none, some, List, [], ◌∷◌, length, take, get_elem?, ◌==◌,
  ==_cases, ==_self, inl, inr, ap, arith,
}
use mjoy_go.Trie.Encoding.{prefix_len}

-- Both keys go on at the place, with different nibbles; or one of them ends there.
abbrev pub Parts : Option ℕ → Option ℕ → Type 0
Parts (some x) (some y) = (x == y) ≡ false
Parts (some x) none = Unit
Parts none y = Unit

-- `prefixLen` is at most the length of either key; the keys agree on as many nibbles, and there one
-- of them ends or they differ.
pub prefix_len-Parts :
    (a b : List ℕ)
    → (prefix_len a b ≤ length a)
      × (prefix_len a b ≤ length b)
      × (take (prefix_len a b) a ≡ take (prefix_len a b) b)
      × Parts (get_elem? a (prefix_len a b)) (get_elem? b (prefix_len a b))
unfolding prefix_len
prefix_len-Parts [] b = (omega arith, omega arith, refl, tt)
prefix_len-Parts (x ∷ a) [] = (omega arith, omega arith, refl, tt)
prefix_len-Parts (x ∷ a) (y ∷ b) = elim (==_cases x y) [
  | inl e ↦
      let (low, high, same, parts) = prefix_len-Parts a b in
      rw (e, ==_self y) (omega arith, omega arith, ap (◌∷◌ y) same, parts)
  | inr e ↦ rw e (omega arith, omega arith, refl, e)
]
