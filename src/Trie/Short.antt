-- ===== src/Trie/Short.antt =====
-- Finding behind the nodes that trie/trie.go makes: short nodes, branches, values, loaded nodes.
use mjoy_go.Base.{
  ℕ, ◌-◌, ◌≡◌, refl, Bool, false, Option, none, some, List, [], ◌∷◌, ◌==◌, if◌then◌else◌,
  Bool-cases, inl, inr, arith,
}
use mjoy_go.State.Types.{Read, entry}
use mjoy_go.Trie.Node.{
  Flag, Node, nil, value_node, short_node, full_node, hash_node, Children, end, child, at, put,
}
use mjoy_go.Trie.Walk.{equal, strip, new_flag}
use mjoy_go.Trie.Change.{lead_to}
use mjoy_go.Trie.Find.{Found, found, find, find_after, child_or_nil, is_hash}

-- The answer at a key after another has been given a value, or none.
abbrev pub updated : Bool → Option (List ℕ) → Found → Found
updated same v old = if same then found v else old

-- The child at an index, with nil out of range.
abbrev pub kid : ℕ → Children → Node
kid x cs = child_or_nil (at x cs)

pub at-put :
    (i x : ℕ) (m old : Node) (cs : Children)
    → at i cs ≡ some old
    → at x (put i m cs) ≡ (if x == i then some m else at x cs)
at-put i x m old end h = cc
at-put i x m old (child n cs) h = elim (Bool-cases (i == 0)) [
  | inl e ↦ ground arith
  | inr e ↦ ground (arith, at-put (i - 1) (x - 1) m old cs)
]

module _ (load : ℕ → Read Node) where
  pub find-nil : (key : List ℕ) → find load key nil ≡ found none
  unfolding find
  find-nil [] = refl
  find-nil (x ∷ key) = find-nil key

  pub find-value :
      (key : List ℕ) (v : List ℕ)
      → find load key (value_node v) ≡ updated (equal key []) (some v) (found none)
  unfolding find
  find-value [] v = refl
  find-value (x ∷ key) v = find-nil key

  pub find-short :
      (y : ℕ) (k : List ℕ) (c : Node) (f : Flag) (key : List ℕ)
      → find load key (short_node (y ∷ k) c f) ≡ find_after load (strip (y ∷ k) key) c
  unfolding find
  find-short y k c f [] = refl
  find-short y [] c f (x ∷ key) = elim (Bool-cases (x == y)) [
    | inl e ↦ rw e
    | inr e ↦ rw e (find-nil key)
  ]
  find-short y (z ∷ k) c f (x ∷ key) = elim (Bool-cases (x == y)) [
    | inl e ↦ rw e (find-short z k c f key)
    | inr e ↦ rw e (find-nil key)
  ]

  pub find-lead_to :
      (gen : ℕ) (k : List ℕ) (c : Node) (key : List ℕ)
      → find load key (lead_to load gen k c) ≡ find_after load (strip k key) c
  find-lead_to gen [] c key = refl
  find-lead_to gen (y ∷ k) c key = find-short y k c (new_flag load gen) key

  pub find-full :
      (x : ℕ) (key : List ℕ) (cs : Children) (f : Flag)
      → find load (x ∷ key) (full_node cs f) ≡ find load key (kid x cs)
  unfolding find
  find-full x key cs f = refl

  -- A node of the database is read as if it stood in the trie.
  pub find-hash :
      (x : ℕ) (key : List ℕ) (h : ℕ) (n : Node)
      → load h ≡ entry n
      → is_hash n ≡ false
      → find load (x ∷ key) (hash_node h) ≡ find load (x ∷ key) n
  unfolding find
  find-hash x key h nil e p = rw (e, find)
  find-hash x key h (value_node v) e p = rw (e, find)
  find-hash x key h (short_node k c f) e p = rw (e, find)
  find-hash x key h (full_node cs f) e p = rw (e, find)
  find-hash x key h (hash_node g) e p = cc
