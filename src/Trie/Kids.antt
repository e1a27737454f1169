-- ===== src/Trie/Kids.antt =====
-- The children of a full node (trie/trie.go): in their place before and after one is replaced.
use mjoy_go.Base.{
  ℕ, zero, suc, ◌+◌, ◌-◌, ◌<◌, ◌≡◌, refl, true, some, ◌==◌, ==_cases, ==_self, if◌then◌else◌,
  Bool-cases, inl, inr, ◌∙◌, sym, arith, subst,
}
use mjoy_go.Trie.Node.{
  Node, nil, value_node, short_node, full_node, hash_node, Children, end, child, at, put,
}
use mjoy_go.Trie.Change.{all_nil}
use mjoy_go.Trie.Find.{Fits, FitsAll}
use mjoy_go.Trie.Short.{kid, at-put}

pub kid-put :
    (i x : ℕ) (m old : Node) (cs : Children)
    → at i cs ≡ some old
    → kid x (put i m cs) ≡ (if x == i then m else kid x cs)
kid-put i x m old cs h = elim (Bool-cases (x == i)) [
  | inl e ↦ rw (at-put i x m old cs h, e)
  | inr e ↦ rw (at-put i x m old cs h, e)
]

pub kid_self :
    (i x : ℕ) (c : Node) (cs : Children)
    → at i cs ≡ some c
    → kid x cs ≡ (if x == i then c else kid x cs)
kid_self i x c cs h = elim (==_cases x i) [ inl e ↦ rw (e, ==_self i, h) | inr e ↦ rw e ]

unit_or : (n : Node) (cs : Children) → all_nil (child n cs) ≡ true → (n ≡ nil) × (all_nil cs ≡ true)
unit_or nil cs h = (refl, h)
unit_or (value_node v) cs h = cc
unit_or (short_node k c f) cs h = cc
unit_or (full_node ds f) cs h = cc
unit_or (hash_node g) cs h = cc

pub kid-all_nil : (x : ℕ) (cs : Children) → all_nil cs ≡ true → kid x cs ≡ nil
kid-all_nil x end h = refl
kid-all_nil x (child n cs) h =
    let (e, all) = unit_or n cs h in
    elim (Bool-cases (x == 0)) [ inl z ↦ rw z e | inr z ↦ rw z (kid-all_nil (x - 1) cs all) ]

pub later_at : (x : ℕ) (n : Node) (cs : Children) → at (suc x) (child n cs) ≡ at x cs
later_at x n cs = ground arith

later_put : (x : ℕ) (m n : Node) (cs : Children) → put (suc x) m (child n cs) ≡ child n (put x m cs)
later_put x m n cs = ground arith

-- Every index of a full node has a child, in its place.
pub at-FitsAll :
    (j x i : ℕ) (cs : Children)
    → FitsAll j cs
    → i ≡ j + x
    → i < 17
    → (c : Node) × (at x cs ≡ some c) × Fits (i == 16) c
unfolding FitsAll
at-FitsAll j x i end h e b = let bad : ⊥ = omega arith in elim bad [ ]
at-FitsAll j zero i (child n cs) (fits, all) e b =
    (n, refl, subst (λ t. Fits (t == 16) n) (omega arith) fits)
at-FitsAll j (suc x) i (child n cs) (fits, all) e b =
    let (c, at_c, fit) = at-FitsAll (suc j) x i cs all (omega arith) b in
    (c, later_at x n cs ∙ at_c, fit)

pub put-FitsAll :
    (j x i : ℕ) (m : Node) (cs : Children)
    → FitsAll j cs
    → i ≡ j + x
    → Fits (i == 16) m
    → FitsAll j (put x m cs)
unfolding FitsAll
put-FitsAll j x i m end h e f = h
put-FitsAll j zero i m (child n cs) (fits, all) e f =
    (subst (λ t. Fits (t == 16) m) (omega arith) f, all)
put-FitsAll j (suc x) i m (child n cs) (fits, all) e f =
    subst (FitsAll j) (sym (later_put x m n cs))
      (fits, put-FitsAll (suc j) x i m cs all (omega arith) f)
