-- ===== src/Trie/Lone.antt =====
-- The search for the single child of a full node (`delete`: trie/trie.go) finds it.
use mjoy_go.Base.{
  ℕ, zero, suc, ◌+◌, ◌<◌, ◌≤◌, ◌≡◌, true, false, Option, none, some, ◌==◌, if◌then◌else◌,
  Bool-cases, inl, inr, ap, ◌∙◌, sym, arith, subst,
}
use mjoy_go.Trie.Node.{
  Node, nil, value_node, short_node, full_node, hash_node, Children, end, child, at,
}
use mjoy_go.Trie.Change.{Lone, nobody, several, only, all_nil, lone_or, lone}
use mjoy_go.Trie.Find.{child_or_nil, Fits, FitsAll}
use mjoy_go.Trie.Short.{kid}
use mjoy_go.Trie.Kids.{later_at, kid-all_nil}

FitsAll-le : (j : ℕ) (cs : Children) → FitsAll j cs → j ≤ 17
unfolding FitsAll
FitsAll-le j end h = omega arith
FitsAll-le j (child n cs) (fits, all) = let less = FitsAll-le (suc j) cs all in omega arith

some_same : (n c : Node) → some n ≡ some c → n ≡ c
some_same n c h = ap of h
  where
    of : Option Node → Node
    of none = nil
    of (some m) = m

suc_zero : (y : ℕ) → (suc y == 0) ≡ false
suc_zero y = ground arith

suc-suc : (y x : ℕ) → (suc y == suc x) ≡ (y == x)
suc-suc y x = ground arith

-- A child that is there is in its place.
pub at-Fits :
    (j x i : ℕ) (c : Node) (cs : Children)
    → FitsAll j cs
    → at x cs ≡ some c
    → i ≡ j + x
    → (i < 17) × Fits (i == 16) c
unfolding FitsAll
at-Fits j x i c end all h e = cc
at-Fits j zero i c (child n cs) (fits, all) h e =
    let less = FitsAll-le (suc j) cs all in
    (
      omega arith,
      subst (λ t. Fits (t == 16) c) (omega arith) (subst (Fits (j == 16)) (some_same n c h) fits),
    )
at-Fits j (suc x) i c (child n cs) (fits, all) h e =
    at-Fits (suc j) x i c cs all (sym (later_at x n cs) ∙ h) (omega arith)

abbrev index_or : ℕ → Lone → ℕ
index_or j (only i c) = i
index_or j nobody = j
index_or j several = j

abbrev node_or : Node → Lone → Node
node_or n (only i c) = c
node_or n nobody = n
node_or n several = n

-- The place of the single child, and nothing elsewhere.
abbrev pub Single : ℕ → ℕ → Node → Children → Type 0
Single j i c cs =
    (x : ℕ) × (i ≡ j + x) × (at x cs ≡ some c) × ((y : ℕ) → kid y cs ≡ (if y == x then c else nil))

first-Single :
    (j i : ℕ) (c n : Node) (cs : Children)
    → lone_or (all_nil cs) j n ≡ only i c
    → Single j i c (child n cs)
first-Single j i c n cs h = elim (Bool-cases (all_nil cs)) [
  | inl e ↦
      let same : only j n ≡ only i c = rw e at h in
      let j_i : j ≡ i = ap (index_or 0) same in
      let n_c : n ≡ c = ap (node_or nil) same in (0, omega arith, λ k. some (n_c k), kids e n_c)
  | inr e ↦ let bad : several ≡ only i c = rw e at h in cc
]
  where
    kids : all_nil cs ≡ true → n ≡ c → (y : ℕ) → kid y (child n cs) ≡ (if y == 0 then c else nil)
    kids e n_c zero = n_c
    kids e n_c (suc y) =
        ap child_or_nil (later_at y n cs)
        ∙ kid-all_nil y cs e
        ∙ ap (λ b. if b then c else nil) (sym (suc_zero y))

pub lone-Single : (j i : ℕ) (c : Node) (cs : Children) → lone j cs ≡ only i c → Single j i c cs
lone-Single j i c end h = cc
lone-Single j i c (child nil cs) h =
    let (x, e, at_x, kids) = lone-Single (suc j) i c cs h in
    (suc x, omega arith, later_at x nil cs ∙ at_x, after_nil x kids)
  where
    after_nil :
        (x : ℕ)
        → ((y : ℕ) → kid y cs ≡ (if y == x then c else nil))
        → (y : ℕ) → kid y (child nil cs) ≡ (if y == suc x then c else nil)
    after_nil x kids zero = ground arith
    after_nil x kids (suc y) = rw (suc-suc y x) (ap child_or_nil (later_at y nil cs) ∙ kids y)
lone-Single j i c (child (value_node v) cs) h = first-Single j i c (value_node v) cs h
lone-Single j i c (child (short_node k d f) cs) h = first-Single j i c (short_node k d f) cs h
lone-Single j i c (child (full_node ds f) cs) h = first-Single j i c (full_node ds f) cs h
lone-Single j i c (child (hash_node g) cs) h = first-Single j i c (hash_node g) cs h
