-- ===== src/Trie/Merge.antt =====
-- How `delete` joins two short nodes (trie/trie.go).
use mjoy_go.Base.{
  ℕ, ◌≡◌, refl, Bool, true, false, some, List, [], ◌∷◌, ◌++◌, Option-cases, inl, inr,
}
use mjoy_go.State.Types.{Read}
use mjoy_go.Trie.Node.{Node, nil, value_node, short_node, full_node, hash_node}
use mjoy_go.Trie.Walk.{Changed, missing_node, panic, exhausted, done, strip, new_flag}
use mjoy_go.Trie.Change.{merge}
use mjoy_go.Trie.Find.{find, find_after, after, nonempty, Fits}
use mjoy_go.Trie.Keys.{strip-append, after-append}
use mjoy_go.Trie.Ends.{Ends, find-short_node}

pub nonempty_append : (k l : List ℕ) → nonempty k ≡ true → nonempty (k ++ l) ≡ true
nonempty_append [] l h = cc
nonempty_append (x ∷ k) l h = refl

-- A changed node, with no panic.
abbrev pub Reduces : (Node → Type 0) → (ℕ → Type 0) → Changed → Type 0
Reduces Right Miss (done (true, m)) = Right m
Reduces Right Miss (done (false, m)) = ⊥
Reduces Right Miss (missing_node h p) = Miss h
Reduces Right Miss panic = ⊥
Reduces Right Miss exhausted = ⊥

pub Reduces-Ends :
    (R S : Node → Type 0) (L M : ℕ → Type 0) (n : Node) (O : Type 0) (r : Changed)
    → ((m : Node) → R m → S m)
    → ((h : ℕ) → L h → M h)
    → Reduces R L r
    → Ends S n M O r
Reduces-Ends R S L M n O (done (true, m)) f g h = f m h
Reduces-Ends R S L M n O (done (false, m)) f g h = elim h [ ]
Reduces-Ends R S L M n O (missing_node l p) f g h = g l h
Reduces-Ends R S L M n O panic f g h = h
Reduces-Ends R S L M n O exhausted f g h = elim h [ ]

module _ (load : ℕ → Read Node) (gen : ℕ) where
  pub merge-Fits :
      (e e' : Bool) (k : List ℕ) (c : Node)
      → nonempty k ≡ true
      → after e k ≡ some e'
      → Fits e' c
      → Fits e (merge load gen k c)
  unfolding Fits
  merge-Fits e e' k nil h hk fits = (h, (e', hk, fits))
  merge-Fits e e' k (value_node v) h hk fits = (h, (e', hk, fits))
  merge-Fits e e' k (short_node l c f) h hk (some_l, (e'', hl, fits)) =
      (nonempty_append k l h, (e'', rw (after-append e k l, hk) hl, fits))
  merge-Fits e e' k (full_node cs f) h hk fits = (h, (e', hk, fits))
  merge-Fits e e' k (hash_node g) h hk fits = (h, (e', hk, fits))

  -- The merged node finds what the two found.
  pub find-merge :
      (e : Bool) (k : List ℕ) (c : Node) (q : List ℕ)
      → nonempty k ≡ true
      → Fits e c
      → find load q (merge load gen k c) ≡ find_after load (strip k q) c
  unfolding Fits
  find-merge e k nil q h fits = find-short_node load k nil (new_flag load gen) q h
  find-merge e k (value_node v) q h fits =
      find-short_node load k (value_node v) (new_flag load gen) q h
  find-merge e k (short_node l c f) q h (some_l, fits) =
      rw
        (
          find-short_node load (k ++ l) c (new_flag load gen) q (nonempty_append k l h),
          strip-append k l q,
        )
        (elim (Option-cases (strip k q)) [
          | inl s ↦ rw s
          | inr (r, s) ↦ rw (s, find-short_node load l c f r some_l) refl
        ])
  find-merge e k (full_node cs f) q h fits =
      find-short_node load k (full_node cs f) (new_flag load gen) q h
  find-merge e k (hash_node g) q h fits =
      find-short_node load k (hash_node g) (new_flag load gen) q h
