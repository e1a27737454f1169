-- ===== src/Trie/Alike.antt =====
-- Nodes that answer the same keys alike, from a child to its parent (trie/trie.go, `tryGet`).
use mjoy_go.Base.{
  ℕ, ◌≡◌, refl, Bool, true, false, some, List, [], ◌∷◌, ◌++◌, ◌==◌, ==_cases, ==_self, Option-cases,
  inl, inr, ◌∙◌, sym, arith, subst,
}
use mjoy_go.State.Types.{Read, entry}
use mjoy_go.Trie.Node.{Flag, Node, short_node, full_node, hash_node, Children, at, put}
use mjoy_go.Trie.Walk.{strip}
use mjoy_go.Trie.Find.{find, after, nonempty, is_hash, Fits, FitsAll}
use mjoy_go.Trie.Keys.{after-append, strip_sound}
use mjoy_go.Trie.Short.{find-full, find-hash}
use mjoy_go.Trie.Kids.{kid-put, put-FitsAll}
use mjoy_go.Trie.Ends.{Same, find-short_node, after-tail}

module _ (load : ℕ → Read Node) where
  pub Same-self : (e : Bool) (n : Node) → Fits e n → Same load e n n
  Same-self e n fits = (fits, λ q hq. refl)

  pub short-Same :
      (e e' : Bool) (k : List ℕ) (c c' : Node) (f g : Flag)
      → nonempty k ≡ true
      → after e k ≡ some e'
      → Same load e' c c'
      → Same load e (short_node k c f) (short_node k c' g)
  unfolding Fits
  short-Same e e' k c c' f g some_k hk (fits, same) = (
    (some_k, (e', hk, fits)),
    λ q hq.
        rw (find-short_node load k c' g q some_k, find-short_node load k c f q some_k)
          (elim (Option-cases (strip k q)) [
            | inl s ↦ rw s
            | inr (r, s) ↦ rw s (
                same r (
                  let whole : after e (k ++ r) ≡ some true = rw (strip_sound k q r s) at hq in
                  rw (after-append e k r, hk) at whole))
          ]),
  )

  pub full-Same :
      (x : ℕ) (c c' : Node) (cs : Children) (f g : Flag)
      → FitsAll 0 cs
      → at x cs ≡ some c
      → Same load (x == 16) c c'
      → Same load false (full_node cs f) (full_node (put x c' cs) g)
  unfolding Fits
  full-Same x c c' cs f g all hx (fits, same) =
      ((refl, put-FitsAll 0 x x c' cs all (omega arith) fits), one)
    where
      one :
          (q : List ℕ)
          → after false q ≡ some true
          → find load q (full_node (put x c' cs) g) ≡ find load q (full_node cs f)
      one [] hq = cc
      one (y ∷ q) hq =
          let (small, hq') = after-tail y q true hq in
          rw (find-full load y q (put x c' cs) g, find-full load y q cs f, kid-put x y c' c cs hx)
            (elim (==_cases y x) [
              | inl e ↦
                  rw (e, ==_self x, hx) (same q (subst (λ t. after (t == 16) q ≡ some true) e hq'))
              | inr e ↦ rw e
            ])

  pub hash-Same :
      (h : ℕ) (n m : Node)
      → load h ≡ entry n
      → is_hash n ≡ false
      → Same load false n m
      → Same load false (hash_node h) m
  hash-Same h n m e flat (fits, same) = (fits, one)
    where
      one : (q : List ℕ) → after false q ≡ some true → find load q m ≡ find load q (hash_node h)
      one [] hq = cc
      one (y ∷ q) hq = same (y ∷ q) hq ∙ sym (find-hash load y q h n e flat)
