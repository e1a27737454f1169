-- ===== src/Trie/Ends.antt =====
-- What a change of a trie comes to (`insert`, `delete`: trie/trie.go): the statement the proofs go
-- through with, and how it passes from a child to its parent.
use mjoy_go.Base.{
  ℕ, suc, ◌+◌, ◌<◌, ◌≡◌, refl, Bool, true, false, Option, none, some, List, [], ◌∷◌, ◌++◌, length,
  ltb, ◌==◌, ==_cases, ==_self, if◌then◌else◌, Bool-cases, Option-cases, inl, inr, subst,
}
use mjoy_go.State.Types.{Read}
use mjoy_go.Trie.Node.{Flag, Node, short_node, full_node, hash_node, Children, at}
use mjoy_go.Trie.Walk.{done, missing_node, panic, exhausted, Changed, equal, strip}
use mjoy_go.Trie.Change.{rebuilt}
use mjoy_go.Trie.Find.{lost, find, find_after, after, nonempty, Fits, FitsAll}
use mjoy_go.Trie.Keys.{equal-append, after-append, strip_sound}
use mjoy_go.Trie.Short.{updated, kid, find-short, find-full}

-- A node that has changed is right; one that has not is right as it was, too. No panic; where a node
-- is missing or the fuel ends, there is a reason.
abbrev pub Ends : (Node → Type 0) → Node → (ℕ → Type 0) → Type 0 → Changed → Type 0
Ends Right n Miss Out (done (true, m)) = Right m
Ends Right n Miss Out (done (false, m)) = Right m × Right n
Ends Right n Miss Out (missing_node h p) = Miss h
Ends Right n Miss Out panic = ⊥
Ends Right n Miss Out exhausted = Out

-- The nibbles a key may still take: two calls for each, and one more for a hash.
abbrev pub weight : Node → ℕ
weight (hash_node h) = 1
weight n = 0

abbrev pub Enough : ℕ → List ℕ → Node → Type 0
Enough fuel key n = fuel < suc (length key + length key + weight n)

pub after-tail :
    (y : ℕ) (q : List ℕ) (e : Bool)
    → after false (y ∷ q) ≡ some e
    → (ltb y 17 ≡ true) × (after (y == 16) q ≡ some e)
after-tail y q e h = elim (Bool-cases (ltb y 17)) [
  | inl s ↦ (s, rw s at h)
  | inr s ↦ let bad : none ≡ some e = rw s at h in cc
]

module _ (load : ℕ → Read Node) where
  -- The same answers to every key that fits.
  abbrev pub Same : Bool → Node → Node → Type 0
  Same e n m = Fits e m × ((q : List ℕ) → after e q ≡ some true → find load q m ≡ find load q n)

  -- A key that the node has no answer to, since a node is missing.
  abbrev pub Lost : Bool → Node → ℕ → Type 0
  Lost e n h = (q : List ℕ) × (after e q ≡ some true) × (find load q n ≡ lost h)

  -- Behind the node the key has got the new answer, and every other key has kept its answer.
  abbrev pub Behind : Bool → List ℕ → Option (List ℕ) → Node → Node → Type 0
  Behind e key new n m =
      (q : List ℕ)
      → after e q ≡ some true
      → find load q m ≡ updated (equal q key) new (find load q n)

  abbrev pub Right : Bool → List ℕ → Option (List ℕ) → Node → Node → Type 0
  Right e key new n m = Fits e m × Behind e key new n m

  module _ (gen : ℕ) where
    pub rebuilt-Ends :
        (R S : Node → Type 0)
        → (L M : ℕ → Type 0) → (O P : Type 0) → (c n old : Node) (f : Node → Changed) (r : Changed)
        → Ends R c L O r
        → ((c' : Node) → R c' → Ends S old M P (f c'))
        → (R c → S n × S old)
        → ((h : ℕ) → L h → M h)
        → (O → P)
        → Ends S old M P (rebuilt load gen n f r)
    rebuilt-Ends R S L M O P c n old f (done (true, m)) ends change keep miss out = change m ends
    rebuilt-Ends R S L M O P c n old f (done (false, m)) ends change keep miss out = keep (ends.1)
    rebuilt-Ends R S L M O P c n old f (missing_node h p) ends change keep miss out = miss h ends
    rebuilt-Ends R S L M O P c n old f panic ends change keep miss out = ends
    rebuilt-Ends R S L M O P c n old f exhausted ends change keep miss out = out ends

  pub find-short_node :
      (k : List ℕ) (c : Node) (f : Flag) (q : List ℕ)
      → nonempty k ≡ true
      → find load q (short_node k c f) ≡ find_after load (strip k q) c
  find-short_node [] c f q h = cc
  find-short_node (y ∷ k) c f q h = find-short load y k c f q

  -- Through a key part: the keys that do not take it have no value either way.
  pub Behind-strip :
      (e e' : Bool) (k rest : List ℕ) (new : Option (List ℕ)) (c c' : Node)
      → after e k ≡ some e'
      → Behind e' rest new c c'
      → (q : List ℕ) → after e q ≡ some true
      → find_after load (strip k q) c'
        ≡ updated (equal q (k ++ rest)) new (find_after load (strip k q) c)
  Behind-strip e e' k rest new c c' hk behind q hq =
      rw (equal-append k rest q) (elim (Option-cases (strip k q)) [
        | inl s ↦ rw s
        | inr (r, s) ↦ rw s (
            behind r (
              let whole : after e (k ++ r) ≡ some true = rw (strip_sound k q r s) at hq in
              rw (after-append e k r, hk) at whole))
      ])

  pub short-Right :
      (e e' : Bool) (k rest : List ℕ) (new : Option (List ℕ)) (c c' : Node) (f g : Flag)
      → nonempty k ≡ true
      → after e k ≡ some e'
      → Right e' rest new c c'
      → Right e (k ++ rest) new (short_node k c f) (short_node k c' g)
  unfolding Fits
  short-Right e e' k rest new c c' f g some_k hk (fits, behind) = (
    (some_k, (e', hk, fits)),
    λ q hq.
        rw (find-short_node k c' g q some_k, find-short_node k c f q some_k)
          (Behind-strip e e' k rest new c c' hk behind q hq),
  )

  -- Through a full node.
  pub full-Right :
      (x : ℕ) (rest : List ℕ) (new : Option (List ℕ)) (c c' : Node) (cs ds : Children) (f g : Flag)
      → FitsAll 0 ds
      → at x cs ≡ some c
      → ((y : ℕ) → kid y ds ≡ (if y == x then c' else kid y cs))
      → Behind (x == 16) rest new c c'
      → Right false (x ∷ rest) new (full_node cs f) (full_node ds g)
  unfolding Fits
  full-Right x rest new c c' cs ds f g all hx kids behind = ((refl, all), one)
    where
      one : Behind false (x ∷ rest) new (full_node cs f) (full_node ds g)
      one [] hq = cc
      one (y ∷ q) hq =
          let (small, hq') = after-tail y q true hq in
          rw (find-full load y q ds g, find-full load y q cs f, kids y)
            (elim (==_cases y x) [
              | inl e ↦
                  rw (e, ==_self x, hx)
                    (behind q (subst (λ t. after (t == 16) q ≡ some true) e hq'))
              | inr e ↦ rw e
            ])
