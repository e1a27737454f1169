-- ===== src/Trie/Loaded.antt =====
-- A node of the database is changed like one of the trie (trie/trie.go, `resolveHash`).
use mjoy_go.Base.{ℕ, suc, ◌<◌, ◌≡◌, refl, false, Option, List, [], ◌∷◌, arith}
use mjoy_go.State.Types.{Read, entry, absent, garbled, fault}
use mjoy_go.Trie.Node.{Node, nil, value_node, short_node, full_node, hash_node}
use mjoy_go.Trie.Walk.{Changed, resolve_hash}
use mjoy_go.Trie.Change.{changed, change_loaded}
use mjoy_go.Trie.Find.{lost, find, is_hash, Fits, Loads}
use mjoy_go.Trie.Short.{find-hash}
use mjoy_go.Trie.Ends.{Ends, Enough, weight, Behind, Right, rebuilt-Ends}

pub weight_le : (n : Node) → weight n < 2
weight_le nil = omega arith
weight_le (value_node v) = omega arith
weight_le (short_node k c f) = omega arith
weight_le (full_node cs f) = omega arith
weight_le (hash_node h) = omega arith

pub weight_none : (n : Node) → is_hash n ≡ false → weight n ≡ 0
weight_none nil h = refl
weight_none (value_node v) h = refl
weight_none (short_node k c f) h = refl
weight_none (full_node cs f) h = refl
weight_none (hash_node h) e = cc

module _ (load : ℕ → Read Node) where
  abbrev pub Unread : Read Node → Type 0
  Unread (entry n) = ⊥
  Unread absent = Unit
  Unread (fault e) = Unit
  Unread garbled = ⊥

  pub find-Unread :
      (x : ℕ) (key : List ℕ) (h : ℕ) → Unread (load h) → find load (x ∷ key) (hash_node h) ≡ lost h
  unfolding find
  find-Unread x key h u = from (load h) refl u
    where
      from : (r : Read Node) → load h ≡ r → Unread r → find load (x ∷ key) (hash_node h) ≡ lost h
      from (entry n) e ok = elim ok [ ]
      from absent e ok = rw (e, find) refl
      from (fault s) e ok = rw (e, find) refl
      from garbled e ok = elim ok [ ]

  pub hash-Right :
      (key : List ℕ) (new : Option (List ℕ)) (h : ℕ) (n m : Node)
      → load h ≡ entry n
      → is_hash n ≡ false
      → Right load false key new n m
      → Right load false key new (hash_node h) m
  hash-Right key new h n m e flat (fits, behind) = (fits, one)
    where
      one : Behind load false key new (hash_node h) m
      one [] hq = cc
      one (y ∷ q) hq = rw (find-hash load y q h n e flat) (behind (y ∷ q) hq)

  hash_self :
      (key : List ℕ) (new : Option (List ℕ)) (h : ℕ) (n : Node)
      → load h ≡ entry n
      → is_hash n ≡ false
      → Right load false key new n n
      → Right load false key new (hash_node h) (hash_node h)
  unfolding Fits
  hash_self key new h n e flat (fits, behind) = (refl, one)
    where
      one : Behind load false key new (hash_node h) (hash_node h)
      one [] hq = cc
      one (y ∷ q) hq = rw (find-hash load y q h n e flat) (behind (y ∷ q) hq)

  module _ (gen : ℕ) where
    pub loaded-Ends :
        (Miss : Node → ℕ → Type 0) (fuel h : ℕ) (prefix key : List ℕ) (new : Option (List ℕ))
        → (change : Node → Changed) → Loads (load h)
        → ((n : Node)
            → Fits false n
            → Ends (Right load false key new n) n (Miss n) (Enough fuel key n) (change n))
        → ((n : Node)
            → (g : ℕ) → load h ≡ entry n
            → is_hash n ≡ false
            → Miss n g
            → Miss (hash_node h) g)
        → (Unread (load h) → Miss (hash_node h) h)
        → Ends
            (Right load false key new (hash_node h))
            (hash_node h)
            (Miss (hash_node h))
            (Enough (suc fuel) key (hash_node h))
            (change_loaded load gen change (resolve_hash load gen h prefix))
    unfolding resolve_hash
    loaded-Ends Miss fuel h prefix key new change loads ends miss unread =
        from (load h) refl loads unread
      where
        from :
            (r : Read Node)
            → load h ≡ r
            → Loads r
            → (Unread r → Miss (hash_node h) h)
            → Ends
                (Right load false key new (hash_node h))
                (hash_node h)
                (Miss (hash_node h))
                (Enough (suc fuel) key (hash_node h))
                (change_loaded load gen change (resolve_hash load gen h prefix))
        from absent e ok lack = rw e (lack tt)
        from (fault s) e ok lack = rw e (lack tt)
        from garbled e ok lack = elim ok [ ]
        from (entry n) e (fits, flat) lack = rw e (
            rebuilt-Ends load gen (Right load false key new n)
              (Right load false key new (hash_node h)) (Miss n) (Miss (hash_node h))
              (Enough fuel key n) (Enough (suc fuel) key (hash_node h)) n n (hash_node h)
              (changed load gen) (change n) (ends n fits)
              (λ m right. hash-Right key new h n m e flat right)
              (λ right. (hash-Right key new h n n e flat right, hash_self key new h n e flat right))
              (λ g lost. miss n g e flat lost)
              (λ out. let light = weight_none n flat in omega arith))
