-- ===== src/Trie/Grow.antt =====
-- `insert` (trie/trie.go) at a node where the key goes on, or ends: what it makes of its child.
use mjoy_go.Base.{
  ℕ, suc, ◌<◌, ◌≡◌, refl, Bool, true, false, some, List, [], ◌∷◌, ◌++◌, length, ltb→lt, ◌==◌,
  Bool-cases, inl, inr, ◌∙◌, sym, arith, subst,
}
use mjoy_go.State.Types.{Read}
use mjoy_go.Trie.Node.{
  Flag, Node, nil, value_node, short_node, full_node, hash_node, Children, at, put,
}
use mjoy_go.Trie.Walk.{done, Changed, equal, new_flag}
use mjoy_go.Trie.Change.{differ, rebuilt, changed, insert_full}
use mjoy_go.Trie.Find.{lost, find, after, nonempty, Fits, FitsAll}
use mjoy_go.Trie.Keys.{equal_sound, after-append, strip_self}
use mjoy_go.Trie.Short.{find-nil, find-short, find-full}
use mjoy_go.Trie.Kids.{kid-put, kid_self, at-FitsAll, put-FitsAll}
use mjoy_go.Trie.Ends.{
  Ends, Enough, Behind, Right, rebuilt-Ends, short-Right, full-Right, find-short_node, after-tail,
}
use mjoy_go.Trie.Forks.{longer}
use mjoy_go.Trie.Loaded.{weight_le}
use mjoy_go.Trie.Branch.{find-leaf}

module _ (load : ℕ → Read Node) (gen : ℕ) (v : List ℕ) where
  abbrev pub Inserted : Bool → ℕ → Node → List ℕ → Changed → Type 0
  Inserted e fuel n key r =
      Ends (Right load e key (some v) n) n (λ h. find load key n ≡ lost h) (Enough fuel key n) r

  abbrev pub Next : Type 0
  Next = Node → List ℕ → List ℕ → Node → Changed

  abbrev pub Inserts : ℕ → Next → Type 0
  Inserts fuel next =
      (e : Bool) (n : Node) (prefix key : List ℕ)
      → Fits e n
      → after e key ≡ some true
      → Inserted e fuel n key (next n prefix key (value_node v))

  pub end-Right :
      (e : Bool) (n : Node) → after e [] ≡ some true → Right load e [] (some v) n (value_node v)
  unfolding Fits find
  end-Right false n h = cc
  end-Right true n h = (refl, only)
    where
      only : Behind load true [] (some v) n (value_node v)
      only [] hq = refl
      only (x ∷ q) hq = cc

  -- At the end of the key the value takes the place of what is there.
  pub insert-end :
      (e : Bool) (fuel : ℕ) (n : Node)
      → after e [] ≡ some true
      → Inserted e fuel n [] (done (differ n (value_node v), value_node v))
  insert-end e fuel nil h = end-Right e nil h
  insert-end e fuel (value_node u) h = elim (Bool-cases (equal u v)) [
    | inl s ↦ rw s (
      end-Right e (value_node u) h,
      subst (λ w. Right load e [] (some v) (value_node u) (value_node w)) (sym (equal_sound u v s))
          (end-Right e (value_node u) h),
    )
    | inr s ↦ rw s (end-Right e (value_node u) h)
  ]
  insert-end e fuel (short_node k c f) h = end-Right e (short_node k c f) h
  insert-end e fuel (full_node cs f) h = end-Right e (full_node cs f) h
  insert-end e fuel (hash_node g) h = end-Right e (hash_node g) h

  pub insert-nil :
      (e : Bool) (x : ℕ) (key : List ℕ)
      → after e (x ∷ key) ≡ some true
      → Right load e
          (x ∷ key)
          (some v)
          nil
          (short_node (x ∷ key) (value_node v) (new_flag load gen))
  unfolding Fits
  insert-nil e x key h = (
    (refl, (true, h, refl)),
    λ q hq.
        rw (find-short load x key (value_node v) (new_flag load gen) q, find-nil load q)
          (find-leaf load (x ∷ key) q v),
  )

  -- A call on a child, with a shorter key.
  pub under-Inserted :
      (e e' : Bool) (fuel : ℕ) (c n : Node) (key rest : List ℕ) (f : Node → Node) (r : Changed)
      → Inserted e' fuel c rest r
      → ((c' : Node) → Right load e' rest (some v) c c' → Right load e key (some v) n (f c'))
      → (Right load e' rest (some v) c c → Right load e key (some v) n n)
      → find load key n ≡ find load rest c
      → length rest < length key
      → Inserted e (suc fuel) n key (rebuilt load gen n (λ c'. changed load gen (f c')) r)
  under-Inserted e e' fuel c n key rest f r ends change keep same less =
      rebuilt-Ends load gen (Right load e' rest (some v) c) (Right load e key (some v) n)
        (λ h. find load rest c ≡ lost h) (λ h. find load key n ≡ lost h) (Enough fuel rest c)
        (Enough (suc fuel) key n) c n n (λ c'. changed load gen (f c')) r ends change
        (λ right. (keep right, keep right)) (λ h lack. same ∙ lack)
        (λ out. let few = weight_le c in omega arith)

  pub insert-whole :
      (e e' : Bool) (fuel : ℕ) (next : Next) (k : List ℕ) (c : Node) (f : Flag)
      (prefix rest : List ℕ)
      → Inserts fuel next
      → nonempty k ≡ true
      → after e k ≡ some e'
      → Fits e' c
      → after e (k ++ rest) ≡ some true
      → Inserted e (suc fuel) (short_node k c f) (k ++ rest) (
          rebuilt load gen
            (short_node k c f)
            (λ c'. changed load gen (short_node k c' (new_flag load gen)))
            (next c prefix rest (value_node v)))
  insert-whole e e' fuel next k c f prefix rest all some_k hk fits h =
      under-Inserted e e' fuel c (short_node k c f) (k ++ rest) rest
        (λ c'. short_node k c' (new_flag load gen)) (next c prefix rest (value_node v))
        (all e' c prefix rest fits (rw (after-append e k rest, hk) at h))
        (λ c' right.
          short-Right load e e' k rest (some v) c c' f (new_flag load gen) some_k hk right)
        (λ right. short-Right load e e' k rest (some v) c c f f some_k hk right)
        (rw (find-short_node load k c f (k ++ rest) some_k, strip_self k rest) refl)
        (longer k rest some_k)

  pub insert-full_node :
      (fuel : ℕ) (next : Next) (cs : Children) (f : Flag) (prefix : List ℕ) (x : ℕ) (rest : List ℕ)
      → Inserts fuel next
      → FitsAll 0 cs
      → after false (x ∷ rest) ≡ some true
      → Inserted false
          (suc fuel)
          (full_node cs f)
          (x ∷ rest)
          (insert_full load gen next cs f prefix x rest (value_node v) (at x cs))
  insert-full_node fuel next cs f prefix x rest all fits h =
      let (small, h') = after-tail x rest true h in
      let (c, at_x, fits_c) = at-FitsAll 0 x x cs fits (omega arith) (ltb→lt x 17 small) in
      rw at_x (
        under-Inserted false (x == 16) fuel c (full_node cs f) (x ∷ rest) rest
          (λ c'. full_node (put x c' cs) (new_flag load gen))
          (next c (prefix ++ x ∷ []) rest (value_node v))
          (all (x == 16) c (prefix ++ x ∷ []) rest fits_c h')
          (λ c' right.
            full-Right load x rest (some v) c c' cs (put x c' cs) f (new_flag load gen)
              (put-FitsAll 0 x x c' cs fits (omega arith) right.0) at_x
              (λ y. kid-put x y c' c cs at_x) right.1)
          (λ right.
            full-Right load x rest (some v) c c cs cs f f fits at_x (λ y. kid_self x y c cs at_x)
              right.1)
          (rw (find-full load x rest cs f, at_x) refl) (omega arith))
