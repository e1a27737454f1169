-- ===== src/Trie/Reduce.antt =====
-- How `delete` replaces a full node that has a single child left (trie/trie.go).
use mjoy_go.Base.{
  ℕ, ◌<◌, ◌≡◌, refl, Bool, true, false, some, List, [], ◌∷◌, ◌==◌, ==_cases, ==_self, lt→ltb,
  if◌then◌else◌, Bool-cases, inl, inr, ap, ◌∙◌, sym, arith, subst,
}
use mjoy_go.State.Types.{Read, entry, absent, garbled, fault}
use mjoy_go.Trie.Node.{Flag, Node, nil, value_node, short_node, full_node, hash_node, Children}
use mjoy_go.Trie.Walk.{done, strip, new_flag, loaded, resolve, resolve_hash}
use mjoy_go.Trie.Change.{Lone, nobody, several, only, lone, hoist, reduce}
use mjoy_go.Trie.Find.{find, find_after, after, Fits, FitsAll, Loads}
use mjoy_go.Trie.Short.{kid, find-nil, find-short, find-full, find-hash}
use mjoy_go.Trie.Ends.{Same, Lost, find-short_node, after-tail}
use mjoy_go.Trie.Loaded.{Unread, find-Unread}
use mjoy_go.Trie.Lone.{lone-Single, at-Fits}
use mjoy_go.Trie.Merge.{Reduces}

module _ (load : ℕ → Read Node) (gen : ℕ) where
  -- A short node in the place of a full node whose other children are nil.
  single-Same :
      (i : ℕ) (k : List ℕ) (e : Bool) (c d : Node) (cs : Children) (f : Flag)
      → i < 17
      → after (i == 16) k ≡ some e
      → Fits e d
      → ((y : ℕ) → kid y cs ≡ (if y == i then c else nil))
      → ((q : List ℕ)
          → after (i == 16) q ≡ some true
          → find_after load (strip k q) d ≡ find load q c)
      → Same load false (full_node cs f) (short_node (i ∷ k) d (new_flag load gen))
  unfolding Fits
  single-Same i k e c d cs f less hk fits kids answers = ((refl, (e, fork, fits)), one)
    where
      fork : after false (i ∷ k) ≡ some e
      fork = rw (lt→ltb i 17 less) hk

      one :
          (q : List ℕ)
          → after false q ≡ some true
          → find load q (short_node (i ∷ k) d (new_flag load gen)) ≡ find load q (full_node cs f)
      one [] hq = cc
      one (y ∷ q) hq =
          let (small, rest) = after-tail y q true hq in
          rw (find-full load y q cs f, kids y, find-short load i k d (new_flag load gen) (y ∷ q))
            (elim (==_cases y i) [
              | inl same ↦
                  rw (same, ==_self i)
                    (answers q (subst (λ t. after (t == 16) q ≡ some true) same rest))
              | inr other ↦ rw other (sym (find-nil load q))
            ])

  module _ (i : ℕ) (c : Node) (cs : Children) (f : Flag) (less : i < 17)
      (kids : (y : ℕ) → kid y cs ≡ (if y == i then c else nil)) where
    kept-Same :
        Fits (i == 16) c
        → Same load false (full_node cs f) (short_node (i ∷ []) c (new_flag load gen))
    kept-Same fits = single-Same i [] (i == 16) c c cs f less refl fits kids (λ q hq. refl)

    hoist-Same :
        (n : Node)
        → (i == 16) ≡ false
        → Fits (i == 16) c
        → Fits false n
        → ((q : List ℕ) → after false q ≡ some true → find load q n ≡ find load q c)
        → Reduces
            (Same load false (full_node cs f))
            (Lost load false (full_node cs f))
            (hoist load gen i c (done n))
    unfolding Fits
    hoist-Same nil inner fits fits_n answers = kept-Same fits
    hoist-Same (value_node v) inner fits fits_n answers = kept-Same fits
    hoist-Same (short_node k d g) inner fits (some_k, (e, hk, fits_d)) answers =
        single-Same i k e c d cs f less (rw inner hk) fits_d kids (λ q hq.
          sym (find-short_node load k d g q some_k)
          ∙ answers q (subst (λ t. after t q ≡ some true) inner hq))
    hoist-Same (full_node ds g) inner fits fits_n answers = kept-Same fits
    hoist-Same (hash_node g) inner fits fits_n answers = kept-Same fits

    -- The key through the missing child that ends behind it is lost.
    hoist-Lost :
        (h : ℕ)
        → c ≡ hash_node h
        → (i == 16) ≡ false
        → Unread load (load h)
        → Lost load false (full_node cs f) h
    hoist-Lost h same inner unread = (
      i ∷ 16 ∷ [],
      rw (lt→ltb i 17 less, inner) refl,
      rw (find-full load i (16 ∷ []) cs f, kids i, ==_self i)
          (ap (find load (16 ∷ [])) same ∙ find-Unread load 16 [] h unread),
    )

    hoist-hash :
        (h : ℕ) (prefix : List ℕ) (r : Read Node)
        → c ≡ hash_node h
        → (i == 16) ≡ false
        → Fits (i == 16) c
        → load h ≡ r
        → Loads r
        → Reduces
            (Same load false (full_node cs f))
            (Lost load false (full_node cs f))
            (hoist load gen i c (loaded load gen h prefix r))
    hoist-hash h prefix absent same inner fits e ok =
        hoist-Lost h same inner (subst (Unread load) (sym e) tt)
    hoist-hash h prefix (fault s) same inner fits e ok =
        hoist-Lost h same inner (subst (Unread load) (sym e) tt)
    hoist-hash h prefix garbled same inner fits e ok = ok
    hoist-hash h prefix (entry n) same inner fits e (fits_n, flat) =
        hoist-Same n inner fits fits_n answers
      where
        answers : (q : List ℕ) → after false q ≡ some true → find load q n ≡ find load q c
        answers [] hq = cc
        answers (y ∷ q) hq = sym (ap (find load (y ∷ q)) same ∙ find-hash load y q h n e flat)

    hoist-Reduces :
        (d : Node) (prefix : List ℕ)
        → c ≡ d
        → ((h : ℕ) → Loads (load h))
        → (i == 16) ≡ false
        → Fits (i == 16) c
        → Reduces
            (Same load false (full_node cs f))
            (Lost load false (full_node cs f))
            (hoist load gen i c (resolve load gen d prefix))
    unfolding resolve resolve_hash
    hoist-Reduces nil prefix same loads inner fits = kept-Same fits
    hoist-Reduces (value_node v) prefix same loads inner fits = kept-Same fits
    hoist-Reduces (short_node k d g) prefix same loads inner fits =
        hoist-Same (short_node k d g) inner fits
          (subst (Fits false) same (subst (λ t. Fits t c) inner fits))
          (λ q hq. ap (find load q) (sym same))
    hoist-Reduces (full_node ds g) prefix same loads inner fits = kept-Same fits
    hoist-Reduces (hash_node h) prefix same loads inner fits =
        hoist-hash h prefix (load h) same inner fits refl (loads h)

  -- The full node, or the short node in its place, finds the same.
  pub reduce-Reduces :
      (prefix : List ℕ) (cs : Children)
      → ((h : ℕ) → Loads (load h))
      → FitsAll 0 cs
      → Reduces
          (Same load false (full_node cs (new_flag load gen)))
          (Lost load false (full_node cs (new_flag load gen)))
          (reduce load gen prefix cs (lone 0 cs))
  unfolding Fits
  reduce-Reduces prefix cs loads all = from (lone 0 cs) refl
    where
      from :
          (l : Lone)
          → lone 0 cs ≡ l
          → Reduces
              (Same load false (full_node cs (new_flag load gen)))
              (Lost load false (full_node cs (new_flag load gen)))
              (reduce load gen prefix cs l)
      from nobody e = ((refl, all), λ q hq. refl)
      from several e = ((refl, all), λ q hq. refl)
      from (only i c) e =
          let (x, i_x, at_x, kids_x) = lone-Single 0 i c cs e in
          let (less, fits) = at-Fits 0 x i c cs all at_x i_x in
          let kids : (y : ℕ) → kid y cs ≡ (if y == i then c else nil) =
            subst (λ t. (y : ℕ) → kid y cs ≡ (if y == t then c else nil)) (omega arith) kids_x in
          elim (Bool-cases (i == 16)) [
            | inl last ↦ rw last (kept-Same i c cs (new_flag load gen) less kids fits)
            | inr inner ↦
                rw inner (
                  hoist-Reduces i c cs (new_flag load gen) less kids c prefix refl loads inner fits)
          ]
