-- ===== src/Trie/Delete.antt =====
-- `delete` (trie/trie.go) takes the value of the key away and leaves every other key alone.
use mjoy_go.Base.{
  ℕ, zero, suc, ◌≡◌, refl, Bool, true, false, none, some, List, [], ◌∷◌, ◌++◌, length, take, drop,
  ltb, ltb→lt, ◌==◌, Bool-cases, inl, inr, ◌∙◌, sym, arith, subst,
}
use mjoy_go.State.Types.{Read, entry}
use mjoy_go.Trie.Encoding.{prefix_len}
use mjoy_go.Trie.Node.{
  Flag, Node, nil, value_node, short_node, full_node, hash_node, Children, at, put,
}
use mjoy_go.Trie.Walk.{equal, new_flag, resolve_hash}
use mjoy_go.Trie.Change.{
  rebuilt, changed, merge, reduce, lone, delete_short, delete_full, delete_step, delete,
  change_loaded,
}
use mjoy_go.Trie.Find.{find, after, is_hash, Fits, FitsAll, Loads}
use mjoy_go.Trie.Short.{find-hash, find-nil, find-full}
use mjoy_go.Trie.Kids.{kid-put, kid_self, at-FitsAll, put-FitsAll}
use mjoy_go.Trie.Ends.{Same, Lost, Enough, Right, full-Right, find-short_node, after-tail}
use mjoy_go.Trie.Loaded.{find-Unread, loaded-Ends}
use mjoy_go.Trie.Merge.{Reduces-Ends}
use mjoy_go.Trie.Reduce.{reduce-Reduces}
use mjoy_go.Trie.Shrink.{
  short_of, whole_key, no_rest, still_lost, Deleted, Next, Deletes, no_value, under-Deleted,
  gone_end, delete-exact, delete-under,
}

module _ (load : ℕ → Read Node) (gen : ℕ) where
  delete-short_node :
      (e : Bool) (fuel : ℕ) (next : Next load gen) (k : List ℕ) (c : Node) (f : Flag)
      (prefix key : List ℕ)
      → Deletes load gen fuel next
      → Fits e (short_node k c f)
      → after e key ≡ some true
      → Deleted load gen e
          (suc fuel)
          (short_node k c f)
          key
          (delete_short load gen next k c f prefix key (prefix_len key k))
  unfolding Fits
  delete-short_node e fuel next k c f prefix key all (some_k, (e', hk, fits)) h =
      elim (Bool-cases (ltb (prefix_len key k) (length k))) [
        | inl m ↦
            let same =
              no_value load gen e (short_node k c f) key (some_k, (e', hk, fits))
                (rw (find-short_node load k c f key some_k, short_of key k m) refl) in
            rw m (same, same)
        | inr m ↦
            let whole = whole_key key k m in
            elim (Bool-cases (prefix_len key k == length key)) [
              | inl l ↦
                  let exact = no_rest key k whole l in
                  rw (m, l)
                    (subst (λ w. Right load e w none (short_node k c f) nil) (sym exact)
                      (delete-exact load gen e e' k c f some_k hk fits
                        (subst (λ w. after e w ≡ some true) exact h)))
              | inr l ↦
                  rw (m, l)
                    (subst
                      (λ w. Deleted load gen e (suc fuel) (short_node k c f) w (
                        rebuilt load gen (short_node k c f)
                          (λ c'. changed load gen (merge load gen k c'))
                          (next c (prefix ++ take (length k) key) (drop (length k) key))))
                      (sym whole)
                      (delete-under load gen e e' fuel next k c f (prefix ++ take (length k) key)
                        (drop (length k) key) all some_k hk fits
                        (subst (λ w. after e w ≡ some true) whole h)))
            ]
      ]

  delete-full_node :
      (fuel : ℕ) (next : Next load gen) (cs : Children) (f : Flag) (prefix : List ℕ) (x : ℕ)
      (rest : List ℕ)
      → Deletes load gen fuel next
      → ((h : ℕ) → Loads (load h))
      → FitsAll 0 cs
      → after false (x ∷ rest) ≡ some true
      → Deleted load gen false
          (suc fuel)
          (full_node cs f)
          (x ∷ rest)
          (delete_full load gen next cs f prefix x rest (at x cs))
  delete-full_node fuel next cs f prefix x rest all loads fits h =
      let (small, h') = after-tail x rest true h in
      let (c, at_x, fits_c) = at-FitsAll 0 x x cs fits (omega arith) (ltb→lt x 17 small) in
      rw at_x (
        under-Deleted load gen false (x == 16) fuel c (full_node cs f) (x ∷ rest) rest
          (λ c'. reduce load gen prefix (put x c' cs) (lone 0 (put x c' cs)))
          (next c (prefix ++ x ∷ []) rest) (all (x == 16) c (prefix ++ x ∷ []) rest fits_c h')
          (λ c' right.
            let all' = put-FitsAll 0 x x c' cs fits (omega arith) right.0 in
            Reduces-Ends (Same load false (full_node (put x c' cs) (new_flag load gen)))
              (Right load false (x ∷ rest) none (full_node cs f))
              (Lost load false (full_node (put x c' cs) (new_flag load gen)))
              (Lost load false (full_node cs f)) (full_node cs f)
              (Enough (suc fuel) (x ∷ rest) (full_node cs f))
              (reduce load gen prefix (put x c' cs) (lone 0 (put x c' cs)))
              (λ m same. (
                same.0,
                λ q hq.
                    same.1 q hq
                    ∙ (full-Right load x rest none c c' cs (put x c' cs) f (new_flag load gen) all'
                          at_x (λ y. kid-put x y c' c cs at_x) right.1).1
                        q hq,
              ))
              (λ h (q, hq, lack). (
                q,
                hq,
                still_lost (equal q (x ∷ rest)) h (find load q (full_node cs f)) (
                    sym (
                      (full-Right load x rest none c c' cs (put x c' cs) f (new_flag load gen) all'
                          at_x (λ y. kid-put x y c' c cs at_x) right.1).1
                        q hq)
                    ∙ lack),
              ))
              (reduce-Reduces load gen prefix (put x c' cs) loads all'))
          (λ right.
            full-Right load x rest none c c cs cs f f fits at_x (λ y. kid_self x y c cs at_x)
              right.1)
          (λ h (q, hq, lack). (x ∷ q, rw small hq, rw (find-full load x q cs f, at_x) lack))
          (omega arith))

  delete-hash :
      (fuel : ℕ) (next : Next load gen) (h : ℕ) (prefix : List ℕ) (key : List ℕ)
      → Deletes load gen fuel next
      → Loads (load h)
      → after false key ≡ some true
      → Deleted load gen false
          (suc fuel)
          (hash_node h)
          key
          (change_loaded load gen (λ n. next n prefix key) (resolve_hash load gen h prefix))
  delete-hash fuel next h prefix [] all loads hk = cc
  delete-hash fuel next h prefix (x ∷ key) all loads hk =
      loaded-Ends load gen (Lost load false) fuel h prefix (x ∷ key) none
        (λ n. next n prefix (x ∷ key)) loads (λ n fits. all false n prefix (x ∷ key) fits hk)
        (λ n g e flat lack. loaded_lost h n g e flat lack)
        (λ u. (x ∷ key, hk, find-Unread load x key h u))
    where
      loaded_lost :
          (h : ℕ) (n : Node) (g : ℕ)
          → load h ≡ entry n
          → is_hash n ≡ false
          → Lost load false n g
          → Lost load false (hash_node h) g
      loaded_lost h n g e flat ([], hq, lack) = cc
      loaded_lost h n g e flat (y ∷ q, hq, lack) = (y ∷ q, hq, find-hash load y q h n e flat ∙ lack)

  delete_step-Deletes :
      (fuel : ℕ) (next : Next load gen)
      → ((h : ℕ) → Loads (load h))
      → Deletes load gen fuel next
      → Deletes load gen (suc fuel) (delete_step load gen next)
  unfolding Fits delete_step
  delete_step-Deletes fuel next loads all e nil prefix key fits h = (
    no_value load gen e nil key fits (find-nil load key),
    no_value load gen e nil key fits (find-nil load key),
  )
  delete_step-Deletes fuel next loads all e (value_node u) prefix [] fits h =
      (tt, gone_end load gen e (value_node u) h)
  delete_step-Deletes fuel next loads all e (value_node u) prefix (x ∷ key) fits h =
      let bad : none ≡ some true = subst (λ t. after t (x ∷ key) ≡ some true) fits h in cc
  delete_step-Deletes fuel next loads all e (short_node k c f) prefix key fits h =
      delete-short_node e fuel next k c f prefix key all fits h
  delete_step-Deletes fuel next loads all true (full_node cs f) prefix key fits h = cc
  delete_step-Deletes fuel next loads all false (full_node cs f) prefix [] fits h = cc
  delete_step-Deletes fuel next loads all false (full_node cs f) prefix (x ∷ key) fits h =
      delete-full_node fuel next cs f prefix x key all loads fits.1 h
  delete_step-Deletes fuel next loads all true (hash_node g) prefix key fits h = cc
  delete_step-Deletes fuel next loads all false (hash_node g) prefix key fits h =
      delete-hash fuel next g prefix key all (loads g) h

  -- Enough fuel or not: what `delete` gives is right.
  pub delete-Deletes :
      (fuel : ℕ) → ((h : ℕ) → Loads (load h)) → Deletes load gen fuel (delete load gen fuel)
  unfolding delete
  delete-Deletes zero loads e n prefix key fits h = omega arith
  delete-Deletes (suc fuel) loads e n prefix key fits h =
      delete_step-Deletes fuel (delete load gen fuel) loads (delete-Deletes fuel loads) e n prefix
        key fits h
