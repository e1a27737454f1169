-- ===== src/Trie/Insert.antt =====
-- `insert` (trie/trie.go) gives the key its value and leaves every other key alone.
use mjoy_go.Base.{
  ℕ, zero, suc, ◌≡◌, Bool, true, false, none, some, List, [], ◌∷◌, ◌++◌, length, take, drop,
  get_elem?, ltb, lt→ltb, ◌&&◌, ◌==◌, if◌then◌else◌, Bool-cases, Option-cases, inl, inr, ◌∙◌, sym,
  arith, subst,
}
use mjoy_go.State.Types.{Read}
use mjoy_go.Trie.Encoding.{prefix_len}
use mjoy_go.Trie.Prefix.{Parts, prefix_len-Parts}
use mjoy_go.Trie.Node.{Flag, Node, nil, value_node, short_node, full_node, hash_node}
use mjoy_go.Trie.Walk.{panic, new_flag, resolve_hash}
use mjoy_go.Trie.Change.{
  lead_to, branch, rebuilt, changed, branch_out, insert_short, insert_step, insert, change_loaded,
}
use mjoy_go.Trie.Find.{lost, find, after, Fits, Loads}
use mjoy_go.Trie.Keys.{strip_sound, prefix_whole, split_at, beyond}
use mjoy_go.Trie.Short.{find-hash}
use mjoy_go.Trie.Ends.{Right}
use mjoy_go.Trie.Forks.{none_at_end, no_more, at_fork}
use mjoy_go.Trie.Loaded.{loaded-Ends, find-Unread}
use mjoy_go.Trie.Branch.{branch-Right}
use mjoy_go.Trie.Grow.{
  Inserted, Next, Inserts, insert-end, insert-nil, insert-whole, insert-full_node,
}

module _ (load : ℕ → Read Node) (gen : ℕ) (v : List ℕ) where
  -- With the parts of the keys given.
  parted-Inserted :
      (e e' : Bool) (fuel : ℕ) (k : List ℕ) (c : Node) (f : Flag) (key p : List ℕ) (a : ℕ)
      (k' : List ℕ)
      → (b : ℕ) (key' : List ℕ) → k ≡ p ++ a ∷ k'
      → key ≡ p ++ b ∷ key'
      → (b == a) ≡ false
      → Fits e' c
      → after e k ≡ some e'
      → after e key ≡ some true
      → Inserted load gen v e fuel (short_node k c f) key (
          if ltb a 17 && ltb b 17
          then changed load gen (lead_to load gen p (branch load gen a k' c b key' (value_node v)))
          else panic)
  parted-Inserted e e' fuel k c f key p a k' b key' split_k split_key parted fits hk h =
      let (hp, ha, hk') = at_fork e e' p a k' (subst (λ l. after e l ≡ some e') split_k hk) in
      let (_, hb, hkey') =
        at_fork e true p b key' (subst (λ l. after e l ≡ some true) split_key h) in
      rw (lt→ltb a 17 ha, lt→ltb b 17 hb)
        (subst (λ l. Right load e l (some v) (short_node k c f) (made a b k' key' p))
          (sym split_key)
          (subst
            (λ l. Right load e (p ++ b ∷ key') (some v) (short_node l c f) (made a b k' key' p))
            (sym split_k)
            (branch-Right load gen a k' c b key' v parted e e' p f hp ha hb hk' fits hkey')))
    where
      made : (a b : ℕ) → (k' key' p : List ℕ) → Node
      made a b k' key' p = lead_to load gen p (branch load gen a k' c b key' (value_node v))

  -- Where the keys part, neither ends there.
  insert-parted :
      (e : Bool) (fuel : ℕ) (k : List ℕ) (c : Node) (f : Flag) (key : List ℕ)
      → Fits e (short_node k c f)
      → after e key ≡ some true
      → (prefix_len key k == length k) ≡ false
      → Inserted load gen v e fuel (short_node k c f) key (
          branch_out load gen
            (prefix_len key k)
            k
            c
            key
            (value_node v)
            (get_elem? k (prefix_len key k))
            (get_elem? key (prefix_len key k)))
  unfolding Fits
  insert-parted e fuel k c f key (some_k, (e', hk, fits)) h m =
      let (_, _, same, parts) = prefix_len-Parts key k in
      elim (Option-cases (get_elem? k (prefix_len key k))) [
        | inl none_k ↦ let bad : true ≡ false = sym (none_at_end key k none_k) ∙ m in cc
        | inr (a, some_a) ↦
            let split_k : k ≡ take (prefix_len key k) key ++ a ∷ drop (suc (prefix_len key k)) k =
              rw same (split_at (prefix_len key k) k a some_a) in
            elim (Option-cases (get_elem? key (prefix_len key k))) [
              | inl none_key ↦
                  elim (no_more e e' key a (drop (suc (prefix_len key k)) k) h (
                    subst (λ p. after e (p ++ a ∷ drop (suc (prefix_len key k)) k) ≡ some e')
                      (beyond (prefix_len key k) key none_key)
                      (subst (λ l. after e l ≡ some e') split_k hk))) [ ]
              | inr (b, some_b) ↦
                  rw (some_a, some_b)
                    (parted-Inserted e e' fuel k c f key (take (prefix_len key k) key) a
                      (drop (suc (prefix_len key k)) k) b (drop (suc (prefix_len key k)) key)
                      split_k (split_at (prefix_len key k) key b some_b)
                      (subst (λ o. Parts o (some a)) some_b
                        (subst (Parts (get_elem? key (prefix_len key k))) some_a parts))
                      fits hk h)
            ]
      ]

  insert-hash :
      (fuel : ℕ) (next : Next load gen v) (h : ℕ) (prefix : List ℕ) (x : ℕ) (key : List ℕ)
      → Inserts load gen v fuel next
      → Loads (load h)
      → after false (x ∷ key) ≡ some true
      → Inserted load gen v false (suc fuel) (hash_node h) (x ∷ key) (
          change_loaded load gen
            (λ n. next n prefix (x ∷ key) (value_node v))
            (resolve_hash load gen h prefix))
  insert-hash fuel next h prefix x key all loads hk =
      loaded-Ends load gen (λ n g. find load (x ∷ key) n ≡ lost g) fuel h prefix (x ∷ key) (some v)
        (λ n. next n prefix (x ∷ key) (value_node v)) loads
        (λ n fits. all false n prefix (x ∷ key) fits hk)
        (λ n g e flat lack. find-hash load x key h n e flat ∙ lack) (find-Unread load x key h)

  insert-short_node :
      (e : Bool) (fuel : ℕ) (next : Next load gen v) (k : List ℕ) (c : Node) (f : Flag)
      (prefix key : List ℕ)
      → Inserts load gen v fuel next
      → Fits e (short_node k c f)
      → after e key ≡ some true
      → Inserted load gen v e
          (suc fuel)
          (short_node k c f)
          key
          (insert_short load gen next k c f prefix key (value_node v) (prefix_len key k))
  unfolding Fits
  insert-short_node e fuel next k c f prefix key all fits h =
      elim (Bool-cases (prefix_len key k == length k)) [
        | inl m ↦
            let (some_k, (e', hk, fits_c)) = fits in
            let whole = strip_sound k key (drop (prefix_len key k) key) (prefix_whole key k m) in
            rw m (
              subst
                (λ l. Inserted load gen v e (suc fuel) (short_node k c f) l (
                  rebuilt load gen (short_node k c f)
                    (λ c'. changed load gen (short_node k c' (new_flag load gen)))
                    (next c (prefix ++ take (prefix_len key k) key) (drop (prefix_len key k) key)
                      (value_node v))))
                (sym whole)
                (insert-whole load gen v e e' fuel next k c f
                  (prefix ++ take (prefix_len key k) key) (drop (prefix_len key k) key) all some_k
                  hk fits_c (subst (λ l. after e l ≡ some true) whole h)))
        | inr m ↦ rw m (insert-parted e (suc fuel) k c f key fits h m)
      ]

  insert_step-Inserts :
      (fuel : ℕ) (next : Next load gen v)
      → ((h : ℕ) → Loads (load h))
      → Inserts load gen v fuel next
      → Inserts load gen v (suc fuel) (insert_step load gen next)
  unfolding Fits insert_step
  insert_step-Inserts fuel next loads all e n prefix [] fits h =
      insert-end load gen v e (suc fuel) n h
  insert_step-Inserts fuel next loads all e nil prefix (x ∷ key) fits h =
      insert-nil load gen v e x key h
  insert_step-Inserts fuel next loads all e (value_node u) prefix (x ∷ key) fits h =
      let bad : none ≡ some true = subst (λ t. after t (x ∷ key) ≡ some true) fits h in cc
  insert_step-Inserts fuel next loads all e (short_node k c f) prefix (x ∷ key) fits h =
      insert-short_node e fuel next k c f prefix (x ∷ key) all fits h
  insert_step-Inserts fuel next loads all true (full_node cs f) prefix (x ∷ key) fits h = cc
  insert_step-Inserts fuel next loads all false (full_node cs f) prefix (x ∷ key) fits h =
      insert-full_node load gen v fuel next cs f prefix x key all fits.1 h
  insert_step-Inserts fuel next loads all true (hash_node g) prefix (x ∷ key) fits h = cc
  insert_step-Inserts fuel next loads all false (hash_node g) prefix (x ∷ key) fits h =
      insert-hash fuel next g prefix x key all (loads g) h

  -- Enough fuel or not: what `insert` gives is right.
  pub insert-Inserts :
      (fuel : ℕ) → ((h : ℕ) → Loads (load h)) → Inserts load gen v fuel (insert load gen fuel)
  unfolding insert
  insert-Inserts zero loads e n prefix key fits h = omega arith
  insert-Inserts (suc fuel) loads e n prefix key fits h =
      insert_step-Inserts fuel (insert load gen fuel) loads (insert-Inserts fuel loads) e n prefix
        key fits h
