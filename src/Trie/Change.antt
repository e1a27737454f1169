-- ===== src/Trie/Change.antt =====
-- `insert` and `delete` (trie/trie.go), one call at a time: the first argument is the next call.
use mjoy_go.Base.{
  ℕ, zero, suc, Bool, true, false, not, ◌&&◌, Option, none, some, List, [], ◌∷◌, ◌++◌, length, take,
  drop, get_elem?, ltb, ◌==◌, if◌then◌else◌,
}
use mjoy_go.State.Types.{Read}
use mjoy_go.Trie.Encoding.{prefix_len}
use mjoy_go.Trie.Node.{
  Flag, Node, nil, value_node, short_node, full_node, hash_node, Children, end, child, at, put,
  no_children,
}
use mjoy_go.Trie.Walk.{
  Outcome, done, missing_node, panic, exhausted, Changed, equal, new_flag, resolve_hash, resolve,
}

abbrev pub differ : Node → Node → Bool
differ (value_node u) (value_node v) = not (equal u v)
differ _ _ = true

-- Whether a node is left after all.
pub data Lone : Type 0 where
  nobody several : Lone
  only : ℕ → Node → Lone

abbrev pub all_nil : Children → Bool
all_nil end = true
all_nil (child nil cs) = all_nil cs
all_nil (child n cs) = false

abbrev pub lone_or : Bool → ℕ → Node → Lone
lone_or true i n = only i n
lone_or false i n = several

-- The loop over the children that looks for a single one, from the index `i` on.
abbrev pub lone : ℕ → Children → Lone
lone i end = nobody
lone i (child nil cs) = lone (suc i) cs
lone i (child n cs) = lone_or (all_nil cs) i n

module _ (load : ℕ → Read Node) (gen : ℕ) where
  abbrev flag : Flag
  flag = new_flag load gen

  -- A short node over a node, or the node itself where no key is left: `insert` into nil, and the
  -- way to a branch.
  abbrev pub lead_to : List ℕ → Node → Node
  lead_to [] n = n
  lead_to (x ∷ k) n = short_node (x ∷ k) n flag

  -- The old node where nothing has changed, or what is made of the new child.
  abbrev pub rebuilt : Node → (Node → Changed) → Changed → Changed
  rebuilt n f (done (false, _)) = done (false, n)
  rebuilt n f (done (true, c)) = f c
  rebuilt n f (missing_node h p) = missing_node h p
  rebuilt n f panic = panic
  rebuilt n f exhausted = exhausted

  abbrev pub changed : Node → Changed
  changed n = done (true, n)

  -- The branch where a short node's key and the new key part, at the nibbles `a` and `b`.
  abbrev pub branch : ℕ → List ℕ → Node → ℕ → List ℕ → Node → Node
  branch a k c b key v = full_node (put b (lead_to key v) (put a (lead_to k c) no_children)) flag

  abbrev pub branch_out : ℕ → List ℕ → Node → List ℕ → Node → Option ℕ → Option ℕ → Changed
  branch_out m k c key v none b = panic
  branch_out m k c key v (some a) none = panic
  branch_out m k c key v (some a) (some b) =
      if ltb a 17 && ltb b 17
      then changed (lead_to (take m key) (branch a (drop (suc m) k) c b (drop (suc m) key) v))
      else panic

  abbrev pub insert_short :
      (Node → List ℕ → List ℕ → Node → Changed)
      → List ℕ
      → Node
      → Flag
      → List ℕ
      → List ℕ
      → Node
      → ℕ
      → Changed
  insert_short insert k c f prefix key v m =
      if m == length k
      then rebuilt (short_node k c f) (λ c'. changed (short_node k c' flag))
          (insert c (prefix ++ take m key) (drop m key) v)
      else branch_out m k c key v (get_elem? k m) (get_elem? key m)

  abbrev pub insert_full :
      (Node → List ℕ → List ℕ → Node → Changed)
      → Children
      → Flag
      → List ℕ
      → ℕ
      → List ℕ
      → Node
      → Option Node
      → Changed
  insert_full insert cs f prefix x key v none = panic
  insert_full insert cs f prefix x key v (some c) =
      rebuilt (full_node cs f) (λ c'. changed (full_node (put x c' cs) flag))
        (insert c (prefix ++ x ∷ []) key v)

  -- A node of the database is changed, and comes into the trie either way.
  abbrev pub change_loaded : (Node → Changed) → Outcome Node → Changed
  change_loaded change (done n) = rebuilt n changed (change n)
  change_loaded change (missing_node h p) = missing_node h p
  change_loaded change panic = panic
  change_loaded change exhausted = exhausted

  unfoldable pub insert_step :
      (Node → List ℕ → List ℕ → Node → Changed) → Node → List ℕ → List ℕ → Node → Changed
  insert_step insert n prefix [] v = done (differ n v, v)
  insert_step insert nil prefix (x ∷ key) v = changed (short_node (x ∷ key) v flag)
  insert_step insert (value_node u) prefix (x ∷ key) v = panic
  insert_step insert (short_node k c f) prefix (x ∷ key) v =
      insert_short insert k c f prefix (x ∷ key) v (prefix_len (x ∷ key) k)
  insert_step insert (full_node cs f) prefix (x ∷ key) v =
      insert_full insert cs f prefix x key v (at x cs)
  insert_step insert (hash_node h) prefix (x ∷ key) v =
      change_loaded (λ n. insert n prefix (x ∷ key) v) (resolve_hash load gen h prefix)

  unfoldable pub insert : ℕ → Node → List ℕ → List ℕ → Node → Changed
  insert zero n prefix key v = exhausted
  insert (suc fuel) n prefix key v = insert_step (insert fuel) n prefix key v

  -- Two short nodes in a row become one.
  abbrev pub merge : List ℕ → Node → Node
  merge k (short_node l c f) = short_node (k ++ l) c flag
  merge k c = short_node k c flag

  abbrev pub delete_short :
      (Node → List ℕ → List ℕ → Changed) → List ℕ → Node → Flag → List ℕ → List ℕ → ℕ → Changed
  delete_short delete k c f prefix key m =
      if ltb m (length k)
      then done (false, short_node k c f)
      else (if m == length key
          then changed nil
          else rebuilt (short_node k c f) (λ c'. changed (merge k c'))
              (delete c (prefix ++ take (length k) key) (drop (length k) key)))

  -- The last child takes the place of a full node, merged if it is a short node itself.
  abbrev pub hoist : ℕ → Node → Outcome Node → Changed
  hoist i c (done (short_node k d f)) = changed (short_node (i ∷ k) d flag)
  hoist i c (done n) = changed (short_node (i ∷ []) c flag)
  hoist i c (missing_node h p) = missing_node h p
  hoist i c panic = panic
  hoist i c exhausted = exhausted

  abbrev pub reduce : List ℕ → Children → Lone → Changed
  reduce prefix cs nobody = changed (full_node cs flag)
  reduce prefix cs several = changed (full_node cs flag)
  reduce prefix cs (only i c) =
      if i == 16
      then changed (short_node (i ∷ []) c flag)
      else hoist i c (resolve load gen c prefix)

  abbrev pub delete_full :
      (Node → List ℕ → List ℕ → Changed)
      → Children
      → Flag
      → List ℕ
      → ℕ
      → List ℕ
      → Option Node
      → Changed
  delete_full delete cs f prefix x key none = panic
  delete_full delete cs f prefix x key (some c) =
      rebuilt (full_node cs f) (λ c'. reduce prefix (put x c' cs) (lone 0 (put x c' cs)))
        (delete c (prefix ++ x ∷ []) key)

  unfoldable pub delete_step : (Node → List ℕ → List ℕ → Changed) → Node → List ℕ → List ℕ → Changed
  delete_step delete nil prefix key = done (false, nil)
  delete_step delete (value_node v) prefix key = changed nil
  delete_step delete (short_node k c f) prefix key =
      delete_short delete k c f prefix key (prefix_len key k)
  delete_step delete (full_node cs f) prefix [] = panic
  delete_step delete (full_node cs f) prefix (x ∷ key) =
      delete_full delete cs f prefix x key (at x cs)
  delete_step delete (hash_node h) prefix key =
      change_loaded (λ n. delete n prefix key) (resolve_hash load gen h prefix)

  unfoldable pub delete : ℕ → Node → List ℕ → List ℕ → Changed
  delete zero n prefix key = exhausted
  delete (suc fuel) n prefix key = delete_step (delete fuel) n prefix key
