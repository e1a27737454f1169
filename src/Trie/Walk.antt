-- ===== src/Trie/Walk.antt =====
-- `Trie` (trie/trie.go): reading, inserting and deleting. `load` is what the database gives for a
-- hash, decoded: `garbled` where the decoding panics. The recursion is on fuel, since a node of the
-- database may come up at any step; `exhausted` is where the fuel ends.
use mjoy_go.Base.{
  ℕ, zero, suc, Bool, true, false, Option, none, some, List, [], ◌∷◌, ◌++◌, ◌==◌, if◌then◌else◌,
}
use mjoy_go.State.Types.{Read, entry, absent, garbled, fault}
use mjoy_go.Trie.Node.{
  Flag, Node, nil, value_node, short_node, full_node, hash_node, Children, at, put,
}

pub data Outcome (A : Type 0) : Type 0 where
  done : A → Outcome A
  missing_node : ℕ → List ℕ → Outcome A
  panic : Outcome A
  exhausted : Outcome A

-- What `insert` and `delete` return: whether the node has changed, and the node.
abbrev pub Changed : Type 0
Changed = Outcome (Bool × Node)

abbrev pub equal : List ℕ → List ℕ → Bool
equal [] [] = true
equal [] (y ∷ ys) = false
equal (x ∷ xs) [] = false
equal (x ∷ xs) (y ∷ ys) = if x == y then equal xs ys else false

-- The rest of a key behind a short node's, if it begins with that: the test of the lengths,
-- `bytes.Equal` and `pos+len(n.Key)`.
abbrev pub strip : List ℕ → List ℕ → Option (List ℕ)
strip [] key = some key
strip (y ∷ k) [] = none
strip (y ∷ k) (x ∷ key) = if x == y then strip k key else none

module _ (load : ℕ → Read Node) (gen : ℕ) where
  -- `newFlag`
  abbrev pub new_flag : Flag
  new_flag = record { hash = none; gen = gen; dirty = true }

  abbrev pub loaded : ℕ → List ℕ → Read Node → Outcome Node
  loaded h prefix (entry n) = done n
  loaded h prefix absent = missing_node h prefix
  loaded h prefix (fault e) = missing_node h prefix
  loaded h prefix garbled = panic

  unfoldable pub resolve_hash : ℕ → List ℕ → Outcome Node
  resolve_hash h prefix = loaded h prefix (load h)

  unfoldable pub resolve : Node → List ℕ → Outcome Node
  resolve (hash_node h) prefix = resolve_hash h prefix
  resolve n prefix = done n

  -- The value, the node, and whether a node of the database has come into it.
  abbrev pub Got : Type 0
  Got = Outcome (Option (List ℕ) × Node × Bool)

  -- The copy of a node with a loaded child has the present generation.
  abbrev pub renewed : Flag → Flag
  renewed f = record f { gen = gen }

  abbrev pub under_short : List ℕ → Node → Flag → Got → Got
  under_short k c f (done (v, c', true)) = done (v, short_node k c' (renewed f), true)
  under_short k c f (done (v, c', false)) = done (v, short_node k c f, false)
  under_short k c f (missing_node h p) = missing_node h p
  under_short k c f panic = panic
  under_short k c f exhausted = exhausted

  abbrev pub under_full : ℕ → Children → Flag → Got → Got
  under_full i cs f (done (v, c', true)) = done (v, full_node (put i c' cs) (renewed f), true)
  under_full i cs f (done (v, c', false)) = done (v, full_node cs f, false)
  under_full i cs f (missing_node h p) = missing_node h p
  under_full i cs f panic = panic
  under_full i cs f exhausted = exhausted

  abbrev pub under_hash : Got → Got
  under_hash (done (v, n, _)) = done (v, n, true)
  under_hash (missing_node h p) = missing_node h p
  under_hash panic = panic
  under_hash exhausted = exhausted

  -- One call of `tryGet`, where `get` is the next one. The key is what lies behind `pos`, and the
  -- prefix what lies before it.
  abbrev pub get_short :
      (Node → List ℕ → List ℕ → Got) → List ℕ → Node → Flag → List ℕ → Option (List ℕ) → Got
  get_short get k c f prefix none = done (none, short_node k c f, false)
  get_short get k c f prefix (some rest) = under_short k c f (get c (prefix ++ k) rest)

  abbrev pub get_full :
      (Node → List ℕ → List ℕ → Got) → Children → Flag → List ℕ → ℕ → List ℕ → Option Node → Got
  get_full get cs f prefix x key none = panic
  get_full get cs f prefix x key (some c) = under_full x cs f (get c (prefix ++ x ∷ []) key)

  abbrev pub get_loaded : (Node → List ℕ → List ℕ → Got) → List ℕ → List ℕ → Outcome Node → Got
  get_loaded get prefix key (done n) = under_hash (get n prefix key)
  get_loaded get prefix key (missing_node h p) = missing_node h p
  get_loaded get prefix key panic = panic
  get_loaded get prefix key exhausted = exhausted

  unfoldable pub get_step : (Node → List ℕ → List ℕ → Got) → Node → List ℕ → List ℕ → Got
  get_step get nil prefix key = done (none, nil, false)
  get_step get (value_node v) prefix key = done (some v, value_node v, false)
  get_step get (short_node k c f) prefix key = get_short get k c f prefix (strip k key)
  get_step get (full_node cs f) prefix [] = panic
  get_step get (full_node cs f) prefix (x ∷ key) = get_full get cs f prefix x key (at x cs)
  get_step get (hash_node h) prefix key = get_loaded get prefix key (resolve_hash h prefix)

  unfoldable pub get_node : ℕ → Node → List ℕ → List ℕ → Got
  get_node zero n prefix key = exhausted
  get_node (suc fuel) n prefix key = get_step (get_node fuel) n prefix key
