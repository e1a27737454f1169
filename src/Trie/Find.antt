-- ===== src/Trie/Find.antt =====
-- What a trie holds, read one nibble at a time: the reference for trie/trie.go. A node of the
-- database that cannot be had makes the answer `lost`.
use mjoy_go.Base.{
  ℕ, suc, ◌≡◌, Bool, true, false, Option, none, some, List, [], ◌∷◌, ltb, ◌==◌, if◌then◌else◌,
}
use mjoy_go.State.Types.{Read, entry, absent, garbled, fault}
use mjoy_go.Trie.Node.{
  Flag, Node, nil, value_node, short_node, full_node, hash_node, Children, end, child, at,
}

pub data Found : Type 0 where
  found : Option (List ℕ) → Found
  lost : ℕ → Found

pub data Step : Type 0 where
  to : Node → Step
  stuck : ℕ → Step

-- A short node whose key has lost its first nibble.
abbrev pub tail_of : List ℕ → Node → Flag → Node
tail_of [] c f = c
tail_of (x ∷ k) c f = short_node (x ∷ k) c f

abbrev pub child_or_nil : Option Node → Node
child_or_nil none = nil
child_or_nil (some c) = c

-- The node behind a nibble, where none has to be loaded.
abbrev pub step_in : ℕ → Node → Node
step_in x nil = nil
step_in x (value_node v) = nil
step_in x (short_node [] c f) = nil
step_in x (short_node (y ∷ k) c f) = if x == y then tail_of k c f else nil
step_in x (full_node cs f) = child_or_nil (at x cs)
step_in x (hash_node h) = nil

abbrev pub final : Node → Found
final (value_node v) = found (some v)
final _ = found none

module _ (load : ℕ → Read Node) where
  abbrev pub step_loaded : ℕ → ℕ → Read Node → Step
  step_loaded x h (entry n) = to (step_in x n)
  step_loaded x h absent = stuck h
  step_loaded x h (fault e) = stuck h
  step_loaded x h garbled = stuck h

  abbrev pub step : ℕ → Node → Step
  step x (hash_node h) = step_loaded x h (load h)
  step x n = to (step_in x n)

  unfoldable pub find : List ℕ → Node → Found
  find [] n = final n
  find (x ∷ key) n = elim (step x n) [ to m ↦ find key m | stuck h ↦ lost h ]

  abbrev pub find_after : Option (List ℕ) → Node → Found
  find_after none n = found none
  find_after (some key) n = find key n

-- Where a key gets to: `true` behind the terminator, where nothing may follow.
abbrev pub after : Bool → List ℕ → Option Bool
after ended [] = some ended
after true (x ∷ key) = none
after false (x ∷ key) = if ltb x 17 then after (x == 16) key else none

abbrev pub is_hash : Node → Bool
is_hash (hash_node h) = true
is_hash _ = false

abbrev pub nonempty : List ℕ → Bool
nonempty [] = false
nonempty (x ∷ k) = true

-- A node in its place: values stand behind the terminator and nothing else does, short nodes have
-- keys, full nodes have 17 children.
unfoldable mutual
  pub Fits : Bool → Node → Type 0
  Fits ended nil = Unit
  Fits ended (value_node v) = ended ≡ true
  Fits ended (short_node k c f) =
      (nonempty k ≡ true) × ((e : Bool) × (after ended k ≡ some e) × Fits e c)
  Fits ended (full_node cs f) = (ended ≡ false) × FitsAll 0 cs
  Fits ended (hash_node h) = ended ≡ false

  pub FitsAll : ℕ → Children → Type 0
  FitsAll i end = i ≡ 17
  FitsAll i (child n cs) = Fits (i == 16) n × FitsAll (suc i) cs

-- What the database may give: nodes that are in their place, and no hash at once.
abbrev pub Loads : Read Node → Type 0
Loads (entry n) = Fits false n × (is_hash n ≡ false)
Loads absent = Unit
Loads (fault e) = Unit
Loads garbled = ⊥
