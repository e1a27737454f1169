-- ===== src/Trie/Node.antt =====
-- The nodes of a trie (trie/node.go). A hash is a number; a `ValueNode` holds the bytes of a value.
use mjoy_go.Base.{
  ℕ, ◌+◌, ◌-◌, ◌%◌, Bool, true, false, not, ◌&&◌, Option, none, some, List, leb, ◌==◌,
  if◌then◌else◌,
}

-- `nodeFlag`
pub record Flag : Type 0 where
  pub hash : Option ℕ
  pub gen : ℕ
  pub dirty : Bool

mutual
  pub data Node : Type 0 where
    nil : Node
    value_node : List ℕ → Node
    short_node : List ℕ → Node → Flag → Node
    full_node : Children → Flag → Node
    hash_node : ℕ → Node

  pub data Children : Type 0 where
    end : Children
    child : Node → Children → Children

-- `n.Children[i]`, `none` out of range
abbrev pub at : ℕ → Children → Option Node
at i end = none
at i (child n cs) = if i == 0 then some n else at (i - 1) cs

-- `n.Children[i] = m`, in range
abbrev pub put : ℕ → Node → Children → Children
put i m end = end
put i m (child n cs) = if i == 0 then child m cs else child n (put (i - 1) m cs)

-- `[17]NodeIntf{}`
unfoldable pub no_children : Children
no_children = child nil (
    child nil (
      child nil (
        child nil (
          child nil (
            child nil (
              child nil (
                child nil (
                  child nil (
                    child nil (
                      child nil (
                        child nil
                          (child nil (child nil (child nil (child nil (child nil end))))))))))))))))

-- `canUnload`, with the difference of two uint16
abbrev pub can_unload_flag : Flag → ℕ → ℕ → Bool
can_unload_flag f gen limit = not f.dirty && leb limit ((gen + 65536 - f.gen) % 65536)

abbrev pub can_unload : Node → ℕ → ℕ → Bool
can_unload (full_node cs f) gen limit = can_unload_flag f gen limit
can_unload (short_node k c f) gen limit = can_unload_flag f gen limit
can_unload (hash_node h) gen limit = false
can_unload (value_node v) gen limit = false
can_unload nil gen limit = false

-- `cache`: the cached hash, and whether the node is dirty
abbrev pub cache : Node → Option ℕ × Bool
cache (full_node cs f) = (f.hash, f.dirty)
cache (short_node k c f) = (f.hash, f.dirty)
cache (hash_node h) = (none, true)
cache (value_node v) = (none, true)
cache nil = (none, true)
