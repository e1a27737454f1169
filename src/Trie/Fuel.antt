-- ===== src/Trie/Fuel.antt =====
-- The recursion of `tryGet`, `insert` and `delete` (trie/trie.go) ends: two calls for a nibble of the
-- key, and one more at a hash.
use mjoy_go.Base.{ℕ, ◌+◌, ◌<◌, ◌≡◌, ◌≢◌, Bool, none, true, some, List, length, arith, subst}
use mjoy_go.State.Types.{Read}
use mjoy_go.Trie.Node.{Node, value_node}
use mjoy_go.Trie.Walk.{exhausted, get_node}
use mjoy_go.Trie.Change.{insert, delete}
use mjoy_go.Trie.Find.{find, lost, after, Fits, Loads}
use mjoy_go.Trie.Ends.{Ends, Right, Lost, Enough, weight}
use mjoy_go.Trie.Insert.{insert-Inserts}
use mjoy_go.Trie.Delete.{delete-Deletes}
use mjoy_go.Trie.Get.{Gotten, get_node-Gets}

module _ (load : ℕ → Read Node) (loads : (h : ℕ) → Loads (load h)) (gen : ℕ) where
  -- On a node in its place, over a database of sound nodes, and with a key that ends with the
  -- terminator, tryGet, insert and delete end within two calls for each nibble of the key, one more
  -- for a hash, and one.
  pub trie_calls_end :
      (fuel : ℕ) (e : Bool) (n : Node) (prefix key v : List ℕ)
      → Fits e n
      → after e key ≡ some true
      → length key + length key + weight n < fuel
      → (get_node load gen fuel n prefix key ≢ exhausted)
        × (insert load gen fuel n prefix key (value_node v) ≢ exhausted)
        × (delete load gen fuel n prefix key ≢ exhausted)
  trie_calls_end fuel e n prefix key v fits h enough = (
    λ out. few (
        subst (Gotten load gen e fuel n key) out
          (get_node-Gets load gen fuel loads e n prefix key fits h)),
    λ out. few (
        subst
          (Ends (Right load e key (some v) n) n (λ g. find load key n ≡ lost g) (Enough fuel key n))
          out (insert-Inserts load gen v fuel loads e n prefix key fits h)),
    λ out. few (
        subst (Ends (Right load e key none n) n (Lost load e n) (Enough fuel key n)) out
          (delete-Deletes load gen fuel loads e n prefix key fits h)),
  )
    where
      few : Enough fuel key n → ⊥
      few h = omega arith
