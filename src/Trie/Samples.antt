-- ===== src/Trie/Samples.antt =====
-- A trie over a small database, and the theorems on tries at its keys.
use mjoy_go.Base.{
  ℕ, ◌≡◌, ◌≢◌, refl, true, false, none, some, List, [], ◌∷◌, ◌==◌, if◌then◌else◌, arith,
}
use mjoy_go.State.Types.{Read, entry, absent}
use mjoy_go.Trie.Encoding.{keybytes_to_hex, prefix_len}
use mjoy_go.Trie.Nibbles.{Below}
use mjoy_go.Trie.Node.{Flag, Node, nil, value_node, short_node, hash_node, no_children}
use mjoy_go.Trie.Walk.{Outcome, done, exhausted, get_node, resolve_hash}
use mjoy_go.Trie.Change.{insert, insert_step, delete}
use mjoy_go.Trie.Find.{found, find, Fits, Loads}
use mjoy_go.Trie.Handle.{new, Trie, try_get, try_update, try_delete}
use mjoy_go.Trie.Contents.{
  Opens, new-Opens, as_value, Sound, contents, Reads, Writes, try_get-Reads, try_update-Writes,
  try_delete-Writes,
}
use mjoy_go.Trie.Updates.{answer, updates, try_get-try_update, updates-try_get}
use mjoy_go.Trie.Fuel.{trie_calls_end}

abbrev old_flag : Flag
old_flag = record { hash = some 7; gen = 0; dirty = false }

-- Under the hash 7 the database has a node with the value 5 at the key 18.
abbrev stored : Read Node
stored = entry (short_node (1 ∷ 2 ∷ 16 ∷ []) (value_node (5 ∷ [])) old_flag)

abbrev database : ℕ → Read Node
database h = if h == 7 then stored else absent

database-Loads : (h : ℕ) → Loads (database h)
unfolding Fits
database-Loads h = elim (h == 7) as (λ b. Loads (if b then stored else absent)) [
  | true ↦ ((refl, (true, refl, refl)), refl)
  | false ↦ tt
]

abbrev sample : Trie
sample = record { root = hash_node 7; original_root = 7; cachegen = 1; cachelimit = 0 }

sample-Sound : Sound sample
unfolding Fits
sample-Sound = refl

abbrev key : List ℕ
key = 18 ∷ []

abbrev other : List ℕ
other = 19 ∷ []

key-Below : Below 256 key
key-Below = (omega arith, tt)

other-Below : Below 256 other
other-Below = (omega arith, tt)

abbrev trie_of : Trie → Outcome Trie → Trie
trie_of t (done t') = t'
trie_of t r = t

abbrev changed : Trie
changed = trie_of sample (try_update database sample other (6 ∷ []))

changed_done : try_update database sample other (6 ∷ []) ≡ done changed
unfolding try_update insert insert_step resolve_hash no_children prefix_len keybytes_to_hex
changed_done = refl

old_value : contents database sample key ≡ found (some (5 ∷ []))
unfolding find keybytes_to_hex
old_value = refl

try_get-Reads_example : Reads database sample key (try_get database sample key)
try_get-Reads_example = try_get-Reads database database-Loads sample key sample-Sound key-Below

try_update-Writes_example :
    Writes database sample other (as_value (6 ∷ [])) (try_update database sample other (6 ∷ []))
try_update-Writes_example =
    try_update-Writes database database-Loads sample other (6 ∷ []) sample-Sound other-Below

try_delete-Writes_example : Writes database sample key none (try_delete database sample key)
try_delete-Writes_example =
    try_delete-Writes database database-Loads sample key sample-Sound key-Below

try_get-try_update_example :
    (t'' : Trie) × (try_get database changed key ≡ done (some (5 ∷ []), t''))
try_get-try_update_example =
    try_get-try_update database database-Loads sample changed other (6 ∷ []) key (some (5 ∷ []))
      sample-Sound other-Below key-Below changed_done old_value

abbrev no_nodes : Trie
no_nodes = record { root = nil; original_root = 0; cachegen = 0; cachelimit = 0 }

abbrev writes : List (List ℕ × List ℕ)
writes = (key, 1 ∷ []) ∷ (other, 2 ∷ []) ∷ (key, []) ∷ []

updates-try_get_example :
    (t' : Trie) × (updates database no_nodes writes ≡ done t')
    × ((k : List ℕ)
        → Below 256 k
        → (t'' : Trie) × (try_get database t' k ≡ done (answer writes k none, t'')))
updates-try_get_example =
    updates-try_get database database-Loads no_nodes writes refl
      (key-Below, (other-Below, (key-Below, tt)))

trie_calls_end_example :
    (get_node database 1 8 (hash_node 7) [] (1 ∷ 2 ∷ 16 ∷ []) ≢ exhausted)
    × (insert database 1 8 (hash_node 7) [] (1 ∷ 2 ∷ 16 ∷ []) (value_node (6 ∷ [])) ≢ exhausted)
    × (delete database 1 8 (hash_node 7) [] (1 ∷ 2 ∷ 16 ∷ []) ≢ exhausted)
trie_calls_end_example =
    trie_calls_end database database-Loads 1 8 false (hash_node 7) [] (1 ∷ 2 ∷ 16 ∷ []) (6 ∷ [])
      sample-Sound refl (omega arith)

new-Opens_example : Opens database 7 (hash_node 7) (new database 9 7)
new-Opens_example = new-Opens database database-Loads 9 7
