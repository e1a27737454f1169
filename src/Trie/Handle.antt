-- ===== src/Trie/Handle.antt =====
-- `Trie` (trie/trie.go): a trie over a database. `load` is the database, as in `Walk`; a trie without
-- one has a `load` that gives nothing.
use mjoy_go.Base.{
  ℕ, ◌+◌, ◌*◌, true, false, ◌||◌, Option, List, [], ◌∷◌, length, ◌==◌, if◌then◌else◌,
}
use mjoy_go.State.Types.{Read}
use mjoy_go.Trie.Encoding.{keybytes_to_hex}
use mjoy_go.Trie.Node.{Node, nil, value_node}
use mjoy_go.Trie.Walk.{
  Outcome, done, missing_node, panic, exhausted, Changed, Got, resolve_hash, get_node,
}
use mjoy_go.Trie.Change.{insert, delete}

-- `Trie`; its database is an argument of the operations.
pub record Trie : Type 0 where
  pub root : Node
  pub original_root : ℕ
  pub cachegen : ℕ
  pub cachelimit : ℕ

-- Two calls for a nibble, and two more.
abbrev pub fuel_for : List ℕ → ℕ
fuel_for key = 2 * length (keybytes_to_hex key) + 2

abbrev pub set_cache_limit : Trie → ℕ → Trie
set_cache_limit t l = record t { cachelimit = l }

module _ (load : ℕ → Read Node) where
  abbrev pub opened : ℕ → Outcome Node → Outcome Trie
  opened h (done n) = done (record { root = n; original_root = h; cachegen = 0; cachelimit = 0 })
  opened h (missing_node g p) = missing_node g p
  opened h panic = panic
  opened h exhausted = exhausted

  -- `New`, over a database: `empty_root` is the hash of an empty trie.
  abbrev pub new : ℕ → ℕ → Outcome Trie
  new empty_root h =
      if h == 0 || h == empty_root then opened h (done nil) else opened h (resolve_hash load 0 h [])

  abbrev pub got_by : (t : Trie) → Got load t.cachegen → Outcome (Option (List ℕ) × Trie)
  got_by t (done (v, n, true)) = done (v, record t { root = n })
  got_by t (done (v, n, false)) = done (v, t)
  got_by t (missing_node h p) = missing_node h p
  got_by t panic = panic
  got_by t exhausted = exhausted

  unfoldable pub try_get : Trie → List ℕ → Outcome (Option (List ℕ) × Trie)
  try_get t key = got_by t (get_node load t.cachegen (fuel_for key) t.root [] (keybytes_to_hex key))

  abbrev pub changed_by : Trie → Changed → Outcome Trie
  changed_by t (done (dirty, n)) = done (record t { root = n })
  changed_by t (missing_node h p) = missing_node h p
  changed_by t panic = panic
  changed_by t exhausted = exhausted

  unfoldable pub try_delete : Trie → List ℕ → Outcome Trie
  try_delete t key =
      changed_by t (delete load t.cachegen (fuel_for key) t.root [] (keybytes_to_hex key))

  unfoldable pub try_update : Trie → List ℕ → List ℕ → Outcome Trie
  try_update t key [] =
      changed_by t (delete load t.cachegen (fuel_for key) t.root [] (keybytes_to_hex key))
  try_update t key (b ∷ value) = changed_by t (
      insert load t.cachegen (fuel_for key) t.root [] (keybytes_to_hex key)
        (value_node (b ∷ value)))
