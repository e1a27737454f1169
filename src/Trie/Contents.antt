-- ===== src/Trie/Contents.antt =====
-- What the operations of a `Trie` (trie/trie.go) do to the values it holds.
use mjoy_go.Base.{
  ◌||◌, ◌==◌, if◌then◌else◌, Bool-cases, inl, inr, sym, subst, ℕ, ◌≡◌, refl, true, false, Option,
  none, some, List, [], ◌∷◌, arith,
}
use mjoy_go.State.Types.{Read, entry, absent, fault, garbled}
use mjoy_go.Trie.Encoding.{keybytes_to_hex}
use mjoy_go.Trie.Nibbles.{Below}
use mjoy_go.Trie.Node.{hash_node, nil, Node, value_node}
use mjoy_go.Trie.Walk.{
  loaded, resolve_hash, Outcome, done, missing_node, panic, exhausted, Changed, Got, get_node,
}
use mjoy_go.Trie.Change.{insert, delete}
use mjoy_go.Trie.Find.{Found, found, lost, find, Fits, Loads}
use mjoy_go.Trie.Ends.{Ends, Enough, Same, Lost, Right}
use mjoy_go.Trie.Insert.{insert-Inserts}
use mjoy_go.Trie.Delete.{delete-Deletes}
use mjoy_go.Trie.Get.{Gotten, get_node-Gets}
use mjoy_go.Trie.Loaded.{Unread, weight_le}
use mjoy_go.Trie.Alike.{hash-Same}
use mjoy_go.Trie.Bytes.{keybytes_to_hex-ended}
use mjoy_go.Trie.Handle.{
  new, opened, Trie, fuel_for, got_by, try_get, changed_by, try_delete, try_update,
}

-- An empty value is no value.
abbrev pub as_value : List ℕ → Option (List ℕ)
as_value [] = none
as_value (b ∷ value) = some (b ∷ value)

abbrev pub Sound : Trie → Type 0
Sound t = Fits false t.root

fuel-Enough : (key : List ℕ) (n : Node) → Enough (fuel_for key) (keybytes_to_hex key) n → ⊥
fuel-Enough key n h = let few = weight_le n in omega arith

module _ (load : ℕ → Read Node) where
  -- The value at a key, read off the nodes.
  abbrev pub contents : Trie → List ℕ → Found
  contents t key = find load (keybytes_to_hex key) t.root

  -- The value is the trie's, and the trie goes on answering every key as before. A node is missing
  -- only where the key has no answer.
  abbrev pub Reads : Trie → List ℕ → Outcome (Option (List ℕ) × Trie) → Type 0
  Reads t key (done (v, t')) = (contents t key ≡ found v) × Same load false t.root t'.root
  Reads t key (missing_node h p) = contents t key ≡ lost h
  Reads t key panic = ⊥
  Reads t key exhausted = ⊥

  -- The key has the new value, or none, and every other key the old one. A node is missing only where
  -- some key has no answer.
  abbrev pub Writes : Trie → List ℕ → Option (List ℕ) → Outcome Trie → Type 0
  Writes t key new (done t') = Right load false (keybytes_to_hex key) new t.root t'.root
  Writes t key new (missing_node h p) = Lost load false t.root h
  Writes t key new panic = ⊥
  Writes t key new exhausted = ⊥

  got_by-Reads :
      (t : Trie) (key : List ℕ) (got : Got load t.cachegen)
      → Sound t
      → Gotten load t.cachegen false (fuel_for key) t.root (keybytes_to_hex key) got
      → Reads t key (got_by load t got)
  got_by-Reads t key (done (v, n, true)) sound h = h
  got_by-Reads t key (done (v, n, false)) sound (value, same) = (value, (sound, λ q hq. refl))
  got_by-Reads t key (missing_node g p) sound h = h
  got_by-Reads t key panic sound h = h
  got_by-Reads t key exhausted sound h = fuel-Enough key t.root h

  changed_by-Writes :
      (t : Trie) (key : List ℕ) (new : Option (List ℕ)) (r : Changed) (Miss : ℕ → Type 0)
      → Ends
          (Right load false (keybytes_to_hex key) new t.root)
          t.root
          Miss
          (Enough (fuel_for key) (keybytes_to_hex key) t.root)
          r
      → ((h : ℕ) → Miss h → Lost load false t.root h)
      → Writes t key new (changed_by load t r)
  changed_by-Writes t key new (done (true, n)) Miss ends miss = ends
  changed_by-Writes t key new (done (false, n)) Miss (ends, _) miss = ends
  changed_by-Writes t key new (missing_node g p) Miss ends miss = miss g ends
  changed_by-Writes t key new panic Miss ends miss = ends
  changed_by-Writes t key new exhausted Miss ends miss = fuel-Enough key t.root ends

  -- The trie that is opened, and where none is.
  abbrev pub Opens : ℕ → Node → Outcome Trie → Type 0
  Opens h n (done t) = (t.original_root ≡ h) × Same load false n t.root
  Opens h n (missing_node g p) = (g ≡ h) × Unread load (load h)
  Opens h n panic = ⊥
  Opens h n exhausted = ⊥

  module _ (loads : (h : ℕ) → Loads (load h)) where
    -- On a sound trie over a database of sound nodes, TryGet of a key of bytes ends without a panic. Its
    -- value is the one that the nodes hold at the key, and the trie is sound and answers every key as
    -- before; or a node is missing, and then the key has no answer.
    pub try_get-Reads :
        (t : Trie) (key : List ℕ) → Sound t → Below 256 key → Reads t key (try_get load t key)
    unfolding try_get
    try_get-Reads t key sound bytes =
        got_by-Reads t key (get_node load t.cachegen (fuel_for key) t.root [] (keybytes_to_hex key))
          sound
          (get_node-Gets load t.cachegen (fuel_for key) loads false t.root [] (keybytes_to_hex key)
            sound (keybytes_to_hex-ended key bytes))

    -- On a sound trie over a database of sound nodes, TryDelete of a key of bytes ends without a panic. The
    -- trie is sound, the key has no value and every other key is answered as before; or a node is
    -- missing, and then there is a key that the trie has no answer to.
    pub try_delete-Writes :
        (t : Trie) (key : List ℕ)
        → Sound t
        → Below 256 key
        → Writes t key none (try_delete load t key)
    unfolding try_delete
    try_delete-Writes t key sound bytes =
        changed_by-Writes t key none
          (delete load t.cachegen (fuel_for key) t.root [] (keybytes_to_hex key))
          (Lost load false t.root)
          (delete-Deletes load t.cachegen (fuel_for key) loads false t.root [] (keybytes_to_hex key)
            sound (keybytes_to_hex-ended key bytes))
          (λ h lack. lack)

    -- On a sound trie over a database of sound nodes, TryUpdate of a key of bytes ends without a panic. The
    -- trie is sound, the key has the new value, or none where this is empty, and every other key is
    -- answered as before; or a node is missing, and then there is a key that the trie has no answer to.
    pub try_update-Writes :
        (t : Trie) (key value : List ℕ)
        → Sound t
        → Below 256 key
        → Writes t key (as_value value) (try_update load t key value)
    unfolding try_update try_delete
    try_update-Writes t key [] sound bytes = try_delete-Writes t key sound bytes
    try_update-Writes t key (b ∷ value) sound bytes =
        changed_by-Writes t key (some (b ∷ value))
          (insert load t.cachegen (fuel_for key) t.root [] (keybytes_to_hex key)
            (value_node (b ∷ value)))
          (λ h. find load (keybytes_to_hex key) t.root ≡ lost h)
          (insert-Inserts load t.cachegen (b ∷ value) (fuel_for key) loads false t.root []
            (keybytes_to_hex key) sound (keybytes_to_hex-ended key bytes))
          (λ h lack. (keybytes_to_hex key, keybytes_to_hex-ended key bytes, lack))

    opened-Opens :
        (h : ℕ) (r : Read Node)
        → load h ≡ r
        → Loads r
        → Opens h (hash_node h) (opened load h (loaded load 0 h [] r))
    opened-Opens h absent e ok = (refl, subst (Unread load) (sym e) tt)
    opened-Opens h (fault s) e ok = (refl, subst (Unread load) (sym e) tt)
    opened-Opens h garbled e ok = ok
    opened-Opens h (entry n) e (fits, flat) =
        (refl, hash-Same load h n n e flat (fits, λ q hq. refl))

    -- Over a database of sound nodes, New ends without a panic. The trie is sound, remembers its root and
    -- answers every key as the root's node in the database does, or as an empty trie where the root is
    -- zero or the hash of an empty trie; or the node of the root is missing, and the database has none.
    pub new-Opens :
        (empty_root h : ℕ)
        → Opens h (if h == 0 || h == empty_root then nil else hash_node h) (new load empty_root h)
    unfolding Fits resolve_hash
    new-Opens empty_root h = elim (Bool-cases (h == 0 || h == empty_root)) [
      | inl e ↦ rw e (refl, (tt, λ q hq. refl))
      | inr e ↦ rw e (opened-Opens h (load h) refl (loads h))
    ]
