-- ===== src/Trie/Updates.antt =====
-- Sequences of updates of a `Trie` (trie/trie.go): what is read after them.
use mjoy_go.Base.{
  ℕ, ◌≡◌, ◌≢◌, refl, Bool, true, false, Option, none, some, List, [], ◌∷◌, if◌then◌else◌, ap, ◌∙◌,
  sym, subst,
}
use mjoy_go.State.Types.{Read}
use mjoy_go.Trie.Encoding.{keybytes_to_hex}
use mjoy_go.Trie.Nibbles.{Below}
use mjoy_go.Trie.Node.{Node, nil}
use mjoy_go.Trie.Walk.{Outcome, done, missing_node, panic, exhausted, equal}
use mjoy_go.Trie.Find.{Found, found, lost, find, after, Fits, Loads}
use mjoy_go.Trie.Short.{updated, find-nil}
use mjoy_go.Trie.Bytes.{keybytes_to_hex-ended, keybytes_to_hex-equal}
use mjoy_go.Trie.Handle.{Trie, try_get, try_update}
use mjoy_go.Trie.Contents.{
  as_value, Sound, contents, Reads, Writes, try_get-Reads, try_update-Writes,
}

-- The value at a key after updates in their order: the map that a trie stands for.
abbrev pub answer : List (List ℕ × List ℕ) → List ℕ → Option (List ℕ) → Option (List ℕ)
answer [] k old = old
answer ((key, value) ∷ ops) k old = answer ops k (if equal k key then as_value value else old)

-- All keys are bytes.
abbrev pub Keyed : List (List ℕ × List ℕ) → Type 0
Keyed [] = Unit
Keyed ((key, value) ∷ ops) = Below 256 key × Keyed ops

abbrev pub next : Outcome Trie → (Trie → Outcome Trie) → Outcome Trie
next (done t) f = f t
next (missing_node h p) f = missing_node h p
next panic f = panic
next exhausted f = exhausted

found_same : (v w : Option (List ℕ)) → found v ≡ found w → v ≡ w
found_same v w h = ap of h
  where
    of : Found → Option (List ℕ)
    of (found x) = x
    of (lost g) = none

module _ (load : ℕ → Read Node) where
  -- `TryUpdate`, for each key and value, up to the first error.
  abbrev pub updates : Trie → List (List ℕ × List ℕ) → Outcome Trie
  updates t [] = done t
  updates t ((key, value) ∷ ops) = next (try_update load t key value) (λ t'. updates t' ops)

  -- Every node that a key leads to can be had.
  abbrev pub Complete : Trie → Type 0
  Complete t = (q : List ℕ) → after false q ≡ some true → (h : ℕ) → find load q t.root ≢ lost h

  module _ (loads : (h : ℕ) → Loads (load h)) where
    contents_after :
        (t t' : Trie) (key value k : List ℕ)
        → Sound t
        → Below 256 key
        → Below 256 k
        → try_update load t key value ≡ done t'
        → Sound t'
          × (contents load t' k ≡ updated (equal k key) (as_value value) (contents load t k))
    contents_after t t' key value k sound bytes bytes_k h =
        let (sound', behind) =
          subst (Writes load t key (as_value value)) h
            (try_update-Writes load loads t key value sound bytes) in
        (
          sound',
          subst (λ b. contents load t' k ≡ updated b (as_value value) (contents load t k))
              (keybytes_to_hex-equal k key bytes_k bytes)
              (behind (keybytes_to_hex k) (keybytes_to_hex-ended k bytes_k)),
        )

    -- A key that has an answer is read.
    read_found :
        (t : Trie) (k : List ℕ) (v : Option (List ℕ))
        → Sound t
        → Below 256 k
        → contents load t k ≡ found v
        → (t' : Trie) × (try_get load t k ≡ done (v, t'))
    read_found t k v sound bytes h =
        from (try_get load t k) refl (try_get-Reads load loads t k sound bytes)
      where
        from :
            (r : Outcome (Option (List ℕ) × Trie))
            → try_get load t k ≡ r
            → Reads load t k r
            → (t' : Trie) × (try_get load t k ≡ done (v, t'))
        from (done (w, t')) e (value, same) =
            (t', e ∙ ap (λ x. done (x, t')) (found_same w v (sym value ∙ h)))
        from (missing_node g p) e lack = let bad : found v ≡ lost g = sym h ∙ lack in cc
        from panic e bad = elim bad [ ]
        from exhausted e bad = elim bad [ ]

    -- After a TryUpdate that succeeds, on a sound trie over a database of sound nodes, TryGet of a key of
    -- bytes gives the new value at the updated key, or none where this is empty, and what the trie had
    -- at another key that had an answer.
    pub try_get-try_update :
        (t t' : Trie) (key value k : List ℕ) (v : Option (List ℕ))
        → Sound t
        → Below 256 key
        → Below 256 k
        → try_update load t key value ≡ done t'
        → updated (equal k key) (as_value value) (contents load t k) ≡ found v
        → (t'' : Trie) × (try_get load t' k ≡ done (v, t''))
    try_get-try_update t t' key value k v sound bytes bytes_k h e =
        let (sound', now) = contents_after t t' key value k sound bytes bytes_k h in
        read_found t' k v sound' bytes_k (now ∙ e)

    -- A complete trie takes any update, and stays complete.
    update_total :
        (t : Trie) (key value : List ℕ)
        → Sound t
        → Complete t
        → Below 256 key
        → (t' : Trie) × (try_update load t key value ≡ done t') × Complete t'
    update_total t key value sound complete bytes =
        from (try_update load t key value) refl
          (try_update-Writes load loads t key value sound bytes)
      where
        from :
            (r : Outcome Trie)
            → try_update load t key value ≡ r
            → Writes load t key (as_value value) r
            → (t' : Trie) × (try_update load t key value ≡ done t') × Complete t'
        from (done t') e (sound', behind) = (
          t',
          e,
          λ q hq h lack. complete q hq h (
              kept (equal q (keybytes_to_hex key)) (as_value value) (find load q t.root) h
                (sym (behind q hq) ∙ lack)),
        )
          where
            kept :
                (b : Bool) (new : Option (List ℕ)) (x : Found) (h : ℕ)
                → updated b new x ≡ lost h
                → x ≡ lost h
            kept true new x h e = cc
            kept false new x h e = e
        from (missing_node g p) e (q, hq, lack) = elim (complete q hq g lack) [ ]
        from panic e bad = elim bad [ ]
        from exhausted e bad = elim bad [ ]

    -- Any updates of a complete trie come to an end, with the answers of the map.
    updates-answer :
        (t : Trie) (ops : List (List ℕ × List ℕ))
        → Sound t
        → Complete t
        → Keyed ops
        → (t' : Trie) × (updates t ops ≡ done t')
          × Sound t'
          × ((k : List ℕ)
              → (v : Option (List ℕ)) → Below 256 k
              → contents load t k ≡ found v
              → contents load t' k ≡ found (answer ops k v))
    updates-answer t [] sound complete keyed = (t, refl, sound, λ k v bytes h. h)
    updates-answer t ((key, value) ∷ ops) sound complete (bytes_key, keyed) =
        let (t', e, complete') = update_total t key value sound complete bytes_key in
        let sound' =
          (subst (Writes load t key (as_value value)) e
            (try_update-Writes load loads t key value sound bytes_key)).0 in
        let (t'', e', sound'', later) = updates-answer t' ops sound' complete' keyed in
        (
          t'',
          rw e e',
          sound'',
          λ k v bytes h. later k (if equal k key then as_value value else v) bytes (
              (contents_after t t' key value k sound bytes_key bytes e).1
              ∙ ap (updated (equal k key) (as_value value)) h
              ∙ found_if (equal k key) (as_value value) v),
        )
      where
        found_if :
            (b : Bool) (x y : Option (List ℕ)) → updated b x (found y) ≡ found (if b then x else y)
        found_if true x y = refl
        found_if false x y = refl

    -- On an empty trie over a database of sound nodes, any sequence of updates at keys of bytes succeeds,
    -- and TryGet of any key of bytes then succeeds, with the value that the key was last updated to, or
    -- none where it was never updated or this is empty.
    pub updates-try_get :
        (t : Trie) (ops : List (List ℕ × List ℕ))
        → t.root ≡ nil
        → Keyed ops
        → (t' : Trie) × (updates t ops ≡ done t')
          × ((k : List ℕ)
              → Below 256 k
              → (t'' : Trie) × (try_get load t' k ≡ done (answer ops k none, t'')))
    unfolding Fits
    updates-try_get t ops empty keyed =
        let (t', e, sound, answers) =
          updates-answer t ops (subst (Fits false) (sym empty) tt)
            (λ q hq h lack. let bad : found none ≡ lost h = sym (nothing q) ∙ lack in cc) keyed in
        (
          t',
          e,
          λ k bytes.
              read_found t' k (answer ops k none) sound bytes
                (answers k none bytes (nothing (keybytes_to_hex k))),
        )
      where
        nothing : (q : List ℕ) → find load q t.root ≡ found none
        nothing q = ap (find load q) empty ∙ find-nil load q
