-- ===== src/Pool/Sweeps.antt =====
-- `Filter` and `Flatten` of `txSortedMap` (core/txprocessor/tx_list.go), on the list in the order
-- of the nonces.
use mjoy_go.Base.{
  ℕ, ◌≡◌, refl, Bool, not, Option, none, some, List, [], ◌∷◌, lookup, Map, Bool-cases, inl, inr, ap,
  ◌∙◌, sym, subst, arith,
}
use mjoy_go.Pool.Sorted.{Tx, insert_tx, sort_txs, nonces, values, keep, sort-Ascending, keep-insert}
use mjoy_go.Pool.SortedMap.{TxSortedMap, filter_items, rebuild, filter, flatten, flattened}
use mjoy_go.Pool.Contents.{contents, Sound}
use mjoy_go.Pool.Fronts.{Shows, Cached}
use mjoy_go.Pool.Changes.{nonces-contents}

abbrev pub stays : (Tx → Bool) → Tx → Bool
stays p t = not (p t)

lookup-filter_items :
    (p : Tx → Bool) (n : ℕ) (m : Map Tx) → lookup n m ≡ none → lookup n (filter_items p m).1 ≡ none
unfolding filter_items
lookup-filter_items p n [] h = refl
lookup-filter_items p n ((k, t) ∷ m) h = ground (arith, lookup-filter_items p n m)

filter_items-Sound : (p : Tx → Bool) (m : Map Tx) → Sound m → Sound (filter_items p m).1
unfolding filter_items
filter_items-Sound p [] s = tt
filter_items-Sound p ((n, t) ∷ m) (named, fresh, s) = elim (Bool-cases (p t)) [
  | inl e ↦ rw e (filter_items-Sound p m s)
  | inr e ↦ rw e (named, lookup-filter_items p n m fresh, filter_items-Sound p m s)
]

-- What a filter takes out, sorted, and what it leaves.
removed-keep : (p : Tx → Bool) (m : Map Tx) → sort_txs (filter_items p m).0 ≡ keep p (contents m)
unfolding filter_items
removed-keep p [] = refl
removed-keep p ((n, t) ∷ m) = elim (Bool-cases (p t)) [
  | inl e ↦
      rw (keep-insert p t (contents m) (sort-Ascending (values m)), e)
        (ap (insert_tx t) (removed-keep p m))
  | inr e ↦ rw (keep-insert p t (contents m) (sort-Ascending (values m)), e) (removed-keep p m)
]

left-keep :
    (p : Tx → Bool) (m : Map Tx) → contents (filter_items p m).1 ≡ keep (stays p) (contents m)
unfolding filter_items
left-keep p [] = refl
left-keep p ((n, t) ∷ m) = elim (Bool-cases (p t)) [
  | inl e ↦ rw (keep-insert (stays p) t (contents m) (sort-Ascending (values m)), e) (left-keep p m)
  | inr e ↦
      rw (keep-insert (stays p) t (contents m) (sort-Ascending (values m)), e)
        (ap (insert_tx t) (left-keep p m))
]

left-all : (p : Tx → Bool) (m : Map Tx) → (filter_items p m).0 ≡ [] → (filter_items p m).1 ≡ m
unfolding filter_items
left-all p [] h = refl
left-all p ((n, t) ∷ m) h = elim (Bool-cases (p t)) [
  | inl e ↦ let bad : t ∷ (filter_items p m).0 ≡ [] = rw e at h in cc
  | inr e ↦
      let same : (filter_items p m).0 ≡ [] = rw e at h in rw e (ap (◌∷◌ (n, t)) (left-all p m same))
]

rebuild-Shows :
    (p : Tx → Bool) (xs : List Tx) (m : TxSortedMap) (removed : List Tx)
    → (filter_items p m.items).0 ≡ removed
    → Shows xs m
    → Shows (keep (stays p) xs) (rebuild removed (filter_items p m.items).1 m)
rebuild-Shows p xs m [] e h =
    let items : (filter_items p m.items).1 ≡ m.items = left-all p m.items e in
    let same : xs ≡ keep (stays p) xs =
      sym h.content
      ∙ sym (ap contents items)
      ∙ left-keep p m.items
      ∙ ap (keep (stays p)) h.content in
    subst (λ ys. Shows ys (record m { items = (filter_items p m.items).1 })) same
      (subst (λ its. Shows xs (record m { items = its })) (sym items) h)
rebuild-Shows p xs m (t ∷ ts) e h =
    let sound : Sound (filter_items p m.items).1 = filter_items-Sound p m.items h.sound in
    let content : contents (filter_items p m.items).1 ≡ keep (stays p) xs =
      left-keep p m.items ∙ ap (keep (stays p)) h.content in
    record {
      sound = sound;
      content = content;
      indexed = sym (nonces-contents (filter_items p m.items).1 sound) ∙ ap nonces content;
      cached = tt;
    }

-- From a map that shows a list of transactions, `Filter` returns, in some order, those for which
-- the test holds, and the map shows the others.
pub filter-Shows :
    (p : Tx → Bool) (xs : List Tx) (m : TxSortedMap)
    → Shows xs m
    → (sort_txs (filter p m).0 ≡ keep p xs) × Shows (keep (stays p) xs) (filter p m).1
unfolding filter
filter-Shows p xs m h = (
  removed-keep p m.items ∙ ap (keep p) h.content,
  rebuild-Shows p xs m (filter_items p m.items).0 refl h,
)

flattened-Shows :
    (xs : List Tx) (items : Map Tx) (c : Option (List Tx))
    → contents items ≡ xs
    → Cached xs c
    → flattened c items ≡ xs
flattened-Shows xs items none e h = e
flattened-Shows xs items (some ts) e h = h

-- From a map that shows a list of transactions, `Flatten` returns this list, from the cache or
-- anew, and the map shows it still.
pub flatten-Shows :
    (xs : List Tx) (m : TxSortedMap) → Shows xs m → ((flatten m).0 ≡ xs) × Shows xs (flatten m).1
unfolding flatten
flatten-Shows xs m h =
    let same : flattened m.cache m.items ≡ xs =
      flattened-Shows xs m.items m.cache h.content h.cached in
    (same, record { sound = h.sound; content = h.content; indexed = h.indexed; cached = same })
