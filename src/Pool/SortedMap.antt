-- ===== src/Pool/SortedMap.antt =====
-- `txSortedMap` (core/txprocessor/tx_list.go). The heap `index` is read at its front, popped,
-- sorted and cut, so it is kept here as the sorted list that container/heap and sort make of it. A
-- nonce of the index that has no item would give a nil transaction: the theorems on what the index
-- holds show that there is none, and the loops leave it out.
use mjoy_go.Base.{
  ℕ, ◌+◌, ◌-◌, ◌%◌, u64_mod, Bool, true, false, Option, none, some, List, [], ◌∷◌, ◌++◌, ltb, leb,
  ◌==◌, if◌then◌else◌, lookup, insert, erase, Map, length, take, drop,
}
use mjoy_go.Pool.Sorted.{Tx, insert_nonce, sort_nonces, sort_txs, values, keys}

pub record TxSortedMap : Type 0 where
  pub items : Map Tx
  pub index : List ℕ
  pub cache : Option (List Tx)

abbrev pub new_sorted_map : TxSortedMap
new_sorted_map = record { items = []; index = []; cache = none }

unfoldable pub get : ℕ → TxSortedMap → Option Tx
get n m = lookup n m.items

-- The nonce goes into the index if it is new.
abbrev pub index_with : Option Tx → ℕ → List ℕ → List ℕ
index_with none n index = insert_nonce n index
index_with (some _) n index = index

unfoldable pub put : Tx → TxSortedMap → TxSortedMap
put t m = record {
  items = insert t.nonce t m.items;
  index = index_with (lookup t.nonce m.items) t.nonce m.index;
  cache = none;
}

abbrev pub found : Option Tx → List Tx → List Tx
found none ts = ts
found (some t) ts = t ∷ ts

-- What is taken out, and the index and the items that stay.
abbrev pub Taken : Type 0
Taken = List Tx × List ℕ × Map Tx

-- The front of the index with its item, before what the rest of a loop takes.
abbrev pub with_front : ℕ → Map Tx → Taken → Taken
with_front n items (ts, index, rest) = (found (lookup n items) ts, index, rest)

unfoldable pub forward_loop : ℕ → List ℕ → Map Tx → Taken
forward_loop threshold [] items = ([], [], items)
forward_loop threshold (n ∷ ns) items =
    let rest : Taken = forward_loop threshold ns (erase n items) in
    if ltb n threshold then with_front n items rest else ([], n ∷ ns, items)

-- A cached order loses its front.
abbrev pub shift : ℕ → Option (List Tx) → Option (List Tx)
shift n none = none
shift n (some ts) = some (drop n ts)

unfoldable pub forward : ℕ → TxSortedMap → List Tx × TxSortedMap
forward threshold m =
    let (removed, index, items) = forward_loop threshold m.index m.items in
    (removed, record { items = items; index = index; cache = shift (length removed) m.cache })

-- The range over the items that deletes those for which the test holds.
unfoldable pub filter_items : (Tx → Bool) → Map Tx → List Tx × Map Tx
filter_items p [] = ([], [])
filter_items p ((n, t) ∷ m) =
    let (ts, rest) = filter_items p m in if p t then (t ∷ ts, rest) else (ts, (n, t) ∷ rest)

-- After a removal, the index is built from the items, and the cache is void.
abbrev pub rebuild : List Tx → Map Tx → TxSortedMap → TxSortedMap
rebuild [] items m = record m { items = items }
rebuild (t ∷ ts) items m = record { items = items; index = sort_nonces (keys items); cache = none }

unfoldable pub filter : (Tx → Bool) → TxSortedMap → List Tx × TxSortedMap
filter p m = let (removed, items) = filter_items p m.items in (removed, rebuild removed items m)

-- The loop of `Cap`, which drops the highest nonce first.
unfoldable pub cap_loop : List ℕ → Map Tx → List Tx × Map Tx
cap_loop [] items = ([], items)
cap_loop (n ∷ ns) items =
    let (drops, rest) = cap_loop ns items in (drops ++ found (lookup n rest) [], erase n rest)

-- A cached order loses its back.
abbrev pub unshift : ℕ → Option (List Tx) → Option (List Tx)
unshift n none = none
unshift n (some ts) = some (take (length ts - n) ts)

unfoldable pub cap : ℕ → TxSortedMap → List Tx × TxSortedMap
cap threshold m =
    let (drops, items) = cap_loop (drop threshold m.index) m.items in
    if leb (length m.items) threshold then ([], m) else (
      drops,
      record {
        items = items;
        index = take threshold m.index;
        cache = unshift (length drops) m.cache;
      },
    )

abbrev pub remove_nonce : ℕ → List ℕ → List ℕ
remove_nonce n [] = []
remove_nonce n (x ∷ xs) = if x == n then xs else x ∷ remove_nonce n xs

unfoldable pub remove : ℕ → TxSortedMap → Bool × TxSortedMap
remove n m = elim (lookup n m.items) [
  | none ↦ (false, m)
  | some _ ↦
      (true, record { items = erase n m.items; index = remove_nonce n m.index; cache = none })
]

unfoldable pub ready_loop : ℕ → List ℕ → Map Tx → Taken
ready_loop next [] items = ([], [], items)
ready_loop next (n ∷ ns) items =
    let rest : Taken = ready_loop ((next + 1) % u64_mod) ns (erase n items) in
    if n == next then with_front n items rest else ([], n ∷ ns, items)

-- The short cut of `Ready`: no transaction, or the first is later than the start.
abbrev pub too_early : ℕ → List ℕ → Bool
too_early start [] = true
too_early start (n ∷ ns) = ltb start n

abbrev pub front : List ℕ → ℕ
front [] = 0
front (n ∷ ns) = n

unfoldable pub ready : ℕ → TxSortedMap → List Tx × TxSortedMap
ready start m =
    let (txs, index, items) = ready_loop (front m.index) m.index m.items in
    if too_early start m.index
    then ([], m)
    else (txs, record { items = items; index = index; cache = none })

abbrev pub size : TxSortedMap → ℕ
size m = length m.items

abbrev pub flattened : Option (List Tx) → Map Tx → List Tx
flattened none items = sort_txs (values items)
flattened (some ts) items = ts

unfoldable pub flatten : TxSortedMap → List Tx × TxSortedMap
flatten m = let ts : List Tx = flattened m.cache m.items in (ts, record m { cache = some ts })
