-- ===== src/Pool/Fronts.antt =====
-- `Forward` and `Ready` of `txSortedMap` (core/txprocessor/tx_list.go), on the list in the order of
-- the nonces.
use mjoy_go.Base.{
  ℕ, ◌+◌, ◌%◌, u64_mod, ◌≡◌, refl, Option, none, some, List, [], ◌∷◌, ltb, ◌==◌, ==_self,
  if◌then◌else◌, lookup, erase, Map, length, drop, Bool-cases, inl, inr, ap, ◌∙◌, sym, subst,
}
use mjoy_go.Pool.Sorted.{Tx, nonces, keep, AllTx}
use mjoy_go.Pool.SortedMap.{
  TxSortedMap, Taken, found, with_front, forward_loop, forward, shift, ready_loop, ready,
}
use mjoy_go.Pool.Contents.{
  contents, Sound, differs, Distinct, erase-Sound, lookup-contents, contents-Distinct, keep-all,
  contents-erase,
}

abbrev pub Cached : List Tx → Option (List Tx) → Type 0
Cached xs none = Unit
Cached xs (some ts) = ts ≡ xs

-- The map holds just the transactions of the list, which is in the order of the nonces.
pub record Shows (xs : List Tx) (m : TxSortedMap) : Type 0 where
  pub sound : Sound m.items
  pub content : contents m.items ≡ xs
  pub indexed : m.index ≡ nonces xs
  pub cached : Cached xs m.cache

abbrev pub below : ℕ → List Tx → List Tx
below n [] = []
below n (x ∷ xs) = if ltb x.nonce n then x ∷ below n xs else []

abbrev pub from_nonce : ℕ → List Tx → List Tx
from_nonce n [] = []
from_nonce n (x ∷ xs) = if ltb x.nonce n then from_nonce n xs else x ∷ xs

-- The transactions at the front whose nonces are `n`, `n + 1` and so on.
abbrev pub consecutive : ℕ → List Tx → List Tx
consecutive n [] = []
consecutive n (x ∷ xs) = if x.nonce == n then x ∷ consecutive ((n + 1) % u64_mod) xs else []

abbrev pub after_gap : ℕ → List Tx → List Tx
after_gap n [] = []
after_gap n (x ∷ xs) = if x.nonce == n then after_gap ((n + 1) % u64_mod) xs else x ∷ xs

-- The front of the list, looked up and erased.
front-erase :
    (x : Tx) (xs : List Tx) (items : Map Tx)
    → Sound items
    → contents items ≡ x ∷ xs
    → (lookup x.nonce items ≡ some x)
      × Sound (erase x.nonce items)
      × (contents (erase x.nonce items) ≡ xs)
front-erase x xs items s e = (
  (subst (AllTx (λ y. lookup y.nonce items ≡ some y)) e (lookup-contents items s)).0,
  erase-Sound x.nonce items s,
  contents-erase x.nonce items s ∙ ap (keep (differs x.nonce)) e ∙ others,
)
  where
    others : keep (differs x.nonce) (x ∷ xs) ≡ xs
    others =
        rw (==_self x.nonce)
          (keep-all (differs x.nonce) xs (subst Distinct e (contents-Distinct items s)).0)

-- A loop has taken the first list, and the second stays.
abbrev pub Takes : List Tx → List Tx → Taken → Type 0
Takes txs rest (ts, index, items) =
    (ts ≡ txs) × (index ≡ nonces rest) × Sound items × (contents items ≡ rest)

with_front-Takes :
    (x : Tx) (items : Map Tx) (txs rest : List Tx) (r : Taken)
    → lookup x.nonce items ≡ some x
    → Takes txs rest r
    → Takes (x ∷ txs) rest (with_front x.nonce items r)
with_front-Takes x items txs rest (ts, index, left) here (e, p, s, c) =
    (ap (λ o. found o ts) here ∙ ap (◌∷◌ x) e, p, s, c)

pub forward_loop-Takes :
    (n : ℕ) (xs : List Tx) (items : Map Tx)
    → Sound items
    → contents items ≡ xs
    → Takes (below n xs) (from_nonce n xs) (forward_loop n (nonces xs) items)
unfolding forward_loop
forward_loop-Takes n [] items s e = (refl, refl, s, e)
forward_loop-Takes n (x ∷ xs) items s e =
    let (here, s', e') = front-erase x xs items s e in
    elim (Bool-cases (ltb x.nonce n)) [
      | inl h ↦ rw h (
          with_front-Takes x items (below n xs) (from_nonce n xs)
            (forward_loop n (nonces xs) (erase x.nonce items)) here
            (forward_loop-Takes n xs (erase x.nonce items) s' e'))
      | inr h ↦ rw h (refl, refl, s, e)
    ]

pub ready_loop-Takes :
    (n : ℕ) (xs : List Tx) (items : Map Tx)
    → Sound items
    → contents items ≡ xs
    → Takes (consecutive n xs) (after_gap n xs) (ready_loop n (nonces xs) items)
unfolding ready_loop
ready_loop-Takes n [] items s e = (refl, refl, s, e)
ready_loop-Takes n (x ∷ xs) items s e =
    let (here, s', e') = front-erase x xs items s e in
    let next : ℕ = (n + 1) % u64_mod in
    elim (Bool-cases (x.nonce == n)) [
      | inl h ↦ rw h (
          with_front-Takes x items (consecutive next xs) (after_gap next xs)
            (ready_loop next (nonces xs) (erase x.nonce items)) here
            (ready_loop-Takes next xs (erase x.nonce items) s' e'))
      | inr h ↦ rw h (refl, refl, s, e)
    ]

drop-below : (n : ℕ) (xs : List Tx) → drop (length (below n xs)) xs ≡ from_nonce n xs
drop-below n [] = refl
drop-below n (x ∷ xs) = elim (Bool-cases (ltb x.nonce n)) [
  | inl h ↦ rw h (drop-below n xs)
  | inr h ↦ rw h
]

shift-Cached :
    (n : ℕ) (xs ts : List Tx) (c : Option (List Tx))
    → ts ≡ below n xs
    → Cached xs c
    → Cached (from_nonce n xs) (shift (length ts) c)
shift-Cached n xs ts none e h = tt
shift-Cached n xs ts (some cs) e h = (λ i. drop (length (e i)) (h i)) ∙ drop-below n xs

-- From a map that shows a list of transactions, `Forward` takes out and returns those at the front
-- with a nonce below the threshold, and the map shows the others, its cache shifted.
pub forward-Shows :
    (n : ℕ) (xs : List Tx) (m : TxSortedMap)
    → Shows xs m
    → ((forward n m).0 ≡ below n xs) × Shows (from_nonce n xs) (forward n m).1
unfolding forward
forward-Shows n xs m h =
    let (e, index, s, c) =
      subst (λ ns. Takes (below n xs) (from_nonce n xs) (forward_loop n ns m.items)) (sym h.indexed)
        (forward_loop-Takes n xs m.items h.sound h.content) in
    (
      e,
      record {
        sound = s;
        content = c;
        indexed = index;
        cached = shift-Cached n xs (forward_loop n m.index m.items).0 m.cache e h.cached;
      },
    )

-- What `Ready` takes: nothing if the first nonce is past the start, or else the run of consecutive
-- nonces at the front, even if it begins before the start.
abbrev pub ready_part : ℕ → List Tx → List Tx
ready_part start [] = []
ready_part start (x ∷ xs) = if ltb start x.nonce then [] else consecutive x.nonce (x ∷ xs)

abbrev pub unready_part : ℕ → List Tx → List Tx
unready_part start [] = []
unready_part start (x ∷ xs) = if ltb start x.nonce then x ∷ xs else after_gap x.nonce (x ∷ xs)

ready_items-Shows :
    (start : ℕ) (xs : List Tx) (items : Map Tx) (c : Option (List Tx))
    → Shows xs (record { items = items; index = nonces xs; cache = c })
    → let r = ready start (record { items = items; index = nonces xs; cache = c }) in
      (r.0 ≡ ready_part start xs) × Shows (unready_part start xs) r.1
unfolding ready
ready_items-Shows start [] items c h = (refl, h)
ready_items-Shows start (x ∷ xs) items c h = elim (Bool-cases (ltb start x.nonce)) [
  | inl late ↦ rw late (refl, h)
  | inr due ↦
      let (e, index, s, t) = ready_loop-Takes x.nonce (x ∷ xs) items h.sound h.content in
      rw due (e, record { sound = s; content = t; indexed = index; cached = tt })
]

-- From a map that shows a list of transactions, `Ready` returns nothing if the first nonce is past
-- the start, and otherwise takes out and returns the run of consecutive nonces at the front, from
-- the first nonce on; the map shows the others.
pub ready-Shows :
    (start : ℕ) (xs : List Tx) (m : TxSortedMap)
    → Shows xs m
    → ((ready start m).0 ≡ ready_part start xs) × Shows (unready_part start xs) (ready start m).1
ready-Shows start xs m h =
    let same : m ≡ record { items = m.items; index = nonces xs; cache = m.cache } =
      λ i. record m { index = h.indexed i } in
    subst
      (λ m'.
        ((ready start m').0 ≡ ready_part start xs)
        × Shows (unready_part start xs) (ready start m').1)
      (sym same) (ready_items-Shows start xs m.items m.cache (subst (Shows xs) same h))
