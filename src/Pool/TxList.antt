-- ===== src/Pool/TxList.antt =====
-- `txList` (core/txprocessor/tx_list.go).
use mjoy_go.Base.{
  ℕ, ◌-◌, u64_mod, Bool, true, false, Option, none, some, List, [], ◌∷◌, ltb, ◌==◌, if◌then◌else◌,
}
use mjoy_go.Base.Int.{ℤ, pos, ltb_ℤ}
use mjoy_go.Pool.Sorted.{Tx}
use mjoy_go.Pool.SortedMap
use mjoy_go.Pool.SortedMap.{TxSortedMap, new_sorted_map}

pub record TxList : Type 0 where
  pub strict : Bool
  pub txs : TxSortedMap
  pub costcap : ℤ

abbrev pub new_tx_list : Bool → TxList
new_tx_list strict = record { strict = strict; txs = new_sorted_map; costcap = pos 0 }

abbrev pub overlaps : Tx → TxList → Bool
overlaps t l = elim (SortedMap.get t.nonce l.txs) [ none ↦ false | some _ ↦ true ]

abbrev pub raise : ℤ → ℤ → ℤ
raise cost costcap = if ltb_ℤ costcap cost then cost else costcap

-- An old transaction with the nonce stays.
unfoldable pub add : Tx → TxList → (Bool × Option Tx) × TxList
add t l = elim (SortedMap.get t.nonce l.txs) [
  | some old ↦ ((true, some old), l)
  | none ↦
      ((true, none), record l { txs = SortedMap.put t l.txs; costcap = raise t.cost l.costcap })
]

-- A method of the map, under the list.
abbrev pub within : {A : Type 0} → TxList → A × TxSortedMap → A × TxList
within l (a, m) = (a, record l { txs = m })

unfoldable pub forward : ℕ → TxList → List Tx × TxList
forward threshold l = within l (SortedMap.forward threshold l.txs)

abbrev pub too_costly : ℤ → Tx → Bool
too_costly limit t = ltb_ℤ limit t.cost

abbrev pub later : ℕ → Tx → Bool
later n t = ltb n t.nonce

-- The lowest nonce, from `math.MaxUint64` down.
abbrev pub lowest : ℕ → List Tx → ℕ
lowest n [] = n
lowest n (t ∷ ts) = lowest (if ltb t.nonce n then t.nonce else n) ts

abbrev pub invalidate : Bool → List Tx → TxSortedMap → List Tx × TxSortedMap
invalidate false removed m = ([], m)
invalidate true [] m = ([], m)
invalidate true (t ∷ ts) m = SortedMap.filter (later (lowest (u64_mod - 1) (t ∷ ts))) m

unfoldable pub filter : ℤ → TxList → (List Tx × List Tx) × TxList
filter limit l =
    let (removed, m) = SortedMap.filter (too_costly limit) l.txs in
    let (invalids, m') = invalidate l.strict removed m in
    if ltb_ℤ limit l.costcap
    then ((removed, invalids), record l { txs = m'; costcap = limit })
    else (([], []), l)

unfoldable pub cap : ℕ → TxList → List Tx × TxList
cap threshold l = within l (SortedMap.cap threshold l.txs)

abbrev pub after_removal : TxList → ℕ → Bool × TxSortedMap → (Bool × List Tx) × TxList
after_removal l n (false, m) = ((false, []), record l { txs = m })
after_removal l n (true, m) =
    let (invalids, m') = (if l.strict then SortedMap.filter (later n) m else ([], m)) in
    ((true, invalids), record l { txs = m' })

unfoldable pub remove : Tx → TxList → (Bool × List Tx) × TxList
remove t l = after_removal l t.nonce (SortedMap.remove t.nonce l.txs)

unfoldable pub ready : ℕ → TxList → List Tx × TxList
ready start l = within l (SortedMap.ready start l.txs)

abbrev pub length : TxList → ℕ
length l = SortedMap.size l.txs

abbrev pub is_empty : TxList → Bool
is_empty l = length l == 0

unfoldable pub flatten : TxList → List Tx × TxList
flatten l = within l (SortedMap.flatten l.txs)
