-- ===== src/Pool/Removal.antt =====
-- `Remove`, `Forward`, `Ready`, `Cap` and `Flatten` of `txList` (core/txprocessor/tx_list.go).
use mjoy_go.Base.{
  ℕ, ◌≡◌, refl, Bool, true, false, ◌&&◌, List, [], ◌∷◌, ltb, if◌then◌else◌, take, zero, suc,
  Bool-cases, inl, inr,
}
use mjoy_go.Base.Int.{ltb_ℤ}
use mjoy_go.Pool.Sorted.{Tx, sort_txs, keep, AllTx, AllTx-keep}
use mjoy_go.Pool.SortedMap
use mjoy_go.Pool.SortedMap.{TxSortedMap, get}
use mjoy_go.Pool.Contents.{differs}
use mjoy_go.Pool.Fronts.{Shows, below, from_nonce, forward-Shows}
use mjoy_go.Pool.Changes.{holds, remove-Shows}
use mjoy_go.Pool.Sweeps.{stays, filter-Shows}
use mjoy_go.Pool.Limits.{cap-Shows}
use mjoy_go.Pool.TxList
use mjoy_go.Pool.TxList.{TxList, raise, too_costly, later, lowest, invalidate, after_removal}
use mjoy_go.Pool.Costs.{Covers}
use mjoy_go.Pool.Sweeps.{flatten-Shows}
use mjoy_go.Pool.Limits.{reversed}
use mjoy_go.Base.{drop}

AllTx-from_nonce : (P : Tx → Type 0) (n : ℕ) (xs : List Tx) → AllTx P xs → AllTx P (from_nonce n xs)
AllTx-from_nonce P n [] a = tt
AllTx-from_nonce P n (x ∷ xs) (p, ps) = elim (Bool-cases (ltb x.nonce n)) [
  | inl e ↦ rw e (AllTx-from_nonce P n xs ps)
  | inr e ↦ rw e (p, ps)
]

AllTx-take : (P : Tx → Type 0) (n : ℕ) (xs : List Tx) → AllTx P xs → AllTx P (take n xs)
AllTx-take P zero xs a = tt
AllTx-take P (suc n) [] a = tt
AllTx-take P (suc n) (x ∷ xs) (p, ps) = (p, AllTx-take P n xs ps)

-- From a list that covers its transactions, `Forward` takes out and returns those with a nonce
-- below the threshold, and the list covers the others.
pub forward-Covers :
    (n : ℕ) (xs : List Tx) (l : TxList)
    → Covers xs l
    → ((TxList.forward n l).0 ≡ below n xs) × Covers (from_nonce n xs) (TxList.forward n l).1
unfolding TxList.forward
forward-Covers n xs l h =
    let (e, shows) = forward-Shows n xs l.txs h.shows in
    (
      e,
      record {
        shows = shows;
        capped = AllTx-from_nonce (λ x. ltb_ℤ l.costcap x.cost ≡ false) n xs h.capped;
      },
    )

-- From a list that covers its transactions, `Cap` takes out and returns those past the limit, the
-- highest nonce first, and the list covers as many of the lowest nonces as the limit allows.
pub cap-Covers :
    (n : ℕ) (xs : List Tx) (l : TxList)
    → Covers xs l
    → ((TxList.cap n l).0 ≡ reversed (drop n xs)) × Covers (take n xs) (TxList.cap n l).1
unfolding TxList.cap
cap-Covers n xs l h =
    let (e, shows) = cap-Shows n xs l.txs h.shows in
    (
      e,
      record {
        shows = shows;
        capped = AllTx-take (λ x. ltb_ℤ l.costcap x.cost ≡ false) n xs h.capped;
      },
    )

-- From a list that covers its transactions, `Flatten` returns them in the order of their nonces,
-- from the cache or anew, and the list still covers them.
pub flatten-Covers :
    (xs : List Tx) (l : TxList)
    → Covers xs l
    → ((TxList.flatten l).0 ≡ xs) × Covers xs (TxList.flatten l).1
unfolding TxList.flatten
flatten-Covers xs l h =
    let (e, shows) = flatten-Shows xs l.txs h.shows in
    (e, record { shows = shows; capped = h.capped })

-- From a list that covers its transactions: `Forward` takes out and returns those with a nonce below
-- the threshold, and the list covers the others; `Cap` takes out and returns those past the limit,
-- the highest nonce first, and the list covers as many of the lowest nonces as the limit allows;
-- and `Flatten` returns them all in the order of their nonces, from the cache or anew, and the list
-- still covers them.
pub parts-Covers :
    (n : ℕ) (xs : List Tx) (l : TxList)
    → Covers xs l
    → (((TxList.forward n l).0 ≡ below n xs) × Covers (from_nonce n xs) (TxList.forward n l).1)
      × (((TxList.cap n l).0 ≡ reversed (drop n xs)) × Covers (take n xs) (TxList.cap n l).1)
      × (((TxList.flatten l).0 ≡ xs) × Covers xs (TxList.flatten l).1)
parts-Covers n xs l h = (forward-Covers n xs l h, cap-Covers n xs l h, flatten-Covers xs l h)

-- A strict list keeps none above a nonce that is removed.
abbrev pub removal_cut : Bool → ℕ → List Tx → List Tx
removal_cut invalid n xs = if invalid then keep (stays (later n)) xs else xs

abbrev pub removal_cut_off : Bool → ℕ → List Tx → List Tx
removal_cut_off invalid n xs = if invalid then keep (later n) xs else []

abbrev pub Removed : ℕ → List Tx → Bool → (Bool × List Tx) × TxList → Type 0
Removed n xs strict ((was, invalids), l) =
    let invalid : Bool = holds n xs && strict in
    let rest : List Tx = keep (differs n) xs in
    (was ≡ holds n xs)
    × (sort_txs invalids ≡ removal_cut_off invalid n rest)
    × Covers (removal_cut invalid n rest) l

after_removal-Removed :
    (n : ℕ) (xs : List Tx) (l : TxList) (was : Bool) (m : TxSortedMap)
    → AllTx (λ x. ltb_ℤ l.costcap x.cost ≡ false) (keep (differs n) xs)
    → was ≡ holds n xs
    → Shows (keep (differs n) xs) m
    → Removed n xs l.strict (after_removal l n (was, m))
after_removal-Removed n xs l false m a e h = rw (← e) (refl, refl, record { shows = h; capped = a })
after_removal-Removed n xs l true m a e h = elim (Bool-cases l.strict) [
  | inl s ↦
      let rest : List Tx = keep (differs n) xs in
      let (invalids, shows) = filter-Shows (later n) rest m h in
      rw (← e, s)
        (
          refl,
          invalids,
          record {
            shows = shows;
            capped = AllTx-keep (λ x. ltb_ℤ l.costcap x.cost ≡ false) (stays (later n)) rest a;
          },
        )
  | inr s ↦ rw (← e, s) (refl, refl, record { shows = h; capped = a })
]

-- From a list that covers its transactions, `Remove` tells whether one has the nonce, and takes it
-- out; a strict list that had it also gives up and returns, in some order, those with a higher
-- nonce; the list covers the others.
pub remove-Removed :
    (t : Tx) (xs : List Tx) (l : TxList)
    → Covers xs l
    → Removed t.nonce xs l.strict (TxList.remove t l)
unfolding TxList.remove
remove-Removed t xs l h =
    let (was, shows) = remove-Shows t.nonce xs l.txs h.shows in
    after_removal-Removed t.nonce xs l (SortedMap.remove t.nonce l.txs).0
      (SortedMap.remove t.nonce l.txs).1
      (AllTx-keep (λ x. ltb_ℤ l.costcap x.cost ≡ false) (differs t.nonce) xs h.capped) was shows
