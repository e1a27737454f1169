-- ===== src/Pool/Lowest.antt =====
-- `Filter` of `txList` (core/txprocessor/tx_list.go), with its short cut by the cap on the costs, by
-- the lowest nonce that it takes out.
use mjoy_go.Base.{
  ℕ, ◌-◌, u64_mod, ◌≡◌, refl, Bool, true, false, ◌&&◌, List, [], ◌∷◌, ltb, leb, if◌then◌else◌,
  Bool-cases, inl, inr, ap, ◌∙◌, sym, subst, arith,
}
use mjoy_go.Base.Int.{ℤ, ltb_ℤ}
use mjoy_go.Pool.Sorted.{Tx, insert_tx, sort_txs, keep, AllTx, AllTx-map, AllTx-keep}
use mjoy_go.Pool.SortedMap
use mjoy_go.Pool.SortedMap.{TxSortedMap, get}
use mjoy_go.Pool.Fronts.{Shows}
use mjoy_go.Pool.Sweeps.{stays, filter-Shows}
use mjoy_go.Pool.TxList
use mjoy_go.Pool.TxList.{TxList, raise, too_costly, later, lowest, invalidate, after_removal}
use mjoy_go.Pool.Costs.{Covers}

abbrev pub nonempty : List Tx → Bool
nonempty [] = false
nonempty (t ∷ ts) = true

-- Above the lowest nonce of those taken out, a strict list keeps none.
abbrev pub cut_lowest : Bool → List Tx → List Tx → List Tx
cut_lowest strict gone rest =
    if strict && nonempty gone then keep (stays (later (lowest (u64_mod - 1) gone))) rest else rest

abbrev pub cut_off_lowest : Bool → List Tx → List Tx → List Tx
cut_off_lowest strict gone rest =
    if strict && nonempty gone then keep (later (lowest (u64_mod - 1) gone)) rest else []

lowest-insert : (n : ℕ) (t : Tx) (xs : List Tx) → lowest n (insert_tx t xs) ≡ lowest n (t ∷ xs)
lowest-insert n t [] = refl
lowest-insert n t (x ∷ xs) = elim (Bool-cases (leb t.nonce x.nonce)) [
  | inl e ↦ rw e
  | inr e ↦ rw e (lowest-insert (least x n) t xs ∙ ap (λ k. lowest k xs) (swap n))
]
  where
    least : Tx → ℕ → ℕ
    least y n = if ltb y.nonce n then y.nonce else n

    swap : (n : ℕ) → least t (least x n) ≡ least x (least t n)
    swap n = ground arith

lowest-sort : (n : ℕ) (ts : List Tx) → lowest n (sort_txs ts) ≡ lowest n ts
lowest-sort n [] = refl
lowest-sort n (t ∷ ts) =
    lowest-insert n t (sort_txs ts) ∙ lowest-sort (if ltb t.nonce n then t.nonce else n) ts

nonempty-insert : (t : Tx) (xs : List Tx) → nonempty (insert_tx t xs) ≡ true
nonempty-insert t [] = refl
nonempty-insert t (x ∷ xs) = ground arith

invalidate-Shows :
    (strict : Bool) (removed rest : List Tx) (m : TxSortedMap)
    → Shows rest m
    → let r = invalidate strict removed m in
      (sort_txs r.0 ≡ cut_off_lowest strict (sort_txs removed) rest)
      × Shows (cut_lowest strict (sort_txs removed) rest) r.1
invalidate-Shows false removed rest m h = (refl, h)
invalidate-Shows true [] rest m h = (refl, h)
invalidate-Shows true (t ∷ ts) rest m h =
    rw (nonempty-insert t (sort_txs ts), lowest-sort (u64_mod - 1) (t ∷ ts))
      (filter-Shows (later (lowest (u64_mod - 1) (t ∷ ts))) rest m h)

keep-none :
    (p : Tx → Bool) (xs : List Tx)
    → AllTx (λ x. p x ≡ false) xs
    → (keep p xs ≡ []) × (keep (stays p) xs ≡ xs)
keep-none p [] a = (refl, refl)
keep-none p (x ∷ xs) (h, hs) =
    let (none_left, all) = keep-none p xs hs in rw h (none_left, ap (◌∷◌ x) all)

keep_self : (p : Tx → Bool) (xs : List Tx) → AllTx (λ x. p x ≡ false) (keep (stays p) xs)
keep_self p [] = tt
keep_self p (x ∷ xs) = elim (Bool-cases (p x)) [
  | inl e ↦ rw e (keep_self p xs)
  | inr e ↦ rw e (e, keep_self p xs)
]

cut_lowest-AllTx :
    (P : Tx → Type 0) (strict : Bool) (gone rest : List Tx)
    → AllTx P rest
    → AllTx P (cut_lowest strict gone rest)
cut_lowest-AllTx P strict gone rest a = elim (Bool-cases (strict && nonempty gone)) [
  | inl e ↦ rw e (AllTx-keep P (stays (later (lowest (u64_mod - 1) gone))) rest a)
  | inr e ↦ rw e a
]

payable :
    (limit costcap : ℤ) (x : Tx)
    → ltb_ℤ limit costcap ≡ false
    → ltb_ℤ costcap x.cost ≡ false
    → ltb_ℤ limit x.cost ≡ false
payable limit costcap x p q = ground arith

cut_lowest-nothing :
    (strict : Bool) (rest : List Tx)
    → (cut_lowest strict [] rest ≡ rest) × (cut_off_lowest strict [] rest ≡ [])
cut_lowest-nothing true rest = (refl, refl)
cut_lowest-nothing false rest = (refl, refl)

-- What `Filter` does with a list, without the short cut_lowest by the cap.
abbrev pub FilteredLowest : ℤ → Bool → List Tx → (List Tx × List Tx) × TxList → Type 0
FilteredLowest limit strict xs ((removed, invalids), l) =
    let gone : List Tx = keep (too_costly limit) xs in
    let rest : List Tx = keep (stays (too_costly limit)) xs in
    (sort_txs removed ≡ gone)
    × (sort_txs invalids ≡ cut_off_lowest strict gone rest)
    × Covers (cut_lowest strict gone rest) l

filter-all :
    (limit : ℤ) (xs : List Tx) (l : TxList)
    → Covers xs l
    → ltb_ℤ limit l.costcap ≡ true
    → FilteredLowest limit l.strict xs (TxList.filter limit l)
unfolding TxList.filter
filter-all limit xs l h low =
    let costly = too_costly limit in
    let (removed, shows) = filter-Shows costly xs l.txs h.shows in
    let taken = SortedMap.filter costly l.txs in
    let (invalids, shown) =
      subst
        (λ gone.
          let r = invalidate l.strict taken.0 taken.1 in
          (sort_txs r.0 ≡ cut_off_lowest l.strict gone (keep (stays costly) xs))
          × Shows (cut_lowest l.strict gone (keep (stays costly) xs)) r.1)
        removed (invalidate-Shows l.strict taken.0 (keep (stays costly) xs) taken.1 shows) in
    rw low (
      removed,
      invalids,
      record {
        shows = shown;
        capped =
            cut_lowest-AllTx (λ x. ltb_ℤ limit x.cost ≡ false) l.strict (keep costly xs)
              (keep (stays costly) xs) (keep_self costly xs);
      },
    )

filter-none :
    (limit : ℤ) (xs : List Tx) (l : TxList)
    → Covers xs l
    → ltb_ℤ limit l.costcap ≡ false
    → FilteredLowest limit l.strict xs (TxList.filter limit l)
unfolding TxList.filter
filter-none limit xs l h high =
    let (gone, rest) = keep-none (too_costly limit) xs (
      AllTx-map (λ x. ltb_ℤ l.costcap x.cost ≡ false) (λ x. ltb_ℤ limit x.cost ≡ false) xs
        (λ x. payable limit l.costcap x high) h.capped) in
    let (kept, off) = cut_lowest-nothing l.strict xs in
    rw (high, gone, rest) (refl, sym off, subst (λ ys. Covers ys l) (sym kept) h)

pub filter-by_lowest :
    (limit : ℤ) (xs : List Tx) (l : TxList)
    → Covers xs l
    → FilteredLowest limit l.strict xs (TxList.filter limit l)
filter-by_lowest limit xs l h = elim (Bool-cases (ltb_ℤ limit l.costcap)) [
  | inl low ↦ filter-all limit xs l h low
  | inr high ↦ filter-none limit xs l h high
]
