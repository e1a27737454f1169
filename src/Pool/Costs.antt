-- ===== src/Pool/Costs.antt =====
-- The methods of `txList` (core/txprocessor/tx_list.go), on the list in the order of the nonces and
-- with the cap on the costs.
use mjoy_go.Base.{
  ◌≡◌, refl, true, false, none, List, if◌then◌else◌, lookup, Option-cases, inl, inr, ap, ◌∙◌, sym,
  subst, arith,
}
use mjoy_go.Base.Int.{ℤ, ltb_ℤ}
use mjoy_go.Pool.Sorted.{Tx, insert_tx, keep, AllTx, AllTx-map, AllTx-insert}
use mjoy_go.Pool.SortedMap
use mjoy_go.Pool.SortedMap.{TxSortedMap, get}
use mjoy_go.Pool.Contents.{differs, keep-all, missing-differs}
use mjoy_go.Pool.Fronts.{Shows}
use mjoy_go.Pool.Changes.{holds, is_some, holds-lookup, put-Shows}
use mjoy_go.Pool.TxList
use mjoy_go.Pool.TxList.{TxList, raise, too_costly, later, lowest, invalidate, after_removal}

-- The list holds just these transactions, and none costs more than the cap.
pub record Covers (xs : List Tx) (l : TxList) : Type 0 where
  pub shows : Shows xs l.txs
  pub capped : AllTx (λ x. ltb_ℤ l.costcap x.cost ≡ false) xs

raise-above :
    (c costcap : ℤ) (x : Tx) → ltb_ℤ costcap x.cost ≡ false → ltb_ℤ (raise c costcap) x.cost ≡ false
raise-above c costcap x h = ground arith

raise-own : (c costcap : ℤ) → ltb_ℤ (raise c costcap) c ≡ false
raise-own c costcap = ground arith

-- What `Add` makes of the list: an old transaction with the nonce stays.
abbrev pub added : Tx → List Tx → List Tx
added t xs = if holds t.nonce xs then xs else insert_tx t xs

-- From a list that covers its transactions, `Add` accepts, and puts the transaction at its place
-- unless there is one with the same nonce, which stays instead; the cap covers the new cost.
pub add-Covers :
    (t : Tx) (xs : List Tx) (l : TxList)
    → Covers xs l
    → ((TxList.add t l).0.0 ≡ true) × Covers (added t xs) (TxList.add t l).1
unfolding TxList.add get
add-Covers t xs l h = elim (Option-cases (lookup t.nonce l.txs.items)) [
  | inl new ↦
      let absent : holds t.nonce xs ≡ false = sym told ∙ ap is_some new in
      rw (new, TxList.add, absent)
        (
          refl,
          record {
            shows =
                subst (λ ys. Shows (insert_tx t ys) (SortedMap.put t l.txs)) (others new)
                  (put-Shows t xs l.txs h.shows);
            capped =
                AllTx-insert (λ x. ltb_ℤ (raise t.cost l.costcap) x.cost ≡ false) t xs
                  (raise-own t.cost l.costcap)
                  (AllTx-map (λ x. ltb_ℤ l.costcap x.cost ≡ false)
                    (λ x. ltb_ℤ (raise t.cost l.costcap) x.cost ≡ false) xs
                    (λ x. raise-above t.cost l.costcap x) h.capped);
          },
        )
  | inr (old, there) ↦
      let present : holds t.nonce xs ≡ true = sym told ∙ ap is_some there in
      rw (there, TxList.add, present) (refl, h)
]
  where
    told : is_some (lookup t.nonce l.txs.items) ≡ holds t.nonce xs
    told = holds-lookup t.nonce l.txs.items h.shows.sound ∙ ap (holds t.nonce) h.shows.content

    others : lookup t.nonce l.txs.items ≡ none → keep (differs t.nonce) xs ≡ xs
    others new = keep-all (differs t.nonce) xs (
        subst (AllTx (λ x. differs t.nonce x ≡ true)) h.shows.content
          (missing-differs t.nonce l.txs.items h.shows.sound new))
