-- ===== src/Pool/Losses.antt =====
-- Where `removeTx` (core/txprocessor/tx_pool.go) loses sight of transactions.
use mjoy_go.Base.{
  ℕ, ◌≡◌, refl, Bool, true, false, ◌&&◌, none, some, List, [], ◌∷◌, lookup, erase, lookup-erase,
  length, leb, Option, get_or, if◌then◌else◌, ==_cases, inl, inr, ◌==◌, ==_self, ap, ◌∙◌, sym,
  subst, arith,
}
use mjoy_go.State.Types.{Env}
use mjoy_go.Pool.Sorted.{Tx, keep, AllTx, Ascending, sort-Ascending, values}
use mjoy_go.Pool.Contents.{differs}
use mjoy_go.Pool.Changes.{holds}
use mjoy_go.Pool.Sweeps.{stays}
use mjoy_go.Pool.Limits.{length-contents}
use mjoy_go.Pool.TxList
use mjoy_go.Pool.TxList.{TxList, is_empty, later}
use mjoy_go.Pool.TxPool.{TxPool, sender_of}
use mjoy_go.Pool.Moves.{remove_tx, remove_known, remove_pending}
use mjoy_go.Pool.Costs.{Covers}
use mjoy_go.Pool.Removal.{removal_cut, remove-Removed}

-- Of transactions that are not below a nonce, none is left when it and the later ones go.
none-left :
    (n : ℕ) (ys : List Tx)
    → AllTx (λ y. leb n y.nonce ≡ true) ys
    → keep (stays (later n)) (keep (differs n) ys) ≡ []
none-left n [] a = refl
none-left n (y ∷ ys) (p, ps) = ground (arith, none-left n ys ps)

Covers-first :
    (x : Tx) (xs : List Tx) (l : TxList)
    → Covers (x ∷ xs) l
    → AllTx (λ y. leb x.nonce y.nonce ≡ true) (x ∷ xs)
Covers-first x xs l h =
    let sorted = subst Ascending h.shows.content (sort-Ascending (values l.txs.items)) in
    (own x.nonce, sorted.0)
  where
    own : (n : ℕ) → leb n n ≡ true
    own n = ground arith

Covers-nothing : (l : TxList) → Covers [] l → is_empty l ≡ true
Covers-nothing l h =
    ap (λ n. n == 0) (sym (length-contents l.txs.items) ∙ ap length h.shows.content)

module _ (env : Env) where
  -- The account has no pending list, and nothing else changes about the lists and what is known.
  abbrev pub Loses : ℕ → TxPool → TxPool → Type 0
  Loses addr p q =
      ((a : ℕ) → lookup a q.pending ≡ (if addr == a then none else lookup a p.pending))
      × (q.queue ≡ p.queue)
      × (q.all ≡ p.all)

  -- The list of an account, if there is one, has the transaction.
  abbrev pub HasTx : Tx → Option TxList → Type 0
  HasTx y none = ⊥
  HasTx y (some l) = lookup y.nonce l.txs.items ≡ some y

  -- A transaction is known, and no list has it.
  abbrev pub Lost : Tx → TxPool → Type 0
  Lost y q =
      (lookup y.hash q.all ≡ some y)
      × ((a : ℕ) → ¬ HasTx y (lookup a q.pending))
      × ((a : ℕ) → ¬ HasTx y (lookup a q.queue))

  still_known :
      (hash : ℕ) (t y : Tx) (p : TxPool)
      → lookup hash p.all ≡ some t
      → lookup y.hash p.all ≡ some y
      → ¬ (y.nonce ≡ t.nonce)
      → lookup y.hash (erase hash p.all) ≡ some y
  still_known hash t y p here known other = elim (==_cases hash y.hash) [
    | inl e ↦
        let same : some t ≡ some y = sym here ∙ ap (λ h. lookup h p.all) e ∙ known in
        absurd (other (ap (λ (o : Tx). o.nonce) (sym (ap (get_or t) same))))
    | inr e ↦ lookup-erase hash y.hash p.all ∙ rw e known
  ]

  Loses-Lost :
      (addr : ℕ) (y : Tx) (p q : TxPool)
      → Loses addr p q
      → lookup y.hash p.all ≡ some y
      → ((a : ℕ) → HasTx y (lookup a p.pending) → a ≡ addr)
      → ((a : ℕ) → ¬ HasTx y (lookup a p.queue))
      → Lost y q
  Loses-Lost addr y p q (pending, queue, all) known only unqueued = (
    subst (λ m. lookup y.hash m ≡ some y) (sym all) known,
    λ a h. gone a (subst (HasTx y) (pending a) h),
    subst (λ m. (a : ℕ) → ¬ HasTx y (lookup a m)) (sym queue) unqueued,
  )
    where
      gone : (a : ℕ) → ¬ HasTx y (if addr == a then none else lookup a p.pending)
      gone a h = elim (==_cases addr a) [
        | inl e ↦ rw (e, ==_self a) at h
        | inr e ↦ let same : a ≡ addr = only a (rw e at h) in ground (arith, e, same)
      ]

  remove_pending-Loses :
      (addr : ℕ) (t : Tx) (was : Bool) (invalids : List Tx) (l : TxList) (p : TxPool)
      → was ≡ true
      → is_empty l ≡ true
      → Loses addr p (remove_pending env addr t ((was, invalids), l) p)
  remove_pending-Loses addr t false invalids l p e h = cc
  remove_pending-Loses addr t true invalids l p e h =
      rw h (λ a. lookup-erase addr a p.pending, refl, refl)

  removed-Loses :
      (addr : ℕ) (t x : Tx) (xs : List Tx) (l : TxList) (p : TxPool)
      → Covers (x ∷ xs) l
      → l.strict ≡ true
      → x.nonce ≡ t.nonce
      → Loses addr p (remove_pending env addr t (TxList.remove t l) p)
  removed-Loses addr t x xs l p h strict first =
      let (was, _, left) = remove-Removed t (x ∷ xs) l h in
      let there : holds t.nonce (x ∷ xs) ≡ true = rw (first, ==_self t.nonce) in
      let least =
        subst (λ n. AllTx (λ y. leb n y.nonce ≡ true) (x ∷ xs)) first (Covers-first x xs l h) in
      let rest : List Tx = keep (differs t.nonce) (x ∷ xs) in
      let all_cut : removal_cut (holds t.nonce (x ∷ xs) && l.strict) t.nonce rest ≡ [] =
        (λ i. removal_cut (there i && strict i) t.nonce rest) ∙ none-left t.nonce (x ∷ xs) least in
      remove_pending-Loses addr t (TxList.remove t l).0.0 (TxList.remove t l).0.1
        (TxList.remove t l).1 p (was ∙ there)
        (Covers-nothing (TxList.remove t l).1
          (subst (λ ys. Covers ys (TxList.remove t l).1) all_cut left))

  remove_known-pending :
      (addr : ℕ) (t : Tx) (l : TxList) (p : TxPool)
      → lookup addr p.pending ≡ some l
      → remove_known env addr t p ≡ remove_pending env addr t (TxList.remove t l) p
  remove_known-pending addr t l p here = rw (here, remove_known)

  known-Loses :
      (hash : ℕ) (t x : Tx) (xs : List Tx) (l : TxList) (p : TxPool)
      → lookup hash p.all ≡ some t
      → lookup (sender_of t) p.pending ≡ some l
      → Covers (x ∷ xs) l
      → l.strict ≡ true
      → x.nonce ≡ t.nonce
      → Loses (sender_of t) (record p { all = erase hash p.all }) (remove_tx env hash p)
  unfolding remove_tx
  known-Loses hash t x xs l p known here h strict first =
      rw (known, remove_tx)
        (subst (Loses (sender_of t) (record p { all = erase hash p.all }))
          (sym (remove_known-pending (sender_of t) t l (record p { all = erase hash p.all }) here))
          (removed-Loses (sender_of t) t x xs l (record p { all = erase hash p.all }) h strict
            first))

  -- Where a known transaction has the lowest nonce of its sender's pending list, a strict one, after
  -- `removeTx` the sender has no pending list, and the other pending lists, the queue and what else
  -- is known are as before. So any other known transaction, with another nonce, that no list
  -- but the sender's pending list had is still known, and no list has it.
  pub remove_tx-Loses :
      (hash : ℕ) (t x : Tx) (xs : List Tx) (l : TxList) (p : TxPool) (y : Tx)
      → lookup hash p.all ≡ some t
      → lookup (sender_of t) p.pending ≡ some l
      → Covers (x ∷ xs) l
      → l.strict ≡ true
      → x.nonce ≡ t.nonce
      → lookup y.hash p.all ≡ some y
      → ¬ (y.nonce ≡ t.nonce)
      → ((a : ℕ) → HasTx y (lookup a p.pending) → a ≡ sender_of t)
      → ((a : ℕ) → ¬ HasTx y (lookup a p.queue))
      → Loses (sender_of t) (record p { all = erase hash p.all }) (remove_tx env hash p)
        × Lost y (remove_tx env hash p)
  remove_tx-Loses hash t x xs l p y known here h strict first listed other only unqueued =
      let loses = known-Loses hash t x xs l p known here h strict first in
      (
        loses,
        Loses-Lost (sender_of t) y (record p { all = erase hash p.all }) (remove_tx env hash p)
            loses (still_known hash t y p known listed other) only unqueued,
      )
