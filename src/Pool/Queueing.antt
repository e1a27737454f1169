-- ===== src/Pool/Queueing.antt =====
-- What `enqueueTx` (core/txprocessor/tx_pool.go) does to the sender's queue.
use mjoy_go.Base.{
  ℕ, ◌≡◌, refl, Bool, false, Option, none, some, List, lookup, insert, lookup-insert_self, get_or,
  if◌then◌else◌, Option-cases, inl, inr, ap, ◌∙◌, sym,
}
use mjoy_go.Pool.Sorted.{Tx}
use mjoy_go.Pool.SortedMap.{get}
use mjoy_go.Pool.Changes.{holds, is_some, holds-lookup}
use mjoy_go.Pool.TxList
use mjoy_go.Pool.TxList.{TxList, new_tx_list}
use mjoy_go.Pool.TxPool.{TxPool, sender_of, enqueued, enqueue_tx}
use mjoy_go.Pool.Costs.{Covers, added, add-Covers}

-- `Add` returns an old transaction just where one has the nonce.
add-old :
    (t : Tx) (xs : List Tx) (l : TxList)
    → Covers xs l
    → is_some (TxList.add t l).0.1 ≡ holds t.nonce xs
unfolding TxList.add get
add-old t xs l h = elim (Option-cases (lookup t.nonce l.txs.items)) [
  | inl new ↦ rw (new, TxList.add) (ap is_some (sym new) ∙ told)
  | inr (old, there) ↦ rw (there, TxList.add) (ap is_some (sym there) ∙ told)
]
  where
    told : is_some (lookup t.nonce l.txs.items) ≡ holds t.nonce xs
    told = holds-lookup t.nonce l.txs.items h.shows.sound ∙ ap (holds t.nonce) h.shows.content

-- An account without a queue has an empty one.
abbrev pub queue_of : ℕ → TxPool → TxList
queue_of a p = get_or (new_tx_list false) (lookup a p.queue)

abbrev pub Queues : Bool → ℕ → ℕ → Tx → List Tx → TxPool → Bool × TxPool → Type 0
Queues old from hash t ys p (replace, q) =
    (replace ≡ old)
    × (q.all ≡ (if old then p.all else insert hash t p.all))
    × Covers ys (queue_of from q)

enqueued-Queues :
    (old : Bool) (from hash : ℕ) (t : Tx) (ys : List Tx) (p : TxPool)
    (r : (Bool × Option Tx) × TxList)
    → is_some r.0.1 ≡ old
    → Covers ys r.1
    → Queues old from hash t ys p (enqueued from hash t r p)
enqueued-Queues old from hash t ys p ((b, some o), l) e h =
    rw (← e, lookup-insert_self from l p.queue) (refl, refl, h)
enqueued-Queues old from hash t ys p ((b, none), l) e h =
    rw (← e, lookup-insert_self from l p.queue) (refl, refl, h)

-- Where the sender's queue covers its transactions, `enqueueTx` tells whether one has the nonce
-- already; that one stays, and otherwise the new one goes to its place in the queue and is known.
pub enqueue_tx-Queues :
    (hash : ℕ) (t : Tx) (xs : List Tx) (p : TxPool)
    → Covers xs (queue_of (sender_of t) p)
    → Queues (holds t.nonce xs) (sender_of t) hash t (added t xs) p (enqueue_tx hash t p)
unfolding enqueue_tx
enqueue_tx-Queues hash t xs p h =
    enqueued-Queues (holds t.nonce xs) (sender_of t) hash t (added t xs) p
      (TxList.add t (queue_of (sender_of t) p)) (add-old t xs (queue_of (sender_of t) p) h)
      (add-Covers t xs (queue_of (sender_of t) p) h).1
