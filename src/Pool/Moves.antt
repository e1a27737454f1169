-- ===== src/Pool/Moves.antt =====
-- How `TxPool` (core/txprocessor/tx_pool.go) moves transactions between the queue and the pending
-- lists: `removeTx`, `demoteUnexecutables`, the promotion by `promoteExecutables`, and `addTx`.
use mjoy_go.Base.{
  ℕ, ◌+◌, Bool, true, false, Option, none, some, List, [], ◌∷◌, lookup, insert, erase, Map, ltb,
  if◌then◌else◌,
}
use mjoy_go.Base.Int.{ℤ}
use mjoy_go.State.Types.{Env}
use mjoy_go.State.Db
use mjoy_go.State.Managed
use mjoy_go.State.Managed.{ManagedState}
use mjoy_go.Pool.Sorted.{Tx}
use mjoy_go.Pool.SortedMap
use mjoy_go.Pool.TxList
use mjoy_go.Pool.TxList.{TxList, is_empty}
use mjoy_go.Pool.TxPool.{TxPool, sender_of, contains, enqueue_all, forget_all, promote_all}

-- A pending list after a change: an empty one is deleted, with the heartbeat.
abbrev pub settle_pending : ℕ → TxList → TxPool → TxPool
settle_pending addr l p =
    if is_empty l
    then record p { pending = erase addr p.pending; beats = erase addr p.beats }
    else record p { pending = insert addr l p.pending }

abbrev pub settle_queue : ℕ → TxList → TxPool → TxPool
settle_queue addr l p =
    if is_empty l
    then record p { queue = erase addr p.queue }
    else record p { queue = insert addr l p.queue }

-- The transaction is not pending: it may be in the queue.
abbrev pub remove_queued : ℕ → Tx → Option TxList → TxPool → TxPool
remove_queued addr t none p = p
remove_queued addr t (some l) p = settle_queue addr (TxList.remove t l).1 p

-- A pending list that does not begin at the state's nonce is postponed as a whole.
abbrev pub postpone : ℕ → TxList → List Tx × TxList
postpone nonce l =
    if is_empty l
    then ([], l)
    else (elim (SortedMap.get nonce l.txs) [ some _ ↦ ([], l) | none ↦ TxList.cap 0 l ])

abbrev pub demote_list : ℕ → ℕ → ℤ → TxList → TxPool → TxPool
demote_list addr nonce balance l p =
    let (old, l₁) = TxList.forward nonce l in
    let ((drops, invalids), l₂) = TxList.filter balance l₁ in
    let (gapped, l₃) = postpone nonce l₂ in
    settle_pending addr l₃ (
      enqueue_all gapped
        (enqueue_all invalids (record p { all = forget_all drops (forget_all old p.all) })))

module _ (env : Env) where
  -- The pending nonce goes down to that of the transaction.
  abbrev pub lower_nonce : ℕ → ℕ → TxPool → TxPool
  lower_nonce addr n p =
      let (nonce, ms) = Managed.get_nonce env addr p.pending_state in
      record p { pending_state = if ltb n nonce then Managed.set_nonce env addr n ms else ms }

  -- The invalidated transactions are postponed only if the list is not empty.
  abbrev pub remove_pending : ℕ → Tx → (Bool × List Tx) × TxList → TxPool → TxPool
  remove_pending addr t ((false, _), l) p =
      remove_queued addr t (lookup addr p.queue) (record p { pending = insert addr l p.pending })
  remove_pending addr t ((true, invalids), l) p =
      let q : TxPool = settle_pending addr l p in
      lower_nonce addr t.nonce (if is_empty l then q else enqueue_all invalids q)

  abbrev pub remove_known : ℕ → Tx → TxPool → TxPool
  remove_known addr t p = elim (lookup addr p.pending) [
    | none ↦ remove_queued addr t (lookup addr p.queue) p
    | some l ↦ remove_pending addr t (TxList.remove t l) p
  ]

  unfoldable pub remove_tx : ℕ → TxPool → TxPool
  remove_tx hash p = elim (lookup hash p.all) [
    | none ↦ p
    | some t ↦ remove_known (sender_of t) t (record p { all = erase hash p.all })
  ]

  -- One round of `demoteUnexecutables`.
  unfoldable pub demote : ℕ → TxPool → TxPool
  demote addr p = elim (lookup addr p.pending) [
    | none ↦ p
    | some l ↦
        let (nonce, s) = Db.get_nonce env addr p.current_state in
        let (balance, s') = Db.get_balance env addr s in
        demote_list addr nonce balance l (record p { current_state = s' })
  ]

  abbrev pub addresses : Map TxList → List ℕ
  addresses [] = []
  addresses ((a, l) ∷ m) = a ∷ addresses m

  unfoldable pub demote_all : List ℕ → TxPool → TxPool
  demote_all [] p = p
  demote_all (a ∷ addrs) p = demote_all addrs (demote a p)

  unfoldable pub demote_unexecutables : TxPool → TxPool
  demote_unexecutables p = demote_all (addresses p.pending) p

  -- A queue is capped unless the account is local.
  abbrev pub cap_queue : ℕ → TxList → TxPool → TxPool
  cap_queue addr l p =
      let (over, l') = TxList.cap p.config.account_queue l in
      if contains addr p.locals
      then settle_queue addr l p
      else settle_queue addr l' (record p { all = forget_all over p.all })

  abbrev pub promote_list : ℕ → ℕ → ℕ → ℤ → TxList → TxPool → TxPool
  promote_list now addr nonce balance l p =
      let (old, l₁) = TxList.forward nonce l in
      let ((drops, _), l₂) = TxList.filter balance l₁ in
      let (pending_nonce, ms) = Managed.get_nonce env addr p.pending_state in
      let (ripe, l₃) = TxList.ready pending_nonce l₂ in
      cap_queue addr l₃ (
        promote_all env now addr ripe
          (record p { all = forget_all drops (forget_all old p.all); pending_state = ms }))

  -- One round of the first loop of `promoteExecutables`.
  unfoldable pub promote : ℕ → ℕ → TxPool → TxPool
  promote now addr p = elim (lookup addr p.queue) [
    | none ↦ p
    | some l ↦
        let (nonce, s) = Db.get_nonce env addr p.current_state in
        let (balance, s') = Db.get_balance env addr s in
        promote_list now addr nonce balance l (record p { current_state = s' })
  ]

  unfoldable pub promote_accounts : ℕ → List ℕ → TxPool → TxPool
  promote_accounts now [] p = p
  promote_accounts now (a ∷ addrs) p = promote_accounts now addrs (promote now a p)

-- `stats`
abbrev pub count : Map TxList → ℕ
count [] = 0
count ((a, l) ∷ m) = TxList.length l + count m

abbrev pub stats : TxPool → ℕ × ℕ
stats p = (count p.pending, count p.queue)

pub data TxStatus : Type 0 where
  unknown queued pending included : TxStatus

abbrev pub pending_or_queued : Tx → Option TxList → TxStatus
pending_or_queued t none = queued
pending_or_queued t (some l) = elim (SortedMap.get t.nonce l.txs) [
  | none ↦ queued
  | some _ ↦ pending
]

unfoldable pub status : ℕ → TxPool → TxStatus
status hash p = elim (lookup hash p.all) [
  | none ↦ unknown
  | some t ↦ pending_or_queued t (lookup (sender_of t) p.pending)
]
