-- ===== src/Pool/TxPool.antt =====
-- `TxPool` (core/txprocessor/tx_pool.go). The sender of a transaction is what its signature gives;
-- where the code has ignored an error of it, the address is zero. `now` is the time of a call.
-- `journaled` holds what was handed to the disk journal, `sent` what was put on the event feed, both
-- the newest first.
use mjoy_go.Base.{
  ℕ, ◌+◌, ◌%◌, u64_mod, Bool, true, false, Option, none, some, List, [], ◌∷◌, lookup, insert, erase,
  Map, get_or, length, ltb, leb, if◌then◌else◌,
}
use mjoy_go.Base.Int.{ℤ, pos, ltb_ℤ}
use mjoy_go.State.Types.{Env, StateDb}
use mjoy_go.State.Db
use mjoy_go.State.Managed
use mjoy_go.State.Managed.{ManagedState}
use mjoy_go.Pool.Sorted.{Tx}
use mjoy_go.Pool.TxList
use mjoy_go.Pool.TxList.{TxList, new_tx_list, overlaps, is_empty}

pub record Config : Type 0 where
  pub global_slots : ℕ
  pub global_queue : ℕ
  pub account_queue : ℕ

pub record TxPool : Type 0 where
  pub config : Config
  pub current_state : StateDb
  pub pending_state : ManagedState
  pub locals : Map (Unit {0})
  pub journaled : Option (List Tx)
  pub pending : Map TxList
  pub queue : Map TxList
  pub beats : Map ℕ
  pub all : Map Tx
  pub sent : List Tx

pub data PoolError : Type 0 where
  known_transaction oversized_data wrong_amount negative_value invalid_sender : PoolError
  nonce_too_low insufficient_funds pool_full : PoolError

abbrev pub sender_of : Tx → ℕ
sender_of t = get_or 0 t.sender

-- `pool.locals.contains`
abbrev pub contains : ℕ → Map (Unit {0}) → Bool
contains a set = elim (lookup a set) [ none ↦ false | some _ ↦ true ]

abbrev pub write_journal : Tx → Option (List Tx) → Option (List Tx)
write_journal t none = none
write_journal t (some ts) = some (t ∷ ts)

unfoldable pub journal_tx : ℕ → Tx → TxPool → TxPool
journal_tx from t p =
    if contains from p.locals then record p { journaled = write_journal t p.journaled } else p

abbrev pub enqueued : ℕ → ℕ → Tx → (Bool × Option Tx) × TxList → TxPool → Bool × TxPool
enqueued from hash t ((_, some old), l) p = (true, record p { queue = insert from l p.queue })
enqueued from hash t ((_, none), l) p =
    (false, record p { queue = insert from l p.queue; all = insert hash t p.all })

-- `enqueueTx`: whether an older transaction stays instead.
unfoldable pub enqueue_tx : ℕ → Tx → TxPool → Bool × TxPool
enqueue_tx hash t p =
    let from : ℕ = sender_of t in
    let l : TxList = get_or (new_tx_list false) (lookup from p.queue) in
    enqueued from hash t (TxList.add t l) p

unfoldable pub enqueue_all : List Tx → TxPool → TxPool
enqueue_all [] p = p
enqueue_all (t ∷ ts) p = enqueue_all ts (enqueue_tx t.hash t p).1

abbrev pub forget_all : List Tx → Map Tx → Map Tx
forget_all [] all = all
forget_all (t ∷ ts) all = forget_all ts (erase t.hash all)

abbrev pub known : ℕ → Tx → Map Tx → Map Tx
known hash t all = elim (lookup hash all) [ none ↦ insert hash t all | some _ ↦ all ]

module _ (env : Env) where
  abbrev pub funds : ℕ → Tx → StateDb → Option PoolError × StateDb
  funds from t s =
      let (nonce, s') = Db.get_nonce env from s in
      let (balance, s'') = Db.get_balance env from s' in
      if ltb t.nonce nonce
      then (some nonce_too_low, s')
      else (if ltb_ℤ balance t.cost then some insufficient_funds else none, s'')

  abbrev pub signed : Tx → Option ℕ → StateDb → Option PoolError × StateDb
  signed t none s = (some invalid_sender, s)
  signed t (some from) s = funds from t s

  abbrev pub amount : Tx → Option ℤ → StateDb → Option PoolError × StateDb
  amount t none s = (some wrong_amount, s)
  amount t (some v) s = if ltb_ℤ v (pos 0) then (some negative_value, s) else signed t t.sender s

  -- `validateTx`, on the current state.
  unfoldable pub validate_tx : Tx → StateDb → Option PoolError × StateDb
  validate_tx t s = if ltb 32768 t.size then (some oversized_data, s) else amount t t.value s

  abbrev pub promoted : ℕ → ℕ → ℕ → Tx → (Bool × Option Tx) × TxList → TxPool → TxPool
  promoted now addr hash t ((false, _), l) p = record p {
    pending = insert addr l p.pending;
    all = erase hash p.all;
  }
  promoted now addr hash t ((true, _), l) p = record p {
    pending = insert addr l p.pending;
    all = known hash t p.all;
    beats = insert addr now p.beats;
    pending_state = Managed.set_nonce env addr ((t.nonce + 1) % u64_mod) p.pending_state;
    sent = t ∷ p.sent;
  }

  unfoldable pub promote_tx : ℕ → ℕ → ℕ → Tx → TxPool → TxPool
  promote_tx now addr hash t p =
      let l : TxList = get_or (new_tx_list true) (lookup addr p.pending) in
      promoted now addr hash t (TxList.add t l) p

  unfoldable pub promote_all : ℕ → ℕ → List Tx → TxPool → TxPool
  promote_all now addr [] p = p
  promote_all now addr (t ∷ ts) p = promote_all now addr ts (promote_tx now addr t.hash t p)

  -- A pending transaction with the same nonce stays; what comes otherwise is injected.
  abbrev pub overlapped : ℕ → Tx → (Bool × Option Tx) × TxList → TxPool → TxPool
  overlapped from t ((_, some old), l) p = record p { pending = insert from l p.pending }
  overlapped from t ((_, none), l) p =
      let q : TxPool =
        journal_tx from t
          (record p { pending = insert from l p.pending; all = insert t.hash t p.all }) in
      record q { sent = t ∷ q.sent }

  abbrev pub mark_local : Bool → ℕ → TxPool → TxPool
  mark_local local from p = if local then record p { locals = insert from tt p.locals } else p

  abbrev pub queue_new : Bool → Tx → TxPool → Bool × TxPool
  queue_new local t p =
      let (replace, q) = enqueue_tx t.hash t p in
      (replace, journal_tx (sender_of t) t (mark_local local (sender_of t) q))

  abbrev pub admit : Bool → Tx → TxPool → Bool × TxPool
  admit local t p = elim (lookup (sender_of t) p.pending) [
    | none ↦ queue_new local t p
    | some l ↦
        if overlaps t l
        then (true, overlapped (sender_of t) t (TxList.add t l) p)
        else queue_new local t p
  ]

  abbrev pub room : Bool → Tx → TxPool → (Bool × Option PoolError) × TxPool
  room local t p =
      let (replace, q) = admit local t p in
      if leb ((p.config.global_slots + p.config.global_queue) % u64_mod) (length p.all)
      then ((false, some pool_full), p)
      else ((replace, none), q)

  abbrev pub validated :
      Bool → Tx → TxPool → Option PoolError × StateDb → (Bool × Option PoolError) × TxPool
  validated local t p (some e, s) = ((false, some e), record p { current_state = s })
  validated local t p (none, s) = room local t (record p { current_state = s })

  -- `add`: whether the transaction replaces another, and the error.
  unfoldable pub add : Bool → Tx → TxPool → (Bool × Option PoolError) × TxPool
  add local t p = elim (lookup t.hash p.all) [
    | some _ ↦ ((false, some known_transaction), p)
    | none ↦ validated local t p (validate_tx t p.current_state)
  ]
