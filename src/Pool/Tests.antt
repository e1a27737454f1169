-- ===== src/Pool/Tests.antt =====
-- Lists of transactions at concrete contents, and the theorems at inputs that meet their hypotheses.
use mjoy_go.Base.{
  arith, lookup, ==_cases, inl, inr, sym, none, ℕ, ◌+◌, ◌≡◌, refl, true, some, List, [], ◌∷◌, take,
  drop,
}
use mjoy_go.Base.Int.{pos}
use mjoy_go.State.View.{abstract}
use mjoy_go.State.Tests.{world, db}
use mjoy_go.Pool.Sorted.{Tx}
use mjoy_go.Pool.Fronts.{below, from_nonce}
use mjoy_go.Pool.Limits.{reversed}
use mjoy_go.Pool.TxList
use mjoy_go.Pool.TxList.{TxList}
use mjoy_go.Pool.TxPool.{validate_tx}
use mjoy_go.Pool.Costs.{Covers, added, add-Covers}
use mjoy_go.Pool.Budget.{Filtered, Uint64Nonces, filter-Filtered}
use mjoy_go.Pool.Removal.{Removed, parts-Covers, remove-Removed}
use mjoy_go.Base.{erase}
use mjoy_go.Pool.TxPool.{TxPool}
use mjoy_go.Pool.Moves.{remove_tx}
use mjoy_go.Pool.Losses.{Loses, HasTx, Lost, remove_tx-Loses}
use mjoy_go.Base.{lookup, Option, false}
use mjoy_go.Pool.TxPool
use mjoy_go.Pool.TxPool.{PoolError, enqueue_tx, sender_of}
use mjoy_go.Pool.Changes.{holds}
use mjoy_go.Pool.Admission.{unknown_verdict, room_verdict, Ends, add-Ends}
use mjoy_go.Pool.Queueing.{Queues, enqueue_tx-Queues}
use mjoy_go.State.View.{Abstract}
use mjoy_go.Processor.Ledger.{balance, nonce}
use mjoy_go.Pool.Moves.{demote}
use mjoy_go.Pool.Demotion.{executable, pending_of, demote-Covers}
use mjoy_go.Pool.Validation.{Answers, objection, validate_tx-Answers}

abbrev tx : ℕ → ℕ → Tx
tx n c = record {
  hash = n + 100;
  nonce = n;
  value = some (pos c);
  cost = pos c;
  size = 50;
  sender = some 1;
}

-- The nonces 4, 5 and 7, in a strict list.
abbrev txs : List Tx
txs = tx 4 10 ∷ tx 5 30 ∷ tx 7 20 ∷ []

abbrev list : TxList
list = record {
  strict = true;
  txs = record {
    items = (7, tx 7 20) ∷ (4, tx 4 10) ∷ (5, tx 5 30) ∷ [];
    index = 4 ∷ 5 ∷ 7 ∷ [];
    cache = some txs;
  };
  costcap = pos 40;
}

list-Covers : Covers txs list
list-Covers = record {
  shows = record {
    sound = (refl, refl, (refl, refl, (refl, refl, tt)));
    content = refl;
    indexed = refl;
    cached = refl;
  };
  capped = (refl, (refl, (refl, tt)));
}

add-Covers_example :
    ((TxList.add (tx 6 90) list).0.0 ≡ true)
    × Covers (added (tx 6 90) txs) (TxList.add (tx 6 90) list).1
add-Covers_example = add-Covers (tx 6 90) txs list list-Covers

txs-Uint64Nonces : Uint64Nonces txs
txs-Uint64Nonces = (omega arith, (omega arith, (omega arith, tt)))

filter-Filtered_example : Filtered (pos 25) true txs (TxList.filter (pos 25) list)
filter-Filtered_example = filter-Filtered (pos 25) txs list list-Covers txs-Uint64Nonces

parts-Covers_example :
    (((TxList.forward 5 list).0 ≡ below 5 txs)
      × Covers (from_nonce 5 txs) (TxList.forward 5 list).1)
    × (((TxList.cap 5 list).0 ≡ reversed (drop 5 txs)) × Covers (take 5 txs) (TxList.cap 5 list).1)
    × (((TxList.flatten list).0 ≡ txs) × Covers txs (TxList.flatten list).1)
parts-Covers_example = parts-Covers 5 txs list list-Covers

remove-Removed_example : Removed 5 txs true (TxList.remove (tx 5 0) list)
remove-Removed_example = remove-Removed (tx 5 0) txs list list-Covers

validate_tx-Answers_example :
    Answers world
      (objection world (tx 4 30) (abstract world db))
      db
      (validate_tx world (tx 4 30) db)
validate_tx-Answers_example = validate_tx-Answers world (tx 4 30) db

-- All three transactions are pending and known.
abbrev pool : TxPool
pool = record {
  config = record { global_slots = 4096; global_queue = 1024; account_queue = 64 };
  current_state = db;
  pending_state = record { db = db; accounts = [] };
  locals = [];
  journaled = none;
  pending = (1, list) ∷ [];
  queue = [];
  beats = (1, 0) ∷ [];
  all = (104, tx 4 10) ∷ (105, tx 5 30) ∷ (107, tx 7 20) ∷ [];
  sent = [];
}

only_of_first : (a : ℕ) → HasTx world (tx 5 30) (lookup a pool.pending) → a ≡ 1
only_of_first a h = elim (==_cases 1 a) [ inl e ↦ sym e | inr e ↦ absurd (rw e at h) ]

remove_tx-Loses_example :
    Loses world 1 (record pool { all = erase 104 pool.all }) (remove_tx world 104 pool)
    × Lost world (tx 5 30) (remove_tx world 104 pool)
remove_tx-Loses_example =
    remove_tx-Loses world 104 (tx 4 10) (tx 4 10) (tx 5 30 ∷ tx 7 20 ∷ []) list pool (tx 5 30) refl
      refl list-Covers refl refl refl (λ (h : 5 ≡ 4). omega arith) only_of_first (λ a h. h)

add-Ends_example :
    let e : Option PoolError = objection world (tx 8 1) (abstract world pool.current_state) in
    Ends world
      (unknown_verdict (lookup 108 pool.all) (room_verdict e pool))
      pool
      (TxPool.add world true (tx 8 1) pool)
add-Ends_example = add-Ends world true (tx 8 1) pool

-- The account has no queue yet.
nothing-Covers : Covers [] (TxList.new_tx_list false)
nothing-Covers = record {
  shows = record { sound = tt; content = refl; indexed = refl; cached = tt };
  capped = tt;
}

enqueue_tx-Queues_example :
    Queues (holds 9 []) 1 109 (tx 9 5) (added (tx 9 5) []) pool (enqueue_tx 109 (tx 9 5) pool)
enqueue_tx-Queues_example = enqueue_tx-Queues 109 (tx 9 5) [] pool nothing-Covers

demote-Covers_example :
    let A : Abstract = abstract world pool.current_state in
    Covers
      (executable (nonce world 1 A) (balance world 1 A) true txs)
      (pending_of 1 (demote world 1 pool))
demote-Covers_example = demote-Covers world 1 txs list pool refl list-Covers txs-Uint64Nonces
