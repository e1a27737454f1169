-- ===== src/Processor/Block.antt =====
-- `Process` and `ApplyTransaction` (core/stateprocessor/stateprocessor.go) with `AsMessage`
-- (core/transaction/transaction.go) and `NewReceipt` (core/transaction/receipt.go).
use mjoy_go.Base.{
  ℕ, suc, Bool, true, false, Option, none, some, List, [], ◌∷◌, ◌++◌, get_or, if◌then◌else◌,
}
use mjoy_go.Base.Int.{ℤ}
use mjoy_go.State.Types.{Env, Log, StateDb}
use mjoy_go.State.Db.{prepare}
use mjoy_go.State.Final.{get_logs}
use mjoy_go.State.Finish.{Tries, finalise}
use mjoy_go.Processor.Transition.{Message, TransitionError, Status, ok, err, transition_db}
use mjoy_go.Bloom.Filter.{create_bloom}

-- `sender` is what `Sender` recovers from the signature, if this is good.
pub record Transaction : Type 0 where
  pub hash : ℕ
  pub account_nonce : ℕ
  pub recipient : Option ℕ
  pub amount : ℤ
  pub sender : Option ℕ

-- What is read of a block and its header.
pub record Block : Type 0 where
  pub hash : ℕ
  pub coinbase : ℕ
  pub transactions : List Transaction

-- The post state, and the contract address, are always empty.
pub record Receipt : Type 0 where
  pub status : ℕ
  pub bloom : ℕ
  pub logs : List Log
  pub tx_hash : ℕ

pub data BlockError : Type 0 where
  bad_signature no_contracts : BlockError
  invalid : TransitionError → BlockError

-- A result with the state, an error with the state that it leaves, or a panic.
pub data Attempt (A : Type 0) : Type 0 where
  applied : A → StateDb → Attempt A
  refused : BlockError → StateDb → Attempt A
  crashed : Attempt A

abbrev pub and_go : {A B : Type 0} → Attempt A → (A → StateDb → Attempt B) → Attempt B
and_go (applied x s) next = next x s
and_go (refused e s) next = refused e s
and_go crashed next = crashed

-- `AsMessage`
abbrev pub as_message : Transaction → ℕ → Message
as_message tx a = record {
  from = a;
  to = tx.recipient;
  value = tx.amount;
  nonce = tx.account_nonce;
  check_nonce = true;
}

-- The status that `NewReceipt` sets.
abbrev pub status_of : Bool → ℕ
status_of failed = if failed then 0 else 1

-- The model of the state keeps the newest log first.
abbrev pub oldest_first : List Log → List Log
oldest_first [] = []
oldest_first (l ∷ ls) = oldest_first ls ++ (l ∷ [])

-- The logs of all receipts, in order.
abbrev pub all_logs : List Receipt → List Log
all_logs [] = []
all_logs (r ∷ rs) = r.logs ++ all_logs rs

-- An engine finalizes the block, if there is one.
abbrev pub Engine : Type 0
Engine = Option (Block → List Receipt → StateDb → StateDb)

abbrev pub finalize : Engine → Block → List Receipt → StateDb → StateDb
finalize none block receipts s = s
finalize (some engine) block receipts s = engine block receipts s

-- `emitted` gives the bytes of the address and of each topic that the content of a log stands for.
unfoldable pub topics_of : (ℕ → List (List ℕ)) → List Log → List (List ℕ)
topics_of emitted [] = []
topics_of emitted (l ∷ ls) = emitted l.content ++ topics_of emitted ls

-- `keccak` is the hash of the blooms.
module _ (keccak : List ℕ → ℕ → ℕ) (emitted : ℕ → List (List ℕ)) where
  abbrev pub with_bloom : Bool → Transaction → List Log → Option ℕ → StateDb → Attempt Receipt
  with_bloom failed tx logs none s = crashed
  with_bloom failed tx logs (some bloom) s =
      applied (record { status = status_of failed; bloom = bloom; logs = logs; tx_hash = tx.hash })
        s

  abbrev pub write_receipt : Bool → Transaction → StateDb → Attempt Receipt
  write_receipt failed tx s =
      let logs : List Log = oldest_first (get_logs tx.hash s) in
      with_bloom failed tx logs (create_bloom keccak (topics_of emitted logs)) s

  -- After `Finalise`
  abbrev pub new_receipt : Bool → Transaction → Option ℕ → Option StateDb → Attempt Receipt
  new_receipt failed tx to none = crashed
  new_receipt failed tx none (some s) = refused no_contracts s
  new_receipt failed tx (some _) (some s) = write_receipt failed tx s

  module _ (env : Env) (tries : Tries) where
    abbrev pub after_message : Transaction → Option (Status × StateDb) → Attempt Receipt
    after_message tx none = crashed
    after_message tx (some (err failed e, s)) = refused (invalid e) s
    after_message tx (some (ok, s)) = new_receipt false tx tx.recipient (finalise tries env true s)

    abbrev pub apply_signed : ℕ → Transaction → Option ℕ → StateDb → Attempt Receipt
    apply_signed miner tx none s = refused bad_signature s
    apply_signed miner tx (some a) s =
        after_message tx (transition_db env miner (as_message tx a) s)

    -- `ApplyTransaction`, where a nil author stands for the coinbase
    unfoldable pub apply_transaction : Option ℕ → ℕ → Transaction → StateDb → Attempt Receipt
    apply_transaction author coinbase tx s = apply_signed (get_or coinbase author) tx tx.sender s

    -- The loop of `Process`
    unfoldable pub process_transactions :
        ℕ → ℕ → List Transaction → ℕ → StateDb → Attempt (List Receipt)
    process_transactions hash coinbase [] i s = applied [] s
    process_transactions hash coinbase (tx ∷ txs) i s =
        and_go (apply_transaction none coinbase tx (prepare tx.hash hash i s)) (λ r t.
          and_go (process_transactions hash coinbase txs (suc i) t) (λ rs u. applied (r ∷ rs) u))

    -- `Process`
    unfoldable pub process : Engine → Block → StateDb → Attempt (List Receipt × List Log)
    process engine block s =
        and_go (process_transactions block.hash block.coinbase block.transactions 0 s)
          (λ rs t. applied (rs, all_logs rs) (finalize engine block rs t))
