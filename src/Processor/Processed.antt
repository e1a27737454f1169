-- ===== src/Processor/Processed.antt =====
-- A block follows the book (core/stateprocessor/stateprocessor.go).
use mjoy_go.Base.{ℕ, suc, ◌≡◌, refl, none, List, [], ◌∷◌, subst}
use mjoy_go.State.Types.{Env, Log, StateDb}
use mjoy_go.State.Db.{prepare}
use mjoy_go.State.Finish.{Tries}
use mjoy_go.Processor.Settled.{Reliable}
use mjoy_go.Processor.Block.{
  Transaction, Block, Receipt, Attempt, applied, refused, crashed, and_go, all_logs, Engine,
  finalize, apply_transaction, process_transactions, process,
}
use mjoy_go.Processor.Replay.{
  Book, Replayed, posted, stopped, and_post, post, replay, book, Sound, Follows, Attests, AllAttest,
}
use mjoy_go.Processor.Followed.{signed-Follows}

module _ (env : Env) where
  and_go-Follows :
      {A B : Type 0} (Q : A → Type 0) (R : B → Type 0) (p : Replayed) (m : Attempt A)
      (later : Book → Replayed) (next : A → StateDb → Attempt B)
      → Follows env Q p m
      → ((x : A) (t : StateDb) → Q x → Sound env t → Follows env R (later (book env t)) (next x t))
      → Follows env R (and_post p later) (and_go m next)
  and_go-Follows Q R (posted b) (applied x t) later next (q, sound, same) step =
      subst (λ c. Follows env R (later c) (next x t)) same (step x t q sound)
  and_go-Follows Q R (stopped e) (refused e' t) later next h step = h
  and_go-Follows Q R (posted b) (refused e' t) later next h step = elim h [ ]
  and_go-Follows Q R (stopped e) (applied x t) later next h step = elim h [ ]
  and_go-Follows Q R (posted b) crashed later next h step = elim h [ ]
  and_go-Follows Q R (stopped e) crashed later next h step = elim h [ ]

  map-Follows :
      {A B : Type 0} (Q : A → Type 0) (R : B → Type 0) (p : Replayed) (m : Attempt A) (f : A → B)
      → Follows env Q p m
      → ((x : A) → Q x → R (f x))
      → Follows env R p (and_go m (λ x t. applied (f x) t))
  map-Follows Q R (posted b) (applied x t) f (q, sound, same) g = (g x q, sound, same)
  map-Follows Q R (stopped e) (refused e' t) f h g = h
  map-Follows Q R (posted b) (refused e' t) f h g = elim h [ ]
  map-Follows Q R (stopped e) (applied x t) f h g = elim h [ ]
  map-Follows Q R (posted b) crashed f h g = elim h [ ]
  map-Follows Q R (stopped e) crashed f h g = elim h [ ]

  prepare-Sound : (h b i : ℕ) (s : StateDb) → Sound env s → Sound env (prepare h b i s)
  unfolding prepare
  prepare-Sound h b i s sound = record {
    steady = record {
      valid = record { placed = sound.steady.valid.placed; bounded = sound.steady.valid.bounded };
      cached = sound.steady.cached;
      distinct = sound.steady.distinct;
      clean = sound.steady.clean;
      no_error = sound.steady.no_error;
      readable = sound.steady.readable;
    };
    older = sound.older;
  }

  prepare-book : (h b i : ℕ) (s : StateDb) → book env (prepare h b i s) ≡ book env s
  unfolding prepare
  prepare-book h b i s = refl

  module _ (keccak : List ℕ → ℕ → ℕ) (emitted : ℕ → List (List ℕ)) (tries : Tries) where
    -- The block ends as the replay of its transactions. After a success the engine has finalized a
    -- sound state with the book, and there are the receipts and their logs.
    abbrev pub Processes : Engine → Block → Replayed → Attempt (List Receipt × List Log) → Type 0
    Processes engine block (posted b) (applied (rs, logs) u) =
        (t : StateDb) × AllAttest keccak emitted block.transactions rs
        × (logs ≡ all_logs rs)
        × Sound env t
        × (book env t ≡ b)
        × (u ≡ finalize engine block rs t)
    Processes engine block (stopped e) (refused e' t) = e' ≡ e
    Processes engine block (posted b) (refused e' t) = ⊥
    Processes engine block (stopped e) (applied x t) = ⊥
    Processes engine block p crashed = ⊥

    ended-Processes :
        (engine : Engine) (block : Block) (p : Replayed) (m : Attempt (List Receipt))
        → Follows env (AllAttest keccak emitted block.transactions) p m
        → Processes engine block p
            (and_go m (λ rs t. applied (rs, all_logs rs) (finalize engine block rs t)))
    ended-Processes engine block (posted b) (applied rs t) (all, sound, same) =
        (t, all, refl, sound, same, refl)
    ended-Processes engine block (stopped e) (refused e' t) h = h
    ended-Processes engine block (posted b) (refused e' t) h = elim h [ ]
    ended-Processes engine block (stopped e) (applied x t) h = elim h [ ]
    ended-Processes engine block (posted b) crashed h = elim h [ ]
    ended-Processes engine block (stopped e) crashed h = elim h [ ]

    module _ (reliable : Reliable tries) where
      apply_transaction-Follows :
          (coinbase : ℕ) (tx : Transaction) (h i : ℕ) (s : StateDb)
          → Sound env s
          → Follows env
              (Attests keccak emitted tx)
              (post env coinbase tx (book env s))
              (apply_transaction keccak emitted env tries none coinbase tx (prepare tx.hash h i s))
      unfolding apply_transaction
      apply_transaction-Follows coinbase tx h i s sound =
          subst
            (λ b.
              Follows env (Attests keccak emitted tx) (post env coinbase tx b) (
                apply_transaction keccak emitted env tries none coinbase tx
                  (prepare tx.hash h i s)))
            (prepare-book tx.hash h i s)
            (signed-Follows env keccak emitted tries reliable coinbase tx tx.sender
              (prepare tx.hash h i s) (prepare-Sound tx.hash h i s sound))

      process_transactions-Follows :
          (hash coinbase : ℕ) (txs : List Transaction) (i : ℕ) (s : StateDb)
          → Sound env s
          → Follows env
              (AllAttest keccak emitted txs)
              (replay env coinbase txs (book env s))
              (process_transactions keccak emitted env tries hash coinbase txs i s)
      unfolding process_transactions replay
      process_transactions-Follows hash coinbase [] i s sound = (tt, sound, refl)
      process_transactions-Follows hash coinbase (tx ∷ txs) i s sound =
          and_go-Follows (Attests keccak emitted tx) (AllAttest keccak emitted (tx ∷ txs))
            (post env coinbase tx (book env s)) _ (replay env coinbase txs) _
            (apply_transaction-Follows coinbase tx hash i s sound)
            (λ r t attests still.
              map-Follows (AllAttest keccak emitted txs) (AllAttest keccak emitted (tx ∷ txs))
                (replay env coinbase txs (book env t))
                (process_transactions keccak emitted env tries hash coinbase txs (suc i) t)
                (λ rs. r ∷ rs) (process_transactions-Follows hash coinbase txs (suc i) t still)
                (λ rs all. (attests, all)))

      -- Where the account trie keeps what it is told and gives no error, and from a sound state (valid,
      -- its revisions older than the next one, one object for each dirty address, no object suicided,
      -- none deleted but empty ones, no error of the database and no account that cannot be read),
      -- Process panics nowhere and ends as the replay of the block on the book of balances and nonces:
      -- with the error of the first transaction that the book refuses; or, if it refuses none, with a
      -- receipt for each transaction, in order, that has its hash, the status of a success and a
      -- bloom in which the addresses and topics of its logs are found, with the logs of the
      -- receipts, and with the state that the engine, if any, makes of a sound state with the book.
      pub process-Processes :
          (engine : Engine) (block : Block) (s : StateDb)
          → Sound env s
          → Processes engine block
              (replay env block.coinbase block.transactions (book env s))
              (process keccak emitted env tries engine block s)
      unfolding process
      process-Processes engine block s sound =
          ended-Processes engine block _ _
            (process_transactions-Follows block.hash block.coinbase block.transactions 0 s sound)
