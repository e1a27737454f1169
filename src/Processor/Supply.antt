-- ===== src/Processor/Supply.antt =====
-- A block makes no money and loses none (core/stateprocessor/stateprocessor.go).
use mjoy_go.Base.{
  ℕ, ◌≡◌, refl, false, Option, none, some, List, [], ◌∷◌, ◌==◌, if◌then◌else◌, Bool-cases, inl, inr,
  ap, ◌∙◌,
}
use mjoy_go.Base.Int.{ℤ, pos, ◌+ℤ◌, ◌-ℤ◌, int_laws}
use mjoy_go.State.Types.{Env, Log, StateDb}
use mjoy_go.State.Finish.{Tries}
use mjoy_go.Processor.Transition.{Message, Status, ok, err, fee_of}
use mjoy_go.Processor.Ledger.{only}
use mjoy_go.Processor.Outcome.{moved}
use mjoy_go.Processor.Verdict.{verdict}
use mjoy_go.Processor.Settled.{Reliable}
use mjoy_go.Processor.Block.{
  Transaction, Block, Receipt, Attempt, applied, refused, crashed, as_message, Engine, finalize,
  process,
}
use mjoy_go.Processor.Replay.{
  Book, Replayed, posted, stopped, and_post, paid, enter, post_signed, post, replay, book, Sound,
}
use mjoy_go.Processor.Processed.{Processes, process-Processes}

abbrev pub total : List ℕ → (ℕ → ℤ) → ℤ
total [] f = pos 0
total (x ∷ xs) f = f x +ℤ total xs f

-- The address is not in the list.
abbrev pub Missing : ℕ → List ℕ → Type 0
Missing a [] = Unit
Missing a (x ∷ xs) = ((a == x) ≡ false) × Missing a xs

-- The address is in the list, once.
abbrev pub Once : ℕ → List ℕ → Type 0
Once a [] = ⊥
Once a (x ∷ xs) = if a == x then Missing a xs else Once a xs

-- The parties of a transaction are in the list.
abbrev pub Known : List ℕ → Transaction → Type 0
Known xs tx =
    ((a : ℕ) → tx.sender ≡ some a → Once a xs) × ((a : ℕ) → tx.recipient ≡ some a → Once a xs)

abbrev pub AllKnown : List ℕ → List Transaction → Type 0
AllKnown xs [] = Unit
AllKnown xs (tx ∷ txs) = Known xs tx × AllKnown xs txs

module _ (env : Env) where
  total-Missing : (a : ℕ) (v : ℤ) (xs : List ℕ) → Missing a xs → total xs (only env a v) ≡ pos 0
  total-Missing a v [] m = refl
  total-Missing a v (x ∷ xs) (off, m) =
      let rest = total-Missing a v xs m in rw (off, rest) (omega int_laws)

  total-only : (a : ℕ) (v : ℤ) (xs : List ℕ) → Once a xs → total xs (only env a v) ≡ v
  total-only a v [] o = elim o [ ]
  total-only a v (x ∷ xs) o = elim (Bool-cases (a == x)) [
    | inl e ↦ rw (e, total-Missing a v xs (rw e at o)) (omega int_laws)
    | inr e ↦ rw (e, total-only a v xs (rw e at o)) (omega int_laws)
  ]

  total-moved :
      (coinbase to : ℕ) (msg : Message) (f : ℕ → ℤ) (xs : List ℕ)
      → total xs (λ x. moved env coinbase to msg (f x) x)
        ≡ total xs f
          +ℤ total xs (only env to msg.value)
          +ℤ total xs (only env coinbase (fee_of msg.value))
          -ℤ total xs (only env msg.from (fee_of msg.value +ℤ msg.value))
  total-moved coinbase to msg f [] = omega int_laws
  total-moved coinbase to msg f (x ∷ xs) = rw (total-moved coinbase to msg f xs) (omega int_laws)

  paid-total :
      (coinbase to : ℕ) (msg : Message) (b : Book) (xs : List ℕ)
      → Once coinbase xs
      → Once to xs
      → Once msg.from xs
      → total xs (paid env coinbase to msg b).balances ≡ total xs b.balances
  paid-total coinbase to msg b xs c t f =
      total-moved coinbase to msg b.balances xs
      ∙ rw
          (
            total-only to msg.value xs t,
            total-only coinbase (fee_of msg.value) xs c,
            total-only msg.from (fee_of msg.value +ℤ msg.value) xs f,
          )
          (omega int_laws)

  -- The book after it has as much as before.
  abbrev Balanced : List ℕ → Book → Replayed → Type 0
  Balanced xs b (posted c) = total xs c.balances ≡ total xs b.balances
  Balanced xs b (stopped e) = Unit

  enter-Balanced :
      (coinbase : ℕ) (msg : Message) (to : Option ℕ) (st : Status) (b : Book) (xs : List ℕ)
      → Once coinbase xs
      → ((a : ℕ) → to ≡ some a → Once a xs)
      → Once msg.from xs
      → Balanced xs b (enter env coinbase msg to st b)
  enter-Balanced coinbase msg to (err failed e) b xs c t f = tt
  enter-Balanced coinbase msg none ok b xs c t f = tt
  enter-Balanced coinbase msg (some to) ok b xs c t f =
      paid-total coinbase to msg b xs c (t to refl) f

  signed-Balanced :
      (coinbase : ℕ) (tx : Transaction) (sender : Option ℕ) (b : Book) (xs : List ℕ)
      → Once coinbase xs
      → ((a : ℕ) → tx.recipient ≡ some a → Once a xs)
      → ((a : ℕ) → sender ≡ some a → Once a xs)
      → Balanced xs b (post_signed env coinbase tx sender b)
  signed-Balanced coinbase tx none b xs c t f = tt
  signed-Balanced coinbase tx (some a) b xs c t f =
      let msg : Message = as_message tx a in
      enter-Balanced coinbase msg msg.to (verdict msg (b.balances a) (b.nonces a)) b xs c t
        (f a refl)

  and_post-Balanced :
      (b : Book) (p : Replayed) (later : Book → Replayed) (xs : List ℕ)
      → Balanced xs b p
      → ((c : Book) → Balanced xs c (later c))
      → Balanced xs b (and_post p later)
  and_post-Balanced b (stopped e) later xs h step = tt
  and_post-Balanced b (posted c) later xs h step = chain (later c) (step c)
    where
      chain : (r : Replayed) → Balanced xs c r → Balanced xs b r
      chain (stopped e) k = tt
      chain (posted d) k = k ∙ h

  replay-Balanced :
      (coinbase : ℕ) (txs : List Transaction) (b : Book) (xs : List ℕ)
      → Once coinbase xs
      → AllKnown xs txs
      → Balanced xs b (replay env coinbase txs b)
  unfolding replay
  replay-Balanced coinbase [] b xs c known = refl
  replay-Balanced coinbase (tx ∷ txs) b xs c ((f, t), known) =
      and_post-Balanced b (post env coinbase tx b) (replay env coinbase txs) xs
        (signed-Balanced coinbase tx tx.sender b xs c t f)
        (λ d. replay-Balanced coinbase txs d xs c known)

  -- A success, after which the engine starts from a state with as much money as before.
  abbrev pub Supplies :
      List ℕ → Engine → Block → StateDb → Attempt (List Receipt × List Log) → Type 0
  Supplies xs engine block s (applied (rs, logs) u) =
      (t : StateDb) × (u ≡ finalize engine block rs t)
      × (total xs (book env t).balances ≡ total xs (book env s).balances)
  Supplies xs engine block s (refused e u) = Unit
  Supplies xs engine block s crashed = ⊥

  module _ (keccak : List ℕ → ℕ → ℕ) (emitted : ℕ → List (List ℕ)) (tries : Tries) where
    followed-Supplies :
        (xs : List ℕ) (engine : Engine) (block : Block) (s : StateDb) (p : Replayed)
        (m : Attempt (List Receipt × List Log))
        → Balanced xs (book env s) p
        → Processes env keccak emitted tries engine block p m
        → Supplies xs engine block s m
    followed-Supplies xs engine block s (posted b) (applied (rs, logs) u) h
          (t, all, l, sound, same, ends) =
        (t, ends, ap (λ (c : Book). total xs c.balances) same ∙ h)
    followed-Supplies xs engine block s (stopped e) (applied (rs, logs) u) h bad = elim bad [ ]
    followed-Supplies xs engine block s p (refused e u) h k = tt
    followed-Supplies xs engine block s p crashed h bad = bad

    -- Where the account trie keeps what it is told and gives no error, and from a sound state,
    -- Process panics nowhere; and where it succeeds, the balances of any addresses, each taken
    -- once, among which are the coinbase and the sender and the recipient of each transaction, add
    -- up to as much before the engine finalizes the block as at the start of it.
    pub process-Supplies :
        Reliable tries
        → (xs : List ℕ) (engine : Engine) (block : Block) (s : StateDb) → Sound env s
        → Once block.coinbase xs
        → AllKnown xs block.transactions
        → Supplies xs engine block s (process keccak emitted env tries engine block s)
    process-Supplies reliable xs engine block s sound c known =
        followed-Supplies xs engine block s
          (replay env block.coinbase block.transactions (book env s)) _
          (replay-Balanced block.coinbase block.transactions (book env s) xs c known)
          (process-Processes env keccak emitted tries reliable engine block s sound)
