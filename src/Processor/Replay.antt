-- ===== src/Processor/Replay.antt =====
-- A block against a book of balances and nonces (core/stateprocessor/stateprocessor.go).
use mjoy_go.Base.{ℕ, ◌≡◌, Option, none, some, List, [], ◌∷◌}
use mjoy_go.Base.Int.{ℤ}
use mjoy_go.State.Types.{Env, StateDb}
use mjoy_go.State.View.{abstract}
use mjoy_go.State.Revisions.{Older}
use mjoy_go.Processor.Transition.{Message, Status, ok, err}
use mjoy_go.Processor.Ledger.{balance, nonce}
use mjoy_go.Processor.Outcome.{moved, bumped}
use mjoy_go.Processor.Verdict.{verdict}
use mjoy_go.Processor.Steady.{Steady}
use mjoy_go.Processor.Block.{
  Transaction, Receipt, BlockError, bad_signature, no_contracts, invalid, Attempt, applied, refused,
  crashed, as_message, topics_of,
}
use mjoy_go.Bloom.Lookup.{Covers}

-- The reference: what every address has, and the nonce of each.
pub record Book : Type 0 where
  pub balances : ℕ → ℤ
  pub nonces : ℕ → ℕ

pub data Replayed : Type 0 where
  posted : Book → Replayed
  stopped : BlockError → Replayed

abbrev pub and_post : Replayed → (Book → Replayed) → Replayed
and_post (posted b) next = next b
and_post (stopped e) next = stopped e

module _ (env : Env) where
  abbrev pub paid : ℕ → ℕ → Message → Book → Book
  paid coinbase to msg b = record {
    balances = λ x. moved env coinbase to msg (b.balances x) x;
    nonces = λ x. bumped env msg.from (b.nonces x) x;
  }

  abbrev pub enter : ℕ → Message → Option ℕ → Status → Book → Replayed
  enter coinbase msg to (err failed e) b = stopped (invalid e)
  enter coinbase msg none ok b = stopped no_contracts
  enter coinbase msg (some to) ok b = posted (paid coinbase to msg b)

  abbrev pub post_signed : ℕ → Transaction → Option ℕ → Book → Replayed
  post_signed coinbase tx none b = stopped bad_signature
  post_signed coinbase tx (some a) b =
      let msg : Message = as_message tx a in
      enter coinbase msg msg.to (verdict msg (b.balances a) (b.nonces a)) b

  -- One transaction on the book, and a block of them.
  abbrev pub post : ℕ → Transaction → Book → Replayed
  post coinbase tx b = post_signed coinbase tx tx.sender b

  unfoldable pub replay : ℕ → List Transaction → Book → Replayed
  replay coinbase [] b = posted b
  replay coinbase (tx ∷ txs) b = and_post (post coinbase tx b) (replay coinbase txs)

  -- The book of a state.
  abbrev pub book : StateDb → Book
  book s = record {
    balances = λ x. balance env x (abstract env s);
    nonces = λ x. nonce env x (abstract env s);
  }

  -- What a block starts from.
  pub record Sound (s : StateDb) : Type 0 where
    pub steady : Steady env s
    pub older : Older s.next_revision_id s.valid_revisions

  -- An attempt on a state ends as the replay on its book: with the same error, or with a result as
  -- it should be and a sound state with the book.
  abbrev pub Follows : {A : Type 0} → (A → Type 0) → Replayed → Attempt A → Type 0
  Follows Q (posted b) (applied x t) = Q x × Sound t × (book t ≡ b)
  Follows Q (stopped e) (refused e' t) = e' ≡ e
  Follows Q (posted b) (refused e' t) = ⊥
  Follows Q (stopped e) (applied x t) = ⊥
  Follows Q p crashed = ⊥

module _ (keccak : List ℕ → ℕ → ℕ) (emitted : ℕ → List (List ℕ)) where
  -- A receipt of a transaction: a success, with a bloom in which its logs are found.
  pub record Attests (tx : Transaction) (r : Receipt) : Type 0 where
    pub tx_hash : r.tx_hash ≡ tx.hash
    pub status : r.status ≡ 1
    pub bloom : Covers keccak (topics_of emitted r.logs) (some r.bloom)

  -- A receipt for each transaction, in order.
  abbrev pub AllAttest : List Transaction → List Receipt → Type 0
  AllAttest [] [] = Unit
  AllAttest [] (r ∷ rs) = ⊥
  AllAttest (tx ∷ txs) [] = ⊥
  AllAttest (tx ∷ txs) (r ∷ rs) = Attests tx r × AllAttest txs rs
