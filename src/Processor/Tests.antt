-- ===== src/Processor/Tests.antt =====
-- Messages and blocks applied at concrete states, and the theorems at those that meet their hypotheses.
use mjoy_go.Base.{
  ℕ, suc, ◌+◌, ◌*◌, ◌%◌, ◌≡◌, refl, Bool, true, false, none, some, List, [], ◌∷◌, ◌==◌,
  if◌then◌else◌, arith,
}
use mjoy_go.Base.Int.{◌+ℤ◌, ◌-ℤ◌, pos}
use mjoy_go.State.Types.{entry, absent, StoredAccount, Log, StateDb}
use mjoy_go.State.Object.{new_object}
use mjoy_go.State.Finish.{Tries}
use mjoy_go.State.View.{Abstract, abstract}
use mjoy_go.State.Tests.{world, db, db-IsValid}
use mjoy_go.Processor.Transition.{Message, fee_of, ok, transition_db}
use mjoy_go.Processor.Ledger.{balance, nonce}
use mjoy_go.Processor.Verdict.{verdict, Lawful, transition_db-Lawful}
use mjoy_go.Processor.Block.{Transaction, Block, process}
use mjoy_go.Processor.Settled.{Reliable}
use mjoy_go.Processor.Replay.{Replayed, posted, stopped, replay, book, Sound}
use mjoy_go.Processor.Supply.{Supplies, process-Supplies}
use mjoy_go.Processor.Processed.{Processes, process-Processes}

-- The account 1 holds 100 with the nonce 4.
abbrev payment : Message
payment = record { from = 1; to = some 7; value = pos 20; nonce = 4; check_nonce = true }

payment-ok :
    verdict payment (balance world 1 (abstract world db)) (nonce world 1 (abstract world db)) ≡ ok
unfolding new_object fee_of ◌+ℤ◌
payment-ok = refl

transition_db-Lawful_example :
    let A : Abstract = abstract world db in
    Lawful world 9 payment
      (verdict payment (balance world 1 A) (nonce world 1 A))
      A
      (transition_db world 9 payment db)
transition_db-Lawful_example = transition_db-Lawful world 9 payment db db-IsValid tt

-- A trie that keeps accounts.
abbrev accounts_kept : Tries
accounts_kept = record {
  put_slot = λ h r k v. (r, none);
  drop_slot = λ h r k. (r, none);
  put_account = λ a d t. (λ b. if a == b then entry d else t b, none);
  drop_account = λ a t. (λ b. if a == b then absent else t b, none);
  commit_slots = λ h r. none;
  put_code = λ h c. none;
}

accounts_kept-Reliable : Reliable accounts_kept
accounts_kept-Reliable = record {
  faithful = record { put = λ a d t ok b. refl; drop = λ a t ok b. refl };
  puts = λ a d t. refl;
  drops = λ a t. refl;
}

abbrev rich : StoredAccount
rich = record { nonce = 4; balance = some (pos 100); root = 0; code_hash = none }

abbrev a_log : Log
a_log = record { content = 5; tx_hash = 21; block_hash = 12; tx_index = 0; index = 0 }

-- The start of a block, with a log of its first transaction.
abbrev start : StateDb
start = record {
  trie = λ a. if a == 1 then entry rich else absent;
  state_objects = [];
  state_objects_dirty = [];
  db_err = none;
  refund = 0;
  thash = 0;
  bhash = 0;
  tx_index = 0;
  logs = (21, a_log ∷ []) ∷ [];
  log_size = 1;
  preimages = [];
  journal = [];
  valid_revisions = [];
  next_revision_id = 0;
}

start-Sound : Sound world start
start-Sound = record {
  steady = record {
    valid = record { placed = λ a o h. cc; bounded = omega arith };
    cached = tt;
    distinct = tt;
    clean = λ a o h. cc;
    no_error = refl;
    readable = λ a. ground arith;
  };
  older = tt;
}

abbrev first_tx : Transaction
first_tx = record {
  hash = 21;
  account_nonce = 4;
  recipient = some 7;
  amount = pos 20;
  sender = some 1;
}

abbrev block : Block
block = record {
  hash = 12;
  coinbase = 9;
  transactions =
      first_tx ∷ record first_tx { hash = 22; account_nonce = 5; recipient = some 1 } ∷ [];
}

abbrev mix : List ℕ → ℕ → ℕ
mix [] i = i
mix (b ∷ bs) i = (b * 31 + mix bs (suc i)) % 256

abbrev posts : Replayed → Bool
posts (posted b) = true
posts (stopped e) = false

block_posts : posts (replay world 9 block.transactions (book world start)) ≡ true
unfolding new_object fee_of ◌+ℤ◌ ◌-ℤ◌ replay
block_posts = refl

process-Processes_example :
    Processes world mix
      (λ c. (c ∷ []) ∷ (c ∷ 8 ∷ []) ∷ [])
      accounts_kept
      none
      block
      (replay world 9 block.transactions (book world start))
      (process mix (λ c. (c ∷ []) ∷ (c ∷ 8 ∷ []) ∷ []) world accounts_kept none block start)
process-Processes_example =
    process-Processes world mix (λ c. (c ∷ []) ∷ (c ∷ 8 ∷ []) ∷ []) accounts_kept
      accounts_kept-Reliable none block start start-Sound

process-Supplies_example :
    Supplies world
      (7 ∷ 1 ∷ 9 ∷ [])
      none
      block
      start
      (process mix (λ c. (c ∷ []) ∷ []) world accounts_kept none block start)
process-Supplies_example =
    process-Supplies world mix (λ c. (c ∷ []) ∷ []) accounts_kept accounts_kept-Reliable
      (7 ∷ 1 ∷ 9 ∷ []) none block start start-Sound tt
      (
        ((λ a e. ground arith), (λ a e. ground arith)),
        (((λ a e. ground arith), (λ a e. ground arith)), tt),
      )
