-- ===== src/State/Types.antt =====
-- The data of core/state: state_object.go, journal.go and statedb.go. Addresses, hashes and errors
-- are numbers, which the package only compares. Code is a byte slice, `none` for nil.
use mjoy_go.Base.{ℕ, Bool, Option, List, Map}
use mjoy_go.Base.Int.{ℤ}

-- What `TryGet` and the decoding of its result give.
pub data Read (A : Type 0) : Type 0 where
  entry : A → Read A
  absent : Read A
  garbled : Read A
  fault : ℕ → Read A

-- An account as it is decoded: a balance and a code hash may be nil.
pub record StoredAccount : Type 0 where
  pub nonce : ℕ
  pub balance : Option ℤ
  pub root : ℕ
  pub code_hash : Option ℕ

-- What the package takes from elsewhere: hashes, the storage tries and the code of contracts.
pub record Env : Type 0 where
  pub keccak : List ℕ → ℕ
  pub address_hash : ℕ → ℕ
  pub open_storage : ℕ → ℕ → Option ℕ
  pub read_slot : ℕ → ℕ → ℕ → Read ℕ
  pub read_code : ℕ → ℕ → Option (List ℕ) × Option ℕ

-- `Account`, once `newObject` has filled in what is nil.
pub record Account : Type 0 where
  pub nonce : ℕ
  pub balance : ℤ
  pub root : ℕ
  pub code_hash : ℕ

-- `trie` is the root at which the storage trie was opened; `armed` says that `onDirty` is not nil.
pub record StateObject : Type 0 where
  pub address : ℕ
  pub account : Account
  pub db_err : Option ℕ
  pub trie : Option ℕ
  pub code : Option (List ℕ)
  pub cached_storage : Map ℕ
  pub dirty_storage : Map ℕ
  pub dirty_code : Bool
  pub suicided : Bool
  pub touched : Bool
  pub deleted : Bool
  pub armed : Bool

pub data JournalEntry : Type 0 where
  create_object_change : ℕ → JournalEntry
  reset_object_change : StateObject → JournalEntry
  suicide_change : ℕ → Bool → ℤ → JournalEntry
  balance_change : ℕ → ℤ → JournalEntry
  nonce_change : ℕ → ℕ → JournalEntry
  storage_change : ℕ → ℕ → ℕ → JournalEntry
  code_change : ℕ → Option (List ℕ) → ℕ → JournalEntry
  refund_change : ℕ → JournalEntry
  add_log_change : ℕ → JournalEntry
  add_preimage_change : ℕ → JournalEntry
  touch_change : ℕ → Bool → Bool → JournalEntry

pub record Revision : Type 0 where
  pub id : ℕ
  pub journal_index : ℕ

-- `transaction.Log`: `content` stands for the fields that the emitter sets.
pub record Log : Type 0 where
  pub content : ℕ
  pub tx_hash : ℕ
  pub block_hash : ℕ
  pub tx_index : ℕ
  pub index : ℕ

-- The account trie is what its reads return. The journal holds the newest entry first, and each
-- list of logs the newest log first.
pub record StateDb : Type 0 where
  pub trie : ℕ → Read StoredAccount
  pub state_objects : Map StateObject
  pub state_objects_dirty : Map (Unit {0})
  pub db_err : Option ℕ
  pub refund : ℕ
  pub thash : ℕ
  pub bhash : ℕ
  pub tx_index : ℕ
  pub logs : Map (List Log)
  pub log_size : ℕ
  pub preimages : Map (List ℕ)
  pub journal : List JournalEntry
  pub valid_revisions : List Revision
  pub next_revision_id : ℕ
