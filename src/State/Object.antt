-- ===== src/State/Object.antt =====
-- The methods of `stateObject` (core/state/state_object.go). A method takes the object and the
-- database that owns it; `save` is the write through the pointer that the map holds.
use mjoy_go.Base.{
  ℕ, Bool, true, false, not, ◌&&◌, Option, none, some, List, [], ◌∷◌, lookup, insert, get_or, ◌==◌,
  if◌then◌else◌,
}
use mjoy_go.Base.Int.{ℤ, pos, ◌+ℤ◌, ◌-ℤ◌, is_zero}
use mjoy_go.State.Types.{
  Read, entry, absent, garbled, fault, StoredAccount, Env, StateObject, JournalEntry,
  suicide_change, balance_change, nonce_change, storage_change, code_change, touch_change, StateDb,
}

-- `setError` remembers the first error.
abbrev pub first_error : Option ℕ → Option ℕ → Option ℕ
first_error none e = e
first_error (some d) e = some d

abbrev pub set_error : ℕ → StateObject → StateObject
set_error e o = record o { db_err = first_error o.db_err (some e) }

abbrev pub record_entry : JournalEntry → StateDb → StateDb
record_entry e s = record s { journal = e ∷ s.journal }

abbrev pub mark_dirty : ℕ → StateDb → StateDb
mark_dirty a s = record s { state_objects_dirty = insert a tt s.state_objects_dirty }

abbrev pub set_state_object : StateObject → StateDb → StateDb
set_state_object o s = record s { state_objects = insert o.address o s.state_objects }

-- The end of every setter: tell the database that the object is dirty, once.
unfoldable pub save : StateObject → StateDb → StateDb
save o s =
    set_state_object (record o { armed = false }) (if o.armed then mark_dirty o.address s else s)

module _ (env : Env) where
  unfoldable pub empty_code_hash : ℕ
  empty_code_hash = env.keccak []

  unfoldable pub new_object : ℕ → StoredAccount → StateObject
  unfolding empty_code_hash
  new_object a d = record {
    address = a;
    account = record {
      nonce = d.nonce;
      balance = get_or (pos 0) d.balance;
      root = d.root;
      code_hash = get_or (env.keccak []) d.code_hash;
    };
    db_err = none;
    trie = none;
    code = none;
    cached_storage = [];
    dirty_storage = [];
    dirty_code = false;
    suicided = false;
    touched = false;
    deleted = false;
    armed = true;
  }

  unfoldable pub is_empty : StateObject → Bool
  is_empty o =
      (o.account.nonce == 0) && is_zero o.account.balance && (o.account.code_hash == env.keccak [])

  -- `getTrie`: the root at which the trie stands, and the object with the trie open.
  unfoldable pub get_trie : StateObject → ℕ × StateObject
  get_trie o = elim o.trie [
    | some r ↦ (r, o)
    | none ↦ elim (env.open_storage (env.address_hash o.address) o.account.root) [
      | none ↦ (o.account.root, record o { trie = some o.account.root })
      | some e ↦ (0, set_error e (record o { trie = some 0 }))
    ]
  ]

  -- What `GetState` does with the result of the read: a zero value is not cached.
  abbrev pub cache_read : ℕ → Read ℕ → StateObject → ℕ × StateObject
  cache_read key (entry v) o =
      if v == 0 then (0, o) else (v, record o { cached_storage = insert key v o.cached_storage })
  cache_read key absent o = (0, o)
  cache_read key garbled o = (0, o)
  cache_read key (fault e) o = (0, set_error e o)

  unfoldable pub get_state : ℕ → StateObject → ℕ × StateObject
  unfolding get_trie
  get_state key o = elim (lookup key o.cached_storage) [
    | some v ↦ (v, o)
    | none ↦
        let (root, o') = get_trie o in
        cache_read key (env.read_slot (env.address_hash o.address) root key) o'
  ]

  -- What `Code` keeps of a read from the database.
  abbrev pub keep_code : Option (List ℕ) × Option ℕ → StateObject → Option (List ℕ) × StateObject
  keep_code (c, none) o = (c, record o { code = c })
  keep_code (c, some e) o = (c, set_error e (record o { code = c }))

  -- `Code`
  unfoldable pub get_code : StateObject → Option (List ℕ) × StateObject
  get_code o = elim o.code [
    | some c ↦ (some c, o)
    | none ↦
        if o.account.code_hash == env.keccak []
        then (none, o)
        else keep_code (env.read_code (env.address_hash o.address) o.account.code_hash) o
  ]

-- The setters that leave no trace in the journal; `undo` uses them.
unfoldable pub assign_balance : ℤ → StateObject → StateObject
assign_balance x o = record o { account = record (o.account) { balance = x } }

unfoldable pub assign_nonce : ℕ → StateObject → StateObject
assign_nonce n o = record o { account = record (o.account) { nonce = n } }

unfoldable pub assign_code : ℕ → Option (List ℕ) → StateObject → StateObject
assign_code h c o = record o {
  code = c;
  account = record (o.account) { code_hash = h };
  dirty_code = true;
}

unfoldable pub assign_state : ℕ → ℕ → StateObject → StateObject
assign_state k v o = record o {
  cached_storage = insert k v o.cached_storage;
  dirty_storage = insert k v o.dirty_storage;
}

-- `SetBalance`
unfoldable pub set_balance : ℤ → StateObject → StateDb → StateDb
set_balance x o s =
    save (assign_balance x o) (record_entry (balance_change o.address o.account.balance) s)

-- `SetNonce`
unfoldable pub set_nonce : ℕ → StateObject → StateDb → StateDb
set_nonce n o s = save (assign_nonce n o) (record_entry (nonce_change o.address o.account.nonce) s)

unfoldable pub touch : StateObject → StateDb → StateDb
touch o s =
    save (record o { touched = true })
      (record_entry (touch_change o.address o.touched (not o.armed)) s)

module _ (env : Env) where
  -- `SetCode`
  unfoldable pub set_code : ℕ → Option (List ℕ) → StateObject → StateDb → StateDb
  set_code h c o s =
      let (prev, o') = get_code env o in
      save (assign_code h c o') (record_entry (code_change o.address prev o.account.code_hash) s)

  -- `SetState`
  unfoldable pub set_state : ℕ → ℕ → StateObject → StateDb → StateDb
  set_state k v o s =
      let (prev, o') = get_state env k o in
      save (assign_state k v o') (record_entry (storage_change o.address k prev) s)

  unfoldable pub add_balance : ℤ → StateObject → StateDb → StateDb
  add_balance x o s =
      if is_zero x
      then (if is_empty env o then touch o s else s)
      else set_balance (o.account.balance +ℤ x) o s

unfoldable pub sub_balance : ℤ → StateObject → StateDb → StateDb
sub_balance x o s = if is_zero x then s else set_balance (o.account.balance -ℤ x) o s

-- What `Suicide` does to the object: mark it, and clear the balance.
unfoldable pub suicide_object : StateObject → StateDb → StateDb
suicide_object o s =
    save (assign_balance (pos 0) (record o { suicided = true }))
      (record_entry (suicide_change o.address o.suicided o.account.balance) s)
