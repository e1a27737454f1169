-- ===== src/State/Commit.antt =====
-- Writing a state to a database, and copying it (core/state/statedb.go, core/state/state_object.go).
use mjoy_go.Base.{
  ℕ, Bool, true, false, ◌&&◌, ◌||◌, Option, none, some, List, [], ◌∷◌, lookup, insert, erase, Map,
  if◌then◌else◌,
}
use mjoy_go.State.Types.{Read, StoredAccount, Env, StateObject, StateDb}
use mjoy_go.State.Object.{set_state_object, is_empty, new_object}
use mjoy_go.State.Final.{clear_journal_and_refund, is_dirty}
use mjoy_go.State.Finish.{Tries, stored, update_trie, update_state_object, delete_state_object}

-- What `CommitTo` returns as its error, if any, and the object or the database.
abbrev pub Failing : Type 0 → Type 0
Failing A = Option ℕ × A

module _ (tries : Tries) (env : Env) where
  abbrev pub with_root : ℕ → Option ℕ → StateObject → Failing StateObject
  with_root root none o = (none, record o { account = record (o.account) { root = root } })
  with_root root (some e) o = (some e, o)

  abbrev pub commit_updated : ℕ → StateObject → Option ℕ → Failing StateObject
  commit_updated root o (some e) = (some e, o)
  commit_updated root o none =
      with_root root (tries.commit_slots (env.address_hash o.address) root) o

  -- `CommitTrie`
  unfoldable pub commit_trie : StateObject → Failing StateObject
  commit_trie o = let (root, o') = update_trie tries env o in commit_updated root o' o'.db_err

  abbrev pub code_put : Option (List ℕ) → Bool → StateObject → Failing StateObject
  code_put (some c) true o = elim (tries.put_code o.account.code_hash c) [
    | some e ↦ (some e, o)
    | none ↦ (none, record o { dirty_code = false })
  ]
  code_put (some c) false o = (none, o)
  code_put none dirty o = (none, o)

  -- The code of a contract goes to the database when it is new.
  unfoldable pub commit_code : StateObject → Failing StateObject
  commit_code o = code_put o.code o.dirty_code o

  abbrev pub then_trie : Failing StateObject → Failing StateObject
  then_trie (some e, o) = (some e, o)
  then_trie (none, o) = commit_trie o

  abbrev pub no_longer_dirty : ℕ → StateDb → StateDb
  no_longer_dirty a s = record s { state_objects_dirty = erase a s.state_objects_dirty }

  abbrev pub after_object : ℕ → StateDb → Failing StateObject → Failing StateDb
  after_object a s (some e, o) = (some e, set_state_object o s)
  after_object a s (none, o) =
      (none, no_longer_dirty a (update_state_object tries env o (set_state_object o s)))

  -- One round of `CommitTo`
  unfoldable pub commit_object : Bool → ℕ → StateObject → StateDb → Failing StateDb
  commit_object empties a o s =
      let dirty = is_dirty a s.state_objects_dirty in
      if o.suicided || (dirty && empties && is_empty env o)
      then (none, no_longer_dirty a (delete_state_object tries env o s))
      else (if dirty
          then after_object a s (then_trie (commit_code o))
          else (none, no_longer_dirty a s))

  abbrev pub next_object : Failing StateDb → (StateDb → Failing StateDb) → Failing StateDb
  next_object (some e, s) f = (some e, s)
  next_object (none, s) f = f s

  unfoldable pub commit_objects : Bool → Map StateObject → StateDb → Failing StateDb
  commit_objects empties [] s = (none, s)
  commit_objects empties ((a, o) ∷ objects) s =
      next_object (commit_object empties a o s) (λ s'. commit_objects empties objects s')

  -- `CommitTo`, up to the commit of the account trie, which gives the root or an error.
  unfoldable pub commit_to :
      ((ℕ → Read StoredAccount) → ℕ × Option ℕ) → Bool → StateDb → ℕ × Option ℕ × StateDb
  commit_to commit_accounts empties s =
      let (e, s') = commit_objects empties s.state_objects s in
      elim e [
        | some d ↦ (0, some d, clear_journal_and_refund s')
        | none ↦ let (root, d) = commit_accounts s'.trie in (root, d, clear_journal_and_refund s')
      ]

module _ (env : Env) where
  -- `deepCopy`: the cache of the copy holds the dirty slots only.
  unfoldable pub deep_copy : StateObject → StateObject
  deep_copy o = record (new_object env o.address (stored o.account)) {
    trie = o.trie;
    code = o.code;
    cached_storage = o.dirty_storage;
    dirty_storage = o.dirty_storage;
    dirty_code = o.dirty_code;
    suicided = o.suicided;
    deleted = o.deleted;
  }

  unfoldable pub copy_objects : Map (Unit {0}) → Map StateObject → Option (Map StateObject)
  copy_objects [] m = some []
  copy_objects ((a, _) ∷ dirty) m = elim (lookup a m) [
    | none ↦ none
    | some o ↦ elim (copy_objects dirty m) [
      | none ↦ none
      | some copies ↦ some (insert a (deep_copy o) copies)
    ]
  ]

  abbrev pub copied : StateDb → Option (Map StateObject) → Option StateDb
  copied s none = none
  copied s (some objects) = some (record s {
    state_objects = objects;
    db_err = none;
    thash = 0;
    bhash = 0;
    tx_index = 0;
    journal = [];
    valid_revisions = [];
    next_revision_id = 0;
  })

  -- `Copy`; a dirty address without an object is a panic.
  unfoldable pub copy : StateDb → Option StateDb
  copy s = copied s (copy_objects s.state_objects_dirty s.state_objects)
