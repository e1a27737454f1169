-- ===== src/State/Finish.antt =====
-- The end of a transaction and of a block: storage and accounts go into their tries
-- (core/state/state_object.go, core/state/statedb.go). `none` is a panic.
use mjoy_go.Base.{
  ℕ, Bool, true, ◌&&◌, ◌||◌, Option, none, some, List, [], ◌∷◌, lookup, Map, ◌==◌, if◌then◌else◌,
}
use mjoy_go.State.Types.{Read, StoredAccount, Env, Account, StateObject, StateDb}
use mjoy_go.State.Object.{first_error, set_state_object, get_trie, is_empty}
use mjoy_go.State.Final.{clear_journal_and_refund}

-- What the tries do when they are written: a storage trie is known by its root hash, the account trie
-- by what its reads give. Each call may give an error.
pub record Tries : Type 0 where
  pub put_slot : ℕ → ℕ → ℕ → ℕ → ℕ × Option ℕ
  pub drop_slot : ℕ → ℕ → ℕ → ℕ × Option ℕ
  pub put_account :
      ℕ → StoredAccount → (ℕ → Read StoredAccount) → (ℕ → Read StoredAccount) × Option ℕ
  pub drop_account : ℕ → (ℕ → Read StoredAccount) → (ℕ → Read StoredAccount) × Option ℕ
  pub commit_slots : ℕ → ℕ → Option ℕ
  pub put_code : ℕ → List ℕ → Option ℕ

-- What is encoded of an account.
abbrev pub stored : Account → StoredAccount
stored d = record {
  nonce = d.nonce;
  balance = some d.balance;
  root = d.root;
  code_hash = some d.code_hash;
}

module _ (tries : Tries) where
  -- One round of `updateTrie`: the new root, and the first error.
  abbrev pub write_slot : ℕ → ℕ → ℕ → ℕ → ℕ × Option ℕ
  write_slot h root k v = if v == 0 then tries.drop_slot h root k else tries.put_slot h root k v

  unfoldable pub write_slots : ℕ → Map ℕ → ℕ → Option ℕ → ℕ × Option ℕ
  write_slots h [] root e = (root, e)
  write_slots h ((k, v) ∷ dirty) root e =
      let (root', e') = write_slot h root k v in write_slots h dirty root' (first_error e e')

  abbrev pub with_trie : ℕ × Option ℕ → StateObject → StateObject
  with_trie (root, e) o = record o { trie = some root; dirty_storage = []; db_err = e }

  module _ (env : Env) where
    -- `updateTrie`: the root, and the object
    unfoldable pub update_trie : StateObject → ℕ × StateObject
    update_trie o =
        let (root, o') = get_trie env o in
        let written = write_slots (env.address_hash o.address) o.dirty_storage root o'.db_err in
        (written.0, with_trie written o')

    -- `updateRoot`
    unfoldable pub update_root : StateObject → StateObject
    update_root o =
        let (root, o') = update_trie o in
        record o' { account = record (o'.account) { root = root } }

    -- The errors of the account trie are kept by the database.
    abbrev pub with_accounts : (ℕ → Read StoredAccount) × Option ℕ → StateDb → StateDb
    with_accounts (trie, e) s = record s { trie = trie; db_err = first_error s.db_err e }

    unfoldable pub update_state_object : StateObject → StateDb → StateDb
    update_state_object o s =
        with_accounts (tries.put_account o.address (stored o.account) s.trie) s

    unfoldable pub delete_state_object : StateObject → StateDb → StateDb
    delete_state_object o s =
        with_accounts (tries.drop_account o.address s.trie)
          (set_state_object (record o { deleted = true }) s)

    abbrev pub removed : Bool → StateObject → Bool
    removed empties o = o.suicided || (empties && is_empty env o)

    -- One round of `Finalise`
    unfoldable pub finalise_object : Bool → StateObject → StateDb → StateDb
    finalise_object empties o s =
        if removed empties o
        then delete_state_object o s
        else update_state_object (update_root o) (set_state_object (update_root o) s)

    unfoldable pub finalise_objects : Bool → Map (Unit {0}) → StateDb → Option StateDb
    finalise_objects empties [] s = some s
    finalise_objects empties ((a, _) ∷ dirty) s = elim (lookup a s.state_objects) [
      | none ↦ none
      | some o ↦ finalise_objects empties dirty (finalise_object empties o s)
    ]

    abbrev pub cleared : Option StateDb → Option StateDb
    cleared none = none
    cleared (some s) = some (clear_journal_and_refund s)

    -- `Finalise`
    unfoldable pub finalise : Bool → StateDb → Option StateDb
    finalise empties s = cleared (finalise_objects empties s.state_objects_dirty s)

    abbrev rooted : ((ℕ → Read StoredAccount) → ℕ) → Option StateDb → Option (ℕ × StateDb)
    rooted hash none = none
    rooted hash (some s) = some (hash s.trie, s)

    -- `IntermediateRoot`, with the hash of the account trie
    abbrev pub intermediate_root : ((ℕ → Read StoredAccount) → ℕ) → StateDb → Option (ℕ × StateDb)
    intermediate_root hash s = rooted hash (finalise true s)
