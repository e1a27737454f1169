-- ===== src/State/Samples.antt =====
-- Accounts with storage at the end of a block, and the theorems on it.
use mjoy_go.Base.{
  ℕ, ◌+◌, ◌≡◌, refl, true, false, Option, none, some, [], ◌∷◌, get_or, ◌==◌, ==_cases, subst,
  if◌then◌else◌, inl, inr, ap, arith,
}
use mjoy_go.Base.Int.{pos}
use mjoy_go.State.Types.{entry, absent, StoredAccount, Env, StateObject, StateDb}
use mjoy_go.State.Object.{new_object, get_trie, is_empty}
use mjoy_go.State.View.{value_of}
use mjoy_go.State.Final.{Cached, clear_journal_and_refund}
use mjoy_go.State.Finish.{
  Tries, update_root, update_trie, update_state_object, delete_state_object, write_slots, removed,
  finalise_object, finalise_objects, finalise,
}
use mjoy_go.State.Storage.{Retentive, Coherent, Stores, update_root-Stores}
use mjoy_go.State.Settling.{Faithful, Placed, Distinct}
use mjoy_go.State.Finalise.{Clears, finalise-Finalised}
use mjoy_go.State.Reopen.{Reopens, finalise-Reopens}
use mjoy_go.State.Commit.{copy, commit_to}
use mjoy_go.State.Committed.{Tidy, Commits, commit_to-Commits}
use mjoy_go.State.Copies.{AllCoherent, Alike, copy-Alike}
use mjoy_go.State.Managed.{manage_state}
use mjoy_go.State.Managing.{Manages, manage_state-Manages}

-- A storage trie with room for one slot: the root is its value.
abbrev chain : Env
chain = record {
  keccak = λ bs. 77;
  address_hash = λ a. a + 1000;
  open_storage = λ h r. none;
  read_slot = λ h r k. if k == 5 then entry r else absent;
  read_code = λ h c. (none, some 1);
}

abbrev writes : Tries
writes = record {
  put_slot = λ h r k v. if k == 5 then (v, none) else (r, some 1);
  drop_slot = λ h r k. if k == 5 then (0, none) else (r, none);
  put_account = λ a d t. (λ b. if a == b then entry d else t b, none);
  drop_account = λ a t. (λ b. if a == b then absent else t b, none);
  commit_slots = λ h r. none;
  put_code = λ h c. none;
}

writes-Faithful : Faithful writes
writes-Faithful = record { put = λ a d t ok b. refl; drop = λ a t ok b. refl }

writes-Retentive : Retentive writes chain
writes-Retentive = record { put = put; drop = drop }
  where
    put :
        (h root k v : ℕ)
        → (writes.put_slot h root k v).1 ≡ none
        → (j : ℕ)
        → value_of (chain.read_slot h (writes.put_slot h root k v).0 j)
          ≡ (if k == j then v else value_of (chain.read_slot h root j))
    put h root k v ok j = ground arith

    drop :
        (h root k : ℕ)
        → (writes.drop_slot h root k).1 ≡ none
        → (j : ℕ)
        → value_of (chain.read_slot h (writes.drop_slot h root k).0 j)
          ≡ (if k == j then 0 else value_of (chain.read_slot h root j))
    drop h root k ok j = ground arith

abbrev account : StoredAccount
account = record { nonce = 4; balance = some (pos 100); root = 3; code_hash = none }

-- The account 1 has a new value in its slot, the account 2 is suicided.
abbrev changed_object : StateObject
changed_object = record (new_object chain 1 account) {
  cached_storage = (5, 7) ∷ [];
  dirty_storage = (5, 7) ∷ [];
  armed = false;
}

abbrev doomed_object : StateObject
doomed_object = record (new_object chain 2 account) { suicided = true; armed = false }

abbrev ending : StateDb
ending = record {
  trie = λ a. if a == 2 then entry account else absent;
  state_objects = (1, changed_object) ∷ (2, doomed_object) ∷ [];
  state_objects_dirty = (1, tt) ∷ (2, tt) ∷ [];
  db_err = none;
  refund = 3;
  thash = 11;
  bhash = 12;
  tx_index = 0;
  logs = [];
  log_size = 0;
  preimages = [];
  journal = [];
  valid_revisions = [];
  next_revision_id = 0;
}

ending-Cached : Cached ending.state_objects_dirty ending.state_objects
ending-Cached = ((changed_object, refl), ((doomed_object, refl), tt))

ending-Distinct : Distinct ending.state_objects_dirty
ending-Distinct = (refl, (refl, tt))

ending-Placed : Placed ending.state_objects
unfolding new_object
ending-Placed a o h = ground arith

changed-Coherent : Coherent chain changed_object
unfolding new_object
changed-Coherent = ((refl, tt), (λ k v h. h), λ k v new old. ground arith)

doomed-Coherent : Coherent chain doomed_object
unfolding new_object
doomed-Coherent = (tt, (λ k v h. h), λ k v new old. cc)

ending-AllCoherent : AllCoherent chain ending.state_objects_dirty ending.state_objects
ending-AllCoherent a o d h = elim (==_cases 1 a) [
  | inl e ↦ of changed-Coherent (rw (← e) at h)
  | inr e ↦ elim (==_cases 2 a) [
    | inl f ↦ of doomed-Coherent (rw (e, ← f) at h)
    | inr f ↦ let bad : none ≡ some o = rw (e, f) at h in cc
  ]
]
  where
    of : {p : StateObject} → Coherent chain p → some p ≡ some o → Coherent chain o
    of {p} c same = subst (Coherent chain) (ap (get_or p) same) c

update_root-Stores_example : Stores chain changed_object (update_root writes chain changed_object)
unfolding update_root update_trie write_slots get_trie new_object
update_root-Stores_example =
    update_root-Stores writes chain writes-Retentive changed_object changed-Coherent refl

finalise-Finalised_example : Clears writes chain true ending (finalise writes chain true ending)
finalise-Finalised_example =
    finalise-Finalised writes chain true writes-Faithful ending ending-Cached ending-Distinct
      ending-Placed

abbrev state_of : StateDb → Option StateDb → StateDb
state_of s none = s
state_of s (some t) = t

abbrev ended : StateDb
ended = state_of ending (finalise writes chain true ending)

ending_ends : finalise writes chain true ending ≡ some ended
unfolding finalise finalise_objects finalise_object update_root update_trie update_state_object
    delete_state_object write_slots get_trie new_object is_empty clear_journal_and_refund
ending_ends = refl

finalise-Reopens_example :
    Reopens writes chain true 1 changed_object ended (removed writes chain true changed_object)
unfolding finalise finalise_objects finalise_object update_root update_trie update_state_object
    delete_state_object write_slots get_trie new_object is_empty clear_journal_and_refund
finalise-Reopens_example =
    finalise-Reopens writes chain true writes-Faithful writes-Retentive ending ended 1
      changed_object ending-Cached ending-Distinct ending-Placed ending_ends refl refl refl
      changed-Coherent refl refl

copy-Alike_example : Alike chain ending (copy chain ending)
copy-Alike_example = copy-Alike chain ending ending-Cached ending-AllCoherent

manage_state-Manages_example : Manages chain ending (manage_state chain ending)
manage_state-Manages_example = manage_state-Manages chain ending ending-Cached ending-AllCoherent

ending-Tidy : Tidy ending.state_objects
unfolding new_object
ending-Tidy = (refl, refl, (refl, refl, tt))

commit_to-Commits_example :
    Commits writes chain true ending (commit_to writes chain (λ t. (21, none)) true ending)
commit_to-Commits_example =
    commit_to-Commits writes chain true writes-Faithful (λ t. (21, none)) ending ending-Tidy
