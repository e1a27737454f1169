-- ===== src/State/Tests.antt =====
-- Runs of core/state at concrete inputs, and the theorems at inputs that meet their hypotheses.
use mjoy_go.Base.{
  refl, get_or, ℕ, ◌+◌, ◌≡◌, ◌==◌, if◌then◌else◌, true, none, some, List, [], ◌∷◌, lookup, arith,
}
use mjoy_go.Base.Int.{pos}
use mjoy_go.State.Types.{entry, absent, fault, StoredAccount, Env, StateObject, StateDb}
use mjoy_go.State.Object
use mjoy_go.State.Object.{new_object}
use mjoy_go.State.Db
use mjoy_go.State.Db.{get_state_object}
use mjoy_go.State.Journal.{snapshot, revert_to_snapshot, undo_all, search_revision}
use mjoy_go.State.View.{abstract, look_trie}
use mjoy_go.State.Valid.{IsValid}
use mjoy_go.State.Ops
use mjoy_go.State.Ops.{Op, run, apply}
use mathlib.Core.Option
use mjoy_go.State.Types.{nonce_change}
use mjoy_go.State.Journal.{undo}
use mjoy_go.State.Spec.{undo_view}
use mjoy_go.State.Undo.{undo-undo_view}
use mjoy_go.State.Undoable.{IsUndoable}
use mjoy_go.State.Ops.{run-IsUndoable}
use mjoy_go.State.Refinement.{carried, effects, run-effects}
use mjoy_go.State.Getters.{nonce_of, slot_of, suicided_of, exists_of, code_of, getters-view}
use mjoy_go.State.Final.{delete_suicides, Deletes, delete_suicides-Deletes}
use mjoy_go.State.Managed
use mjoy_go.State.Managed.{ManagedState}
use mjoy_go.Base.{◌%◌, max, u64_mod}
use mjoy_go.State.Reserved.{NoGap, state_nonce, reserved-get_nonce}
use mjoy_go.State.Nonces.{get_nonce-set_nonce}
use mjoy_go.State.Since.{Restores, Since, marked, call, nested, reverted}
use mjoy_go.State.Revert.{run-Since, revert_to_snapshot-snapshot}

abbrev pub world : Env
world = record {
  keccak = λ bs. 77;
  address_hash = λ a. a + 1000;
  open_storage = λ h r. none;
  read_slot = λ h r k. if k == 5 then entry 9 else absent;
  read_code = λ h c. (none, some 1);
}

-- An account in the trie, one that cannot be read, and a deleted one that is still cached.
abbrev stored : StoredAccount
stored = record { nonce = 4; balance = some (pos 100); root = 0; code_hash = none }

abbrev pub db : StateDb
db = record {
  trie = λ a. if a == 1 then entry stored else if a == 2 then fault 8 else absent;
  state_objects = (6, record (new_object world 6 stored) { deleted = true }) ∷ [];
  state_objects_dirty = [];
  db_err = none;
  refund = 3;
  thash = 11;
  bhash = 12;
  tx_index = 0;
  logs = [];
  log_size = 0;
  preimages = [];
  journal = [];
  valid_revisions = [];
  next_revision_id = 0;
}

pub db-IsValid : IsValid world db
unfolding new_object
db-IsValid = record { placed = placed; bounded = omega arith }
  where
    placed :
        (a : ℕ) (o : StateObject)
        → lookup a db.state_objects ≡ some o
        → (o.address ≡ a) × (o.deleted ≡ true → look_trie world a (db.trie a) ≡ none)
    placed a o h = ground arith

abbrev calls : List Op
calls =
    Ops.add_balance 1 (pos 50)
    ∷ Ops.set_state 1 5 8
    ∷ Ops.set_nonce 6 2
    ∷ Ops.suicide 1
    ∷ Ops.set_balance 2 (pos 1)
    ∷ Ops.create_account 1
    ∷ Ops.add_log 99
    ∷ Ops.add_refund 4
    ∷ Ops.set_code 6 (some (1 ∷ 2 ∷ []))
    ∷ Ops.add_balance 7 (pos 0)
    ∷ Ops.add_preimage 3 (4 ∷ [])
    ∷ []

-- Two snapshots within the first, the older of them reverted, and then a call.
abbrev outer : StateDb
outer = Db.add_refund 4 (snapshot db).1

abbrev inner : StateDb
inner = Db.set_nonce world 1 6 (snapshot (snapshot outer).1).1

inner-Since : Since world db inner
inner-Since = call (Ops.set_nonce 1 6) (nested (nested (call (Ops.add_refund 4) marked)))

abbrev after : StateDb
after = get_or db (revert_to_snapshot world 1 inner)

after-reverted : revert_to_snapshot world 1 inner ≡ some after
unfolding get_state_object Db.get_or_new_state_object Db.set_nonce Db.add_refund undo undo_all
    snapshot search_revision revert_to_snapshot new_object Object.save Object.assign_nonce
    Object.set_nonce
after-reverted = refl

revert_to_snapshot-snapshot_example :
    Restores world db (revert_to_snapshot world (snapshot db).0 (run world calls after))
revert_to_snapshot-snapshot_example =
    revert_to_snapshot-snapshot world db-IsValid tt
      (run-Since world calls (reverted 1 (omega arith) after-reverted inner-Since))

-- The account 1 is loaded by the undo method, the account 6 is deleted.
undo-undo_view_example :
    Option.map (abstract world) (undo world (nonce_change 1 3) db)
    ≡ undo_view world (nonce_change 1 3) (abstract world db)
undo-undo_view_example = undo-undo_view world (nonce_change 1 3) db

run-IsUndoable_example : IsUndoable world db (run world calls db)
run-IsUndoable_example = run-IsUndoable world calls db db-IsValid

run-effects_example : abstract world (run world calls db) ≡ effects world calls (abstract world db)
run-effects_example = run-effects world calls db db-IsValid

getters-view_example :
    let v = (abstract world db).look 1 in
    ((Db.get_balance world 1 db).0 ≡ carried world v)
    × ((Db.get_nonce world 1 db).0 ≡ nonce_of v)
    × ((Db.get_state world 1 5 db).0 ≡ slot_of 5 v)
    × ((Db.get_code world 1 db).0 ≡ code_of v)
    × ((Db.has_suicided world 1 db).0 ≡ suicided_of v)
    × ((Db.exist world 1 db).0 ≡ exists_of v)
getters-view_example = getters-view world 1 5 db

-- The account 1 is dirty and suicided, the account 6 is only cached.
abbrev doomed : StateDb
doomed = record db {
  state_objects = (1, record (new_object world 1 stored) { suicided = true }) ∷ db.state_objects;
  state_objects_dirty = (1, tt) ∷ [];
}

delete_suicides-Deletes_example : Deletes doomed (delete_suicides doomed)
delete_suicides-Deletes_example =
    delete_suicides-Deletes doomed
      ((record (new_object world 1 stored) { suicided = true }, refl), tt)

-- The account 1 is managed, with three nonces reserved.
abbrev managed : ManagedState
managed = record {
  db = db;
  accounts = (1, record { nstart = 4; nonces = true ∷ true ∷ true ∷ [] }) ∷ [];
}

get_nonce-set_nonce_example :
    (Managed.get_nonce world 1 (Managed.set_nonce world 1 9 managed)).0 ≡ 9
get_nonce-set_nonce_example = get_nonce-set_nonce world 1 9 managed db-IsValid (omega arith)

-- The state has the nonce 4 for the account 1.
removed_nonce : (Managed.get_nonce world 1 (Managed.remove_nonce world 1 5 managed)).0 ≡ 5
unfolding Db.get_nonce get_state_object new_object Managed.get_account Managed.get_nonce
    Managed.remove_nonce
removed_nonce = refl

reserved-get_nonce_example :
    (let (m, ms') = Managed.new_nonce world 1 managed in
      (m ≡ (Managed.get_nonce world 1 managed).0)
      × ((Managed.get_nonce world 1 ms').0 ≡ max ((m + 1) % u64_mod) (state_nonce world 1 managed))
      × NoGap world (lookup 1 ms'.accounts))
    × (let ms' = Managed.remove_nonce world 1 5 managed in
        ((Managed.get_nonce world 1 ms').0 ≡ max 5 (state_nonce world 1 managed))
        × NoGap world (lookup 1 ms'.accounts))
unfolding Db.get_nonce get_state_object new_object Managed.get_account
reserved-get_nonce_example =
    reserved-get_nonce world 1 5 managed (refl, (refl, (refl, tt))) (omega arith) (omega arith)
      (omega arith) (omega arith)
