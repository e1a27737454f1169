-- ===== src/State/Journal.antt =====
-- The journal and the snapshots of `StateDB` (core/state/journal.go, core/state/statedb.go). `none`
-- is a panic: the method of a nil object, or a revision that is not valid.
use mjoy_go.Base.{
  ℕ, ◌+◌, ◌-◌, ◌%◌, u64_mod, Bool, ◌&&◌, not, Option, none, some, List, [], ◌∷◌, ◌++◌, lookup,
  insert, erase, length, take, drop, leb, ◌==◌, if◌then◌else◌,
}
use mjoy_go.State.Types.{
  Env, StateObject, JournalEntry, create_object_change, reset_object_change, suicide_change,
  balance_change, nonce_change, storage_change, code_change, refund_change, add_log_change,
  add_preimage_change, touch_change, Revision, Log, StateDb,
}
use mjoy_go.State.Object.{
  save, set_state_object, assign_balance, assign_nonce, assign_code, assign_state,
}
use mjoy_go.State.Db.{get_state_object}

-- The address that `touchChange.undo` leaves alone.
abbrev pub ripemd : ℕ
ripemd = 3

-- The log list without its newest log.
abbrev pub pop_log : ℕ → Option (List Log) → StateDb → Option StateDb
pop_log h (some (l ∷ [])) s =
    some (record s { logs = erase h s.logs; log_size = (s.log_size + u64_mod - 1) % u64_mod })
pop_log h (some (l ∷ m ∷ ls)) s =
    some (record s {
      logs = insert h (m ∷ ls) s.logs;
      log_size = (s.log_size + u64_mod - 1) % u64_mod;
    })
pop_log h (some []) s = none
pop_log h none s = none

abbrev pub forget_dirty : Bool → ℕ → StateDb → StateDb
forget_dirty prev_dirty a s =
    if prev_dirty then s else record s { state_objects_dirty = erase a s.state_objects_dirty }

module _ (env : Env) where
  -- `s.getStateObject(a).f(…)`
  abbrev pub on_object : ℕ → (StateObject → StateDb → StateDb) → StateDb → Option StateDb
  on_object a f s =
      let (found, s') = get_state_object env a s in
      elim found [ some o ↦ some (f o s') | none ↦ none ]

  unfoldable pub undo : JournalEntry → StateDb → Option StateDb
  undo (create_object_change a) s = some (record s {
    state_objects = erase a s.state_objects;
    state_objects_dirty = erase a s.state_objects_dirty;
  })
  undo (reset_object_change prev) s = some (set_state_object prev s)
  undo (suicide_change a prev balance) s =
      let (found, s') = get_state_object env a s in
      elim found [
        | some o ↦ some (save (assign_balance balance (record o { suicided = prev })) s')
        | none ↦ some s'
      ]
  undo (touch_change a prev prev_dirty) s =
      if not prev && not (a == ripemd)
      then on_object a
          (λ o s'. forget_dirty prev_dirty a (set_state_object (record o { touched = prev }) s')) s
      else some s
  undo (balance_change a prev) s = on_object a (λ o s'. save (assign_balance prev o) s') s
  undo (nonce_change a prev) s = on_object a (λ o s'. save (assign_nonce prev o) s') s
  undo (code_change a code hash) s = on_object a (λ o s'. save (assign_code hash code o) s') s
  undo (storage_change a key value) s = on_object a (λ o s'. save (assign_state key value o) s') s
  undo (refund_change prev) s = some (record s { refund = prev })
  undo (add_log_change h) s = pop_log h (lookup h s.logs) s
  undo (add_preimage_change h) s = some (record s { preimages = erase h s.preimages })

  -- The loop of `RevertToSnapshot`, newest entry first.
  unfoldable pub undo_all : List JournalEntry → StateDb → Option StateDb
  undo_all [] s = some s
  undo_all (e ∷ es) s = elim (undo e s) [ none ↦ none | some s' ↦ undo_all es s' ]

unfoldable pub snapshot : StateDb → ℕ × StateDb
snapshot s = (
  s.next_revision_id,
  record s {
    next_revision_id = s.next_revision_id + 1;
    valid_revisions =
        s.valid_revisions
        ++ record { id = s.next_revision_id; journal_index = length s.journal } ∷ [];
  },
)

-- `sort.Search` over the revisions: the first whose id is not below the wanted one, with its place.
unfoldable pub search_revision : ℕ → ℕ → List Revision → Option (ℕ × Revision)
search_revision i revid [] = none
search_revision i revid (r ∷ rs) =
    if leb revid r.id then some (i, r) else search_revision (i + 1) revid rs

module _ (env : Env) where
  abbrev pub revert_to : ℕ → Revision → StateDb → Option StateDb
  revert_to idx r s =
      let n : ℕ = length s.journal - r.journal_index in
      elim (undo_all env (take n s.journal) s) [
        | none ↦ none
        | some s' ↦ some (record s' {
          journal = drop n s'.journal;
          valid_revisions = take idx s'.valid_revisions;
        })
      ]

  unfoldable pub revert_to_snapshot : ℕ → StateDb → Option StateDb
  revert_to_snapshot revid s = elim (search_revision 0 revid s.valid_revisions) [
    | none ↦ none
    | some (idx, r) ↦ if r.id == revid then revert_to idx r s else none
  ]
