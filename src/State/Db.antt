-- ===== src/State/Db.antt =====
-- The methods of `StateDB` (core/state/statedb.go) between two commits.
use mjoy_go.Base.{
  ℕ, ◌+◌, ◌%◌, u64_mod, Bool, true, false, Option, none, some, List, [], ◌∷◌, lookup, insert,
  get_or, if◌then◌else◌,
}
use mjoy_go.Base.Int.{ℤ, pos}
use mjoy_go.State.Types.{
  Read, entry, absent, garbled, fault, StoredAccount, Env, StateObject, create_object_change,
  reset_object_change, add_log_change, add_preimage_change, refund_change, Log, StateDb,
}
use mjoy_go.State.Object
use mjoy_go.State.Object.{new_object, save, set_state_object, record_entry, first_error}

-- `Account{}`
abbrev pub blank : StoredAccount
blank = record { nonce = 0; balance = none; root = 0; code_hash = none }

unfoldable pub prepare : ℕ → ℕ → ℕ → StateDb → StateDb
prepare t b i s = record s { thash = t; bhash = b; tx_index = i }

unfoldable pub add_refund : ℕ → StateDb → StateDb
add_refund v s =
    record_entry (refund_change s.refund) (record s { refund = (s.refund + v) % u64_mod })

-- The fields of a log that the database sets.
abbrev pub stamp : ℕ → StateDb → Log
stamp content s = record {
  content = content;
  tx_hash = s.thash;
  block_hash = s.bhash;
  tx_index = s.tx_index;
  index = s.log_size;
}

unfoldable pub add_log : ℕ → StateDb → StateDb
add_log content s = record_entry (add_log_change s.thash) (record s {
  logs = insert s.thash (stamp content s ∷ get_or [] (lookup s.thash s.logs)) s.logs;
  log_size = (s.log_size + 1) % u64_mod;
})

unfoldable pub add_preimage : ℕ → List ℕ → StateDb → StateDb
add_preimage h p s = elim (lookup h s.preimages) [
  | some _ ↦ s
  | none ↦ record_entry (add_preimage_change h) (record s { preimages = insert h p s.preimages })
]

module _ (env : Env) where
  -- An object that is not live is loaded from the trie, if the trie has it.
  abbrev pub load : ℕ → Read StoredAccount → StateDb → Option StateObject × StateDb
  load a (entry d) s = (some (new_object env a d), set_state_object (new_object env a d) s)
  load a absent s = (none, s)
  load a garbled s = (none, s)
  load a (fault e) s = (none, record s { db_err = first_error s.db_err (some e) })

  unfoldable pub get_state_object : ℕ → StateDb → Option StateObject × StateDb
  get_state_object a s = elim (lookup a s.state_objects) [
    | some o ↦ if o.deleted then (none, s) else (some o, s)
    | none ↦ load a (s.trie a) s
  ]

  abbrev pub install : ℕ → Option StateObject → StateDb → StateDb
  install a none s = save (new_object env a blank) (record_entry (create_object_change a) s)
  install a (some prev) s =
      save (new_object env a blank) (record_entry (reset_object_change prev) s)

  -- The new object of `createObject`, after `setNonce(0)` has told the database of it.
  abbrev pub created : ℕ → StateObject
  created a = record (new_object env a blank) { armed = false }

  -- `createObject`: the previous object, and the database with the new one.
  unfoldable pub create_object : ℕ → StateDb → Option StateObject × StateDb
  create_object a s = let (prev, s') = get_state_object a s in (prev, install a prev s')

  unfoldable pub get_or_new_state_object : ℕ → StateDb → StateObject × StateDb
  get_or_new_state_object a s =
      let (found, s') = get_state_object a s in
      elim found [ some o ↦ (o, s') | none ↦ (created a, (create_object a s').1) ]

  -- `CreateAccount` carries the balance over.
  unfoldable pub create_account : ℕ → StateDb → StateDb
  create_account a s =
      let (prev, s') = create_object a s in
      elim prev [
        | none ↦ s'
        | some o ↦ save (Object.assign_balance o.account.balance (created a)) s'
      ]

  unfoldable pub exist : ℕ → StateDb → Bool × StateDb
  exist a s =
      let (found, s') = get_state_object a s in (elim found [ some _ ↦ true | none ↦ false ], s')

  -- `Empty`
  unfoldable pub empty : ℕ → StateDb → Bool × StateDb
  empty a s =
      let (found, s') = get_state_object a s in
      (elim found [ some o ↦ Object.is_empty env o | none ↦ true ], s')

  unfoldable pub get_balance : ℕ → StateDb → ℤ × StateDb
  get_balance a s =
      let (found, s') = get_state_object a s in
      (elim found [ some o ↦ o.account.balance | none ↦ pos 0 ], s')

  unfoldable pub get_nonce : ℕ → StateDb → ℕ × StateDb
  get_nonce a s =
      let (found, s') = get_state_object a s in
      (elim found [ some o ↦ o.account.nonce | none ↦ 0 ], s')

  unfoldable pub get_code : ℕ → StateDb → Option (List ℕ) × StateDb
  get_code a s =
      let (found, s') = get_state_object a s in
      elim found [
        | none ↦ (none, s')
        | some o ↦ let (c, o') = Object.get_code env o in (c, set_state_object o' s')
      ]

  unfoldable pub get_code_hash : ℕ → StateDb → ℕ × StateDb
  get_code_hash a s =
      let (found, s') = get_state_object a s in
      (elim found [ some o ↦ o.account.code_hash | none ↦ 0 ], s')

  unfoldable pub get_state : ℕ → ℕ → StateDb → ℕ × StateDb
  get_state a k s =
      let (found, s') = get_state_object a s in
      elim found [
        | none ↦ (0, s')
        | some o ↦ let (v, o') = Object.get_state env k o in (v, set_state_object o' s')
      ]

  unfoldable pub has_suicided : ℕ → StateDb → Bool × StateDb
  has_suicided a s =
      let (found, s') = get_state_object a s in
      (elim found [ some o ↦ o.suicided | none ↦ false ], s')

  unfoldable pub add_balance : ℕ → ℤ → StateDb → StateDb
  add_balance a x s = let (o, s') = get_or_new_state_object a s in Object.add_balance env x o s'

  unfoldable pub sub_balance : ℕ → ℤ → StateDb → StateDb
  sub_balance a x s = let (o, s') = get_or_new_state_object a s in Object.sub_balance x o s'

  unfoldable pub set_balance : ℕ → ℤ → StateDb → StateDb
  set_balance a x s = let (o, s') = get_or_new_state_object a s in Object.set_balance x o s'

  unfoldable pub set_nonce : ℕ → ℕ → StateDb → StateDb
  set_nonce a n s = let (o, s') = get_or_new_state_object a s in Object.set_nonce n o s'

  unfoldable pub set_code : ℕ → Option (List ℕ) → StateDb → StateDb
  set_code a c s =
      let (o, s') = get_or_new_state_object a s in
      Object.set_code env (env.keccak (get_or [] c)) c o s'

  unfoldable pub set_state : ℕ → ℕ → ℕ → StateDb → StateDb
  set_state a k v s = let (o, s') = get_or_new_state_object a s in Object.set_state env k v o s'

  unfoldable pub suicide : ℕ → StateDb → Bool × StateDb
  suicide a s =
      let (found, s') = get_state_object a s in
      elim found [ none ↦ (false, s') | some o ↦ (true, Object.suicide_object o s') ]
