-- ===== src/Processor/Kept.antt =====
-- A message that succeeds keeps the state steady (core/stateprocessor/statetransition.go).
use mjoy_go.Base.{ℕ, Option, none, some, Bool-cases, Option-cases, inl, inr}
use mjoy_go.Base.Int.{ℤ, ltb_ℤ, ◌+ℤ◌}
use mjoy_go.State.Types.{Env, StateDb}
use mjoy_go.State.Db
use mjoy_go.State.Db.{get_state_object, get_or_new_state_object}
use mjoy_go.State.Journal.{snapshot, revert_to_snapshot}
use mjoy_go.Processor.Transition.{
  Message, TransitionError, Status, ok, err, fee_of, from, pre_check, bump_nonce, failing, pay,
  transfer, execute, after_check, transition_db,
}
use mjoy_go.State.Since.{snapshot-IsValid}
use mjoy_go.Processor.Steady.{Steady}
use mjoy_go.Processor.Writes.{
  get_state_object-Steady, get_or_new-Given, create_account-Steady, add_balance-Steady,
  sub_balance-Steady, set_nonce-Steady,
}

module _ (env : Env) where
  from-Steady : (a : ℕ) (s : StateDb) → Steady env s → Steady env (from env a s)
  unfolding from Db.exist
  from-Steady a s v = elim (Option-cases (get_state_object env a s).0) [
    | inl e ↦
        rw (e, from, Db.exist) (create_account-Steady env a _ (get_state_object-Steady env a s v))
    | inr (o, e) ↦ rw (e, from, Db.exist) (get_state_object-Steady env a s v)
  ]

  pre_check-Steady :
      (msg : Message) (s : StateDb) → Steady env s → Steady env (pre_check env msg s).1
  unfolding pre_check Db.get_nonce
  pre_check-Steady msg s v = elim (Bool-cases msg.check_nonce) [
    | inl e ↦ rw (e, pre_check) (get_state_object-Steady env msg.from _ (from-Steady msg.from s v))
    | inr e ↦ rw (e, pre_check) (from-Steady msg.from s v)
  ]

  snapshot-Steady : (s : StateDb) → Steady env s → Steady env (snapshot s).1
  unfolding snapshot
  snapshot-Steady s v = record {
    valid = snapshot-IsValid env s v.valid;
    cached = v.cached;
    distinct = v.distinct;
    clean = v.clean;
    no_error = v.no_error;
    readable = v.readable;
  }

  deposit-Steady :
      (a : ℕ) (x : ℤ) (s : StateDb) → Steady env s → Steady env (Db.add_balance env a x s)
  unfolding Db.add_balance
  deposit-Steady a x s v =
      let given = get_or_new-Given env a s v in add_balance-Steady env x _ _ given.0 given.1

  withdraw-Steady :
      (a : ℕ) (x : ℤ) (s : StateDb) → Steady env s → Steady env (Db.sub_balance env a x s)
  unfolding Db.sub_balance
  withdraw-Steady a x s v =
      let given = get_or_new-Given env a s v in sub_balance-Steady env x _ _ given.0 given.1

  bump_nonce-Steady : (a : ℕ) (s : StateDb) → Steady env s → Steady env (bump_nonce env a s)
  unfolding bump_nonce Db.get_nonce Db.set_nonce
  bump_nonce-Steady a s v =
      let given = get_or_new-Given env a _ (get_state_object-Steady env a s v) in
      set_nonce-Steady env _ _ _ given.0 given.1

  pay-Steady :
      (coinbase to : ℕ) (msg : Message) (s : StateDb)
      → Steady env s
      → Steady env (pay env coinbase to msg s)
  unfolding pay
  pay-Steady coinbase to msg s v =
      withdraw-Steady msg.from _ _ (deposit-Steady coinbase _ _ (deposit-Steady to msg.value s v))

  -- A success leaves a steady state.
  abbrev pub Keeps : Option (Status × StateDb) → Type 0
  Keeps none = Unit
  Keeps (some (ok, t)) = Steady env t
  Keeps (some (err failed e, t)) = Unit

  failing-Keeps : (e : TransitionError) (r : Option StateDb) → Keeps (failing e r)
  failing-Keeps e none = tt
  failing-Keeps e (some s) = tt

  transfer-Keeps :
      (coinbase to : ℕ) (msg : Message) (id : ℕ) (s : StateDb)
      → Steady env s
      → Keeps (transfer env coinbase to msg id s)
  unfolding transfer Db.get_balance
  transfer-Keeps coinbase to msg id s v =
      let r : ℤ × StateDb = Db.get_balance env msg.from (bump_nonce env msg.from s) in
      elim (Bool-cases (ltb_ℤ r.0 (fee_of msg.value +ℤ msg.value))) [
        | inl h ↦ rw h (failing-Keeps _ (revert_to_snapshot env id r.1))
        | inr h ↦ rw h (
            pay-Steady coinbase to msg r.1
              (get_state_object-Steady env msg.from _ (bump_nonce-Steady msg.from s v)))
      ]

  execute-Keeps :
      (coinbase : ℕ) (to : Option ℕ) (msg : Message) (s : StateDb)
      → Steady env s
      → Keeps (execute env coinbase to msg s)
  execute-Keeps coinbase none msg s v = failing-Keeps _ _
  execute-Keeps coinbase (some to) msg s v =
      transfer-Keeps coinbase to msg _ _ (snapshot-Steady s v)

  after_check-Keeps :
      (coinbase : ℕ) (msg : Message) (c : Option TransitionError) (s : StateDb)
      → Steady env s
      → Keeps (after_check env coinbase msg (c, s))
  after_check-Keeps coinbase msg (some e) s v = tt
  after_check-Keeps coinbase msg none s v =
      execute-Keeps coinbase msg.to msg _ (from-Steady msg.from s v)

  pub transition_db-Keeps :
      (coinbase : ℕ) (msg : Message) (s : StateDb)
      → Steady env s
      → Keeps (transition_db env coinbase msg s)
  unfolding transition_db
  transition_db-Keeps coinbase msg s v =
      after_check-Keeps coinbase msg (pre_check env msg s).0 (pre_check env msg s).1
        (pre_check-Steady msg s v)
