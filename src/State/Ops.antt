-- ===== src/State/Ops.antt =====
-- Any sequence of calls of `StateDB` (core/state/statedb.go) leaves a valid state, and a journal by
-- which it can be undone.
use mjoy_go.Base.{ℕ, Option, List, [], ◌∷◌, Option-cases, inl, inr}
use mjoy_go.Base.Int.{ℤ}
use mjoy_go.State.Types.{Env, StateDb}
use mjoy_go.State.Object
use mjoy_go.State.Object.{save}
use mjoy_go.State.Db
use mjoy_go.State.Db.{get_state_object, get_or_new_state_object}
use mjoy_go.State.Valid.{IsValid}
use mjoy_go.State.Undoable.{IsUndoable, IsUndoable-refl, IsUndoable-trans}
use mjoy_go.State.Setters.{
  set_balance-IsUndoable, set_nonce-IsUndoable, set_code-IsUndoable, set_state-IsUndoable,
  add_balance-IsUndoable, sub_balance-IsUndoable, suicide_object-IsUndoable,
}
use mjoy_go.State.Objects.{get_state_object-IsUndoable, found-Holds, found-there}
use mjoy_go.State.Operations.{
  on_new-IsUndoable, create_account-IsUndoable, add_refund-IsUndoable, add_preimage-IsUndoable,
  add_log-IsUndoable,
}

-- The calls that a client makes between two commits.
pub data Op : Type 0 where
  exist create_account suicide get_balance get_nonce : ℕ → Op
  set_balance add_balance sub_balance : ℕ → ℤ → Op
  set_nonce : ℕ → ℕ → Op
  set_code : ℕ → Option (List ℕ) → Op
  set_state : ℕ → ℕ → ℕ → Op
  add_refund add_log : ℕ → Op
  add_preimage : ℕ → List ℕ → Op

module _ (env : Env) where
  abbrev pub apply : Op → StateDb → StateDb
  apply (exist a) s = (Db.exist env a s).1
  apply (create_account a) s = Db.create_account env a s
  apply (suicide a) s = (Db.suicide env a s).1
  apply (get_balance a) s = (Db.get_balance env a s).1
  apply (get_nonce a) s = (Db.get_nonce env a s).1
  apply (set_balance a x) s = Db.set_balance env a x s
  apply (add_balance a x) s = Db.add_balance env a x s
  apply (sub_balance a x) s = Db.sub_balance env a x s
  apply (set_nonce a n) s = Db.set_nonce env a n s
  apply (set_code a c) s = Db.set_code env a c s
  apply (set_state a k x) s = Db.set_state env a k x s
  apply (add_refund x) s = Db.add_refund x s
  apply (add_log c) s = Db.add_log c s
  apply (add_preimage h p) s = Db.add_preimage h p s

  unfoldable pub run : List Op → StateDb → StateDb
  run [] s = s
  run (op ∷ ops) s = run ops (apply op s)

  suicide-IsUndoable :
      (a : ℕ) (s : StateDb) → IsValid env s → IsUndoable env s (Db.suicide env a s).1
  unfolding Db.suicide
  suicide-IsUndoable a s v =
      let first = get_state_object-IsUndoable env a s v in
      elim (Option-cases (get_state_object env a s).0) [
        | inl e ↦ rw (e, Db.suicide) first
        | inr (o, e) ↦
            let there = found-there env a s o e in
            rw (e, Db.suicide)
              (IsUndoable-trans env first (
                suicide_object-IsUndoable env o (get_state_object env a s).1 first.valid
                  (found-Holds env a o (get_state_object env a s).1 first.valid there.0 there.1)))
      ]

  -- The bodies of the operations, for the proof that follows.
  unfoldable pub operations : Unit {0}
  unfolding Db.exist Db.get_balance Db.get_nonce Db.set_balance Db.add_balance Db.sub_balance
      Db.set_nonce Db.set_code Db.set_state
  operations = tt

  -- Every operation leaves a valid state and the entries that undo it.
  pub apply-IsUndoable : (op : Op) (s : StateDb) → IsValid env s → IsUndoable env s (apply op s)
  unfolding operations
  apply-IsUndoable (exist a) s v = get_state_object-IsUndoable env a s v
  apply-IsUndoable (create_account a) s v = create_account-IsUndoable env a s v
  apply-IsUndoable (suicide a) s v = suicide-IsUndoable a s v
  apply-IsUndoable (get_balance a) s v = get_state_object-IsUndoable env a s v
  apply-IsUndoable (get_nonce a) s v = get_state_object-IsUndoable env a s v
  apply-IsUndoable (set_balance a x) s v =
      on_new-IsUndoable env (Object.set_balance x) (set_balance-IsUndoable env x) a s v
  apply-IsUndoable (add_balance a x) s v =
      on_new-IsUndoable env (Object.add_balance env x) (add_balance-IsUndoable env x) a s v
  apply-IsUndoable (sub_balance a x) s v =
      on_new-IsUndoable env (Object.sub_balance x) (sub_balance-IsUndoable env x) a s v
  apply-IsUndoable (set_nonce a n) s v =
      on_new-IsUndoable env (Object.set_nonce n) (set_nonce-IsUndoable env n) a s v
  apply-IsUndoable (set_code a c) s v =
      on_new-IsUndoable env (λ o t. Object.set_code env _ c o t) (set_code-IsUndoable env _ c) a s v
  apply-IsUndoable (set_state a k x) s v =
      on_new-IsUndoable env (Object.set_state env k x) (set_state-IsUndoable env k x) a s v
  apply-IsUndoable (add_refund x) s v = add_refund-IsUndoable env x s v
  apply-IsUndoable (add_log c) s v = add_log-IsUndoable env c s v
  apply-IsUndoable (add_preimage h p) s v = add_preimage-IsUndoable env h p s v

  -- From a valid state, any sequence of calls only adds entries to the journal, to undo these from
  -- the newest on brings back what was seen, the revisions are untouched, and the state is valid.
  pub run-IsUndoable : (ops : List Op) (s : StateDb) → IsValid env s → IsUndoable env s (run ops s)
  unfolding run
  run-IsUndoable [] s v = IsUndoable-refl env s v
  run-IsUndoable (op ∷ ops) s v =
      let first = apply-IsUndoable op s v in
      IsUndoable-trans env first (run-IsUndoable ops (apply op s) first.valid)
