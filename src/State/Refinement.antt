-- ===== src/State/Refinement.antt =====
-- `StateDB` (core/state/statedb.go) implements a table of accounts: each operation does to the
-- abstract state what the table's operation says, whatever is cached, and the getters read it.
use mjoy_go.Base.{
  ℕ, ◌+◌, ◌%◌, u64_mod, ◌≡◌, refl, fun_ext, true, Option, none, some, List, [], ◌∷◌, lookup, get_or,
  lookup-insert, ◌==◌, ==_cases, ==_self, if◌then◌else◌, Option-cases, inl, inr, ap, ◌∙◌, sym,
}
use mjoy_go.Base.Int.{ℤ, pos}
use mjoy_go.State.Types.{Env, Log, StateDb}
use mjoy_go.State.Object
use mjoy_go.State.Object.{save, assign_balance, new_object}
use mjoy_go.State.Db
use mjoy_go.State.Db.{created, get_state_object, create_object, get_or_new_state_object}
use mjoy_go.State.View.{View, Abstract, view, abstract}
use mjoy_go.State.Spec.{
  put, with_balance, with_nonce, with_slot, with_code, abstract-get_state_object,
  get_state_object-Found, put-look,
}
use mjoy_go.State.Undo.{logs-insert}
use mjoy_go.State.Valid.{IsValid, get_state_object-IsValid}
use mjoy_go.State.Undoable.{put-put}
use mjoy_go.State.Objects.{found-Holds}
use mjoy_go.State.Operations.{set_created}
use mjoy_go.State.Effects.{
  fresh, account_at, plus, minus, on_new-Changes, set_balance-Changes, set_nonce-Changes,
  set_state-Changes, set_code-Changes, add_balance-Changes, sub_balance-Changes,
  suicide_object-Changes, abstract-create,
}
use mjoy_go.State.Ops
use mjoy_go.State.Ops.{Op, apply, run, run-IsUndoable, apply-IsUndoable}

module _ (env : Env) where
  -- One account of the table, changed; a missing one is made first.
  abbrev change_at : ℕ → (View → View) → Abstract → Abstract
  change_at a g A = put a (some (g (account_at env a A))) A

  abbrev kill : Option View → Option View
  kill none = none
  kill (some w) = some (record (with_balance (pos 0) w) { suicided = true })

  -- The balance that `CreateAccount` carries over.
  abbrev pub carried : Option View → ℤ
  carried none = pos 0
  carried (some w) = w.account.balance

  abbrev install_at : ℤ → ℕ → Abstract → Abstract
  install_at x a A = put a (some (with_balance x (fresh env a))) A

  abbrev log_of : ℕ → Abstract → Log
  log_of c A = record {
    content = c;
    tx_hash = A.thash;
    block_hash = A.bhash;
    tx_index = A.tx_index;
    index = A.log_size;
  }

  -- The operations on the table of accounts.
  abbrev pub effect : Op → Abstract → Abstract
  effect (Ops.exist a) A = A
  effect (Ops.get_balance a) A = A
  effect (Ops.get_nonce a) A = A
  effect (Ops.create_account a) A = install_at (carried (A.look a)) a A
  effect (Ops.suicide a) A = put a (kill (A.look a)) A
  effect (Ops.set_balance a x) A = change_at a (with_balance x) A
  effect (Ops.add_balance a x) A = change_at a (plus env x) A
  effect (Ops.sub_balance a x) A = change_at a (minus env x) A
  effect (Ops.set_nonce a n) A = change_at a (with_nonce n) A
  effect (Ops.set_code a c) A = change_at a (with_code env (env.keccak (get_or [] c)) c) A
  effect (Ops.set_state a k x) A = change_at a (with_slot k x) A
  effect (Ops.add_refund x) A = record A { refund = (A.refund + x) % u64_mod }
  effect (Ops.add_log c) A = record A {
    logs = λ h. if A.thash == h then log_of c A ∷ A.logs A.thash else A.logs h;
    log_size = (A.log_size + 1) % u64_mod;
  }
  effect (Ops.add_preimage h p) A = record A {
    preimages = λ j. if h == j then some (get_or p (A.preimages h)) else A.preimages j;
  }

  suicide-effect :
      (a : ℕ) (s : StateDb)
      → IsValid env s
      → abstract env (Db.suicide env a s).1 ≡ effect (Ops.suicide a) (abstract env s)
  unfolding Db.suicide
  suicide-effect a s v = elim (get_state_object-Found env a s) [
    | inl (e, unseen) ↦
        rw (e, Db.suicide)
          (abstract-get_state_object env a s
            ∙ sym (put-look env a (abstract env s) (unseen ∙ sym (ap kill unseen))))
    | inr (o, e, live, seen, here) ↦
        let t : StateDb = (get_state_object env a s).1 in
        let valid = get_state_object-IsValid env a s v in
        rw (e, Db.suicide)
          (suicide_object-Changes env o t (found-Holds env a o t valid here live)
            ∙ (λ i.
                put ((valid.placed a o here).0 i) (kill (some (view env o)))
                  (abstract-get_state_object env a s i))
            ∙ ap (λ w. put a (kill w) (abstract env s)) (sym seen))
  ]

  create_account-effect :
      (a : ℕ) (s : StateDb)
      → IsValid env s
      → abstract env (Db.create_account env a s) ≡ effect (Ops.create_account a) (abstract env s)
  unfolding Db.create_account create_object new_object assign_balance
  create_account-effect a s v = elim (get_state_object-Found env a s) [
    | inl (e, unseen) ↦
        rw (e, Db.create_account)
          (abstract-create env a s
            ∙ ap (λ w. install_at (carried w) a (abstract env s)) (sym unseen))
    | inr (o, e, live, seen, here) ↦
        rw (e, Db.create_account)
          (set_created env o.account.balance a (create_object env a s).1
            ∙ ap (install_at o.account.balance a) (abstract-create env a s)
            ∙ put-put env a _ _ (abstract env s)
            ∙ ap (λ w. install_at (carried w) a (abstract env s)) (sym seen))
  ]

  log-effect :
      (c : ℕ) (s : StateDb)
      → abstract env (Db.add_log c s) ≡ effect (Ops.add_log c) (abstract env s)
  unfolding Db.add_log
  log-effect c s = λ i. record (abstract env s) {
    logs =
        fun_ext
          (λ h. logs-insert env s.thash h (Db.stamp c s ∷ get_or [] (lookup s.thash s.logs)) s.logs)
          i;
    log_size = (s.log_size + 1) % u64_mod;
  }

  preimage-effect :
      (h : ℕ) (p : List ℕ) (s : StateDb)
      → abstract env (Db.add_preimage h p s) ≡ effect (Ops.add_preimage h p) (abstract env s)
  unfolding Db.add_preimage
  preimage-effect h p s = elim (Option-cases (lookup h s.preimages)) [
    | inl e ↦
        rw (e, Db.add_preimage)
          (λ i. record (abstract env s) {
            preimages = fun_ext (λ j. lookup-insert h j p s.preimages) i;
          })
    | inr (q, e) ↦
        rw (e, Db.add_preimage) (λ i. record (abstract env s) { preimages = fun_ext (known q e) i })
  ]
    where
      known :
          (q : List ℕ)
          → lookup h s.preimages ≡ some q
          → (j : ℕ) → lookup j s.preimages ≡ (if h == j then some q else lookup j s.preimages)
      known q e j = elim (==_cases h j) [
        | inl same ↦ rw (← same, ==_self h) e
        | inr other ↦ rw other
      ]

  -- Each operation does to the abstract state what the table's operation says.
  pub apply-effect :
      (op : Op) (s : StateDb)
      → IsValid env s
      → abstract env (apply env op s) ≡ effect op (abstract env s)
  unfolding Ops.operations Db.add_refund
  apply-effect (Ops.exist a) s v = abstract-get_state_object env a s
  apply-effect (Ops.create_account a) s v = create_account-effect a s v
  apply-effect (Ops.suicide a) s v = suicide-effect a s v
  apply-effect (Ops.get_balance a) s v = abstract-get_state_object env a s
  apply-effect (Ops.get_nonce a) s v = abstract-get_state_object env a s
  apply-effect (Ops.set_balance a x) s v =
      on_new-Changes env (Object.set_balance x) (with_balance x) (set_balance-Changes env x) a s v
  apply-effect (Ops.add_balance a x) s v =
      on_new-Changes env (Object.add_balance env x) (plus env x) (add_balance-Changes env x) a s v
  apply-effect (Ops.sub_balance a x) s v =
      on_new-Changes env (Object.sub_balance x) (minus env x) (sub_balance-Changes env x) a s v
  apply-effect (Ops.set_nonce a n) s v =
      on_new-Changes env (Object.set_nonce n) (with_nonce n) (set_nonce-Changes env n) a s v
  apply-effect (Ops.set_code a c) s v =
      on_new-Changes env (Object.set_code env (env.keccak (get_or [] c)) c)
        (with_code env (env.keccak (get_or [] c)) c)
        (set_code-Changes env (env.keccak (get_or [] c)) c) a s v
  apply-effect (Ops.set_state a k x) s v =
      on_new-Changes env (Object.set_state env k x) (with_slot k x) (set_state-Changes env k x) a s
        v
  apply-effect (Ops.add_refund x) s v = refl
  apply-effect (Ops.add_log c) s v = log-effect c s
  apply-effect (Ops.add_preimage h p) s v = preimage-effect h p s

  -- The operations of the table, one after the other.
  unfoldable pub effects : List Op → Abstract → Abstract
  effects [] A = A
  effects (op ∷ ops) A = effects ops (effect op A)

  -- From a valid state, what any sequence of calls leaves to be seen is what the operations on the
  -- table of accounts compute from what was seen before, with no cache and no journal.
  pub run-effects :
      (ops : List Op) (s : StateDb)
      → IsValid env s
      → abstract env (run env ops s) ≡ effects ops (abstract env s)
  unfolding run effects
  run-effects [] s v = refl
  run-effects (op ∷ ops) s v =
      run-effects ops (apply env op s) (apply-IsUndoable env op s v).valid
      ∙ ap (effects ops) (apply-effect op s v)
