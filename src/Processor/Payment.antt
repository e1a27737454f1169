-- ===== src/Processor/Payment.antt =====
-- What a message does to the balances and the nonces of the whole table of accounts
-- (core/stateprocessor/statetransition.go).
use mjoy_go.Base.{
  ℕ, ◌≡◌, Option, none, some, Bool-cases, Option-cases, inl, inr, ap, ◌∙◌, sym, subst,
}
use mjoy_go.State.Types.{Env, StateObject, StateDb}
use mjoy_go.State.Db
use mjoy_go.State.Db.{get_state_object}
use mjoy_go.State.View.{Abstract, abstract}
use mjoy_go.State.Spec.{get_state_object-Found, abstract-get_state_object}
use mjoy_go.State.Valid.{IsValid}
use mjoy_go.State.Undoable.{IsUndoable, IsUndoable-trans}
use mjoy_go.State.Objects.{get_state_object-IsUndoable}
use mjoy_go.State.Operations.{create_account-IsUndoable}
use mjoy_go.State.Ops
use mjoy_go.State.Ops.{Op, apply, run, run-IsUndoable, apply-IsUndoable}
use mjoy_go.State.Refinement.{apply-effect}
use mjoy_go.Processor.Transition.{Message, from, pre_check}
use mjoy_go.Processor.Ledger.{Agrees, Agrees-trans, Agrees-eq, create-Agrees}

module _ (env : Env) where
  -- What `from` and `preCheck` leave: the same money, and a valid state with its revisions.
  pub record Ready (s t : StateDb) : Type 0 where
    pub undoable : IsUndoable env s t
    pub agrees : Agrees env (abstract env t) (abstract env s)

  pub Ready-trans : {s t u : StateDb} → Ready s t → Ready t u → Ready s u
  Ready-trans p q = record {
    undoable = IsUndoable-trans env p.undoable q.undoable;
    agrees = Agrees-trans env q.agrees p.agrees;
  }

  load-Ready : (a : ℕ) (s : StateDb) → IsValid env s → Ready s (get_state_object env a s).1
  load-Ready a s v = record {
    undoable = get_state_object-IsUndoable env a s v;
    agrees = Agrees-eq env (abstract-get_state_object env a s);
  }

  abbrev choose : StateDb → StateDb → Option StateObject → StateDb
  choose there missing (some o) = there
  choose there missing none = missing

  from-choose :
      (a : ℕ) (s : StateDb)
      → from env a s
        ≡ choose
            (get_state_object env a s).1
            (Db.create_account env a (get_state_object env a s).1)
            (get_state_object env a s).0
  unfolding from Db.exist
  from-choose a s = elim (Option-cases (get_state_object env a s).0) [
    | inl e ↦ cc
    | inr (o, e) ↦ cc
  ]

  created-Ready :
      (a : ℕ) (t : StateDb)
      → IsValid env t
      → (abstract env t).look a ≡ none
      → Ready t (Db.create_account env a t)
  created-Ready a t v missing = record {
    undoable = create_account-IsUndoable env a t v;
    agrees =
        Agrees-trans env (Agrees-eq env (apply-effect env (Ops.create_account a) t v))
          (create-Agrees env a (abstract env t) missing);
  }

  pub from-Ready : (a : ℕ) (s : StateDb) → IsValid env s → Ready s (from env a s)
  from-Ready a s v = elim (get_state_object-Found env a s) [
    | inl (e, unseen) ↦
        let loaded = load-Ready a s v in
        subst (Ready s) (sym (from-choose a s ∙ ap (choose _ _) e)) (
          Ready-trans loaded (
            created-Ready a (get_state_object env a s).1 loaded.undoable.valid
              (ap (λ (A : Abstract). A.look a) (abstract-get_state_object env a s) ∙ unseen)))
    | inr (o, e, _, _, _) ↦
        subst (Ready s) (sym (from-choose a s ∙ ap (choose _ _) e)) (load-Ready a s v)
  ]

  pub pre_check-Ready :
      (msg : Message) (s : StateDb) → IsValid env s → Ready s (pre_check env msg s).1
  unfolding pre_check Db.get_nonce
  pre_check-Ready msg s v = elim (Bool-cases msg.check_nonce) [
    | inl e ↦
        let first = from-Ready msg.from s v in
        rw (e, pre_check)
          (Ready-trans first (load-Ready msg.from (from env msg.from s) first.undoable.valid))
    | inr e ↦ rw (e, pre_check) (from-Ready msg.from s v)
  ]
