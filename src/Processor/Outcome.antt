-- ===== src/Processor/Outcome.antt =====
-- How a message ends, and what it has moved then (core/stateprocessor/statetransition.go).
use mjoy_go.Base.{
  ℕ, ◌+◌, ◌%◌, u64_mod, ◌≡◌, refl, List, [], ◌∷◌, ◌==◌, ==_cases, ==_self, if◌then◌else◌, inl, inr,
  ap, ◌∙◌, sym, subst,
}
use mjoy_go.Base.Int.{ℤ, ◌+ℤ◌, ◌-ℤ◌}
use mjoy_go.State.Types.{Env, StateDb}
use mjoy_go.State.Db
use mjoy_go.State.View.{Abstract, abstract}
use mjoy_go.State.Spec.{abstract-get_state_object}
use mjoy_go.State.Valid.{IsValid}
use mjoy_go.State.Ops
use mjoy_go.State.Ops.{Op, apply, run, run-IsUndoable, operations}
use mjoy_go.State.Refinement.{effect, effects, run-effects}
use mjoy_go.State.Getters.{balance-view, nonce-view}
use mjoy_go.Processor.Transition.{Message, fee_of, pay, bump_nonce}
use mjoy_go.Processor.Ledger.{
  balance, nonce, only, balance-add, balance-sub, nonce-add, nonce-sub, balance-set_nonce,
  nonce-set_nonce,
}

module _ (env : Env) where
  -- The amount that one address gets from a message.
  abbrev pub moved : ℕ → ℕ → Message → ℤ → ℕ → ℤ
  moved coinbase to msg b x =
      b
      +ℤ only env to msg.value x
      +ℤ only env coinbase (fee_of msg.value) x
      -ℤ only env msg.from (fee_of msg.value +ℤ msg.value) x

  abbrev pub bumped : ℕ → ℕ → ℕ → ℕ
  bumped a n x = if a == x then (n + 1) % u64_mod else n

  -- The recipient gets the value, the miner the fee, and the sender pays both.
  pub record Pays (coinbase to : ℕ) (msg : Message) (A B : Abstract) : Type 0 where
    pub balances : (x : ℕ) → balance env x B ≡ moved coinbase to msg (balance env x A) x
    pub nonces : (x : ℕ) → nonce env x B ≡ bumped msg.from (nonce env x A) x

  -- The operations before the balance is tested, and those that pay.
  abbrev pub prelude : Message → ℕ → List Op
  prelude msg n = Ops.get_nonce msg.from ∷ Ops.set_nonce msg.from n ∷ Ops.get_balance msg.from ∷ []

  abbrev payment : ℕ → ℕ → Message → List Op
  payment coinbase to msg =
      Ops.add_balance to msg.value
      ∷ Ops.add_balance coinbase (fee_of msg.value)
      ∷ Ops.sub_balance msg.from (fee_of msg.value +ℤ msg.value)
      ∷ []

  payment-balances :
      (coinbase to : ℕ) (msg : Message) (A : Abstract) (x : ℕ)
      → balance env x (effects env (payment coinbase to msg) A)
        ≡ moved coinbase to msg (balance env x A) x
  unfolding effects
  payment-balances coinbase to msg A x =
      let B : Abstract = effect env (Ops.add_balance to msg.value) A in
      let C : Abstract = effect env (Ops.add_balance coinbase (fee_of msg.value)) B in
      balance-sub env msg.from (fee_of msg.value +ℤ msg.value) C x
      ∙ ap (λ b. b -ℤ only env msg.from (fee_of msg.value +ℤ msg.value) x)
          (balance-add env coinbase (fee_of msg.value) B x
            ∙ ap (λ b. b +ℤ only env coinbase (fee_of msg.value) x)
                (balance-add env to msg.value A x))

  payment-nonces :
      (coinbase to : ℕ) (msg : Message) (A : Abstract) (x : ℕ)
      → nonce env x (effects env (payment coinbase to msg) A) ≡ nonce env x A
  unfolding effects
  payment-nonces coinbase to msg A x =
      let B : Abstract = effect env (Ops.add_balance to msg.value) A in
      let C : Abstract = effect env (Ops.add_balance coinbase (fee_of msg.value)) B in
      nonce-sub env msg.from (fee_of msg.value +ℤ msg.value) C x
      ∙ nonce-add env coinbase (fee_of msg.value) B x
      ∙ nonce-add env to msg.value A x

  -- The state when the balance is tested, with the nonce bumped.
  abbrev pub tested : Message → StateDb → ℤ × StateDb
  tested msg s = Db.get_balance env msg.from (bump_nonce env msg.from s)

  abbrev pub next_nonce : Message → StateDb → ℕ
  next_nonce msg s = ((Db.get_nonce env msg.from s).0 + 1) % u64_mod

  pub tested-run :
      (msg : Message) (s : StateDb) → (tested msg s).1 ≡ run env (prelude msg (next_nonce msg s)) s
  unfolding bump_nonce run
  tested-run msg s = refl

  pay-run :
      (coinbase to : ℕ) (msg : Message) (s : StateDb)
      → pay env coinbase to msg s ≡ run env (payment coinbase to msg) s
  unfolding pay run
  pay-run coinbase to msg s = refl

  tested-balances :
      (msg : Message) (s : StateDb)
      → IsValid env s
      → (x : ℕ) → balance env x (abstract env (tested msg s).1) ≡ balance env x (abstract env s)
  unfolding effects
  tested-balances msg s v x =
      ap (λ t. balance env x (abstract env t)) (tested-run msg s)
      ∙ ap (balance env x) (run-effects env (prelude msg (next_nonce msg s)) s v)
      ∙ balance-set_nonce env msg.from (next_nonce msg s) (abstract env s) x

  tested-nonces :
      (msg : Message) (s : StateDb)
      → IsValid env s
      → (x : ℕ)
      → nonce env x (abstract env (tested msg s).1)
        ≡ bumped msg.from (nonce env x (abstract env s)) x
  unfolding effects
  tested-nonces msg s v x =
      ap (λ t. nonce env x (abstract env t)) (tested-run msg s)
      ∙ ap (nonce env x) (run-effects env (prelude msg (next_nonce msg s)) s v)
      ∙ nonce-set_nonce env msg.from (next_nonce msg s) (abstract env s) x
      ∙ own
    where
      own :
          (if msg.from == x then next_nonce msg s else nonce env x (abstract env s))
          ≡ bumped msg.from (nonce env x (abstract env s)) x
      own = elim (==_cases msg.from x) [
        | inl e ↦
            rw (← e, ==_self msg.from)
              (ap (λ (n : ℕ). (n + 1) % u64_mod) (nonce-view env msg.from s))
        | inr e ↦ rw e
      ]

  pub tested-balance :
      (msg : Message) (s : StateDb)
      → IsValid env s
      → (tested msg s).0 ≡ balance env msg.from (abstract env s)
  unfolding Db.get_balance
  tested-balance msg s v =
      balance-view env msg.from (bump_nonce env msg.from s)
      ∙ ap (balance env msg.from)
          (sym (abstract-get_state_object env msg.from (bump_nonce env msg.from s)))
      ∙ tested-balances msg s v msg.from

  -- What is left after a payment from a valid state.
  pub paid-Pays :
      (coinbase to : ℕ) (msg : Message) (s : StateDb)
      → IsValid env s
      → Pays coinbase to msg
          (abstract env s)
          (abstract env (pay env coinbase to msg (tested msg s).1))
  paid-Pays coinbase to msg s v =
      let t : StateDb = (tested msg s).1 in
      let valid : IsValid env t =
        subst (IsValid env) (sym (tested-run msg s))
          (run-IsUndoable env (prelude msg (next_nonce msg s)) s v).valid in
      let after : abstract env (pay env coinbase to msg t)
          ≡ effects env (payment coinbase to msg) (abstract env t) =
        ap (abstract env) (pay-run coinbase to msg t)
        ∙ run-effects env (payment coinbase to msg) t valid in
      record {
        balances = λ x.
            ap (balance env x) after
            ∙ payment-balances coinbase to msg (abstract env t) x
            ∙ ap (λ b. moved coinbase to msg b x) (tested-balances msg s v x);
        nonces = λ x.
            ap (nonce env x) after
            ∙ payment-nonces coinbase to msg (abstract env t) x
            ∙ tested-nonces msg s v x;
      }
