-- ===== src/Pool/Validation.antt =====
-- What `validateTx` (core/txprocessor/tx_pool.go) accepts.
use mjoy_go.Base.{
  ℕ, ◌≡◌, refl, Option, none, some, ltb, if◌then◌else◌, Bool-cases, inl, inr, ap, ◌∙◌, subst,
}
use mjoy_go.Base.Int.{ℤ, pos, ltb_ℤ}
use mjoy_go.State.Types.{Env, StateDb}
use mjoy_go.State.Db
use mjoy_go.State.View.{Abstract, abstract}
use mjoy_go.State.Spec.{abstract-get_state_object}
use mjoy_go.State.Getters.{balance-view, nonce-view}
use mjoy_go.Processor.Ledger.{balance, nonce}
use mjoy_go.Pool.Sorted.{Tx}
use mjoy_go.Pool.TxPool.{
  PoolError, oversized_data, wrong_amount, negative_value, invalid_sender, nonce_too_low,
  insufficient_funds, validate_tx, funds, signed, amount,
}

-- The first rule that the transaction breaks, with the sender's nonce and balance known.
abbrev pub affordable : Tx → ℕ → ℤ → Option PoolError
affordable t n b =
    if ltb t.nonce n
    then some nonce_too_low
    else (if ltb_ℤ b t.cost then some insufficient_funds else none)

module _ (env : Env) where
  abbrev pub sender_objection : Tx → Option ℕ → Abstract → Option PoolError
  sender_objection t none A = some invalid_sender
  sender_objection t (some a) A = affordable t (nonce env a A) (balance env a A)

  abbrev pub value_objection : Tx → Option ℤ → Abstract → Option PoolError
  value_objection t none A = some wrong_amount
  value_objection t (some v) A =
      if ltb_ℤ v (pos 0) then some negative_value else sender_objection t t.sender A

  abbrev pub objection : Tx → Abstract → Option PoolError
  objection t A = if ltb 32768 t.size then some oversized_data else value_objection t t.value A

  -- The verdict, and a state that shows what it did.
  abbrev pub Answers : Option PoolError → StateDb → Option PoolError × StateDb → Type 0
  Answers e s (e', s') = (e' ≡ e) × (abstract env s' ≡ abstract env s)

  pub get_nonce-shows :
      (a : ℕ) (s : StateDb) → abstract env (Db.get_nonce env a s).1 ≡ abstract env s
  unfolding Db.get_nonce
  get_nonce-shows a s = abstract-get_state_object env a s

  get_balance-shows :
      (a : ℕ) (s : StateDb) → abstract env (Db.get_balance env a s).1 ≡ abstract env s
  unfolding Db.get_balance
  get_balance-shows a s = abstract-get_state_object env a s

  affordable-Answers :
      (t : Tx) (n : ℕ) (b : ℤ) (s s' s'' : StateDb)
      → abstract env s' ≡ abstract env s
      → abstract env s'' ≡ abstract env s
      → Answers (affordable t n b) s (
          if ltb t.nonce n
          then (some nonce_too_low, s')
          else (if ltb_ℤ b t.cost then some insufficient_funds else none, s''))
  affordable-Answers t n b s s' s'' e' e'' = elim (Bool-cases (ltb t.nonce n)) [
    | inl h ↦ rw h (refl, e')
    | inr h ↦ rw h (refl, e'')
  ]

  funds-Answers :
      (a : ℕ) (t : Tx) (s : StateDb)
      → Answers
          (affordable t (nonce env a (abstract env s)) (balance env a (abstract env s)))
          s
          (funds env a t s)
  funds-Answers a t s =
      let s' : StateDb = (Db.get_nonce env a s).1 in
      let b : ℤ = (Db.get_balance env a s').0 in
      let seen : abstract env s' ≡ abstract env s = get_nonce-shows a s in
      let carries : b ≡ balance env a (abstract env s) =
        balance-view env a s' ∙ ap (balance env a) seen in
      subst (λ e. Answers e s (funds env a t s))
        (λ i. affordable t (nonce-view env a s i) (carries i))
        (affordable-Answers t (Db.get_nonce env a s).0 b s s' (Db.get_balance env a s').1 seen
          (get_balance-shows a s' ∙ seen))

  signed-Answers :
      (t : Tx) (sender : Option ℕ) (s : StateDb)
      → Answers (sender_objection t sender (abstract env s)) s (signed env t sender s)
  signed-Answers t none s = (refl, refl)
  signed-Answers t (some a) s = funds-Answers a t s

  amount-Answers :
      (t : Tx) (value : Option ℤ) (s : StateDb)
      → Answers (value_objection t value (abstract env s)) s (amount env t value s)
  amount-Answers t none s = (refl, refl)
  amount-Answers t (some v) s = elim (Bool-cases (ltb_ℤ v (pos 0))) [
    | inl h ↦ rw h (refl, refl)
    | inr h ↦ rw h (signed-Answers t t.sender s)
  ]

  -- `validateTx` answers with the first rule that the transaction breaks, of its size, its amount,
  -- its signature, and the nonce and the balance that the current state shows for its sender, or
  -- with none; and the state shows afterwards what it showed before.
  pub validate_tx-Answers :
      (t : Tx) (s : StateDb) → Answers (objection t (abstract env s)) s (validate_tx env t s)
  unfolding validate_tx
  validate_tx-Answers t s = elim (Bool-cases (ltb 32768 t.size)) [
    | inl h ↦ rw h (refl, refl)
    | inr h ↦ rw h (amount-Answers t t.value s)
  ]
