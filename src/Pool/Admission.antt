-- ===== src/Pool/Admission.antt =====
-- What `add` and `enqueueTx` (core/txprocessor/tx_pool.go) let into the pool.
use mjoy_go.Base.{
  ◌+◌, ◌%◌, u64_mod, ◌≡◌, refl, Bool, Option, none, some, lookup, length, leb, if◌then◌else◌,
  Bool-cases, Option-cases, inl, inr, subst,
}
use mjoy_go.State.Types.{Env, StateDb}
use mjoy_go.State.View.{abstract}
use mjoy_go.Pool.Sorted.{Tx}
use mjoy_go.Pool.TxPool
use mjoy_go.Pool.TxPool.{
  TxPool, PoolError, known_transaction, pool_full, validate_tx, validated, room, admit,
}
use mjoy_go.Pool.Validation.{objection, validate_tx-Answers}

-- A valid transaction needs room.
abbrev pub room_verdict : Option PoolError → TxPool → Option PoolError
room_verdict (some e) p = some e
room_verdict none p =
    if leb ((p.config.global_slots + p.config.global_queue) % u64_mod) (length p.all)
    then some pool_full
    else none

abbrev pub unknown_verdict : Option Tx → Option PoolError → Option PoolError
unknown_verdict none e = e
unknown_verdict (some _) e = some known_transaction

module _ (env : Env) where
  -- The same lists, transactions, local accounts, journal and events, and a state that shows the
  -- same.
  pub record Unharmed (p q : TxPool) : Type 0 where
    pub pending : q.pending ≡ p.pending
    pub queue : q.queue ≡ p.queue
    pub all : q.all ≡ p.all
    pub locals : q.locals ≡ p.locals
    pub journaled : q.journaled ≡ p.journaled
    pub pending_state : q.pending_state ≡ p.pending_state
    pub sent : q.sent ≡ p.sent
    pub current : abstract env q.current_state ≡ abstract env p.current_state

  abbrev pub Harmless : Option PoolError → TxPool → TxPool → Type 0
  Harmless none p q = Unit
  Harmless (some e) p q = Unharmed p q

  abbrev pub Ends : Option PoolError → TxPool → (Bool × Option PoolError) × TxPool → Type 0
  Ends e p ((replace, e'), q) = (e' ≡ e) × Harmless e p q

  moved_on :
      (p : TxPool) (s : StateDb)
      → abstract env s ≡ abstract env p.current_state
      → Unharmed p (record p { current_state = s })
  moved_on p s shown = record {
    pending = refl;
    queue = refl;
    all = refl;
    locals = refl;
    journaled = refl;
    pending_state = refl;
    sent = refl;
    current = shown;
  }

  validated-Ends :
      (local : Bool) (t : Tx) (p : TxPool) (r : Option PoolError × StateDb)
      → abstract env r.1 ≡ abstract env p.current_state
      → Ends (room_verdict r.0 p) p (validated env local t p r)
  validated-Ends local t p (some e, s) shown = (refl, moved_on p s shown)
  validated-Ends local t p (none, s) shown =
      elim (Bool-cases
        (leb ((p.config.global_slots + p.config.global_queue) % u64_mod) (length p.all))) [
          | inl full ↦ rw full (refl, moved_on p s shown)
          | inr free ↦ rw free (refl, tt)
        ]

  -- `add` answers that the transaction is known if its hash is, otherwise with what `validateTx`
  -- objects to, otherwise that the pool is full if it is, and otherwise with no error. Where it
  -- answers with an error, the pool has the same lists, transactions, local accounts, journal,
  -- pending nonces and events as before, and its current state shows the same.
  pub add-Ends :
      (local : Bool) (t : Tx) (p : TxPool)
      → let e : Option PoolError = objection env t (abstract env p.current_state) in
        Ends (unknown_verdict (lookup t.hash p.all) (room_verdict e p)) p (TxPool.add env local t p)
  unfolding TxPool.add
  add-Ends local t p = elim (Option-cases (lookup t.hash p.all)) [
    | inl new ↦
        let (answer, shown) = validate_tx-Answers env t p.current_state in
        rw (new, TxPool.add)
          (subst
            (λ e.
              Ends (room_verdict e p) p
                (validated env local t p (validate_tx env t p.current_state)))
            answer (validated-Ends local t p (validate_tx env t p.current_state) shown))
    | inr (old, there) ↦ rw (there, TxPool.add) (refl, moved_on p p.current_state refl)
  ]
