-- ===== src/Processor/Verdict.antt =====
-- The answer of `TransitionDb` (core/stateprocessor/statetransition.go), foretold from the balance
-- and the nonce of the sender.
use mjoy_go.Base.{
  ℕ, ◌≡◌, refl, true, false, Option, none, some, if◌then◌else◌, Bool-cases, inl, inr, ap, ◌∙◌, sym,
  subst,
}
use mjoy_go.Base.Int.{ℤ, ◌+ℤ◌, ltb_ℤ}
use mjoy_go.State.Types.{Env, StateDb}
use mjoy_go.State.Journal.{snapshot, revert_to_snapshot}
use mjoy_go.State.View.{Abstract, abstract}
use mjoy_go.State.Valid.{IsValid}
use mjoy_go.State.Ops.{run}
use mjoy_go.State.Getters.{nonce-view}
use mjoy_go.State.Revisions.{Older}
use mjoy_go.State.Since
use mjoy_go.State.Since.{Restores, snapshot-IsValid}
use mjoy_go.State.Revert.{run-Since, revert_to_snapshot-snapshot}
use mjoy_go.Processor.Transition.{
  Message, TransitionError, no_creation, insufficient_balance, Status, ok, err, fee_of, from, check,
  pre_check, failing, pay, transfer, execute, after_check, transition_db,
}
use mjoy_go.Processor.Ledger.{balance, nonce, Agrees, Agrees-eq, Agrees-trans}
use mjoy_go.Processor.Payment.{Ready, Ready-trans, from-Ready, pre_check-Ready}
use mjoy_go.Processor.Outcome.{
  Pays, moved, bumped, prelude, tested, next_nonce, tested-run, tested-balance, paid-Pays,
}

-- With the nonce accepted, all depends on the recipient and on the sender's balance.
abbrev pub funds_verdict : Message → Option ℕ → ℤ → Status
funds_verdict msg none b = err true no_creation
funds_verdict msg (some to) b =
    if ltb_ℤ b (fee_of msg.value +ℤ msg.value) then err true (insufficient_balance msg.from) else ok

abbrev pub nonce_verdict : Message → ℕ → Option TransitionError
nonce_verdict msg n = if msg.check_nonce then check n msg.nonce else none

abbrev pub then_funds : Option TransitionError → Status → Status
then_funds (some e) st = err false e
then_funds none st = st

abbrev pub verdict : Message → ℤ → ℕ → Status
verdict msg b n = then_funds (nonce_verdict msg n) (funds_verdict msg msg.to b)

module _ (env : Env) where
  -- A message that succeeds has paid; one that fails has changed no balance and no nonce.
  abbrev pub Settles : ℕ → Message → Option ℕ → Status → Abstract → Abstract → Type 0
  Settles coinbase msg none ok A B = ⊥
  Settles coinbase msg (some to) ok A B = Pays env coinbase to msg A B
  Settles coinbase msg to (err failed e) A B = Agrees env B A

  abbrev pub Lawful : ℕ → Message → Status → Abstract → Option (Status × StateDb) → Type 0
  Lawful coinbase msg st A none = ⊥
  Lawful coinbase msg st A (some (st', t)) =
      (st' ≡ st) × Settles coinbase msg msg.to st A (abstract env t)

  refused-Lawful :
      (coinbase : ℕ) (msg : Message) (e : TransitionError) (s : StateDb) (r : Option StateDb)
      → Restores env s r
      → Lawful coinbase msg (err true e) (abstract env s) (failing e r)
  refused-Lawful coinbase msg e s none never = elim never [ ]
  refused-Lawful coinbase msg e s (some u) (shown, _, _) = (refl, Agrees-eq env shown)

  transfer-refused :
      (coinbase to : ℕ) (msg : Message) (id : ℕ) (s : StateDb)
      → ltb_ℤ (tested env msg s).0 (fee_of msg.value +ℤ msg.value) ≡ true
      → transfer env coinbase to msg id s
        ≡ failing (insufficient_balance msg.from) (revert_to_snapshot env id (tested env msg s).1)
  unfolding transfer
  transfer-refused coinbase to msg id s h = rw h

  transfer-paid :
      (coinbase to : ℕ) (msg : Message) (id : ℕ) (s : StateDb)
      → ltb_ℤ (tested env msg s).0 (fee_of msg.value +ℤ msg.value) ≡ false
      → transfer env coinbase to msg id s ≡ some (ok, pay env coinbase to msg (tested env msg s).1)
  unfolding transfer pay
  transfer-paid coinbase to msg id s h = rw h

  -- The refusal goes back to the snapshot, whatever the prelude has done.
  transfer-Lawful :
      (coinbase to : ℕ) (msg : Message) (s : StateDb)
      → IsValid env s
      → Older s.next_revision_id s.valid_revisions
      → msg.to ≡ some to
      → Lawful coinbase msg
          (funds_verdict msg (some to) (balance env msg.from (abstract env s)))
          (abstract env s)
          (transfer env coinbase to msg s.next_revision_id (snapshot s).1)
  unfolding snapshot
  transfer-Lawful coinbase to msg s v older target =
      let marked : StateDb = (snapshot s).1 in
      let cost : ℤ = fee_of msg.value +ℤ msg.value in
      let valid = snapshot-IsValid env s v in
      let same : (tested env msg marked).0 ≡ balance env msg.from (abstract env s) =
        tested-balance env msg marked valid in
      elim (Bool-cases (ltb_ℤ (tested env msg marked).0 cost)) [
        | inl h ↦
            let back : Restores env s
                (revert_to_snapshot env s.next_revision_id (tested env msg marked).1) =
              subst (λ t. Restores env s (revert_to_snapshot env s.next_revision_id t))
                (sym (tested-run env msg marked))
                (revert_to_snapshot-snapshot env v older
                  (run-Since env (prelude env msg (next_nonce env msg marked)) (Since.marked))) in
            rw (← same, h)
              (subst
                (Lawful coinbase msg (err true (insufficient_balance msg.from)) (abstract env s))
                (sym (transfer-refused coinbase to msg s.next_revision_id marked h))
                (refused-Lawful coinbase msg (insufficient_balance msg.from) s _ back))
        | inr h ↦
            rw (← same, h)
              (subst (Lawful coinbase msg ok (abstract env s))
                (sym (transfer-paid coinbase to msg s.next_revision_id marked h))
                (
                  refl,
                  subst
                      (λ o.
                        Settles coinbase msg o ok (abstract env s)
                          (abstract env (pay env coinbase to msg (tested env msg marked).1)))
                      (sym target) (paid-Pays env coinbase to msg marked valid),
                ))
      ]

  execute-Lawful :
      (coinbase : ℕ) (to : Option ℕ) (msg : Message) (s : StateDb)
      → IsValid env s
      → Older s.next_revision_id s.valid_revisions
      → msg.to ≡ to
      → Lawful coinbase msg
          (funds_verdict msg to (balance env msg.from (abstract env s)))
          (abstract env s)
          (execute env coinbase to msg s)
  unfolding snapshot run
  execute-Lawful coinbase none msg s v older target =
      refused-Lawful coinbase msg no_creation s _
        (revert_to_snapshot-snapshot env v older (Since.marked))
  execute-Lawful coinbase (some to) msg s v older target =
      transfer-Lawful coinbase to msg s v older target

  -- What was agreed on before carries over.
  Settles-Agrees :
      (coinbase : ℕ) (msg : Message) (to : Option ℕ) (st : Status) (A A' B : Abstract)
      → Agrees env A' A
      → Settles coinbase msg to st A' B
      → Settles coinbase msg to st A B
  Settles-Agrees coinbase msg none ok A A' B same p = p
  Settles-Agrees coinbase msg (some to) ok A A' B same p = record {
    balances = λ x. p.balances x ∙ ap (λ b. moved env coinbase to msg b x) (same.balances x);
    nonces = λ x. p.nonces x ∙ ap (λ n. bumped env msg.from n x) (same.nonces x);
  }
  Settles-Agrees coinbase msg to (err failed e) A A' B same p = Agrees-trans env p same

  Lawful-Agrees :
      (coinbase : ℕ) (msg : Message) (st : Status) (A A' : Abstract) (r : Option (Status × StateDb))
      → Agrees env A' A
      → Lawful coinbase msg st A' r
      → Lawful coinbase msg st A r
  Lawful-Agrees coinbase msg st A A' none same p = p
  Lawful-Agrees coinbase msg st A A' (some (st', t)) same (e, p) =
      (e, Settles-Agrees coinbase msg msg.to st A A' (abstract env t) same p)

  pre_check-verdict :
      (msg : Message) (s : StateDb)
      → IsValid env s
      → (pre_check env msg s).0 ≡ nonce_verdict msg (nonce env msg.from (abstract env s))
  unfolding pre_check
  pre_check-verdict msg s v = elim (Bool-cases msg.check_nonce) [
    | inl e ↦ rw e (
        ap (λ n. check n msg.nonce)
          (nonce-view env msg.from (from env msg.from s)
            ∙ (from-Ready env msg.from s v).agrees.nonces msg.from))
    | inr e ↦ rw e
  ]

  after_check-Lawful :
      (coinbase : ℕ) (msg : Message) (s t : StateDb) (checked : Option TransitionError)
      → Ready env s t
      → Older s.next_revision_id s.valid_revisions
      → Lawful coinbase msg
          (then_funds checked (funds_verdict msg msg.to (balance env msg.from (abstract env s))))
          (abstract env s)
          (after_check env coinbase msg (checked, t))
  after_check-Lawful coinbase msg s t (some e) ready older = (refl, ready.agrees)
  after_check-Lawful coinbase msg s t none ready older =
      let u : StateDb = from env msg.from t in
      let found : Ready env s u =
        Ready-trans env ready (from-Ready env msg.from t ready.undoable.valid) in
      let older' : Older u.next_revision_id u.valid_revisions =
        rw (found.undoable.next_id, found.undoable.revisions) older in
      rw (← found.agrees.balances msg.from) (
        Lawful-Agrees coinbase msg
          (funds_verdict msg msg.to (balance env msg.from (abstract env u))) (abstract env s)
          (abstract env u) (execute env coinbase msg.to msg u) found.agrees
          (execute-Lawful coinbase msg.to msg u found.undoable.valid older' refl))

  -- From a valid state whose revisions are older than the next one, `TransitionDb` panics nowhere,
  -- and ends as the verdict on the sender's balance and nonce says. If it ends well, the recipient
  -- has the value, the miner the fee, the sender has paid both and its nonce is one higher, modulo
  -- 2 ^ 64; if it ends with an error, no balance and no nonce of any address has changed.
  pub transition_db-Lawful :
      (coinbase : ℕ) (msg : Message) (s : StateDb)
      → IsValid env s
      → Older s.next_revision_id s.valid_revisions
      → let A : Abstract = abstract env s in
        Lawful coinbase msg
          (verdict msg (balance env msg.from A) (nonce env msg.from A))
          A
          (transition_db env coinbase msg s)
  unfolding transition_db
  transition_db-Lawful coinbase msg s v older = rw (← pre_check-verdict msg s v) (
      after_check-Lawful coinbase msg s (pre_check env msg s).1 (pre_check env msg s).0
        (pre_check-Ready env msg s v) older)
