-- ===== src/Processor/Followed.antt =====
-- A transaction follows the book (core/stateprocessor/stateprocessor.go).
use mjoy_go.Base.{ℕ, ◌≡◌, refl, true, false, Option, none, some, List, ◌∙◌, sym, subst, fun_ext}
use mjoy_go.State.Types.{Env, Log, StateDb}
use mjoy_go.State.View.{abstract}
use mjoy_go.State.Finish.{Tries, finalise}
use mjoy_go.Processor.Transition.{Message, Status, ok, err, transition_db}
use mjoy_go.Processor.Ledger.{Agrees}
use mjoy_go.Processor.Outcome.{Pays}
use mjoy_go.Processor.Verdict.{verdict, Lawful, Settles, transition_db-Lawful}
use mjoy_go.Processor.Kept.{Keeps, transition_db-Keeps}
use mjoy_go.Processor.Settled.{Reliable}
use mjoy_go.Processor.Ended.{EndsIn, finalise-Ends}
use mjoy_go.Processor.Block.{
  Transaction, as_message, oldest_first, topics_of, with_bloom, new_receipt, after_message,
  apply_signed,
}
use mjoy_go.State.Final.{get_logs}
use mjoy_go.Bloom.Filter.{create_bloom}
use mjoy_go.Bloom.Lookup.{Covers, create_bloom-Covers}
use mjoy_go.Processor.Replay.{Book, posted, paid, enter, post_signed, book, Sound, Follows, Attests}

module _ (env : Env) (keccak : List ℕ → ℕ → ℕ) (emitted : ℕ → List (List ℕ)) (tries : Tries) where
  Agrees-book :
      (s t : StateDb) → Agrees env (abstract env t) (abstract env s) → book env t ≡ book env s
  Agrees-book s t h = λ i. record { balances = fun_ext h.balances i; nonces = fun_ext h.nonces i }

  Pays-book :
      (coinbase to : ℕ) (msg : Message) (s t : StateDb)
      → Pays env coinbase to msg (abstract env s) (abstract env t)
      → book env t ≡ paid env coinbase to msg (book env s)
  Pays-book coinbase to msg s t h =
      λ i. record { balances = fun_ext h.balances i; nonces = fun_ext h.nonces i }

  with_bloom-Follows :
      (tx : Transaction) (logs : List Log) (bloom : Option ℕ) (b : Book) (t : StateDb)
      → Covers keccak (topics_of emitted logs) bloom
      → Sound env t
      → book env t ≡ b
      → Follows env
          (Attests keccak emitted tx)
          (posted b)
          (with_bloom keccak emitted false tx logs bloom t)
  with_bloom-Follows tx logs none b t covers sound same = covers
  with_bloom-Follows tx logs (some bloom) b t covers sound same =
      (record { tx_hash = refl; status = refl; bloom = covers }, sound, same)

  finalised-Follows :
      (tx : Transaction) (to : ℕ) (b : Book) (t : StateDb) (r : Option StateDb)
      → EndsIn tries env t r
      → book env t ≡ b
      → Follows env
          (Attests keccak emitted tx)
          (posted b)
          (new_receipt keccak emitted false tx (some to) r)
  finalised-Follows tx to b t none ends same = ends
  finalised-Follows tx to b t (some u) ends same =
      let logs : List Log = oldest_first (get_logs tx.hash u) in
      with_bloom-Follows tx logs (create_bloom keccak (topics_of emitted logs)) b u
        (create_bloom-Covers keccak (topics_of emitted logs))
        (record { steady = ends.steady; older = ends.older }) (Agrees-book t u ends.agrees ∙ same)

  module _ (reliable : Reliable tries) where
    status-Follows :
        (coinbase : ℕ) (tx : Transaction) (msg : Message) (to : Option ℕ) (st : Status)
        (s t : StateDb)
        → tx.recipient ≡ to
        → Settles env coinbase msg to st (abstract env s) (abstract env t)
        → Keeps env (some (st, t))
        → Follows env
            (Attests keccak emitted tx)
            (enter env coinbase msg to st (book env s))
            (after_message keccak emitted env tries tx (some (st, t)))
    status-Follows coinbase tx msg to (err failed e) s t target settles keeps = refl
    status-Follows coinbase tx msg none ok s t target settles keeps = elim settles [ ]
    status-Follows coinbase tx msg (some to) ok s t target settles keeps =
        subst
          (λ o.
            Follows env (Attests keccak emitted tx) (posted (paid env coinbase to msg (book env s)))
              (new_receipt keccak emitted false tx o (finalise tries env true t)))
          (sym target)
          (finalised-Follows tx to (paid env coinbase to msg (book env s)) t
            (finalise tries env true t) (finalise-Ends tries env reliable t keeps)
            (Pays-book coinbase to msg s t settles))

    message-Follows :
        (coinbase : ℕ) (tx : Transaction) (msg : Message) (st : Status) (s : StateDb)
        (r : Option (Status × StateDb))
        → tx.recipient ≡ msg.to
        → Lawful env coinbase msg st (abstract env s) r
        → Keeps env r
        → Follows env
            (Attests keccak emitted tx)
            (enter env coinbase msg msg.to st (book env s))
            (after_message keccak emitted env tries tx r)
    message-Follows coinbase tx msg st s none target lawful keeps = elim lawful [ ]
    message-Follows coinbase tx msg st s (some (st', t)) target (same, settles) keeps =
        subst
          (λ q.
            Follows env (Attests keccak emitted tx) (enter env coinbase msg msg.to st (book env s))
              (after_message keccak emitted env tries tx (some (q, t))))
          (sym same)
          (status-Follows coinbase tx msg msg.to st s t target settles
            (subst (λ q. Keeps env (some (q, t))) same keeps))

    pub signed-Follows :
        (coinbase : ℕ) (tx : Transaction) (sender : Option ℕ) (s : StateDb)
        → Sound env s
        → Follows env
            (Attests keccak emitted tx)
            (post_signed env coinbase tx sender (book env s))
            (apply_signed keccak emitted env tries coinbase tx sender s)
    signed-Follows coinbase tx none s sound = refl
    signed-Follows coinbase tx (some a) s sound =
        let msg : Message = as_message tx a in
        message-Follows coinbase tx msg
          (verdict msg ((book env s).balances a) ((book env s).nonces a)) s
          (transition_db env coinbase msg s) refl
          (transition_db-Lawful env coinbase msg s sound.steady.valid sound.older)
          (transition_db-Keeps env coinbase msg s sound.steady)
