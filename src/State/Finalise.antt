-- ===== src/State/Finalise.antt =====
-- `Finalise` (core/state/statedb.go): the dirty accounts go into the account trie, or out of it.
use mjoy_go.Base.{
  ℕ, ◌≡◌, refl, Bool, true, false, Option, none, some, [], ◌∷◌, lookup, Map, ◌==◌, ==_iff,
  if◌then◌else◌, ap, ◌∙◌, sym, subst,
}
use mjoy_go.State.Types.{Read, StoredAccount, Env, StateObject, StateDb}
use mjoy_go.State.Final.{clear_journal_and_refund, is_dirty, Cached, insert-Cached}
use mjoy_go.State.Finish.{Tries, finalise_object, finalise_objects, finalise, cleared}
use mjoy_go.State.Settling.{
  Placed, Distinct, Faithful, settled, written, settled_at, written_at, Settles,
  finalise_object-Settles, objects-finalise_object, insert-Placed,
}

module _ (tries : Tries) (env : Env) (empties : Bool) where
  -- The dirty objects have settled, and their accounts are in the trie or out of it.
  abbrev pub Finalised : Map (Unit {0}) → StateDb → StateDb → Type 0
  Finalised dirty s t =
      t.db_err ≡ none
      → (s.db_err ≡ none)
        × ((b : ℕ)
            → lookup b t.state_objects
              ≡ settled_at tries env empties (is_dirty b dirty) (lookup b s.state_objects))
        × ((b : ℕ)
            → t.trie b
              ≡ written_at tries env empties (is_dirty b dirty) (lookup b s.state_objects)
                  (s.trie b))

  abbrev pub Finalises : Map (Unit {0}) → StateDb → Option StateDb → Type 0
  Finalises dirty s none = ⊥
  Finalises dirty s (some t) = Finalised dirty s t

  -- The end of a transaction: no journal, no revisions, no refund.
  abbrev pub Clears : StateDb → Option StateDb → Type 0
  Clears s none = ⊥
  Clears s (some t) =
      (t.journal ≡ [])
      × (t.valid_revisions ≡ [])
      × (t.refund ≡ 0)
      × Finalised s.state_objects_dirty s t

  module _ (faithful : Faithful tries) where
    unsettled : (x : Option StateObject) → x ≡ settled_at tries env empties false x
    unsettled none = refl
    unsettled (some o) = refl

    unwritten :
        (x : Option StateObject) (r : Read StoredAccount)
        → r ≡ written_at tries env empties false x r
    unwritten none r = refl
    unwritten (some o) r = refl

    step_settled :
        (c d : Bool) (o : StateObject) (x : Option StateObject)
        → (c ≡ true → x ≡ some o)
        → (c ≡ true → d ≡ false)
        → settled_at tries env empties d (if c then some (settled tries env empties o) else x)
          ≡ settled_at tries env empties (if c then true else d) x
    step_settled true d o x here only = rw (only refl, here refl) refl
    step_settled false d o x here only = refl

    step_written :
        (c d : Bool) (o : StateObject) (x : Option StateObject) (r : Read StoredAccount)
        → (c ≡ true → x ≡ some o)
        → (c ≡ true → d ≡ false)
        → written_at tries env empties d
            (if c then some (settled tries env empties o) else x)
            (if c then written tries env empties o else r)
          ≡ written_at tries env empties (if c then true else d) x r
    step_written true d o x r here only = rw (only refl, here refl) refl
    step_written false d o x r here only = refl

    first-Finalised :
        (a : ℕ) (o : StateObject) (dirty : Map (Unit {0})) (s u t : StateDb)
        → lookup a s.state_objects ≡ some o
        → is_dirty a dirty ≡ false
        → Settles tries env empties a
            (settled tries env empties o)
            (written tries env empties o)
            s
            u
        → Finalised dirty u t
        → Finalised ((a, tt) ∷ dirty) s t
    first-Finalised a o dirty s u t there once first rest no_err =
        let (mid, objects, accounts) = rest no_err in
        let (start, objects', accounts') = first mid in
        (
          start,
          (λ b.
              objects b
              ∙ ap (settled_at tries env empties (is_dirty b dirty)) (objects' b)
              ∙ step_settled (a == b) (is_dirty b dirty) o (lookup b s.state_objects) (same b)
                  (only b)),
          (λ b.
              accounts b
              ∙ (λ i.
                  written_at tries env empties (is_dirty b dirty) (objects' b i) (accounts' b i))
              ∙ step_written (a == b) (is_dirty b dirty) o (lookup b s.state_objects) (s.trie b)
                  (same b) (only b)),
        )
      where
        same : (b : ℕ) → (a == b) ≡ true → lookup b s.state_objects ≡ some o
        same b e = subst (λ c. lookup c s.state_objects ≡ some o) ((==_iff a b).0 e) there

        only : (b : ℕ) → (a == b) ≡ true → is_dirty b dirty ≡ false
        only b e = subst (λ c. is_dirty c dirty ≡ false) ((==_iff a b).0 e) once

    first-Finalises :
        (a : ℕ) (o : StateObject) (dirty : Map (Unit {0})) (s u : StateDb) (r : Option StateDb)
        → lookup a s.state_objects ≡ some o
        → is_dirty a dirty ≡ false
        → Settles tries env empties a
            (settled tries env empties o)
            (written tries env empties o)
            s
            u
        → Finalises dirty u r
        → Finalises ((a, tt) ∷ dirty) s r
    first-Finalises a o dirty s u none there once first bad = bad
    first-Finalises a o dirty s u (some t) there once first rest =
        first-Finalised a o dirty s u t there once first rest

    finalise_objects-Finalises :
        (dirty : Map (Unit {0})) (s : StateDb)
        → Cached dirty s.state_objects
        → Distinct dirty
        → Placed s.state_objects
        → Finalises dirty s (finalise_objects tries env empties dirty s)
    unfolding finalise_objects
    finalise_objects-Finalises [] s cached distinct placed = λ no_err. (
      no_err,
      (λ b. unsettled (lookup b s.state_objects)),
      λ b. unwritten (lookup b s.state_objects) (s.trie b),
    )
    finalise_objects-Finalises ((a, _) ∷ dirty) s ((o, there), cached) (once, distinct) placed =
        let u = finalise_object tries env empties o s in
        let objects = objects-finalise_object tries env empties faithful o s in
        rw (there, finalise_objects)
          (first-Finalises a o dirty s u (finalise_objects tries env empties dirty u) there once
            (subst
              (λ c.
                Settles tries env empties c (settled tries env empties o)
                  (written tries env empties o) s u)
              (placed a o there) (finalise_object-Settles tries env empties faithful o s))
            (finalise_objects-Finalises dirty u
              (subst (Cached dirty) (sym objects) (
                insert-Cached o.address (settled tries env empties o) dirty s.state_objects cached))
              distinct
              (subst Placed (sym objects)
                (insert-Placed tries env empties faithful o s.state_objects placed))))

    -- Where every dirty address has an object, objects stand at their addresses, and the account trie
    -- keeps what it is told, Finalise does not panic. It clears the journal, the revisions and the refund;
    -- and if the database has no error after it, each dirty object that is suicided, or empty where
    -- these are to be removed, is flagged as deleted and its account is out of the trie, each other
    -- dirty object has its storage and its root updated and its account is in the trie, and the other
    -- objects and accounts are as before.
    pub finalise-Finalised :
        (s : StateDb)
        → Cached s.state_objects_dirty s.state_objects
        → Distinct s.state_objects_dirty
        → Placed s.state_objects
        → Clears s (finalise tries env empties s)
    unfolding finalise clear_journal_and_refund
    finalise-Finalised s cached distinct placed =
        from (finalise_objects tries env empties s.state_objects_dirty s)
          (finalise_objects-Finalises s.state_objects_dirty s cached distinct placed)
      where
        from :
            (r : Option StateDb)
            → Finalises s.state_objects_dirty s r
            → Clears s (cleared tries env r)
        from none bad = bad
        from (some t) h = (refl, refl, refl, h)
