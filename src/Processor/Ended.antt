-- ===== src/Processor/Ended.antt =====
-- After `Finalise` the next message finds a steady state with the same money
-- (core/state/statedb.go, core/stateprocessor/stateprocessor.go).
use mjoy_go.Base.{
  ℕ, ◌<◌, ◌≡◌, Bool, true, false, Option, none, some, lookup, u64_mod, ap, ◌∙◌, sym, subst,
}
use mjoy_go.State.Types.{Env, StateObject, StateDb}
use mjoy_go.State.View.{abstract, look_trie, look_entry}
use mjoy_go.State.Final.{clear_journal_and_refund, is_dirty, Cached}
use mjoy_go.State.Finish.{Tries, finalise_objects, finalise, cleared}
use mjoy_go.State.Settling.{Distinct, settled_at, written_at}
use mjoy_go.State.Finalise.{Clears, finalise-Finalised}
use mjoy_go.State.Revisions.{Older}
use mjoy_go.Processor.Ledger.{Agrees}
use mjoy_go.Processor.Steady.{is_fault, Clean, Steady}
use mjoy_go.Processor.Settled.{Reliable, money, Rests, finalise_objects-Rests}
use mjoy_go.Processor.Rounds.{
  rounded_if, came_from, went_to, carry-Cached, rounded_if-Clean, rounded_if-address, gone-written,
  written-readable, look-money,
}

module _ (tries : Tries) (env : Env) where
  -- The objects have settled, and their accounts are written.
  module _ (s u : StateDb) (v : Steady env s)
      (objects : (a : ℕ)
        → lookup a u.state_objects
          ≡ settled_at tries env true (is_dirty a s.state_objects_dirty) (lookup a s.state_objects))
      (accounts : (a : ℕ)
        → u.trie a
          ≡ written_at tries env true
              (is_dirty a s.state_objects_dirty)
              (lookup a s.state_objects)
              (s.trie a)) where
    abbrev dirty_at : ℕ → Bool
    dirty_at a = is_dirty a s.state_objects_dirty

    source :
        (a : ℕ) (o : StateObject)
        → lookup a u.state_objects ≡ some o
        → (p : StateObject) × (lookup a s.state_objects ≡ some p)
          × (rounded_if tries env (dirty_at a) p ≡ o)
    source a o h =
        came_from tries env (dirty_at a) (lookup a s.state_objects) o (sym (objects a) ∙ h)

    after-Clean : (a : ℕ) (o : StateObject) → lookup a u.state_objects ≡ some o → Clean env o
    after-Clean a o h =
        let (p, there, same) = source a o h in
        subst (Clean env) same (rounded_if-Clean tries env (dirty_at a) p (v.clean a p there))

    after-placed :
        (a : ℕ) (o : StateObject)
        → lookup a u.state_objects ≡ some o
        → (o.address ≡ a) × (o.deleted ≡ true → look_trie env a (u.trie a) ≡ none)
    after-placed a o h =
        let (p, there, same) = source a o h in
        let (at_home, out) = v.valid.placed a p there in
        (
          sym (ap (λ (q : StateObject). q.address) same)
              ∙ rounded_if-address tries env (dirty_at a) p (v.clean a p there)
              ∙ at_home,
          λ gone.
              ap (look_trie env a) (accounts a)
              ∙ ap (λ x. look_trie env a (written_at tries env true (dirty_at a) x (s.trie a)))
                  there
              ∙ gone-written tries env a (dirty_at a) p (s.trie a) (v.clean a p there) out
                  (ap (λ (q : StateObject). q.deleted) same ∙ gone),
        )

    after-Cached : Cached s.state_objects_dirty u.state_objects
    after-Cached =
        carry-Cached tries env s.state_objects_dirty s.state_objects u.state_objects
          (λ a p there.
            let (q, here) = went_to tries env (dirty_at a) (lookup a s.state_objects) p there in
            (q, objects a ∙ here))
          v.cached

    after-readable : (a : ℕ) → is_fault (u.trie a) ≡ false
    after-readable a =
        ap is_fault (accounts a)
        ∙ written-readable tries env (dirty_at a) (lookup a s.state_objects) (s.trie a)
            (v.readable a)

    after-Agrees : Agrees env (abstract env u) (abstract env s)
    after-Agrees = record {
      balances = λ a. ap (λ m. m.0) (seen a);
      nonces = λ a. ap (λ m. m.1) (seen a);
    }
      where
        seen :
            (a : ℕ)
            → money tries env ((abstract env u).look a) ≡ money tries env ((abstract env s).look a)
        seen a =
            (λ i. money tries env (look_entry env (objects a i) (look_trie env a (accounts a i))))
            ∙ look-money tries env a (dirty_at a) (lookup a s.state_objects) (s.trie a) (v.clean a)

  -- What the next transaction of the block starts from.
  pub record Ends (s t : StateDb) : Type 0 where
    pub steady : Steady env t
    pub older : Older t.next_revision_id t.valid_revisions
    pub agrees : Agrees env (abstract env t) (abstract env s)

  abbrev pub EndsIn : StateDb → Option StateDb → Type 0
  EndsIn s none = ⊥
  EndsIn s (some t) = Ends s t

  module _ (reliable : Reliable tries) where
    cleared-Ends :
        (s : StateDb) (r : Option StateDb)
        → Steady env s
        → Rests tries env s r
        → Clears tries env true s (cleared tries env r)
        → EndsIn s (cleared tries env r)
    unfolding clear_journal_and_refund
    cleared-Ends s none v rest bad = bad
    cleared-Ends s (some u) v (same_dirty, same_size, no_error) (_, _, _, finalised) =
        let (_, objects, accounts) = finalised (no_error v.no_error) in
        record {
          steady = record {
            valid = record {
              placed = after-placed s u v objects accounts;
              bounded = subst (λ n. n < u64_mod) (sym same_size) v.valid.bounded;
            };
            cached =
                subst (λ d. Cached d u.state_objects) (sym same_dirty)
                  (after-Cached s u v objects accounts);
            distinct = subst Distinct (sym same_dirty) v.distinct;
            clean = after-Clean s u v objects accounts;
            no_error = no_error v.no_error;
            readable = after-readable s u v objects accounts;
          };
          older = tt;
          agrees = record {
            balances = (after-Agrees s u v objects accounts).balances;
            nonces = (after-Agrees s u v objects accounts).nonces;
          };
        }

    pub finalise-Ends : (s : StateDb) → Steady env s → EndsIn s (finalise tries env true s)
    unfolding finalise
    finalise-Ends s v =
        cleared-Ends s (finalise_objects tries env true s.state_objects_dirty s) v
          (finalise_objects-Rests tries env reliable s.state_objects_dirty s)
          (finalise-Finalised tries env true reliable.faithful s v.cached v.distinct
            (λ a o h. (v.valid.placed a o h).0))
