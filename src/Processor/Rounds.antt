-- ===== src/Processor/Rounds.antt =====
-- What becomes of one object and its account in `Finalise` (core/state/statedb.go).
use mjoy_go.Base.{
  ℕ, ◌≡◌, refl, Bool, true, false, Option, none, some, [], ◌∷◌, lookup, Map, if◌then◌else◌,
  Bool-cases, inl, inr, ap, ◌∙◌, sym,
}
use mjoy_go.State.Types.{Read, StoredAccount, Env, StateObject}
use mjoy_go.State.Object.{is_empty}
use mjoy_go.State.View.{look_trie, look_entry}
use mjoy_go.State.Final.{Cached}
use mjoy_go.State.Finish.{Tries, removed}
use mjoy_go.State.Settling.{settled_at, written_at}
use mjoy_go.Processor.Steady.{is_fault, Clean}
use mjoy_go.Processor.Settled.{
  rounded, rounded-Clean, rounded-address, rounded-money, rounded-full, kept_fields, removed-empty,
  money,
}

module _ (tries : Tries) (env : Env) where
  abbrev pub rounded_if : Bool → StateObject → StateObject
  rounded_if d o = if d then rounded tries env o else o

  -- Where an object of the result comes from.
  pub came_from :
      (d : Bool) (x : Option StateObject) (o : StateObject)
      → settled_at tries env true d x ≡ some o
      → (p : StateObject) × (x ≡ some p) × (rounded_if d p ≡ o)
  came_from d none o h = cc
  came_from true (some p) o h = (p, refl, cc)
  came_from false (some p) o h = (p, refl, cc)

  pub went_to :
      (d : Bool) (x : Option StateObject) (p : StateObject)
      → x ≡ some p
      → (q : StateObject) × (settled_at tries env true d x ≡ some q)
  went_to d none p h = cc
  went_to true (some o) p h = (rounded tries env o, refl)
  went_to false (some o) p h = (o, refl)

  pub carry-Cached :
      (dirty : Map (Unit {0})) (m n : Map StateObject)
      → ((a : ℕ) (p : StateObject)
          → lookup a m ≡ some p
          → (q : StateObject) × (lookup a n ≡ some q))
      → Cached dirty m
      → Cached dirty n
  carry-Cached [] m n f c = tt
  carry-Cached ((a, _) ∷ dirty) m n f ((p, there), c) = (f a p there, carry-Cached dirty m n f c)

  pub rounded_if-Clean : (d : Bool) (p : StateObject) → Clean env p → Clean env (rounded_if d p)
  rounded_if-Clean true p k = rounded-Clean tries env p k
  rounded_if-Clean false p k = k

  pub rounded_if-address :
      (d : Bool) (p : StateObject) → Clean env p → (rounded_if d p).address ≡ p.address
  rounded_if-address true p k = rounded-address tries env p k
  rounded_if-address false p k = refl

  -- A clean object that is deleted after its round is out of the trie.
  pub gone-written :
      (a : ℕ) (d : Bool) (p : StateObject) (r : Read StoredAccount)
      → Clean env p
      → (p.deleted ≡ true → look_trie env a r ≡ none)
      → (rounded_if d p).deleted ≡ true
      → look_trie env a (written_at tries env true d (some p) r) ≡ none
  gone-written a false p r k was gone = was gone
  gone-written a true p r k was gone = elim (Bool-cases (is_empty env p)) [
    | inl e ↦ rw (removed-empty tries env p k, e)
    | inr e ↦
        let left : p.deleted ≡ true =
          sym (kept_fields tries env p).1
          ∙ sym (ap (λ (q : StateObject). q.deleted) (rounded-full tries env p k e))
          ∙ gone in
        let bad : true ≡ false = sym (k.emptied left) ∙ e in cc
  ]

  pub written-readable :
      (d : Bool) (x : Option StateObject) (r : Read StoredAccount)
      → is_fault r ≡ false
      → is_fault (written_at tries env true d x r) ≡ false
  written-readable d none r h = h
  written-readable false (some p) r h = h
  written-readable true (some p) r h = elim (Bool-cases (removed tries env true p)) [
    | inl e ↦ rw e
    | inr e ↦ rw e
  ]

  -- The same money is seen, wherever it stands.
  pub look-money :
      (a : ℕ) (d : Bool) (x : Option StateObject) (r : Read StoredAccount)
      → ((p : StateObject) → x ≡ some p → Clean env p)
      → money tries env (
          look_entry env
            (settled_at tries env true d x)
            (look_trie env a (written_at tries env true d x r)))
        ≡ money tries env (look_entry env x (look_trie env a r))
  look-money a d none r k = refl
  look-money a true (some p) r k = rounded-money tries env p (k p refl)
  look-money a false (some p) r k = refl
