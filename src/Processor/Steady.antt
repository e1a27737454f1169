-- ===== src/Processor/Steady.antt =====
-- What the end of a transaction relies on: kept by the calls of a message
-- (core/state/statedb.go, core/stateprocessor/statetransition.go).
use mjoy_go.Base.{
  ℕ, ◌≡◌, refl, Bool, true, false, none, some, [], ◌∷◌, lookup, insert, lookup-insert,
  lookup-insert_self, Map, ◌==◌, ==_cases, ==_self, if◌then◌else◌, Bool-cases, inl, inr, subst,
  arith,
}
use mjoy_go.State.Types.{
  Read, entry, absent, garbled, fault, StoredAccount, Env, StateObject, JournalEntry, StateDb,
}
use mjoy_go.State.Object.{save, set_state_object, mark_dirty, record_entry, is_empty}
use mjoy_go.State.Valid.{IsValid, set_state_object-IsValid}
use mjoy_go.State.Final.{is_dirty, Cached, insert-Cached}
use mjoy_go.State.Settling.{Distinct}

abbrev pub is_fault : Read StoredAccount → Bool
is_fault (entry d) = false
is_fault absent = false
is_fault garbled = false
is_fault (fault e) = true

-- A key of the dirty set that is new stands once.
is_dirty-insert :
    (a b : ℕ) (dirty : Map (Unit {0}))
    → is_dirty b (insert a tt dirty) ≡ (if a == b then true else is_dirty b dirty)
is_dirty-insert a b [] = refl
is_dirty-insert a b ((c, _) ∷ dirty) = ground (arith, is_dirty-insert a b dirty)

insert-Distinct : (a : ℕ) (dirty : Map (Unit {0})) → Distinct dirty → Distinct (insert a tt dirty)
insert-Distinct a [] d = (refl, tt)
insert-Distinct a ((c, _) ∷ dirty) (once, d) = elim (==_cases c a) [
  | inl e ↦ rw (e, ==_self a) (rw e at once, d)
  | inr e ↦ rw e (ground (arith, is_dirty-insert a c dirty), insert-Distinct a dirty d)
]

insert_both-Cached :
    (a : ℕ) (o : StateObject) (dirty : Map (Unit {0})) (m : Map StateObject)
    → Cached dirty m
    → Cached (insert a tt dirty) (insert a o m)
insert_both-Cached a o [] m c = ((o, lookup-insert_self a o m), tt)
insert_both-Cached a o ((b, _) ∷ dirty) m (there, c) = elim (==_cases b a) [
  | inl e ↦ rw (e, ==_self a) ((o, lookup-insert_self a o m), insert-Cached a o dirty m c)
  | inr e ↦
      rw e ((insert-Cached a o ((b, tt) ∷ []) m (there, tt)).0, insert_both-Cached a o dirty m c)
]

both : (b : Bool) → b ≡ true → b ≡ false → ⊥
both b h k = cc

module _ (env : Env) where
  -- Not suicided; and deleted only where it is empty.
  pub record Clean (o : StateObject) : Type 0 where
    pub alive : o.suicided ≡ false
    pub emptied : o.deleted ≡ true → is_empty env o ≡ true

  -- The state is valid, every dirty address has one object, all objects are clean, and the database has no error.
  pub record Steady (s : StateDb) : Type 0 where
    pub valid : IsValid env s
    pub cached : Cached s.state_objects_dirty s.state_objects
    pub distinct : Distinct s.state_objects_dirty
    pub clean : (a : ℕ) (o : StateObject) → lookup a s.state_objects ≡ some o → Clean o
    pub no_error : s.db_err ≡ none
    pub readable : (a : ℕ) → is_fault (s.trie a) ≡ false

  -- An object that is in use.
  abbrev pub Live : StateObject → Type 0
  Live o = (o.suicided ≡ false) × (o.deleted ≡ false)

  pub Live-Clean : (o : StateObject) → Live o → Clean o
  Live-Clean o (alive, there) = record { alive = alive; emptied = λ gone. cc }

  insert-Clean :
      (a : ℕ) (o : StateObject) (m : Map StateObject)
      → Clean o
      → ((b : ℕ) (p : StateObject) → lookup b m ≡ some p → Clean p)
      → (b : ℕ) (p : StateObject) → lookup b (insert a o m) ≡ some p
      → Clean p
  insert-Clean a o m k all b p h = elim (==_cases a b) [
    | inl e ↦ let same : o ≡ p = ground (arith, lookup-insert a b o m) in subst Clean same k
    | inr e ↦ all b p (ground (arith, lookup-insert a b o m))
  ]

  pub set_state_object-Steady :
      (o : StateObject) (s : StateDb) → Live o → Steady s → Steady (set_state_object o s)
  set_state_object-Steady o s k v = record {
    valid = set_state_object-IsValid env o s v.valid (λ gone. absurd (both o.deleted gone k.1));
    cached = insert-Cached o.address o s.state_objects_dirty s.state_objects v.cached;
    distinct = v.distinct;
    clean = insert-Clean o.address o s.state_objects (Live-Clean o k) v.clean;
    no_error = v.no_error;
    readable = v.readable;
  }

  pub record_entry-Steady : (e : JournalEntry) (s : StateDb) → Steady s → Steady (record_entry e s)
  record_entry-Steady e s v = record {
    valid = record { placed = v.valid.placed; bounded = v.valid.bounded };
    cached = v.cached;
    distinct = v.distinct;
    clean = v.clean;
    no_error = v.no_error;
    readable = v.readable;
  }

  marked-Steady :
      (o : StateObject) (s : StateDb)
      → Live o
      → Steady s
      → Steady (set_state_object o (mark_dirty o.address s))
  marked-Steady o s k v = record {
    valid =
        set_state_object-IsValid env o (mark_dirty o.address s)
          (record { placed = v.valid.placed; bounded = v.valid.bounded })
          (λ gone. absurd (both o.deleted gone k.1));
    cached = insert_both-Cached o.address o s.state_objects_dirty s.state_objects v.cached;
    distinct = insert-Distinct o.address s.state_objects_dirty v.distinct;
    clean = insert-Clean o.address o s.state_objects (Live-Clean o k) v.clean;
    no_error = v.no_error;
    readable = v.readable;
  }

  pub save-Steady : (o : StateObject) (s : StateDb) → Live o → Steady s → Steady (save o s)
  unfolding save
  save-Steady o s k v = elim (Bool-cases o.armed) [
    | inl e ↦ rw e (marked-Steady (record o { armed = false }) s k v)
    | inr e ↦ rw e (set_state_object-Steady (record o { armed = false }) s k v)
  ]
