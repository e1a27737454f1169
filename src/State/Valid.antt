-- ===== src/State/Valid.antt =====
-- Where the objects stand: the invariant of the state, kept by every write.
use mjoy_go.Base.{
  ℕ, ◌<◌, u64_mod, ◌≡◌, Bool, true, false, none, some, lookup, insert, lookup-insert, arith,
  Option-cases, Bool-cases, ==_cases, if◌then◌else◌, inl, inr, subst,
}
use mjoy_go.State.Types.{
  Read, entry, absent, garbled, fault, StoredAccount, Env, StateObject, StateDb,
}
use mjoy_go.State.Object.{save, set_state_object, mark_dirty, new_object}
use mjoy_go.State.Db.{load, get_state_object}
use mjoy_go.State.View.{look_trie}

module _ (env : Env) where
  -- An object stands under its address, and the trie has no account of a deleted one.
  pub record IsValid (s : StateDb) : Type 0 where
    pub placed :
        (a : ℕ) (o : StateObject)
        → lookup a s.state_objects ≡ some o
        → (o.address ≡ a) × (o.deleted ≡ true → look_trie env a (s.trie a) ≡ none)
    pub bounded : s.log_size < u64_mod

  pub set_state_object-IsValid :
      (o : StateObject) (s : StateDb)
      → IsValid s
      → (o.deleted ≡ true → look_trie env o.address (s.trie o.address) ≡ none)
      → IsValid (set_state_object o s)
  set_state_object-IsValid o s v gone = record { placed = placed; bounded = v.bounded }
    where
      placed :
          (a : ℕ) (p : StateObject)
          → lookup a (insert o.address o s.state_objects) ≡ some p
          → (p.address ≡ a) × (p.deleted ≡ true → look_trie env a (s.trie a) ≡ none)
      placed a p h = elim (==_cases o.address a) [
        | inl e ↦
            let same : o ≡ p = ground (arith, lookup-insert o.address a o s.state_objects) in
            subst
              (λ (q : StateObject).
                (q.address ≡ a) × (q.deleted ≡ true → look_trie env a (s.trie a) ≡ none))
              same (e, subst (λ b. o.deleted ≡ true → look_trie env b (s.trie b) ≡ none) e gone)
        | inr e ↦ v.placed a p (ground (arith, lookup-insert o.address a o s.state_objects))
      ]

  notify-IsValid :
      (b : Bool) (a : ℕ) (s : StateDb) → IsValid s → IsValid (if b then mark_dirty a s else s)
  notify-IsValid true a s v = record { placed = v.placed; bounded = v.bounded }
  notify-IsValid false a s v = v

  pub save-IsValid :
      (o : StateObject) (s : StateDb) → IsValid s → o.deleted ≡ false → IsValid (save o s)
  unfolding save
  save-IsValid o s v live =
      set_state_object-IsValid (record o { armed = false })
        (if o.armed then mark_dirty o.address s else s) (notify-IsValid o.armed o.address s v)
        (λ (h : o.deleted ≡ true). cc)

  load-IsValid :
      (a : ℕ) (r : Read StoredAccount) (s : StateDb) → IsValid s → IsValid (load env a r s).1
  unfolding new_object
  load-IsValid a (entry d) s v =
      set_state_object-IsValid (new_object env a d) s v (λ (h : false ≡ true). cc)
  load-IsValid a absent s v = v
  load-IsValid a garbled s v = v
  load-IsValid a (fault e) s v = record { placed = v.placed; bounded = v.bounded }

  pub get_state_object-IsValid :
      (a : ℕ) (s : StateDb) → IsValid s → IsValid (get_state_object env a s).1
  unfolding get_state_object
  get_state_object-IsValid a s v = elim (Option-cases (lookup a s.state_objects)) [
    | inl miss ↦ rw (miss, get_state_object) (load-IsValid a (s.trie a) s v)
    | inr (o, hit) ↦
        rw (hit, get_state_object) (elim (Bool-cases o.deleted) [ inl e ↦ rw e v | inr e ↦ rw e v ])
  ]
