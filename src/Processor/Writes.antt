-- ===== src/Processor/Writes.antt =====
-- The calls of a message keep the state steady (core/state/statedb.go).
use mjoy_go.Base.{
  ℕ, ◌≡◌, refl, Bool, true, false, Option, none, some, lookup, if◌then◌else◌, Bool-cases,
  Option-cases, inl, inr, subst,
}
use mjoy_go.Base.Int.{ℤ, is_zero}
use mjoy_go.State.Types.{
  Read, entry, absent, garbled, fault, StoredAccount, Env, StateObject, StateDb,
}
use mjoy_go.State.Object
use mjoy_go.State.Object.{
  new_object, save, set_state_object, mark_dirty, record_entry, is_empty, assign_balance,
  assign_nonce,
}
use mjoy_go.State.Db
use mjoy_go.State.Db.{
  load, install, blank, created, get_state_object, get_or_new_state_object, create_object,
}
use mjoy_go.Processor.Steady.{
  is_fault, Clean, Steady, Live, set_state_object-Steady, record_entry-Steady, save-Steady,
}

module _ (env : Env) where
  new_object-Live : (a : ℕ) (d : StoredAccount) → Live env (new_object env a d)
  unfolding new_object
  new_object-Live a d = (refl, refl)

  load-Steady :
      (a : ℕ) (r : Read StoredAccount) (s : StateDb)
      → is_fault r ≡ false
      → Steady env s
      → Steady env (load env a r s).1
  load-Steady a (entry d) s h v =
      set_state_object-Steady env (new_object env a d) s (new_object-Live a d) v
  load-Steady a absent s h v = v
  load-Steady a garbled s h v = v
  load-Steady a (fault e) s h v = cc

  load-Live :
      (a : ℕ) (r : Read StoredAccount) (s : StateDb) (o : StateObject)
      → (load env a r s).0 ≡ some o
      → Live env o
  load-Live a (entry d) s o h =
      let same : new_object env a d ≡ o = cc in subst (Live env) same (new_object-Live a d)
  load-Live a absent s o h = cc
  load-Live a garbled s o h = cc
  load-Live a (fault e) s o h = cc

  pub get_state_object-Steady :
      (a : ℕ) (s : StateDb) → Steady env s → Steady env (get_state_object env a s).1
  unfolding get_state_object
  get_state_object-Steady a s v = elim (Option-cases (lookup a s.state_objects)) [
    | inl miss ↦ rw (miss, get_state_object) (load-Steady a (s.trie a) s (v.readable a) v)
    | inr (o, hit) ↦
        rw (hit, get_state_object) (elim (Bool-cases o.deleted) [ inl e ↦ rw e v | inr e ↦ rw e v ])
  ]

  undeleted-Live :
      (b : Bool) (p o : StateObject) (s : StateDb)
      → Clean env p
      → p.deleted ≡ b
      → (let r : Option StateObject × StateDb = (if b then (none, s) else (some p, s)) in r.0)
        ≡ some o
      → Live env o
  undeleted-Live true p o s k e h = cc
  undeleted-Live false p o s k e h = let same : p ≡ o = cc in subst (Live env) same (k.alive, e)

  pub found-Live :
      (a : ℕ) (s : StateDb) (o : StateObject)
      → Steady env s
      → (get_state_object env a s).0 ≡ some o
      → Live env o
  unfolding get_state_object
  found-Live a s o v h = elim (Option-cases (lookup a s.state_objects)) [
    | inl miss ↦ load-Live a (s.trie a) s o (rw (miss, get_state_object) at h)
    | inr (p, hit) ↦
        undeleted-Live p.deleted p o s (v.clean a p hit) refl (rw (hit, get_state_object) at h)
  ]

  install-Steady :
      (a : ℕ) (r : Option StateObject) (s : StateDb) → Steady env s → Steady env (install env a r s)
  install-Steady a none s v =
      save-Steady env (new_object env a blank) _ (new_object-Live a blank)
        (record_entry-Steady env _ s v)
  install-Steady a (some p) s v =
      save-Steady env (new_object env a blank) _ (new_object-Live a blank)
        (record_entry-Steady env _ s v)

  create_object-Steady : (a : ℕ) (s : StateDb) → Steady env s → Steady env (create_object env a s).1
  unfolding create_object
  create_object-Steady a s v =
      install-Steady a (get_state_object env a s).0 _ (get_state_object-Steady a s v)

  created-Live : (a : ℕ) → Live env (created env a)
  unfolding new_object
  created-Live a = (refl, refl)

  -- An object that can be written, in a steady state.
  abbrev pub Given : StateObject × StateDb → Type 0
  Given (o, t) = Live env o × Steady env t

  pub get_or_new-Given :
      (a : ℕ) (s : StateDb) → Steady env s → Given (get_or_new_state_object env a s)
  unfolding get_or_new_state_object
  get_or_new-Given a s v = elim (Option-cases (get_state_object env a s).0) [
    | inl e ↦
        rw (e, get_or_new_state_object)
          (created-Live a, create_object-Steady a _ (get_state_object-Steady a s v))
    | inr (o, e) ↦
        rw (e, get_or_new_state_object) (found-Live a s o v e, get_state_object-Steady a s v)
  ]

  pub create_account-Steady :
      (a : ℕ) (s : StateDb) → Steady env s → Steady env (Db.create_account env a s)
  unfolding Db.create_account create_object assign_balance
  create_account-Steady a s v = elim (Option-cases (get_state_object env a s).0) [
    | inl e ↦ rw (e, Db.create_account) (create_object-Steady a s v)
    | inr (o, e) ↦
        rw (e, Db.create_account)
          (save-Steady env _ _ (created-Live a) (create_object-Steady a s v))
  ]

  set_balance-Steady :
      (x : ℤ) (o : StateObject) (s : StateDb)
      → Live env o
      → Steady env s
      → Steady env (Object.set_balance x o s)
  unfolding Object.set_balance assign_balance
  set_balance-Steady x o s k v = save-Steady env _ _ k (record_entry-Steady env _ s v)

  pub set_nonce-Steady :
      (n : ℕ) (o : StateObject) (s : StateDb)
      → Live env o
      → Steady env s
      → Steady env (Object.set_nonce n o s)
  unfolding Object.set_nonce assign_nonce
  set_nonce-Steady n o s k v = save-Steady env _ _ k (record_entry-Steady env _ s v)

  touch-Steady :
      (o : StateObject) (s : StateDb) → Live env o → Steady env s → Steady env (Object.touch o s)
  unfolding Object.touch
  touch-Steady o s k v = save-Steady env _ _ k (record_entry-Steady env _ s v)

  pub add_balance-Steady :
      (x : ℤ) (o : StateObject) (s : StateDb)
      → Live env o
      → Steady env s
      → Steady env (Object.add_balance env x o s)
  unfolding Object.add_balance
  add_balance-Steady x o s k v = elim (Bool-cases (is_zero x)) [
    | inl z ↦ rw z (elim (Bool-cases (is_empty env o)) [
      | inl e ↦ rw e (touch-Steady o s k v)
      | inr e ↦ rw e v
    ])
    | inr z ↦ rw z (set_balance-Steady _ o s k v)
  ]

  pub sub_balance-Steady :
      (x : ℤ) (o : StateObject) (s : StateDb)
      → Live env o
      → Steady env s
      → Steady env (Object.sub_balance x o s)
  unfolding Object.sub_balance
  sub_balance-Steady x o s k v = elim (Bool-cases (is_zero x)) [
    | inl z ↦ rw z v
    | inr z ↦ rw z (set_balance-Steady _ o s k v)
  ]
