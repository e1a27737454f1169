-- ===== src/State/Objects.antt =====
-- To find, to load and to create objects (core/state/statedb.go) can be undone.
use mjoy_go.Base.{
  ℕ, ◌≡◌, refl, false, Option, none, some, [], lookup, lookup-insert_self, arith, Option-cases,
  Bool-cases, inl, inr, ap, ◌∙◌, sym,
}
use mjoy_go.State.Types.{Env, StateObject, create_object_change, reset_object_change, StateDb}
use mjoy_go.State.Object.{save, new_object}
use mjoy_go.State.Db.{
  blank, install, created, get_state_object, create_object, get_or_new_state_object,
}
use mjoy_go.State.View.{Abstract, view, look_object, abstract}
use mjoy_go.State.Spec.{
  put, abstract-get_state_object, get_state_object-Found, look_object-live, put-look,
}
use mjoy_go.State.Valid.{IsValid, get_state_object-IsValid}
use mjoy_go.State.Undoable.{IsUndoable, IsUndoable-trans, Holds, save-IsUndoable, put-put}

module _ (env : Env) where
  get_state_object-rest :
      (a : ℕ) (s : StateDb)
      → let t : StateDb = (get_state_object env a s).1 in
        (t.journal ≡ s.journal)
        × (t.valid_revisions ≡ s.valid_revisions)
        × (t.next_revision_id ≡ s.next_revision_id)
  unfolding get_state_object
  get_state_object-rest a s = ground arith

  pub get_state_object-IsUndoable :
      (a : ℕ) (s : StateDb) → IsValid env s → IsUndoable env s (get_state_object env a s).1
  get_state_object-IsUndoable a s v =
      let rest = get_state_object-rest a s in
      record {
        entries = [];
        live = tt;
        recorded = rest.0;
        undone = ap some (abstract-get_state_object env a s);
        revisions = rest.1;
        next_id = rest.2;
        valid = get_state_object-IsValid env a s v;
      }

  -- What is not seen is not in the trie either.
  base-none :
      (a : ℕ) (s : StateDb)
      → IsValid env s
      → (abstract env s).look a ≡ none
      → (abstract env s).base a ≡ none
  base-none a s v unseen = elim (Option-cases (lookup a s.state_objects)) [
    | inl miss ↦ rw miss at unseen
    | inr (o, hit) ↦ elim (Bool-cases o.deleted) [
      | inl gone ↦ (v.placed a o hit).1 gone
      | inr live ↦
          let seen : (abstract env s).look a ≡ some (view env o) =
            rw hit (look_object-live env o live) in
          cc
    ]
  ]

  pub found-Holds :
      (a : ℕ) (o : StateObject) (s : StateDb)
      → IsValid env s
      → lookup a s.state_objects ≡ some o
      → o.deleted ≡ false
      → Holds env o s
  found-Holds a o s v hit live =
      (ap (λ b. lookup b s.state_objects) (v.placed a o hit).0 ∙ hit, live)

  install-IsUndoable :
      (a : ℕ) (s : StateDb)
      → IsValid env s
      → (prev : Option StateObject) → (prev ≡ none → (abstract env s).look a ≡ none)
      → ((o : StateObject)
          → prev ≡ some o
          → (lookup a s.state_objects ≡ some o) × (o.deleted ≡ false))
      → IsUndoable env s (install env a prev s)
  unfolding new_object
  install-IsUndoable a s v none unseen seen =
      save-IsUndoable env (new_object env a blank) (create_object_change a) s v refl tt (
        ap some (
          put-put env a _ _ (abstract env s)
          ∙ put-look env a (abstract env s) (unseen refl ∙ sym (base-none a s v (unseen refl)))))
  install-IsUndoable a s v (some prev) unseen seen =
      let here = seen prev refl in
      save-IsUndoable env (new_object env a blank) (reset_object_change prev) s v refl (here.1) (
        ap some (
          (λ i.
            put ((v.placed a prev here.0).0 i) (look_object env prev)
              (put a (some (view env (new_object env a blank))) (abstract env s)))
          ∙ put-put env a _ _ (abstract env s)
          ∙ put-look env a (abstract env s) (rw (here.0))))

  install-Holds :
      (a : ℕ) (prev : Option StateObject) (s : StateDb)
      → Holds env (created env a) (install env a prev s)
  unfolding new_object save
  install-Holds a none s = (lookup-insert_self a (created env a) s.state_objects, refl)
  install-Holds a (some prev) s = (lookup-insert_self a (created env a) s.state_objects, refl)

  found-unseen :
      (a : ℕ) (s : StateDb)
      → (get_state_object env a s).0 ≡ none
      → (abstract env (get_state_object env a s).1).look a ≡ none
  found-unseen a s e = elim (get_state_object-Found env a s) [
    | inl (_, unseen) ↦ ap (λ (A : Abstract). A.look a) (abstract-get_state_object env a s) ∙ unseen
    | inr (o, found, _, _, _) ↦ cc
  ]

  pub found-there :
      (a : ℕ) (s : StateDb) (o : StateObject)
      → (get_state_object env a s).0 ≡ some o
      → (lookup a (get_state_object env a s).1.state_objects ≡ some o) × (o.deleted ≡ false)
  found-there a s o e = elim (get_state_object-Found env a s) [
    | inl (missing, _) ↦ cc
    | inr (p, found, live, _, here) ↦ let same : p ≡ o = cc in rw (← same) (here, live)
  ]

  pub create_object-IsUndoable :
      (a : ℕ) (s : StateDb) → IsValid env s → IsUndoable env s (create_object env a s).1
  unfolding create_object
  create_object-IsUndoable a s v = IsUndoable-trans env (get_state_object-IsUndoable a s v) (
      install-IsUndoable a (get_state_object env a s).1 (get_state_object-IsValid env a s v)
        (get_state_object env a s).0 (found-unseen a s) (found-there a s))

  create_object-Holds : (a : ℕ) (s : StateDb) → Holds env (created env a) (create_object env a s).1
  unfolding create_object
  create_object-Holds a s =
      install-Holds a (get_state_object env a s).0 (get_state_object env a s).1

  -- `GetOrNewStateObject` gives an object of the database.
  pub get_or_new-IsUndoable :
      (a : ℕ) (s : StateDb) → IsValid env s → IsUndoable env s (get_or_new_state_object env a s).1
  unfolding get_or_new_state_object
  get_or_new-IsUndoable a s v = elim (Option-cases (get_state_object env a s).0) [
    | inl e ↦
        rw (e, get_or_new_state_object)
          (IsUndoable-trans env (get_state_object-IsUndoable a s v) (
            create_object-IsUndoable a (get_state_object env a s).1
              (get_state_object-IsValid env a s v)))
    | inr (o, e) ↦ rw (e, get_or_new_state_object) (get_state_object-IsUndoable a s v)
  ]

  pub get_or_new-Holds :
      (a : ℕ) (s : StateDb)
      → IsValid env s
      → let (o, t) = get_or_new_state_object env a s in Holds env o t
  unfolding get_or_new_state_object
  get_or_new-Holds a s v = elim (get_state_object-Found env a s) [
    | inl (e, _) ↦
        rw (e, get_or_new_state_object) (create_object-Holds a (get_state_object env a s).1)
    | inr (o, e, live, _, here) ↦
        rw (e, get_or_new_state_object)
          (found-Holds a o (get_state_object env a s).1 (get_state_object-IsValid env a s v) here
            live)
  ]
