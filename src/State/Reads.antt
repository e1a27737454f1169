-- ===== src/State/Reads.antt =====
-- The getters that only cache what they read (core/state/statedb.go) can be undone by nothing.
use mjoy_go.Base.{ℕ, ◌≡◌, refl, true, false, some, [], arith, inl, inr, ap, ◌∙◌}
use mjoy_go.State.Types.{Env, StateObject, StateDb}
use mjoy_go.State.Object
use mjoy_go.State.Object.{set_state_object, get_trie}
use mjoy_go.State.Db
use mjoy_go.State.Db.{get_state_object}
use mjoy_go.State.View.{View, view, abstract, view-get_code, view-get_state}
use mjoy_go.State.Spec.{
  put, look_object-live, abstract-set, get_state_object-Found, put-look, abstract-get_state_object,
}
use mjoy_go.State.Valid.{IsValid, set_state_object-IsValid, get_state_object-IsValid}
use mjoy_go.State.Undoable.{IsUndoable, IsUndoable-trans}
use mjoy_go.State.Objects.{get_state_object-IsUndoable}

module _ (env : Env) where
  -- An object with more in its caches, in the place of the object.
  cached-IsUndoable :
      (o o' : StateObject) (s : StateDb)
      → IsValid env s
      → (abstract env s).look o.address ≡ some (view env o)
      → view env o' ≡ view env o
      → o'.deleted ≡ false
      → IsUndoable env s (set_state_object o' s)
  cached-IsUndoable o o' s v seen same live = record {
    entries = [];
    live = tt;
    recorded = refl;
    undone = ap some (
        abstract-set env o' s
        ∙ (λ i. put (address i) ((look_object-live env o' live ∙ ap some same) i) (abstract env s))
        ∙ put-look env o.address (abstract env s) seen);
    revisions = refl;
    next_id = refl;
    valid = set_state_object-IsValid env o' s v (λ (gone : o'.deleted ≡ true). cc);
  }
    where
      address : o'.address ≡ o.address
      address = ap (λ (w : View). w.address) same

  get_state-live : (k : ℕ) (o : StateObject) → (Object.get_state env k o).1.deleted ≡ o.deleted
  unfolding Object.get_state get_trie
  get_state-live k o = ground arith

  get_code-live : (o : StateObject) → (Object.get_code env o).1.deleted ≡ o.deleted
  unfolding Object.get_code
  get_code-live o = ground arith

  found-seen :
      (a : ℕ) (o : StateObject) (s : StateDb)
      → o.address ≡ a
      → (abstract env s).look a ≡ some (view env o)
      → (abstract env (get_state_object env a s).1).look o.address ≡ some (view env o)
  found-seen a o s at seen = (λ i. (abstract-get_state_object env a s i).look (at i)) ∙ seen

  pub get_state-IsUndoable :
      (a k : ℕ) (s : StateDb) → IsValid env s → IsUndoable env s (Db.get_state env a k s).1
  unfolding Db.get_state
  get_state-IsUndoable a k s v = elim (get_state_object-Found env a s) [
    | inl (e, _) ↦ rw (e, Db.get_state) (get_state_object-IsUndoable env a s v)
    | inr (o, e, live, seen, here) ↦
        let valid = get_state_object-IsValid env a s v in
        rw (e, Db.get_state)
          (IsUndoable-trans env (get_state_object-IsUndoable env a s v) (
            cached-IsUndoable o (Object.get_state env k o).1 (get_state_object env a s).1 valid
              (found-seen a o s (valid.placed a o here).0 seen) (view-get_state env k o)
              (get_state-live k o ∙ live)))
  ]

  pub get_code-IsUndoable :
      (a : ℕ) (s : StateDb) → IsValid env s → IsUndoable env s (Db.get_code env a s).1
  unfolding Db.get_code
  get_code-IsUndoable a s v = elim (get_state_object-Found env a s) [
    | inl (e, _) ↦ rw (e, Db.get_code) (get_state_object-IsUndoable env a s v)
    | inr (o, e, live, seen, here) ↦
        let valid = get_state_object-IsValid env a s v in
        rw (e, Db.get_code)
          (IsUndoable-trans env (get_state_object-IsUndoable env a s v) (
            cached-IsUndoable o (Object.get_code env o).1 (get_state_object env a s).1 valid
              (found-seen a o s (valid.placed a o here).0 seen) (view-get_code env o)
              (get_code-live o ∙ live)))
  ]
