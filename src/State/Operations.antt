-- ===== src/State/Operations.antt =====
-- Each operation of `StateDB` (core/state/statedb.go) can be undone.
use mjoy_go.Base.{
  ℕ, ◌+◌, ◌-◌, ◌%◌, ◌<◌, u64_mod, Map, ◌≡◌, refl, fun_ext, false, Option, none, some, List, [], ◌∷◌,
  lookup, insert, get_or, lookup-insert, lookup-insert_self, arith, ◌==◌, ==_cases, ==_self,
  if◌then◌else◌, Option-cases, inl, inr, ap, ◌∙◌, sym,
}
use mjoy_go.Base.Int.{ℤ}
use mjoy_go.State.Types.{
  Env, StateObject, reset_object_change, add_log_change, add_preimage_change, Log, StateDb,
}
use mjoy_go.State.Object.{save, record_entry, assign_balance, new_object}
use mjoy_go.State.Db
use mjoy_go.State.Db.{
  blank, install, created, get_state_object, create_object, get_or_new_state_object,
}
use mjoy_go.State.View.{view, look_object, abstract}
use mjoy_go.State.Spec.{put, abstract-save, put-look, without_newest}
use mjoy_go.State.Valid.{IsValid, save-IsValid, get_state_object-IsValid}
use mjoy_go.State.Undoable.{IsUndoable, IsUndoable-refl, IsUndoable-trans, Holds, undo_one, put-put}
use mjoy_go.State.Objects.{
  get_state_object-IsUndoable, create_object-IsUndoable, get_or_new-IsUndoable, get_or_new-Holds,
  found-there,
}

module _ (env : Env) where
  -- A change of an object that `GetOrNewStateObject` gives.
  pub on_new-IsUndoable :
      (f : StateObject → StateDb → StateDb)
      → ((o : StateObject) (s : StateDb) → IsValid env s → Holds env o s → IsUndoable env s (f o s))
      → (a : ℕ) (s : StateDb) → IsValid env s
      → let (o, t) = get_or_new_state_object env a s in IsUndoable env s (f o t)
  on_new-IsUndoable f can a s v =
      let first = get_or_new-IsUndoable env a s v in
      IsUndoable-trans env first (
        can (get_or_new_state_object env a s).0 (get_or_new_state_object env a s).1 first.valid
          (get_or_new-Holds env a s v))

  -- The object that `createObject` installs, before its balance is set.
  pub set_created :
      (x : ℤ) (a : ℕ) (s : StateDb)
      → abstract env (save (assign_balance x (created env a)) s)
        ≡ put a (some (view env (assign_balance x (created env a)))) (abstract env s)
  unfolding assign_balance new_object
  set_created x a s = abstract-save env (assign_balance x (created env a)) s

  -- A new object over an old one, with another balance: undone by putting the old one back.
  replace-IsUndoable :
      (x : ℤ) (a : ℕ) (o : StateObject) (s : StateDb)
      → IsValid env s
      → (lookup a s.state_objects ≡ some o) × (o.deleted ≡ false)
      → IsUndoable env s (save (assign_balance x (created env a)) (install env a (some o) s))
  unfolding save new_object assign_balance
  replace-IsUndoable x a o s v (here, live) = record {
    entries = reset_object_change o ∷ [];
    live = (live, tt);
    recorded = refl;
    undone =
        undo_one env (reset_object_change o)
          (abstract env (save (assign_balance x (created env a)) (install env a (some o) s)))
          (ap some (
            (λ i.
              put ((v.placed a o here).0 i) (look_object env o)
                (set_created x a (install env a (some o) s) i))
            ∙ put-put env a _ _ (abstract env (install env a (some o) s))
            ∙ ap (put a (look_object env o)) (
                abstract-save env (new_object env a blank) (record_entry (reset_object_change o) s))
            ∙ put-put env a _ _ (abstract env s)
            ∙ put-look env a (abstract env s) (rw here)));
    revisions = refl;
    next_id = refl;
    valid =
        save-IsValid env (assign_balance x (created env a)) (install env a (some o) s)
          (save-IsValid env (new_object env a blank) (record_entry (reset_object_change o) s)
            (record { placed = v.placed; bounded = v.bounded }) refl)
          refl;
  }

  pub create_account-IsUndoable :
      (a : ℕ) (s : StateDb) → IsValid env s → IsUndoable env s (Db.create_account env a s)
  unfolding Db.create_account create_object
  create_account-IsUndoable a s v = elim (Option-cases (get_state_object env a s).0) [
    | inl e ↦ rw (e, Db.create_account) (create_object-IsUndoable env a s v)
    | inr (o, e) ↦
        rw (e, Db.create_account)
          (rw (e, create_object)
            (IsUndoable-trans env (get_state_object-IsUndoable env a s v) (
              replace-IsUndoable o.account.balance a o (get_state_object env a s).1
                (get_state_object-IsValid env a s v) (found-there env a s o e))))
  ]

  pub add_refund-IsUndoable :
      (x : ℕ) (s : StateDb) → IsValid env s → IsUndoable env s (Db.add_refund x s)
  unfolding Db.add_refund
  add_refund-IsUndoable x s v = record {
    entries = _ ∷ [];
    live = (tt, tt);
    recorded = refl;
    undone = refl;
    revisions = refl;
    next_id = refl;
    valid = record { placed = v.placed; bounded = v.bounded };
  }

  preimages-back :
      (h : ℕ) (p : List ℕ) (m : Map (List ℕ)) (j : ℕ)
      → lookup h m ≡ none
      → (if h == j then none else lookup j (insert h p m)) ≡ lookup j m
  preimages-back h p m j e = elim (==_cases h j) [
    | inl same ↦ rw (← same, ==_self h) (sym e)
    | inr other ↦ rw (other, lookup-insert h j p m) (rw other)
  ]

  pub add_preimage-IsUndoable :
      (h : ℕ) (p : List ℕ) (s : StateDb) → IsValid env s → IsUndoable env s (Db.add_preimage h p s)
  unfolding Db.add_preimage
  add_preimage-IsUndoable h p s v = elim (Option-cases (lookup h s.preimages)) [
    | inr (q, e) ↦ rw (e, Db.add_preimage) (IsUndoable-refl env s v)
    | inl e ↦
        rw (e, Db.add_preimage)
          (record {
            entries = add_preimage_change h ∷ [];
            live = (tt, tt);
            recorded = refl;
            undone = λ i. some (record (abstract env s) {
              preimages = fun_ext (λ j. preimages-back h p s.preimages j e) i;
            });
            revisions = refl;
            next_id = refl;
            valid = record { placed = v.placed; bounded = v.bounded };
          })
  ]

  logs-back :
      (h : ℕ) (l : Log) (m : Map (List Log)) (j : ℕ)
      → (if h == j
          then get_or [] (lookup h m)
          else get_or [] (lookup j (insert h (l ∷ get_or [] (lookup h m)) m)))
        ≡ get_or [] (lookup j m)
  logs-back h l m j = elim (==_cases h j) [
    | inl same ↦ rw (← same, ==_self h)
    | inr other ↦ rw (other, lookup-insert h j (l ∷ get_or [] (lookup h m)) m) (rw other)
  ]

  wrap-back : (n : ℕ) → n < u64_mod → ((n + 1) % u64_mod + u64_mod - 1) % u64_mod ≡ n
  wrap-back n h = omega arith

  pub add_log-IsUndoable : (c : ℕ) (s : StateDb) → IsValid env s → IsUndoable env s (Db.add_log c s)
  unfolding Db.add_log
  add_log-IsUndoable c s v = record {
    entries = add_log_change s.thash ∷ [];
    live = (tt, tt);
    recorded = refl;
    undone = undo_one env (add_log_change s.thash) (abstract env (Db.add_log c s)) (
        ap
          (λ (m : Option (List Log)).
            without_newest s.thash (get_or [] m) (abstract env (Db.add_log c s)))
          (lookup-insert_self s.thash _ s.logs)
        ∙ λ i. some (record (abstract env s) {
          logs = fun_ext (logs-back s.thash (Db.stamp c s) s.logs) i;
          log_size = wrap-back s.log_size v.bounded i;
        }));
    revisions = refl;
    next_id = refl;
    valid = record { placed = v.placed; bounded = omega arith };
  }
