-- ===== src/State/Undo.antt =====
-- The code of core/state/journal.go does to the abstract state what `undo_view` says.
use mjoy_go.Base.{
  ℕ, ◌+◌, ◌-◌, ◌%◌, u64_mod, Map, ◌≡◌, refl, fun_ext, Bool, true, false, ◌&&◌, not, Option, none,
  some, List, [], ◌∷◌, lookup, insert, erase, get_or, lookup-insert, lookup-erase, arith, ◌==◌,
  ==_cases, ==_self, if◌then◌else◌, Bool-cases, inl, inr, ap, ◌∙◌,
}
use mathlib.Core.Option
use mjoy_go.Base.Int.{ℤ}
use mjoy_go.State.Types.{
  Env, StateObject, JournalEntry, create_object_change, reset_object_change, suicide_change,
  balance_change, nonce_change, storage_change, code_change, refund_change, add_log_change,
  add_preimage_change, touch_change, Log, StateDb,
}
use mjoy_go.State.Object.{
  save, set_state_object, assign_balance, assign_nonce, assign_code, assign_state,
}
use mjoy_go.State.Db.{get_state_object}
use mjoy_go.State.Journal.{ripemd, on_object, forget_dirty, pop_log, undo}
use mjoy_go.State.View.{View, view, look_entry, look_trie, abstract}
use mjoy_go.State.Spec.{
  put, rewrite, without_newest, with_balance, with_nonce, with_slot, with_code, undo_view,
  abstract-save, abstract-set, look_object-live, abstract-get_state_object, get_state_object-Found,
}

module _ (env : Env) where
  -- A write through the pointer of a live object changes the view at its address.
  abbrev Shows : (StateObject → StateDb → StateDb) → (View → View) → Type 0
  Shows f g =
      (o : StateObject) (s : StateDb)
      → o.deleted ≡ false
      → abstract env (f o s) ≡ put o.address (some (g (view env o))) (abstract env s)

  on_object-rewrite :
      (a : ℕ) (f : StateObject → StateDb → StateDb) (g : View → View)
      → Shows f g
      → (s : StateDb)
      → Option.map (abstract env) (on_object env a f s) ≡ rewrite a g (abstract env s)
  on_object-rewrite a f g shows s = elim (get_state_object-Found env a s) [
    | inl (missing, unseen) ↦ rw (missing, on_object) (rw (unseen, rewrite))
    | inr (o, found, live, seen, _) ↦
        rw (found, on_object)
          (rw (seen, rewrite)
            (ap some (
              shows o (get_state_object env a s).1 live
              ∙ ap (put o.address (some (g (view env o)))) (abstract-get_state_object env a s))))
  ]

  -- A write that leaves the object live and at its address shows the object's new view.
  save-Shows :
      (f : StateObject → StateObject) (g : View → View)
      → ((o : StateObject) → (f o).address ≡ o.address)
      → ((o : StateObject) → (f o).deleted ≡ o.deleted)
      → ((o : StateObject) → view env (f o) ≡ g (view env o))
      → Shows (λ o s. save (f o) s) g
  save-Shows f g stays lives seen o s live = abstract-save env (f o) s ∙ λ i.
      put (stays o i) ((look_object-live env (f o) (lives o ∙ live) ∙ ap some (seen o)) i)
        (abstract env s)

  balance-Shows : (x : ℤ) → Shows (λ o s. save (assign_balance x o) s) (with_balance x)
  unfolding assign_balance
  balance-Shows x =
      save-Shows (assign_balance x) (with_balance x) (λ o. refl) (λ o. refl) (λ o. refl)

  nonce-Shows : (n : ℕ) → Shows (λ o s. save (assign_nonce n o) s) (with_nonce n)
  unfolding assign_nonce
  nonce-Shows n = save-Shows (assign_nonce n) (with_nonce n) (λ o. refl) (λ o. refl) (λ o. refl)

  code-Shows :
      (h : ℕ) (c : Option (List ℕ)) → Shows (λ o s. save (assign_code h c o) s) (with_code env h c)
  unfolding assign_code
  code-Shows h c =
      save-Shows (assign_code h c) (with_code env h c) (λ o. refl) (λ o. refl) (λ o. refl)

  slot-assign_state :
      (k x : ℕ) (o : StateObject) (j : ℕ)
      → (view env (assign_state k x o)).slot j ≡ (if k == j then x else (view env o).slot j)
  unfolding assign_state
  slot-assign_state k x o j = ground (arith, lookup-insert k j x o.cached_storage)

  pub view-assign_state :
      (k x : ℕ) (o : StateObject) → view env (assign_state k x o) ≡ with_slot k x (view env o)
  unfolding assign_state
  view-assign_state k x o = λ i. record (view env o) { slot = fun_ext (slot-assign_state k x o) i }

  state-Shows : (k x : ℕ) → Shows (λ o s. save (assign_state k x o) s) (with_slot k x)
  unfolding assign_state
  state-Shows k x =
      save-Shows (assign_state k x) (with_slot k x) (λ o. refl) (λ o. refl) (view-assign_state k x)

  abstract-forget_dirty :
      (b : Bool) (a : ℕ) (s : StateDb) → abstract env (forget_dirty b a s) ≡ abstract env s
  abstract-forget_dirty true a s = refl
  abstract-forget_dirty false a s = refl

  touch-Shows :
      (b p : Bool) (a : ℕ)
      → Shows (λ o s. forget_dirty b a (set_state_object (record o { touched = p }) s)) (λ v. v)
  touch-Shows b p a o s live =
      abstract-forget_dirty b a (set_state_object (record o { touched = p }) s)
      ∙ abstract-set env (record o { touched = p }) s
      ∙ ap (λ v. put o.address v (abstract env s)) (look_object-live env o live)

  suicide-Shows :
      (x : ℤ) (p : Bool)
      → Shows
          (λ o s. save (assign_balance x (record o { suicided = p })) s)
          (λ v. record (with_balance x v) { suicided = p })
  unfolding assign_balance
  suicide-Shows x p =
      save-Shows (λ o. assign_balance x (record o { suicided = p }))
        (λ v. record (with_balance x v) { suicided = p }) (λ o. refl) (λ o. refl) (λ o. refl)

  abstract-erase :
      (a : ℕ) (s : StateDb)
      → Option.map (abstract env) (undo env (create_object_change a) s)
        ≡ undo_view env (create_object_change a) (abstract env s)
  unfolding undo
  abstract-erase a s = λ i. some (record (abstract env s) { look = fun_ext look i })
    where
      look :
          (b : ℕ)
          → look_entry env (lookup b (erase a s.state_objects)) (look_trie env b (s.trie b))
            ≡ (if a == b then look_trie env a (s.trie a) else (abstract env s).look b)
      look b = elim (==_cases a b) [
        | inl e ↦ rw (← e, lookup-erase a a s.state_objects, ==_self a)
        | inr e ↦ rw (lookup-erase a b s.state_objects, e)
      ]

  logs-erase :
      (h j : ℕ) (m : Map (List Log))
      → get_or [] (lookup j (erase h m)) ≡ (if h == j then [] else get_or [] (lookup j m))
  logs-erase h j m = rw (lookup-erase h j m) (ground arith)

  pub logs-insert :
      (h j : ℕ) (ls : List Log) (m : Map (List Log))
      → get_or [] (lookup j (insert h ls m)) ≡ (if h == j then ls else get_or [] (lookup j m))
  logs-insert h j ls m = rw (lookup-insert h j ls m) (ground arith)

  abstract-pop_log :
      (h : ℕ) (m : Option (List Log)) (s : StateDb)
      → Option.map (abstract env) (pop_log h m s) ≡ without_newest h (get_or [] m) (abstract env s)
  abstract-pop_log h none s = refl
  abstract-pop_log h (some []) s = refl
  abstract-pop_log h (some (l ∷ [])) s = λ i. some (record (abstract env s) {
    logs = fun_ext (λ j. logs-erase h j s.logs) i;
    log_size = (s.log_size + u64_mod - 1) % u64_mod;
  })
  abstract-pop_log h (some (l ∷ k ∷ ls)) s = λ i. some (record (abstract env s) {
    logs = fun_ext (λ j. logs-insert h j (k ∷ ls) s.logs) i;
    log_size = (s.log_size + u64_mod - 1) % u64_mod;
  })

  abstract-suicide :
      (a : ℕ) (p : Bool) (x : ℤ) (s : StateDb)
      → Option.map (abstract env) (undo env (suicide_change a p x) s)
        ≡ undo_view env (suicide_change a p x) (abstract env s)
  unfolding undo
  abstract-suicide a p x s = elim (get_state_object-Found env a s) [
    | inl (missing, unseen) ↦
        rw (missing, undo) (rw (unseen, rewrite) (ap some (abstract-get_state_object env a s)))
    | inr (o, found, live, seen, _) ↦
        rw (found, undo)
          (rw (seen, rewrite)
            (ap some (
              suicide-Shows x p o (get_state_object env a s).1 live
              ∙ ap (put o.address (some (record (with_balance x (view env o)) { suicided = p })))
                  (abstract-get_state_object env a s))))
  ]

  -- Each `undo` method does to what the state shows, whatever objects happen to be cached, exactly
  -- what its entry says of the table of accounts, and it panics exactly where the table has no
  -- account or no log to change.
  pub undo-undo_view :
      (e : JournalEntry) (s : StateDb)
      → Option.map (abstract env) (undo env e s) ≡ undo_view env e (abstract env s)
  unfolding undo
  undo-undo_view (create_object_change a) s = abstract-erase a s
  undo-undo_view (reset_object_change prev) s = ap some (abstract-set env prev s)
  undo-undo_view (suicide_change a p x) s = abstract-suicide a p x s
  undo-undo_view (balance_change a x) s =
      on_object-rewrite a (λ o s'. save (assign_balance x o) s') (with_balance x) (balance-Shows x)
        s
  undo-undo_view (nonce_change a n) s =
      on_object-rewrite a (λ o s'. save (assign_nonce n o) s') (with_nonce n) (nonce-Shows n) s
  undo-undo_view (storage_change a k x) s =
      on_object-rewrite a (λ o s'. save (assign_state k x o) s') (with_slot k x) (state-Shows k x) s
  undo-undo_view (code_change a c h) s =
      on_object-rewrite a (λ o s'. save (assign_code h c o) s') (with_code env h c) (code-Shows h c)
        s
  undo-undo_view (refund_change r) s = refl
  undo-undo_view (add_log_change h) s = abstract-pop_log h (lookup h s.logs) s
  undo-undo_view (add_preimage_change h) s = λ i.
      some (record (abstract env s) { preimages = fun_ext (λ j. lookup-erase h j s.preimages) i })
  undo-undo_view (touch_change a p d) s = elim (Bool-cases (not p && not (a == ripemd))) [
    | inl e ↦
        rw (e, undo)
          (on_object-rewrite a
            (λ o s'. forget_dirty d a (set_state_object (record o { touched = p }) s')) (λ v. v)
            (touch-Shows d p a) s)
    | inr e ↦ rw (e, undo)
  ]
