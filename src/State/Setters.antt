-- ===== src/State/Setters.antt =====
-- The setters of core/state/state_object.go leave entries by which they are undone.
use mjoy_go.Base.{
  ℕ, ◌≡◌, refl, fun_ext, true, not, ◌&&◌, Option, some, List, arith, ◌==◌, ==_cases, ==_self,
  if◌then◌else◌, Bool-cases, inl, inr, ap, ◌∙◌,
}
use mjoy_go.Base.Int.{ℤ, pos, is_zero, ◌+ℤ◌, ◌-ℤ◌}
use mjoy_go.State.Types.{
  Env, StateObject, suicide_change, balance_change, nonce_change, storage_change, code_change,
  touch_change, StateDb,
}
use mjoy_go.State.Object.{
  assign_balance, assign_nonce, assign_code, assign_state, set_balance, set_nonce, set_code,
  set_state, touch, add_balance, sub_balance, suicide_object, get_code, get_state, get_trie,
  is_empty,
}
use mjoy_go.State.Journal.{ripemd}
use mjoy_go.State.View.{
  View, view, abstract, code_of, view-get_code, view-get_state, get_code-view, get_state-view,
}
use mjoy_go.State.Spec.{
  lenient, with_balance, with_nonce, with_slot, with_code, undo_view, put-look,
}
use mjoy_go.State.Undo.{view-assign_state}
use mjoy_go.State.Valid.{IsValid}
use mjoy_go.State.Undoable.{
  IsUndoable, IsUndoable-refl, Holds, look-Holds, rewrite-put, save-IsUndoable, save-rewrite,
}

module _ (env : Env) where
  pub set_balance-IsUndoable :
      (x : ℤ) (o : StateObject) (s : StateDb)
      → IsValid env s
      → Holds env o s
      → IsUndoable env s (set_balance x o s)
  unfolding set_balance assign_balance
  set_balance-IsUndoable x o s v h =
      save-rewrite env o (assign_balance x o) (balance_change o.address o.account.balance)
        (with_balance o.account.balance) s v h tt refl refl (λ A. refl) refl

  pub set_nonce-IsUndoable :
      (n : ℕ) (o : StateObject) (s : StateDb)
      → IsValid env s
      → Holds env o s
      → IsUndoable env s (set_nonce n o s)
  unfolding set_nonce assign_nonce
  set_nonce-IsUndoable n o s v h =
      save-rewrite env o (assign_nonce n o) (nonce_change o.address o.account.nonce)
        (with_nonce o.account.nonce) s v h tt refl refl (λ A. refl) refl

  pub suicide_object-IsUndoable :
      (o : StateObject) (s : StateDb)
      → IsValid env s
      → Holds env o s
      → IsUndoable env s (suicide_object o s)
  unfolding suicide_object assign_balance
  suicide_object-IsUndoable o s v h =
      save-IsUndoable env (assign_balance (pos 0) (record o { suicided = true }))
        (suicide_change o.address o.suicided o.account.balance) s v h.1 tt
        (ap (lenient _) (
          rewrite-put env o.address
            (λ w. record (with_balance o.account.balance w) { suicided = o.suicided })
            (view env (assign_balance (pos 0) (record o { suicided = true }))) (abstract env s)
            (look-Holds env o s h) refl refl))

  touch-IsUndoable :
      (o : StateObject) (s : StateDb) → IsValid env s → Holds env o s → IsUndoable env s (touch o s)
  unfolding touch
  touch-IsUndoable o s v h =
      save-IsUndoable env (record o { touched = true })
        (touch_change o.address o.touched (not o.armed)) s v h.1 tt
        (elim (Bool-cases (not o.touched && not (o.address == ripemd))) [
          | inl e ↦
              rw (e, undo_view)
                (rewrite-put env o.address (λ w. w) (view env o) (abstract env s)
                  (look-Holds env o s h) refl refl)
          | inr e ↦
              rw (e, undo_view)
                (ap some (put-look env o.address (abstract env s) (look-Holds env o s h)))
        ])

  pub add_balance-IsUndoable :
      (x : ℤ) (o : StateObject) (s : StateDb)
      → IsValid env s
      → Holds env o s
      → IsUndoable env s (add_balance env x o s)
  unfolding add_balance
  add_balance-IsUndoable x o s v h = elim (Bool-cases (is_zero x)) [
    | inl z ↦ elim (Bool-cases (is_empty env o)) [
      | inl e ↦ rw (z, add_balance) (rw e (touch-IsUndoable o s v h))
      | inr e ↦ rw (z, add_balance) (rw e (IsUndoable-refl env s v))
    ]
    | inr z ↦ rw (z, add_balance) (set_balance-IsUndoable (o.account.balance +ℤ x) o s v h)
  ]

  pub sub_balance-IsUndoable :
      (x : ℤ) (o : StateObject) (s : StateDb)
      → IsValid env s
      → Holds env o s
      → IsUndoable env s (sub_balance x o s)
  unfolding sub_balance
  sub_balance-IsUndoable x o s v h = elim (Bool-cases (is_zero x)) [
    | inl z ↦ rw (z, sub_balance) (IsUndoable-refl env s v)
    | inr z ↦ rw (z, sub_balance) (set_balance-IsUndoable (o.account.balance -ℤ x) o s v h)
  ]

  pub get_state-deleted : (k : ℕ) (o : StateObject) → (get_state env k o).1.deleted ≡ o.deleted
  unfolding get_state get_trie
  get_state-deleted k o = ground arith

  pub get_code-deleted : (o : StateObject) → (get_code env o).1.deleted ≡ o.deleted
  unfolding get_code
  get_code-deleted o = ground arith

  slot-back : (k x : ℕ) (w : View) → with_slot k (w.slot k) (with_slot k x w) ≡ w
  slot-back k x w = λ i. record w { slot = fun_ext same i }
    where
      same : (j : ℕ) → (if k == j then w.slot k else (if k == j then x else w.slot j)) ≡ w.slot j
      same j = elim (==_cases k j) [ inl e ↦ rw (← e, ==_self k) | inr e ↦ rw e ]

  pub set_state-IsUndoable :
      (k x : ℕ) (o : StateObject) (s : StateDb)
      → IsValid env s
      → Holds env o s
      → IsUndoable env s (set_state env k x o s)
  unfolding set_state assign_state
  set_state-IsUndoable k x o s v h =
      let o' : StateObject = (get_state env k o).1 in
      save-rewrite env o (assign_state k x o') (storage_change o.address k (get_state env k o).0)
        (with_slot k (get_state env k o).0) s v h tt (get_state-deleted k o)
        (ap (λ (w : View). w.address) (view-get_state env k o)) (λ A. refl)
        ((λ i.
            with_slot k (get_state-view env k o i)
              ((view-assign_state env k x o' ∙ ap (with_slot k x) (view-get_state env k o)) i))
          ∙ slot-back k x (view env o))

  code_of-code_of :
      (a h : ℕ) (c : Option (List ℕ)) → code_of env a h (code_of env a h c) ≡ code_of env a h c
  code_of-code_of a h c = ground arith

  code-back :
      (o : StateObject) (h : ℕ) (c : Option (List ℕ))
      → with_code env o.account.code_hash (view env o).code (with_code env h c (view env o))
        ≡ view env o
  code-back o h c =
      λ i. record (view env o) { code = code_of-code_of o.address o.account.code_hash o.code i }

  pub set_code-IsUndoable :
      (h : ℕ) (c : Option (List ℕ)) (o : StateObject) (s : StateDb)
      → IsValid env s
      → Holds env o s
      → IsUndoable env s (set_code env h c o s)
  unfolding set_code assign_code
  set_code-IsUndoable h c o s v held =
      let o' : StateObject = (get_code env o).1 in
      save-rewrite env o (assign_code h c o')
        (code_change o.address (get_code env o).0 o.account.code_hash)
        (with_code env o.account.code_hash (get_code env o).0) s v held tt (get_code-deleted o)
        (ap (λ (w : View). w.address) (view-get_code env o)) (λ A. refl)
        ((λ i.
            with_code env o.account.code_hash (get_code-view env o i)
              (with_code env h c (view-get_code env o i)))
          ∙ code-back o h c)
