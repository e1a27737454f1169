-- ===== src/State/Effects.antt =====
-- What the operations of `StateDB` (core/state/statedb.go) do to the abstract state, forwards.
use mjoy_go.Base.{
  ℕ, ◌≡◌, refl, true, Option, none, some, List, get_or, if◌then◌else◌, Bool-cases, inl, inr, ap,
  ◌∙◌, sym,
}
use mjoy_go.Base.Int.{ℤ, pos, is_zero, ◌+ℤ◌, ◌-ℤ◌}
use mjoy_go.State.Types.{Env, StateObject, JournalEntry, StateDb}
use mjoy_go.State.Object.{
  save, record_entry, assign_balance, assign_nonce, assign_code, assign_state, set_balance,
  set_nonce, set_code, set_state, touch, add_balance, sub_balance, suicide_object, get_code,
  get_state, is_empty, new_object,
}
use mjoy_go.State.Db.{
  created, install, blank, get_state_object, create_object, get_or_new_state_object,
}
use mjoy_go.State.View.{View, Abstract, view, abstract, view-get_code, view-get_state}
use mjoy_go.State.Spec.{
  put, with_balance, with_nonce, with_slot, with_code, abstract-save, abstract-get_state_object,
  get_state_object-Found, look_object-live, put-look,
}
use mjoy_go.State.Undo.{view-assign_state}
use mjoy_go.State.Valid.{IsValid, get_state_object-IsValid}
use mjoy_go.State.Undoable.{Holds, look-Holds, put-put}
use mjoy_go.State.Setters.{get_code-deleted, get_state-deleted}
use mjoy_go.State.Objects.{get_or_new-Holds}

module _ (env : Env) where
  -- The account that `createObject` makes.
  abbrev pub fresh : ℕ → View
  fresh a = view env (created env a)

  -- The account at an address, or a fresh one.
  abbrev pub account_at : ℕ → Abstract → View
  account_at a A = get_or (fresh a) (A.look a)

  -- A setter changes one account, by `g`.
  abbrev pub Changes : (StateObject → StateDb → StateDb) → (View → View) → Type 0
  Changes f g =
      (o : StateObject) (s : StateDb)
      → Holds env o s
      → abstract env (f o s) ≡ put o.address (some (g (view env o))) (abstract env s)

  abstract-install :
      (a : ℕ) (prev : Option StateObject) (s : StateDb)
      → abstract env (install env a prev s) ≡ put a (some (fresh a)) (abstract env s)
  unfolding new_object
  abstract-install a none s = abstract-save env (new_object env a blank) (record_entry _ s)
  abstract-install a (some prev) s = abstract-save env (new_object env a blank) (record_entry _ s)

  pub abstract-create :
      (a : ℕ) (s : StateDb)
      → abstract env (create_object env a s).1 ≡ put a (some (fresh a)) (abstract env s)
  unfolding create_object
  abstract-create a s =
      abstract-install a (get_state_object env a s).0 (get_state_object env a s).1
      ∙ ap (put a (some (fresh a))) (abstract-get_state_object env a s)

  -- What `GetOrNewStateObject` gives, and leaves behind.
  get_or_new-account_at :
      (a : ℕ) (s : StateDb)
      → IsValid env s
      → let (o, t) = get_or_new_state_object env a s in
        (o.address ≡ a)
        × (view env o ≡ account_at a (abstract env s))
        × (abstract env t ≡ put a (some (account_at a (abstract env s))) (abstract env s))
  unfolding get_or_new_state_object new_object
  get_or_new-account_at a s v = elim (get_state_object-Found env a s) [
    | inl (e, unseen) ↦
        rw (e, get_or_new_state_object)
          (
            refl,
            sym (ap (get_or (fresh a)) unseen),
            abstract-create a (get_state_object env a s).1
                ∙ ap (put a (some (fresh a))) (abstract-get_state_object env a s)
                ∙ ap (λ w. put a (some w) (abstract env s)) (sym (ap (get_or (fresh a)) unseen)),
          )
    | inr (o, e, live, seen, here) ↦
        rw (e, get_or_new_state_object)
          (
            ((get_state_object-IsValid env a s v).placed a o here).0,
            sym (ap (get_or (fresh a)) seen),
            abstract-get_state_object env a s
                ∙ sym (
                    put-look env a (abstract env s)
                      (seen ∙ ap some (sym (ap (get_or (fresh a)) seen)))),
          )
  ]

  -- A setter after `GetOrNewStateObject` changes the account at the address, existing or fresh.
  pub on_new-Changes :
      (f : StateObject → StateDb → StateDb) (g : View → View)
      → Changes f g
      → (a : ℕ) (s : StateDb) → IsValid env s
      → let (o, t) = get_or_new_state_object env a s in
        abstract env (f o t) ≡ put a (some (g (account_at a (abstract env s)))) (abstract env s)
  on_new-Changes f g does a s v =
      let (at, seen, after) = get_or_new-account_at a s v in
      does (get_or_new_state_object env a s).0 (get_or_new_state_object env a s).1
        (get_or_new-Holds env a s v)
      ∙ (λ i. put (at i) (some (g (seen i))) (after i))
      ∙ put-put env a _ _ (abstract env s)

  save-Changes :
      (f : StateObject → StateObject) (e : StateObject → JournalEntry) (g : View → View)
      → ((o : StateObject) → (f o).address ≡ o.address)
      → ((o : StateObject) → (f o).deleted ≡ o.deleted)
      → ((o : StateObject) → view env (f o) ≡ g (view env o))
      → Changes (λ o s. save (f o) (record_entry (e o) s)) g
  save-Changes f e g stays lives seen o s (here, live) =
      abstract-save env (f o) (record_entry (e o) s) ∙ λ i.
      put (stays o i) ((look_object-live env (f o) (lives o ∙ live) ∙ ap some (seen o)) i)
        (abstract env s)

  pub set_balance-Changes : (x : ℤ) → Changes (set_balance x) (with_balance x)
  unfolding set_balance assign_balance
  set_balance-Changes x =
      save-Changes (assign_balance x) _ (with_balance x) (λ o. refl) (λ o. refl) (λ o. refl)

  pub set_nonce-Changes : (n : ℕ) → Changes (set_nonce n) (with_nonce n)
  unfolding set_nonce assign_nonce
  set_nonce-Changes n =
      save-Changes (assign_nonce n) _ (with_nonce n) (λ o. refl) (λ o. refl) (λ o. refl)

  pub set_state-Changes : (k x : ℕ) → Changes (set_state env k x) (with_slot k x)
  unfolding set_state assign_state
  set_state-Changes k x =
      save-Changes (λ o. assign_state k x (get_state env k o).1) _ (with_slot k x)
        (λ o. ap (λ (w : View). w.address) (view-get_state env k o)) (get_state-deleted env k)
        (λ o.
          view-assign_state env k x (get_state env k o).1
          ∙ ap (with_slot k x) (view-get_state env k o))

  pub set_code-Changes :
      (h : ℕ) (c : Option (List ℕ)) → Changes (set_code env h c) (with_code env h c)
  unfolding set_code assign_code
  set_code-Changes h c =
      save-Changes (λ o. assign_code h c (get_code env o).1) _ (with_code env h c)
        (λ o. ap (λ (w : View). w.address) (view-get_code env o)) (get_code-deleted env)
        (λ o. ap (with_code env h c) (view-get_code env o))

  touch-Changes : Changes touch (λ w. w)
  unfolding touch
  touch-Changes =
      save-Changes (λ o. record o { touched = true }) _ (λ w. w) (λ o. refl) (λ o. refl) (λ o. refl)

  -- An amount of zero leaves the balance alone.
  abbrev pub plus : ℤ → View → View
  plus x w = if is_zero x then w else with_balance (w.account.balance +ℤ x) w

  abbrev pub minus : ℤ → View → View
  minus x w = if is_zero x then w else with_balance (w.account.balance -ℤ x) w

  pub add_balance-Changes : (x : ℤ) → Changes (add_balance env x) (plus x)
  unfolding add_balance
  add_balance-Changes x o s h = elim (Bool-cases (is_zero x)) [
    | inl z ↦ elim (Bool-cases (is_empty env o)) [
      | inl e ↦ rw (z, add_balance) (rw e (touch-Changes o s h))
      | inr e ↦
          rw (z, add_balance)
            (rw e (sym (put-look env o.address (abstract env s) (look-Holds env o s h))))
    ]
    | inr z ↦ rw (z, add_balance) (set_balance-Changes (o.account.balance +ℤ x) o s h)
  ]

  pub sub_balance-Changes : (x : ℤ) → Changes (sub_balance x) (minus x)
  unfolding sub_balance
  sub_balance-Changes x o s h = elim (Bool-cases (is_zero x)) [
    | inl z ↦
        rw (z, sub_balance) (sym (put-look env o.address (abstract env s) (look-Holds env o s h)))
    | inr z ↦ rw (z, sub_balance) (set_balance-Changes (o.account.balance -ℤ x) o s h)
  ]

  pub suicide_object-Changes :
      Changes suicide_object (λ w. record (with_balance (pos 0) w) { suicided = true })
  unfolding suicide_object assign_balance
  suicide_object-Changes =
      save-Changes (λ o. assign_balance (pos 0) (record o { suicided = true })) _
        (λ w. record (with_balance (pos 0) w) { suicided = true }) (λ o. refl) (λ o. refl)
        (λ o. refl)
