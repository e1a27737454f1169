-- ===== src/State/Getters.antt =====
-- The getters of `StateDB` (core/state/statedb.go) read the table of accounts.
use mjoy_go.Base.{ℕ, ◌≡◌, Bool, true, false, Option, none, some, List, inl, inr, ap, ◌∙◌, sym}
use mjoy_go.State.Types.{Env, StateDb}
use mjoy_go.State.Db
use mjoy_go.State.Db.{get_state_object}
use mjoy_go.State.View.{View, abstract, get_code-view, get_state-view}
use mjoy_go.State.Spec.{get_state_object-Found}
use mjoy_go.State.Refinement.{carried}

-- What a client reads at an address, of an account or of none.
abbrev pub nonce_of : Option View → ℕ
nonce_of none = 0
nonce_of (some w) = w.account.nonce

abbrev pub slot_of : ℕ → Option View → ℕ
slot_of k none = 0
slot_of k (some w) = w.slot k

abbrev pub code_of : Option View → Option (List ℕ)
code_of none = none
code_of (some w) = w.code

abbrev pub suicided_of : Option View → Bool
suicided_of none = false
suicided_of (some w) = w.suicided

abbrev pub exists_of : Option View → Bool
exists_of none = false
exists_of (some w) = true

module _ (env : Env) where
  pub balance-view :
      (a : ℕ) (s : StateDb) → (Db.get_balance env a s).0 ≡ carried env ((abstract env s).look a)
  unfolding Db.get_balance
  balance-view a s = elim (get_state_object-Found env a s) [
    | inl (e, unseen) ↦ rw (e, Db.get_balance) (sym (ap (carried env) unseen))
    | inr (o, e, live, seen, here) ↦ rw (e, Db.get_balance) (sym (ap (carried env) seen))
  ]

  pub nonce-view :
      (a : ℕ) (s : StateDb) → (Db.get_nonce env a s).0 ≡ nonce_of ((abstract env s).look a)
  unfolding Db.get_nonce
  nonce-view a s = elim (get_state_object-Found env a s) [
    | inl (e, unseen) ↦ rw (e, Db.get_nonce) (sym (ap nonce_of unseen))
    | inr (o, e, live, seen, here) ↦ rw (e, Db.get_nonce) (sym (ap nonce_of seen))
  ]

  slot-view :
      (a k : ℕ) (s : StateDb) → (Db.get_state env a k s).0 ≡ slot_of k ((abstract env s).look a)
  unfolding Db.get_state
  slot-view a k s = elim (get_state_object-Found env a s) [
    | inl (e, unseen) ↦ rw (e, Db.get_state) (sym (ap (slot_of k) unseen))
    | inr (o, e, live, seen, here) ↦
        rw (e, Db.get_state) (get_state-view env k o ∙ sym (ap (slot_of k) seen))
  ]

  code-view : (a : ℕ) (s : StateDb) → (Db.get_code env a s).0 ≡ code_of ((abstract env s).look a)
  unfolding Db.get_code
  code-view a s = elim (get_state_object-Found env a s) [
    | inl (e, unseen) ↦ rw (e, Db.get_code) (sym (ap code_of unseen))
    | inr (o, e, live, seen, here) ↦
        rw (e, Db.get_code) (get_code-view env o ∙ sym (ap code_of seen))
  ]

  flags-view :
      (a : ℕ) (s : StateDb)
      → let v = (abstract env s).look a in
        ((Db.has_suicided env a s).0 ≡ suicided_of v) × ((Db.exist env a s).0 ≡ exists_of v)
  unfolding Db.has_suicided Db.exist
  flags-view a s = elim (get_state_object-Found env a s) [
    | inl (e, unseen) ↦ (
      rw (e, Db.has_suicided) (sym (ap suicided_of unseen)),
      rw (e, Db.exist) (sym (ap exists_of unseen)),
    )
    | inr (o, e, live, seen, here) ↦ (
      rw (e, Db.has_suicided) (sym (ap suicided_of seen)),
      rw (e, Db.exist) (sym (ap exists_of seen)),
    )
  ]

  -- `GetBalance`, `GetNonce`, `GetState`, `GetCode`, `HasSuicided` and `Exist` answer what the table
  -- of accounts shows at the address, be the account live, deleted, loaded from the trie by this
  -- very call, or missing.
  pub getters-view :
      (a k : ℕ) (s : StateDb)
      → let v = (abstract env s).look a in
        ((Db.get_balance env a s).0 ≡ carried env v)
        × ((Db.get_nonce env a s).0 ≡ nonce_of v)
        × ((Db.get_state env a k s).0 ≡ slot_of k v)
        × ((Db.get_code env a s).0 ≡ code_of v)
        × ((Db.has_suicided env a s).0 ≡ suicided_of v)
        × ((Db.exist env a s).0 ≡ exists_of v)
  getters-view a k s =
      let flags = flags-view a s in
      (balance-view a s, nonce-view a s, slot-view a k s, code-view a s, flags.0, flags.1)
