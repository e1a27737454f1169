-- ===== src/State/Managing.antt =====
-- What `ManagedState` answers from the state it is given (core/state/managed_state.go).
use mjoy_go.Base.{
  ℕ, ◌≡◌, refl, Bool, true, false, Option, none, some, [], lookup, if◌then◌else◌, ap, ◌∙◌, sym,
}
use mjoy_go.State.Types.{Env, StateDb}
use mjoy_go.State.View.{View, abstract}
use mjoy_go.State.Db
use mjoy_go.State.Final.{is_dirty, Cached}
use mjoy_go.State.Copies.{AllCoherent, Alike, copy-Alike}
use mjoy_go.State.Commit.{copy}
use mjoy_go.State.Getters.{nonce_of, nonce-view}
use mjoy_go.State.Managed.{
  ManagedState, has_account, managing, manage_state, set_state, get_account, next_nonce, get_nonce,
}

module _ (env : Env) where
  -- An address that is not managed has the nonce of the state.
  get_nonce-state :
      (a : ℕ) (ms : ManagedState)
      → lookup a ms.accounts ≡ none
      → (get_nonce env a ms).0 ≡ nonce_of ((abstract env ms.db).look a)
  unfolding get_nonce
  get_nonce-state a ms h =
      ap
        (λ (b : Bool).
          let r : ℕ × ManagedState =
            (if b then (next_nonce (get_account env a ms).0, (get_account env a ms).1) else (
              (Db.get_nonce env a ms.db).0,
              record ms { db = (Db.get_nonce env a ms.db).1 },
            )) in
          r.0)
        unmanaged
      ∙ nonce-view env a ms.db
    where
      unmanaged : has_account a ms ≡ false
      unmanaged = rw (h, has_account)

  -- The nonce of an account that is dirty, or that of the account trie.
  abbrev pub nonce_kept : StateDb → ℕ → ℕ
  nonce_kept s a =
      if is_dirty a s.state_objects_dirty
      then (Db.get_nonce env a s).0
      else nonce_of ((abstract env s).base a)

  abbrev pub Manages : StateDb → Option ManagedState → Type 0
  Manages s none = ⊥
  Manages s (some ms) =
      (a : ℕ)
      → ((get_nonce env a ms).0 ≡ nonce_kept s a)
        × ((get_nonce env a (set_state s ms)).0 ≡ (Db.get_nonce env a s).0)

  kept-copy :
      (b : Bool) (x y : Option View) (n : ℕ)
      → n ≡ nonce_of x
      → nonce_of (if b then x else y) ≡ (if b then n else nonce_of y)
  kept-copy true x y n e = sym e
  kept-copy false x y n e = refl

  -- Where every dirty address has an object, and the caches of these agree with their storage tries,
  -- ManageState does not panic. The new managed state answers GetNonce by the nonce of the state
  -- where the address is dirty, and by that of the account trie elsewhere; and once SetState gives it the state itself, by the nonce of the state at every address.
  pub manage_state-Manages :
      (s : StateDb)
      → Cached s.state_objects_dirty s.state_objects
      → AllCoherent env s.state_objects_dirty s.state_objects
      → Manages s (manage_state env s)
  manage_state-Manages s cached coherent = from (copy env s) (copy-Alike env s cached coherent)
    where
      from : (r : Option StateDb) → Alike env s r → Manages s (managing r)
      from none bad = bad
      from (some t) alike = λ a. (
        get_nonce-state a (record { db = t; accounts = [] }) refl
            ∙ ap nonce_of (alike.0 a)
            ∙ kept-copy (is_dirty a s.state_objects_dirty) ((abstract env s).look a)
                ((abstract env s).base a) (Db.get_nonce env a s).0 (nonce-view env a s),
        get_nonce-state a (record { db = s; accounts = [] }) refl ∙ sym (nonce-view env a s),
      )
