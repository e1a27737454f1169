-- ===== src/State/Nonces.antt =====
-- What `ManagedState` (core/state/managed_state.go) answers after `SetNonce`.
use mjoy_go.Base.{
  ℕ, ◌<◌, u64_mod, ◌≡◌, refl, Bool, true, Option, none, some, [], lookup, lookup-insert_self,
  ==_self, if◌then◌else◌, ap, ◌∙◌, arith,
}
use mjoy_go.State.Types.{Env, StateObject, StateDb}
use mjoy_go.State.Db
use mjoy_go.State.Db.{get_state_object}
use mjoy_go.State.Valid.{IsValid}
use mjoy_go.State.Ops
use mjoy_go.State.Refinement.{apply-effect}
use mjoy_go.State.Getters.{nonce_of, nonce-view}
use mjoy_go.State.Managed.{
  Tracked, ManagedState, has_account, refresh, next_nonce, get_account, get_nonce, set_nonce,
}

module _ (env : Env) where
  -- The state has the nonce that it was given.
  set_nonce-state :
      (a n : ℕ) (s : StateDb) → IsValid env s → (Db.get_nonce env a (Db.set_nonce env a n s)).0 ≡ n
  set_nonce-state a n s v =
      nonce-view env a (Db.set_nonce env a n s)
      ∙ ap (λ A. nonce_of (A.look a)) (apply-effect env (Ops.set_nonce a n) s v)
      ∙ rw (==_self a)

  abbrev given : ℕ → Tracked
  given n = record { nstart = n; nonces = [] }

  refresh-given :
      (n : ℕ) (found : Option StateObject)
      → n < u64_mod
      → ((o : StateObject) → found ≡ some o → o.account.nonce ≡ n)
      → next_nonce (refresh (given n) found) ≡ n
  refresh-given n none lt same = omega arith
  refresh-given n (some o) lt same = ground (arith, same o refl)

  found-nonce :
      (a n : ℕ) (s : StateDb) (o : StateObject)
      → (Db.get_nonce env a s).0 ≡ n
      → (get_state_object env a s).0 ≡ some o
      → o.account.nonce ≡ n
  unfolding Db.get_nonce
  found-nonce a n s o e found = rw (found, Db.get_nonce) at e

  get_account-given :
      (a n : ℕ) (ms : ManagedState)
      → lookup a ms.accounts ≡ some (given n)
      → (get_account env a ms).0 ≡ refresh (given n) (get_state_object env a ms.db).0
  unfolding get_account
  get_account-given a n ms h = rw (h, get_account)

  pub get_nonce-managed :
      (a : ℕ) (ms : ManagedState) (t : Tracked)
      → lookup a ms.accounts ≡ some t
      → (get_nonce env a ms).0 ≡ next_nonce (get_account env a ms).0
  unfolding get_nonce
  get_nonce-managed a ms t h =
      let s : ℕ × StateDb = Db.get_nonce env a ms.db in
      ap
        (λ (b : Bool).
          let r : ℕ × ManagedState =
            (if b
              then (next_nonce (get_account env a ms).0, (get_account env a ms).1)
              else (s.0, record ms { db = s.1 })) in
          r.0)
        has
    where
      has : has_account a ms ≡ true
      has = rw (h, has_account)

  -- On a valid state, after `SetNonce` of a uint64 the managed state answers `GetNonce` of the same
  -- address by this nonce, whatever was reserved before.
  pub get_nonce-set_nonce :
      (a n : ℕ) (ms : ManagedState)
      → IsValid env ms.db
      → n < u64_mod
      → (get_nonce env a (set_nonce env a n ms)).0 ≡ n
  unfolding set_nonce
  get_nonce-set_nonce a n ms v lt =
      let after : ManagedState = set_nonce env a n ms in
      let here : lookup a after.accounts ≡ some (given n) =
        lookup-insert_self a (given n) ms.accounts in
      get_nonce-managed a after (given n) here
      ∙ ap next_nonce (get_account-given a n after here)
      ∙ refresh-given n (get_state_object env a after.db).0 lt
          (λ o. found-nonce a n after.db o (set_nonce-state a n ms.db v))
