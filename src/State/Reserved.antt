-- ===== src/State/Reserved.antt =====
-- The nonces that `NewNonce` hands out and `RemoveNonce` gives back (core/state/managed_state.go).
use mjoy_go.Base.{
  ℕ, ◌+◌, ◌%◌, ◌≤◌, ◌<◌, u64_mod, ◌≡◌, refl, Bool, true, none, length, ltb, max, if◌then◌else◌,
  Bool-cases, Option, some, lookup, insert, lookup-insert_self, Option-cases, ◌⊎◌, inl, inr, ap,
  ◌∙◌, sym, subst, arith,
}
use mjoy_go.State.Types.{Env, StateObject, StateDb}
use mjoy_go.State.Db
use mjoy_go.State.Db.{get_state_object}
use mjoy_go.State.Spec.{abstract-get_state_object}
use mjoy_go.State.Getters.{nonce_of, nonce-view}
use mjoy_go.State.Nonces.{get_nonce-managed}
use mjoy_go.State.Managed.{
  Tracked, ManagedState, has_account, refresh, next_nonce, first_free, take_nonce, free_from,
  get_account, get_nonce, new_nonce, remove_nonce,
}
use mjoy_go.State.Taken.{AllTaken, take_nonce-next_nonce, free_from-next_nonce}

module _ (env : Env) where
  -- The nonce that the state has for the address.
  abbrev pub state_nonce : ℕ → ManagedState → ℕ
  state_nonce a ms = (Db.get_nonce env a ms.db).0

  found-state_nonce :
      (a : ℕ) (s : StateDb)
      → let r = (get_state_object env a s).0 in
        ((r ≡ none) × ((Db.get_nonce env a s).0 ≡ 0))
        ⊎ ((o : StateObject) × (r ≡ some o) × ((Db.get_nonce env a s).0 ≡ o.account.nonce))
  unfolding Db.get_nonce
  found-state_nonce a s = elim (Option-cases (get_state_object env a s).0) [
    | inl e ↦ inl (e, rw (e, Db.get_nonce))
    | inr (o, e) ↦ inr (o, e, rw (e, Db.get_nonce))
  ]

  -- What `getAccount` makes of a tracked account, and what it keeps.
  get_account-refresh :
      (a : ℕ) (ms : ManagedState) (t : Tracked)
      → lookup a ms.accounts ≡ some t
      → ((get_account env a ms).0 ≡ refresh t (get_state_object env a ms.db).0)
        × (state_nonce a (get_account env a ms).1 ≡ state_nonce a ms)
  unfolding get_account
  get_account-refresh a ms t h =
      rw (h, get_account)
        (
          refl,
          nonce-view env a (get_state_object env a ms.db).1
              ∙ ap (λ A. nonce_of (A.look a)) (abstract-get_state_object env a ms.db)
              ∙ sym (nonce-view env a ms.db),
        )

  refresh-max :
      (a : ℕ) (s : StateDb) (t : Tracked)
      → (Db.get_nonce env a s).0 < u64_mod
      → next_nonce (refresh t (get_state_object env a s).0)
        ≡ max (next_nonce t) (Db.get_nonce env a s).0
  refresh-max a s t small = elim (found-state_nonce a s) [
    | inl (e, zero_nonce) ↦ rw (e) (omega (arith, zero_nonce))
    | inr (o, e, same) ↦ elim (Bool-cases (ltb (next_nonce t) o.account.nonce)) [
      | inl behind ↦ rw (e) (rw behind (ground (arith, same, small)))
      | inr ahead ↦ rw (e) (rw ahead (ground (arith, same)))
    ]
  ]

  -- `GetNonce` of a tracked account is the later of the next nonce and that of the state.
  get_nonce-max :
      (a : ℕ) (ms : ManagedState) (t : Tracked)
      → lookup a ms.accounts ≡ some t
      → state_nonce a ms < u64_mod
      → (get_nonce env a ms).0 ≡ max (next_nonce t) (state_nonce a ms)
  get_nonce-max a ms t h small =
      get_nonce-managed env a ms t h
      ∙ ap next_nonce (get_account-refresh a ms t h).0
      ∙ refresh-max a ms.db t small

  -- The address is tracked, and all its tracked nonces are taken.
  abbrev pub NoGap : Option Tracked → Type 0
  NoGap none = ⊥
  NoGap (some t) = AllTaken t.nonces

  refresh-NoGap :
      (t : Tracked) (found : Option StateObject)
      → AllTaken t.nonces
      → AllTaken (refresh t found).nonces
  refresh-NoGap t none taken = taken
  refresh-NoGap t (some o) taken = elim (Bool-cases (ltb (next_nonce t) o.account.nonce)) [
    | inl e ↦ rw e tt
    | inr e ↦ rw e taken
  ]

  -- What `GetNonce` answers next, where the tracked account is replaced after `getAccount`.
  abbrev Answers : ℕ → ℕ → ManagedState → ManagedState → Type 0
  Answers a n ms ms' =
      ((get_nonce env a ms').0 ≡ max n (state_nonce a ms)) × NoGap (lookup a ms'.accounts)

  replaced-Answers :
      (a n : ℕ) (ms : ManagedState) (t t' : Tracked)
      → lookup a ms.accounts ≡ some t
      → state_nonce a ms < u64_mod
      → (next_nonce t' ≡ n) × AllTaken t'.nonces
      → let ms₁ : ManagedState = (get_account env a ms).1 in
        Answers a n ms (record ms₁ { accounts = insert a t' ms₁.accounts })
  replaced-Answers a n ms t t' h small (next, taken) =
      let ms₁ : ManagedState = (get_account env a ms).1 in
      let ms' : ManagedState = record ms₁ { accounts = insert a t' ms₁.accounts } in
      let here : lookup a ms'.accounts ≡ some t' = lookup-insert_self a t' ms₁.accounts in
      let same : state_nonce a ms' ≡ state_nonce a ms = (get_account-refresh a ms t h).1 in
      (
        get_nonce-max a ms' t' here (omega (arith, same, small)) ∙ (λ i. max (next i) (same i)),
        subst NoGap (sym here) taken,
      )

  new_nonce-Answers :
      (a : ℕ) (ms : ManagedState) (t : Tracked)
      → lookup a ms.accounts ≡ some t
      → state_nonce a ms < u64_mod
      → AllTaken t.nonces
      → let (m, ms') = new_nonce env a ms in
        (m ≡ (get_nonce env a ms).0) × Answers a ((m + 1) % u64_mod) ms ms'
  unfolding new_nonce
  new_nonce-Answers a ms t h small taken =
      let t₁ : Tracked = (get_account env a ms).0 in
      let (refreshed, _) = get_account-refresh a ms t h in
      let taken₁ : AllTaken t₁.nonces =
        subst (λ (u : Tracked). AllTaken u.nonces) (sym refreshed)
          (refresh-NoGap t (get_state_object env a ms.db).0 taken) in
      let (first, next, rest) = take_nonce-next_nonce t₁ taken₁ in
      (
        first ∙ sym (get_nonce-managed env a ms t h),
        replaced-Answers a _ ms t (take_nonce t₁ (first_free t₁.nonces)).1 h small (next, rest),
      )

  remove_nonce-Answers :
      (a n : ℕ) (ms : ManagedState) (t : Tracked)
      → lookup a ms.accounts ≡ some t
      → state_nonce a ms < u64_mod
      → AllTaken t.nonces
      → (get_account env a ms).0.nstart ≤ n
      → n ≤ (get_account env a ms).0.nstart + length (get_account env a ms).0.nonces
      → n < u64_mod
      → Answers a n ms (remove_nonce env a n ms)
  unfolding remove_nonce
  remove_nonce-Answers a n ms t h small taken low high bound =
      let t₁ : Tracked = (get_account env a ms).0 in
      let (refreshed, _) = get_account-refresh a ms t h in
      let taken₁ : AllTaken t₁.nonces =
        subst (λ (u : Tracked). AllTaken u.nonces) (sym refreshed)
          (refresh-NoGap t (get_state_object env a ms.db).0 taken) in
      let has : has_account a ms ≡ true = rw (h, has_account) in
      let ms₁ : ManagedState = (get_account env a ms).1 in
      subst
        (λ (b : Bool).
          Answers a n ms
            (if b then record ms₁ { accounts = insert a (free_from n t₁) ms₁.accounts } else ms))
        (sym has)
        (replaced-Answers a n ms t (free_from n t₁) h small
          (free_from-next_nonce n t₁ taken₁ low high bound))

  -- For an account that is tracked, with all its tracked nonces taken, and whose nonce in the state
  -- is a uint64: NewNonce hands out what GetNonce answers; after it GetNonce answers the next nonce
  -- modulo 2 ^ 64, or the nonce of the state if this is higher; and after RemoveNonce of a uint64
  -- that is, once getAccount has looked at the state, one of the tracked nonces or the next, GetNonce
  -- answers this nonce, or the nonce of the state if this is higher. After either call the account
  -- is tracked and all its tracked nonces are taken.
  pub reserved-get_nonce :
      (a n : ℕ) (ms : ManagedState)
      → NoGap (lookup a ms.accounts)
      → state_nonce a ms < u64_mod
      → (get_account env a ms).0.nstart ≤ n
      → n ≤ (get_account env a ms).0.nstart + length (get_account env a ms).0.nonces
      → n < u64_mod
      → (let (m, ms') = new_nonce env a ms in
          (m ≡ (get_nonce env a ms).0)
          × ((get_nonce env a ms').0 ≡ max ((m + 1) % u64_mod) (state_nonce a ms))
          × NoGap (lookup a ms'.accounts))
        × (let ms' = remove_nonce env a n ms in
            ((get_nonce env a ms').0 ≡ max n (state_nonce a ms)) × NoGap (lookup a ms'.accounts))
  reserved-get_nonce a n ms gapless small low high bound =
      elim (Option-cases (lookup a ms.accounts)) [
        | inl e ↦ absurd (subst NoGap e gapless)
        | inr (t, e) ↦
            let taken = subst NoGap e gapless in
            let (first, next) = new_nonce-Answers a ms t e small taken in
            ((first, next.0, next.1), remove_nonce-Answers a n ms t e small taken low high bound)
      ]
