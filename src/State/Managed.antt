-- ===== src/State/Managed.antt =====
-- `ManagedState` (core/state/managed_state.go): nonces reserved ahead of the state. The state object
-- that an account refers to is read only when the account is made.
use mjoy_go.Base.{
  ℕ, suc, ◌+◌, ◌-◌, ◌%◌, u64_mod, Bool, true, false, Option, none, some, List, [], ◌∷◌, ◌++◌,
  lookup, insert, Map, length, take, ltb, leb, if◌then◌else◌,
}
use mjoy_go.State.Types.{Env, StateObject, StateDb}
use mjoy_go.State.Db
use mjoy_go.State.Db.{get_state_object, get_or_new_state_object}
use mjoy_go.State.Commit.{copy}

pub record Tracked : Type 0 where
  pub nstart : ℕ
  pub nonces : List Bool

pub record ManagedState : Type 0 where
  pub db : StateDb
  pub accounts : Map Tracked

abbrev pub new_account : StateObject → Tracked
new_account o = record { nstart = o.account.nonce; nonces = [] }

abbrev pub has_account : ℕ → ManagedState → Bool
has_account a ms = elim (lookup a ms.accounts) [ none ↦ false | some _ ↦ true ]

abbrev pub next_nonce : Tracked → ℕ
next_nonce t = (length t.nonces + t.nstart) % u64_mod

-- A tracked account starts anew if the state has overtaken it.
abbrev pub refresh : Tracked → Option StateObject → Tracked
refresh t none = t
refresh t (some o) = if ltb (next_nonce t) o.account.nonce then new_account o else t

-- The index of the first nonce that is not taken.
abbrev pub first_free : List Bool → Option ℕ
first_free [] = none
first_free (false ∷ bs) = some 0
first_free (true ∷ bs) = elim (first_free bs) [ none ↦ none | some i ↦ some (suc i) ]

abbrev pub take_nonce : Tracked → Option ℕ → ℕ × Tracked
take_nonce t (some i) = ((t.nstart + i) % u64_mod, t)
take_nonce t none = (next_nonce t, record t { nonces = t.nonces ++ true ∷ [] })

-- `n - account.nstart`, and what is left of the nonces.
abbrev pub free_from : ℕ → Tracked → Tracked
free_from n t =
    let k : ℕ = (n + u64_mod - t.nstart) % u64_mod in
    if leb k (length t.nonces) then record t { nonces = take k t.nonces } else t

abbrev pub managing : Option StateDb → Option ManagedState
managing none = none
managing (some s) = some (record { db = s; accounts = [] })

abbrev pub set_state : StateDb → ManagedState → ManagedState
set_state s ms = record ms { db = s }

module _ (env : Env) where
  -- `ManageState`, which panics where `Copy` does
  abbrev pub manage_state : StateDb → Option ManagedState
  manage_state s = managing (copy env s)

  unfoldable pub get_account : ℕ → ManagedState → Tracked × ManagedState
  get_account a ms = elim (lookup a ms.accounts) [
    | none ↦
        let (o, s) = get_or_new_state_object env a ms.db in
        (new_account o, record { db = s; accounts = insert a (new_account o) ms.accounts })
    | some t ↦
        let (found, s) = get_state_object env a ms.db in
        let t' : Tracked = refresh t found in
        (t', record { db = s; accounts = insert a t' ms.accounts })
  ]

  unfoldable pub remove_nonce : ℕ → ℕ → ManagedState → ManagedState
  remove_nonce a n ms =
      let (t, ms') = get_account a ms in
      if has_account a ms
      then record ms' { accounts = insert a (free_from n t) ms'.accounts }
      else ms

  unfoldable pub new_nonce : ℕ → ManagedState → ℕ × ManagedState
  new_nonce a ms =
      let (t, ms') = get_account a ms in
      let (n, t') = take_nonce t (first_free t.nonces) in
      (n, record ms' { accounts = insert a t' ms'.accounts })

  unfoldable pub get_nonce : ℕ → ManagedState → ℕ × ManagedState
  get_nonce a ms =
      let (t, ms') = get_account a ms in
      let (n, s) = Db.get_nonce env a ms.db in
      if has_account a ms then (next_nonce t, ms') else (n, record ms { db = s })

  unfoldable pub set_nonce : ℕ → ℕ → ManagedState → ManagedState
  set_nonce a n ms = record {
    db = Db.set_nonce env a n ms.db;
    accounts = insert a (record { nstart = n; nonces = [] }) ms.accounts;
  }
