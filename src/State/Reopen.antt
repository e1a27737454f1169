-- ===== src/State/Reopen.antt =====
-- A state opened at the account trie that `Finalise` leaves (core/state/statedb.go).
use mjoy_go.Base.{
  ℕ, ◌≡◌, refl, Bool, true, false, none, some, lookup, Bool-cases, inl, inr, ap, ◌∙◌, sym, subst,
}
use mjoy_go.State.Types.{Read, entry, absent, StoredAccount, Env, Account, StateObject, StateDb}
use mjoy_go.State.Object.{new_object}
use mjoy_go.State.View.{value_of, View, view, Abstract, abstract, look_trie}
use mjoy_go.State.Final.{reset, is_dirty, Cached, clear_journal_and_refund}
use mjoy_go.State.Finish.{Tries, stored, update_root, removed, finalise}
use mjoy_go.State.Storage.{Retentive, Coherent, update_root-Stores}
use mjoy_go.State.Settling.{Faithful, Placed, Distinct, written}
use mjoy_go.State.Finalise.{Clears, finalise-Finalised}

module _ (tries : Tries) (env : Env) (empties : Bool) where
  abbrev pub reopened : StateDb → Abstract
  reopened t = abstract env (reset (some t.trie) t).1

  -- An account that goes is not there; one that stays has its new root, and the slots that the object
  -- showed.
  abbrev pub Reopens : ℕ → StateObject → StateDb → Bool → Type 0
  Reopens a o t true = (reopened t).look a ≡ none
  Reopens a o t false =
      (v : View) × ((reopened t).look a ≡ some v)
      × (v.account ≡ record (o.account) { root = (update_root tries env o).account.root })
      × ((k : ℕ) → v.slot k ≡ (view env o).slot k)

  restored : (a : ℕ) (d : Account) → (new_object env a (stored d)).account ≡ d
  unfolding new_object
  restored a d = refl

  fresh_slot :
      (a : ℕ) (d : Account) (k : ℕ)
      → env.open_storage (env.address_hash a) d.root ≡ none
      → (view env (new_object env a (stored d))).slot k
        ≡ value_of (env.read_slot (env.address_hash a) d.root k)
  unfolding new_object
  fresh_slot a d k opens = rw opens refl

  look-reopened :
      (t : StateDb) (a : ℕ) (r : Read StoredAccount)
      → t.trie a ≡ r
      → (reopened t).look a ≡ look_trie env a r
  unfolding reset clear_journal_and_refund
  look-reopened t a r h = ap (look_trie env a) h

  module _ (faithful : Faithful tries) (retentive : Retentive tries env) where
    kept-Reopens :
        (a : ℕ) (o : StateObject) (t : StateDb)
        → o.address ≡ a
        → t.trie a ≡ entry (stored (update_root tries env o).account)
        → Coherent env o
        → (update_root tries env o).db_err ≡ none
        → env.open_storage (env.address_hash a) (update_root tries env o).account.root ≡ none
        → Reopens a o t false
    kept-Reopens a o t placed there coherent ok opens =
        let (slots, _, _, account) = update_root-Stores tries env retentive o coherent ok in
        (
          view env (new_object env a (stored (update_root tries env o).account)),
          look-reopened t a (entry (stored (update_root tries env o).account)) there,
          restored a (update_root tries env o).account ∙ account,
          λ k.
              fresh_slot a (update_root tries env o).account k opens
              ∙ ap
                  (λ b.
                    value_of
                      (env.read_slot (env.address_hash b) (update_root tries env o).account.root k))
                  (sym placed)
              ∙ slots k,
        )

    -- Where Finalise ends without an error of the database, a state opened at its account trie shows each
    -- dirty account as before: none where it was suicided, or empty and these are removed; and
    -- otherwise the same nonce, balance, code hash and slots, with the root of the updated storage. The
    -- tries keep what they are told, the account's caches agree with its storage trie, its root is
    -- updated without an error, and the new storage trie can be opened.
    pub finalise-Reopens :
        (s t : StateDb) (a : ℕ) (o : StateObject)
        → Cached s.state_objects_dirty s.state_objects
        → Distinct s.state_objects_dirty
        → Placed s.state_objects
        → finalise tries env empties s ≡ some t
        → t.db_err ≡ none
        → lookup a s.state_objects ≡ some o
        → is_dirty a s.state_objects_dirty ≡ true
        → Coherent env o
        → (update_root tries env o).db_err ≡ none
        → env.open_storage (env.address_hash a) (update_root tries env o).account.root ≡ none
        → Reopens a o t (removed tries env empties o)
    finalise-Reopens s t a o cached distinct placed e no_err there dirty coherent ok opens =
        let (_, _, _, finalised) =
          subst (Clears tries env empties s) e
            (finalise-Finalised tries env empties faithful s cached distinct placed) in
        let (_, _, accounts) = finalised no_err in
        let now : t.trie a ≡ written tries env empties o = rw (dirty, there) at (accounts a) in
        elim (Bool-cases (removed tries env empties o)) [
          | inl gone ↦ rw gone (look-reopened t a absent (rw gone at now))
          | inr kept ↦
              rw kept (kept-Reopens a o t (placed a o there) (rw kept at now) coherent ok opens)
        ]
