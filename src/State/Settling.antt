-- ===== src/State/Settling.antt =====
-- One round of `Finalise` (core/state/statedb.go): an object settles, and its account is written.
use mjoy_go.Base.{
  ℕ, ◌≡◌, Bool, true, false, Option, none, some, [], ◌∷◌, lookup, insert, lookup-insert, Map, ◌==◌,
  ==_cases, if◌then◌else◌, Bool-cases, inl, inr, ap, ◌∙◌, sym, subst, arith,
}
use mjoy_go.State.Types.{Read, entry, absent, StoredAccount, Env, StateObject, StateDb}
use mjoy_go.State.Object.{set_state_object, get_trie}
use mjoy_go.State.Final.{is_dirty}
use mjoy_go.State.Storage.{no_error}
use mjoy_go.State.Finish.{
  Tries, stored, with_accounts, update_trie, update_root, update_state_object, delete_state_object,
  removed, finalise_object,
}

-- Every object stands at its address.
abbrev pub Placed : Map StateObject → Type 0
Placed m = (a : ℕ) (o : StateObject) → lookup a m ≡ some o → o.address ≡ a

-- The keys of a Go map are distinct.
abbrev pub Distinct : Map (Unit {0}) → Type 0
Distinct [] = Unit
Distinct ((a, _) ∷ dirty) = (is_dirty a dirty ≡ false) × Distinct dirty

-- What the account trie promises of a write that gives no error.
pub record Faithful (tries : Tries) : Type 0 where
  pub put :
      (a : ℕ) (d : StoredAccount) (t : ℕ → Read StoredAccount)
      → (tries.put_account a d t).1 ≡ none
      → (b : ℕ) → (tries.put_account a d t).0 b ≡ (if a == b then entry d else t b)
  pub drop :
      (a : ℕ) (t : ℕ → Read StoredAccount)
      → (tries.drop_account a t).1 ≡ none
      → (b : ℕ) → (tries.drop_account a t).0 b ≡ (if a == b then absent else t b)

module _ (tries : Tries) (env : Env) (empties : Bool) where
  -- The object after its round, and what the trie has of it.
  abbrev pub settled : StateObject → StateObject
  settled o =
      if removed tries env empties o then record o { deleted = true } else update_root tries env o

  abbrev pub written : StateObject → Read StoredAccount
  written o =
      if removed tries env empties o
      then absent
      else entry (stored (update_root tries env o).account)

  abbrev pub settled_at : Bool → Option StateObject → Option StateObject
  settled_at b none = none
  settled_at b (some o) = if b then some (settled o) else some o

  abbrev pub written_at : Bool → Option StateObject → Read StoredAccount → Read StoredAccount
  written_at b none r = r
  written_at b (some o) r = if b then written o else r

  -- After a round without an error, the object and its account stand at the address; nothing else moves.
  abbrev pub Settles : ℕ → StateObject → Read StoredAccount → StateDb → StateDb → Type 0
  Settles a x r s t =
      t.db_err ≡ none
      → (s.db_err ≡ none)
        × ((b : ℕ)
            → lookup b t.state_objects ≡ (if a == b then some x else lookup b s.state_objects))
        × ((b : ℕ) → t.trie b ≡ (if a == b then r else s.trie b))

  address-update_root : (o : StateObject) → (update_root tries env o).address ≡ o.address
  unfolding update_root update_trie get_trie
  address-update_root o = ground arith

  module _ (faithful : Faithful tries) where
    with_accounts-Settles :
        (x : StateObject) (r : Read StoredAccount) (w : (ℕ → Read StoredAccount) × Option ℕ)
        (s : StateDb)
        → (w.1 ≡ none → (b : ℕ) → w.0 b ≡ (if x.address == b then r else s.trie b))
        → Settles x.address x r s (with_accounts tries env w (set_state_object x s))
    with_accounts-Settles x r w s law none_after =
        let (before, now) = no_error s.db_err w.1 none_after in
        (before, (λ b. lookup-insert x.address b x s.state_objects), law now)

    pub finalise_object-Settles :
        (o : StateObject) (s : StateDb)
        → Settles o.address (settled o) (written o) s (finalise_object tries env empties o s)
    unfolding finalise_object delete_state_object update_state_object
    finalise_object-Settles o s = elim (Bool-cases (removed tries env empties o)) [
      | inl gone ↦ rw gone (
          with_accounts-Settles (record o { deleted = true }) absent
            (tries.drop_account o.address s.trie) s (faithful.drop o.address s.trie))
      | inr kept ↦ rw kept (
          subst
            (λ a.
              Settles a (update_root tries env o) (entry (stored (update_root tries env o).account))
                s
                (update_state_object tries env (update_root tries env o)
                  (set_state_object (update_root tries env o) s)))
            (address-update_root o)
            (with_accounts-Settles (update_root tries env o)
              (entry (stored (update_root tries env o).account))
              (tries.put_account (update_root tries env o).address
                (stored (update_root tries env o).account) s.trie)
              s
              (faithful.put (update_root tries env o).address
                (stored (update_root tries env o).account) s.trie)))
    ]

    pub objects-finalise_object :
        (o : StateObject) (s : StateDb)
        → (finalise_object tries env empties o s).state_objects
          ≡ insert o.address (settled o) s.state_objects
    unfolding finalise_object delete_state_object update_state_object
    objects-finalise_object o s = elim (Bool-cases (removed tries env empties o)) [
      | inl gone ↦ rw gone
      | inr kept ↦
          rw kept
            (ap (λ a. insert a (update_root tries env o) s.state_objects) (address-update_root o))
    ]

    address-settled : (o : StateObject) → (settled o).address ≡ o.address
    address-settled o = elim (Bool-cases (removed tries env empties o)) [
      | inl gone ↦ rw gone
      | inr kept ↦ rw kept (address-update_root o)
    ]

    pub insert-Placed :
        (o : StateObject) (m : Map StateObject) → Placed m → Placed (insert o.address (settled o) m)
    insert-Placed o m placed a p h = elim (==_cases o.address a) [
      | inl e ↦
          let same : settled o ≡ p = ground (arith, lookup-insert o.address a (settled o) m) in
          ap (λ (x : StateObject). x.address) (sym same) ∙ address-settled o ∙ e
      | inr e ↦ placed a p (ground (arith, lookup-insert o.address a (settled o) m))
    ]
