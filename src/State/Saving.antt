-- ===== src/State/Saving.antt =====
-- One round of `CommitTo` (core/state/statedb.go): an account goes into the trie, or out of it.
use mjoy_go.Base.{
  ℕ, ◌≡◌, refl, Bool, true, false, ◌&&◌, ◌||◌, Option, none, some, List, [], ◌∷◌, erase, Map, ◌==◌,
  if◌then◌else◌, Option-cases, inl, inr, ap, ◌∙◌, sym, arith,
}
use mjoy_go.State.Types.{Read, entry, absent, StoredAccount, Env, Account, StateObject, StateDb}
use mjoy_go.State.Object.{is_empty, get_trie}
use mjoy_go.State.Final.{is_dirty}
use mjoy_go.State.Finish.{
  Tries, stored, update_trie, update_root, update_state_object, delete_state_object,
}
use mjoy_go.State.Storage.{no_error}
use mjoy_go.State.Settling.{Faithful}
use mjoy_go.State.Commit.{
  Failing, with_root, commit_updated, commit_trie, code_put, commit_code, then_trie,
  no_longer_dirty, after_object, commit_object,
}

pub is_dirty-erase :
    (a b : ℕ) (dirty : Map (Unit {0}))
    → is_dirty b (erase a dirty) ≡ (if a == b then false else is_dirty b dirty)
is_dirty-erase a b [] = ground arith
is_dirty-erase a b ((c, _) ∷ dirty) = ground (arith, is_dirty-erase a b dirty)

module _ (tries : Tries) (env : Env) where
  -- The object after a success: it stands where it did, and has the account of another one.
  abbrev pub Ends : StateObject → Account → Failing StateObject → Type 0
  Ends o d r = r.0 ≡ none → (r.1.account ≡ d) × (r.1.address ≡ o.address)

  with_root-Ends :
      (root : ℕ) (e : Option ℕ) (o : StateObject)
      → Ends o (record (o.account) { root = root }) (with_root tries env root e o)
  with_root-Ends root none o h = (refl, refl)
  with_root-Ends root (some e) o h = cc

  commit_updated-Ends :
      (root : ℕ) (o : StateObject) (e : Option ℕ)
      → Ends o (record (o.account) { root = root }) (commit_updated tries env root o e)
  commit_updated-Ends root o none h =
      with_root-Ends root (tries.commit_slots (env.address_hash o.address) root) o h
  commit_updated-Ends root o (some e) h = cc

  address-update_trie : (o : StateObject) → (update_trie tries env o).1.address ≡ o.address
  unfolding update_trie get_trie
  address-update_trie o = ground arith

  -- A commit that succeeds leaves the account that `updateRoot` would.
  commit_trie-Ends :
      (o : StateObject) → Ends o (update_root tries env o).account (commit_trie tries env o)
  unfolding commit_trie update_root
  commit_trie-Ends o h =
      let (account, address) =
        commit_updated-Ends (update_trie tries env o).0 (update_trie tries env o).1
          (update_trie tries env o).1.db_err h in
      (account, address ∙ address-update_trie o)

  -- The flag of new code has no part in the account.
  update_root-code :
      (b : Bool) (o : StateObject)
      → (update_root tries env (record o { dirty_code = b })).account
        ≡ (update_root tries env o).account
  unfolding update_root update_trie get_trie
  update_root-code b o = ground arith

  code_put-flag :
      (c : Option (List ℕ)) (d : Bool) (o : StateObject)
      → (code_put tries env c d o).0 ≡ none
      → (b : Bool) × ((code_put tries env c d o).1 ≡ record o { dirty_code = b })
  code_put-flag (some c) true o h = elim (Option-cases (tries.put_code o.account.code_hash c)) [
    | inl e ↦ (false, rw (e, code_put) refl)
    | inr (d, e) ↦ let bad : some d ≡ none = rw (e, code_put) at h in cc
  ]
  code_put-flag (some c) false o h = (o.dirty_code, refl)
  code_put-flag none d o h = (o.dirty_code, refl)

  then_trie-Ends :
      (o : StateObject)
      → Ends o (update_root tries env o).account (then_trie tries env (commit_code tries env o))
  unfolding commit_code
  then_trie-Ends o h = from (code_put tries env o.code o.dirty_code o) refl h
    where
      from :
          (r : Failing StateObject)
          → code_put tries env o.code o.dirty_code o ≡ r
          → Ends o (update_root tries env o).account (then_trie tries env r)
      from (some e, p) same h = cc
      from (none, p) same h =
          let (b, flag) =
            code_put-flag o.code o.dirty_code o (ap (λ (r : Failing StateObject). r.0) same) in
          let eq : p ≡ record o { dirty_code = b } =
            sym (ap (λ (r : Failing StateObject). r.1) same) ∙ flag in
          let (account, address) = commit_trie-Ends p h in
          (
            account ∙ ap (λ x. (update_root tries env x).account) eq ∙ update_root-code b o,
            address ∙ ap (λ (x : StateObject). x.address) eq,
          )

  module _ (empties : Bool) where
    -- What the account trie has of an object after its round.
    abbrev pub saved : Bool → StateObject → Read StoredAccount → Read StoredAccount
    saved dirty o r =
        if o.suicided || (dirty && empties && is_empty env o)
        then absent
        else (if dirty then entry (stored (update_root tries env o).account) else r)

    -- After a round without an error the account is as `w` makes it, and the address is not dirty.
    abbrev pub Round :
        ℕ → (Read StoredAccount → Read StoredAccount) → StateDb → Failing StateDb → Type 0
    Round a w s (e, t) =
        e ≡ none
        → t.db_err ≡ none
        → (s.db_err ≡ none)
          × ((b : ℕ) → t.trie b ≡ (if a == b then w (s.trie b) else s.trie b))
          × (t.state_objects_dirty ≡ erase a s.state_objects_dirty)

    clean-Round : (a : ℕ) (s : StateDb) → Round a (λ r. r) s (none, no_longer_dirty tries env a s)
    clean-Round a s ok no_err = (no_err, (λ b. sym (same_if (a == b) (s.trie b))), refl)
      where
        same_if : (c : Bool) (r : Read StoredAccount) → (if c then r else r) ≡ r
        same_if true r = refl
        same_if false r = refl

    module _ (faithful : Faithful tries) where
      deleted-Round :
          (o : StateObject) (s : StateDb)
          → Round o.address
              (λ r. absent)
              s
              (none, no_longer_dirty tries env o.address (delete_state_object tries env o s))
      unfolding delete_state_object
      deleted-Round o s ok no_err =
          let (start, now) = no_error s.db_err (tries.drop_account o.address s.trie).1 no_err in
          (start, faithful.drop o.address s.trie now, refl)

      written-Round :
          (o : StateObject) (d : Account) (s : StateDb) (r : Failing StateObject)
          → Ends o d r
          → Round o.address (λ r. entry (stored d)) s (after_object tries env o.address s r)
      unfolding update_state_object
      written-Round o d s (some e, p) ends ok no_err = cc
      written-Round o d s (none, p) ends ok no_err =
          let (account, address) = ends refl in
          let (start, now) =
            no_error s.db_err (tries.put_account p.address (stored p.account) s.trie).1 no_err in
          (
            start,
            (λ b.
                faithful.put p.address (stored p.account) s.trie now b
                ∙ (λ i. if address i == b then entry (stored (account i)) else s.trie b)),
            refl,
          )

      pub commit_object-Round :
          (o : StateObject) (s : StateDb)
          → Round o.address
              (saved (is_dirty o.address s.state_objects_dirty) o)
              s
              (commit_object tries env empties o.address o s)
      unfolding commit_object
      commit_object-Round o s =
          cases (is_dirty o.address s.state_objects_dirty)
            (o.suicided || (is_dirty o.address s.state_objects_dirty && empties && is_empty env o))
        where
          cases :
              (dirty gone : Bool)
              → Round o.address
                  (λ r.
                    if gone
                    then absent
                    else (if dirty then entry (stored (update_root tries env o).account) else r))
                  s
                  (if gone
                    then (
                      none,
                      no_longer_dirty tries env o.address (delete_state_object tries env o s),
                    )
                    else (if dirty
                        then after_object tries env o.address s
                            (then_trie tries env (commit_code tries env o))
                        else (none, no_longer_dirty tries env o.address s)))
          cases dirty true = deleted-Round o s
          cases true false =
              written-Round o (update_root tries env o).account s
                (then_trie tries env (commit_code tries env o)) (then_trie-Ends o)
          cases false false = clean-Round o.address s
