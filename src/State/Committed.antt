-- ===== src/State/Committed.antt =====
-- `CommitTo` (core/state/statedb.go): where it ends without an error, the dirty accounts are in the
-- account trie, or out of it.
use mjoy_go.Base.{
  ℕ, ◌≡◌, refl, Bool, false, Option, none, some, [], ◌∷◌, lookup, erase, Map, ◌==◌, ==_cases,
  ==_self, if◌then◌else◌, inl, inr, ◌∙◌, subst,
}
use mjoy_go.State.Types.{Read, StoredAccount, Env, StateObject, StateDb}
use mjoy_go.State.Final.{is_dirty, clear_journal_and_refund}
use mjoy_go.State.Finish.{Tries}
use mjoy_go.State.Settling.{Faithful}
use mjoy_go.State.Commit.{Failing, commit_object, next_object, commit_objects, commit_to}
use mjoy_go.State.Saving.{is_dirty-erase, Round, saved, commit_object-Round}

-- A Go map of objects: distinct keys, and each object at its address.
abbrev pub Tidy : Map StateObject → Type 0
Tidy [] = Unit
Tidy ((a, o) ∷ objects) = (o.address ≡ a) × (lookup a objects ≡ none) × Tidy objects

module _ (tries : Tries) (env : Env) (empties : Bool) where
  abbrev pub saved_at : Bool → Option StateObject → Read StoredAccount → Read StoredAccount
  saved_at dirty none r = r
  saved_at dirty (some o) r = saved tries env empties dirty o r

  abbrev pub still_dirty : Bool → Option StateObject → Bool
  still_dirty dirty none = dirty
  still_dirty dirty (some o) = false

  -- On success without an error of the database, each object's account is in the trie or out of it,
  -- and only addresses without an object are dirty.
  abbrev pub Saves : Map StateObject → StateDb → Option ℕ → StateDb → Type 0
  Saves objects s e t =
      e ≡ none
      → t.db_err ≡ none
      → (s.db_err ≡ none)
        × ((b : ℕ)
            → t.trie b ≡ saved_at (is_dirty b s.state_objects_dirty) (lookup b objects) (s.trie b))
        × ((b : ℕ)
            → is_dirty b t.state_objects_dirty
              ≡ still_dirty (is_dirty b s.state_objects_dirty) (lookup b objects))

  abbrev One : ℕ → StateObject → StateDb → StateDb → Type 0
  One a o s u =
      Round tries env empties a (saved tries env empties (is_dirty a s.state_objects_dirty) o) s
        (none, u)

  first-Saves :
      (a : ℕ) (o : StateObject) (objects : Map StateObject) (s u t : StateDb) (e : Option ℕ)
      → lookup a objects ≡ none
      → One a o s u
      → Saves objects u e t
      → Saves ((a, o) ∷ objects) s e t
  first-Saves a o objects s u t e new one rest ok no_err =
      let (mid, trie, dirty) = rest ok no_err in
      let (start, trie', dirty') = one refl mid in
      (
        start,
        (λ b.
            trie b
            ∙ (λ i. saved_at (is_dirty b (dirty' i)) (lookup b objects) (trie' b i))
            ∙ here_trie b),
        (λ b.
            dirty b ∙ (λ i. still_dirty (is_dirty b (dirty' i)) (lookup b objects)) ∙ here_dirty b),
      )
    where
      here_trie :
          (b : ℕ)
          → saved_at (is_dirty b (erase a s.state_objects_dirty)) (lookup b objects) (
              if a == b
              then saved tries env empties (is_dirty a s.state_objects_dirty) o (s.trie b)
              else s.trie b)
            ≡ saved_at
                (is_dirty b s.state_objects_dirty)
                (if a == b then some o else lookup b objects)
                (s.trie b)
      here_trie b = elim (==_cases a b) [
        | inl e ↦ rw (← e, new, ==_self a) refl
        | inr e ↦ rw (is_dirty-erase a b s.state_objects_dirty, e) refl
      ]

      here_dirty :
          (b : ℕ)
          → still_dirty (is_dirty b (erase a s.state_objects_dirty)) (lookup b objects)
            ≡ still_dirty
                (is_dirty b s.state_objects_dirty)
                (if a == b then some o else lookup b objects)
      here_dirty b = elim (==_cases a b) [
        | inl e ↦ rw (← e, new, is_dirty-erase a a s.state_objects_dirty, ==_self a) refl
        | inr e ↦ rw (is_dirty-erase a b s.state_objects_dirty, e) refl
      ]

  -- Whatever happens, there is nothing to revert; on success the accounts are saved.
  abbrev pub Commits : StateDb → ℕ × Option ℕ × StateDb → Type 0
  Commits s (root, e, t) =
      (t.journal ≡ []) × (t.valid_revisions ≡ []) × (t.refund ≡ 0) × Saves s.state_objects s e t

  module _ (faithful : Faithful tries) where
    commit_objects-Saves :
        (objects : Map StateObject) (s : StateDb)
        → Tidy objects
        → Saves objects s
            (commit_objects tries env empties objects s).0
            (commit_objects tries env empties objects s).1
    unfolding commit_objects
    commit_objects-Saves [] s tidy = λ ok no_err. (no_err, (λ b. refl), λ b. refl)
    commit_objects-Saves ((a, o) ∷ objects) s (placed, new, tidy) =
        from (λ u. commit_objects-Saves objects u tidy) (commit_object tries env empties a o s)
          (subst
            (λ c.
              Round tries env empties c
                (saved tries env empties (is_dirty c s.state_objects_dirty) o) s
                (commit_object tries env empties c o s))
            placed (commit_object-Round tries env empties faithful o s))
      where
        from :
            ((u : StateDb)
              → Saves objects u
                  (commit_objects tries env empties objects u).0
                  (commit_objects tries env empties objects u).1)
            → (r : Failing StateDb)
            → Round tries env empties a
                (saved tries env empties (is_dirty a s.state_objects_dirty) o)
                s
                r
            → Saves
                ((a, o) ∷ objects)
                s
                (next_object tries env r (commit_objects tries env empties objects)).0
                (next_object tries env r (commit_objects tries env empties objects)).1
        from later (some d, u) h = λ ok no_err. cc
        from later (none, u) h =
            first-Saves a o objects s u (commit_objects tries env empties objects u).1
              (commit_objects tries env empties objects u).0 new h (later u)

    -- Where the objects stand at their addresses and the account trie keeps what it is told, CommitTo
    -- leaves no journal, no revisions and no refund; and if it gives no error, and the database has none,
    -- the account of each object that is suicided, or dirty and empty where these are to be removed, is
    -- out of the trie, that of each other dirty object is in it, with the root of its updated storage,
    -- the other accounts are as before, and no address with an object is dirty.
    pub commit_to-Commits :
        (commit_accounts : (ℕ → Read StoredAccount) → ℕ × Option ℕ) (s : StateDb)
        → Tidy s.state_objects
        → Commits s (commit_to tries env commit_accounts empties s)
    unfolding commit_to clear_journal_and_refund
    commit_to-Commits commit_accounts s tidy =
        from (commit_objects tries env empties s.state_objects s)
          (commit_objects-Saves s.state_objects s tidy)
      where
        from :
            (r : Failing StateDb)
            → Saves s.state_objects s r.0 r.1
            → Commits s (elim r.0 [
              | some d ↦ (0, some d, clear_journal_and_refund r.1)
              | none ↦
                  let (root, d) = commit_accounts r.1.trie in
                  (root, d, clear_journal_and_refund r.1)
            ])
        from (some d, u) h = (refl, refl, refl, λ ok no_err. cc)
        from (none, u) h = (refl, refl, refl, λ ok no_err. h refl no_err)
