-- ===== src/State/Undone.antt =====
-- What the undo methods of core/state/journal.go leave: a valid state, with its journal and its
-- revisions, and what the entries say, all together.
use mjoy_go.Base.{
  ℕ, zero, suc, ◌≡◌, refl, Bool, true, false, ◌&&◌, not, ◌==◌, Option, none, some, List, [], ◌∷◌,
  lookup, erase, lookup-erase, get_or, take, drop, arith, Option-cases, Bool-cases, ==_cases,
  ==_self, inl, inr, ap, ◌∙◌, sym,
}
use mathlib.Core.Option
use mjoy_go.Base.Int.{ℤ}
use mjoy_go.State.Types.{
  Env, StateObject, JournalEntry, create_object_change, reset_object_change, suicide_change,
  balance_change, nonce_change, storage_change, code_change, refund_change, add_log_change,
  add_preimage_change, touch_change, Log, StateDb,
}
use mjoy_go.State.Object.{
  save, set_state_object, assign_balance, assign_nonce, assign_code, assign_state,
}
use mjoy_go.State.Db.{get_state_object}
use mjoy_go.State.Journal.{ripemd, on_object, forget_dirty, pop_log, undo, undo_all}
use mjoy_go.State.View.{Abstract, abstract, look_trie}
use mjoy_go.State.Spec.{undo_view, undo_views, get_state_object-Found}
use mjoy_go.State.Undo.{undo-undo_view}
use mjoy_go.State.Valid.{IsValid, set_state_object-IsValid, save-IsValid, get_state_object-IsValid}
use mjoy_go.State.Undoable.{IsLive, AllLive}

module _ (env : Env) where
  -- The loop of undo methods does what the entries say, all together.
  pub undo_all-undo_views :
      (es : List JournalEntry) (s : StateDb)
      → Option.map (abstract env) (undo_all env es s) ≡ undo_views env es (abstract env s)
  unfolding undo_all
  undo_all-undo_views [] s = refl
  undo_all-undo_views (e ∷ es) s = elim (Option-cases (undo env e s)) [
    | inl h ↦
        let q : none ≡ undo_view env e (abstract env s) = rw h at (undo-undo_view env e s) in
        rw (h, undo_all) (rw (sym q, undo_views))
    | inr (t, h) ↦
        let q : some (abstract env t) ≡ undo_view env e (abstract env s) =
          rw h at (undo-undo_view env e s) in
        rw (h, undo_all) (rw (sym q, undo_views) (undo_all-undo_views es t))
  ]

  -- `undo` writes no entry and no revision, and leaves the state valid.
  abbrev Keeps : StateDb → Option StateDb → Type 0
  Keeps s none = Unit
  Keeps s (some t) = (t.journal ≡ s.journal) × (t.valid_revisions ≡ s.valid_revisions)

  Keeps-trans : (s t : StateDb) (r : Option StateDb) → Keeps s (some t) → Keeps t r → Keeps s r
  Keeps-trans s t none p q = tt
  Keeps-trans s t (some u) p q = (q.0 ∙ p.0, q.1 ∙ p.1)

  undo-Keeps : (e : JournalEntry) (s : StateDb) → Keeps s (undo env e s)
  unfolding undo save get_state_object
  undo-Keeps (create_object_change a) s = ground arith
  undo-Keeps _ s = ground arith

  undo_all-Keeps : (es : List JournalEntry) (s : StateDb) → Keeps s (undo_all env es s)
  unfolding undo_all
  undo_all-Keeps [] s = (refl, refl)
  undo_all-Keeps (e ∷ es) s = elim (Option-cases (undo env e s)) [
    | inl h ↦ rw (h, undo_all) tt
    | inr (t, h) ↦
        let first : Keeps s (some t) = rw h at (undo-Keeps e s) in
        rw (h, undo_all) (Keeps-trans s t (undo_all env es t) first (undo_all-Keeps es t))
  ]

  abbrev StaysValid : Option StateDb → Type 0
  StaysValid none = Unit
  StaysValid (some t) = IsValid env t

  on_object-StaysValid :
      (a : ℕ) (f : StateObject → StateDb → StateDb)
      → ((o : StateObject) (s : StateDb) → IsValid env s → o.deleted ≡ false → IsValid env (f o s))
      → (s : StateDb) → IsValid env s
      → StaysValid (on_object env a f s)
  on_object-StaysValid a f keeps s v = elim (get_state_object-Found env a s) [
    | inl (missing, _) ↦ rw (missing, on_object) tt
    | inr (o, found, live, _, _) ↦
        rw (found, on_object)
          (keeps o (get_state_object env a s).1 (get_state_object-IsValid env a s v) live)
  ]

  suicide-StaysValid :
      (a : ℕ) (p : Bool) (x : ℤ) (s : StateDb)
      → IsValid env s
      → StaysValid (undo env (suicide_change a p x) s)
  unfolding undo assign_balance
  suicide-StaysValid a p x s v = elim (get_state_object-Found env a s) [
    | inl (missing, _) ↦ rw (missing, undo) (get_state_object-IsValid env a s v)
    | inr (o, found, live, _, _) ↦
        rw (found, undo)
          (save-IsValid env (assign_balance x (record o { suicided = p }))
            (get_state_object env a s).1 (get_state_object-IsValid env a s v) live)
  ]

  erase-IsValid :
      (a : ℕ) (s : StateDb) → IsValid env s → StaysValid (undo env (create_object_change a) s)
  unfolding undo
  erase-IsValid a s v = record { placed = placed; bounded = v.bounded }
    where
      placed :
          (b : ℕ) (o : StateObject)
          → lookup b (erase a s.state_objects) ≡ some o
          → (o.address ≡ b) × (o.deleted ≡ true → look_trie env b (s.trie b) ≡ none)
      placed b o h = elim (==_cases a b) [
        | inl e ↦
            let bad : none ≡ some o = rw (lookup-erase a b s.state_objects, e, ==_self b) at h in cc
        | inr e ↦ v.placed b o (rw (lookup-erase a b s.state_objects, e) at h)
      ]

  pop_log-StaysValid :
      (h : ℕ) (m : Option (List Log)) (s : StateDb) → IsValid env s → StaysValid (pop_log h m s)
  pop_log-StaysValid h none s v = tt
  pop_log-StaysValid h (some []) s v = tt
  pop_log-StaysValid h (some (l ∷ [])) s v = record { placed = v.placed; bounded = omega arith }
  pop_log-StaysValid h (some (l ∷ m ∷ ls)) s v = record { placed = v.placed; bounded = omega arith }

  forget_dirty-IsValid :
      (b : Bool) (a : ℕ) (s : StateDb) → IsValid env s → IsValid env (forget_dirty b a s)
  forget_dirty-IsValid true a s v = v
  forget_dirty-IsValid false a s v = record { placed = v.placed; bounded = v.bounded }

  undo-StaysValid :
      (e : JournalEntry) (s : StateDb) → IsLive e → IsValid env s → StaysValid (undo env e s)
  unfolding undo assign_balance assign_nonce assign_code assign_state
  undo-StaysValid (create_object_change a) s k v = erase-IsValid a s v
  undo-StaysValid (reset_object_change prev) s k v =
      set_state_object-IsValid env prev s v (λ (gone : prev.deleted ≡ true). cc)
  undo-StaysValid (suicide_change a p x) s k v = suicide-StaysValid a p x s v
  undo-StaysValid (balance_change a x) s k v =
      on_object-StaysValid a (λ o s'. save (assign_balance x o) s')
        (λ o s' v' live. save-IsValid env (assign_balance x o) s' v' live) s v
  undo-StaysValid (nonce_change a n) s k v =
      on_object-StaysValid a (λ o s'. save (assign_nonce n o) s')
        (λ o s' v' live. save-IsValid env (assign_nonce n o) s' v' live) s v
  undo-StaysValid (storage_change a j x) s k v =
      on_object-StaysValid a (λ o s'. save (assign_state j x o) s')
        (λ o s' v' live. save-IsValid env (assign_state j x o) s' v' live) s v
  undo-StaysValid (code_change a c h) s k v =
      on_object-StaysValid a (λ o s'. save (assign_code h c o) s')
        (λ o s' v' live. save-IsValid env (assign_code h c o) s' v' live) s v
  undo-StaysValid (refund_change r) s k v = record { placed = v.placed; bounded = v.bounded }
  undo-StaysValid (add_log_change h) s k v = pop_log-StaysValid h (lookup h s.logs) s v
  undo-StaysValid (add_preimage_change h) s k v = record { placed = v.placed; bounded = v.bounded }
  undo-StaysValid (touch_change a p d) s k v = elim (Bool-cases (not p && not (a == ripemd))) [
    | inl e ↦
        rw (e, undo)
          (on_object-StaysValid a
            (λ o s'. forget_dirty d a (set_state_object (record o { touched = p }) s'))
            (λ o s' v' live.
              forget_dirty-IsValid d a (set_state_object (record o { touched = p }) s') (
                set_state_object-IsValid env (record o { touched = p }) s' v'
                  (λ (gone : o.deleted ≡ true). cc)))
            s v)
    | inr e ↦ rw (e, undo) v
  ]

  undo_all-StaysValid :
      (es : List JournalEntry) (s : StateDb)
      → AllLive es
      → IsValid env s
      → StaysValid (undo_all env es s)
  unfolding undo_all
  undo_all-StaysValid [] s k v = v
  undo_all-StaysValid (e ∷ es) s (k, ks) v = elim (Option-cases (undo env e s)) [
    | inl h ↦ rw (h, undo_all) tt
    | inr (t, h) ↦
        let valid : StaysValid (some t) = rw h at (undo-StaysValid e s k v) in
        rw (h, undo_all) (undo_all-StaysValid es t ks valid)
  ]

  -- Where the entries can be undone on what is seen, the undo methods do so.
  pub record Undoes (es : List JournalEntry) (t : StateDb) (A : Abstract) : Type 0 where
    pub state : StateDb
    pub done : undo_all env es t ≡ some state
    pub seen : abstract env state ≡ A
    pub journal : state.journal ≡ t.journal
    pub revisions : state.valid_revisions ≡ t.valid_revisions
    pub valid : IsValid env state

  pub undo_all-Undoes :
      (es : List JournalEntry) (t : StateDb) (A : Abstract)
      → AllLive es
      → IsValid env t
      → undo_views env es (abstract env t) ≡ some A
      → Undoes es t A
  undo_all-Undoes es t A live v undone = elim (Option-cases (undo_all env es t)) [
    | inl h ↦
        let q : none ≡ undo_views env es (abstract env t) = rw h at (undo_all-undo_views es t) in
        let bad : none ≡ some A = q ∙ undone in cc
    | inr (u, h) ↦
        let q : some (abstract env u) ≡ undo_views env es (abstract env t) =
          rw h at (undo_all-undo_views es t) in
        let kept : Keeps t (some u) = rw h at (undo_all-Keeps es t) in
        record {
          state = u;
          done = h;
          seen = ap (get_or (abstract env u)) (q ∙ undone);
          journal = kept.0;
          revisions = kept.1;
          valid = rw h at (undo_all-StaysValid es t live v);
        }
  ]

  -- Some of the entries, and then the others.
  pub undo_views-split :
      (n : ℕ) (es : List JournalEntry) (A B : Abstract)
      → undo_views env es A ≡ some B
      → (C : Abstract) × (undo_views env (take n es) A ≡ some C)
        × (undo_views env (drop n es) C ≡ some B)
  undo_views-split zero es A B h = (A, refl, h)
  undo_views-split (suc n) [] A B h = (A, refl, h)
  undo_views-split (suc n) (e ∷ es) A B h = elim (Option-cases (undo_view env e A)) [
    | inl none_left ↦ let bad : none ≡ some B = rw (none_left, undo_views) at h in cc
    | inr (D, next) ↦
        let (C, first, rest) = undo_views-split n es D B (rw (next, undo_views) at h) in
        (C, rw (next, undo_views) first, rest)
  ]
