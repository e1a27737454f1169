-- ===== src/Processor/Settled.antt =====
-- `Finalise` keeps the state steady, and the money and the nonces (core/state/statedb.go).
use mjoy_go.Base.{
  ℕ, ◌≡◌, refl, Bool, true, false, Option, none, some, [], ◌∷◌, lookup, Map, ◌==◌, ◌&&◌,
  if◌then◌else◌, Bool-cases, Option-cases, inl, inr, ap, ◌∙◌, sym, subst, arith,
}
use mjoy_go.Base.Int.{ℤ, pos, is_zero}
use mjoy_go.State.Types.{Read, StoredAccount, Env, StateObject, StateDb}
use mjoy_go.State.Object.{is_empty, get_trie}
use mjoy_go.State.View.{View, look_object}
use mjoy_go.State.Finish.{
  Tries, update_root, update_trie, update_state_object, delete_state_object, removed,
  finalise_object, finalise_objects,
}
use mjoy_go.State.Settling.{Faithful, settled}
use mjoy_go.State.Refinement.{carried}
use mjoy_go.State.Getters.{nonce_of}
use mjoy_go.Processor.Steady.{Clean}

-- The account trie keeps what it is told, and gives no error.
pub record Reliable (tries : Tries) : Type 0 where
  pub faithful : Faithful tries
  pub puts :
      (a : ℕ) (d : StoredAccount) (t : ℕ → Read StoredAccount) → (tries.put_account a d t).1 ≡ none
  pub drops : (a : ℕ) (t : ℕ → Read StoredAccount) → (tries.drop_account a t).1 ≡ none

module _ (tries : Tries) (env : Env) where
  abbrev pub rounded : StateObject → StateObject
  rounded = settled tries env true

  -- What a clean object is once it is settled.
  pub removed-empty : (o : StateObject) → Clean env o → removed tries env true o ≡ is_empty env o
  removed-empty o k = rw k.alive

  pub kept_fields :
      (o : StateObject)
      → ((update_root tries env o).suicided ≡ o.suicided)
        × ((update_root tries env o).deleted ≡ o.deleted)
        × (is_empty env (update_root tries env o) ≡ is_empty env o)
        × ((update_root tries env o).account.balance ≡ o.account.balance)
        × ((update_root tries env o).account.nonce ≡ o.account.nonce)
        × ((update_root tries env o).address ≡ o.address)
  unfolding update_root update_trie get_trie is_empty
  kept_fields o = ground arith

  pub rounded-empty :
      (o : StateObject)
      → Clean env o
      → is_empty env o ≡ true
      → rounded o ≡ record o { deleted = true }
  rounded-empty o k e = rw (removed-empty o k, e)

  pub rounded-full :
      (o : StateObject) → Clean env o → is_empty env o ≡ false → rounded o ≡ update_root tries env o
  rounded-full o k e = rw (removed-empty o k, e)

  pub rounded-address : (o : StateObject) → Clean env o → (rounded o).address ≡ o.address
  rounded-address o k = elim (Bool-cases (is_empty env o)) [
    | inl e ↦ ap (λ (q : StateObject). q.address) (rounded-empty o k e)
    | inr e ↦ ap (λ (q : StateObject). q.address) (rounded-full o k e) ∙ (kept_fields o).5
  ]

  pub rounded-Clean : (o : StateObject) → Clean env o → Clean env (rounded o)
  unfolding is_empty
  rounded-Clean o k = elim (Bool-cases (is_empty env o)) [
    | inl e ↦
        subst (Clean env) (sym (rounded-empty o k e)) (record { alive = k.alive; emptied = λ _. e })
    | inr e ↦
        let kept = kept_fields o in
        subst (Clean env) (sym (rounded-full o k e)) (record {
          alive = kept.0 ∙ k.alive;
          emptied = λ gone. kept.2 ∙ k.emptied (sym kept.1 ∙ gone);
        })
  ]

  empty_zero :
      (x : ℤ) (n h k : ℕ) → ((n == 0) && is_zero x && (h == k)) ≡ true → (x ≡ pos 0) × (n ≡ 0)
  empty_zero x n h k e = ground arith

  -- The balance and the nonce that are seen.
  abbrev pub money : Option View → ℤ × ℕ
  money v = (carried env v, nonce_of v)

  abbrev held : Bool → ℤ → ℕ → ℤ × ℕ
  held gone x n = if gone then (pos 0, 0) else (x, n)

  look-held :
      (o : StateObject)
      → money (look_object env o) ≡ held o.deleted o.account.balance o.account.nonce
  look-held o = elim (Bool-cases o.deleted) [ inl e ↦ rw e | inr e ↦ rw e ]

  held-zero : (b : Bool) (x : ℤ) (n : ℕ) → x ≡ pos 0 → n ≡ 0 → (pos 0, 0) ≡ held b x n
  held-zero true x n p q = refl
  held-zero false x n p q = λ i. (sym p i, sym q i)

  pub rounded-money :
      (o : StateObject)
      → Clean env o
      → money (look_object env (rounded o)) ≡ money (look_object env o)
  unfolding is_empty
  rounded-money o k = elim (Bool-cases (is_empty env o)) [
    | inl e ↦
        let (poor, fresh) =
          empty_zero o.account.balance o.account.nonce o.account.code_hash (env.keccak []) e in
        ap (λ (q : StateObject). money (look_object env q)) (rounded-empty o k e)
        ∙ held-zero o.deleted o.account.balance o.account.nonce poor fresh
        ∙ sym (look-held o)
    | inr e ↦
        let kept = kept_fields o in
        ap (λ (q : StateObject). money (look_object env q)) (rounded-full o k e)
        ∙ look-held (update_root tries env o)
        ∙ (λ i. held (kept.1 i) (kept.3 i) (kept.4 i))
        ∙ sym (look-held o)
  ]

  -- The rest of the database.
  abbrev pub Rest : StateDb → StateDb → Type 0
  Rest s t =
      (t.state_objects_dirty ≡ s.state_objects_dirty)
      × (t.log_size ≡ s.log_size)
      × (s.db_err ≡ none → t.db_err ≡ none)

  abbrev pub Rests : StateDb → Option StateDb → Type 0
  Rests s none = Unit
  Rests s (some t) = Rest s t

  module _ (reliable : Reliable tries) where
    finalise_object-Rest :
        (o : StateObject) (s : StateDb) → Rest s (finalise_object tries env true o s)
    unfolding finalise_object delete_state_object update_state_object
    finalise_object-Rest o s = elim (Bool-cases (removed tries env true o)) [
      | inl e ↦ rw e (refl, refl, λ h. rw (h, reliable.drops o.address s.trie))
      | inr e ↦ rw e (refl, refl, λ h. rw (h, reliable.puts _ _ s.trie))
    ]

    Rests-first : (s u : StateDb) (r : Option StateDb) → Rest s u → Rests u r → Rests s r
    Rests-first s u none first rest = tt
    Rests-first s u (some t) (d, l, e) (d', l', e') = (d' ∙ d, l' ∙ l, λ h. e' (e h))

    pub finalise_objects-Rests :
        (dirty : Map (Unit {0})) (s : StateDb) → Rests s (finalise_objects tries env true dirty s)
    unfolding finalise_objects
    finalise_objects-Rests [] s = (refl, refl, λ h. h)
    finalise_objects-Rests ((a, _) ∷ dirty) s = elim (Option-cases (lookup a s.state_objects)) [
      | inl miss ↦ rw (miss, finalise_objects) tt
      | inr (o, hit) ↦
          let u : StateDb = finalise_object tries env true o s in
          rw (hit, finalise_objects)
            (Rests-first s u (finalise_objects tries env true dirty u) (finalise_object-Rest o s)
              (finalise_objects-Rests dirty u))
    ]
