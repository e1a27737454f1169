-- ===== src/State/Copies.antt =====
-- `Copy` (core/state/statedb.go) shows what the state shows at the dirty addresses.
use mjoy_go.Base.{
  ℕ, ◌≡◌, refl, fun_ext, Bool, true, false, Option, none, some, [], ◌∷◌, lookup, insert,
  lookup-insert, Map, get_or, ◌==◌, ==_cases, ==_iff, if◌then◌else◌, inl, inr, ap, ◌∙◌, subst,
}
use mjoy_go.State.Types.{Env, StateObject, StateDb}
use mjoy_go.State.Object.{new_object}
use mjoy_go.State.View.{
  value_of, View, view, abstract, root_of, look_trie, look_entry, look_object, code_of,
}
use mjoy_go.State.Final.{is_dirty, Cached}
use mjoy_go.State.Storage.{Coherent}
use mjoy_go.State.Commit.{deep_copy, copy_objects, copied, copy}

agree :
    (base : ℕ) (dirty cached : Option ℕ)
    → ((v : ℕ) → dirty ≡ some v → cached ≡ some v)
    → ((v : ℕ) → dirty ≡ none → cached ≡ some v → base ≡ v)
    → get_or base dirty ≡ get_or base cached
agree base none none h g = refl
agree base none (some v) h g = g v refl refl
agree base (some v) cached h g = rw (h v refl) refl

module _ (env : Env) where
  view-deep_copy : (o : StateObject) → Coherent env o → view env (deep_copy env o) ≡ view env o
  unfolding deep_copy new_object
  view-deep_copy o (_, dirty_cached, clean) = λ i. record {
    address = o.address;
    account = o.account;
    code = code_of env o.address o.account.code_hash o.code;
    slot = fun_ext slots i;
    suicided = o.suicided;
  }
    where
      slots : (k : ℕ) → (view env (deep_copy env o)).slot k ≡ (view env o).slot k
      slots k =
          agree
            (value_of (
              env.read_slot (env.address_hash o.address)
                (root_of env o.address o.account.root o.trie) k))
            (lookup k o.dirty_storage) (lookup k o.cached_storage) (dirty_cached k) (clean k)

  look-deep_copy :
      (o : StateObject) → Coherent env o → look_object env (deep_copy env o) ≡ look_object env o
  unfolding deep_copy new_object
  look-deep_copy o c = ap (λ v. if o.deleted then none else some v) (view-deep_copy o c)

  -- The caches of the dirty objects agree with their storage tries.
  abbrev pub AllCoherent : Map (Unit {0}) → Map StateObject → Type 0
  AllCoherent dirty m =
      (a : ℕ) (o : StateObject) → is_dirty a dirty ≡ true → lookup a m ≡ some o → Coherent env o

  -- The copies of the dirty objects, and no others.
  abbrev pub copy_at : Bool → Option StateObject → Option StateObject
  copy_at b none = none
  copy_at b (some o) = if b then some (deep_copy env o) else none

  abbrev pub Copies : Map (Unit {0}) → Map StateObject → Option (Map StateObject) → Type 0
  Copies dirty m none = ⊥
  Copies dirty m (some n) = (b : ℕ) → lookup b n ≡ copy_at (is_dirty b dirty) (lookup b m)

  step_copy :
      (c d : Bool) (o : StateObject) (x : Option StateObject)
      → (c ≡ true → x ≡ some o)
      → (if c then some (deep_copy env o) else copy_at d x) ≡ copy_at (if c then true else d) x
  step_copy true d o x here = rw (here refl) refl
  step_copy false d o x here = refl

  none_copied : (x : Option StateObject) → none ≡ copy_at false x
  none_copied none = refl
  none_copied (some o) = refl

  copy_objects-Copies :
      (dirty : Map (Unit {0})) (m : Map StateObject)
      → Cached dirty m
      → Copies dirty m (copy_objects env dirty m)
  unfolding copy_objects
  copy_objects-Copies [] m cached = λ b. none_copied (lookup b m)
  copy_objects-Copies ((a, _) ∷ dirty) m ((o, there), cached) =
      rw (there, copy_objects)
        (from (copy_objects env dirty m) (copy_objects-Copies dirty m cached))
    where
      from :
          (r : Option (Map StateObject))
          → Copies dirty m r
          → Copies
              ((a, tt) ∷ dirty)
              m
              (elim r [ none ↦ none | some n ↦ some (insert a (deep_copy env o) n) ])
      from none bad = bad
      from (some n) h = λ b.
          lookup-insert a b (deep_copy env o) n
          ∙ ap (λ x. if a == b then some (deep_copy env o) else x) (h b)
          ∙ step_copy (a == b) (is_dirty b dirty) o (lookup b m)
              (λ e. subst (λ c. lookup c m ≡ some o) ((==_iff a b).0 e) there)

  -- The copy shows the dirty accounts as the state does, the other accounts as the trie has them, and the
  -- same refund, logs and preimages; there is nothing to revert.
  abbrev pub Alike : StateDb → Option StateDb → Type 0
  Alike s none = ⊥
  Alike s (some t) =
      ((a : ℕ)
        → (abstract env t).look a ≡ (
            if is_dirty a s.state_objects_dirty
            then (abstract env s).look a
            else (abstract env s).base a))
      × (t.refund ≡ s.refund)
      × ((abstract env t).logs ≡ (abstract env s).logs)
      × ((abstract env t).preimages ≡ (abstract env s).preimages)
      × (t.state_objects_dirty ≡ s.state_objects_dirty)
      × (t.journal ≡ [])

  look_copy :
      (b : Bool) (x : Option StateObject) (base : Option View)
      → ((o : StateObject) → b ≡ true → x ≡ some o → Coherent env o)
      → (b ≡ true → (o : StateObject) × (x ≡ some o))
      → look_entry env (copy_at b x) base ≡ (if b then look_entry env x base else base)
  look_copy true none base coherent cached =
      let (o, h) = cached refl in let bad : none ≡ some o = h in cc
  look_copy true (some o) base coherent cached = look-deep_copy o (coherent o refl refl)
  look_copy false none base coherent cached = refl
  look_copy false (some o) base coherent cached = refl

  found_dirty :
      (dirty : Map (Unit {0})) (m : Map StateObject) (b : ℕ)
      → Cached dirty m
      → is_dirty b dirty ≡ true
      → (o : StateObject) × (lookup b m ≡ some o)
  found_dirty [] m b cached h = cc
  found_dirty ((a, _) ∷ dirty) m b ((o, there), cached) h = elim (==_cases a b) [
    | inl e ↦ (o, subst (λ c. lookup c m ≡ some o) e there)
    | inr e ↦ found_dirty dirty m b cached (rw e at h)
  ]

  -- Where every dirty address has an object, and the caches of these agree with their storage tries, Copy
  -- does not panic: the copy shows the dirty accounts as the state does, the other accounts as the
  -- account trie has them, and the same refund, logs and preimages; the same addresses are dirty, and
  -- the journal is empty.
  pub copy-Alike :
      (s : StateDb)
      → Cached s.state_objects_dirty s.state_objects
      → AllCoherent s.state_objects_dirty s.state_objects
      → Alike s (copy env s)
  unfolding copy
  copy-Alike s cached coherent =
      from (copy_objects env s.state_objects_dirty s.state_objects)
        (copy_objects-Copies s.state_objects_dirty s.state_objects cached)
    where
      from :
          (r : Option (Map StateObject))
          → Copies s.state_objects_dirty s.state_objects r
          → Alike s (copied env s r)
      from none bad = bad
      from (some n) h = (
        (λ a.
            ap (λ x. look_entry env x (look_trie env a (s.trie a))) (h a)
            ∙ look_copy (is_dirty a s.state_objects_dirty) (lookup a s.state_objects)
                (look_trie env a (s.trie a)) (λ o d there. coherent a o d there)
                (found_dirty s.state_objects_dirty s.state_objects a cached)),
        refl,
        refl,
        refl,
        refl,
        refl,
      )
