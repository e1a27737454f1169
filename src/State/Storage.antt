-- ===== src/State/Storage.antt =====
-- `updateTrie` and `updateRoot` (core/state/state_object.go): the storage trie gets what an object shows.
use mjoy_go.Base.{
  ℕ, ◌≡◌, refl, Option, none, some, [], ◌∷◌, lookup, Map, get_or, ◌==◌, ==_cases, ==_self, ==_iff,
  if◌then◌else◌, Bool-cases, inl, inr, ap, ◌∙◌, sym, arith,
}
use mjoy_go.State.Types.{Env, StateObject}
use mjoy_go.State.Object.{first_error, get_trie}
use mjoy_go.State.View.{code_of, value_of, view, root_of, get_trie-root, cached-get_trie}
use mjoy_go.State.Finish.{Tries, write_slot, write_slots, update_trie, update_root}

-- What the storage tries promise of a write that gives no error.
pub record Retentive (tries : Tries) (env : Env) : Type 0 where
  pub put :
      (h root k v : ℕ)
      → (tries.put_slot h root k v).1 ≡ none
      → (j : ℕ)
      → value_of (env.read_slot h (tries.put_slot h root k v).0 j)
        ≡ (if k == j then v else value_of (env.read_slot h root j))
  pub drop :
      (h root k : ℕ)
      → (tries.drop_slot h root k).1 ≡ none
      → (j : ℕ)
      → value_of (env.read_slot h (tries.drop_slot h root k).0 j)
        ≡ (if k == j then 0 else value_of (env.read_slot h root j))

-- The keys of a Go map are distinct.
abbrev pub Once : Map ℕ → Type 0
Once [] = Unit
Once ((k, v) ∷ m) = (lookup k m ≡ none) × Once m

pub no_error : (d e : Option ℕ) → first_error d e ≡ none → (d ≡ none) × (e ≡ none)
no_error none e h = (refl, h)
no_error (some d) e h = cc

module _ (env : Env) where
  -- The caches of an object agree with its storage trie: a dirty slot is cached with its value, and a
  -- cached slot that is not dirty is what the trie has.
  abbrev pub Coherent : StateObject → Type 0
  Coherent o =
      Once o.dirty_storage
      × ((k : ℕ) → (v : ℕ) → lookup k o.dirty_storage ≡ some v → lookup k o.cached_storage ≡ some v)
      × ((k : ℕ)
          → (v : ℕ) → lookup k o.dirty_storage ≡ none
          → lookup k o.cached_storage ≡ some v
          → value_of (
              env.read_slot (env.address_hash o.address)
                (root_of env o.address o.account.root o.trie) k)
            ≡ v)

  -- The storage trie of the new root has every slot that the object shows; the object shows the same
  -- slots and code, and its account differs in nothing but the root.
  abbrev pub Stores : StateObject → StateObject → Type 0
  Stores o o' =
      ((k : ℕ)
        → value_of (env.read_slot (env.address_hash o.address) o'.account.root k)
          ≡ (view env o).slot k)
      × ((k : ℕ) → (view env o').slot k ≡ (view env o).slot k)
      × ((view env o').code ≡ (view env o).code)
      × (o'.account ≡ record (o.account) { root = o'.account.root })

module _ (tries : Tries) (env : Env) (retentive : Retentive tries env) where
  write_slot-slot :
      (h root k v : ℕ)
      → (write_slot tries h root k v).1 ≡ none
      → (j : ℕ)
      → value_of (env.read_slot h (write_slot tries h root k v).0 j)
        ≡ (if k == j then v else value_of (env.read_slot h root j))
  write_slot-slot h root k v = elim (Bool-cases (v == 0)) [
    | inl e ↦ rw e (λ ok j.
        retentive.drop h root k ok j
        ∙ ap (λ x. if k == j then x else value_of (env.read_slot h root j))
            (sym ((==_iff v 0).0 e)))
    | inr e ↦ rw e (retentive.put h root k v)
  ]

  -- The trie has the dirty slots, and what it had otherwise.
  write_slots-slots :
      (h : ℕ) (dirty : Map ℕ) (root : ℕ) (e : Option ℕ)
      → Once dirty
      → (write_slots tries h dirty root e).1 ≡ none
      → (e ≡ none)
        × ((j : ℕ)
            → value_of (env.read_slot h (write_slots tries h dirty root e).0 j)
              ≡ get_or (value_of (env.read_slot h root j)) (lookup j dirty))
  unfolding write_slots
  write_slots-slots h [] root e once ok = (ok, λ j. refl)
  write_slots-slots h ((k, v) ∷ dirty) root e (new, once) ok =
      let w = write_slot tries h root k v in
      let (errs, slots) = write_slots-slots h dirty w.0 (first_error e w.1) once ok in
      let (start, now) = no_error e w.1 errs in
      (start, λ j. slots j ∙ step j (write_slot-slot h root k v now j))
    where
      step :
          (j : ℕ)
          → value_of (env.read_slot h (write_slot tries h root k v).0 j)
            ≡ (if k == j then v else value_of (env.read_slot h root j))
          → get_or (value_of (env.read_slot h (write_slot tries h root k v).0 j)) (lookup j dirty)
            ≡ get_or (value_of (env.read_slot h root j)) (if k == j then some v else lookup j dirty)
      step j wrote = elim (==_cases k j) [
        | inl e ↦ rw (wrote, ← e, new, ==_self k) refl
        | inr e ↦ rw (wrote, e) refl
      ]

  pub slots_agree :
      (base : ℕ) (dirty cached : Option ℕ)
      → ((v : ℕ) → dirty ≡ some v → cached ≡ some v)
      → ((v : ℕ) → dirty ≡ none → cached ≡ some v → base ≡ v)
      → (get_or base dirty ≡ get_or base cached)
        × (get_or (get_or base dirty) cached ≡ get_or base cached)
  slots_agree base none none h g = (refl, refl)
  slots_agree base none (some v) h g = (g v refl refl, refl)
  slots_agree base (some v) cached h g = rw (h v refl) (refl, refl)

  get_trie-rest :
      (o : StateObject)
      → ((get_trie env o).1.address ≡ o.address)
        × ((get_trie env o).1.account ≡ o.account)
        × ((get_trie env o).1.code ≡ o.code)
  unfolding get_trie
  get_trie-rest o = ground arith

  -- Where the caches agree with the storage trie, and this keeps what it is told, after updateRoot without
  -- an error the storage trie of the new root has every slot that the object shows; the object shows
  -- the same slots and the same code, and its account differs in nothing but the root.
  pub update_root-Stores :
      (o : StateObject)
      → Coherent env o
      → (update_root tries env o).db_err ≡ none
      → Stores env o (update_root tries env o)
  unfolding update_root update_trie
  update_root-Stores o (once, dirty_cached, clean) ok =
      (stored_slots, shown, same_code, same_account)
    where
      h : ℕ
      h = env.address_hash o.address

      base : ℕ
      base = root_of env o.address o.account.root o.trie

      slots :
          (k : ℕ)
          → value_of (env.read_slot h (update_trie tries env o).0 k)
            ≡ get_or (value_of (env.read_slot h base k)) (lookup k o.dirty_storage)
      slots k =
          (write_slots-slots h o.dirty_storage (get_trie env o).0 (get_trie env o).1.db_err once
              ok).1
            k
          ∙ ap (λ r. get_or (value_of (env.read_slot h r k)) (lookup k o.dirty_storage))
              (get_trie-root env o)

      stored_slots :
          (k : ℕ) → value_of (env.read_slot h (update_trie tries env o).0 k) ≡ (view env o).slot k
      stored_slots k =
          slots k
          ∙ (slots_agree (value_of (env.read_slot h base k)) (lookup k o.dirty_storage)
              (lookup k o.cached_storage) (dirty_cached k) (clean k)).0

      rest :
          ((get_trie env o).1.address ≡ o.address)
          × ((get_trie env o).1.account ≡ o.account)
          × ((get_trie env o).1.code ≡ o.code)
      rest = get_trie-rest o

      shown : (k : ℕ) → (view env (update_root tries env o)).slot k ≡ (view env o).slot k
      shown k =
          (λ i.
            get_or
              (value_of (env.read_slot (env.address_hash (rest.0 i)) (update_trie tries env o).0 k))
              (lookup k (cached-get_trie env o i)))
          ∙ ap (λ b. get_or b (lookup k o.cached_storage)) (slots k)
          ∙ (slots_agree (value_of (env.read_slot h base k)) (lookup k o.dirty_storage)
              (lookup k o.cached_storage) (dirty_cached k) (clean k)).1

      same_code : (view env (update_root tries env o)).code ≡ (view env o).code
      same_code = λ i. code_of env (rest.0 i) (rest.1 i).code_hash (rest.2 i)

      same_account :
          (update_root tries env o).account
          ≡ record (o.account) { root = (update_root tries env o).account.root }
      same_account = λ i. record (rest.1 i) { root = (update_trie tries env o).0 }
