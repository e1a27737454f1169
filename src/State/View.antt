-- ===== src/State/View.antt =====
-- What a client can see of the state, whatever is cached: the abstract state that a snapshot
-- promises to bring back.
use mjoy_go.Base.{
  ℕ, ◌≡◌, refl, fun_ext, Bool, Option, none, some, List, [], lookup, get_or, arith, ◌==◌,
  if◌then◌else◌, Map, lookup-insert, ==_cases, Option-cases, inl, inr, ap, ◌∙◌, sym,
}
use mjoy_go.State.Types.{
  Read, entry, absent, garbled, fault, StoredAccount, Env, Account, StateObject, Log, StateDb,
}
use mjoy_go.State.Object.{new_object, get_code, get_state, get_trie, cache_read}

pub record View : Type 0 where
  pub address : ℕ
  pub account : Account
  pub code : Option (List ℕ)
  pub slot : ℕ → ℕ
  pub suicided : Bool

pub record Abstract : Type 0 where
  pub look : ℕ → Option View
  pub base : ℕ → Option View
  pub refund : ℕ
  pub thash : ℕ
  pub bhash : ℕ
  pub tx_index : ℕ
  pub logs : ℕ → List Log
  pub log_size : ℕ
  pub preimages : ℕ → Option (List ℕ)

abbrev pub value_of : Read ℕ → ℕ
value_of (entry v) = v
value_of absent = 0
value_of garbled = 0
value_of (fault e) = 0

module _ (env : Env) where
  -- The code of an account: loaded, or the one that the database has under its hash.
  abbrev pub code_of : ℕ → ℕ → Option (List ℕ) → Option (List ℕ)
  code_of a h (some c) = some c
  code_of a h none = if h == env.keccak [] then none else (env.read_code (env.address_hash a) h).0

  abbrev pub root_of : ℕ → ℕ → Option ℕ → ℕ
  root_of a root (some r) = r
  root_of a root none = elim (env.open_storage (env.address_hash a) root) [
    | none ↦ root
    | some e ↦ 0
  ]

  -- A slot: the cached value, or the one that the storage trie has.
  abbrev slot_of : ℕ → ℕ → Option ℕ → Map ℕ → ℕ → ℕ
  slot_of a root trie cached k =
      get_or (value_of (env.read_slot (env.address_hash a) (root_of a root trie) k))
        (lookup k cached)

  abbrev pub view : StateObject → View
  view o = record {
    address = o.address;
    account = o.account;
    code = code_of o.address o.account.code_hash o.code;
    slot = slot_of o.address o.account.root o.trie o.cached_storage;
    suicided = o.suicided;
  }

  abbrev pub look_object : StateObject → Option View
  look_object o = if o.deleted then none else some (view o)

  abbrev pub look_trie : ℕ → Read StoredAccount → Option View
  look_trie a (entry d) = some (view (new_object env a d))
  look_trie a absent = none
  look_trie a garbled = none
  look_trie a (fault e) = none

  abbrev pub look_entry : Option StateObject → Option View → Option View
  look_entry none v = v
  look_entry (some o) v = look_object o

  abbrev pub abstract : StateDb → Abstract
  abstract s = record {
    look = λ a. look_entry (lookup a s.state_objects) (look_trie a (s.trie a));
    base = λ a. look_trie a (s.trie a);
    refund = s.refund;
    thash = s.thash;
    bhash = s.bhash;
    tx_index = s.tx_index;
    logs = λ h. get_or [] (lookup h s.logs);
    log_size = s.log_size;
    preimages = λ h. lookup h s.preimages;
  }

  -- The getters return what the view shows.
  pub get_code-view : (o : StateObject) → (get_code env o).0 ≡ (view o).code
  unfolding get_code
  get_code-view o = ground arith

  pub get_state-view : (k : ℕ) (o : StateObject) → (get_state env k o).0 ≡ (view o).slot k
  unfolding get_state
  get_state-view k o = ground arith

  -- Whatever the getters cache, the view stays.
  pub view-get_code : (o : StateObject) → view (get_code env o).1 ≡ view o
  unfolding get_code
  view-get_code o = ground arith

  pub get_trie-root :
      (o : StateObject) → (get_trie env o).0 ≡ root_of o.address o.account.root o.trie
  unfolding get_trie
  get_trie-root o = ground arith

  view-get_trie : (o : StateObject) → view (get_trie env o).1 ≡ view o
  unfolding get_trie
  view-get_trie o = ground arith

  pub cached-get_trie : (o : StateObject) → (get_trie env o).1.cached_storage ≡ o.cached_storage
  unfolding get_trie
  cached-get_trie o = ground arith

  -- Caching what a read gave changes no slot.
  slot-cache_read :
      (k j : ℕ) (r : Read ℕ) (o : StateObject)
      → lookup k o.cached_storage ≡ none
      → value_of r ≡ (view o).slot k
      → (view (cache_read env k r o).1).slot j ≡ (view o).slot j
  slot-cache_read k j (entry v) o h e = elim (==_cases k j) [
    | inl same ↦ rw (← same) (ground (arith, lookup-insert k k v o.cached_storage))
    | inr other ↦ ground (arith, lookup-insert k j v o.cached_storage)
  ]
  slot-cache_read k j absent o h e = refl
  slot-cache_read k j garbled o h e = refl
  slot-cache_read k j (fault d) o h e = refl

  read-get_trie :
      (k : ℕ) (o : StateObject)
      → lookup k o.cached_storage ≡ none
      → value_of (env.read_slot (env.address_hash o.address) (get_trie env o).0 k)
        ≡ (view (get_trie env o).1).slot k
  read-get_trie k o miss =
      rw (get_trie-root o) (rw (miss) at (ap (λ (v : View). v.slot k) (sym (view-get_trie o))))

  slot-get_state :
      (k : ℕ) (o : StateObject) (j : ℕ) → (view (get_state env k o).1).slot j ≡ (view o).slot j
  unfolding get_state
  slot-get_state k o j = elim (Option-cases (lookup k o.cached_storage)) [
    | inl miss ↦
        rw (miss, get_state)
          (slot-cache_read k j (env.read_slot (env.address_hash o.address) (get_trie env o).0 k)
              (get_trie env o).1 (rw (cached-get_trie o) miss) (read-get_trie k o miss)
            ∙ ap (λ (v : View). v.slot j) (view-get_trie o))
    | inr (v, hit) ↦ rw (hit, get_state)
  ]

  rest-get_state :
      (k : ℕ) (o : StateObject)
      → ((get_state env k o).1.address ≡ o.address)
        × ((get_state env k o).1.account ≡ o.account)
        × ((get_state env k o).1.code ≡ o.code)
        × ((get_state env k o).1.suicided ≡ o.suicided)
  unfolding get_state get_trie
  rest-get_state k o = ground arith

  pub view-get_state : (k : ℕ) (o : StateObject) → view (get_state env k o).1 ≡ view o
  view-get_state k o =
      let rest = rest-get_state k o in
      λ i. record {
        address = rest.0 i;
        account = rest.1 i;
        code = code_of (rest.0 i) (rest.1 i).code_hash (rest.2 i);
        slot = fun_ext (slot-get_state k o) i;
        suicided = rest.3 i;
      }
