-- ===== src/State/Spec.antt =====
-- What `undo` does to the abstract state, and that the code of core/state/journal.go does so.
use mjoy_go.Base.{
  ℕ, ◌+◌, ◌-◌, ◌%◌, u64_mod, ◌≡◌, refl, fun_ext, Bool, true, false, ◌&&◌, not, Option, none, some,
  List, [], ◌∷◌, lookup, lookup-insert, arith, ◌==◌, if◌then◌else◌, ==_self, ==_cases, Option-cases,
  Bool-cases, ◌⊎◌, inl, inr, ap, ◌∙◌, sym,
}
use mjoy_go.Base.Int.{ℤ}
use mjoy_go.State.Types.{
  Read, entry, absent, garbled, fault, StoredAccount, Env, StateObject, JournalEntry,
  create_object_change, reset_object_change, suicide_change, balance_change, nonce_change,
  storage_change, code_change, refund_change, add_log_change, add_preimage_change, touch_change,
  Log, StateDb,
}
use mjoy_go.State.Object.{save, set_state_object, mark_dirty, new_object}
use mjoy_go.State.Db.{load, get_state_object}
use mjoy_go.State.Journal.{ripemd}
use mjoy_go.State.View.{View, Abstract, view, look_object, abstract, code_of}

-- The view of one address, replaced.
abbrev pub put : ℕ → Option View → Abstract → Abstract
put a v A = record A { look = λ b. if a == b then v else A.look b }

abbrev pub with_balance : ℤ → View → View
with_balance x v = record v { account = record (v.account) { balance = x } }

abbrev pub with_nonce : ℕ → View → View
with_nonce n v = record v { account = record (v.account) { nonce = n } }

abbrev pub with_slot : ℕ → ℕ → View → View
with_slot k x v = record v { slot = λ j. if k == j then x else v.slot j }

abbrev pub with_code : Env → ℕ → Option (List ℕ) → View → View
with_code env h c v = record v {
  account = record (v.account) { code_hash = h };
  code = code_of env v.address h c;
}

abbrev change : (View → View) → Abstract → Option View → Option Abstract
change g A none = none
change g A (some v) = some (put v.address (some (g v)) A)

abbrev pub rewrite : ℕ → (View → View) → Abstract → Option Abstract
rewrite a g A = change g A (A.look a)

abbrev pub lenient : Abstract → Option Abstract → Option Abstract
lenient A none = some A
lenient A (some B) = some B

abbrev pub without_newest : ℕ → List Log → Abstract → Option Abstract
without_newest h [] A = none
without_newest h (l ∷ ls) A = some (record A {
  logs = λ j. if h == j then ls else A.logs j;
  log_size = (A.log_size + u64_mod - 1) % u64_mod;
})

module _ (env : Env) where
  abbrev pub undo_view : JournalEntry → Abstract → Option Abstract
  undo_view (create_object_change a) A = some (put a (A.base a) A)
  undo_view (reset_object_change prev) A = some (put prev.address (look_object env prev) A)
  undo_view (suicide_change a prev x) A =
      lenient A (rewrite a (λ v. record (with_balance x v) { suicided = prev }) A)
  undo_view (touch_change a prev prev_dirty) A =
      if not prev && not (a == ripemd) then rewrite a (λ v. v) A else some A
  undo_view (balance_change a x) A = rewrite a (with_balance x) A
  undo_view (nonce_change a n) A = rewrite a (with_nonce n) A
  undo_view (code_change a c h) A = rewrite a (with_code env h c) A
  undo_view (storage_change a k x) A = rewrite a (with_slot k x) A
  undo_view (refund_change r) A = some (record A { refund = r })
  undo_view (add_log_change h) A = without_newest h (A.logs h) A
  undo_view (add_preimage_change h) A =
      some (record A { preimages = λ j. if h == j then none else A.preimages j })

  abbrev pub undo_views : List JournalEntry → Abstract → Option Abstract
  undo_views [] A = some A
  undo_views (e ∷ es) A = elim (undo_view e A) [ none ↦ none | some B ↦ undo_views es B ]

  look-set :
      (o : StateObject) (s : StateDb) (b : ℕ)
      → (abstract env (set_state_object o s)).look b
        ≡ (if o.address == b then look_object env o else (abstract env s).look b)
  look-set o s b = ground (arith, lookup-insert o.address b o s.state_objects)

  pub abstract-set :
      (o : StateObject) (s : StateDb)
      → abstract env (set_state_object o s) ≡ put o.address (look_object env o) (abstract env s)
  abstract-set o s = λ i. record (abstract env s) { look = fun_ext (look-set o s) i }

  pub look_object-live :
      (o : StateObject) → o.deleted ≡ false → look_object env o ≡ some (view env o)
  look_object-live o h = ap (λ b. if b then none else some (view env o)) h

  abstract-notify :
      (b : Bool) (a : ℕ) (s : StateDb)
      → abstract env (if b then mark_dirty a s else s) ≡ abstract env s
  abstract-notify true a s = refl
  abstract-notify false a s = refl

  -- To save an object shows its view, and nothing else changes.
  pub abstract-save :
      (o : StateObject) (s : StateDb)
      → abstract env (save o s) ≡ put o.address (look_object env o) (abstract env s)
  unfolding save
  abstract-save o s =
      abstract-set (record o { armed = false }) (if o.armed then mark_dirty o.address s else s)
      ∙ ap (put o.address (look_object env o)) (abstract-notify o.armed o.address s)

  -- To replace a view by itself changes nothing.
  pub put-look : (a : ℕ) {v : Option View} (A : Abstract) → A.look a ≡ v → put a v A ≡ A
  put-look a {v} A h = λ i. record A { look = fun_ext same i }
    where
      same : (b : ℕ) → (if a == b then v else A.look b) ≡ A.look b
      same b = elim (==_cases a b) [ inl e ↦ rw (← e, ==_self a) (sym h) | inr e ↦ rw e ]

  abstract-load :
      (a : ℕ) (r : Read StoredAccount) (s : StateDb)
      → lookup a s.state_objects ≡ none
      → s.trie a ≡ r
      → abstract env (load env a r s).1 ≡ abstract env s
  unfolding new_object
  abstract-load a (entry d) s miss e =
      abstract-set (new_object env a d) s ∙ put-look a (abstract env s) (rw (miss, e))
  abstract-load a absent s miss e = refl
  abstract-load a garbled s miss e = refl
  abstract-load a (fault d) s miss e = refl

  -- To load an object shows nothing new.
  pub abstract-get_state_object :
      (a : ℕ) (s : StateDb) → abstract env (get_state_object env a s).1 ≡ abstract env s
  unfolding get_state_object
  abstract-get_state_object a s = elim (Option-cases (lookup a s.state_objects)) [
    | inl miss ↦ rw (miss, get_state_object) (abstract-load a (s.trie a) s miss refl)
    | inr (o, hit) ↦
        rw (hit, get_state_object) (elim (Bool-cases o.deleted) [ inl e ↦ rw e | inr e ↦ rw e ])
  ]

  -- What `getStateObject` answers is what the view shows.
  abbrev pub Found : ℕ → StateDb → Option StateObject × StateDb → Type 0
  Found a s r =
      ((r.0 ≡ none) × ((abstract env s).look a ≡ none))
      ⊎ ((o : StateObject) × (r.0 ≡ some o)
          × (o.deleted ≡ false)
          × ((abstract env s).look a ≡ some (view env o))
          × (lookup a r.1.state_objects ≡ some o))

  load-Found :
      (a : ℕ) (r : Read StoredAccount) (s : StateDb)
      → lookup a s.state_objects ≡ none
      → s.trie a ≡ r
      → Found a s (load env a r s)
  unfolding new_object
  load-Found a (entry d) s miss e = inr (
    new_object env a d,
    refl,
    refl,
    rw (miss, e),
    ground (arith, lookup-insert a a (new_object env a d) s.state_objects),
  )
  load-Found a absent s miss e = inl (refl, rw (miss, e))
  load-Found a garbled s miss e = inl (refl, rw (miss, e))
  load-Found a (fault d) s miss e = inl (refl, rw (miss, e))

  pub get_state_object-Found : (a : ℕ) (s : StateDb) → Found a s (get_state_object env a s)
  unfolding get_state_object
  get_state_object-Found a s = elim (Option-cases (lookup a s.state_objects)) [
    | inl miss ↦ rw (miss, get_state_object) (rw miss at (load-Found a (s.trie a) s miss refl))
    | inr (o, hit) ↦ elim (Bool-cases o.deleted) [
      | inl gone ↦ inl (rw (hit, get_state_object) (rw gone), rw (hit) (rw gone))
      | inr live ↦ inr (
        o,
        rw (hit, get_state_object) (rw live),
        live,
        rw (hit) (rw live),
        rw (hit, get_state_object) (simp live hit),
      )
    ]
  ]
