-- ===== src/State/Final.antt =====
-- The end of a transaction in `StateDB` (core/state/statedb.go): suicides, and a fresh start. `none`
-- is a panic.
use mjoy_go.Base.{
  ℕ, ◌≡◌, refl, Bool, true, false, Option, none, some, List, [], ◌∷◌, lookup, insert, Map,
  lookup-insert, get_or, length, ◌==◌, ==_cases, ==_self, if◌then◌else◌, inl, inr, ap, ◌∙◌, arith,
}
use mjoy_go.State.Types.{Read, StoredAccount, Env, StateObject, Log, StateDb}
use mjoy_go.State.Object.{first_error}
use mjoy_go.State.Db.{get_state_object}

unfoldable pub clear_journal_and_refund : StateDb → StateDb
clear_journal_and_refund s = record s { journal = []; valid_revisions = []; refund = 0 }

abbrev pub get_refund : StateDb → ℕ
get_refund s = s.refund

-- A missing hash gives no logs. The list holds the newest log first.
abbrev pub get_logs : ℕ → StateDb → List Log
get_logs h s = get_or [] (lookup h s.logs)

-- `Reset`, where `opened` is what the reads of the trie of the new root return, if it can be opened.
unfoldable pub reset : Option (ℕ → Read StoredAccount) → StateDb → Bool × StateDb
reset none s = (false, s)
reset (some trie) s = (
  true,
  clear_journal_and_refund (record s {
    trie = trie;
    state_objects = [];
    state_objects_dirty = [];
    thash = 0;
    bhash = 0;
    tx_index = 0;
    logs = [];
    log_size = 0;
    preimages = [];
  }),
)

-- `GetCodeSize`, where `code_size` is what `ContractCodeSize` gives for an address hash and a code
-- hash, with its error.
abbrev pub code_size_of :
    Env → (ℕ → ℕ → ℕ × Option ℕ) → StateObject → Option (List ℕ) → StateDb → ℕ × StateDb
code_size_of env code_size o (some code) s = (length code, s)
code_size_of env code_size o none s =
    let (n, e) = code_size (env.address_hash o.address) o.account.code_hash in
    (n, record s { db_err = first_error s.db_err e })

unfoldable pub get_code_size : Env → (ℕ → ℕ → ℕ × Option ℕ) → ℕ → StateDb → ℕ × StateDb
get_code_size env code_size a s =
    let (found, s') = get_state_object env a s in
    elim found [ none ↦ (0, s') | some o ↦ code_size_of env code_size o o.code s' ]

-- A suicided object is flagged as deleted.
abbrev pub flag_deleted : StateObject → StateObject
flag_deleted o = if o.suicided then record o { deleted = true } else o

unfoldable pub flag_suicides : Map (Unit {0}) → Map StateObject → Option (Map StateObject)
flag_suicides [] m = some m
flag_suicides ((a, _) ∷ dirty) m = elim (lookup a m) [
  | none ↦ none
  | some o ↦ flag_suicides dirty (insert a (flag_deleted o) m)
]

abbrev pub with_objects : StateDb → Option (Map StateObject) → Option StateDb
with_objects s none = none
with_objects s (some m) = some (record s { state_objects = m; state_objects_dirty = [] })

unfoldable pub delete_suicides : StateDb → Option StateDb
delete_suicides s =
    with_objects (clear_journal_and_refund s) (flag_suicides s.state_objects_dirty s.state_objects)

abbrev pub is_dirty : ℕ → Map (Unit {0}) → Bool
is_dirty b [] = false
is_dirty b ((a, _) ∷ dirty) = if a == b then true else is_dirty b dirty

-- Every dirty address has an object in the cache.
abbrev pub Cached : Map (Unit {0}) → Map StateObject → Type 0
Cached [] m = Unit
Cached ((a, _) ∷ dirty) m = ((o : StateObject) × (lookup a m ≡ some o)) × Cached dirty m

abbrev pub flagged : Bool → Option StateObject → Option StateObject
flagged b none = none
flagged b (some o) = some (if b then flag_deleted o else o)

pub insert-Cached :
    (a : ℕ) (o : StateObject) (dirty : Map (Unit {0})) (m : Map StateObject)
    → Cached dirty m
    → Cached dirty (insert a o m)
insert-Cached a o [] m c = tt
insert-Cached a o ((b, _) ∷ dirty) m ((p, there), c) = (here, insert-Cached a o dirty m c)
  where
    here : (q : StateObject) × (lookup b (insert a o m) ≡ some q)
    here = elim (==_cases a b) [
      | inl e ↦ (o, lookup-insert a b o m ∙ rw (e, ==_self b))
      | inr e ↦ (p, lookup-insert a b o m ∙ rw e there)
    ]

flag-again : (o : StateObject) → flag_deleted (flag_deleted o) ≡ flag_deleted o
flag-again o = ground arith

flagged-first :
    (a b : ℕ) (o : StateObject) (rest : Bool) (m : Map StateObject)
    → lookup a m ≡ some o
    → flagged rest (lookup b (insert a (flag_deleted o) m))
      ≡ flagged (if a == b then true else rest) (lookup b m)
flagged-first a b o rest m there = ap (flagged rest) (lookup-insert a b (flag_deleted o) m) ∙ cases
  where
    again : (r : Bool) → flagged r (some (flag_deleted o)) ≡ some (flag_deleted o)
    again true = ap some (flag-again o)
    again false = refl

    cases :
        flagged rest (if a == b then some (flag_deleted o) else lookup b m)
        ≡ flagged (if a == b then true else rest) (lookup b m)
    cases = elim (==_cases a b) [ inl e ↦ rw (← e, ==_self a, there) (again rest) | inr e ↦ rw e ]

-- What `flag_suicides` leaves at every address.
abbrev pub Flags : Map (Unit {0}) → Map StateObject → Option (Map StateObject) → Type 0
Flags dirty m none = ⊥
Flags dirty m (some m') = (b : ℕ) → lookup b m' ≡ flagged (is_dirty b dirty) (lookup b m)

Flags-first :
    (a : ℕ) (o : StateObject) (dirty : Map (Unit {0})) (m : Map StateObject)
    (r : Option (Map StateObject))
    → lookup a m ≡ some o
    → Flags dirty (insert a (flag_deleted o) m) r
    → Flags ((a, tt) ∷ dirty) m r
Flags-first a o dirty m none there f = elim f [ ]
Flags-first a o dirty m (some m') there f =
    λ b. f b ∙ flagged-first a b o (is_dirty b dirty) m there

unflagged : (o : Option StateObject) → o ≡ flagged false o
unflagged none = refl
unflagged (some o) = refl

flag_suicides-Flags :
    (dirty : Map (Unit {0})) (m : Map StateObject)
    → Cached dirty m
    → Flags dirty m (flag_suicides dirty m)
unfolding flag_suicides
flag_suicides-Flags [] m c = λ b. unflagged (lookup b m)
flag_suicides-Flags ((a, _) ∷ dirty) m ((o, there), c) =
    rw (there, flag_suicides)
      (Flags-first a o dirty m (flag_suicides dirty (insert a (flag_deleted o) m)) there (
        flag_suicides-Flags dirty (insert a (flag_deleted o) m)
          (insert-Cached a (flag_deleted o) dirty m c)))

-- A fresh start: no journal, no revisions, no refund, nothing dirty, and the objects flagged.
abbrev pub Deletes : StateDb → Option StateDb → Type 0
Deletes s none = ⊥
Deletes s (some t) =
    (t.journal ≡ [])
    × (t.valid_revisions ≡ [])
    × (t.refund ≡ 0)
    × (t.state_objects_dirty ≡ [])
    × ((b : ℕ)
        → lookup b t.state_objects
          ≡ flagged (is_dirty b s.state_objects_dirty) (lookup b s.state_objects))

with_objects-Deletes :
    (s : StateDb) (r : Option (Map StateObject))
    → Flags s.state_objects_dirty s.state_objects r
    → Deletes s (with_objects (clear_journal_and_refund s) r)
unfolding clear_journal_and_refund
with_objects-Deletes s none f = elim f [ ]
with_objects-Deletes s (some m) f = (refl, refl, refl, refl, f)

-- Where every dirty address has an object in the cache, `DeleteSuicides` does not panic: it flags
-- as deleted just the objects that are dirty and suicided, leaves the others as they are, and clears
-- the journal, the revisions, the refund and the dirty set.
pub delete_suicides-Deletes :
    (s : StateDb) → Cached s.state_objects_dirty s.state_objects → Deletes s (delete_suicides s)
unfolding delete_suicides
delete_suicides-Deletes s c =
    with_objects-Deletes s (flag_suicides s.state_objects_dirty s.state_objects)
      (flag_suicides-Flags s.state_objects_dirty s.state_objects c)
