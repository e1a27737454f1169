-- ===== src/State/Undoable.antt =====
-- Every change leaves entries in the journal by which it is undone: the object's setters.
use mjoy_go.Base.{
  ℕ, ◌≡◌, refl, fun_ext, Bool, true, false, Option, none, some, List, [], ◌∷◌, ◌++◌, lookup, arith,
  ◌==◌, ==_self, Option-cases, if◌then◌else◌, inl, inr, ap, ◌∙◌, sym,
}
use mathlib.Core.List.{append_assoc}
use mjoy_go.State.Types.{Env, StateObject, JournalEntry, reset_object_change, StateDb}
use mjoy_go.State.Object.{save, mark_dirty, record_entry}
use mjoy_go.State.View.{View, Abstract, view, abstract}
use mjoy_go.State.Spec.{
  put, rewrite, undo_view, undo_views, abstract-save, look_object-live, put-look,
}
use mjoy_go.State.Valid.{IsValid, save-IsValid}

-- An entry puts back no deleted object.
abbrev pub IsLive : JournalEntry → Type 0
IsLive (reset_object_change prev) = prev.deleted ≡ false
IsLive _ = Unit

abbrev pub AllLive : List JournalEntry → Type 0
AllLive [] = Unit
AllLive (e ∷ es) = IsLive e × AllLive es

pub AllLive-append : (es fs : List JournalEntry) → AllLive es → AllLive fs → AllLive (es ++ fs)
AllLive-append [] fs a b = b
AllLive-append (e ∷ es) fs (p, ps) b = (p, AllLive-append es fs ps b)

module _ (env : Env) where
  -- `t` comes from `s` by changes that the journal of `t` can undo.
  pub record IsUndoable (s t : StateDb) : Type 0 where
    pub entries : List JournalEntry
    pub live : AllLive entries
    pub recorded : t.journal ≡ entries ++ s.journal
    pub undone : undo_views env entries (abstract env t) ≡ some (abstract env s)
    pub revisions : t.valid_revisions ≡ s.valid_revisions
    pub next_id : t.next_revision_id ≡ s.next_revision_id
    pub valid : IsValid env t

  abbrev pub then_views : List JournalEntry → Option Abstract → Option Abstract
  then_views fs none = none
  then_views fs (some B) = undo_views env fs B

  pub undo_views-append :
      (es fs : List JournalEntry) (A : Abstract)
      → undo_views env (es ++ fs) A ≡ then_views fs (undo_views env es A)
  undo_views-append [] fs A = refl
  undo_views-append (e ∷ es) fs A = elim (Option-cases (undo_view env e A)) [
    | inl h ↦ rw (h, undo_views)
    | inr (B, h) ↦ rw (h, undo_views) (undo_views-append es fs B)
  ]

  pub IsUndoable-refl : (s : StateDb) → IsValid env s → IsUndoable s s
  IsUndoable-refl s v = record {
    entries = [];
    live = tt;
    recorded = refl;
    undone = refl;
    revisions = refl;
    next_id = refl;
    valid = v;
  }

  pub IsUndoable-trans : {s t u : StateDb} → IsUndoable s t → IsUndoable t u → IsUndoable s u
  IsUndoable-trans {s} {t} {u} p q = record {
    entries = q.entries ++ p.entries;
    live = AllLive-append q.entries p.entries q.live p.live;
    recorded =
        q.recorded
        ∙ ap (◌++◌ q.entries) p.recorded
        ∙ sym (append_assoc q.entries p.entries s.journal);
    undone =
        undo_views-append q.entries p.entries (abstract env u)
        ∙ ap (then_views p.entries) q.undone
        ∙ p.undone;
    revisions = q.revisions ∙ p.revisions;
    next_id = q.next_id ∙ p.next_id;
    valid = q.valid;
  }

  pub put-put : (a : ℕ) (x y : Option View) (A : Abstract) → put a x (put a y A) ≡ put a x A
  put-put a x y A = λ i. record A { look = fun_ext same i }
    where
      same :
          (b : ℕ)
          → (if a == b then x else (if a == b then y else A.look b))
            ≡ (if a == b then x else A.look b)
      same b = ground arith

  -- To put back the view that was there restores everything.
  pub rewrite-put :
      (a : ℕ) (g : View → View) {v : View} (w : View) (A : Abstract)
      → A.look a ≡ some v
      → w.address ≡ a
      → g w ≡ v
      → rewrite a g (put a (some w) A) ≡ some A
  rewrite-put a g {v} w A seen at back =
      rw (==_self a, rewrite)
        ((λ i. some (put (at i) (some (back i)) (put a (some w) A)))
          ∙ ap some (put-put a (some v) (some w) A ∙ put-look env a A seen))

  -- The object is in the database, and is not deleted.
  abbrev pub Holds : StateObject → StateDb → Type 0
  Holds o s = (lookup o.address s.state_objects ≡ some o) × (o.deleted ≡ false)

  pub look-Holds :
      (o : StateObject) (s : StateDb)
      → Holds o s
      → (abstract env s).look o.address ≡ some (view env o)
  look-Holds o s (here, live) = rw here (look_object-live env o live)

  notify-rest :
      (b : Bool) (a : ℕ) (s : StateDb)
      → let t : StateDb = (if b then mark_dirty a s else s) in
        (t.journal ≡ s.journal)
        × (t.valid_revisions ≡ s.valid_revisions)
        × (t.next_revision_id ≡ s.next_revision_id)
  notify-rest true a s = (refl, refl, refl)
  notify-rest false a s = (refl, refl, refl)

  pub undo_one :
      (e : JournalEntry) (A : Abstract) {B : Abstract}
      → undo_view env e A ≡ some B
      → undo_views env (e ∷ []) A ≡ some B
  undo_one e A h = rw (h, undo_views)

  -- A setter that records an entry, where the entry gives the old view back.
  pub save-IsUndoable :
      (o' : StateObject) (e : JournalEntry) (s : StateDb)
      → IsValid env s
      → o'.deleted ≡ false
      → IsLive e
      → undo_view env e (put o'.address (some (view env o')) (abstract env s))
        ≡ some (abstract env s)
      → IsUndoable s (save o' (record_entry e s))
  unfolding save
  save-IsUndoable o' e s v live kind back =
      let rest = notify-rest o'.armed o'.address (record_entry e s) in
      record {
        entries = e ∷ [];
        live = (kind, tt);
        recorded = rest.0;
        undone = undo_one e (abstract env (save o' (record_entry e s))) (
            ap (undo_view env e) (
              abstract-save env o' (record_entry e s)
              ∙ ap (λ v. put o'.address v (abstract env s)) (look_object-live env o' live))
            ∙ back);
        revisions = rest.1;
        next_id = rest.2;
        valid =
            save-IsValid env o' (record_entry e s)
              (record { placed = v.placed; bounded = v.bounded }) live;
      }

  -- The same, where the entry rewrites the view at the address of the object.
  pub save-rewrite :
      (o o' : StateObject) (e : JournalEntry) (g : View → View) (s : StateDb)
      → IsValid env s
      → Holds o s
      → IsLive e
      → o'.deleted ≡ o.deleted
      → o'.address ≡ o.address
      → ((A : Abstract) → undo_view env e A ≡ rewrite o.address g A)
      → g (view env o') ≡ view env o
      → IsUndoable s (save o' (record_entry e s))
  save-rewrite o o' e g s v h kind alive at rule back =
      save-IsUndoable o' e s v (alive ∙ h.1) kind (
        rule (put o'.address (some (view env o')) (abstract env s))
        ∙ ap (λ a. rewrite o.address g (put a (some (view env o')) (abstract env s))) at
        ∙ rewrite-put o.address g (view env o') (abstract env s) (look-Holds o s h) at back)
