-- ===== src/State/Since.antt =====
-- What a snapshot leads to, and what stays for its revert (core/state/statedb.go).
use mjoy_go.Base.{
  ℕ, ◌+◌, ◌-◌, ◌≤◌, ◌<◌, ◌≡◌, refl, Option, none, some, List, [], ◌∷◌, ◌++◌, append_assoc, length,
  length-append, take, drop, arith, ap, ◌∙◌, sym, subst,
}
use mjoy_go.State.Types.{Env, JournalEntry, Revision, StateDb}
use mjoy_go.State.Db
use mjoy_go.State.Db.{get_state_object}
use mjoy_go.State.Journal.{snapshot, search_revision, revert_to, revert_to_snapshot}
use mjoy_go.State.View.{abstract}
use mjoy_go.State.Spec.{undo_views}
use mjoy_go.State.Valid.{IsValid}
use mjoy_go.State.Undoable.{IsUndoable, AllLive}
use mjoy_go.State.Undone.{Undoes, undo_all-Undoes, undo_views-split}
use mjoy_go.State.Ops.{Op, apply}
use mjoy_go.State.Revisions.{
  Older, AllFrom, AllFrom-append, search_revision-past, take-within, drop-within, AllLive-cut,
}
use mjoy_go.State.Undoable.{AllLive-append, then_views, undo_views-append}

module _ (env : Env) where
  -- What a revert has brought back.
  abbrev pub Restores : StateDb → Option StateDb → Type 0
  Restores s none = ⊥
  Restores s (some u) =
      (abstract env u ≡ abstract env s)
      × (u.journal ≡ s.journal)
      × (u.valid_revisions ≡ s.valid_revisions)

  abbrev pub mark : StateDb → Revision
  mark s = record { id = s.next_revision_id; journal_index = length s.journal }

  pub snapshot-IsValid : (s : StateDb) → IsValid env s → IsValid env (snapshot s).1
  unfolding snapshot
  snapshot-IsValid s v = record { placed = v.placed; bounded = v.bounded }

  -- The states that a snapshot of `s` leads to, where nothing older is reverted: by the calls of
  -- `Op`, by getters that only cache what they read, by more snapshots, and by reverts to these.
  pub data Since (s : StateDb) : StateDb → Type 0 where
    marked : Since s (snapshot s).1
    call : (op : Op) {t : StateDb} → Since s t → Since s (apply env op t)
    read_state : (a k : ℕ) {t : StateDb} → Since s t → Since s (Db.get_state env a k t).1
    read_code : (a : ℕ) {t : StateDb} → Since s t → Since s (Db.get_code env a t).1
    read_code_hash : (a : ℕ) {t : StateDb} → Since s t → Since s (Db.get_code_hash env a t).1
    read_suicided : (a : ℕ) {t : StateDb} → Since s t → Since s (Db.has_suicided env a t).1
    nested : {t : StateDb} → Since s t → Since s (snapshot t).1
    reverted :
        (id : ℕ) {t u : StateDb}
        → s.next_revision_id < id
        → revert_to_snapshot env id t ≡ some u
        → Since s t
        → Since s u

  -- The journal and the revisions of `t` go back to those of `s`.
  pub record Kept (s t : StateDb) : Type 0 where
    pub entries : List JournalEntry
    pub newer : List Revision
    pub live : AllLive entries
    pub recorded : t.journal ≡ entries ++ s.journal
    pub undone : undo_views env entries (abstract env t) ≡ some (abstract env s)
    pub revisions : t.valid_revisions ≡ s.valid_revisions ++ (mark s ∷ newer)
    pub from : AllFrom (length s.journal) newer
    pub valid : IsValid env t

  -- What follows is undone first.
  pub Kept-then : {s t u : StateDb} → Kept s t → IsUndoable env t u → Kept s u
  Kept-then {s} {t} {u} k p = record {
    entries = p.entries ++ k.entries;
    newer = k.newer;
    live = AllLive-append p.entries k.entries p.live k.live;
    recorded =
        p.recorded
        ∙ ap (◌++◌ p.entries) k.recorded
        ∙ sym (append_assoc p.entries k.entries s.journal);
    undone =
        undo_views-append env p.entries k.entries (abstract env u)
        ∙ ap (then_views env k.entries) p.undone
        ∙ k.undone;
    revisions = p.revisions ∙ k.revisions;
    from = k.from;
    valid = p.valid;
  }

  pub Kept-marked : (s : StateDb) → IsValid env s → Kept s (snapshot s).1
  unfolding snapshot
  Kept-marked s v = record {
    entries = [];
    newer = [];
    live = tt;
    recorded = refl;
    undone = refl;
    revisions = refl;
    from = tt;
    valid = record { placed = v.placed; bounded = v.bounded };
  }

  pub Kept-nested : {s t : StateDb} → Kept s t → Kept s (snapshot t).1
  unfolding snapshot
  Kept-nested {s} {t} k = record {
    entries = k.entries;
    newer = k.newer ++ mark t ∷ [];
    live = k.live;
    recorded = k.recorded;
    undone = k.undone;
    revisions =
        ap (λ rs. rs ++ (mark t ∷ [])) k.revisions
        ∙ append_assoc s.valid_revisions (mark s ∷ k.newer) (mark t ∷ []);
    from =
        AllFrom-append (length s.journal) k.newer (mark t) k.from
          (omega (arith, ap length k.recorded, length-append k.entries s.journal));
    valid = record { placed = k.valid.placed; bounded = k.valid.bounded };
  }

  -- A revert to a revision that begins no earlier than the snapshot.
  pub revert_to-Kept :
      {s t : StateDb} (k : Kept s t) (i : ℕ) (r : Revision)
      → length s.journal ≤ r.journal_index
      → let rest : List JournalEntry = drop (length t.journal - r.journal_index) k.entries in
        (u : StateDb) × (revert_to env i r t ≡ some u)
        × (undo_views env rest (abstract env u) ≡ some (abstract env s))
        × (u.journal ≡ rest ++ s.journal)
        × (u.valid_revisions ≡ take i t.valid_revisions)
        × IsValid env u
  revert_to-Kept {s} {t} k i r late =
      let n : ℕ = length t.journal - r.journal_index in
      let within : n ≤ length k.entries =
        omega (arith, ap length k.recorded, length-append k.entries s.journal, late) in
      let (C, first, rest) =
        undo_views-split env n k.entries (abstract env t) (abstract env s) k.undone in
      let cut : take n t.journal ≡ take n k.entries =
        ap (take n) k.recorded ∙ take-within n k.entries s.journal within in
      let p : Undoes env (take n k.entries) t C =
        undo_all-Undoes env (take n k.entries) t C (AllLive-cut n k.entries k.live).0 k.valid
          first in
      (
        record (p.state) {
          journal = drop n p.state.journal;
          valid_revisions = take i p.state.valid_revisions;
        },
        rw (cut, revert_to) (rw (p.done)),
        subst (λ A. undo_views env (drop n k.entries) A ≡ some (abstract env s)) (sym p.seen) rest,
        ap (drop n) (p.journal ∙ k.recorded) ∙ drop-within n k.entries s.journal within,
        ap (take i) p.revisions,
        record { placed = p.valid.placed; bounded = p.valid.bounded },
      )

  -- The search for a revision that is newer than the snapshot.
  pub search-later :
      {s t : StateDb} (k : Kept s t) (id : ℕ)
      → Older s.next_revision_id s.valid_revisions
      → s.next_revision_id < id
      → search_revision 0 id t.valid_revisions
        ≡ search_revision (0 + length (s.valid_revisions ++ mark s ∷ [])) id k.newer
  search-later {s} {t} k id older newer =
      ap (search_revision 0 id)
        (k.revisions ∙ sym (append_assoc s.valid_revisions (mark s ∷ []) k.newer))
      ∙ search_revision-past 0 id (s.valid_revisions ++ mark s ∷ []) k.newer
          (Older-last s.valid_revisions older)
    where
      Older-last : (rs : List Revision) → Older s.next_revision_id rs → Older id (rs ++ mark s ∷ [])
      Older-last [] h = (newer, tt)
      Older-last (r ∷ rs) (h, hs) = (omega (arith, h, newer), Older-last rs hs)
