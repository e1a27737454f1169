-- ===== src/State/Revert.antt =====
-- A snapshot is a promise: whatever is done to the state afterwards, `RevertToSnapshot` brings
-- back what it showed (core/state/statedb.go).
use mjoy_go.Base.{
  ℕ, ◌+◌, ◌-◌, ◌<◌, ◌≡◌, true, leb, ◌==◌, if◌then◌else◌, none, some, List, [], ◌∷◌, ◌++◌,
  append_assoc, append-nil, get_or, length, length-append, take, drop, arith, ==_self, Option-cases,
  Bool-cases, inl, inr, ap, ◌∙◌, sym, subst,
}
use mjoy_go.State.Types.{Env, Revision, StateDb}
use mjoy_go.State.Db
use mjoy_go.State.Db.{get_state_object}
use mjoy_go.State.Journal.{snapshot, search_revision, revert_to, revert_to_snapshot}
use mjoy_go.State.View.{abstract}
use mjoy_go.State.Valid.{IsValid}
use mjoy_go.State.Objects.{get_state_object-IsUndoable}
use mjoy_go.State.Reads.{get_state-IsUndoable, get_code-IsUndoable}
use mjoy_go.State.Ops.{Op, run, apply-IsUndoable}
use mjoy_go.State.Revisions.{
  Older, AllFrom-take, search_revision-past, FoundFrom, search_revision-FoundFrom, take-past,
  drop-all, AllLive-cut,
}
use mjoy_go.State.Since.{
  Restores, mark, Since, marked, call, read_state, read_code, read_code_hash, read_suicided, nested,
  reverted, Kept, Kept-then, Kept-marked, Kept-nested, revert_to-Kept, search-later,
}

module _ (env : Env) where
  found-Kept :
      {s t u : StateDb} (id i : ℕ) (r : Revision)
      → Older s.next_revision_id s.valid_revisions
      → s.next_revision_id < id
      → search_revision 0 id t.valid_revisions ≡ some (i, r)
      → revert_to env i r t ≡ some u
      → Kept env s t
      → Kept env s u
  found-Kept {s} {t} {u} id i r older newer found done k =
      let L : List Revision = s.valid_revisions ++ mark env s ∷ [] in
      let (beyond, late) =
        subst (FoundFrom (0 + length L) (length s.journal))
          (sym (search-later env k id older newer) ∙ found)
          (search_revision-FoundFrom (0 + length L) id (length s.journal) k.newer k.from) in
      let (w, reverted_to, undone, journal, revisions, valid) = revert_to-Kept env k i r late in
      let same : w ≡ u = ap (get_or w) (sym reverted_to ∙ done) in
      let kept : Kept env s w = record {
        entries = drop (length t.journal - r.journal_index) k.entries;
        newer = take (i - length L) k.newer;
        live = (AllLive-cut (length t.journal - r.journal_index) k.entries k.live).1;
        recorded = journal;
        undone = undone;
        revisions =
            revisions
            ∙ ap (take i)
                (k.revisions ∙ sym (append_assoc s.valid_revisions (mark env s ∷ []) k.newer))
            ∙ take-past i L k.newer (omega (arith, beyond))
            ∙ append_assoc s.valid_revisions (mark env s ∷ []) (take (i - length L) k.newer);
        from = AllFrom-take (length s.journal) (i - length L) k.newer k.from;
        valid = valid;
      } in
      subst (Kept env s) same kept

  Kept-reverted :
      {s t u : StateDb} (id : ℕ)
      → Older s.next_revision_id s.valid_revisions
      → s.next_revision_id < id
      → revert_to_snapshot env id t ≡ some u
      → Kept env s t
      → Kept env s u
  unfolding revert_to_snapshot
  Kept-reverted {s} {t} {u} id older newer done k =
      elim (Option-cases (search_revision 0 id t.valid_revisions)) [
        | inl lost ↦ let bad : none ≡ some u = rw (lost, revert_to_snapshot) at done in cc
        | inr ((i, r), found) ↦ elim (Bool-cases (r.id == id)) [
          | inl named ↦
              let at_once : (if r.id == id then revert_to env i r t else none) ≡ some u =
                rw (found, revert_to_snapshot) at done in
              found-Kept id i r older newer found (rw (named) at at_once) k
          | inr other ↦
              let at_once : (if r.id == id then revert_to env i r t else none) ≡ some u =
                rw (found, revert_to_snapshot) at done in
              let bad : none ≡ some u = rw (other) at at_once in cc
        ]
      ]

  getters : Unit {0}
  unfolding Db.get_code_hash Db.has_suicided
  getters = tt

  Since-Kept :
      {s t : StateDb}
      → IsValid env s
      → Older s.next_revision_id s.valid_revisions
      → Since env s t
      → Kept env s t
  unfolding getters
  Since-Kept {s} v older marked = Kept-marked env s v
  Since-Kept v older (call op {t} p) =
      let k = Since-Kept v older p in Kept-then env k (apply-IsUndoable env op t k.valid)
  Since-Kept v older (read_state a j {t} p) =
      let k = Since-Kept v older p in Kept-then env k (get_state-IsUndoable env a j t k.valid)
  Since-Kept v older (read_code a {t} p) =
      let k = Since-Kept v older p in Kept-then env k (get_code-IsUndoable env a t k.valid)
  Since-Kept v older (read_code_hash a {t} p) =
      let k = Since-Kept v older p in Kept-then env k (get_state_object-IsUndoable env a t k.valid)
  Since-Kept v older (read_suicided a {t} p) =
      let k = Since-Kept v older p in Kept-then env k (get_state_object-IsUndoable env a t k.valid)
  Since-Kept v older (nested p) = Kept-nested env (Since-Kept v older p)
  Since-Kept v older (reverted id newer done p) =
      Kept-reverted id older newer done (Since-Kept v older p)

  -- Calls in a row.
  pub run-Since : (ops : List Op) {s t : StateDb} → Since env s t → Since env s (run env ops t)
  unfolding run
  run-Since [] p = p
  run-Since (op ∷ ops) p = run-Since ops (call op p)

  search-mark :
      {s t : StateDb}
      → Kept env s t
      → Older s.next_revision_id s.valid_revisions
      → search_revision 0 s.next_revision_id t.valid_revisions
        ≡ some (0 + length s.valid_revisions, mark env s)
  unfolding search_revision
  search-mark {s} {t} k older =
      let reached : leb s.next_revision_id s.next_revision_id ≡ true = ground arith in
      ap (search_revision 0 s.next_revision_id) k.revisions
      ∙ search_revision-past 0 s.next_revision_id s.valid_revisions (mark env s ∷ k.newer) older
      ∙ rw reached

  -- From a valid state whose revisions are older than the next one, take a snapshot; then
  -- make, in any order, the fourteen calls of Op, the calls GetState, GetCode, GetCodeHash
  -- and HasSuicided, more snapshots, and reverts to these. RevertToSnapshot of the first
  -- snapshot then does not panic, shows every account, the refund, the logs and the preimages
  -- as they were, and cuts the journal and the revisions back to what they were.
  pub revert_to_snapshot-snapshot :
      {s t : StateDb}
      → IsValid env s
      → Older s.next_revision_id s.valid_revisions
      → Since env s t
      → Restores env s (revert_to_snapshot env (snapshot s).0 t)
  unfolding revert_to_snapshot snapshot
  revert_to_snapshot-snapshot {s} {t} v older p =
      let k : Kept env s t = Since-Kept v older p in
      let (u, done, undone, journal, revisions, _) =
        revert_to-Kept env k (0 + length s.valid_revisions) (mark env s) (omega arith) in
      let all : drop (length t.journal - length s.journal) k.entries ≡ [] =
        ap (λ n. drop n k.entries)
          (omega (arith, ap length k.recorded, length-append k.entries s.journal))
        ∙ drop-all k.entries in
      let seen : abstract env u ≡ abstract env s =
        ap (get_or (abstract env u)) (rw all at undone) in
      let answer : revert_to_snapshot env s.next_revision_id t ≡ some u =
        rw (search-mark k older, revert_to_snapshot) (rw (==_self s.next_revision_id) done) in
      let no_more : 0 + length s.valid_revisions - length s.valid_revisions ≡ 0 = omega arith in
      let back : u.valid_revisions ≡ s.valid_revisions =
        revisions
        ∙ ap (take (0 + length s.valid_revisions)) k.revisions
        ∙ take-past (0 + length s.valid_revisions) s.valid_revisions (mark env s ∷ k.newer)
            (omega arith)
        ∙ ap (λ n. s.valid_revisions ++ take n (mark env s ∷ k.newer)) no_more
        ∙ append-nil s.valid_revisions in
      subst (Restores env s) (sym answer) (seen, journal ∙ ap (λ es. es ++ s.journal) all, back)
