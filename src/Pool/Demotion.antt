-- ===== src/Pool/Demotion.antt =====
-- What `demoteUnexecutables` (core/txprocessor/tx_pool.go) leaves pending.
use mjoy_go.Base.{
  ℕ, ◌≡◌, refl, Bool, true, some, List, [], ◌∷◌, lookup, lookup-erase, lookup-insert_self, get_or,
  length, ltb, ◌==◌, ==_self, if◌then◌else◌, Bool-cases, Option-cases, inl, inr, ap, ◌∙◌, sym,
  subst, arith,
}
use mjoy_go.Base.Int.{ℤ}
use mjoy_go.State.Types.{Env, StateDb}
use mjoy_go.State.Db
use mjoy_go.State.Getters.{balance-view, nonce-view}
use mjoy_go.State.View.{Abstract, abstract}
use mjoy_go.Processor.Ledger.{balance, nonce}
use mjoy_go.Pool.Sorted.{Tx, keep}
use mjoy_go.Pool.SortedMap.{get}
use mjoy_go.Pool.Fronts.{from_nonce}
use mjoy_go.Pool.Changes.{holds, is_some, holds-lookup}
use mjoy_go.Pool.Sweeps.{stays}
use mjoy_go.Pool.Limits.{length-contents}
use mjoy_go.Pool.TxList
use mjoy_go.Pool.TxList.{TxList, new_tx_list, is_empty, too_costly}
use mjoy_go.Pool.TxPool.{TxPool}
use mjoy_go.Pool.Moves.{postpone, settle_pending, demote_list, demote}
use mjoy_go.Pool.Costs.{Covers}
use mjoy_go.Pool.Budget.{cut, Uint64Nonces, filter-Filtered}
use mjoy_go.Pool.Validation.{get_nonce-shows}
use mjoy_go.Pool.Removal.{forward-Covers, cap-Covers}

-- A list that does not hold the nonce is given up.
abbrev pub gapless : ℕ → List Tx → List Tx
gapless n xs = if holds n xs then xs else []

-- What can still be executed, from the state's nonce on and with its balance.
abbrev pub executable : ℕ → ℤ → Bool → List Tx → List Tx
executable n b strict xs =
    let due : List Tx = from_nonce n xs in
    gapless n (cut strict (keep (too_costly b) due) (keep (stays (too_costly b)) due))

no-length : (xs : List Tx) → (length xs == 0) ≡ true → xs ≡ []
no-length [] e = refl
no-length (x ∷ xs) e = ground arith

empty-Covers : (xs : List Tx) (l : TxList) → Covers xs l → is_empty l ≡ true → xs ≡ []
empty-Covers xs l h e =
    no-length xs
      (ap (λ n. n == 0) (ap length (sym h.shows.content) ∙ length-contents l.txs.items) ∙ e)

new_tx_list-Covers : (strict : Bool) → Covers [] (new_tx_list strict)
new_tx_list-Covers strict = record {
  shows = record { sound = tt; content = refl; indexed = refl; cached = tt };
  capped = tt;
}

holds-get : (n : ℕ) (xs : List Tx) (l : TxList) → Covers xs l → holds n xs ≡ is_some (get n l.txs)
unfolding get
holds-get n xs l h = sym (holds-lookup n l.txs.items h.shows.sound ∙ ap (holds n) h.shows.content)

postpone-Covers :
    (n : ℕ) (xs : List Tx) (l : TxList) → Covers xs l → Covers (gapless n xs) (postpone n l).1
postpone-Covers n xs l h = elim (Bool-cases (is_empty l)) [
  | inl e ↦
      let nil : xs ≡ [] = empty-Covers xs l h e in rw (e, nil) (subst (λ ys. Covers ys l) nil h)
  | inr e ↦ elim (Option-cases (get n l.txs)) [
    | inl miss ↦ rw (e, miss, holds-get n xs l h, miss) (cap-Covers 0 xs l h).1
    | inr (t, hit) ↦ rw (e, hit, holds-get n xs l h, hit) h
  ]
]

-- The pending list of an account: a missing one is empty.
abbrev pub pending_of : ℕ → TxPool → TxList
pending_of a p = get_or (new_tx_list true) (lookup a p.pending)

settle_pending-Covers :
    (a : ℕ) (xs : List Tx) (l : TxList) (p : TxPool)
    → Covers xs l
    → Covers xs (pending_of a (settle_pending a l p))
settle_pending-Covers a xs l p h = elim (Bool-cases (is_empty l)) [
  | inl e ↦
      rw (e, lookup-erase a a p.pending, ==_self a)
        (subst (λ ys. Covers ys (new_tx_list true)) (sym (empty-Covers xs l h e))
          (new_tx_list-Covers true))
  | inr e ↦ rw (e, lookup-insert_self a l p.pending) h
]

from_nonce-Uint64Nonces : (n : ℕ) (xs : List Tx) → Uint64Nonces xs → Uint64Nonces (from_nonce n xs)
from_nonce-Uint64Nonces n [] small = tt
from_nonce-Uint64Nonces n (x ∷ xs) (p, ps) = elim (Bool-cases (ltb x.nonce n)) [
  | inl e ↦ rw e (from_nonce-Uint64Nonces n xs ps)
  | inr e ↦ rw e (p, ps)
]

demote_list-Covers :
    (a n : ℕ) (b : ℤ) (xs : List Tx) (l : TxList) (p : TxPool)
    → Covers xs l
    → Uint64Nonces xs
    → Covers (executable n b l.strict xs) (pending_of a (demote_list a n b l p))
unfolding TxList.forward
demote_list-Covers a n b xs l p h small =
    let l₁ : TxList = (TxList.forward n l).1 in
    let l₂ : TxList = (TxList.filter b l₁).1 in
    let filtered =
      filter-Filtered b (from_nonce n xs) l₁ (forward-Covers n xs l h).1
        (from_nonce-Uint64Nonces n xs small) in
    let due : List Tx = from_nonce n xs in
    settle_pending-Covers a (executable n b l.strict xs) (postpone n l₂).1 _ (
      postpone-Covers n (cut l.strict (keep (too_costly b) due) (keep (stays (too_costly b)) due))
        l₂ filtered.2)

module _ (env : Env) where
  -- Where an account has a pending list that covers its transactions, whose nonces are those of a
  -- uint64, after its round of `demoteUnexecutables` its pending list, or an empty one if it has
  -- none, covers those of them from the current state's nonce on that cost no more than the state's
  -- balance, in strict mode without those with a higher nonce than one that costs more; and if none of
  -- these has just the state's nonce, it covers nothing.
  pub demote-Covers :
      (a : ℕ) (xs : List Tx) (l : TxList) (p : TxPool)
      → lookup a p.pending ≡ some l
      → Covers xs l
      → Uint64Nonces xs
      → let A : Abstract = abstract env p.current_state in
        Covers
          (executable (nonce env a A) (balance env a A) l.strict xs)
          (pending_of a (demote env a p))
  unfolding demote
  demote-Covers a xs l p here h small =
      let s : StateDb = p.current_state in
      let s' : StateDb = (Db.get_nonce env a s).1 in
      let carries : (Db.get_balance env a s').0 ≡ balance env a (abstract env s) =
        balance-view env a s' ∙ ap (balance env a) (get_nonce-shows env a s) in
      rw (here, demote)
        (subst
          (λ xs'. Covers xs' (
            pending_of a (
              demote_list a (Db.get_nonce env a s).0 (Db.get_balance env a s').0 l
                (record p { current_state = (Db.get_balance env a s').1 }))))
          (λ i. executable (nonce-view env a s i) (carries i) l.strict xs)
          (demote_list-Covers a (Db.get_nonce env a s).0 (Db.get_balance env a s').0 xs l
            (record p { current_state = (Db.get_balance env a s').1 }) h small))
