-- ===== src/State/Taken.antt =====
-- Nonces without a gap, for core/state/managed_state.go.
use mjoy_go.Base.{
  ℕ, zero, suc, ◌+◌, ◌-◌, ◌%◌, ◌≤◌, ◌<◌, u64_mod, ◌≡◌, refl, Bool, true, none, List, [], ◌∷◌, ◌++◌,
  length, length-append, take, leb, ap, arith,
}
use mjoy_go.State.Managed.{Tracked, next_nonce, first_free, take_nonce, free_from}

-- All the tracked nonces are taken: `NewNonce` never leaves a gap.
abbrev pub AllTaken : List Bool → Type 0
AllTaken [] = Unit
AllTaken (b ∷ bs) = (b ≡ true) × AllTaken bs

AllTaken-first_free : (bs : List Bool) → AllTaken bs → first_free bs ≡ none
AllTaken-first_free [] a = refl
AllTaken-first_free (b ∷ bs) (p, ps) = rw (p, AllTaken-first_free bs ps)

AllTaken-append : (bs : List Bool) → AllTaken bs → AllTaken (bs ++ true ∷ [])
AllTaken-append [] a = (refl, tt)
AllTaken-append (b ∷ bs) (p, ps) = (p, AllTaken-append bs ps)

AllTaken-take : (k : ℕ) (bs : List Bool) → AllTaken bs → AllTaken (take k bs)
AllTaken-take zero bs a = tt
AllTaken-take (suc k) [] a = tt
AllTaken-take (suc k) (b ∷ bs) (p, ps) = (p, AllTaken-take k bs ps)

length-take : (k : ℕ) (bs : List Bool) → k ≤ length bs → length (take k bs) ≡ k
length-take zero bs h = refl
length-take (suc k) [] h = absurd (omega arith)
length-take (suc k) (b ∷ bs) h = ap suc (length-take k bs (omega arith))

-- Where all tracked nonces are taken, `NewNonce` hands out the next one, the next one after it is
-- one higher, modulo 2 ^ 64, and all tracked nonces are taken again.
pub take_nonce-next_nonce :
    (t : Tracked)
    → AllTaken t.nonces
    → let (n, t') = take_nonce t (first_free t.nonces) in
      (n ≡ next_nonce t) × (next_nonce t' ≡ (n + 1) % u64_mod) × AllTaken t'.nonces
take_nonce-next_nonce t a =
    rw (AllTaken-first_free t.nonces a)
      (refl, omega (arith, length-append t.nonces (true ∷ [])), AllTaken-append t.nonces a)

-- Where all tracked nonces are taken, and a uint64 is one of them or the next, after `RemoveNonce`
-- of it this is the next nonce, and all tracked nonces are taken.
pub free_from-next_nonce :
    (n : ℕ) (t : Tracked)
    → AllTaken t.nonces
    → t.nstart ≤ n
    → n ≤ t.nstart + length t.nonces
    → n < u64_mod
    → (next_nonce (free_from n t) ≡ n) × AllTaken (free_from n t).nonces
free_from-next_nonce n t a low high small =
    rw (kept, short)
      (
        omega (arith, length-take (n - t.nstart) t.nonces (omega arith)),
        AllTaken-take (n - t.nstart) t.nonces a,
      )
  where
    kept : (n + u64_mod - t.nstart) % u64_mod ≡ n - t.nstart
    kept = omega arith

    short : leb (n - t.nstart) (length t.nonces) ≡ true
    short = ground arith
