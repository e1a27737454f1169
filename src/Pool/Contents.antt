-- ===== src/Pool/Contents.antt =====
-- What a `txSortedMap` (core/txprocessor/tx_list.go) holds, as one list in the order of the nonces.
use mjoy_go.Base.{
  ℕ, ◌≡◌, refl, Bool, true, false, not, none, some, List, [], ◌∷◌, ◌==◌, ==_self, if◌then◌else◌,
  leb, lookup, erase, Map, lookup-erase, Bool-cases, inl, inr, ap, ◌∙◌, sym, subst, arith,
}
use mjoy_go.Pool.Sorted.{
  Tx, insert_tx, sort_txs, keep, AllTx, AllTx-insert, AllTx-map, sort-Ascending, keep-insert,
  values,
}

abbrev pub contents : Map Tx → List Tx
contents items = sort_txs (values items)

-- Each item stands at its own nonce, and no nonce occurs twice.
abbrev pub Sound : Map Tx → Type 0
Sound [] = Unit
Sound ((n, t) ∷ m) = (t.nonce ≡ n) × (lookup n m ≡ none) × Sound m

abbrev pub differs : ℕ → Tx → Bool
differs n t = not (n == t.nonce)

-- No two transactions have the same nonce.
abbrev pub Distinct : List Tx → Type 0
Distinct [] = Unit
Distinct (t ∷ ts) = AllTx (λ x. differs t.nonce x ≡ true) ts × Distinct ts

pub erase-Sound : (n : ℕ) (m : Map Tx) → Sound m → Sound (erase n m)
erase-Sound n [] s = tt
erase-Sound n ((k, t) ∷ m) (named, fresh, s) = elim (Bool-cases (k == n)) [
  | inl e ↦ rw e (erase-Sound n m s)
  | inr e ↦ rw e (named, kept, erase-Sound n m s)
]
  where
    kept : lookup k (erase n m) ≡ none
    kept = ground (arith, lookup-erase n k m)

listed :
    (n : ℕ) (t x : Tx) (m : Map Tx)
    → lookup n m ≡ none
    → lookup x.nonce m ≡ some x
    → (if n == x.nonce then some t else lookup x.nonce m) ≡ some x
listed n t x m fresh there = ground arith

pub lookup-contents : (m : Map Tx) → Sound m → AllTx (λ x. lookup x.nonce m ≡ some x) (contents m)
lookup-contents [] s = tt
lookup-contents ((n, t) ∷ m) (named, fresh, s) =
    AllTx-insert (λ x. (if n == x.nonce then some t else lookup x.nonce m) ≡ some x) t (contents m)
      (rw (named, ==_self n))
      (AllTx-map (λ x. lookup x.nonce m ≡ some x)
        (λ x. (if n == x.nonce then some t else lookup x.nonce m) ≡ some x) (contents m)
        (λ x. listed n t x m fresh) (lookup-contents m s))

fresh-differs :
    (n : ℕ) (x : Tx) (m : Map Tx)
    → lookup n m ≡ none
    → lookup x.nonce m ≡ some x
    → differs n x ≡ true
fresh-differs n x m fresh there = ground arith

-- A nonce that is missing is no transaction's.
pub missing-differs :
    (n : ℕ) (m : Map Tx)
    → Sound m
    → lookup n m ≡ none
    → AllTx (λ x. differs n x ≡ true) (contents m)
missing-differs n m s fresh =
    AllTx-map (λ x. lookup x.nonce m ≡ some x) (λ x. differs n x ≡ true) (contents m)
      (λ x. fresh-differs n x m fresh) (lookup-contents m s)

pub differs-sym : (t x : Tx) → differs t.nonce x ≡ true → differs x.nonce t ≡ true
differs-sym t x h = ground arith

insert-Distinct :
    (t : Tx) (xs : List Tx)
    → AllTx (λ x. differs t.nonce x ≡ true) xs
    → Distinct xs
    → Distinct (insert_tx t xs)
insert-Distinct t [] new d = (tt, tt)
insert-Distinct t (x ∷ xs) (new, news) (apart, d) = elim (Bool-cases (leb t.nonce x.nonce)) [
  | inl e ↦ rw e ((new, news), (apart, d))
  | inr e ↦ rw e (
    AllTx-insert (λ y. differs x.nonce y ≡ true) t xs (differs-sym t x new) apart,
    insert-Distinct t xs news d,
  )
]

pub contents-Distinct : (m : Map Tx) → Sound m → Distinct (contents m)
contents-Distinct [] s = tt
contents-Distinct ((n, t) ∷ m) (named, fresh, s) =
    insert-Distinct t (contents m)
      (subst (λ k. AllTx (λ x. differs k x ≡ true) (contents m)) (sym named)
        (missing-differs n m s fresh))
      (contents-Distinct m s)

pub keep-all : (p : Tx → Bool) (xs : List Tx) → AllTx (λ x. p x ≡ true) xs → keep p xs ≡ xs
keep-all p [] a = refl
keep-all p (x ∷ xs) (h, hs) = rw h (ap (◌∷◌ x) (keep-all p xs hs))

-- To erase a nonce takes its transaction out of the list.
pub contents-erase :
    (n : ℕ) (m : Map Tx) → Sound m → contents (erase n m) ≡ keep (differs n) (contents m)
contents-erase n [] s = refl
contents-erase n ((k, t) ∷ m) (named, fresh, s) = elim (Bool-cases (k == n)) [
  | inl e ↦ rw e (
      contents-erase n m s
      ∙ sym (keep-insert (differs n) t (contents m) (sort-Ascending (values m)) ∙ gone e))
  | inr e ↦ rw e (
      ap (insert_tx t) (contents-erase n m s)
      ∙ sym (keep-insert (differs n) t (contents m) (sort-Ascending (values m)) ∙ stays e))
]
  where
    kept : List Tx
    kept = keep (differs n) (contents m)

    gone : (k == n) ≡ true → (if differs n t then insert_tx t kept else kept) ≡ kept
    gone e = ground arith

    stays : (k == n) ≡ false → (if differs n t then insert_tx t kept else kept) ≡ insert_tx t kept
    stays e = ground arith
