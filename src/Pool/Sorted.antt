-- ===== src/Pool/Sorted.antt =====
-- Transactions in the order of their nonces: `transaction.TxByNonce` (core/transaction) under
-- `sort.Sort`.
use mjoy_go.Base.{
  ℕ, ◌≡◌, refl, Bool, true, false, Option, List, [], ◌∷◌, leb, if◌then◌else◌, Map, arith,
  Bool-cases, inl, inr, ap, ◌∙◌,
}
use mjoy_go.Base.Int.{ℤ}

-- What the pool reads of a transaction. The size is that of its encoding; `sender` is `none` where
-- the signature gives no address, and `value` is `none` for a nil amount.
pub record Tx : Type 0 where
  pub hash : ℕ
  pub nonce : ℕ
  pub value : Option ℤ
  pub cost : ℤ
  pub size : ℕ
  pub sender : Option ℕ

abbrev pub insert_tx : Tx → List Tx → List Tx
insert_tx t [] = t ∷ []
insert_tx t (x ∷ xs) = if leb t.nonce x.nonce then t ∷ x ∷ xs else x ∷ insert_tx t xs

-- `sort.Sort(TxByNonce(txs))`
abbrev pub sort_txs : List Tx → List Tx
sort_txs [] = []
sort_txs (t ∷ ts) = insert_tx t (sort_txs ts)

abbrev pub insert_nonce : ℕ → List ℕ → List ℕ
insert_nonce n [] = n ∷ []
insert_nonce n (x ∷ xs) = if leb n x then n ∷ x ∷ xs else x ∷ insert_nonce n xs

abbrev pub sort_nonces : List ℕ → List ℕ
sort_nonces [] = []
sort_nonces (n ∷ ns) = insert_nonce n (sort_nonces ns)

abbrev pub nonces : List Tx → List ℕ
nonces [] = []
nonces (t ∷ ts) = t.nonce ∷ nonces ts

abbrev pub values : Map Tx → List Tx
values [] = []
values ((n, t) ∷ m) = t ∷ values m

abbrev pub keys : Map Tx → List ℕ
keys [] = []
keys ((n, t) ∷ m) = n ∷ keys m

-- The transactions that a filter lets stay.
abbrev pub keep : (Tx → Bool) → List Tx → List Tx
keep p [] = []
keep p (t ∷ ts) = if p t then t ∷ keep p ts else keep p ts

abbrev pub AllTx : (Tx → Type 0) → List Tx → Type 0
AllTx P [] = Unit
AllTx P (t ∷ ts) = P t × AllTx P ts

abbrev pub Ascending : List Tx → Type 0
Ascending [] = Unit
Ascending (t ∷ ts) = AllTx (λ x. leb t.nonce x.nonce ≡ true) ts × Ascending ts

pub AllTx-insert :
    (P : Tx → Type 0) (t : Tx) (xs : List Tx) → P t → AllTx P xs → AllTx P (insert_tx t xs)
AllTx-insert P t [] p ps = (p, tt)
AllTx-insert P t (x ∷ xs) p (q, qs) = elim (Bool-cases (leb t.nonce x.nonce)) [
  | inl e ↦ rw e (p, (q, qs))
  | inr e ↦ rw e (q, AllTx-insert P t xs p qs)
]

pub AllTx-map :
    (P Q : Tx → Type 0) (xs : List Tx) → ((x : Tx) → P x → Q x) → AllTx P xs → AllTx Q xs
AllTx-map P Q [] f ps = tt
AllTx-map P Q (x ∷ xs) f (p, ps) = (f x p, AllTx-map P Q xs f ps)

leb_trans : (a b c : ℕ) → leb a b ≡ true → leb b c ≡ true → leb a c ≡ true
leb_trans a b c p q = ground arith

leb_total : (a b : ℕ) → leb a b ≡ false → leb b a ≡ true
leb_total a b p = ground arith

pub insert-Ascending : (t : Tx) (xs : List Tx) → Ascending xs → Ascending (insert_tx t xs)
insert-Ascending t [] a = (tt, tt)
insert-Ascending t (x ∷ xs) (least, a) = elim (Bool-cases (leb t.nonce x.nonce)) [
  | inl e ↦ rw e (
    (
      e,
      AllTx-map (λ y. leb x.nonce y.nonce ≡ true) (λ y. leb t.nonce y.nonce ≡ true) xs
          (λ y. leb_trans t.nonce x.nonce y.nonce e) least,
    ),
    (least, a),
  )
  | inr e ↦ rw e (
    AllTx-insert (λ y. leb x.nonce y.nonce ≡ true) t xs (leb_total t.nonce x.nonce e) least,
    insert-Ascending t xs a,
  )
]

pub sort-Ascending : (ts : List Tx) → Ascending (sort_txs ts)
sort-Ascending [] = tt
sort-Ascending (t ∷ ts) = insert-Ascending t (sort_txs ts) (sort-Ascending ts)

pub AllTx-sort : (P : Tx → Type 0) (ts : List Tx) → AllTx P ts → AllTx P (sort_txs ts)
AllTx-sort P [] ps = tt
AllTx-sort P (t ∷ ts) (p, ps) = AllTx-insert P t (sort_txs ts) p (AllTx-sort P ts ps)

-- A transaction with a nonce at most all others' goes to the front.
insert-least :
    (t : Tx) (xs : List Tx) → AllTx (λ x. leb t.nonce x.nonce ≡ true) xs → insert_tx t xs ≡ t ∷ xs
insert-least t [] a = refl
insert-least t (x ∷ xs) (p, _) = rw p

pub AllTx-keep : (P : Tx → Type 0) (p : Tx → Bool) (xs : List Tx) → AllTx P xs → AllTx P (keep p xs)
AllTx-keep P p [] ps = tt
AllTx-keep P p (x ∷ xs) (q, qs) = elim (Bool-cases (p x)) [
  | inl e ↦ rw e (q, AllTx-keep P p xs qs)
  | inr e ↦ rw e (AllTx-keep P p xs qs)
]

pub keep-insert :
    (p : Tx → Bool) (t : Tx) (xs : List Tx)
    → Ascending xs
    → keep p (insert_tx t xs) ≡ (if p t then insert_tx t (keep p xs) else keep p xs)
keep-insert p t [] a = refl
keep-insert p t (x ∷ xs) (least, a) = elim (Bool-cases (leb t.nonce x.nonce)) [
  | inl e ↦
      let above : AllTx (λ y. leb t.nonce y.nonce ≡ true) (x ∷ xs) = (
        e,
        AllTx-map (λ y. leb x.nonce y.nonce ≡ true) (λ y. leb t.nonce y.nonce ≡ true) xs
            (λ y. leb_trans t.nonce x.nonce y.nonce e) least,
      ) in
      rw (
        e,
        insert-least t (keep p (x ∷ xs))
            (AllTx-keep (λ y. leb t.nonce y.nonce ≡ true) p (x ∷ xs) above),
      )
  | inr e ↦ elim (Bool-cases (p x)) [
    | inl q ↦
        rw (e, q, keep-insert p t xs a)
          (elim (Bool-cases (p t)) [ inl r ↦ rw (r, e) | inr r ↦ rw r ])
    | inr q ↦ rw (e, q) (keep-insert p t xs a)
  ]
]

pub nonces-insert :
    (t : Tx) (xs : List Tx) → nonces (insert_tx t xs) ≡ insert_nonce t.nonce (nonces xs)
nonces-insert t [] = refl
nonces-insert t (x ∷ xs) = elim (Bool-cases (leb t.nonce x.nonce)) [
  | inl e ↦ rw e
  | inr e ↦ rw e (ap (◌∷◌ x.nonce) (nonces-insert t xs))
]

pub nonces-sort : (ts : List Tx) → nonces (sort_txs ts) ≡ sort_nonces (nonces ts)
nonces-sort [] = refl
nonces-sort (t ∷ ts) = nonces-insert t (sort_txs ts) ∙ ap (insert_nonce t.nonce) (nonces-sort ts)
