-- ===== src/Pool/Limits.antt =====
-- `Cap` and `Len` of `txSortedMap` (core/txprocessor/tx_list.go), on the list in the order of the
-- nonces.
use mjoy_go.Base.{
  ℕ, zero, suc, ◌-◌, ◌≡◌, refl, true, false, Option, none, some, List, [], ◌∷◌, ◌++◌, ==_self, leb,
  lookup, Map, length, length-append, take, drop, append_assoc, append-nil, Bool-cases, inl, inr,
  ap, ◌∙◌, sym, subst, arith,
}
use mjoy_go.Pool.Sorted.{Tx, insert_tx, nonces, keep, AllTx}
use mjoy_go.Pool.SortedMap.{TxSortedMap, found, cap_loop, cap, unshift}
use mjoy_go.Pool.Contents.{
  contents, Sound, differs, Distinct, erase-Sound, lookup-contents, contents-Distinct,
  contents-erase, differs-sym,
}
use mjoy_go.Pool.Fronts.{Shows, Cached}

abbrev pub reversed : List Tx → List Tx
reversed [] = []
reversed (x ∷ xs) = reversed xs ++ x ∷ []

AllTx-last : (P : Tx → Type 0) (zs : List Tx) (y : Tx) → AllTx P (zs ++ y ∷ []) → P y
AllTx-last P [] y (p, _) = p
AllTx-last P (z ∷ zs) y (_, ps) = AllTx-last P zs y ps

-- To take the last of distinct transactions out leaves those before it.
keep-last :
    (zs : List Tx) (y : Tx) → Distinct (zs ++ y ∷ []) → keep (differs y.nonce) (zs ++ y ∷ []) ≡ zs
keep-last [] y d = rw (==_self y.nonce)
keep-last (z ∷ zs) y (apart, d) =
    rw (differs-sym z y (AllTx-last (λ x. differs z.nonce x ≡ true) zs y apart))
      (ap (◌∷◌ z) (keep-last zs y d))

cap_loop-Drops :
    (ys zs : List Tx) (items : Map Tx)
    → Sound items
    → contents items ≡ zs ++ ys
    → let r = cap_loop (nonces ys) items in (r.0 ≡ reversed ys) × Sound r.1 × (contents r.1 ≡ zs)
unfolding cap_loop
cap_loop-Drops [] zs items s e = (refl, s, e ∙ append-nil zs)
cap_loop-Drops (y ∷ ys) zs items s e =
    let (drops, s', e') =
      cap_loop-Drops ys (zs ++ y ∷ []) items s (e ∙ sym (append_assoc zs (y ∷ []) ys)) in
    let rest : Map Tx = (cap_loop (nonces ys) items).1 in
    let here : lookup y.nonce rest ≡ some y =
      AllTx-last (λ x. lookup x.nonce rest ≡ some x) zs y
        (subst (AllTx (λ x. lookup x.nonce rest ≡ some x)) e' (lookup-contents rest s')) in
    (
      (λ i. drops i ++ found (here i) []),
      erase-Sound y.nonce rest s',
      contents-erase y.nonce rest s'
          ∙ ap (keep (differs y.nonce)) e'
          ∙ keep-last zs y (subst Distinct e' (contents-Distinct rest s')),
    )

nonces-take : (n : ℕ) (xs : List Tx) → take n (nonces xs) ≡ nonces (take n xs)
nonces-take zero xs = refl
nonces-take (suc n) [] = refl
nonces-take (suc n) (x ∷ xs) = ap (◌∷◌ x.nonce) (nonces-take n xs)

nonces-drop : (n : ℕ) (xs : List Tx) → drop n (nonces xs) ≡ nonces (drop n xs)
nonces-drop zero xs = refl
nonces-drop (suc n) [] = refl
nonces-drop (suc n) (x ∷ xs) = nonces-drop n xs

take-drop : (n : ℕ) (xs : List Tx) → xs ≡ take n xs ++ drop n xs
take-drop zero xs = refl
take-drop (suc n) [] = refl
take-drop (suc n) (x ∷ xs) = ap (◌∷◌ x) (take-drop n xs)

length-insert_tx : (t : Tx) (xs : List Tx) → length (insert_tx t xs) ≡ suc (length xs)
length-insert_tx t [] = refl
length-insert_tx t (x ∷ xs) = ground (arith, length-insert_tx t xs)

pub length-contents : (m : Map Tx) → length (contents m) ≡ length m
length-contents [] = refl
length-contents ((n, t) ∷ m) = length-insert_tx t (contents m) ∙ ap suc (length-contents m)

take-short : (n : ℕ) (xs : List Tx) → leb (length xs) n ≡ true → (take n xs ≡ xs) × (drop n xs ≡ [])
take-short zero [] h = (refl, refl)
take-short zero (x ∷ xs) h = ground arith
take-short (suc n) [] h = (refl, refl)
take-short (suc n) (x ∷ xs) h = let (e, d) = take-short n xs (ground arith) in (ap (◌∷◌ x) e, d)

length-reversed : (xs : List Tx) → length (reversed xs) ≡ length xs
length-reversed [] = refl
length-reversed (x ∷ xs) = omega (arith, length-append (reversed xs) (x ∷ []), length-reversed xs)

take-all_but :
    (n : ℕ) (xs : List Tx) → leb (length xs) n ≡ false → length xs - length (drop n xs) ≡ n
take-all_but zero xs h = omega arith
take-all_but (suc n) [] h = ground arith
take-all_but (suc n) (x ∷ xs) h = ground (arith, take-all_but n xs)

unshift-Cached :
    (n : ℕ) (xs drops : List Tx) (c : Option (List Tx))
    → leb (length xs) n ≡ false
    → drops ≡ reversed (drop n xs)
    → Cached xs c
    → Cached (take n xs) (unshift (length drops) c)
unshift-Cached n xs drops none h e c = tt
unshift-Cached n xs drops (some ts) h e c =
    (λ i. take (length (c i) - length (e i)) (c i))
    ∙ ap (λ k. take (length xs - k) xs) (length-reversed (drop n xs))
    ∙ ap (λ k. take k xs) (take-all_but n xs h)

-- From a map that shows a list of transactions, `Cap` takes out and returns those past the limit,
-- the highest nonce first, and the map shows as many as the limit allows.
pub cap-Shows :
    (n : ℕ) (xs : List Tx) (m : TxSortedMap)
    → Shows xs m
    → ((cap n m).0 ≡ reversed (drop n xs)) × Shows (take n xs) (cap n m).1
unfolding cap
cap-Shows n xs m h = elim (Bool-cases (leb (length m.items) n)) [
  | inl short ↦
      let (all, rest) = take-short n xs (ap (λ k. leb k n) same ∙ short) in
      rw (short, all, rest) (refl, h)
  | inr long ↦
      let (drops, sound, content) =
        subst
          (λ ns.
            let r = cap_loop ns m.items in
            (r.0 ≡ reversed (drop n xs)) × Sound r.1 × (contents r.1 ≡ take n xs))
          (sym dropped)
          (cap_loop-Drops (drop n xs) (take n xs) m.items h.sound (h.content ∙ take-drop n xs)) in
      rw long (
        drops,
        record {
          sound = sound;
          content = content;
          indexed = ap (take n) h.indexed ∙ nonces-take n xs;
          cached =
              unshift-Cached n xs (cap_loop (drop n m.index) m.items).0 m.cache
                (ap (λ k. leb k n) same ∙ long) drops h.cached;
        },
      )
]
  where
    same : length xs ≡ length m.items
    same = ap length (sym h.content) ∙ length-contents m.items

    dropped : drop n m.index ≡ nonces (drop n xs)
    dropped = ap (drop n) h.indexed ∙ nonces-drop n xs
