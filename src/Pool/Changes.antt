-- ===== src/Pool/Changes.antt =====
-- `Put`, `Get` and `Remove` of `txSortedMap` (core/txprocessor/tx_list.go), on the list in the
-- order of the nonces.
use mjoy_go.Base.{
  ℕ, ◌≡◌, refl, Bool, true, false, Option, none, some, List, [], ◌∷◌, ◌==◌, ==_self, ==_cases,
  if◌then◌else◌, lookup, insert, Map, lookup-insert, Bool-cases, Option-cases, inl, inr, ap, ◌∙◌,
  sym, subst, arith,
}
use mjoy_go.Pool.Sorted.{
  Tx, insert_tx, insert_nonce, sort_nonces, nonces, values, keys, keep, AllTx, sort-Ascending,
  keep-insert, nonces-insert, nonces-sort,
}
use mjoy_go.Pool.SortedMap.{TxSortedMap, put, remove, remove_nonce}
use mjoy_go.Pool.Contents.{
  contents, Sound, differs, Distinct, erase-Sound, missing-differs, contents-Distinct, keep-all,
  contents-erase,
}
use mjoy_go.Pool.Fronts.{Shows}

-- Transactions with different nonces may be inserted in either order.
insert-insert :
    (t w : Tx) (ys : List Tx)
    → differs w.nonce t ≡ true
    → insert_tx w (insert_tx t ys) ≡ insert_tx t (insert_tx w ys)
insert-insert t w [] d = ground arith
insert-insert t w (y ∷ ys) d = ground (arith, insert-insert t w ys d)

insert-Sound : (t : Tx) (m : Map Tx) → Sound m → Sound (insert t.nonce t m)
insert-Sound t [] s = (refl, refl, tt)
insert-Sound t ((k, w) ∷ m) (named, fresh, s) = elim (==_cases k t.nonce) [
  | inl e ↦ rw (e, ==_self t.nonce) (refl, rw e at fresh, s)
  | inr e ↦ rw e (named, lookup-insert t.nonce k t m ∙ missing e, insert-Sound t m s)
]
  where
    missing : (k == t.nonce) ≡ false → (if t.nonce == k then some t else lookup k m) ≡ none
    missing e = ground arith

contents-insert :
    (t : Tx) (m : Map Tx)
    → Sound m
    → contents (insert t.nonce t m) ≡ insert_tx t (keep (differs t.nonce) (contents m))
contents-insert t [] s = refl
contents-insert t ((k, w) ∷ m) (named, fresh, s) = elim (Bool-cases (k == t.nonce)) [
  | inl e ↦ rw e (ap (insert_tx t) (sym (split ∙ gone e)))
  | inr e ↦ rw e (
      ap (insert_tx w) (contents-insert t m s)
      ∙ insert-insert t w kept (other e)
      ∙ ap (insert_tx t) (sym (split ∙ stays e)))
]
  where
    kept : List Tx
    kept = keep (differs t.nonce) (contents m)

    split :
        keep (differs t.nonce) (insert_tx w (contents m))
        ≡ (if differs t.nonce w then insert_tx w kept else kept)
    split = keep-insert (differs t.nonce) w (contents m) (sort-Ascending (values m))

    other : (k == t.nonce) ≡ false → differs w.nonce t ≡ true
    other e = ground arith

    stays :
        (k == t.nonce) ≡ false
        → (if differs t.nonce w then insert_tx w kept else kept) ≡ insert_tx w kept
    stays e = ground arith

    absent : (k == t.nonce) ≡ true → lookup t.nonce m ≡ none
    absent e = ground arith

    fold : (k == t.nonce) ≡ true → (if differs t.nonce w then insert_tx w kept else kept) ≡ kept
    fold e = ground arith

    gone :
        (k == t.nonce) ≡ true → (if differs t.nonce w then insert_tx w kept else kept) ≡ contents m
    gone e =
        fold e ∙ keep-all (differs t.nonce) (contents m) (missing-differs t.nonce m s (absent e))

nonces-values : (m : Map Tx) → Sound m → nonces (values m) ≡ keys m
nonces-values [] s = refl
nonces-values ((n, t) ∷ m) (named, fresh, s) = λ i. named i ∷ nonces-values m s i

-- The nonces in order are the sorted keys.
pub nonces-contents : (m : Map Tx) → Sound m → nonces (contents m) ≡ sort_nonces (keys m)
nonces-contents m s = nonces-sort (values m) ∙ ap sort_nonces (nonces-values m s)

keys-insert :
    (n : ℕ) (t old : Tx) (m : Map Tx) → lookup n m ≡ some old → keys (insert n t m) ≡ keys m
keys-insert n t old [] h = ground arith
keys-insert n t old ((k, w) ∷ m) h = ground (arith, keys-insert n t old m)

-- From a map that shows a list of transactions, `Put` makes it show the list with the transaction
-- at its place, instead of any with the same nonce.
pub put-Shows :
    (t : Tx) (xs : List Tx) (m : TxSortedMap)
    → Shows xs m
    → Shows (insert_tx t (keep (differs t.nonce) xs)) (put t m)
unfolding put
put-Shows t xs m h = record {
  sound = insert-Sound t m.items h.sound;
  content =
      contents-insert t m.items h.sound
      ∙ ap (λ ys. insert_tx t (keep (differs t.nonce) ys)) h.content;
  indexed = elim (Option-cases (lookup t.nonce m.items)) [
    | inl new ↦ rw new (
        ap (insert_nonce t.nonce) h.indexed
        ∙ sym (nonces-insert t xs)
        ∙ ap (λ ys. nonces (insert_tx t ys)) (sym (others new)))
    | inr (old, there) ↦ rw there (
        h.indexed
        ∙ ap nonces (sym h.content)
        ∙ nonces-contents m.items h.sound
        ∙ ap sort_nonces (sym (keys-insert t.nonce t old m.items there))
        ∙ sym (nonces-contents (insert t.nonce t m.items) (insert-Sound t m.items h.sound))
        ∙ ap nonces (contents-insert t m.items h.sound)
        ∙ ap (λ ys. nonces (insert_tx t (keep (differs t.nonce) ys))) h.content)
  ];
  cached = tt;
}
  where
    others : lookup t.nonce m.items ≡ none → keep (differs t.nonce) xs ≡ xs
    others new = keep-all (differs t.nonce) xs (
        subst (AllTx (λ x. differs t.nonce x ≡ true)) h.content
          (missing-differs t.nonce m.items h.sound new))

nonces-keep :
    (n : ℕ) (xs : List Tx) → Distinct xs → remove_nonce n (nonces xs) ≡ nonces (keep (differs n) xs)
nonces-keep n [] d = refl
nonces-keep n (x ∷ xs) (apart, d) = elim (==_cases x.nonce n) [
  | inl e ↦
      subst (λ k. remove_nonce k (x.nonce ∷ nonces xs) ≡ nonces (keep (differs k) (x ∷ xs))) e
        (rw (==_self x.nonce) (ap nonces (sym (keep-all (differs x.nonce) xs apart))))
  | inr e ↦ rw e (ap (◌∷◌ x.nonce) (nonces-keep n xs d) ∙ ap nonces (sym (stays e)))
]
  where
    stays : (x.nonce == n) ≡ false → keep (differs n) (x ∷ xs) ≡ x ∷ keep (differs n) xs
    stays e = ground arith

-- Whether a transaction has the nonce.
abbrev pub holds : ℕ → List Tx → Bool
holds n [] = false
holds n (x ∷ xs) = if x.nonce == n then true else holds n xs

holds-insert :
    (n : ℕ) (t : Tx) (xs : List Tx)
    → holds n (insert_tx t xs) ≡ (if t.nonce == n then true else holds n xs)
holds-insert n t [] = refl
holds-insert n t (x ∷ xs) = ground (arith, holds-insert n t xs)

abbrev pub is_some : Option Tx → Bool
is_some none = false
is_some (some t) = true

pub holds-lookup : (n : ℕ) (m : Map Tx) → Sound m → is_some (lookup n m) ≡ holds n (contents m)
holds-lookup n [] s = refl
holds-lookup n ((k, t) ∷ m) (named, fresh, s) = sym (
    holds-insert n t (contents m)
    ∙ ap (λ j. if j == n then true else holds n (contents m)) named
    ∙ ap (λ b. if k == n then true else b) (sym (holds-lookup n m s))
    ∙ case (k == n) (lookup n m))
  where
    case :
        (b : Bool) (o : Option Tx)
        → (if b then true else is_some o) ≡ is_some (if b then some t else o)
    case true o = refl
    case false o = refl

-- From a map that shows a list of transactions, `Remove` tells whether one has the nonce, and makes
-- the map show the others.
pub remove-Shows :
    (n : ℕ) (xs : List Tx) (m : TxSortedMap)
    → Shows xs m
    → ((remove n m).0 ≡ holds n xs) × Shows (keep (differs n) xs) (remove n m).1
unfolding remove
remove-Shows n xs m h = elim (Option-cases (lookup n m.items)) [
  | inl new ↦
      let same : keep (differs n) xs ≡ xs = keep-all (differs n) xs (
        subst (AllTx (λ x. differs n x ≡ true)) h.content
          (missing-differs n m.items h.sound new)) in
      rw (new, remove) (ap is_some (sym new) ∙ told, subst (λ ys. Shows ys m) (sym same) h)
  | inr (t, there) ↦
      rw (there, remove)
        (
          ap is_some (sym there) ∙ told,
          record {
            sound = erase-Sound n m.items h.sound;
            content = contents-erase n m.items h.sound ∙ ap (keep (differs n)) h.content;
            indexed =
                ap (remove_nonce n) h.indexed
                ∙ nonces-keep n xs (subst Distinct h.content (contents-Distinct m.items h.sound));
            cached = tt;
          },
        )
]
  where
    told : is_some (lookup n m.items) ≡ holds n xs
    told = holds-lookup n m.items h.sound ∙ ap (holds n) h.content
