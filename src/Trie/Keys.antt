-- ===== src/Trie/Keys.antt =====
-- Keys that begin with a key, and keys that are equal (trie/trie.go).
use mjoy_go.Base.{
  ℕ, zero, suc, ◌≡◌, refl, Bool, true, false, Option, none, some, List, [], ◌∷◌, ◌++◌, length, take,
  drop, get_elem?, ltb, ◌==◌, ==_self, ==_cases, Bool-cases, inl, inr, ap, arith,
}
use mjoy_go.Trie.Encoding.{prefix_len}
use mjoy_go.Trie.Walk.{equal, strip}
use mjoy_go.Trie.Find.{after}

abbrev pub strip_then : Option (List ℕ) → List ℕ → Option (List ℕ)
strip_then none q = none
strip_then (some r) q = strip q r

abbrev pub equal_then : Option (List ℕ) → List ℕ → Bool
equal_then none q = false
equal_then (some r) q = equal r q

abbrev pub after_then : Option Bool → List ℕ → Option Bool
after_then none q = none
after_then (some e) q = after e q

pub strip-append : (p q key : List ℕ) → strip (p ++ q) key ≡ strip_then (strip p key) q
strip-append [] q key = refl
strip-append (y ∷ p) q [] = refl
strip-append (y ∷ p) q (x ∷ key) = elim (Bool-cases (x == y)) [
  | inl e ↦ rw e (strip-append p q key)
  | inr e ↦ rw e
]

pub strip_self : (p r : List ℕ) → strip p (p ++ r) ≡ some r
strip_self [] r = refl
strip_self (y ∷ p) r = rw (==_self y) (strip_self p r)

pub strip_sound : (p key r : List ℕ) → strip p key ≡ some r → key ≡ p ++ r
strip_sound [] key r h = ground arith
strip_sound (y ∷ p) [] r h = cc
strip_sound (y ∷ p) (x ∷ key) r h = elim (==_cases x y) [
  | inl e ↦ λ i. e i ∷ strip_sound p key r (rw (e, ==_self y) at h) i
  | inr e ↦ let bad : none ≡ some r = rw e at h in cc
]

pub equal-append : (p q key : List ℕ) → equal key (p ++ q) ≡ equal_then (strip p key) q
equal-append [] q key = refl
equal-append (y ∷ p) q [] = refl
equal-append (y ∷ p) q (x ∷ key) = elim (Bool-cases (x == y)) [
  | inl e ↦ rw e (equal-append p q key)
  | inr e ↦ rw e
]

pub equal_self : (k : List ℕ) → equal k k ≡ true
equal_self [] = refl
equal_self (x ∷ k) = rw (==_self x) (equal_self k)

pub equal_sound : (k l : List ℕ) → equal k l ≡ true → k ≡ l
equal_sound [] [] h = refl
equal_sound [] (y ∷ l) h = cc
equal_sound (x ∷ k) [] h = cc
equal_sound (x ∷ k) (y ∷ l) h = elim (==_cases x y) [
  | inl e ↦ λ i. e i ∷ equal_sound k l (rw (e, ==_self y) at h) i
  | inr e ↦ let bad : false ≡ true = rw e at h in cc
]

pub after-append :
    (ended : Bool) (p q : List ℕ) → after ended (p ++ q) ≡ after_then (after ended p) q
after-append ended [] q = refl
after-append true (x ∷ p) q = refl
after-append false (x ∷ p) q = elim (Bool-cases (ltb x 17)) [
  | inl e ↦ rw e (after-append (x == 16) p q)
  | inr e ↦ rw e
]

both_suc : (a b : ℕ) → (suc a == suc b) ≡ true → (a == b) ≡ true
both_suc a b h = ground arith

-- The whole of a short node's key is a prefix of the key.
pub prefix_whole :
    (key k : List ℕ)
    → (prefix_len key k == length k) ≡ true
    → strip k key ≡ some (drop (prefix_len key k) key)
unfolding prefix_len
prefix_whole [] [] h = refl
prefix_whole [] (y ∷ k) h = ground arith
prefix_whole (x ∷ key) [] h = refl
prefix_whole (x ∷ key) (y ∷ k) h = elim (Bool-cases (x == y)) [
  | inl e ↦ rw e (prefix_whole key k (both_suc (prefix_len key k) (length k) (rw e at h)))
  | inr e ↦ let bad : (0 == suc (length k)) ≡ true = rw e at h in ground arith
]

-- Where a key has a nibble, it is what lies before, the nibble, and what lies behind.
pub split_at :
    (n : ℕ) (k : List ℕ) (a : ℕ) → get_elem? k n ≡ some a → k ≡ take n k ++ a ∷ drop (suc n) k
split_at n [] a h = cc
split_at zero (x ∷ k) a h = ground arith
split_at (suc n) (x ∷ k) a h = ap (◌∷◌ x) (split_at n k a h)

pub beyond : (n : ℕ) (k : List ℕ) → get_elem? k n ≡ none → take n k ≡ k
beyond zero [] h = refl
beyond (suc n) [] h = refl
beyond zero (x ∷ k) h = cc
beyond (suc n) (x ∷ k) h = ap (◌∷◌ x) (beyond n k h)
