-- ===== src/Trie/Forks.antt =====
-- Where two keys of a trie part (trie/trie.go, `prefixLen`).
use mjoy_go.Base.{
  ℕ, ◌<◌, ◌≡◌, refl, Bool, true, false, Option, none, some, List, [], ◌∷◌, ◌++◌, length,
  length-append, get_elem?, ltb→lt, ◌==◌, Bool-cases, inl, inr, arith,
}
use mjoy_go.Trie.Encoding.{prefix_len}
use mjoy_go.Trie.Find.{after, nonempty}
use mjoy_go.Trie.Keys.{after-append}
use mjoy_go.Trie.Ends.{after-tail}

pub longer : (k rest : List ℕ) → nonempty k ≡ true → length rest < length (k ++ rest)
longer [] rest h = cc
longer (x ∷ k) rest h = let e = length-append k rest in omega arith

pub none_at_end :
    (key k : List ℕ) → get_elem? k (prefix_len key k) ≡ none → (prefix_len key k == length k) ≡ true
unfolding prefix_len
none_at_end [] [] h = refl
none_at_end [] (y ∷ k) h = cc
none_at_end (x ∷ key) [] h = refl
none_at_end (x ∷ key) (y ∷ k) h = elim (Bool-cases (x == y)) [
  | inl e ↦ rw e (let same = none_at_end key k (rw e at h) in ground arith)
  | inr e ↦ let bad : get_elem? (y ∷ k) 0 ≡ none = rw e at h in cc
]

pub no_more :
    (e e' : Bool) (key : List ℕ) (a : ℕ) (t : List ℕ)
    → after e key ≡ some true
    → after e (key ++ a ∷ t) ≡ some e'
    → ⊥
no_more e e' key a t h h' =
    let bad : none ≡ some e' = rw (after-append e key (a ∷ t), h) at h' in cc

-- A key that goes on at a fork has not ended there.
pub at_fork :
    (e e' : Bool) (p : List ℕ) (a : ℕ) (k : List ℕ)
    → after e (p ++ a ∷ k) ≡ some e'
    → (after e p ≡ some false) × (a < 17) × (after (a == 16) k ≡ some e')
at_fork e e' p a k h = from (after e p) refl
  where
    from :
        (o : Option Bool)
        → after e p ≡ o
        → (after e p ≡ some false) × (a < 17) × (after (a == 16) k ≡ some e')
    from none s = let bad : none ≡ some e' = rw (after-append e p (a ∷ k), s) at h in cc
    from (some true) s = let bad : none ≡ some e' = rw (after-append e p (a ∷ k), s) at h in cc
    from (some false) s =
        let whole : after false (a ∷ k) ≡ some e' = rw (after-append e p (a ∷ k), s) at h in
        let (small, rest) = after-tail a k e' whole in (s, ltb→lt a 17 small, rest)
