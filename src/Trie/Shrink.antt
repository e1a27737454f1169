-- ===== src/Trie/Shrink.antt =====
-- `delete` (trie/trie.go) at a short node: what it makes of its child.
use mjoy_go.Base.{
  ℕ, suc, ◌<◌, ◌≤◌, ◌≡◌, refl, Bool, true, false, Option, none, some, List, [], ◌∷◌, ◌++◌, length,
  length-append, drop, ltb, ltb→le, ◌==◌, ==_self, Bool-cases, inl, inr, ap, ◌∙◌, sym, arith, subst,
}
use mjoy_go.State.Types.{Read}
use mjoy_go.Trie.Encoding.{prefix_len}
use mjoy_go.Trie.Node.{Flag, Node, nil, short_node}
use mjoy_go.Trie.Walk.{Changed, equal, strip}
use mjoy_go.Trie.Change.{rebuilt, changed, merge}
use mjoy_go.Trie.Find.{Found, found, lost, find, find_after, after, nonempty, Fits}
use mjoy_go.Trie.Keys.{equal_sound, after-append, strip_sound, strip_self, prefix_whole}
use mjoy_go.Trie.Short.{updated, find-nil}
use mjoy_go.Trie.Ends.{
  Lost, Ends, Enough, Behind, Right, Behind-strip, rebuilt-Ends, short-Right, find-short_node,
}
use mjoy_go.Trie.Forks.{longer}
use mjoy_go.Trie.Loaded.{weight_le}
use mjoy_go.Trie.Merge.{merge-Fits, find-merge}

-- The key does not begin with the node's.
pub short_of : (key k : List ℕ) → ltb (prefix_len key k) (length k) ≡ true → strip k key ≡ none
unfolding prefix_len
short_of key [] h = ground arith
short_of [] (y ∷ k) h = refl
short_of (x ∷ key) (y ∷ k) h = elim (Bool-cases (x == y)) [
  | inl e ↦ rw e (short_of key k (less (prefix_len key k) (length k) (rw e at h)))
  | inr e ↦ rw e
]
  where
    less : (a b : ℕ) → ltb (suc a) (suc b) ≡ true → ltb a b ≡ true
    less a b h = ground arith

pub prefix_len_le : (key k : List ℕ) → prefix_len key k ≤ length k
unfolding prefix_len
prefix_len_le [] k = omega arith
prefix_len_le (x ∷ key) [] = omega arith
prefix_len_le (x ∷ key) (y ∷ k) = elim (Bool-cases (x == y)) [
  | inl e ↦ rw e (let less = prefix_len_le key k in omega arith)
  | inr e ↦ rw e (omega arith)
]

pub whole_key :
    (key k : List ℕ) → ltb (prefix_len key k) (length k) ≡ false → key ≡ k ++ drop (length k) key
whole_key key k h =
    let same : prefix_len key k ≡ length k =
      let more = ltb→le (prefix_len key k) (length k) h in
      let less = prefix_len_le key k in omega arith in
    subst (λ m. key ≡ k ++ drop m key) same
      (strip_sound k key (drop (prefix_len key k) key)
        (prefix_whole key k (rw same (==_self (length k)))))

pub nothing : (l : List ℕ) → length l ≡ 0 → l ≡ []
nothing [] h = refl
nothing (x ∷ l) h = let bad : ⊥ = omega arith in elim bad [ ]

pub no_rest :
    (key k : List ℕ)
    → key ≡ k ++ drop (length k) key
    → (prefix_len key k == length key) ≡ true
    → key ≡ k ++ []
no_rest key k whole h =
    let less = prefix_len_le key k in
    let parts = ap length whole ∙ length-append k (drop (length k) key) in
    whole ∙ ap (◌++◌ k) (nothing (drop (length k) key) (ground arith))

pub still_lost : (b : Bool) (h : ℕ) (x : Found) → updated b none x ≡ lost h → x ≡ lost h
still_lost false h x e = e
still_lost true h x e = cc

module _ (load : ℕ → Read Node) (gen : ℕ) where
  abbrev pub Deleted : Bool → ℕ → Node → List ℕ → Changed → Type 0
  Deleted e fuel n key r = Ends (Right load e key none n) n (Lost load e n) (Enough fuel key n) r

  abbrev pub Next : Type 0
  Next = Node → List ℕ → List ℕ → Changed

  abbrev pub Deletes : ℕ → Next → Type 0
  Deletes fuel next =
      (e : Bool) (n : Node) (prefix key : List ℕ)
      → Fits e n
      → after e key ≡ some true
      → Deleted e fuel n key (next n prefix key)

  -- A key without a value keeps none.
  pub no_value :
      (e : Bool) (n : Node) (key : List ℕ)
      → Fits e n
      → find load key n ≡ found none
      → Right load e key none n n
  no_value e n key fits h = (
    fits,
    λ q hq. elim (Bool-cases (equal q key)) [
      | inl s ↦ rw s (ap (λ k. find load k n) (equal_sound q key s) ∙ h)
      | inr s ↦ rw s
    ],
  )

  pub under-Deleted :
      (e e' : Bool) (fuel : ℕ) (c n : Node) (key rest : List ℕ) (f : Node → Changed) (r : Changed)
      → Deleted e' fuel c rest r
      → ((c' : Node) → Right load e' rest none c c' → Deleted e (suc fuel) n key (f c'))
      → (Right load e' rest none c c → Right load e key none n n)
      → ((h : ℕ) → Lost load e' c h → Lost load e n h)
      → length rest < length key
      → Deleted e (suc fuel) n key (rebuilt load gen n f r)
  under-Deleted e e' fuel c n key rest f r ends change keep miss less =
      rebuilt-Ends load gen (Right load e' rest none c) (Right load e key none n) (Lost load e' c)
        (Lost load e n) (Enough fuel rest c) (Enough (suc fuel) key n) c n n f r ends change
        (λ right. (keep right, keep right)) miss (λ out. let few = weight_le c in omega arith)

  pub find_after-nil : (o : Option (List ℕ)) → find_after load o nil ≡ found none
  find_after-nil none = refl
  find_after-nil (some q) = find-nil load q

  pub gone_end : (e : Bool) (c : Node) → after e [] ≡ some true → Behind load e [] none c nil
  gone_end false c h q hq = cc
  gone_end true c h [] hq = find-nil load []
  gone_end true c h (x ∷ q) hq = cc

  -- The key ends with the node's: the node goes.
  pub delete-exact :
      (e e' : Bool) (k : List ℕ) (c : Node) (f : Flag)
      → nonempty k ≡ true
      → after e k ≡ some e'
      → Fits e' c
      → after e (k ++ []) ≡ some true
      → Right load e (k ++ []) none (short_node k c f) nil
  unfolding Fits
  delete-exact e e' k c f some_k hk fits h = (
    tt,
    λ q hq. rw (find-short_node load k c f q some_k) (
        find-nil load q
        ∙ sym (find_after-nil (strip k q))
        ∙ Behind-strip load e e' k [] none c nil hk
            (gone_end e' c (rw (after-append e k [], hk) at h)) q hq),
  )

  pub delete-under :
      (e e' : Bool) (fuel : ℕ) (next : Next) (k : List ℕ) (c : Node) (f : Flag)
      (prefix rest : List ℕ)
      → Deletes fuel next
      → nonempty k ≡ true
      → after e k ≡ some e'
      → Fits e' c
      → after e (k ++ rest) ≡ some true
      → Deleted e (suc fuel) (short_node k c f) (k ++ rest) (
          rebuilt load gen
            (short_node k c f)
            (λ c'. changed load gen (merge load gen k c'))
            (next c prefix rest))
  delete-under e e' fuel next k c f prefix rest all some_k hk fits h =
      under-Deleted e e' fuel c (short_node k c f) (k ++ rest) rest
        (λ c'. changed load gen (merge load gen k c')) (next c prefix rest)
        (all e' c prefix rest fits (rw (after-append e k rest, hk) at h))
        (λ c' right. (
          merge-Fits load gen e e' k c' some_k hk right.0,
          λ q hq.
              rw (find-merge load gen e' k c' q some_k right.0, find-short_node load k c f q some_k)
                (Behind-strip load e e' k rest none c c' hk right.1 q hq),
        ))
        (λ right. short-Right load e e' k rest none c c f f some_k hk right)
        (λ h (q, hq, lack). (
          k ++ q,
          rw (after-append e k q, hk) hq,
          rw (find-short_node load k c f (k ++ q) some_k, strip_self k q) lack,
        ))
        (longer k rest some_k)
