-- ===== src/Trie/Branch.antt =====
-- The branch that `insert` makes where two keys part (trie/trie.go).
use mjoy_go.Base.{
  ℕ, ◌<◌, ◌≡◌, refl, Bool, true, false, none, some, List, [], ◌∷◌, ◌++◌, ◌==◌, ==_cases, ==_self,
  if◌then◌else◌, Bool-cases, Option-cases, inl, inr, ◌∙◌, arith, subst,
}
use mjoy_go.State.Types.{Read}
use mjoy_go.Trie.Node.{Flag, Node, nil, value_node, short_node, Children, put, no_children}
use mjoy_go.Trie.Walk.{equal, strip, new_flag}
use mjoy_go.Trie.Change.{lead_to, branch}
use mjoy_go.Trie.Find.{found, find, find_after, after, nonempty, Fits, FitsAll}
use mjoy_go.Trie.Keys.{strip-append, equal-append, after-append, strip_sound}
use mjoy_go.Trie.Short.{updated, kid, find-nil, find-value, find-full, find-lead_to}
use mjoy_go.Trie.Kids.{kid-put, kid-all_nil, at-FitsAll, put-FitsAll}
use mjoy_go.Trie.Ends.{Right, find-short_node}

none_fit : FitsAll 0 no_children
unfolding FitsAll no_children
none_fit = (
  tt,
  (
    tt,
    (tt, (tt, (tt, (tt, (tt, (tt, (tt, (tt, (tt, (tt, (tt, (tt, (tt, (tt, (tt, refl))))))))))))))),
  ),
)

all_none : (x : ℕ) → kid x no_children ≡ nil
unfolding no_children
all_none x = kid-all_nil x no_children refl

nonempty-append : (p : List ℕ) (a : ℕ) (k : List ℕ) → nonempty (p ++ a ∷ k) ≡ true
nonempty-append [] a k = refl
nonempty-append (x ∷ p) a k = refl

some_same : (e e' : Bool) → some e ≡ some e' → e' ≡ e
some_same false false h = refl
some_same false true h = cc
some_same true false h = cc
some_same true true h = refl

module _ (load : ℕ → Read Node) where
  pub find-leaf :
      (k r : List ℕ) (v : List ℕ)
      → find_after load (strip k r) (value_node v) ≡ updated (equal r k) (some v) (found none)
  find-leaf [] r v = find-value load r v
  find-leaf (y ∷ k) [] v = refl
  find-leaf (y ∷ k) (x ∷ r) v = elim (Bool-cases (x == y)) [
    | inl e ↦ rw e (find-leaf k r v)
    | inr e ↦ rw e
  ]

  module _ (gen : ℕ) where
    pub lead_to-Fits :
        (e e' : Bool) (k : List ℕ) (n : Node)
        → after e k ≡ some e'
        → Fits e' n
        → Fits e (lead_to load gen k n)
    unfolding Fits
    lead_to-Fits e e' [] n h fits = subst (λ t. Fits t n) (some_same e e' h) fits
    lead_to-Fits e e' (x ∷ k) n h fits = (refl, (e', h, fits))

    -- The branch has room for both of its keys, and nothing for any other.
    module _ (a : ℕ) (k : List ℕ) (c : Node) (b : ℕ) (key v : List ℕ)
        (parted : (b == a) ≡ false) where
      abbrev one : Children
      one = put a (lead_to load gen k c) no_children

      abbrev two : Children
      two = put b (lead_to load gen key (value_node v)) one

      one-FitsAll : Fits (a == 16) (lead_to load gen k c) → FitsAll 0 one
      one-FitsAll fits =
          put-FitsAll 0 a a (lead_to load gen k c) no_children none_fit (omega arith) fits

      two-FitsAll :
          Fits (a == 16) (lead_to load gen k c)
          → Fits (b == 16) (lead_to load gen key (value_node v))
          → FitsAll 0 two
      two-FitsAll fits leaf =
          put-FitsAll 0 b b (lead_to load gen key (value_node v)) one (one-FitsAll fits)
            (omega arith) leaf

      kids :
          Fits (a == 16) (lead_to load gen k c)
          → a < 17
          → b < 17
          → (x : ℕ)
          → kid x two ≡ (
              if x == b
              then lead_to load gen key (value_node v)
              else (if x == a then lead_to load gen k c else nil))
      kids fits ha hb x =
          let (u, at_b, _) = at-FitsAll 0 b b one (one-FitsAll fits) (omega arith) hb in
          let (w, at_a, _) = at-FitsAll 0 a a no_children none_fit (omega arith) ha in
          rw (
            kid-put b x (lead_to load gen key (value_node v)) u one at_b,
            kid-put a x (lead_to load gen k c) w no_children at_a,
            all_none x,
          )

      branch-find :
          Fits (a == 16) (lead_to load gen k c)
          → a < 17
          → b < 17
          → (x : ℕ) → (r : List ℕ)
          → find load (x ∷ r) (branch load gen a k c b key (value_node v))
            ≡ updated (equal (x ∷ r) (b ∷ key)) (some v) (find_after load (strip (a ∷ k) (x ∷ r)) c)
      branch-find fits ha hb x r =
          rw (find-full load x r two (new_flag load gen), kids fits ha hb x)
            (elim (==_cases x b) [
              | inl e ↦
                  rw (e, ==_self b, parted)
                    (find-lead_to load gen key (value_node v) r ∙ find-leaf key r v)
              | inr e ↦ rw e (elim (Bool-cases (x == a)) [
                | inl f ↦ rw f (find-lead_to load gen k c r)
                | inr f ↦ rw f (find-nil load r)
              ])
            ])

      pub branch-Right :
          (e e' : Bool) (p : List ℕ) (f : Flag)
          → after e p ≡ some false
          → a < 17
          → b < 17
          → after (a == 16) k ≡ some e'
          → Fits e' c
          → after (b == 16) key ≡ some true
          → Right load e
              (p ++ b ∷ key)
              (some v)
              (short_node (p ++ a ∷ k) c f)
              (lead_to load gen p (branch load gen a k c b key (value_node v)))
      unfolding Fits
      branch-Right e e' p f hp ha hb hk fits hkey = (
        lead_to-Fits e false p (branch load gen a k c b key (value_node v)) hp
            (refl, two-FitsAll old_fits (lead_to-Fits (b == 16) true key (value_node v) hkey refl)),
        λ q hq.
            rw
              (
                find-lead_to load gen p (branch load gen a k c b key (value_node v)) q,
                equal-append p (b ∷ key) q,
                find-short_node load (p ++ a ∷ k) c f q (nonempty-append p a k),
                strip-append p (a ∷ k) q,
              )
              (elim (Option-cases (strip p q)) [
                | inl s ↦ rw s
                | inr (r, s) ↦ rw s (behind r (rest_of q r s hq))
              ]),
      )
        where
          old_fits : Fits (a == 16) (lead_to load gen k c)
          old_fits = lead_to-Fits (a == 16) e' k c hk fits

          rest_of :
              (q r : List ℕ)
              → strip p q ≡ some r
              → after e q ≡ some true
              → after false r ≡ some true
          rest_of q r s hq =
              let whole : after e (p ++ r) ≡ some true = rw (strip_sound p q r s) at hq in
              rw (after-append e p r, hp) at whole

          behind :
              (r : List ℕ)
              → after false r ≡ some true
              → find load r (branch load gen a k c b key (value_node v))
                ≡ updated (equal r (b ∷ key)) (some v) (find_after load (strip (a ∷ k) r) c)
          behind [] hr = cc
          behind (x ∷ r) hr = branch-find old_fits ha hb x r
