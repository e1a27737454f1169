-- ===== src/Trie/Get.antt =====
-- `tryGet` (trie/trie.go) gives the value that the trie holds, and loads nodes without any other change.
use mjoy_go.Base.{
  ℕ, zero, suc, ◌≡◌, refl, Bool, true, false, none, some, List, [], ◌∷◌, ◌++◌, ltb→lt, ◌==◌,
  Option-cases, inl, inr, ◌∙◌, sym, arith, subst,
}
use mjoy_go.State.Types.{Read, entry, absent, garbled, fault}
use mjoy_go.Trie.Node.{Flag, Node, nil, value_node, short_node, full_node, hash_node, Children, at}
use mjoy_go.Trie.Walk.{
  loaded, done, missing_node, panic, exhausted, strip, resolve_hash, Got, renewed, under_short,
  under_full, under_hash, get_loaded, get_step, get_node,
}
use mjoy_go.Trie.Find.{found, lost, find, after, nonempty, is_hash, Fits, FitsAll, Loads}
use mjoy_go.Trie.Keys.{after-append, strip_sound, strip_self}
use mjoy_go.Trie.Short.{find-nil, find-value, find-full, find-hash}
use mjoy_go.Trie.Kids.{at-FitsAll}
use mjoy_go.Trie.Ends.{Same, Enough, find-short_node, after-tail}
use mjoy_go.Trie.Forks.{longer}
use mjoy_go.Trie.Loaded.{weight_le, weight_none, Unread, find-Unread}
use mjoy_go.Trie.Alike.{Same-self, short-Same, full-Same, hash-Same}

module _ (load : ℕ → Read Node) (gen : ℕ) where
  -- The value is the trie's; the node that takes the place of the old one answers the same.
  abbrev pub Gotten : Bool → ℕ → Node → List ℕ → Got load gen → Type 0
  Gotten e fuel n key (done (v, m, r)) = (find load key n ≡ found v) × Same load e n m
  Gotten e fuel n key (missing_node h p) = find load key n ≡ lost h
  Gotten e fuel n key panic = ⊥
  Gotten e fuel n key exhausted = Enough fuel key n

  abbrev Next : Type 0
  Next = Node → List ℕ → List ℕ → Got load gen

  abbrev pub Gets : ℕ → Next → Type 0
  Gets fuel next =
      (e : Bool) (n : Node) (prefix key : List ℕ)
      → Fits e n
      → after e key ≡ some true
      → Gotten e fuel n key (next n prefix key)

  short-Gotten :
      (e e' : Bool) (fuel : ℕ) (k : List ℕ) (c : Node) (f : Flag) (rest : List ℕ)
      (got : Got load gen)
      → nonempty k ≡ true
      → after e k ≡ some e'
      → Fits e' c
      → Gotten e' fuel c rest got
      → Gotten e (suc fuel) (short_node k c f) (k ++ rest) (under_short load gen k c f got)
  short-Gotten e e' fuel k c f rest got some_k hk fits h = from got h
    where
      through : find load (k ++ rest) (short_node k c f) ≡ find load rest c
      through = rw (find-short_node load k c f (k ++ rest) some_k, strip_self k rest) refl

      from :
          (got : Got load gen)
          → Gotten e' fuel c rest got
          → Gotten e (suc fuel) (short_node k c f) (k ++ rest) (under_short load gen k c f got)
      from (done (v, c', true)) (value, same) =
          (through ∙ value, short-Same load e e' k c c' f (renewed load gen f) some_k hk same)
      from (done (v, c', false)) (value, same) =
          (through ∙ value, short-Same load e e' k c c f f some_k hk (Same-self load e' c fits))
      from (missing_node g p) lack = through ∙ lack
      from panic bad = bad
      from exhausted out = let few = weight_le c in let less = longer k rest some_k in omega arith

  full-Gotten :
      (fuel : ℕ) (x : ℕ) (c : Node) (cs : Children) (f : Flag) (rest : List ℕ) (got : Got load gen)
      → FitsAll 0 cs
      → at x cs ≡ some c
      → Gotten (x == 16) fuel c rest got
      → Gotten false (suc fuel) (full_node cs f) (x ∷ rest) (under_full load gen x cs f got)
  unfolding Fits
  full-Gotten fuel x c cs f rest got all hx h = from got h
    where
      through : find load (x ∷ rest) (full_node cs f) ≡ find load rest c
      through = rw (find-full load x rest cs f, hx) refl

      from :
          (got : Got load gen)
          → Gotten (x == 16) fuel c rest got
          → Gotten false (suc fuel) (full_node cs f) (x ∷ rest) (under_full load gen x cs f got)
      from (done (v, c', true)) (value, same) =
          (through ∙ value, full-Same load x c c' cs f (renewed load gen f) all hx same)
      from (done (v, c', false)) (value, same) =
          (through ∙ value, Same-self load false (full_node cs f) (refl, all))
      from (missing_node g p) lack = through ∙ lack
      from panic bad = bad
      from exhausted out = let few = weight_le c in omega arith

  hash-Gotten :
      (fuel h : ℕ) (n : Node) (x : ℕ) (key : List ℕ) (got : Got load gen)
      → load h ≡ entry n
      → is_hash n ≡ false
      → Gotten false fuel n (x ∷ key) got
      → Gotten false (suc fuel) (hash_node h) (x ∷ key) (under_hash load gen got)
  hash-Gotten fuel h n x key got e flat ends = from got ends
    where
      from :
          (got : Got load gen)
          → Gotten false fuel n (x ∷ key) got
          → Gotten false (suc fuel) (hash_node h) (x ∷ key) (under_hash load gen got)
      from (done (v, m, r)) (value, same) =
          (find-hash load x key h n e flat ∙ value, hash-Same load h n m e flat same)
      from (missing_node g p) lack = find-hash load x key h n e flat ∙ lack
      from panic bad = bad
      from exhausted out = let light = weight_none n flat in omega arith

  get-hash :
      (fuel : ℕ) (next : Next) (h : ℕ) (prefix : List ℕ) (x : ℕ) (key : List ℕ)
      → Gets fuel next
      → Loads (load h)
      → after false (x ∷ key) ≡ some true
      → Gotten false
          (suc fuel)
          (hash_node h)
          (x ∷ key)
          (get_loaded load gen next prefix (x ∷ key) (resolve_hash load gen h prefix))
  unfolding resolve_hash
  get-hash fuel next h prefix x key all loads hk = from (load h) refl loads
    where
      from :
          (r : Read Node)
          → load h ≡ r
          → Loads r
          → Gotten false
              (suc fuel)
              (hash_node h)
              (x ∷ key)
              (get_loaded load gen next prefix (x ∷ key) (loaded load gen h prefix r))
      from absent e ok = find-Unread load x key h (subst (Unread load) (sym e) tt)
      from (fault s) e ok = find-Unread load x key h (subst (Unread load) (sym e) tt)
      from garbled e ok = ok
      from (entry n) e (fits, flat) =
          hash-Gotten fuel h n x key (next n prefix (x ∷ key)) e flat
            (all false n prefix (x ∷ key) fits hk)

  get_step-Gets :
      (fuel : ℕ) (next : Next)
      → ((h : ℕ) → Loads (load h))
      → Gets fuel next
      → Gets (suc fuel) (get_step load gen next)
  unfolding Fits get_step
  get_step-Gets fuel next loads all e nil prefix key fits h =
      (find-nil load key, Same-self load e nil fits)
  get_step-Gets fuel next loads all e (value_node u) prefix [] fits h =
      (find-value load [] u, Same-self load e (value_node u) fits)
  get_step-Gets fuel next loads all e (value_node u) prefix (x ∷ key) fits h =
      let bad : none ≡ some true = subst (λ t. after t (x ∷ key) ≡ some true) fits h in cc
  get_step-Gets fuel next loads all e (short_node k c f) prefix key (some_k, (e', hk, fits)) h =
      elim (Option-cases (strip k key)) [
        | inl s ↦ rw s (
          rw (find-short_node load k c f key some_k, s) refl,
          Same-self load e (short_node k c f) (some_k, (e', hk, fits)),
        )
        | inr (rest, s) ↦
            let whole = strip_sound k key rest s in
            rw s (
              subst
                (λ w.
                  Gotten e (suc fuel) (short_node k c f) w
                    (under_short load gen k c f (next c (prefix ++ k) rest)))
                (sym whole)
                (short-Gotten e e' fuel k c f rest (next c (prefix ++ k) rest) some_k hk fits (
                  all e' c (prefix ++ k) rest fits (
                    let at_end = subst (λ w. after e w ≡ some true) whole h in
                    rw (after-append e k rest, hk) at at_end))))
      ]
  get_step-Gets fuel next loads all true (full_node cs f) prefix key fits h = cc
  get_step-Gets fuel next loads all false (full_node cs f) prefix [] fits h = cc
  get_step-Gets fuel next loads all false (full_node cs f) prefix (x ∷ rest) (_, fits) h =
      let (small, h') = after-tail x rest true h in
      let (c, at_x, fits_c) = at-FitsAll 0 x x cs fits (omega arith) (ltb→lt x 17 small) in
      rw at_x (
        full-Gotten fuel x c cs f rest (next c (prefix ++ x ∷ []) rest) fits at_x
          (all (x == 16) c (prefix ++ x ∷ []) rest fits_c h'))
  get_step-Gets fuel next loads all true (hash_node g) prefix key fits h = cc
  get_step-Gets fuel next loads all false (hash_node g) prefix [] fits h = cc
  get_step-Gets fuel next loads all false (hash_node g) prefix (x ∷ key) fits h =
      get-hash fuel next g prefix x key all (loads g) h

  -- Enough fuel or not: what `tryGet` gives is right.
  pub get_node-Gets : (fuel : ℕ) → ((h : ℕ) → Loads (load h)) → Gets fuel (get_node load gen fuel)
  unfolding get_node
  get_node-Gets zero loads e n prefix key fits h = omega arith
  get_node-Gets (suc fuel) loads e n prefix key fits h =
      get_step-Gets fuel (get_node load gen fuel) loads (get_node-Gets fuel loads) e n prefix key
        fits h
