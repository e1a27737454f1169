-- ===== src/Pool/Budget.antt =====
-- `Filter` of `txList` (core/txprocessor/tx_list.go), which cuts a strict list at what it takes out.
use mjoy_go.Base.{
  ℕ, ◌-◌, ◌<◌, u64_mod, ◌≡◌, refl, Bool, true, false, not, ◌||◌, List, [], ◌∷◌, ltb, if◌then◌else◌,
  ap, ◌∙◌, sym, subst, arith,
}
use mjoy_go.Base.Int.{ℤ}
use mjoy_go.Pool.Sorted.{Tx, sort_txs, keep, AllTx, AllTx-map, AllTx-keep}
use mjoy_go.Pool.Sweeps.{stays}
use mjoy_go.Pool.TxList
use mjoy_go.Pool.TxList.{TxList, raise, too_costly, later, lowest, invalidate, after_removal}
use mjoy_go.Pool.Costs.{Covers}
use mjoy_go.Pool.Lowest.{cut_lowest, cut_off_lowest, filter-by_lowest}

-- Whether one of the transactions has a lower nonce.
abbrev pub follows_one : List Tx → Tx → Bool
follows_one [] x = false
follows_one (y ∷ ys) x = ltb y.nonce x.nonce || follows_one ys x

-- A strict list keeps none of those that follow one that is taken out.
abbrev pub cut : Bool → List Tx → List Tx → List Tx
cut strict gone rest = if strict then keep (stays (follows_one gone)) rest else rest

abbrev pub cut_off : Bool → List Tx → List Tx → List Tx
cut_off strict gone rest = if strict then keep (follows_one gone) rest else []

-- The nonces are those of a uint64.
abbrev pub Uint64Nonces : List Tx → Type 0
Uint64Nonces xs = AllTx (λ x. x.nonce < u64_mod) xs

ltb-lowest :
    (n : ℕ) (x : Tx) (ts : List Tx)
    → ltb (lowest n ts) x.nonce ≡ (ltb n x.nonce || follows_one ts x)
ltb-lowest n x [] = ground arith
ltb-lowest n x (t ∷ ts) = ltb-lowest (if ltb t.nonce n then t.nonce else n) x ts ∙ less n
  where
    less :
        (n : ℕ)
        → (ltb (if ltb t.nonce n then t.nonce else n) x.nonce || follows_one ts x)
          ≡ (ltb n x.nonce || (ltb t.nonce x.nonce || follows_one ts x))
    less n = ground arith

-- Up to the largest uint64, a nonce is above the lowest of some just where it is above one of them.
later-follows_one :
    (gone : List Tx) (x : Tx)
    → x.nonce < u64_mod
    → later (lowest (u64_mod - 1) gone) x ≡ follows_one gone x
later-follows_one gone x small =
    let no_more : ltb (u64_mod - 1) x.nonce ≡ false = ground (arith, small) in
    ltb-lowest (u64_mod - 1) x gone ∙ ap (λ b. b || follows_one gone x) no_more

keep-alike :
    (p q : Tx → Bool) (xs : List Tx)
    → AllTx (λ x. p x ≡ q x) xs
    → (keep p xs ≡ keep q xs) × (keep (stays p) xs ≡ keep (stays q) xs)
keep-alike p q [] a = (refl, refl)
keep-alike p q (x ∷ xs) (h, hs) =
    let (kept, left) = keep-alike p q xs hs in
    (λ i. if h i then x ∷ kept i else kept i, λ i. if not (h i) then x ∷ left i else left i)

keep-nothing : (xs : List Tx) → (keep (λ x. false) xs ≡ []) × (keep (stays (λ x. false)) xs ≡ xs)
keep-nothing [] = (refl, refl)
keep-nothing (x ∷ xs) = let (off, rest) = keep-nothing xs in (off, ap (◌∷◌ x) rest)

cut-lowest :
    (strict : Bool) (gone rest : List Tx)
    → Uint64Nonces rest
    → (cut_lowest strict gone rest ≡ cut strict gone rest)
      × (cut_off_lowest strict gone rest ≡ cut_off strict gone rest)
cut-lowest false gone rest small = (refl, refl)
cut-lowest true [] rest small = let (off, kept) = keep-nothing rest in (sym kept, sym off)
cut-lowest true (t ∷ ts) rest small =
    let lower = lowest (u64_mod - 1) (t ∷ ts) in
    let (off, kept) = keep-alike (later lower) (follows_one (t ∷ ts)) rest (
      AllTx-map (λ x. x.nonce < u64_mod) (λ x. later lower x ≡ follows_one (t ∷ ts) x) rest
        (later-follows_one (t ∷ ts)) small) in
    (kept, off)

-- What `Filter` does with a list, without the short cut by the cap.
abbrev pub Filtered : ℤ → Bool → List Tx → (List Tx × List Tx) × TxList → Type 0
Filtered limit strict xs ((removed, invalids), l) =
    let gone : List Tx = keep (too_costly limit) xs in
    let rest : List Tx = keep (stays (too_costly limit)) xs in
    (sort_txs removed ≡ gone)
    × (sort_txs invalids ≡ cut_off strict gone rest)
    × Covers (cut strict gone rest) l

-- From a list that covers its transactions, whose nonces are those of a uint64, `Filter` returns, in
-- some order, those that cost more than the limit, and in strict mode also those of the others
-- that have a higher nonce than one of these; the list covers the rest. The short cut by the
-- cached cap changes nothing of this.
pub filter-Filtered :
    (limit : ℤ) (xs : List Tx) (l : TxList)
    → Covers xs l
    → Uint64Nonces xs
    → Filtered limit l.strict xs (TxList.filter limit l)
filter-Filtered limit xs l h small =
    let (removed, invalids, covers) = filter-by_lowest limit xs l h in
    let costly = too_costly limit in
    let (kept, off) =
      cut-lowest l.strict (keep costly xs) (keep (stays costly) xs)
        (AllTx-keep (λ x. x.nonce < u64_mod) (stays costly) xs small) in
    (removed, invalids ∙ off, subst (λ ys. Covers ys (TxList.filter limit l).1) kept covers)
