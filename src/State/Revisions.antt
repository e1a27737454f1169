-- ===== src/State/Revisions.antt =====
-- The search of `RevertToSnapshot` among the revisions, and the cuts of the journal
-- (core/state/statedb.go).
use mjoy_go.Base.{
  ℕ, zero, suc, ◌+◌, ◌-◌, ◌≤◌, ◌<◌, ◌≡◌, refl, false, leb, Option, none, some, List, [], ◌∷◌, ◌++◌,
  length, take, drop, arith, Bool-cases, inl, inr, ap, ◌∙◌,
}
use mjoy_go.State.Types.{JournalEntry, Revision}
use mjoy_go.State.Journal.{search_revision}
use mjoy_go.State.Undoable.{AllLive}

-- Every revision that is valid is older than the next one.
abbrev pub Older : ℕ → List Revision → Type 0
Older n [] = Unit
Older n (r ∷ rs) = (r.id < n) × Older n rs

pub Older-mono : (m n : ℕ) (rs : List Revision) → m ≤ n → Older m rs → Older n rs
Older-mono m n [] l h = tt
Older-mono m n (r ∷ rs) l (h, hs) = (omega (arith, h, l), Older-mono m n rs l hs)

-- No revision begins before the place of the journal.
abbrev pub AllFrom : ℕ → List Revision → Type 0
AllFrom b [] = Unit
AllFrom b (r ∷ rs) = (b ≤ r.journal_index) × AllFrom b rs

pub AllFrom-append :
    (b : ℕ) (rs : List Revision) (r : Revision)
    → AllFrom b rs
    → b ≤ r.journal_index
    → AllFrom b (rs ++ r ∷ [])
AllFrom-append b [] r a h = (h, tt)
AllFrom-append b (q ∷ rs) r (p, ps) h = (p, AllFrom-append b rs r ps h)

pub AllFrom-take : (b k : ℕ) (rs : List Revision) → AllFrom b rs → AllFrom b (take k rs)
AllFrom-take b zero rs a = tt
AllFrom-take b (suc k) [] a = tt
AllFrom-take b (suc k) (r ∷ rs) (p, ps) = (p, AllFrom-take b k rs ps)

-- The search passes the revisions that are older.
pub search_revision-past :
    (i id : ℕ) (rs qs : List Revision)
    → Older id rs
    → search_revision i id (rs ++ qs) ≡ search_revision (i + length rs) id qs
unfolding search_revision
search_revision-past i id [] qs h = let e : i + 0 ≡ i = omega arith in rw e
search_revision-past i id (r ∷ rs) qs (h, hs) =
    let newer : leb id r.id ≡ false = ground (arith, h) in
    let e : i + 1 + length rs ≡ i + suc (length rs) = omega arith in
    rw newer (search_revision-past (i + 1) id rs qs hs ∙ ap (λ j. search_revision j id qs) e)

-- What it finds stands among the revisions that it went through.
abbrev pub FoundFrom : ℕ → ℕ → Option (ℕ × Revision) → Type 0
FoundFrom i b none = Unit
FoundFrom i b (some (j, r)) = (i ≤ j) × (b ≤ r.journal_index)

FoundFrom-next :
    (i b : ℕ) (found : Option (ℕ × Revision)) → FoundFrom (i + 1) b found → FoundFrom i b found
FoundFrom-next i b none h = tt
FoundFrom-next i b (some (j, r)) (l, h) = (omega (arith, l), h)

pub search_revision-FoundFrom :
    (i id b : ℕ) (rs : List Revision) → AllFrom b rs → FoundFrom i b (search_revision i id rs)
unfolding search_revision
search_revision-FoundFrom i id b [] a = tt
search_revision-FoundFrom i id b (r ∷ rs) (p, ps) = elim (Bool-cases (leb id r.id)) [
  | inl e ↦ rw e (omega arith, p)
  | inr e ↦ rw e (
      FoundFrom-next i b (search_revision (i + 1) id rs)
        (search_revision-FoundFrom (i + 1) id b rs ps))
]

pub take-past :
    {A : Type 0} (j : ℕ) (xs ys : List A)
    → length xs ≤ j
    → take j (xs ++ ys) ≡ xs ++ take (j - length xs) ys
take-past j [] ys l = let e : j - 0 ≡ j = omega arith in rw e
take-past zero (x ∷ xs) ys l = absurd (omega (arith, l))
take-past (suc j) (x ∷ xs) ys l =
    let e : suc j - suc (length xs) ≡ j - length xs = omega arith in
    rw e (ap (◌∷◌ x) (take-past j xs ys (omega (arith, l))))

-- A cut within the newer part of a list.
pub take-within :
    {A : Type 0} (n : ℕ) (xs ys : List A) → n ≤ length xs → take n (xs ++ ys) ≡ take n xs
take-within zero xs ys l = refl
take-within (suc n) [] ys l = absurd (omega (arith, l))
take-within (suc n) (x ∷ xs) ys l = ap (◌∷◌ x) (take-within n xs ys (omega (arith, l)))

pub drop-within :
    {A : Type 0} (n : ℕ) (xs ys : List A) → n ≤ length xs → drop n (xs ++ ys) ≡ drop n xs ++ ys
drop-within zero xs ys l = refl
drop-within (suc n) [] ys l = absurd (omega (arith, l))
drop-within (suc n) (x ∷ xs) ys l = drop-within n xs ys (omega (arith, l))

pub drop-all : {A : Type 0} (xs : List A) → drop (length xs) xs ≡ []
drop-all [] = refl
drop-all (x ∷ xs) = drop-all xs

pub AllLive-cut :
    (n : ℕ) (es : List JournalEntry) → AllLive es → AllLive (take n es) × AllLive (drop n es)
AllLive-cut zero es a = (tt, a)
AllLive-cut (suc n) [] a = (tt, tt)
AllLive-cut (suc n) (e ∷ es) (p, ps) = let (front, back) = AllLive-cut n es ps in ((p, front), back)
