-- ===== src/Bloom/Turned.antt =====
-- A generator that has turned some blooms (utils/bloom/generator.go).
use Prim.Native.Nat.{bit_and-bitwise}
use mjoy_go.Base.{
  ◌^◌, ℕ, zero, suc, ◌-◌, ◌/◌, ◌%◌, ◌<◌, ◌≡◌, refl, Bool, true, false, Option, none, some, List, [],
  ◌∷◌, ◌++◌, length, length-append, get_elem?, replicate, length-replicate, leb, ◌==◌, ==_self,
  ==_cases, ==_iff, if◌then◌else◌, inl, inr, ap, ◌∙◌, sym, arith,
}
use mjoy_go.Bloom.Generator.{Generator, bloom_has, set_bit, add_column, added, add_bloom}
use mjoy_go.Bloom.Rows.{byte_has, row_has, row_has-set_bit, length-or_byte}

-- A bit of the column: that of the bloom at the place, if it has come.
abbrev pub column : ℕ → Option ℕ → Bool
column i none = false
column i (some bloom) = bloom_has i bloom

-- The generator has turned the blooms seen so far.
pub record Turned (seen : List ℕ) (n : ℕ) (g : Generator) : Type 0 where
  pub sections : g.sections ≡ n
  pub next_bit : g.next_bit ≡ length seen
  pub lengths : (i : ℕ) → length (g.blooms i) ≡ n / 8
  pub rows : (i k : ℕ) → k < n → row_has k (g.blooms i) ≡ column i (get_elem? seen k)

get_elem?-last :
    (seen : List ℕ) (bloom k : ℕ)
    → get_elem? (seen ++ (bloom ∷ [])) k
      ≡ (if k == length seen then some bloom else get_elem? seen k)
get_elem?-last [] bloom zero = refl
get_elem?-last [] bloom (suc k) = let e : (suc k == 0) ≡ false = ground arith in rw e
get_elem?-last (x ∷ seen) bloom zero =
    let e : (0 == suc (length seen)) ≡ false = ground arith in rw e
get_elem?-last (x ∷ seen) bloom (suc k) =
    let e : (suc k == suc (length seen)) ≡ (k == length seen) = ground arith in
    rw e (get_elem?-last seen bloom k)

get_elem?-beyond : (seen : List ℕ) → get_elem? seen (length seen) ≡ none
get_elem?-beyond [] = refl
get_elem?-beyond (x ∷ seen) = get_elem?-beyond seen

-- A row with the bit of one more bloom.
row_has-next :
    (b : Bool) (k j : ℕ) (row : List ℕ)
    → k / 8 < length row
    → row_has j row ≡ false
    → row_has k (if b then set_bit j row else row) ≡ (if k == j then b else row_has k row)
row_has-next true k j row l free = row_has-set_bit k j row l
row_has-next false k j row l free = elim (==_cases k j) [
  | inl e ↦ rw (e, ==_self j) free
  | inr e ↦ rw e
]

length-next :
    (b : Bool) (j : ℕ) (row : List ℕ) → length (if b then set_bit j row else row) ≡ length row
length-next true j row = length-or_byte (j / 8) (7 - j % 8) row
length-next false j row = refl

column-last :
    (i : ℕ) (b : Bool) (bloom : ℕ) (x : Option ℕ)
    → (if b then bloom_has i bloom else column i x) ≡ column i (if b then some bloom else x)
column-last i true bloom x = refl
column-last i false bloom x = refl

pub add_column-Turned :
    (bloom : ℕ) (seen : List ℕ) (n : ℕ) (g : Generator)
    → n % 8 ≡ 0
    → length seen < n
    → Turned seen n g
    → Turned (seen ++ (bloom ∷ [])) n (add_column bloom g)
add_column-Turned bloom seen n g whole room t = record {
  sections = t.sections;
  next_bit = omega (arith, t.next_bit, length-append seen (bloom ∷ []));
  lengths = λ i. length-next (bloom_has i bloom) g.next_bit (g.blooms i) ∙ t.lengths i;
  rows = rows;
}
  where
    free : (i : ℕ) → row_has g.next_bit (g.blooms i) ≡ false
    free i =
        t.rows i g.next_bit (omega (arith, t.next_bit))
        ∙ ap (λ j. column i (get_elem? seen j)) t.next_bit
        ∙ ap (column i) (get_elem?-beyond seen)

    rows :
        (i k : ℕ)
        → k < n
        → row_has k ((add_column bloom g).blooms i) ≡ column i (get_elem? (seen ++ (bloom ∷ [])) k)
    rows i k l =
        row_has-next (bloom_has i bloom) k g.next_bit (g.blooms i) (omega (arith, t.lengths i))
          (free i)
        ∙ (λ j. if k == t.next_bit j then bloom_has i bloom else t.rows i k l j)
        ∙ column-last i (k == length seen) bloom (get_elem? seen k)
        ∙ ap (column i) (sym (get_elem?-last seen bloom k))

pub add_bloom-in_turn :
    (bloom : ℕ) (seen : List ℕ) (n : ℕ) (g : Generator)
    → length seen < n
    → Turned seen n g
    → add_bloom (length seen) bloom g ≡ added (add_column bloom g)
unfolding add_bloom
add_bloom-in_turn bloom seen n g room t =
    let open_yet : leb g.sections g.next_bit ≡ false = ground (arith, t.sections, t.next_bit) in
    let in_turn : (g.next_bit == length seen) ≡ true =
      (==_iff g.next_bit (length seen)).1 t.next_bit in
    rw (open_yet, in_turn)

blank_byte : (n i m : ℕ) → byte_has m (get_elem? (replicate n 0) i) ≡ false
blank_byte zero i m = refl
blank_byte (suc n) zero m = rw (bit_and-bitwise 0 (2 ^ m))
blank_byte (suc n) (suc i) m = blank_byte n i m

pub blank-Turned :
    (n : ℕ)
    → n % 8 ≡ 0
    → Turned [] n (record { blooms = λ i. replicate (n / 8) 0; sections = n; next_bit = 0 })
blank-Turned n whole = record {
  sections = refl;
  next_bit = refl;
  lengths = λ i. length-replicate (n / 8) 0;
  rows = λ i k l. blank_byte (n / 8) (k / 8) (7 - k % 8);
}
