-- ===== src/Bloom/Rotation.antt =====
-- The rows of a generator are the columns of its blooms (utils/bloom/generator.go).
use mjoy_go.Base.{
  ℕ, zero, suc, ◌+◌, ◌/◌, ◌%◌, ◌≤◌, ◌<◌, ◌≡◌, true, Option, none, some, List, [], ◌∷◌, ◌++◌, length,
  length-append, get_elem?, ltb, leb, ◌==◌, ==_iff, Bool-cases, inl, inr, ap, ◌∙◌, sym, subst,
  append_assoc, append-nil, arith,
}
use mjoy_go.Bloom.Filter.{bloom_bit_length}
use mjoy_go.Bloom.Generator.{
  Generator, new_generator, bloom_has, add_column, Added, added, section_out_of_bounds,
  unexpected_index, add_bloom, BitVector, vector, not_generated, bit_out_of_bounds, index_panic,
  bitset_of,
}
use mjoy_go.Bloom.Rows.{row_has}
use mjoy_go.Bloom.Turned.{column, Turned, add_column-Turned, add_bloom-in_turn, blank-Turned}

-- `AddBloom` of each of the blooms, at the index of its place.
abbrev pub and_add : Added → (Generator → Option Generator) → Option Generator
and_add (added g) next = next g
and_add section_out_of_bounds next = none
and_add unexpected_index next = none

unfoldable pub add_all : ℕ → List ℕ → Generator → Option Generator
add_all index [] g = some g
add_all index (bloom ∷ blooms) g = and_add (add_bloom index bloom g) (add_all (suc index) blooms)

abbrev Turns : List ℕ → ℕ → Option Generator → Type 0
Turns seen n none = ⊥
Turns seen n (some g) = Turned seen n g

add_all-Turns :
    (blooms seen : List ℕ) (n : ℕ) (g : Generator)
    → n % 8 ≡ 0
    → length seen + length blooms ≤ n
    → Turned seen n g
    → Turns (seen ++ blooms) n (add_all (length seen) blooms g)
unfolding add_all
add_all-Turns [] seen n g whole room t = subst (λ l. Turned l n g) (sym (append-nil seen)) t
add_all-Turns (bloom ∷ blooms) seen n g whole room t =
    let longer : length (seen ++ (bloom ∷ [])) ≡ suc (length seen) =
      omega (arith, length-append seen (bloom ∷ [])) in
    let rest =
      add_all-Turns blooms (seen ++ (bloom ∷ [])) n (add_column bloom g) whole
        (omega (arith, longer)) (add_column-Turned bloom seen n g whole (omega arith) t) in
    rw (add_bloom-in_turn bloom seen n g (omega arith) t) (
      subst (λ j. Turns (seen ++ (bloom ∷ blooms)) n (add_all j blooms (add_column bloom g))) longer
        (subst
          (λ l. Turns l n (add_all (length (seen ++ (bloom ∷ []))) blooms (add_column bloom g)))
          (append_assoc seen (bloom ∷ []) blooms) rest))

abbrev pub generate : ℕ → List ℕ → Option Generator
generate n blooms = elim (new_generator n) [ none ↦ none | some g ↦ add_all 0 blooms g ]

-- The answer of `Bitset`: the row of the bit, where this is below the number of sections.
abbrev pub Answers : ℕ → List ℕ → ℕ → BitVector → Type 0
Answers n blooms i not_generated = ⊥
Answers n blooms i bit_out_of_bounds = n ≤ i
Answers n blooms i index_panic = (bloom_bit_length ≤ i) × (i < n)
Answers n blooms i (vector row) =
    (i < n)
    × (i < bloom_bit_length)
    × (length row ≡ n / 8)
    × ((k bloom : ℕ) → get_elem? blooms k ≡ some bloom → row_has k row ≡ bloom_has i bloom)

abbrev pub Rotates : ℕ → List ℕ → Option Generator → Type 0
Rotates n blooms none = ⊥
Rotates n blooms (some g) = (i : ℕ) → Answers n blooms i (bitset_of i g)

found_below : (blooms : List ℕ) (k b : ℕ) → get_elem? blooms k ≡ some b → k < length blooms
found_below [] k b h = cc
found_below (x ∷ blooms) zero b h = omega arith
found_below (x ∷ blooms) (suc k) b h = omega (arith, found_below blooms k b h)

bitset_of-Answers :
    (n : ℕ) (blooms : List ℕ) (g : Generator) (i : ℕ)
    → length blooms ≡ n
    → Turned blooms n g
    → Answers n blooms i (bitset_of i g)
unfolding bitset_of
bitset_of-Answers n blooms g i full t =
    let complete : (g.next_bit == g.sections) ≡ true =
      (==_iff _ _).1 (t.next_bit ∙ full ∙ sym t.sections) in
    elim (Bool-cases (leb g.sections i)) [
      | inl e ↦ rw (complete, e) (ground (arith, t.sections))
      | inr e ↦ elim (Bool-cases (ltb i bloom_bit_length)) [
        | inl f ↦
            rw (complete, e, f)
              (
                ground (arith, t.sections),
                ground arith,
                t.lengths i,
                λ k b h.
                    t.rows i k (omega (arith, full, found_below blooms k b h)) ∙ ap (column i) h,
              )
        | inr f ↦ rw (complete, e, f) (ground arith, ground (arith, t.sections))
      ]
    ]

generated-Rotates :
    (n : ℕ) (blooms : List ℕ) (r : Option Generator)
    → length blooms ≡ n
    → Turns blooms n r
    → Rotates n blooms r
generated-Rotates n blooms none full bad = bad
generated-Rotates n blooms (some g) full t = λ i. bitset_of-Answers n blooms g i full t

-- Where the number of sections is a multiple of 8, a generator takes as many blooms, in order,
-- without an error. After that Bitset answers as follows. For a bit below the number of sections
-- and below 2048, with a row of a bit for each section, in which the bit of a section is that bit
-- of its bloom. For a bit from the number of sections on, with the error of the bounds. For a bit
-- from 2048 on that is below the number of sections, with a panic.
pub generate-Rotates :
    (n : ℕ) (blooms : List ℕ) → n % 8 ≡ 0 → length blooms ≡ n → Rotates n blooms (generate n blooms)
generate-Rotates n blooms whole full =
    let even_bytes : (n % 8 == 0) ≡ true = (==_iff (n % 8) 0).1 whole in
    rw (Rotates, even_bytes)
      (generated-Rotates n blooms (add_all 0 blooms _) full
        (add_all-Turns blooms [] n _ whole (omega arith) (blank-Turned n whole)))
