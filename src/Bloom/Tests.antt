-- ===== src/Bloom/Tests.antt =====
-- Topics in blooms (utils/bloom/bloom.go) and rows of bits (utils/bloom/generator.go).
use mjoy_go.Base.{ℕ, ◌+◌, ◌*◌, ◌%◌, ◌≡◌, refl, Bool, false, Option, none, some, List, [], ◌∷◌}
use mjoy_go.Bloom.Filter.{bit_index, calculate_bloom, gather, create_bloom, bloom_lookup}
use mjoy_go.Bloom.Generator.{Generator, BitVector, vector, bit_out_of_bounds, add_bloom, bitset_of}
use mjoy_go.Bloom.Rotation.{add_all, generate, Rotates, generate-Rotates}
use mjoy_go.Bloom.Lookup.{Covers, create_bloom-Covers}

-- A stand-in for the hash.
abbrev sum : List ℕ → ℕ
sum [] = 0
sum (b ∷ bs) = b + sum bs

abbrev mix : List ℕ → ℕ → ℕ
mix bs i = (sum bs * 31 + i * 57) % 256

abbrev two_topics : List (List ℕ)
two_topics = (1 ∷ 2 ∷ []) ∷ (40 ∷ []) ∷ []

abbrev found_in : Option ℕ → List ℕ → Option Bool
found_in none topic = none
found_in (some bloom) topic = some (bloom_lookup mix bloom topic)

other_topic : found_in (create_bloom mix two_topics) (9 ∷ []) ≡ some false
unfolding bit_index calculate_bloom gather bloom_lookup
other_topic = refl

create_bloom-Covers_example : Covers mix two_topics (create_bloom mix two_topics)
create_bloom-Covers_example = create_bloom-Covers mix two_topics

abbrev eight_blooms : List ℕ
eight_blooms = 1 ∷ 0 ∷ 3 ∷ 2 ∷ 0 ∷ 0 ∷ 255 ∷ 16 ∷ []

abbrev bits_of : ℕ → Option Generator → Option BitVector
bits_of i none = none
bits_of i (some g) = some (bitset_of i g)

first_row : bits_of 0 (generate 8 eight_blooms) ≡ some (vector (162 ∷ []))
unfolding add_bloom add_all bitset_of
first_row = refl

-- A bit that each bloom has a place for, with fewer sections.
bit_refused : bits_of 100 (generate 8 eight_blooms) ≡ some bit_out_of_bounds
unfolding add_bloom add_all bitset_of
bit_refused = refl

generate-Rotates_example : Rotates 8 eight_blooms (generate 8 eight_blooms)
generate-Rotates_example = generate-Rotates 8 eight_blooms refl refl
