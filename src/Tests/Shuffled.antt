-- ===== src/Tests/Shuffled.antt =====
-- `shuffle` of src/utils.rs on four elements.
use crossbeam_channel.Common.{ℕ, ◌≡◌, List, [], ◌∷◌, some, length, ltb}
use crossbeam_channel.Shuffle.{shuffle, count, shuffle-count}

abbrev four : List ℕ
four = 10 ∷ 20 ∷ 30 ∷ 40 ∷ []

shuffle-count_example :
    (v' : List ℕ) × (rng' : ℕ) × (shuffle 12345 four ≡ some (v', rng'))
    × (length v' ≡ 4)
    × (count (ltb 20) v' ≡ 2)
shuffle-count_example = shuffle-count (ltb 20) 12345 four
