-- ===== src/FastEval/Tests.antt =====
-- Runs of domain/fastHandEval.ts, with an instance of each theorem about it.
use servers_poker.Prelude.{ℕ, ◌≡◌, ◌+◌, ◌*◌, refl}
use servers_poker.FastEval.{Ranks, sort5, eval5ints, best_of_7ints}
use servers_poker.Prelude.Int.{pos}
use servers_poker.FastEval.Seven.{IsHighest, choices, best_of_7ints-IsHighest}
use servers_poker.FastEval.Sorting.{IsDescending, total, sort5_sorts}

abbrev row : Ranks
row = record { r0 = 3; r1 = 12; r2 = 0; r3 = 1; r4 = 2 }

-- The ace, two, three, four and five are a straight up to the five, whose rank is 3.
wheel-eval5ints : eval5ints 12 48 1 4 9 ≡ 4 * 371294 + 3
unfolding eval5ints
wheel-eval5ints = refl

sort5_sorts_example : IsDescending (sort5 row) × ((f : ℕ → ℕ) → total f (sort5 row) ≡ total f row)
sort5_sorts_example = sort5_sorts row

best_of_7ints-IsHighest_example :
    (s : ℕ) × (best_of_7ints 48 44 0 5 40 36 32 ≡ pos s) × IsHighest s (choices 48 44 0 5 40 36 32)
best_of_7ints-IsHighest_example = best_of_7ints-IsHighest 48 44 0 5 40 36 32
