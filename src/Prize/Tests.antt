-- ===== src/Prize/Tests.antt =====
-- Runs of the split of a prize pool, with an instance of each theorem about it.
use servers_poker.Prelude.{ℕ, ◌≡◌, refl, none, some, List, [], ◌∷◌, map, arith}
use servers_poker.Prelude.Doubles.{to_number}
use servers_poker.Prize.{PayoutResult, calculate_payouts, build_large_field_percentages}
use servers_poker.Prize.Sums.{amounts, calculate_payouts-amounts}

abbrev amounts_of : ℕ → ℕ → List ℕ
amounts_of pool n = elim (calculate_payouts pool n) [
  | none ↦ []
  | some results ↦ map (λ (r : PayoutResult). r.amount) results
]

-- The odd unit goes to the first place.
three-amounts : amounts_of 101 20 ≡ 51 ∷ 30 ∷ 20 ∷ []
unfolding calculate_payouts to_number
three-amounts = refl

-- The seven places after the third share at most fifty percent.
hundred-percentages :
    build_large_field_percentages 100 ≡ 25 ∷ 15 ∷ 10 ∷ 12 ∷ 10 ∷ 8 ∷ 7 ∷ 5 ∷ 3 ∷ 1 ∷ []
unfolding build_large_field_percentages
hundred-percentages = refl

calculate_payouts-amounts_example :
    (results : List PayoutResult) × (calculate_payouts 101 20 ≡ some results)
    × (amounts results ≡ 101)
calculate_payouts-amounts_example =
    calculate_payouts-amounts 101 20 (omega arith) (omega arith) (omega arith)

-- Above the safe integers the sum can differ: ten players and a pool of 2^54.
above_safe : amounts_of 18014398509481984 10 ≡ 12610078956637388 ∷ 5404319552844595 ∷ []
unfolding calculate_payouts to_number
above_safe = refl
