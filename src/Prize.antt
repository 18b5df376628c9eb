-- ===== src/Prize.antt =====
-- src/services/prize-pool.service.ts: the prizes of a tournament. An argument that the source
-- refuses is `none`; `Math.floor` of a quotient is division of natural numbers. The amounts are
-- bigints that become doubles by `Number`, and `+=` on them is rounded as well.
mod Sums
mod Tests
use servers_poker.Prelude.{
  ℕ, zero, suc, ◌+◌, ◌-◌, ◌*◌, ◌/◌, Bool, Option, none, some, List, [], ◌∷◌, ◌++◌, sum_by, max, ltb,
  leb, ◌||◌, if◌then◌else◌,
}
use servers_poker.Prelude.Int.{ℤ, pos, sub_ℕ, pos_part, ltb_ℤ}
use servers_poker.Prelude.Doubles.{to_number}

-- `PayoutResult`
pub record PayoutResult : Type 0 where
  pub rank : ℕ
  pub amount : ℕ
  pub percentage : ℕ

-- `decay`: the weights are `r`, `r - 1`, ... and 1.
unfoldable pub decay : ℕ → ℕ → List ℕ
decay sum_weights zero = []
decay sum_weights (suc r) = 50 * suc r / sum_weights ∷ decay sum_weights r

-- `buildLargeFieldPercentages`
unfoldable pub build_large_field_percentages : ℕ → List ℕ
unfolding decay
build_large_field_percentages n =
    let r = max 10 (n / 10) - 3 in 25 ∷ 15 ∷ 10 ∷ decay (r * (r + 1) / 2) r

-- `resolvePercentages`
unfoldable pub resolve_percentages : ℕ → List ℕ
unfolding build_large_field_percentages
resolve_percentages n =
    if leb n 6
    then 100 ∷ []
    else if leb n 15
    then 70 ∷ 30 ∷ []
    else if leb n 30
    then 50 ∷ 30 ∷ 20 ∷ []
    else if leb n 50
    then 40 ∷ 25 ∷ 15 ∷ 12 ∷ 8 ∷ []
    else if leb n 99
    then 30 ∷ 20 ∷ 15 ∷ 10 ∷ 8 ∷ 7 ∷ 5 ∷ 5 ∷ []
    else build_large_field_percentages n

-- `percentages.map(...)`, from an index on; `amount` is `Number(amount)`.
unfoldable pub payouts_from : ℕ → ℕ → List ℕ → List PayoutResult
payouts_from pool i [] = []
payouts_from pool i (pct ∷ percentages) =
    record { rank = i + 1; amount = to_number (pool * pct / 100); percentage = pct }
    ∷ payouts_from pool (i + 1) percentages

-- What is taken from `remaining`: the amounts before they are numbers.
unfoldable pub amount_taken : ℕ → List ℕ → ℕ
amount_taken pool = sum_by (λ (pct : ℕ). pool * pct / 100)

-- `if (remaining > 0n) results[0].amount += Number(remaining)`
unfoldable pub give_remainder : ℤ → List PayoutResult → List PayoutResult
give_remainder remaining [] = []
give_remainder remaining (first ∷ results) =
    (if ltb_ℤ (pos 0) remaining
      then record first { amount = to_number (first.amount + to_number (pos_part remaining)) }
      else first)
    ∷ results

-- `calculatePayouts`
unfoldable pub calculate_payouts : ℕ → ℕ → Option (List PayoutResult)
unfolding resolve_percentages payouts_from amount_taken give_remainder
calculate_payouts total_pool participant_count =
    let percentages = resolve_percentages participant_count in
    let results = payouts_from total_pool 0 percentages in
    let remaining = sub_ℕ total_pool (amount_taken total_pool percentages) in
    if ltb total_pool 1 || ltb participant_count 1
    then none
    else some (give_remainder remaining results)
