-- ===== src/Tournament/Prizes.antt =====
-- The prizes of src/config/tournaments.config.ts: their sum, their number and their order.
use servers_poker.Prelude.{
  ℕ, zero, suc, ◌+◌, ◌-◌, ◌*◌, ◌/◌, ◌≤◌, ◌<◌, ◌≡◌, refl, sym, ap, ◌∙◌, false, List, [], ◌∷◌, sum_by,
  length, min, max, ◌==◌, if◌then◌else◌, arith,
}
use native.Mathlib.Nat.{mul-add, mul-zero, div-add-mod, mul-le-mul_left, mul_comm}
use servers_poker.Prelude.Int.{ℤ, pos, pos_part, ltb_ℤ}
use servers_poker.Tournament.Config.{
  Payout, repeated, remaining_per_share, leftover_of, itm_count, percentages_of, shares_from,
  left_of, add_left, calculate_prizes,
}

abbrev sum : List ℕ → ℕ
sum = sum_by (λ x. x)

abbrev pub paid : List Payout → ℕ
paid = sum_by (λ p. p.amount)

-- No number is above the one before it, from a bound on.
abbrev Falls : ℕ → List ℕ → Type 0
Falls bound [] = Unit
Falls bound (x ∷ xs) = (x ≤ bound) × Falls x xs

-- Positions are counted from `i + 1`, and no prize is above the prize before it.
abbrev pub IsRanked : ℕ → ℕ → List Payout → Type 0
IsRanked i bound [] = Unit
IsRanked i bound (p ∷ payouts) =
    (p.position ≡ i + 1) × (p.amount ≤ bound) × IsRanked (i + 1) p.amount payouts

repeated-sum : (share n : ℕ) → sum (repeated share n) ≡ share * n
repeated-sum share zero = omega (arith, mul-zero share)
repeated-sum share (suc n) = omega (arith, repeated-sum share n, mul-add share n 1)

repeated-length : (share n : ℕ) → length (repeated share n) ≡ n
repeated-length share zero = refl
repeated-length share (suc n) = ap suc (repeated-length share n)

repeated-Falls : (bound share n : ℕ) → share ≤ bound → Falls bound (repeated share n)
repeated-Falls bound share zero h = tt
repeated-Falls bound share (suc n) h = (h, repeated-Falls share share n (omega arith))

-- The shares of the lower places take no more than 35 percent.
lower_shares : (n : ℕ) → remaining_per_share n * n ≤ 35
lower_shares zero = omega (arith, mul-zero 0)
lower_shares (suc n) =
    let q = 35 / suc n in
    let smaller : suc n * min q 15 ≤ suc n * q = mul-le-mul_left (suc n) (omega arith) in
    let here : suc n * q ≤ 35 = omega (arith, div-add-mod 35 (suc n)) in
    grind (arith, smaller, here, mul_comm (suc n) (min q 15))

share-le : (n : ℕ) → remaining_per_share n ≤ 15
share-le n = ground arith

leftover-eq : (n : ℕ) → leftover_of n + remaining_per_share n * n ≡ 35
leftover-eq zero = omega (arith, mul-zero 0)
leftover-eq (suc n) = grind (arith, lower_shares (suc n))

-- What holds of the three shapes holds of the percentages.
percentages_cases :
    (P : List ℕ → Type 0) (itm : ℕ)
    → 0 < itm
    → (itm ≡ 1 → P (100 ∷ []))
    → (itm ≡ 2 → P (65 ∷ 35 ∷ []))
    → ((n : ℕ)
        → itm ≡ n + 3
        → P ((30 + leftover_of n) ∷ 20 ∷ 15 ∷ repeated (remaining_per_share n) n))
    → P (percentages_of itm)
unfolding percentages_of
percentages_cases P zero h one two more = absurd (omega (arith, h))
percentages_cases P (suc zero) h one two more = one refl
percentages_cases P (suc (suc zero)) h one two more = two refl
percentages_cases P (suc (suc (suc n))) h one two more =
    let not_one : (suc (suc (suc n)) == 1) ≡ false = ground arith in
    let not_two : (suc (suc (suc n)) == 2) ≡ false = ground arith in
    let rest : suc (suc (suc n)) - 3 ≡ n = omega arith in
    rw (not_one, not_two, rest, percentages_of) (more n (omega arith))

percentages-sum : (itm : ℕ) → 0 < itm → sum (percentages_of itm) ≡ 100
percentages-sum itm h =
    percentages_cases (λ l. sum l ≡ 100) itm h (λ e. refl) (λ e. refl)
      (λ n e. omega (arith, leftover-eq n, repeated-sum (remaining_per_share n) n))

percentages-length : (itm : ℕ) → 0 < itm → length (percentages_of itm) ≡ itm
percentages-length itm h =
    percentages_cases (λ l. length l ≡ itm) itm h (λ e. sym e) (λ e. sym e)
      (λ n e. omega (arith, e, repeated-length (remaining_per_share n) n))

percentages-Falls : (itm : ℕ) → 0 < itm → Falls 100 (percentages_of itm)
percentages-Falls itm h =
    percentages_cases (λ l. Falls 100 l) itm h (λ e. (omega arith, tt))
      (λ e. (omega arith, (omega arith, tt)))
      (λ n e. (
        omega (arith, leftover-eq n),
        (omega arith, (omega arith, repeated-Falls 15 (remaining_per_share n) n (share-le n))),
      ))

shares_from-paid :
    (pool i : ℕ) (pcts : List ℕ) → 100 * paid (shares_from pool i pcts) ≤ pool * sum pcts
unfolding shares_from
shares_from-paid pool i [] = omega (arith, mul-zero pool)
shares_from-paid pool i (pct ∷ pcts) =
    omega (arith, mul-add pool pct (sum pcts), shares_from-paid pool (i + 1) pcts)

shares_from-length : (pool i : ℕ) (pcts : List ℕ) → length (shares_from pool i pcts) ≡ length pcts
unfolding shares_from
shares_from-length pool i [] = refl
shares_from-length pool i (pct ∷ pcts) = ap suc (shares_from-length pool (i + 1) pcts)

shares_from-IsRanked :
    (pool i bound : ℕ) (pcts : List ℕ)
    → Falls bound pcts
    → IsRanked i (pool * bound / 100) (shares_from pool i pcts)
unfolding shares_from
shares_from-IsRanked pool i bound [] h = tt
shares_from-IsRanked pool i bound (pct ∷ pcts) h =
    (refl, omega (arith, mul-le-mul_left pool h.0), shares_from-IsRanked pool (i + 1) pct pcts h.1)

IsRanked-weaken :
    (i bound more : ℕ) (payouts : List Payout)
    → IsRanked i bound payouts
    → bound ≤ more
    → IsRanked i more payouts
IsRanked-weaken i bound more [] h l = tt
IsRanked-weaken i bound more (p ∷ payouts) h l = (h.0, omega (arith, h.1, l), h.2)

add_left-length :
    (left : ℤ) (payouts : List Payout) → length (add_left left payouts) ≡ length payouts
unfolding add_left
add_left-length left [] = refl
add_left-length left (p ∷ payouts) = refl

-- The rest of the pool completes the sum, and the first prize stays the largest.
add_left-paid :
    (pool : ℕ) (payouts : List Payout)
    → 0 < length payouts
    → paid payouts ≤ pool
    → IsRanked 0 pool payouts
    → (paid (add_left (left_of pool payouts) payouts) ≡ pool)
      × IsRanked 0 pool (add_left (left_of pool payouts) payouts)
unfolding add_left
add_left-paid pool [] e h r = absurd (omega (arith, e))
add_left-paid pool (p ∷ payouts) e h r =
    let left = left_of pool (p ∷ payouts) in
    let first : Payout =
      if ltb_ℤ (pos 0) left then record p { amount = p.amount + pos_part left } else p in
    let filled : first.amount + paid payouts ≡ pool = ground arith in
    let kept : first.position ≡ p.position = ground arith in
    (
      filled,
      (
        kept ∙ r.0,
        omega (arith, filled),
        IsRanked-weaken 1 p.amount first.amount payouts r.2 (omega (arith, filled, h)),
      ),
    )

-- For every field `calculatePrizes` pays three places for every twenty players, rounded down, and at
-- least one. The prizes add up to the pool, for every pool; the places are counted from 1, and no
-- place is paid more than the one before it.
pub calculate_prizes-paid :
    (prize_pool player_count : ℕ)
    → let payouts = calculate_prizes prize_pool player_count in
      (paid payouts ≡ prize_pool)
      × (length payouts ≡ max 1 (3 * player_count / 20))
      × IsRanked 0 prize_pool payouts
unfolding calculate_prizes
calculate_prizes-paid pool n =
    let itm = itm_count n in
    let pcts = percentages_of itm in
    let shares = shares_from pool 0 pcts in
    let some_place : 0 < itm = omega arith in
    let count = shares_from-length pool 0 pcts ∙ percentages-length itm some_place in
    let all : pool * sum pcts ≡ pool * 100 = ap (λ x. pool * x) (percentages-sum itm some_place) in
    let ranked : IsRanked 0 pool shares =
      IsRanked-weaken 0 (pool * 100 / 100) pool shares
        (shares_from-IsRanked pool 0 100 pcts (percentages-Falls itm some_place)) (omega arith) in
    let done =
      add_left-paid pool shares (omega (arith, count, some_place))
        (omega (arith, all, shares_from-paid pool 0 pcts)) ranked in
    (done.0, add_left-length (left_of pool shares) shares ∙ count, done.1)
