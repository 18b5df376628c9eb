-- ===== src/Tournament/Config.antt =====
-- src/config/tournaments.config.ts: the blind levels and the prizes. `Math.floor(n * 0.15)` is
-- `3 * n / 20`: in doubles the product is never rounded below a whole number, since 0.15 is off by
-- less than half a unit in the last place and no power of two is a multiple of three.
use servers_poker.Prelude.{
  ℕ, zero, suc, ◌+◌, ◌-◌, ◌*◌, ◌/◌, Option, none, List, [], ◌∷◌, sum_by, get_elem?, length, min,
  max, ltb, ◌==◌, if◌then◌else◌,
}
use servers_poker.Prelude.Int.{ℤ, pos, sub_ℕ, pos_part, ltb_ℤ}

-- `interface BlindLevel`
pub record BlindLevel : Type 0 where
  pub level : ℕ
  pub small_blind : ℕ
  pub big_blind : ℕ
  pub ante : ℕ

-- `interface Payout`
pub record Payout : Type 0 where
  pub position : ℕ
  pub percentage : ℕ
  pub amount : ℕ

-- `HANDS_PER_LEVEL`
abbrev pub hands_per_level : ℕ
hands_per_level = 10

abbrev pub blinds : ℕ → ℕ → ℕ → ℕ → BlindLevel
blinds level small_blind big_blind ante = record {
  level = level;
  small_blind = small_blind;
  big_blind = big_blind;
  ante = ante;
}

-- `BLIND_LEVELS`
abbrev pub blind_levels : List BlindLevel
blind_levels =
    blinds 1 25 50 10
    ∷ blinds 2 50 100 15
    ∷ blinds 3 75 150 25
    ∷ blinds 4 100 200 25
    ∷ blinds 5 150 300 50
    ∷ blinds 6 200 400 50
    ∷ blinds 7 300 600 75
    ∷ blinds 8 400 800 100
    ∷ blinds 9 600 1200 150
    ∷ blinds 10 800 1600 200
    ∷ blinds 11 1000 2000 300
    ∷ blinds 12 1500 3000 400
    ∷ blinds 13 2000 4000 500
    ∷ blinds 14 3000 6000 750
    ∷ blinds 15 5000 10000 1000
    ∷ []

-- `PAYOUT_CURVE`
abbrev pub payout_curve : List ℕ
payout_curve = 30 ∷ 20 ∷ 15 ∷ []

-- `percentages.push(remainingPerShare)`, `n` times.
abbrev pub repeated : ℕ → ℕ → List ℕ
repeated share zero = []
repeated share (suc n) = share ∷ repeated share n

-- `remainingPerShare`
abbrev pub remaining_per_share : ℕ → ℕ
remaining_per_share remaining_slots =
    if ltb 0 remaining_slots then min (35 / remaining_slots) 15 else 0

-- `leftover`
abbrev pub leftover_of : ℕ → ℕ
leftover_of remaining_slots =
    if ltb 0 remaining_slots then 35 - remaining_per_share remaining_slots * remaining_slots else 35

-- `itmCount`
abbrev pub itm_count : ℕ → ℕ
itm_count player_count = max 1 (3 * player_count / 20)

-- `percentages`
unfoldable pub percentages_of : ℕ → List ℕ
percentages_of itm =
    if itm == 1
    then 100 ∷ []
    else if itm == 2
    then 65 ∷ 35 ∷ []
    else (30 + leftover_of (itm - 3)) ∷ 20 ∷ 15 ∷ repeated (remaining_per_share (itm - 3)) (itm - 3)

-- `percentages.map(...)`, from an index on.
unfoldable pub shares_from : ℕ → ℕ → List ℕ → List Payout
shares_from pool i [] = []
shares_from pool i (pct ∷ percentages) =
    record { position = i + 1; percentage = pct; amount = pool * pct / 100 }
    ∷ shares_from pool (i + 1) percentages

-- `remaining`, when all the amounts have been taken from the pool.
abbrev pub left_of : ℕ → List Payout → ℤ
left_of pool payouts = sub_ℕ pool (sum_by (λ p. p.amount) payouts)

-- `if (remaining > 0n) payouts[0].amount += remaining`
unfoldable pub add_left : ℤ → List Payout → List Payout
add_left left [] = []
add_left left (first ∷ payouts) =
    (if ltb_ℤ (pos 0) left then record first { amount = first.amount + pos_part left } else first)
    ∷ payouts

-- `calculatePrizes`
unfoldable pub calculate_prizes : ℕ → ℕ → List Payout
unfolding percentages_of shares_from add_left
calculate_prizes prize_pool player_count =
    let payouts = shares_from prize_pool 0 (percentages_of (itm_count player_count)) in
    add_left (left_of prize_pool payouts) payouts

-- `getBlindLevel`: `none` is the undefined of a level 0.
unfoldable pub get_blind_level : ℕ → Option BlindLevel
get_blind_level zero = none
get_blind_level (suc level) = get_elem? blind_levels (min level (length blind_levels - 1))
