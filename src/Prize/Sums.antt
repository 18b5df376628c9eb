-- ===== src/Prize/Sums.antt =====
-- The prizes add up to the pool.
use servers_poker.Prelude.{
  ℕ, zero, suc, ◌+◌, ◌-◌, ◌*◌, ◌/◌, ◌≤◌, ◌<◌, ◌≡◌, refl, sym, subst, ◌∙◌, false, some, List, [],
  ◌∷◌, sum_by, max, ltb, leb, is_empty, if_cases, arith, Bool-cases, leb→le, inl, inr,
}
use native.Mathlib.Nat.{mul-add, suc-mul, mul-zero, mul_comm, div-add-mod, mul-le-mul_left}
use servers_poker.Prelude.Int.{sub_ℕ}
use servers_poker.Prelude.Doubles.{max_safe_integer, to_number-safe}
use servers_poker.Prize.{
  PayoutResult, decay, build_large_field_percentages, resolve_percentages, payouts_from,
  amount_taken, give_remainder, calculate_payouts,
}

abbrev sum : List ℕ → ℕ
sum = sum_by (λ x. x)

abbrev pub amounts : List PayoutResult → ℕ
amounts = sum_by (λ r. r.amount)

-- 1 + 2 + ... + r
abbrev triangle : ℕ → ℕ
triangle zero = 0
triangle (suc r) = suc r + triangle r

triangle_twice : (r : ℕ) → r * (r + 1) ≡ 2 * triangle r
triangle_twice zero = refl
triangle_twice (suc r) = omega (
  arith,
  triangle_twice r,
  mul-add (suc r) r 2,
  mul-add r r 1,
  suc-mul r (r + 2),
  mul-add r r 2,
  mul_comm r (suc r),
  suc-mul r (r + 1 + 1),
)

mul-div : (a s : ℕ) → s * (a / s) ≤ a
mul-div a s = omega (arith, div-add-mod a s)

decay-sum : (s r : ℕ) → s * sum (decay s r) ≤ 50 * triangle r
unfolding decay
decay-sum s zero = omega (arith, mul-zero s)
decay-sum s (suc r) =
    omega
      (arith, mul-add s (50 * suc r / s) (sum (decay s r)), mul-div (50 * suc r) s, decay-sum s r)

-- A sum that times `s` is at most fifty times `s` is at most fifty.
at_most_fifty : (s x : ℕ) → 0 < s → s * x ≤ 50 * s → x ≤ 50
at_most_fifty s x h k = elim (Bool-cases (leb x 50)) [
  | inl e ↦ leb→le x 50 e
  | inr e ↦
      let m : s * 51 ≤ s * x = mul-le-mul_left s (ground (arith, e)) in absurd (omega (arith, m))
]

large_field-sum : (n : ℕ) → sum (build_large_field_percentages n) ≤ 100
unfolding build_large_field_percentages
large_field-sum n =
    let r = max 10 (n / 10) - 3 in
    let t : r * (r + 1) / 2 ≡ triangle r = omega (arith, triangle_twice r) in
    let d = decay-sum (triangle r) r in
    let five : sum (decay (triangle r) r) ≤ 50 =
      at_most_fifty (triangle r) _ (triangle_pos r (omega arith)) d in
    let few : sum (decay (r * (r + 1) / 2) r) ≤ 50 =
      subst (λ s. sum (decay s r) ≤ 50) (sym t) five in
    omega (arith, few)
  where
    triangle_pos : (r : ℕ) → 0 < r → 0 < triangle r
    triangle_pos zero h = h
    triangle_pos (suc r) h = omega arith

-- What holds of every tier holds of the percentages.
resolve_cases :
    (P : List ℕ → Type 0) (n : ℕ)
    → P (100 ∷ [])
    → P (70 ∷ 30 ∷ [])
    → P (50 ∷ 30 ∷ 20 ∷ [])
    → P (40 ∷ 25 ∷ 15 ∷ 12 ∷ 8 ∷ [])
    → P (30 ∷ 20 ∷ 15 ∷ 10 ∷ 8 ∷ 7 ∷ 5 ∷ 5 ∷ [])
    → P (build_large_field_percentages n)
    → P (resolve_percentages n)
unfolding resolve_percentages
resolve_cases P n a b c d e f = if_cases P (leb n 6) _ _ a (
    if_cases P (leb n 15) _ _ b
      (if_cases P (leb n 30) _ _ c (if_cases P (leb n 50) _ _ d (if_cases P (leb n 99) _ _ e f))))

percentages-sum : (n : ℕ) → sum (resolve_percentages n) ≤ 100
percentages-sum n =
    resolve_cases (λ l. sum l ≤ 100) n (omega arith) (omega arith) (omega arith) (omega arith)
      (omega arith) (large_field-sum n)

percentages-is_empty : (n : ℕ) → is_empty (resolve_percentages n) ≡ false
unfolding build_large_field_percentages
percentages-is_empty n = resolve_cases (λ l. is_empty l ≡ false) n refl refl refl refl refl refl

amount_taken-le : (pool : ℕ) (pcts : List ℕ) → 100 * amount_taken pool pcts ≤ pool * sum pcts
unfolding amount_taken
amount_taken-le pool [] = omega (arith, mul-zero pool)
amount_taken-le pool (pct ∷ pcts) =
    omega (arith, mul-add pool pct (sum pcts), amount_taken-le pool pcts)

-- Where the pool is a safe integer, the amounts that are written are those that are taken.
payouts_from-amounts :
    (pool i : ℕ) (pcts : List ℕ)
    → amount_taken pool pcts ≤ max_safe_integer
    → amounts (payouts_from pool i pcts) ≡ amount_taken pool pcts
unfolding payouts_from amount_taken
payouts_from-amounts pool i [] h = refl
payouts_from-amounts pool i (pct ∷ pcts) h = omega (
  arith,
  to_number-safe (pool * pct / 100) (omega (arith, h)),
  payouts_from-amounts pool (i + 1) pcts (omega (arith, h)),
)

payouts_from-is_empty :
    (pool i : ℕ) (pcts : List ℕ) → is_empty (payouts_from pool i pcts) ≡ is_empty pcts
unfolding payouts_from
payouts_from-is_empty pool i [] = refl
payouts_from-is_empty pool i (pct ∷ pcts) = refl

-- The remainder completes the sum.
give_remainder-amounts :
    (pool : ℕ) (results : List PayoutResult)
    → pool ≤ max_safe_integer
    → is_empty results ≡ false
    → amounts results ≤ pool
    → amounts (give_remainder (sub_ℕ pool (amounts results)) results) ≡ pool
unfolding give_remainder
give_remainder-amounts pool [] s e h = absurd cc
give_remainder-amounts pool (r ∷ rs) s e h =
    let left = pool - amounts (r ∷ rs) in
    let exact = to_number-safe left (omega (arith, s)) in
    let sum_exact = to_number-safe (r.amount + left) (omega (arith, s, h)) in
    ground (arith, exact, sum_exact)

-- For every positive pool that is a safe integer and every positive number of players
-- `calculatePayouts` returns prizes, and they add up to the pool exactly.
pub calculate_payouts-amounts :
    (total_pool participant_count : ℕ)
    → 0 < total_pool
    → total_pool ≤ max_safe_integer
    → 0 < participant_count
    → (results : List PayoutResult) × (calculate_payouts total_pool participant_count
        ≡ some results)
      × (amounts results ≡ total_pool)
unfolding calculate_payouts
calculate_payouts-amounts total_pool participant_count h safe k =
    let pcts = resolve_percentages participant_count in
    let results = payouts_from total_pool 0 pcts in
    let few : total_pool * sum pcts ≤ total_pool * 100 =
      mul-le-mul_left total_pool (percentages-sum participant_count) in
    let small : amount_taken total_pool pcts ≤ total_pool =
      omega (arith, few, amount_taken-le total_pool pcts) in
    let same = payouts_from-amounts total_pool 0 pcts (omega (arith, small, safe)) in
    let some_prize =
      payouts_from-is_empty total_pool 0 pcts ∙ percentages-is_empty participant_count in
    let pool_ok : ltb total_pool 1 ≡ false = ground arith in
    let count_ok : ltb participant_count 1 ≡ false = ground arith in
    (
      give_remainder (sub_ℕ total_pool (amount_taken total_pool pcts)) results,
      rw (pool_ok, count_ok, calculate_payouts) refl,
      subst (λ n. amounts (give_remainder (sub_ℕ total_pool n) results) ≡ total_pool) same
          (give_remainder-amounts total_pool results safe some_prize (omega (arith, same, small))),
    )
