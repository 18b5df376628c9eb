-- ===== src/FastEval.antt =====
-- src/domain/fastHandEval.ts: cards as integers from 0 to 51, the score of five cards and the best of
-- seven.
pub mod Sorting
pub mod Seven
mod Tests
use servers_poker.Prelude.Int.{ℤ, pos, negsuc, ltb_ℤ}
use servers_poker.Prelude.{
  ℕ, zero, suc, ◌+◌, ◌-◌, ◌*◌, ◌/◌, ◌%◌, Bool, true, false, not, ◌&&◌, Option, none, some, List, [],
  ◌∷◌, ltb, ◌==◌, if◌then◌else◌,
}

-- `cardRank`: `card >> 2`
abbrev pub card_rank : ℕ → ℕ
card_rank card = card / 4

-- `cardSuit`: `card & 3`
abbrev pub card_suit : ℕ → ℕ
card_suit card = card % 4

-- The powers of `B`, and `CAT_MULT`.
abbrev pub base : ℕ
base = 13

abbrev pub base2 : ℕ
base2 = 169

abbrev pub base3 : ℕ
base3 = 2197

abbrev pub base4 : ℕ
base4 = 28561

abbrev pub cat_mult : ℕ
cat_mult = 371294

-- Five ranks, `r0` to `r4`.
pub record Ranks : Type 0 where
  pub r0 : ℕ
  pub r1 : ℕ
  pub r2 : ℕ
  pub r3 : ℕ
  pub r4 : ℕ

-- The swaps that let the rank at an index rise past smaller ones.
unfoldable pub rise1 : Ranks → Ranks
rise1 r = if ltb r.r0 r.r1 then record r { r0 = r.r1; r1 = r.r0 } else r

unfoldable pub rise2 : Ranks → Ranks
unfolding rise1
rise2 r =
    let swapped = rise1 (record r { r1 = r.r2; r2 = r.r1 }) in if ltb r.r1 r.r2 then swapped else r

unfoldable pub rise3 : Ranks → Ranks
unfolding rise2
rise3 r =
    let swapped = rise2 (record r { r2 = r.r3; r3 = r.r2 }) in if ltb r.r2 r.r3 then swapped else r

unfoldable pub rise4 : Ranks → Ranks
unfolding rise3
rise4 r =
    let swapped = rise3 (record r { r3 = r.r4; r4 = r.r3 }) in if ltb r.r3 r.r4 then swapped else r

-- The insertion sort by hand.
unfoldable pub sort5 : Ranks → Ranks
unfolding rise1 rise2 rise3 rise4
sort5 r = rise4 (rise3 (rise2 (rise1 r)))

-- `isStraight` and `straightHigh`, of sorted ranks; `none` is no straight.
unfoldable pub straight_to : Ranks → Option ℕ
straight_to r =
    if r.r0 == 12 && (r.r1 == 3 && (r.r2 == 2 && (r.r3 == 1 && r.r4 == 0)))
    then some 3
    else if r.r0 - r.r4 == 4
        && (not (r.r0 == r.r1)
            && (not (r.r1 == r.r2) && (not (r.r2 == r.r3) && not (r.r3 == r.r4))))
    then some r.r0
    else none

-- The tests for pairs and trips, from `// Trips` on.
unfoldable pub score_small : Ranks → ℕ
score_small r =
    if r.r0 == r.r1 && r.r1 == r.r2
    then 3 * cat_mult + r.r0 * base2 + r.r3 * base + r.r4
    else if r.r1 == r.r2 && r.r2 == r.r3
    then 3 * cat_mult + r.r1 * base2 + r.r0 * base + r.r4
    else if r.r2 == r.r3 && r.r3 == r.r4
    then 3 * cat_mult + r.r2 * base2 + r.r0 * base + r.r1
    else if r.r0 == r.r1 && r.r2 == r.r3
    then 2 * cat_mult + r.r0 * base2 + r.r2 * base + r.r4
    else if r.r0 == r.r1 && r.r3 == r.r4
    then 2 * cat_mult + r.r0 * base2 + r.r3 * base + r.r2
    else if r.r1 == r.r2 && r.r3 == r.r4
    then 2 * cat_mult + r.r1 * base2 + r.r3 * base + r.r0
    else if r.r0 == r.r1
    then 1 * cat_mult + r.r0 * base3 + r.r2 * base2 + r.r3 * base + r.r4
    else if r.r1 == r.r2
    then 1 * cat_mult + r.r1 * base3 + r.r0 * base2 + r.r3 * base + r.r4
    else if r.r2 == r.r3
    then 1 * cat_mult + r.r2 * base3 + r.r0 * base2 + r.r1 * base + r.r4
    else if r.r3 == r.r4
    then 1 * cat_mult + r.r3 * base3 + r.r0 * base2 + r.r1 * base + r.r2
    else 0 * cat_mult + r.r0 * base4 + r.r1 * base3 + r.r2 * base2 + r.r3 * base + r.r4

-- The tests from `// Quads` to the straight.
unfoldable pub score_large : Bool → Option ℕ → Ranks → ℕ
unfolding score_small
score_large is_flush straight r =
    let straight_or_small : ℕ = elim straight [
      | some high ↦ 4 * cat_mult + high
      | none ↦ score_small r
    ] in
    if r.r0 == r.r1 && (r.r1 == r.r2 && r.r2 == r.r3)
    then 7 * cat_mult + r.r0 * base + r.r4
    else if r.r1 == r.r2 && (r.r2 == r.r3 && r.r3 == r.r4)
    then 7 * cat_mult + r.r1 * base + r.r0
    else if r.r0 == r.r1 && (r.r1 == r.r2 && r.r3 == r.r4)
    then 6 * cat_mult + r.r0 * base + r.r3
    else if r.r0 == r.r1 && (r.r2 == r.r3 && r.r3 == r.r4)
    then 6 * cat_mult + r.r2 * base + r.r0
    else if is_flush
    then 5 * cat_mult + r.r0 * base4 + r.r1 * base3 + r.r2 * base2 + r.r3 * base + r.r4
    else straight_or_small

-- The score of sorted ranks.
unfoldable pub score_ranks : Bool → Ranks → ℕ
unfolding straight_to score_large
score_ranks is_flush r =
    let others = score_large is_flush (straight_to r) r in
    if is_flush
    then elim (straight_to r) [ some high ↦ 8 * cat_mult + high | none ↦ others ]
    else others

-- `isFlush`
unfoldable pub is_flush_of : ℕ → ℕ → ℕ → ℕ → ℕ → Bool
is_flush_of a b c d e =
    let sa = card_suit a in
    sa == card_suit b && (sa == card_suit c && (sa == card_suit d && sa == card_suit e))

-- `eval5ints`
unfoldable pub eval5ints : ℕ → ℕ → ℕ → ℕ → ℕ → ℕ
unfolding sort5 score_ranks is_flush_of
eval5ints a b c d e = score_ranks (is_flush_of a b c d e) (
    sort5 (record {
      r0 = card_rank a;
      r1 = card_rank b;
      r2 = card_rank c;
      r3 = card_rank d;
      r4 = card_rank e;
    }))

-- `if ((s = eval5ints(...)) > best) best = s`, for each score.
unfoldable pub highest : ℤ → List ℕ → ℤ
highest best [] = best
highest best (s ∷ scores) = highest (if ltb_ℤ best (pos s) then pos s else best) scores

-- `bestOf7ints`, of seven cards; -1 is `negsuc 0`.
unfoldable pub best_of_7ints : ℕ → ℕ → ℕ → ℕ → ℕ → ℕ → ℕ → ℤ
unfolding highest
best_of_7ints c0 c1 c2 c3 c4 c5 c6 = highest (negsuc 0) (
    eval5ints c0 c1 c2 c3 c4
    ∷ eval5ints c0 c1 c2 c3 c5
    ∷ eval5ints c0 c1 c2 c3 c6
    ∷ eval5ints c0 c1 c2 c4 c5
    ∷ eval5ints c0 c1 c2 c4 c6
    ∷ eval5ints c0 c1 c2 c5 c6
    ∷ eval5ints c0 c1 c3 c4 c5
    ∷ eval5ints c0 c1 c3 c4 c6
    ∷ eval5ints c0 c1 c3 c5 c6
    ∷ eval5ints c0 c1 c4 c5 c6
    ∷ eval5ints c0 c2 c3 c4 c5
    ∷ eval5ints c0 c2 c3 c4 c6
    ∷ eval5ints c0 c2 c3 c5 c6
    ∷ eval5ints c0 c2 c4 c5 c6
    ∷ eval5ints c0 c3 c4 c5 c6
    ∷ eval5ints c1 c2 c3 c4 c5
    ∷ eval5ints c1 c2 c3 c4 c6
    ∷ eval5ints c1 c2 c3 c5 c6
    ∷ eval5ints c1 c2 c4 c5 c6
    ∷ eval5ints c1 c3 c4 c5 c6
    ∷ eval5ints c2 c3 c4 c5 c6
    ∷ [])
