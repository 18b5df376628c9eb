-- ===== src/HandEval/Compare.antt =====
-- `compareHands` orders the hands.
use servers_poker.Prelude.{
  ℕ, zero, suc, ◌+◌, ◌≤◌, ◌≡◌, refl, ◌==◌, if◌then◌else◌, List, [], ◌∷◌, length, max, arith,
}
use servers_poker.Prelude.Int.{ℤ, pos, sub_ℕ, ◌≤ℤ◌, ◌-ℤ◌}
use servers_poker.HandEval.{HandResult, tail, compare_tiebreakers, compare_hands}

compare_zero : (n : ℕ) → compare_tiebreakers n [] [] ≡ pos 0
unfolding compare_tiebreakers
compare_zero zero = refl
compare_zero (suc n) = compare_zero n

shorter :
    (n : ℕ) (xs ys : List ℕ)
    → max (length xs) (length ys) ≤ suc n
    → max (length (tail xs)) (length (tail ys)) ≤ n
shorter n [] [] h = omega arith
shorter n [] (y ∷ ys) h = omega arith
shorter n (x ∷ xs) [] h = omega arith
shorter n (x ∷ xs) (y ∷ ys) h = omega arith

-- More indices than the longer list has make no difference.
compare_more :
    (n m : ℕ) (xs ys : List ℕ)
    → max (length xs) (length ys) ≤ n
    → n ≤ m
    → compare_tiebreakers m xs ys ≡ compare_tiebreakers n xs ys
unfolding compare_tiebreakers
compare_more zero m [] [] h k = compare_zero m
compare_more zero m (x ∷ xs) ys h k = absurd (omega arith)
compare_more zero m [] (y ∷ ys) h k = absurd (omega arith)
compare_more (suc n) zero xs ys h k = absurd (omega arith)
compare_more (suc n) (suc m) xs ys h k =
    rw (compare_more n m (tail xs) (tail ys) (shorter n xs ys h) (omega arith))

compare_flip :
    (n : ℕ) (xs ys : List ℕ) → compare_tiebreakers n ys xs ≡ pos 0 -ℤ compare_tiebreakers n xs ys
unfolding compare_tiebreakers
compare_flip zero xs ys = ground arith
compare_flip (suc n) xs ys = ground (arith, compare_flip n (tail xs) (tail ys))

-- The order of the tiebreakers is transitive.
compare_trans :
    (n : ℕ) (xs ys zs : List ℕ)
    → compare_tiebreakers n xs ys ≤ℤ pos 0
    → compare_tiebreakers n ys zs ≤ℤ pos 0
    → compare_tiebreakers n xs zs ≤ℤ pos 0
unfolding compare_tiebreakers
compare_trans zero xs ys zs h k = omega arith
compare_trans (suc n) xs ys zs h k = ground (arith, compare_trans n (tail xs) (tail ys) (tail zs))

-- The comparison over as many indices as three hands have.
compare_wide :
    (n : ℕ) (a b : HandResult)
    → length a.tiebreakers ≤ n
    → length b.tiebreakers ≤ n
    → compare_hands a b ≡ (
        if a.rank == b.rank
        then compare_tiebreakers n a.tiebreakers b.tiebreakers
        else sub_ℕ a.rank b.rank)
unfolding compare_hands
compare_wide n a b h k =
    let m = max (length a.tiebreakers) (length b.tiebreakers) in
    rw (compare_more m n a.tiebreakers b.tiebreakers (omega arith) (omega arith))

-- Comparing the other way round changes the sign.
pub compare_hands_flip : (a b : HandResult) → compare_hands b a ≡ pos 0 -ℤ compare_hands a b
compare_hands_flip a b =
    let n = max (length a.tiebreakers) (length b.tiebreakers) in
    rw
      (
        compare_wide n a b (omega arith) (omega arith),
        compare_wide n b a (omega arith) (omega arith),
      )
      (flip _ _ (compare_flip n a.tiebreakers b.tiebreakers))
  where
    flip :
        (x y : ℤ)
        → y ≡ pos 0 -ℤ x
        → (if b.rank == a.rank then y else sub_ℕ b.rank a.rank)
          ≡ pos 0 -ℤ (if a.rank == b.rank then x else sub_ℕ a.rank b.rank)
    flip x y e = ground arith

-- `compareHands` is transitive: a hand that does not beat one that does not beat a third does not
-- beat the third.
pub compare_hands_trans :
    (a b c : HandResult)
    → compare_hands a b ≤ℤ pos 0
    → compare_hands b c ≤ℤ pos 0
    → compare_hands a c ≤ℤ pos 0
compare_hands_trans a b c h k =
    let la = length a.tiebreakers in
    let lb = length b.tiebreakers in
    let lc = length c.tiebreakers in
    let n = la + lb + lc in
    let ab = compare_wide n a b (omega arith) (omega arith) in
    let bc = compare_wide n b c (omega arith) (omega arith) in
    let ac = compare_wide n a c (omega arith) (omega arith) in
    rw ac (
      chain _ _ _ (compare_trans n a.tiebreakers b.tiebreakers c.tiebreakers) (rw ab at h)
        (rw bc at k))
  where
    chain :
        (x y z : ℤ)
        → (x ≤ℤ pos 0 → y ≤ℤ pos 0 → z ≤ℤ pos 0)
        → (if a.rank == b.rank then x else sub_ℕ a.rank b.rank) ≤ℤ pos 0
        → (if b.rank == c.rank then y else sub_ℕ b.rank c.rank) ≤ℤ pos 0
        → (if a.rank == c.rank then z else sub_ℕ a.rank c.rank) ≤ℤ pos 0
    chain x y z f h k = ground arith
