-- ===== src/FastEval/Sorting.antt =====
-- The sort by hand in `eval5ints`.
use servers_poker.Prelude.{ℕ, ◌+◌, ◌≤◌, ◌≡◌, ◌∙◌, arith}
use servers_poker.FastEval.{Ranks, rise1, rise2, rise3, rise4, sort5}

-- In descending order.
pub record IsDescending (r : Ranks) : Type 0 where
  pub first : r.r1 ≤ r.r0
  pub second : r.r2 ≤ r.r1
  pub third : r.r3 ≤ r.r2
  pub fourth : r.r4 ≤ r.r3

-- A sum over the ranks.
abbrev pub total : (ℕ → ℕ) → Ranks → ℕ
total f r = f r.r0 + f r.r1 + f r.r2 + f r.r3 + f r.r4

rise1-total : (f : ℕ → ℕ) (r : Ranks) → total f (rise1 r) ≡ total f r
unfolding rise1
rise1-total f r = ground arith

rise2-total : (f : ℕ → ℕ) (r : Ranks) → total f (rise2 r) ≡ total f r
unfolding rise2
rise2-total f r = ground arith

rise3-total : (f : ℕ → ℕ) (r : Ranks) → total f (rise3 r) ≡ total f r
unfolding rise3
rise3-total f r = ground arith

rise4-total : (f : ℕ → ℕ) (r : Ranks) → total f (rise4 r) ≡ total f r
unfolding rise4
rise4-total f r = ground arith

rise1-sorts : (r : Ranks) → (rise1 r).r1 ≤ (rise1 r).r0
unfolding rise1
rise1-sorts r = ground arith

rise2-sorts :
    (r : Ranks) → r.r1 ≤ r.r0 → ((rise2 r).r1 ≤ (rise2 r).r0) × ((rise2 r).r2 ≤ (rise2 r).r1)
unfolding rise2
rise2-sorts r h = (ground arith, ground arith)

rise3-sorts :
    (r : Ranks)
    → r.r1 ≤ r.r0
    → r.r2 ≤ r.r1
    → ((rise3 r).r1 ≤ (rise3 r).r0) × ((rise3 r).r2 ≤ (rise3 r).r1) × ((rise3 r).r3 ≤ (rise3 r).r2)
unfolding rise3
rise3-sorts r h k = (ground arith, ground arith, ground arith)

rise4-sorts : (r : Ranks) → r.r1 ≤ r.r0 → r.r2 ≤ r.r1 → r.r3 ≤ r.r2 → IsDescending (rise4 r)
unfolding rise4
rise4-sorts r h k l = record {
  first = ground arith;
  second = ground arith;
  third = ground arith;
  fourth = ground arith;
}

-- The sort puts any five ranks in descending order and keeps every sum over them: it neither
-- loses, makes nor changes a rank.
pub sort5_sorts :
    (r : Ranks) → IsDescending (sort5 r) × ((f : ℕ → ℕ) → total f (sort5 r) ≡ total f r)
unfolding sort5
sort5_sorts r =
    let s1 = rise1 r in
    let h1 = rise1-sorts r in
    let s2 = rise2 s1 in
    let h2 = rise2-sorts s1 h1 in
    let s3 = rise3 s2 in
    let h3 = rise3-sorts s2 h2.0 h2.1 in
    (
      rise4-sorts s3 h3.0 h3.1 h3.2,
      λ f. rise4-total f s3 ∙ rise3-total f s2 ∙ rise2-total f s1 ∙ rise1-total f r,
    )
