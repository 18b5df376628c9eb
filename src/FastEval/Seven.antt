-- ===== src/FastEval/Seven.antt =====
-- `bestOf7ints` goes through every choice of five cards out of seven.
use servers_poker.Prelude.{
  ℕ, ◌≤◌, ◌≡◌, ◌⊎◌, refl, true, List, [], ◌∷◌, map, drop, All, Member, arith, Bool-cases, inl, inr,
}
use servers_poker.Prelude.Int.{pos, negsuc, ltb_ℤ}
use servers_poker.HandEval.{get_combinations}
use servers_poker.FastEval.{eval5ints, highest, best_of_7ints}

-- The score of a list of five cards.
abbrev pub score_of : List ℕ → ℕ
score_of (a ∷ b ∷ c ∷ d ∷ e ∷ []) = eval5ints a b c d e
score_of _ = 0

-- The scores of every choice of five cards.
abbrev pub choices : ℕ → ℕ → ℕ → ℕ → ℕ → ℕ → ℕ → List ℕ
choices c0 c1 c2 c3 c4 c5 c6 =
    map score_of (get_combinations (c0 ∷ c1 ∷ c2 ∷ c3 ∷ c4 ∷ c5 ∷ c6 ∷ []) 5)

-- `s` is one of the scores, and none of them is higher.
abbrev pub IsHighest : ℕ → List ℕ → Type 0
IsHighest s scores = Member s scores × All (λ x. x ≤ s) scores

highest_of :
    (best : ℕ) (scores : List ℕ)
    → (s : ℕ) × (highest (pos best) scores ≡ pos s)
      × ((s ≡ best) ⊎ Member s scores)
      × (best ≤ s)
      × All (λ x. x ≤ s) scores
unfolding highest
highest_of best [] = (best, refl, inl refl, omega arith, tt)
highest_of best (x ∷ scores) = elim (Bool-cases (ltb_ℤ (pos best) (pos x))) [
  | inl above ↦
      let (s, e, m, le, all) = highest_of x scores in
      (s, rw above e, inr (elim m [ inl h ↦ inl h | inr k ↦ inr k ]), ground arith, (le, all))
  | inr below ↦
      let (s, e, m, le, all) = highest_of best scores in
      (s, rw below e, elim m [ inl h ↦ inl h | inr k ↦ inr (inr k) ], le, (ground arith, all))
]

highest-IsHighest :
    (x : ℕ) (scores : List ℕ)
    → (s : ℕ) × (highest (negsuc 0) (x ∷ scores) ≡ pos s) × IsHighest s (x ∷ scores)
unfolding highest
highest-IsHighest x scores =
    let (s, e, m, le, all) = highest_of x scores in
    let above : ltb_ℤ (negsuc 0) (pos x) ≡ true = ground arith in
    (s, rw above e, (elim m [ inl h ↦ inl h | inr k ↦ inr k ], (le, all)))

-- `bestOf7ints` returns the highest of the scores of all the choices of five cards that
-- `getCombinations` makes of the seven: one of them, with none above it.
pub best_of_7ints-IsHighest :
    (c0 c1 c2 c3 c4 c5 c6 : ℕ)
    → (s : ℕ) × (best_of_7ints c0 c1 c2 c3 c4 c5 c6 ≡ pos s)
      × IsHighest s (choices c0 c1 c2 c3 c4 c5 c6)
unfolding best_of_7ints get_combinations
best_of_7ints-IsHighest c0 c1 c2 c3 c4 c5 c6 =
    highest-IsHighest (eval5ints c0 c1 c2 c3 c4) (drop 1 (choices c0 c1 c2 c3 c4 c5 c6))
