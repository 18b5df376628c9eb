-- ===== src/HandEval/Tests.antt =====
-- Runs of domain/handEvaluator.ts, with an instance of each theorem about it.
use servers_poker.Prelude.{
  ℕ, ◌≡◌, ◌↔◌, refl, true, false, none, some, List, [], ◌∷◌, ◌++◌, arith, Member, All, includes,
  is_empty,
}
use servers_poker.HandEval.{
  Card, HandResult, one_pair, get_combinations, evaluate_five_cards, compare_hands,
}
use servers_poker.HandEval.Best.{
  BestHand, Contender, Scored, best_hand, determine_winners, winners_of,
}
use servers_poker.HandEval.Compare.{compare_hands_trans}
use servers_poker.HandEval.Winners.{◌≤ᴴ◌, winners_of_iff}
use servers_poker.HandEval.Chosen.{
  IsBest, IsScored, best_hand-IsBest, determine_winners_correct, determine_winners_nonempty,
}

abbrev card : ℕ → ℕ → Card
card value suit = record { value = value; suit = suit }

-- A board of a ten, a jack and a queen of one suit, and a pair of threes.
abbrev board : List Card
board = card 10 0 ∷ card 11 0 ∷ card 12 0 ∷ card 3 1 ∷ card 3 2 ∷ []

abbrev aces : Contender
aces = record { id = 1; hole_cards = card 14 1 ∷ card 14 2 ∷ [] }

abbrev royal : Contender
royal = record { id = 2; hole_cards = card 14 0 ∷ card 13 0 ∷ [] }

abbrev rank_of : List Card → ℕ
rank_of cards = elim (evaluate_five_cards cards) [ none ↦ 0 | some r ↦ r.rank ]

-- Threes full of aces.
full_house-rank : rank_of (card 3 0 ∷ card 3 1 ∷ card 14 1 ∷ card 3 2 ∷ card 14 2 ∷ []) ≡ 6
unfolding evaluate_five_cards
full_house-rank = refl

-- The wheel is a straight.
wheel-rank : rank_of (card 14 0 ∷ card 2 1 ∷ card 3 1 ∷ card 4 2 ∷ card 5 2 ∷ []) ≡ 4
unfolding evaluate_five_cards
wheel-rank = refl

-- A pair, with the tiebreakers given.
abbrev pair_with : List ℕ → HandResult
pair_with tiebreakers = record { rank = 1; tiebreakers = tiebreakers; name = one_pair }

nine_four-low : pair_with (9 ∷ 4 ∷ []) ≤ᴴ pair_with (9 ∷ 7 ∷ [])
unfolding compare_hands
nine_four-low = ground arith

nine_seven-low : pair_with (9 ∷ 7 ∷ []) ≤ᴴ pair_with (9 ∷ 8 ∷ [])
unfolding compare_hands
nine_seven-low = ground arith

compare_hands_trans_example : pair_with (9 ∷ 4 ∷ []) ≤ᴴ pair_with (9 ∷ 8 ∷ [])
compare_hands_trans_example =
    compare_hands_trans (pair_with (9 ∷ 4 ∷ [])) (pair_with (9 ∷ 7 ∷ [])) (pair_with (9 ∷ 8 ∷ []))
      nine_four-low nine_seven-low

best_hand-IsBest_example :
    (b : BestHand) × (best_hand royal.hole_cards board ≡ some b)
    × IsBest (get_combinations (royal.hole_cards ++ board) 5) b
best_hand-IsBest_example = best_hand-IsBest royal.hole_cards board (omega arith)

abbrev scored : ℕ → List ℕ → Scored
scored id tiebreakers = record { player_id = id; hand = pair_with tiebreakers }

winners_of_iff_example :
    (Member (scored 1 (9 ∷ [])) (winners_of (scored 1 (9 ∷ []) ∷ scored 2 (8 ∷ []) ∷ []))) ↔ (
      Member (scored 1 (9 ∷ [])) (scored 1 (9 ∷ []) ∷ scored 2 (8 ∷ []) ∷ [])
      × All (λ h. h.hand ≤ᴴ (scored 1 (9 ∷ [])).hand) (scored 1 (9 ∷ []) ∷ scored 2 (8 ∷ []) ∷ []))
winners_of_iff_example =
    winners_of_iff (scored 1 (9 ∷ [])) (scored 1 (9 ∷ []) ∷ scored 2 (8 ∷ []) ∷ [])

determine_winners_correct_example :
    (hands : List Scored) × IsScored board (aces ∷ royal ∷ []) hands
    × ((winners : List Scored) × (determine_winners (aces ∷ royal ∷ []) board ≡ some winners)
        × ((w : Scored) → Member w winners ↔ (Member w hands × All (λ h. h.hand ≤ᴴ w.hand) hands)))
determine_winners_correct_example =
    determine_winners_correct (aces ∷ royal ∷ []) board (omega arith, (omega arith, tt))

determine_winners_nonempty_example :
    (winners : List Scored) × (determine_winners (aces ∷ royal ∷ []) board ≡ some winners)
    × (is_empty winners ≡ false)
    × All (λ w. includes w.player_id (1 ∷ 2 ∷ []) ≡ true) winners
determine_winners_nonempty_example =
    determine_winners_nonempty aces (royal ∷ []) board (omega arith, (omega arith, tt))
