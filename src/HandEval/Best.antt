-- ===== src/HandEval/Best.antt =====
-- `bestHand` and `determineWinners` of domain/handEvaluator.ts.
use servers_poker.Prelude.{
  ℕ, Option, none, some, List, [], ◌∷◌, ◌++◌, filter, if◌then◌else◌, Bool, ◌&&◌,
}
use servers_poker.Prelude.Int.{ℤ, pos, ltb_ℤ, leb_ℤ}
use servers_poker.HandEval.{Card, HandResult, get_combinations, evaluate_five_cards, compare_hands}

-- A hand with the five cards that make it.
pub record BestHand : Type 0 where
  pub hand : HandResult
  pub cards : List Card

-- `if (!best || compareHands(result, best) > 0)`
abbrev pub better : Option BestHand → HandResult → List Card → Option BestHand
better none result combo = some (record { hand = result; cards = combo })
better (some best) result combo =
    if ltb_ℤ (pos 0) (compare_hands result best.hand)
    then some (record { hand = result; cards = combo })
    else some best

-- The loop over the combinations.
unfoldable pub best_of : Option BestHand → List (List Card) → Option BestHand
best_of best [] = best
best_of best (combo ∷ combos) = elim (evaluate_five_cards combo) [
  | none ↦ none
  | some result ↦ best_of (better best result combo) combos
]

-- `bestHand`; `none` where there are fewer than five cards, and so no hand.
unfoldable pub best_hand : List Card → List Card → Option BestHand
unfolding best_of
best_hand hole_cards community_cards =
    best_of none (get_combinations (hole_cards ++ community_cards) 5)

-- `interface Player`
pub record Contender : Type 0 where
  pub id : ℕ
  pub hole_cards : List Card

-- An entry of `hands`.
pub record Scored : Type 0 where
  pub player_id : ℕ
  pub hand : HandResult

-- `hands`; `none` where some player has no hand, on which the comparisons throw.
unfoldable pub score_all : List Contender → List Card → Option (List Scored)
score_all [] community_cards = some []
score_all (p ∷ players) community_cards =
    let rest = score_all players community_cards in
    elim (best_hand p.hole_cards community_cards) [
      | none ↦ none
      | some b ↦ elim rest [
        | none ↦ none
        | some hands ↦ some (record { player_id = p.id; hand = b.hand } ∷ hands)
      ]
    ]

-- `for (const h of hands) if (compareHands(h.hand, best.hand) > 0) best = h`
unfoldable pub top_of : Scored → List Scored → Scored
top_of best [] = best
top_of best (h ∷ hands) =
    top_of (if ltb_ℤ (pos 0) (compare_hands h.hand best.hand) then h else best) hands

abbrev pub is_tie : ℤ → Bool
is_tie d = leb_ℤ d (pos 0) && leb_ℤ (pos 0) d

-- `winners`
unfoldable pub winners_of : List Scored → List Scored
unfolding top_of
winners_of [] = []
winners_of (h ∷ hands) =
    let best = top_of h (h ∷ hands) in
    filter (λ (g : Scored). is_tie (compare_hands g.hand best.hand)) (h ∷ hands)

-- `determineWinners`: the winners.
unfoldable pub determine_winners : List Contender → List Card → Option (List Scored)
unfolding score_all winners_of best_hand
determine_winners players community_cards = elim (score_all players community_cards) [
  | none ↦ none
  | some hands ↦ some (winners_of hands)
]
