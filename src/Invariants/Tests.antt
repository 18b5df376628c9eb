-- ===== src/Invariants/Tests.antt =====
-- A bet that the checker finds valid, with an instance of each theorem about it.
use servers_poker.Prelude.{◌≡◌, ◌≢◌, refl, true, false, none, some, [], ◌∷◌, arith}
use servers_poker.Prelude.Int.{pos}
use servers_poker.Betting.{Player}
use servers_poker.Betting.Round.{BettingRound, Action, all_in, bet, new_round, apply_action}
use servers_poker.Betting.Round.Limits.{IsBounded}
use servers_poker.Invariants.{validate_action, compute_expected_total}
use servers_poker.Invariants.Agreement.{validation_of, validate_action-apply_action}

abbrev ann : Player
ann = record { id = 1; chips = 500; folded = false; all_in = false }

abbrev bob : Player
bob = record { id = 2; chips = 500; folded = false; all_in = false }

abbrev flop : BettingRound
flop = new_round (ann ∷ bob ∷ []) 10 20 false 0

abbrev opening : Action
opening = record { type = bet; amount = some (pos 60) }

flop-IsBounded : IsBounded flop
unfolding new_round
flop-IsBounded = record { bets = λ i. omega arith; delta = omega arith }

opening-valid : validate_action (validation_of flop ann opening) ≡ none
unfolding validate_action new_round
opening-valid = refl

bet_not_all_in : bet ≢ all_in
bet_not_all_in e = absurd cc

validate_action-apply_action_example : (apply_action flop ann opening).2.valid ≡ true
validate_action-apply_action_example =
    validate_action-apply_action flop ann opening flop-IsBounded (omega arith) bet_not_all_in
      opening-valid

-- Two stacks and a pot.
expected-two :
    compute_expected_total
      (record { id = 1; chips = pos 30 } ∷ record { id = 2; chips = pos 50 } ∷ [])
      (some (pos 20))
    ≡ pos 100
unfolding compute_expected_total
expected-two = refl
