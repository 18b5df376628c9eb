-- ===== src/Betting/Tests.antt =====
-- Runs of domain/betting.ts on small hands, with an instance of each theorem about it.
use servers_poker.Prelude.{
  ◌≡◌, ◌≤◌, ◌<◌, ◌⊎◌, refl, true, false, none, some, List, [], ◌∷◌, inl, inr, arith, Member, All,
  sum_by, ◌↔◌, min,
}
use servers_poker.Prelude.Int.{ℤ, pos}
use servers_poker.Prelude.Dict.{lookup}
use servers_poker.Betting.{Player}
use servers_poker.Betting.Pots.{PotManager, get_total_pot, calculate_pots}
use servers_poker.Betting.Pots.Conservation.{IsSeated, in_pots, calculate_pots-get_total_pot}
use servers_poker.Betting.Pots.Shares.{winnable}
use servers_poker.Betting.Pots.Stakes.{IsContested, calculate_pots-winnable}
use servers_poker.Betting.Pots.Folded.{IsShutOut, calculate_pots-IsShutOut}
use servers_poker.Betting.Round.{
  BettingRound, Action, fold, call, raise, all_in, apply_action, apply_raise,
}
use servers_poker.Betting.Round.Actions.{Conserves, apply_action-Conserves, apply_action-refused}
use servers_poker.Betting.Round.Limits.{IsBounded, IsFair, apply_action-IsFair}
use servers_poker.Betting.Round.Raises.{IsRaise, apply_raise-IsRaise}
use servers_poker.Betting.Round.Queries.{is_betting_complete, get_valid_actions_for_player}
use servers_poker.Betting.Round.Turns.{
  IsAnswered, HasMatched, still_in, is_betting_complete_iff, valid_actions-IsAnswered,
}

-- Three players: the first is all in for less, the third has folded.
abbrev ann : Player
ann = record { id = 1; chips = 0; folded = false; all_in = true }

abbrev bob : Player
bob = record { id = 2; chips = 400; folded = false; all_in = false }

abbrev cid : Player
cid = record { id = 3; chips = 900; folded = true; all_in = false }

abbrev seated : List Player
seated = ann ∷ bob ∷ cid ∷ []

abbrev hand_pot : PotManager
hand_pot = record {
  pots = [];
  player_bets_this_round = [];
  player_total_bets = (1, 50) ∷ (2, 200) ∷ (3, 120) ∷ [];
}

-- A main pot of three stakes of 50, and two side pots with the rest, which only Bob can win.
pots-of-hand :
    (calculate_pots hand_pot seated).pots
    ≡ record { amount = 150; eligible_player_ids = 1 ∷ 2 ∷ [] }
      ∷ record { amount = 140; eligible_player_ids = 2 ∷ [] }
      ∷ record { amount = 80; eligible_player_ids = 2 ∷ [] }
      ∷ []
unfolding calculate_pots
pots-of-hand = refl

seated-IsSeated : IsSeated hand_pot.player_total_bets seated
seated-IsSeated = record {
  distinct_keys = (refl, (refl, (refl, tt)));
  distinct_ids = (refl, (refl, (refl, tt)));
  known = (refl, (refl, (refl, tt)));
}

hand_pot-filled : 0 < get_total_pot hand_pot
unfolding get_total_pot
hand_pot-filled = omega arith

calculate_pots-get_total_pot_example :
    in_pots (calculate_pots hand_pot seated).pots ≡ get_total_pot hand_pot
calculate_pots-get_total_pot_example =
    calculate_pots-get_total_pot hand_pot seated seated-IsSeated hand_pot-filled

ann-IsContested : IsContested hand_pot.player_total_bets seated ann bob
ann-IsContested = record {
  seated = inl refl;
  staked = omega arith;
  live = refl;
  top_seated = inr (inl refl);
  top_live = refl;
  top_most = (omega arith, (omega arith, (omega arith, tt)));
}

calculate_pots-winnable_example :
    winnable 1 (calculate_pots hand_pot seated).pots
    ≡ sum_by
        (λ (q : Player).
          min (lookup q.id hand_pot.player_total_bets) (lookup 1 hand_pot.player_total_bets))
        seated
calculate_pots-winnable_example = calculate_pots-winnable hand_pot seated ann bob ann-IsContested

-- Cid has put in more than Ann, and can win nothing.
calculate_pots-IsShutOut_example : IsShutOut 3 (calculate_pots hand_pot seated).pots
calculate_pots-IsShutOut_example =
    calculate_pots-IsShutOut hand_pot seated cid (refl, (refl, (refl, tt))) (inr (inr (inl refl)))
      refl (omega arith)

-- A round in which Ann, who has moved all in, has opened for 50.
abbrev street : BettingRound
street = record {
  players = seated;
  small_blind = 10;
  big_blind = 20;
  is_pre_flop = false;
  dealer_index = 2;
  current_max_bet = 50;
  last_raise_delta = 50;
  last_raiser_index = some 0;
  acted_players = 1 ∷ [];
  bets_this_round = (1, 50) ∷ [];
  last_raise_was_full = true;
  betting_reopened_for = 2 ∷ [];
  raises_this_street = 1;
}

abbrev raise_of : ℤ → Action
raise_of n = record { type = raise; amount = some n }

street-IsBounded : IsBounded street
street-IsBounded = record { bets = λ i. ground arith; delta = omega arith }

-- Bob calls, and 50 of his chips move.
call_street :
    (apply_action street bob (record { type = call; amount = none })).2.amount_added ≡ pos 50
unfolding apply_action
call_street = refl

-- A raise by 60 over Ann's 50 costs Bob 110.
raise_street : (apply_action street bob (raise_of (pos 60))).2.amount_added ≡ pos 110
unfolding apply_action
raise_street = refl

-- A raise by less than the minimum is refused.
small_raise_street : (apply_action street bob (raise_of (pos 10))).2.valid ≡ false
unfolding apply_action
small_raise_street = refl

apply_action-Conserves_example : Conserves street bob (apply_action street bob (raise_of (pos 60)))
apply_action-Conserves_example = apply_action-Conserves street bob (raise_of (pos 60))

apply_action-refused_example :
    let o = apply_action street bob (raise_of (pos 10)) in
    (o.0 ≡ street) × (o.1 ≡ bob) × (o.2.amount_added ≡ pos 0)
apply_action-refused_example =
    apply_action-refused street bob (raise_of (pos 10)) small_raise_street

apply_action-IsFair_example : IsFair bob (apply_action street bob (raise_of (pos 60)))
apply_action-IsFair_example = apply_action-IsFair street bob (raise_of (pos 60)) street-IsBounded

valid_raise : (apply_raise street bob (some (pos 60))).2.valid ≡ true
unfolding apply_raise
valid_raise = refl

apply_raise-IsRaise_example : IsRaise street (apply_raise street bob (some (pos 60)))
apply_raise-IsRaise_example =
    apply_raise-IsRaise street bob (some (pos 60)) street-IsBounded valid_raise

is_betting_complete_iff_example :
    (is_betting_complete street ≡ true)
    ↔ ((still_in street.players ≤ 1) ⊎ All (HasMatched street) street.players)
is_betting_complete_iff_example = is_betting_complete_iff street street-IsBounded

-- Bob may fold, call or raise, and he is offered an `all_in` that is refused.
offers_street : get_valid_actions_for_player street bob ≡ fold ∷ call ∷ raise ∷ all_in ∷ []
unfolding get_valid_actions_for_player
offers_street = refl

raise-offered : Member raise (get_valid_actions_for_player street bob)
unfolding get_valid_actions_for_player
raise-offered = inr (inr (inl refl))

valid_actions-IsAnswered_example : IsAnswered street bob raise
valid_actions-IsAnswered_example =
    valid_actions-IsAnswered street bob raise street-IsBounded (omega arith) (omega arith)
      raise-offered
