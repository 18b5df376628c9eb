-- ===== src/Table/Roster/Tests.antt =====
-- Two players join a new table while a hand is on, and one of them leaves again, with an instance of
-- each theorem about these operations.
use servers_poker.Prelude.{◌≡◌, refl, true, none, some, [], ◌∷◌}
use servers_poker.Prelude.Int.{pos}
use servers_poker.Betting.Pots.{new_pot_manager, get_player_total_bet}
use servers_poker.Table.Roster.{
  Roster, join, leave, drain_pending_mutations, assert_chip_conservation,
}
use servers_poker.Table.Roster.Balance.{IsBalanced, drain_pending_mutations-IsBalanced}

abbrev waiting : Roster
waiting = record {
  table = record {
    players = [];
    small_blind = 10;
    big_blind = 20;
    ante = 0;
    dealer_index = 0;
    hand_number = 0;
    action_seq = 0;
    community_cards = [];
    pot_manager = new_pot_manager;
    last_aggressor_id = none;
    moving_players = [];
  };
  starting_chips = 1000;
  expected_total_chips = none;
  hand_in_progress = true;
  pending_mutations =
      join (record { id = 1; chips = none; insert_at = none })
      ∷ join (record { id = 2; chips = some 300; insert_at = some (pos 0) })
      ∷ leave 1
      ∷ [];
}

drained-expected : (drain_pending_mutations waiting).expected_total_chips ≡ some (pos 300)
unfolding drain_pending_mutations get_player_total_bet
drained-expected = refl

drain_pending_mutations-IsBalanced_example :
    IsBalanced (drain_pending_mutations waiting)
    × (assert_chip_conservation (drain_pending_mutations waiting) ≡ true)
drain_pending_mutations-IsBalanced_example = drain_pending_mutations-IsBalanced waiting (refl, refl)
