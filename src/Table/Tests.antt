-- ===== src/Table/Tests.antt =====
-- A street and a showdown at a table of three, with an instance of each theorem about them.
use servers_poker.Prelude.{
  ℕ, inl, inr, ◌≤◌, ◌≡◌, ◌+◌, ◌<◌, refl, false, none, some, List, [], ◌∷◌, arith, is_empty, ◌==◌,
  if◌then◌else◌,
}
use servers_poker.Prelude.Int.{pos}
use servers_poker.Betting.Pots.{get_total_pot, add_bet}
use servers_poker.Betting.Pots.Conservation.{IsSeated}
use servers_poker.Betting.Round.{call, raise, new_round, apply_action, can_check}
use servers_poker.Betting.Round.Queries.{is_betting_complete}
use servers_poker.HandEval.{Card}
use servers_poker.Table.{Table, GamePlayer, active, betting_players, put_player, update_seat}
use servers_poker.Table.Seats.{active_players, next_active_index}
use servers_poker.Table.Street.{
  Engine, plain, betting_round_loop, street_loop, open_round, street_step, seat_turn, bot_turn,
}
use servers_poker.Table.Award.{showdown}
use servers_poker.Table.Payout.{stacks}
use servers_poker.Table.Moves.{chips_at}
use servers_poker.Table.Hand.{
  Blinds, post_antes, pay_blinds, post_blinds, play_hand, reset_hand, deal, reset_player,
}
use servers_poker.Table.Forced.{post_antes-chips_at}
use servers_poker.Table.Blinds.{pay_blinds-chips_at}
use servers_poker.Prelude.Dict.{lookup}
use servers_poker.Table.Rounds.{betting_round_loop-chips_at}
use servers_poker.Table.Hands.{opening, play_hand-Pays}
use servers_poker.Table.Whole.{Pays}
use servers_poker.Betting.Round.Turns.{still_in}
use servers_poker.Table.Showdown.{showdown-stacks}

abbrev card : ℕ → ℕ → Card
card value suit = record { value = value; suit = suit }

abbrev seat : ℕ → ℕ → List Card → GamePlayer
seat id chips hole_cards = record {
  player = record { id = id; chips = chips; folded = false; all_in = false };
  hole_cards = hole_cards;
  strikes = 0;
  seat_status = active;
  disconnected = false;
}

-- Three players on the river, with 60 in the pot.
abbrev river : Table
river = record {
  players =
      seat 1 100 (card 14 1 ∷ card 14 2 ∷ [])
      ∷ seat 2 200 (card 13 1 ∷ card 13 2 ∷ [])
      ∷ seat 3 40 (card 2 1 ∷ card 7 2 ∷ [])
      ∷ [];
  small_blind = 10;
  big_blind = 20;
  ante = 0;
  dealer_index = 0;
  hand_number = 1;
  action_seq = 0;
  community_cards = card 10 0 ∷ card 11 0 ∷ card 12 0 ∷ card 3 1 ∷ card 3 2 ∷ [];
  pot_manager = record {
    pots = [];
    player_bets_this_round = [];
    player_total_bets = (1, 20) ∷ (2, 20) ∷ (3, 20) ∷ [];
  };
  last_aggressor_id = none;
  moving_players = [];
}

-- A strategy: the second player raises, the third one's fails, and the first one calls.
abbrev engine : Engine
engine t r p =
    if p.id == 2
    then some (record { type = raise; amount = some (pos 30) })
    else if p.id == 3
    then none
    else some (plain call)

river-IsSeated : IsSeated river.pot_manager.player_total_bets (betting_players river)
river-IsSeated = record {
  distinct_keys = (refl, (refl, (refl, tt)));
  distinct_ids = (refl, (refl, (refl, tt)));
  known = (refl, (refl, (refl, tt)));
}

-- The raise of 30 is called once, so 60 chips have moved to the pot.
river-stacks : stacks (betting_round_loop engine river false 1 0 []).players ≡ 280
unfolding betting_round_loop street_loop is_betting_complete open_round new_round street_step
    seat_turn bot_turn apply_action put_player update_seat next_active_index can_check
river-stacks = refl

betting_round_loop-chips_at_example :
    let t' = betting_round_loop engine river false 1 0 [] in
    (chips_at t' ≡ chips_at river) × IsSeated t'.pot_manager.player_total_bets (betting_players t')
betting_round_loop-chips_at_example =
    betting_round_loop-chips_at engine river false 1 0 [] river-IsSeated (λ i. omega arith)

river-pot : 0 < get_total_pot river.pot_manager
unfolding get_total_pot
river-pot = omega arith

river-active : is_empty (active_players river) ≡ false
unfolding active_players
river-active = refl

showdown-stacks_example :
    (t' : Table) × (showdown river ≡ some t')
    × (stacks t'.players ≡ stacks river.players + get_total_pot river.pot_manager)
showdown-stacks_example = showdown-stacks river river-IsSeated river-pot river-active (omega arith)

-- The same table, with antes of 50, of which the third player can pay 40.
abbrev with_antes : Table
with_antes = record river { ante = 50 }

with_antes-stacks : stacks (post_antes with_antes).players ≡ 200
unfolding post_antes
with_antes-stacks = refl

post_antes-chips_at_example :
    (chips_at (post_antes with_antes) ≡ chips_at with_antes)
    × IsSeated
        (post_antes with_antes).pot_manager.player_total_bets
        (betting_players (post_antes with_antes))
post_antes-chips_at_example = post_antes-chips_at with_antes river-IsSeated

abbrev first_seat : GamePlayer
first_seat = seat 1 100 (card 14 1 ∷ card 14 2 ∷ [])

abbrev third_seat : GamePlayer
third_seat = seat 3 40 (card 2 1 ∷ card 7 2 ∷ [])

pay_blinds-chips_at_example :
    (b : Blinds) × (pay_blinds river first_seat third_seat 2 ≡ some b)
    × (chips_at b.table ≡ chips_at river)
    × IsSeated b.table.pot_manager.player_total_bets (betting_players b.table)
    × ((i : ℕ) → lookup i b.bets ≤ 20)
pay_blinds-chips_at_example =
    pay_blinds-chips_at river first_seat third_seat 2 river-IsSeated (inl refl)
      (inr (inr (inl refl))) refl (omega arith)

-- Two players and twelve cards.
abbrev heads_up : Table
heads_up = record river {
  players = seat 1 100 [] ∷ seat 2 200 [] ∷ [];
  pot_manager = record { pots = []; player_bets_this_round = []; player_total_bets = [] };
}

abbrev twelve : List Card
twelve =
    card 2 0
    ∷ card 3 1
    ∷ card 4 2
    ∷ card 5 3
    ∷ card 6 0
    ∷ card 7 1
    ∷ card 8 2
    ∷ card 9 3
    ∷ card 10 0
    ∷ card 11 1
    ∷ card 12 2
    ∷ card 13 3
    ∷ []

-- The dealer posts 10 and the other player 20.
abbrev posted : Blinds
posted = record {
  table = record (opening twelve heads_up) {
    players = seat 1 90 (card 2 0 ∷ card 3 1 ∷ []) ∷ seat 2 180 (card 4 2 ∷ card 5 3 ∷ []) ∷ [];
    pot_manager = record {
      pots = record { amount = 0; eligible_player_ids = [] } ∷ [];
      player_bets_this_round = (1, 10) ∷ (2, 20) ∷ [];
      player_total_bets = (1, 10) ∷ (2, 20) ∷ [];
    };
  };
  start_index = 0;
  bets = (1, 10) ∷ (2, 20) ∷ [];
}

heads_up-posted : post_blinds (opening twelve heads_up) ≡ some posted
unfolding post_blinds post_antes reset_hand deal put_player update_seat next_active_index
    active_players add_bet reset_player pay_blinds
heads_up-posted = refl

heads_up-somebody : 0 < still_in (betting_players (reset_hand heads_up))
unfolding reset_hand reset_player
heads_up-somebody = omega arith

posted-filled : 0 < get_total_pot posted.table.pot_manager
unfolding get_total_pot
posted-filled = omega arith

-- The second player raises, and the first one's strategy calls to the end.
play_hand-Pays_example : Pays 300 (play_hand engine twelve heads_up)
play_hand-Pays_example =
    play_hand-Pays engine twelve heads_up posted (refl, (refl, tt)) (inl refl, (inl refl, tt))
      (omega arith) (omega arith) heads_up-somebody heads_up-posted posted-filled
