-- ===== src/Tournament/Balancing/Tests.antt =====
-- Moves between small tables, with an instance of each theorem about them.
use servers_poker.Prelude.{
  ℕ, ◌+◌, ◌≡◌, refl, true, Option, none, some, List, [], ◌∷◌, Distinct, arith,
}
use servers_poker.Prelude.Doubles.{to_number}
use servers_poker.Table.{GamePlayer, eliminated, update_seat}
use servers_poker.Table.Payout.{seat_ids}
use servers_poker.Table.Roster.{add_player, remove_player}
use servers_poker.Tournament.State.{TableEntry, Tournament, playing}
use servers_poker.Tournament.Busts.{busted_this_round}
use servers_poker.Tournament.Busts.Sorted.{bust_ids}
use servers_poker.Tournament.Balancing.{
  player_to_move, sort_stacks, move_player_for_balancing, break_table,
}
use servers_poker.Tournament.Balancing.Moved.{
  move_player_for_balancing-chips, move_player_for_balancing-back,
}
use servers_poker.Tournament.Balancing.Joined.{chips_of}
use servers_poker.Tournament.Balancing.Seated.{HasSeat}
use servers_poker.Tournament.Balancing.Broken.{
  IsReady, IsSettled, remaining_tables, break_table-IsSettled,
}
use servers_poker.Tournament.Tests.{seat, table_of, cup}

abbrev four : TableEntry
four = table_of 1 (seat 1 900 ∷ seat 2 700 ∷ seat 3 800 ∷ seat 4 100 ∷ [])

abbrev two : TableEntry
two = table_of 2 (seat 5 500 ∷ seat 6 400 ∷ [])

abbrev uneven : Tournament
uneven = record cup { tables = four ∷ two ∷ [] }

four-Distinct : Distinct (seat_ids four.game.table.players)
four-Distinct = (refl, (refl, (refl, (refl, tt))))

leader : player_to_move uneven.active_bots two (sort_stacks (playing four)) ≡ some (seat 1 900)
unfolding player_to_move sort_stacks
leader = refl

move_player_for_balancing-chips_example :
    (t' : Tournament) × (move_player_for_balancing uneven 1 2 ≡ some t')
    × (chips_of t'.tables ≡ chips_of uneven.tables)
    × HasSeat t'.tables (seat 1 900)
move_player_for_balancing-chips_example =
    move_player_for_balancing-chips uneven 1 2 four two (seat 1 900) (omega arith) refl refl refl
      refl four-Distinct leader refl (omega arith)

-- Player 1 has been at the second table before.
abbrev old_seat : GamePlayer
old_seat = record (seat 1 0) { seat_status = eliminated; disconnected = true }

abbrev two_again : TableEntry
two_again = table_of 2 (seat 5 500 ∷ old_seat ∷ seat 6 400 ∷ [])

abbrev uneven_again : Tournament
uneven_again = record cup { tables = four ∷ two_again ∷ [] }

leader_again :
    player_to_move uneven_again.active_bots two_again (sort_stacks (playing four))
    ≡ some (seat 1 900)
unfolding player_to_move sort_stacks
leader_again = refl

move_player_for_balancing-back_example :
    (t' : Tournament) × (move_player_for_balancing uneven_again 1 2 ≡ some t')
    × (chips_of t'.tables + 900 ≡ chips_of uneven_again.tables)
move_player_for_balancing-back_example =
    move_player_for_balancing-back uneven_again 1 2 four two_again (seat 1 900) old_seat
      (omega arith) refl refl refl refl four-Distinct leader_again refl refl

-- A table of one, whose player has to go.
abbrev lonely : Tournament
lonely = record cup { tables = table_of 1 (seat 1 900 ∷ []) ∷ two ∷ [] }

lonely-IsReady : IsReady 9 (seat 1 900 ∷ []) (remaining_tables 1 lonely.tables)
lonely-IsReady = record {
  idle = (refl, tt);
  ids = (refl, tt);
  bounded = (omega arith, tt);
  room = omega arith;
  unknown = ((refl, tt), tt);
  distinct = (refl, tt);
  plays = (refl, tt);
  safe = (omega arith, tt);
}

break_table-IsSettled_example :
    (t' : Tournament) × (break_table 9 lonely 1 ≡ some t')
    × IsSettled 9 (seat 1 900 ∷ []) (remaining_tables 1 lonely.tables) t'.tables
break_table-IsSettled_example =
    break_table-IsSettled 9 lonely 1 (table_of 1 (seat 1 900 ∷ [])) refl lonely-IsReady

-- Who is out after a move, for want of chips at the old seat.
abbrev out_after : Option Tournament → List ℕ
out_after none = []
out_after (some t) = bust_ids (busted_this_round t t.tables)

moved-out : out_after (move_player_for_balancing uneven 1 2) ≡ 1 ∷ []
unfolding move_player_for_balancing add_player busted_this_round remove_player update_seat to_number
moved-out = refl
