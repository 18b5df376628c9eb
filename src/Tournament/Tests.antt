-- ===== src/Tournament/Tests.antt =====
-- Small tournaments, with an instance of each theorem about them.
use servers_poker.Prelude.{
  ℕ, ◌+◌, ◌-◌, ◌*◌, ◌/◌, ◌<◌, ◌≡◌, max, refl, true, false, none, some, List, [], ◌∷◌, ◌++◌, map,
  length, sum_by, All, arith,
}
use mathlib.Core.List.{reverse}
use servers_poker.Prelude.Int.{pos}
use servers_poker.Table.{GamePlayer, active}
use servers_poker.Tournament.Config.{Payout, calculate_prizes, get_blind_level, blinds}
use servers_poker.Tournament.Prizes.{paid, IsRanked, calculate_prizes-paid}
use servers_poker.Tournament.State.{BotInfo, BustRecord, TableEntry, Tournament}
use servers_poker.Tournament.Levels.{check_blind_level_advance}
use servers_poker.Tournament.Levels.Advance.{
  HasBlinds, IsNoted, hands_played, new_hands, check_blind_level_advance-counts,
}
use servers_poker.Tournament.Barrier.{
  Barrier, new_barrier, check_in, check_in_all, Reaches, at_start, after, arrives,
}
use servers_poker.Tournament.Barrier.Held.{check_in_all-releases, check_in_all-holds}
use servers_poker.Tournament.Busts.{Bust, EntryPayout, check_for_busted_players, finish_tournament}
use servers_poker.Tournament.Busts.Sorted.{Descends, bust_ids}
use servers_poker.Tournament.Busts.Active.{Survives, bot_ids}
use servers_poker.Tournament.Busts.Out.{all_out}
use servers_poker.Tournament.Busts.Counted.{
  IsCounted, IsMarked, record_behind, check_for_busted_players-places,
}
use servers_poker.Tournament.Busts.Paid.{paid_amounts, zeros, received, finish_tournament-received}
use servers_poker.Tournament.Round.{finished, handle_hand_complete}
use servers_poker.Tournament.Round.Paid.{counted, handle_hand_complete-finished}

-- The field of 30 pays four places.
field_of_30 : map (λ p. p.amount) (calculate_prizes 1001 30) ≡ 501 ∷ 200 ∷ 150 ∷ 150 ∷ []
unfolding calculate_prizes
field_of_30 = refl

calculate_prizes-paid_example :
    let payouts = calculate_prizes 1001 30 in
    (paid payouts ≡ 1001) × (length payouts ≡ max 1 (3 * 30 / 20)) × IsRanked 0 1001 payouts
calculate_prizes-paid_example = calculate_prizes-paid 1001 30

abbrev pub seat : ℕ → ℕ → GamePlayer
seat id chips = record {
  player = record { id = id; chips = chips; folded = false; all_in = false };
  hole_cards = [];
  strikes = 0;
  seat_status = active;
  disconnected = false;
}

-- A table at the first level, after 23 hands.
abbrev pub table_of : ℕ → List GamePlayer → TableEntry
table_of id players = record {
  id = id;
  game = record {
    table = record {
      players = players;
      small_blind = 25;
      big_blind = 50;
      ante = 10;
      dealer_index = 0;
      hand_number = 23;
      action_seq = 0;
      community_cards = [];
      pot_manager = record { pots = []; player_bets_this_round = []; player_total_bets = [] };
      last_aggressor_id = none;
      moving_players = [];
    };
    starting_chips = 5000;
    expected_total_chips = none;
    hand_in_progress = false;
    pending_mutations = [];
  };
}

abbrev pub bot : ℕ → BotInfo
bot id = record { bot_id = id; user_id = none; elo = 0 }

-- Six players at two tables. Players 2, 4 and 5 have no chips left; 2 and 5 began the hand with 300.
abbrev pub cup : Tournament
cup = record {
  tables =
      table_of 1 (seat 1 900 ∷ seat 2 0 ∷ seat 3 800 ∷ [])
      ∷ table_of 2 (seat 4 0 ∷ seat 5 0 ∷ seat 6 400 ∷ [])
      ∷ [];
  table_hand_numbers = (1, 20) ∷ (2, 18) ∷ [];
  current_level = 1;
  hands_this_level = 8;
  active_bots = map bot (1 ∷ 2 ∷ 3 ∷ 4 ∷ 5 ∷ 6 ∷ []);
  bust_order = [];
  busted_bots = [];
  total_entrants = 6;
  chip_snapshot = (1, 500) ∷ (2, 300) ∷ (4, 700) ∷ (5, 300) ∷ [];
  round_counter = 41;
  hand_for_hand_mode = false;
}

cup-blinds : All (HasBlinds 1) cup.tables
unfolding get_blind_level
cup-blinds =
    ((blinds 1 25 50 10, refl, refl, refl, refl), ((blinds 1 25 50 10, refl, refl, refl, refl), tt))

-- Eight hands and eight more make a level of ten and six hands.
check_blind_level_advance-counts_example :
    (t' : Tournament) × (check_blind_level_advance 10 cup ≡ some t')
    × (hands_played 10 t'
        ≡ hands_played 10 cup + sum_by (new_hands cup.table_hand_numbers) cup.tables)
    × All (IsNoted t'.table_hand_numbers) cup.tables
    × (t'.hands_this_level < 10)
    × All (HasBlinds t'.current_level) t'.tables
check_blind_level_advance-counts_example =
    check_blind_level_advance-counts 10 cup (omega arith) (refl, (refl, tt)) cup-blinds

eight_more : sum_by (new_hands cup.table_hand_numbers) cup.tables ≡ 8
eight_more = refl

-- The first of three tables is held.
abbrev one_held : Barrier
one_held = record { checked_in = 1 ∷ []; waiters = 1 ∷ []; timer = true }

one_held-Reaches : Reaches 3 one_held
unfolding check_in
one_held-Reaches = after new_barrier one_held at_start (arrives 1 new_barrier refl)

check_in_all-releases_example :
    ((check_in_all 3 (3 ∷ 2 ∷ []) one_held).0 ≡ new_barrier)
    × ((check_in_all 3 (3 ∷ 2 ∷ []) one_held).1 ≡ 1 ∷ 3 ∷ 2 ∷ [])
check_in_all-releases_example =
    check_in_all-releases 3 one_held (3 ∷ 2 ∷ []) (omega arith) one_held-Reaches
      (refl, (refl, (refl, tt))) refl

check_in_all-holds_example :
    ((check_in_all 3 (3 ∷ []) one_held).0.waiters ≡ 1 ∷ 3 ∷ [])
    × ((check_in_all 3 (3 ∷ []) one_held).1 ≡ [])
check_in_all-holds_example =
    check_in_all-holds 3 one_held (3 ∷ []) (omega arith) one_held-Reaches (refl, (refl, tt))
      (omega arith)

cup-IsCounted : IsCounted cup
cup-IsCounted = record {
  total = refl;
  distinct = (refl, (refl, (refl, (refl, (refl, (refl, tt))))));
}

-- The three who are out have the places 4, 5 and 5.
cup-places :
    map (λ (r : BustRecord). r.finish_position) (check_for_busted_players cup).bust_order
    ≡ pos 4 ∷ pos 5 ∷ pos 5 ∷ []
unfolding check_for_busted_players
cup-places = refl

-- Players 2, 4 and 5 are out.
cup-out : bust_ids (all_out cup cup.tables) ≡ 2 ∷ 4 ∷ 5 ∷ []
cup-out = refl

check_for_busted_players-places_example :
    let out = all_out cup cup.tables in
    let t' = check_for_busted_players cup in
    IsCounted t'
    × All (Survives cup out) t'.active_bots
    × IsMarked cup out t'
    × (sorted : List Bust) × (t'.bust_order
        ≡ cup.bust_order ++ map (record_behind cup (length t'.active_bots) out) sorted)
    × Descends sorted
    × ((f : Bust → ℕ) → sum_by f sorted ≡ sum_by f out)
check_for_busted_players-places_example =
    check_for_busted_players-places cup cup-IsCounted (refl, (refl, (refl, tt)))

-- The two of a match, of whom the first is out.
abbrev match : Tournament
match = record cup {
  active_bots = bot 2 ∷ [];
  bust_order =
      record_behind cup 1 [] (record { bot_id = 1; chips_at_start = 10; table_id = 1 }) ∷ [];
  total_entrants = 2;
}

match-IsCounted : IsCounted match
match-IsCounted = record { total = refl; distinct = (refl, tt) }

finish_tournament-received_example :
    let payouts = finish_tournament 100 match in
    let prizes = calculate_prizes (2 * 100) 2 in
    (map (λ (e : EntryPayout). e.bot_id) payouts ≡ 2 ∷ 1 ∷ [])
    × (map (λ (e : EntryPayout). e.position) payouts ≡ 1 ∷ 2 ∷ [])
    × (paid_amounts payouts ≡ map (λ (p : Payout). p.amount) prizes ++ zeros (2 - length prizes))
    × (received payouts ≡ 2 * 100)
finish_tournament-received_example = finish_tournament-received 100 match match-IsCounted refl

-- The last two, of whom one has no chips left.
abbrev final_two : Tournament
final_two = record match {
  tables = table_of 1 (seat 1 0 ∷ seat 2 0 ∷ seat 3 5000 ∷ []) ∷ [];
  active_bots = bot 2 ∷ bot 3 ∷ [];
  busted_bots = 1 ∷ [];
  total_entrants = 3;
}

final_two-IsCounted : IsCounted final_two
final_two-IsCounted = record { total = refl; distinct = (refl, (refl, tt)) }

one_left : length (check_for_busted_players (counted final_two)).active_bots ≡ 1
unfolding check_for_busted_players
one_left = refl

handle_hand_complete-finished_example :
    let out = all_out final_two final_two.tables in
    let prizes = calculate_prizes (3 * 100) 3 in
    (t' : Tournament) × (payouts : List EntryPayout) × (handle_hand_complete 9 10 100 final_two
        new_barrier
      ≡ some (finished t' payouts))
    × (sorted : List Bust) × (map (λ (e : EntryPayout). e.bot_id) payouts
        ≡ bot_ids t'.active_bots ++ reverse (1 ∷ bust_ids sorted))
    × (length t'.active_bots ≡ 1)
    × All (Survives final_two out) t'.active_bots
    × Descends sorted
    × ((f : Bust → ℕ) → sum_by f sorted ≡ sum_by f out)
    × (map (λ (e : EntryPayout). e.position) payouts ≡ 1 ∷ 2 ∷ 3 ∷ [])
    × (paid_amounts payouts ≡ map (λ (p : Payout). p.amount) prizes ++ zeros (3 - length prizes))
    × (received payouts ≡ 3 * 100)
handle_hand_complete-finished_example =
    handle_hand_complete-finished 9 10 100 final_two new_barrier final_two-IsCounted (refl, tt)
      one_left
