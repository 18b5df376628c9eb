-- ===== src/Tournament/Balancing.antt =====
-- The seats of a tournament: `checkTableBalancing`, `movePlayerForBalancing` and `breakTable` of
-- `ActiveTournament`. What they store in Redis and in the database is left out, as are the flag
-- against calls while one is waiting for those and the restart of a game that had too few players.
-- `none` is an exception.
pub mod Joined
pub mod Moved
mod Free
mod Seated
pub mod Broken
mod Tests
use servers_poker.Prelude.{
  ℕ, zero, suc, ◌+◌, ◌-◌, ◌%◌, Bool, true, false, not, ◌&&◌, ◌||◌, Option, none, some, List, [],
  ◌∷◌, filter, find, any, length, sum_by, ltb, leb, ◌==◌, if◌then◌else◌,
}
use servers_poker.Prelude.Int.{pos}
use servers_poker.Prelude.Doubles.{to_number}
use servers_poker.Prelude.Dict.{Dict}
use servers_poker.Table.{GamePlayer}
use servers_poker.Table.Roster.{Roster, Newcomer, add_player, remove_player}
use servers_poker.Tournament.State.{BotInfo, TableEntry, Tournament, is_playing, playing}
use servers_poker.Tournament.Busts.{active_bot}

-- `this.tables.get(id)`
abbrev pub get_table : ℕ → List TableEntry → Option TableEntry
get_table id tables = find (λ (e : TableEntry). e.id == id) tables

-- A change of the game of a table.
abbrev pub put_game : ℕ → Roster → List TableEntry → List TableEntry
put_game id game [] = []
put_game id game (e ∷ tables) =
    if e.id == id then record e { game = game } ∷ tables else e ∷ put_game id game tables

-- `===` on two `userId`s.
abbrev pub same_user : Option ℕ → Option ℕ → Bool
same_user none none = true
same_user none (some u) = false
same_user (some u) none = false
same_user (some u) (some v) = u == v

-- `this.activeBots.get(tp.id)?.userId === movingBot.userId`
abbrev pub has_owner : List BotInfo → BotInfo → GamePlayer → Bool
has_owner bots moving p = elim (active_bot p.id bots) [
  | none ↦ false
  | some b ↦ same_user b.user_id moving.user_id
]

-- Whether a playing bot of the same owner sits at a table; not for a player without a bot.
unfoldable pub conflicts : List BotInfo → GamePlayer → TableEntry → Bool
conflicts bots p e = elim (active_bot p.id bots) [
  | none ↦ false
  | some moving ↦
      any (λ (q : GamePlayer). is_playing q && has_owner bots moving q) e.game.table.players
]

-- The sort by chips, the most first; it is stable.
unfoldable pub insert_stack : GamePlayer → List GamePlayer → List GamePlayer
insert_stack p [] = p ∷ []
insert_stack p (q ∷ players) =
    if leb q.chips p.chips then p ∷ q ∷ players else q ∷ insert_stack p players

unfoldable pub sort_stacks : List GamePlayer → List GamePlayer
unfolding insert_stack
sort_stacks [] = []
sort_stacks (p ∷ players) = insert_stack p (sort_stacks players)

-- `playerToMove`: the first without a conflict, or the first.
unfoldable pub player_to_move : List BotInfo → TableEntry → List GamePlayer → Option GamePlayer
unfolding conflicts
player_to_move bots to_entry [] = none
player_to_move bots to_entry (p ∷ candidates) =
    elim (find (λ (q : GamePlayer). not (conflicts bots q to_entry)) (p ∷ candidates)) [
      | none ↦ some p
      | some q ↦ some q
    ]

-- `bestSeat`
abbrev pub best_seat : TableEntry → ℕ
best_seat e =
    let target_active = length (playing e) in
    if ltb 0 target_active then (e.game.table.dealer_index + 2) % target_active else 0

-- The argument of `addPlayer`; the chips go through `Number`.
abbrev pub newcomer : TableEntry → GamePlayer → Newcomer
newcomer e p = record {
  id = p.id;
  chips = some (to_number p.chips);
  insert_at = some (pos (best_seat e));
}

-- The move of a player from one table to another.
unfoldable pub move_player :
    TableEntry → TableEntry → GamePlayer → List TableEntry → Option (List TableEntry)
move_player from_entry to_entry p tables =
    let left = put_game from_entry.id (remove_player from_entry.game p.id) tables in
    elim (add_player to_entry.game (newcomer to_entry p)) [
      | none ↦ none
      | some game ↦ some (put_game to_entry.id game left)
    ]

-- `movePlayerForBalancing`
unfoldable pub move_player_for_balancing : Tournament → ℕ → ℕ → Option Tournament
unfolding player_to_move sort_stacks move_player
move_player_for_balancing t from_table_id to_table_id = elim (get_table from_table_id t.tables) [
  | none ↦ some t
  | some from_entry ↦ elim (get_table to_table_id t.tables) [
    | none ↦ some t
    | some to_entry ↦
        elim (player_to_move t.active_bots to_entry (sort_stacks (playing from_entry))) [
          | none ↦ some t
          | some p ↦ elim (move_player from_entry to_entry p t.tables) [
            | none ↦ none
            | some tables ↦ some (record t { tables = tables })
          ]
        ]
  ]
]

-- Whether `left` comes before `right` in the sort of the tables with a seat.
unfoldable pub goes_before : List BotInfo → GamePlayer → TableEntry → TableEntry → Bool
unfolding conflicts
goes_before bots p left right =
    let l_count = length (playing left) in
    let r_count = length (playing right) in
    if l_count == r_count
    then not (conflicts bots p left) && conflicts bots p right
    else ltb l_count r_count

-- The first table of the sorted list, which is stable: the first that no table goes before.
unfoldable pub first_table : List BotInfo → GamePlayer → TableEntry → List TableEntry → TableEntry
unfolding goes_before
first_table bots p e [] = e
first_table bots p e (f ∷ tables) =
    first_table bots p (if goes_before bots p f e then f else e) tables

-- `targetTable`
unfoldable pub target_table : ℕ → List BotInfo → GamePlayer → List TableEntry → Option TableEntry
unfolding first_table
target_table seats bots p tables =
    elim (filter (λ (e : TableEntry). ltb (length (playing e)) seats) tables) [
      | [] ↦ none
      | e ∷ open_tables ↦ some (first_table bots p e open_tables)
    ]

-- The loop over the players of a table that is broken.
unfoldable pub redistribute :
    ℕ → List BotInfo → List GamePlayer → List TableEntry → Option (List TableEntry)
unfolding target_table
redistribute seats bots [] tables = some tables
redistribute seats bots (p ∷ players) tables = elim (target_table seats bots p tables) [
  | none ↦ none
  | some e ↦ elim (add_player e.game (newcomer e p)) [
    | none ↦ none
    | some game ↦ redistribute seats bots players (put_game e.id game tables)
  ]
]

-- `availableSeats`
abbrev pub available_seats : ℕ → List TableEntry → ℕ
available_seats seats = sum_by (λ (e : TableEntry). seats - length (playing e))

-- `breakTable`
unfoldable pub break_table : ℕ → Tournament → ℕ → Option Tournament
unfolding redistribute
break_table seats t table_id = elim (get_table table_id t.tables) [
  | none ↦ some t
  | some entry ↦
      let remaining = filter (λ (e : TableEntry). not (e.id == table_id)) t.tables in
      if ltb (available_seats seats remaining) (length (playing entry))
      then some t
      else elim (redistribute seats t.active_bots (playing entry) remaining) [
        | none ↦ none
        | some tables ↦ some (record t {
          tables = tables;
          table_hand_numbers = filter (λ (n : ℕ × ℕ). not (n.0 == table_id)) t.table_hand_numbers;
        })
      ]
]

-- `minTable` and `maxTable`: of equal tables the last.
unfoldable pub min_table : TableEntry → List TableEntry → TableEntry
min_table e [] = e
min_table e (f ∷ tables) =
    min_table (if ltb (length (playing e)) (length (playing f)) then e else f) tables

unfoldable pub max_table : TableEntry → List TableEntry → TableEntry
max_table e [] = e
max_table e (f ∷ tables) =
    max_table (if ltb (length (playing f)) (length (playing e)) then e else f) tables

-- `checkTableBalancing`
unfoldable pub check_table_balancing : ℕ → Tournament → Option Tournament
unfolding min_table max_table break_table move_player_for_balancing
check_table_balancing seats t = elim t.tables [
  | [] ↦ some t
  | e ∷ [] ↦ some t
  | e ∷ f ∷ tables ↦
      let least = min_table e (f ∷ tables) in
      let most = max_table e (f ∷ tables) in
      if ltb (length (playing least)) 2
      then break_table seats t least.id
      else if ltb 1 (length (playing most) - length (playing least))
      then move_player_for_balancing t most.id least.id
      else some t
]
