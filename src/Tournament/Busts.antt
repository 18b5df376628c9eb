-- ===== src/Tournament/Busts.antt =====
-- Who is out of a tournament and where he finishes: `checkForBustedPlayers`, `finishTournament` and
-- `checkHandForHandTransition` of `ActiveTournament`.
pub mod Sorted
pub mod Places
pub mod Active
pub mod Out
pub mod Counted
pub mod Paid
use servers_poker.Prelude.{
  ℕ, zero, suc, ◌+◌, ◌*◌, Bool, true, false, not, ◌&&◌, ◌||◌, Option, none, some, List, [], ◌∷◌,
  ◌++◌, map, filter, find, length, take, drop, includes, is_empty, ltb, leb, ◌==◌, if◌then◌else◌,
}
use servers_poker.Prelude.Int.{ℤ, pos, sub_ℕ, ◌+ℤ◌}
use servers_poker.Prelude.Dict.{Dict, lookup}
use servers_poker.Table.{GamePlayer}
use servers_poker.Table.Roster.{Roster, remove_player}
use servers_poker.Tournament.Config.{Payout, calculate_prizes, itm_count}
use servers_poker.Tournament.State.{BotInfo, BustRecord, TableEntry, Tournament}
use servers_poker.Tournament.Barrier.{Barrier, release}

-- An entry of `bustedThisRound`.
pub record Bust : Type 0 where
  pub bot_id : ℕ
  pub chips_at_start : ℕ
  pub table_id : ℕ

-- `this.activeBots.get(id)`
abbrev pub active_bot : ℕ → List BotInfo → Option BotInfo
active_bot id bots = find (λ (b : BotInfo). b.bot_id == id) bots

-- The loop over the players of a table.
unfoldable pub busts_at : Tournament → ℕ → List GamePlayer → List Bust
busts_at t table_id [] = []
busts_at t table_id (p ∷ players) =
    let rest = busts_at t table_id players in
    if p.chips == 0 && not (includes p.id t.busted_bots)
    then elim (active_bot p.id t.active_bots) [
      | none ↦ rest
      | some bot ↦
          record {
            bot_id = p.id;
            chips_at_start = lookup p.id t.chip_snapshot;
            table_id = table_id;
          }
          ∷ rest
    ]
    else rest

-- `bustedThisRound`, before the sort.
unfoldable pub busted_this_round : Tournament → List TableEntry → List Bust
unfolding busts_at
busted_this_round t [] = []
busted_this_round t (e ∷ tables) =
    busts_at t e.id e.game.table.players ++ busted_this_round t tables

-- The sort by chips, the most first; it is stable.
unfoldable pub insert_bust : Bust → List Bust → List Bust
insert_bust b [] = b ∷ []
insert_bust b (c ∷ busts) =
    if leb c.chips_at_start b.chips_at_start then b ∷ c ∷ busts else c ∷ insert_bust b busts

unfoldable pub sort_busts : List Bust → List Bust
unfolding insert_bust
sort_busts [] = []
sort_busts (b ∷ busts) = insert_bust b (sort_busts busts)

-- How many at the front have these chips: the inner `while` loop.
unfoldable pub group_size : ℕ → List Bust → ℕ
group_size chips [] = 0
group_size chips (b ∷ busts) = if b.chips_at_start == chips then suc (group_size chips busts) else 0

-- A bust with its place behind the best one, and whether it is shared.
pub record Placed : Type 0 where
  pub bust : Bust
  pub behind : ℕ
  pub is_tied : Bool

-- `sharedPosition` and `isTied`, for a group.
abbrev pub placed_at : ℕ → Bool → Bust → Placed
placed_at behind is_tied b = record { bust = b; behind = behind; is_tied = is_tied }

-- The outer `while` loop, on fuel: each turn takes a group off.
unfoldable pub place_groups : ℕ → ℕ → List Bust → List Placed
unfolding group_size
place_groups zero i busts = []
place_groups (suc fuel) i [] = []
place_groups (suc fuel) i (b ∷ busts) =
    let size = group_size b.chips_at_start (b ∷ busts) in
    map (placed_at i (ltb 1 size)) (take size (b ∷ busts))
    ++ place_groups fuel (i + size) (drop size (b ∷ busts))

-- `bust.tableEntry.game.removePlayer(bust.botId)`
abbrev pub remove_at : ℕ → ℕ → TableEntry → TableEntry
remove_at table_id bot_id e =
    if e.id == table_id then record e { game = remove_player e.game bot_id } else e

abbrev pub bust_record : Tournament → ℤ → Placed → BustRecord
bust_record t base p = record {
  bot_id = p.bust.bot_id;
  bust_level = t.current_level;
  bust_hand_number = t.round_counter;
  chips_at_hand_start = p.bust.chips_at_start;
  finish_position = base +ℤ pos p.behind;
  is_tied = p.is_tied;
}

-- The body of the loop over a group. `bustedBots` is a set.
unfoldable pub bust_player : ℤ → Tournament → Placed → Tournament
bust_player base t p = record t {
  busted_bots = p.bust.bot_id ∷ t.busted_bots;
  bust_order = t.bust_order ++ bust_record t base p ∷ [];
  active_bots = filter (λ (b : BotInfo). not (b.bot_id == p.bust.bot_id)) t.active_bots;
  tables = map (remove_at p.bust.table_id p.bust.bot_id) t.tables;
}

unfoldable pub bust_players : ℤ → Tournament → List Placed → Tournament
unfolding bust_player
bust_players base t [] = t
bust_players base t (p ∷ placed) = bust_players base (bust_player base t p) placed

-- `this.chipSnapshot.delete(bust.botId)`, for every bust.
abbrev pub forget : List Bust → Dict → Dict
forget busts d = filter (λ (e : ℕ × ℕ). not (includes e.0 (map (λ (b : Bust). b.bot_id) busts))) d

-- `baseBestPosition`
abbrev pub base_best_position : Tournament → ℕ → ℤ
base_best_position t busts = sub_ℕ (t.total_entrants + 1) (length t.bust_order + busts)

-- `checkForBustedPlayers`
unfoldable pub check_for_busted_players : Tournament → Tournament
unfolding busted_this_round sort_busts place_groups bust_players
check_for_busted_players t =
    let busts = sort_busts (busted_this_round t t.tables) in
    let placed = place_groups (length busts) 0 busts in
    let after = bust_players (base_best_position t (length busts)) t placed in
    if is_empty busts then t else record after { chip_snapshot = forget busts after.chip_snapshot }

-- A call of `setEntryPayout`.
pub record EntryPayout : Type 0 where
  pub bot_id : ℕ
  pub position : ℕ
  pub amount : ℕ

-- `payoutByPosition.get(position) ?? 0n`
abbrev pub amount_for : ℕ → List Payout → ℕ
amount_for position [] = 0
amount_for position (p ∷ payouts) =
    if p.position == position then p.amount else amount_for position payouts

-- `[...this.bustOrder].reverse()`
abbrev pub reversed : List BustRecord → List BustRecord
reversed [] = []
reversed (r ∷ records) = reversed records ++ r ∷ []

-- The loop over `finalOrder`, from an index on.
unfoldable pub pay_from : List Payout → ℕ → List BustRecord → List EntryPayout
pay_from payouts index [] = []
pay_from payouts index (r ∷ records) =
    record { bot_id = r.bot_id; position = index + 1; amount = amount_for (index + 1) payouts }
    ∷ pay_from payouts (index + 1) records

-- The winner's record.
abbrev pub winner_record : Tournament → BotInfo → BustRecord
winner_record t winner = record {
  bot_id = winner.bot_id;
  bust_level = t.current_level;
  bust_hand_number = t.round_counter;
  chips_at_hand_start = 0;
  finish_position = pos 1;
  is_tied = false;
}

-- `bustOrder` with the winner, who is the first active bot.
unfoldable pub with_winner : Tournament → List BustRecord
with_winner t = elim t.active_bots [
  | [] ↦ t.bust_order
  | winner ∷ others ↦ t.bust_order ++ winner_record t winner ∷ []
]

-- The payouts of `finishTournament`.
unfoldable pub finish_tournament : ℕ → Tournament → List EntryPayout
unfolding pay_from calculate_prizes with_winner
finish_tournament buy_in t =
    pay_from (calculate_prizes (t.total_entrants * buy_in) t.total_entrants) 0
      (reversed (with_winner t))

-- `onBubble`
abbrev pub on_bubble : Tournament → Bool
on_bubble t = length t.active_bots == itm_count t.total_entrants + 1 && ltb 1 (length t.tables)

-- `checkHandForHandTransition`, with the barrier; the waiters that it resolves.
unfoldable pub check_hand_for_hand_transition : Tournament → Barrier → Tournament × Barrier × List ℕ
unfolding release
check_hand_for_hand_transition t b =
    if on_bubble t && not t.hand_for_hand_mode
    then (record t { hand_for_hand_mode = true }, b, [])
    else if not (on_bubble t) && t.hand_for_hand_mode
    then (record t { hand_for_hand_mode = false }, (release b).0, (release b).1)
    else (t, b, [])
