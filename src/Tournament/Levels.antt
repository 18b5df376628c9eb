-- ===== src/Tournament/Levels.antt =====
-- The blind levels of a tournament: `startBlindLevel` and `checkBlindLevelAdvance` of
-- `ActiveTournament`. The level and its hands are also written to the database, which is left out.
pub mod Advance
use servers_poker.Prelude.{
  ℕ, zero, suc, ◌+◌, ◌-◌, true, false, Option, none, some, List, [], ◌∷◌, map, ltb, leb,
  if◌then◌else◌,
}
use servers_poker.Prelude.Dict.{Dict, lookup, insert}
use servers_poker.Table.{Table}
use servers_poker.Table.Roster.{Roster}
use servers_poker.Tournament.Config.{BlindLevel, get_blind_level}
use servers_poker.Tournament.State.{Tournament, TableEntry}

-- What a table adds to `completedHandsDelta`.
abbrev pub hands_since : ℕ → ℕ → ℕ
hands_since current previous =
    if ltb previous current then current - previous else if ltb current previous then current else 0

-- The loop over the tables: the completed hands and `tableHandNumbers`.
unfoldable pub count_hands : List TableEntry → Dict → ℕ × Dict
count_hands [] numbers = (0, numbers)
count_hands (e ∷ tables) numbers =
    let current = e.game.table.hand_number in
    let previous = lookup e.id numbers in
    let (delta, numbers') = count_hands tables (insert e.id current numbers) in
    (hands_since current previous + delta, numbers')

-- `startBlindLevel`
unfoldable pub start_blind_level : Tournament → ℕ → Tournament
start_blind_level t level = record t { current_level = level; hands_this_level = 0 }

-- The blinds and the ante of a level, at a table.
abbrev pub with_blinds : BlindLevel → TableEntry → TableEntry
with_blinds b e = record e {
  game = record (e.game) {
    table = record (e.game.table) {
      small_blind = b.small_blind;
      big_blind = b.big_blind;
      ante = b.ante;
    };
  };
}

-- One level up: the hands above the limit count for the new level. `none` is a level without
-- blinds, where the source throws.
unfoldable pub level_up : ℕ → Tournament → Option Tournament
unfolding start_blind_level get_blind_level
level_up hands_per_level t =
    let overflow = t.hands_this_level - hands_per_level in
    let started = start_blind_level t (t.current_level + 1) in
    elim (get_blind_level started.current_level) [
      | none ↦ none
      | some b ↦ some (record started {
        hands_this_level = overflow;
        tables = map (with_blinds b) started.tables;
      })
    ]

-- The `while` loop, on fuel; `none` where that runs out.
unfoldable pub advance_levels : ℕ → ℕ → Tournament → Option Tournament
unfolding level_up
advance_levels zero hands_per_level t = none
advance_levels (suc fuel) hands_per_level t = elim (leb hands_per_level t.hands_this_level) [
  | true ↦ elim (level_up hands_per_level t) [
    | none ↦ none
    | some t' ↦ advance_levels fuel hands_per_level t'
  ]
  | false ↦ some t
]

-- The tournament with the completed hands counted.
unfoldable pub add_hands : Tournament → Tournament
unfolding count_hands
add_hands t =
    let (delta, numbers) = count_hands t.tables t.table_hand_numbers in
    record t { table_hand_numbers = numbers; hands_this_level = t.hands_this_level + delta }

-- `checkBlindLevelAdvance`. Each turn of the loop takes `hands_per_level` hands off.
unfoldable pub check_blind_level_advance : ℕ → Tournament → Option Tournament
unfolding add_hands advance_levels
check_blind_level_advance hands_per_level t =
    let counted = add_hands t in
    advance_levels (suc counted.hands_this_level) hands_per_level counted
