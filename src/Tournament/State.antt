-- ===== src/Tournament/State.antt =====
-- The state of `ActiveTournament` that its decisions read and write, in
-- src/modules/tournaments/tournament-director.service.ts. A map is a list of its entries in
-- insertion order; what goes to the database, to Redis, to the log and to clients is left out.
use servers_poker.Prelude.{ℕ, Bool, not, ◌&&◌, Option, List, map, filter, ltb}
use servers_poker.Prelude.Int.{ℤ}
use servers_poker.Prelude.Dict.{Dict}
use servers_poker.Table.{GamePlayer}
use servers_poker.Table.Roster.{Roster}

-- `interface BotInfo`, less the names and the strategy. A `userId` of "unknown" is `none`.
pub record BotInfo : Type 0 where
  pub bot_id : ℕ
  pub user_id : Option ℕ
  pub elo : ℕ

-- `interface BustRecord`
pub record BustRecord : Type 0 where
  pub bot_id : ℕ
  pub bust_level : ℕ
  pub bust_hand_number : ℕ
  pub chips_at_hand_start : ℕ
  pub finish_position : ℤ
  pub is_tied : Bool

-- `interface TableEntry`, with its key in `tables`.
pub record TableEntry : Type 0 where
  pub id : ℕ
  pub game : Roster

-- The keys of `tables`.
abbrev pub table_ids : List TableEntry → List ℕ
table_ids = map (λ (e : TableEntry). e.id)

-- `class ActiveTournament`
pub record Tournament : Type 0 where
  pub tables : List TableEntry
  pub table_hand_numbers : Dict
  pub current_level : ℕ
  pub hands_this_level : ℕ
  pub active_bots : List BotInfo
  pub bust_order : List BustRecord
  pub busted_bots : List ℕ
  pub total_entrants : ℕ
  pub chip_snapshot : Dict
  pub round_counter : ℕ
  pub hand_for_hand_mode : Bool

-- `!p.disconnected && p.chips > 0n`
abbrev pub is_playing : GamePlayer → Bool
is_playing p = not p.disconnected && ltb 0 p.chips

abbrev pub playing : TableEntry → List GamePlayer
playing e = filter is_playing e.game.table.players
