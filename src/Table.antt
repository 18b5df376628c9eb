-- ===== src/Table.antt =====
-- src/services/game/live-game-manager.service.ts: the hand that `GameInstance` plays. A table is
-- the part of a `GameInstance` that a hand reads and writes. Events, logs, timers and delays are
-- left out, and nothing else touches the table while a hand waits between two actions.
pub mod Seats
pub mod Street
pub mod Award
pub mod Hand
pub mod Payout
pub mod Showdown
pub mod Moves
pub mod Conservation
pub mod Rounds
pub mod Forced
pub mod Blinds
pub mod Alive
pub mod Survivor
pub mod Whole
pub mod Opening
pub mod Deals
pub mod Hands
pub mod Roster
mod Tests
use servers_poker.Prelude.{ℕ, Bool, Option, List, map, if◌then◌else◌, ◌==◌, [], ◌∷◌}
use servers_poker.Betting.{Player}
use servers_poker.Betting.Pots.{PotManager}
use servers_poker.HandEval.{Card}

-- `SeatStatus`
pub data SeatStatus : Type 0 where
  active sitting_out eliminated : SeatStatus

-- `interface GamePlayer`, less his name and strategy. The part that the betting code reads is a
-- record of its own.
pub record GamePlayer : Type 0 where
  pub player : Player
  pub open player use *
  pub hole_cards : List Card
  pub strikes : ℕ
  pub seat_status : SeatStatus
  pub disconnected : Bool

-- The fields of `GameInstance` that a hand uses. `none` is a `lastAggressorId` of null.
pub record Table : Type 0 where
  pub players : List GamePlayer
  pub small_blind : ℕ
  pub big_blind : ℕ
  pub ante : ℕ
  pub dealer_index : ℕ
  pub hand_number : ℕ
  pub action_seq : ℕ
  pub community_cards : List Card
  pub pot_manager : PotManager
  pub last_aggressor_id : Option ℕ
  pub moving_players : List ℕ

-- The players as the betting code sees them.
abbrev pub betting_players : Table → List Player
betting_players t = map (λ p. p.player) t.players

-- A player object that stands in the list, after the betting code has changed it.
unfoldable pub put_player : Player → List GamePlayer → List GamePlayer
put_player p [] = []
put_player p (q ∷ players) =
    if p.id == q.id then record q { player = p } ∷ players else q ∷ put_player p players

-- A seat, after the strikes or the status of its player have changed.
unfoldable pub update_seat : GamePlayer → List GamePlayer → List GamePlayer
update_seat p [] = []
update_seat p (q ∷ players) = if p.id == q.id then p ∷ players else q ∷ update_seat p players
