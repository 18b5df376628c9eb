-- ===== src/Table/Street.antt =====
-- `bettingRoundLoop`: one street at the table. The strategy engine is a parameter: it returns an
-- action or throws (`none`).
use servers_poker.Prelude.{
  ℕ, zero, suc, ◌+◌, ◌*◌, Bool, true, false, ◌&&◌, ◌||◌, Option, none, some, length, get_elem?,
  includes, leb, ltb, if◌then◌else◌,
}
use servers_poker.Prelude.Int.{ℤ, pos, negsuc, ◌+ℤ◌, ◌-ℤ◌, ltb_ℤ, leb_ℤ}
use servers_poker.Prelude.Dict.{Dict}
use servers_poker.Betting.{Player}
use servers_poker.Betting.Pots.{PotManager, add_bet, calculate_pots}
use servers_poker.Betting.Round.{
  BettingRound, Action, ActionType, fold, check, raise, bet, all_in, new_round, get_call_amount,
  can_check, apply_action,
}
use servers_poker.Betting.Round.Queries.{is_betting_complete}
use servers_poker.Table.{
  Table, GamePlayer, active, sitting_out, betting_players, put_player, update_seat,
}
use servers_poker.Table.Seats.{next_active_index}

-- `MAX_STRIKES`
abbrev pub max_strikes : ℕ
max_strikes = 3

abbrev at_least_one : ℤ → ℤ
at_least_one n = if ltb_ℤ n (pos 1) then pos 1 else n

abbrev pub is_raise : ActionType → Bool
is_raise raise = true
is_raise bet = true
is_raise _ = false

-- `normalizeRaiseAction`
unfoldable pub normalize_raise_action : Action → ℕ → ℕ → ℤ → Action
normalize_raise_action a last_raise_delta player_chips to_call =
    let max_raise = pos player_chips -ℤ to_call in
    let all_the_chips : Action = record { type = raise; amount = some (at_least_one max_raise) } in
    let smallest : Action = record { type = raise; amount = some (pos last_raise_delta) } in
    let small : Bool = elim a.amount [ none ↦ false | some n ↦ ltb_ℤ n (pos last_raise_delta) ] in
    let is_all_in : Bool = elim a.type [ all_in ↦ true | _ ↦ false ] in
    if is_all_in
    then all_the_chips
    else if is_raise a.type && small
    then if leb_ℤ (to_call +ℤ pos last_raise_delta) (pos player_chips)
      then smallest
      else all_the_chips
    else a

abbrev pub Engine : Type 0
Engine = Table → BettingRound → GamePlayer → Option Action

-- The action without an amount.
abbrev pub plain : ActionType → Action
plain t = record { type = t; amount = none }

-- `getPlayerActionSafe`: the player with his strikes, and the action.
unfoldable pub get_player_action_safe :
    Engine → Table → BettingRound → GamePlayer → GamePlayer × Action
get_player_action_safe engine t r p = elim (engine t r p) [
  | some a ↦ (
    record p { strikes = 0 },
    elim a.type [
      | all_in ↦ record { type = raise; amount = some (pos p.chips -ℤ get_call_amount r p.player) }
      | _ ↦ a
    ],
  )
  | none ↦
      let strikes = p.strikes + 1 in
      let out : Bool =
        leb max_strikes strikes && elim p.seat_status [ active ↦ true | _ ↦ false ] in
      (
        record p { strikes = strikes; seat_status = if out then sitting_out else p.seat_status },
        if can_check r p.player then plain check else plain fold,
      )
]

-- The state of the loop: the table, the round and the seat whose turn it is.
pub record Street : Type 0 where
  pub table : Table
  pub round : BettingRound
  pub current_index : ℕ

-- The round with the players of the table, who are the same objects.
abbrev pub shared : Table → BettingRound → BettingRound
shared t r = record r { players = betting_players t }

-- The table and the round after the player at the turn has done something; `emitPlayerAction`
-- counts the action.
abbrev pub acted : Table → BettingRound → Player → ℕ → Street
acted t r p index =
    let t' : Table = record t { players = put_player p t.players; action_seq = t.action_seq + 1 } in
    record { table = t'; round = shared t' r; current_index = next_active_index t' index }

-- A turn that the loop takes for the player: the auto-fold of one who moves to another table, the
-- check or fold of one who sits out.
unfoldable pub auto_turn : Table → BettingRound → GamePlayer → ActionType → ℕ → Street
auto_turn t r p type index =
    let (r', p', result) = apply_action r p.player (plain type) in acted t r' p' index

-- `if (result.amountAdded > 0) this.potManager.addBet(...)`
abbrev pub add_amount : PotManager → ℕ → ℤ → PotManager
add_amount m id (pos n) = if ltb 0 n then add_bet m id n else m
add_amount m id (negsuc n) = m

-- The turn of a player with a strategy: an action that is refused is a fold.
unfoldable pub take_turn : Table → BettingRound → GamePlayer → Action → ℕ → Street
take_turn t r p action index =
    let (r', p', result) = apply_action r p.player action in
    let (r_fold, p_fold, _) = apply_action r' p' (plain fold) in
    let t' : Table = record t {
      pot_manager = add_amount t.pot_manager p.id result.amount_added;
      last_aggressor_id = if is_raise action.type then some p.id else t.last_aggressor_id;
    } in
    if result.valid then acted t' r' p' index else acted t r_fold p_fold index

-- A bot's turn: its decision, normalised and applied.
unfoldable pub bot_turn : Engine → Table → BettingRound → GamePlayer → ℕ → Street
unfolding take_turn get_player_action_safe normalize_raise_action
bot_turn engine t r p index =
    let (p', raw) = get_player_action_safe engine t r p in
    let action =
      normalize_raise_action raw r.last_raise_delta p.chips (get_call_amount r p.player) in
    take_turn (record t { players = update_seat p' t.players }) r p' action index

-- The body of the loop, for the player at the turn.
unfoldable pub seat_turn : Engine → Street → GamePlayer → Street
seat_turn engine s p =
    let t = s.table in
    let sits_out : Bool = elim p.seat_status [ sitting_out ↦ true | _ ↦ false ] in
    if p.folded || p.all_in
    then record s { current_index = next_active_index t s.current_index }
    else if includes p.id t.moving_players
    then auto_turn t s.round p fold s.current_index
    else if sits_out
    then auto_turn t s.round p (if can_check s.round p.player then check else fold) s.current_index
    else bot_turn engine t s.round p s.current_index

-- The body of the loop. The index is that of a seat.
unfoldable pub street_step : Engine → Street → Street
street_step engine s = elim (get_elem? s.table.players s.current_index) [
  | none ↦ s
  | some p ↦ seat_turn engine s p
]

-- `while (!isBettingComplete() && maxIterations-- > 0)`
unfoldable pub street_loop : Engine → ℕ → Street → Street
street_loop engine zero s = s
street_loop engine (suc max_iterations) s =
    let rest = street_loop engine max_iterations (street_step engine s) in
    if is_betting_complete s.round then s else rest

-- The round as the loop finds it: new, or with the blinds.
unfoldable pub open_round : Table → Bool → ℕ → Dict → BettingRound
open_round t is_pre_flop initial_bet bets_this_round =
    let r = new_round (betting_players t) t.small_blind t.big_blind is_pre_flop t.dealer_index in
    record r { current_max_bet = initial_bet; bets_this_round = bets_this_round }

-- `bettingRoundLoop`
unfoldable pub betting_round_loop : Engine → Table → Bool → ℕ → ℕ → Dict → Table
betting_round_loop engine t is_pre_flop start_index initial_bet bets_this_round =
    let start : Street = record {
      table = t;
      round = open_round t is_pre_flop initial_bet bets_this_round;
      current_index = start_index;
    } in
    let end = (street_loop engine (length t.players * 4) start).table in
    record end { pot_manager = calculate_pots end.pot_manager (betting_players end) }
