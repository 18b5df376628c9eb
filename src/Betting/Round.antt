-- ===== src/Betting/Round.antt =====
-- `BettingRound` of domain/betting.ts: one street of betting. The source passes the player as an
-- object that also stands in `players`; here an operation returns the player as it leaves him, and
-- writes him into `players` under his id. An action's amount is a whole number, which `Math.round`
-- leaves alone. Sets are lists that are only asked for members.
pub mod Queries
pub mod Actions
pub mod Limits
pub mod Raises
pub mod Turns
use mathlib.Core.Option
use servers_poker.Prelude.{
  ℕ, ◌+◌, ◌-◌, Bool, true, false, not, ◌&&◌, ◌||◌, Option, none, some, List, [], ◌∷◌, map, suc,
  ◌++◌, filter, length, includes, find, every, ltb, leb, ◌==◌, if◌then◌else◌,
}
use servers_poker.Prelude.Int.{ℤ, pos, negsuc, sub_ℕ, ◌+ℤ◌, ◌-ℤ◌, ltb_ℤ, leb_ℤ}
use servers_poker.Prelude.Dict.{Dict, lookup, insert}
use servers_poker.Betting.{Player, big_min, big_max}

-- The `type` of an action. `all_in` is one that strategies use; `other` is any other string.
pub data ActionType : Type 0 where
  fold check call raise bet all_in other : ActionType

-- `interface Action`
pub record Action : Type 0 where
  pub type : ActionType
  pub amount : Option ℤ

pub data ActionError : Type 0 where
  must_call : ℤ → ActionError
  not_positive : ActionError
  minimum_raise : ℕ → ActionError
  unknown_action : ActionType → ActionError

-- `{ valid, error?, amountAdded }`; an action is valid exactly if it has no error.
pub record ActionResult : Type 0 where
  pub valid : Bool
  pub error : Option ActionError
  pub amount_added : ℤ

-- `class BettingRound`; `none` is the index -1.
pub record BettingRound : Type 0 where
  pub players : List Player
  pub small_blind : ℕ
  pub big_blind : ℕ
  pub is_pre_flop : Bool
  pub dealer_index : ℕ
  pub current_max_bet : ℕ
  pub last_raise_delta : ℕ
  pub last_raiser_index : Option ℕ
  pub acted_players : List ℕ
  pub bets_this_round : Dict
  pub last_raise_was_full : Bool
  pub betting_reopened_for : List ℕ
  pub raises_this_street : ℕ

-- The constructor.
unfoldable pub new_round : List Player → ℕ → ℕ → Bool → ℕ → BettingRound
new_round players small_blind big_blind is_pre_flop dealer_index = record {
  players = players;
  small_blind = small_blind;
  big_blind = big_blind;
  is_pre_flop = is_pre_flop;
  dealer_index = dealer_index;
  current_max_bet = 0;
  last_raise_delta = big_blind;
  last_raiser_index = none;
  acted_players = [];
  bets_this_round = [];
  last_raise_was_full = true;
  betting_reopened_for = [];
  raises_this_street = 0;
}

-- `getPlayerBet`
unfoldable pub get_player_bet : BettingRound → ℕ → ℕ
get_player_bet r player_id = lookup player_id r.bets_this_round

-- `currentMaxBet - alreadyBet`
abbrev pub to_call_of : BettingRound → Player → ℤ
to_call_of r p = sub_ℕ r.current_max_bet (lookup p.id r.bets_this_round)

-- `getCallAmount`
unfoldable pub get_call_amount : BettingRound → Player → ℤ
get_call_amount r p = big_min (to_call_of r p) (pos p.chips)

-- `canCheck`
unfoldable pub can_check : BettingRound → Player → Bool
can_check r p = leb r.current_max_bet (lookup p.id r.bets_this_round)

-- `player.chips -= amount`, for an amount of at most `player.chips`.
abbrev pub take_chips : ℕ → ℤ → ℕ
take_chips chips (pos n) = chips - n
take_chips chips (negsuc n) = chips + suc n

-- `alreadyBet + amount`, for an amount that takes the bet no lower than 0.
abbrev pub grow_bet : ℕ → ℤ → ℕ
grow_bet already (pos n) = already + n
grow_bet already (negsuc n) = already - suc n

-- `players` after `p` has changed.
unfoldable pub write_player : Player → List Player → List Player
write_player p [] = []
write_player p (q ∷ players) = if p.id == q.id then p ∷ players else q ∷ write_player p players

-- `actedPlayers.add(id)`
abbrev pub add_acted : ℕ → List ℕ → List ℕ
add_acted id acted = if includes id acted then acted else id ∷ acted

-- `players.findIndex((p) => p.id === id)`
unfoldable pub find_index : ℕ → List Player → Option ℕ
find_index id [] = none
find_index id (p ∷ players) =
    let rest = Option.map suc (find_index id players) in if p.id == id then some 0 else rest

abbrev pub Outcome : Type 0
Outcome = BettingRound × Player × ActionResult

abbrev pub accept : BettingRound → Player → ℤ → Outcome
accept r p amount_added = (
  record r { players = write_player p r.players },
  p,
  record { valid = true; error = none; amount_added = amount_added },
)

abbrev pub refuse : BettingRound → Player → ActionError → Outcome
refuse r p e = (r, p, record { valid = false; error = some e; amount_added = pos 0 })

-- `if (type === "fold")`
unfoldable pub apply_fold : BettingRound → Player → Outcome
apply_fold r p =
    accept (record r { acted_players = add_acted p.id r.acted_players })
      (record p { folded = true }) (pos 0)

-- `if (type === "check")`
unfoldable pub apply_check : BettingRound → Player → Outcome
apply_check r p =
    if ltb_ℤ (pos 0) (to_call_of r p)
    then refuse r p (must_call (to_call_of r p))
    else accept (record r { acted_players = add_acted p.id r.acted_players }) p (pos 0)

-- The player with `amount` moved from his chips to his bet.
abbrev pub pay : Player → ℤ → Player
pay p amount =
    let chips = take_chips p.chips amount in
    record p { chips = chips; all_in = if chips == 0 then true else p.all_in }

-- `if (type === "call")`
unfoldable pub apply_call : BettingRound → Player → Outcome
apply_call r p =
    let already_bet = lookup p.id r.bets_this_round in
    let call_amount = big_min (to_call_of r p) (pos p.chips) in
    accept
      (record r {
        bets_this_round = insert p.id (grow_bet already_bet call_amount) r.bets_this_round;
        acted_players = add_acted p.id r.acted_players;
      })
      (pay p call_amount) call_amount

-- The block `if (newBet > this.currentMaxBet)`.
unfoldable pub record_raise : BettingRound → Player → ℕ → BettingRound
record_raise r p new_bet =
    let raise_amount = new_bet - r.current_max_bet in
    let is_full_raise = leb r.last_raise_delta raise_amount in
    if ltb r.current_max_bet new_bet
    then record r {
      raises_this_street = r.raises_this_street + 1;
      last_raise_was_full = is_full_raise;
      last_raise_delta =
          if is_full_raise then big_max r.big_blind raise_amount else r.last_raise_delta;
      betting_reopened_for =
          if is_full_raise
          then map (λ q. q.id) (filter (λ q. not (q.id == p.id)) r.players)
          else r.betting_reopened_for;
      current_max_bet = new_bet;
      last_raiser_index = find_index p.id r.players;
      acted_players = p.id ∷ [];
    }
    else r

-- A raise of which `additional` has passed the tests.
unfoldable pub commit_raise : BettingRound → Player → ℤ → Outcome
commit_raise r p additional =
    let already_bet = lookup p.id r.bets_this_round in
    let actual_additional = big_min additional (pos p.chips) in
    let new_bet = grow_bet already_bet actual_additional in
    accept
      (record_raise (record r { bets_this_round = insert p.id new_bet r.bets_this_round }) p
        new_bet)
      (pay p actual_additional) actual_additional

-- `if (type === "raise" || type === "bet")`
unfoldable pub apply_raise : BettingRound → Player → Option ℤ → Outcome
unfolding commit_raise record_raise
apply_raise r p amount =
    let already_bet = pos (lookup p.id r.bets_this_round) in
    let raise_by : ℤ = elim amount [ none ↦ pos 0 | some n ↦ n ] in
    let new_total_amount = already_bet +ℤ to_call_of r p +ℤ raise_by in
    let additional = new_total_amount -ℤ already_bet in
    if leb_ℤ raise_by (pos 0)
    then refuse r p not_positive
    else if ltb_ℤ new_total_amount (pos (r.current_max_bet + r.last_raise_delta))
        && ltb_ℤ additional (pos p.chips)
    then refuse r p (minimum_raise (r.current_max_bet + r.last_raise_delta))
    else commit_raise r p additional

-- `applyAction`
unfoldable pub apply_action : BettingRound → Player → Action → Outcome
unfolding apply_fold apply_check apply_call apply_raise
apply_action r p a = elim a.type [
  | fold ↦ apply_fold r p
  | check ↦ apply_check r p
  | call ↦ apply_call r p
  | raise ↦ apply_raise r p a.amount
  | bet ↦ apply_raise r p a.amount
  | all_in ↦ refuse r p (unknown_action all_in)
  | other ↦ refuse r p (unknown_action other)
]
