-- ===== src/Table/Award.antt =====
-- `awardPot` and `showdown`: who gets the chips. `none` is an exception of the source.
use servers_poker.Prelude.{
  ℕ, ◌+◌, ◌-◌, ◌*◌, ◌/◌, Option, none, some, List, [], ◌∷◌, ◌++◌, map, length, filter, includes,
  is_empty, ◌==◌, if◌then◌else◌,
}
use servers_poker.Betting.{Player, Pot}
use servers_poker.Betting.Pots.{PotManager, calculate_pots, get_total_pot}
use servers_poker.HandEval.{Card}
use servers_poker.HandEval.Best.{Contender, Scored, determine_winners}
use servers_poker.Table.{Table, GamePlayer, betting_players}
use servers_poker.Table.Seats.{active_players}

-- `player.chips += amount`, for the player with an id; no such player, no change.
unfoldable pub pay_out : ℕ → ℕ → List GamePlayer → List GamePlayer
pay_out id amount [] = []
pay_out id amount (q ∷ players) =
    let paid : Player = record (q.player) { chips = q.chips + amount } in
    if id == q.id then record q { player = paid } ∷ players else q ∷ pay_out id amount players

-- `pots = [{ amount: 0n, eligiblePlayerIds: [] }]; playerTotalBets = {}`
abbrev pub cleared : PotManager → PotManager
cleared m = record m {
  pots = record { amount = 0; eligible_player_ids = [] } ∷ [];
  player_total_bets = [];
}

-- `awardPot`
unfoldable pub award_pot : Table → Option Table
unfolding pay_out
award_pot t = elim (active_players t) [
  | [] ↦ none
  | winner ∷ _ ↦ some (record t {
    players = pay_out winner.id (get_total_pot t.pot_manager) t.players;
    pot_manager = cleared t.pot_manager;
  })
]

-- A payment to a winner.
pub record Payment : Type 0 where
  pub player_id : ℕ
  pub amount : ℕ

-- `winners.forEach(...)`: an equal share for each, and the odd chips for the first.
unfoldable pub shares_of : ℕ → List Scored → List Payment
shares_of amount [] = []
shares_of amount (w ∷ winners) =
    let share = amount / length (w ∷ winners) in
    let remainder = amount - share * length (w ∷ winners) in
    record { player_id = w.player_id; amount = share + remainder }
    ∷ map (λ (v : Scored). record { player_id = v.player_id; amount = share }) winners

abbrev pub contender : GamePlayer → Contender
contender p = record { id = p.id; hole_cards = p.hole_cards }

-- The payments of a pot: to the best hands of the eligible players, or of all if there are none.
unfoldable pub pot_payments : List GamePlayer → List Card → Pot → Option (List Payment)
unfolding shares_of
pot_payments active community_cards pot =
    let eligible = filter (λ (p : GamePlayer). includes p.id pot.eligible_player_ids) active in
    let eligible_for_pot = if is_empty eligible then active else eligible in
    if is_empty eligible_for_pot
    then some []
    else (elim (determine_winners (map contender eligible_for_pot) community_cards) [
      | none ↦ none
      | some winners ↦ some (shares_of pot.amount winners)
    ])

-- The loop over the pots.
unfoldable pub all_payments : List GamePlayer → List Card → List Pot → Option (List Payment)
all_payments active community_cards [] = some []
all_payments active community_cards (pot ∷ pots) =
    let rest = all_payments active community_cards pots in
    elim (pot_payments active community_cards pot) [
      | none ↦ none
      | some here ↦ elim rest [ none ↦ none | some later ↦ some (here ++ later) ]
    ]

-- The loops over `potResults` that distribute the winnings.
unfoldable pub pay_all : List Payment → List GamePlayer → List GamePlayer
pay_all [] players = players
pay_all (p ∷ payments) players = pay_all payments (pay_out p.player_id p.amount players)

-- `showdown`, less the order of the reveals.
unfoldable pub showdown : Table → Option Table
unfolding pot_payments all_payments pay_all pay_out
showdown t =
    let active = active_players t in
    let m = calculate_pots t.pot_manager (betting_players t) in
    elim (all_payments active t.community_cards m.pots) [
      | none ↦ none
      | some payments ↦
          some (record t { players = pay_all payments t.players; pot_manager = cleared m })
    ]
