-- ===== src/Table/Hand.antt =====
-- `playHand`: the deal, the antes and blinds, the four streets and the award. `none` is an
-- exception of the source, or a stack that the blinds would take below zero, which the source
-- stores as a negative number.
use servers_poker.Prelude.{
  ℕ, ◌+◌, ◌-◌, Bool, true, false, ◌||◌, Option, none, some, List, [], ◌∷◌, ◌++◌, map, length, take,
  drop, get_elem?, leb, ltb, ◌==◌, if◌then◌else◌,
}
use servers_poker.Prelude.Dict.{Dict, insert}
use servers_poker.Betting.{Player}
use servers_poker.Betting.Pots.{PotManager, new_pot_manager, add_bet}
use servers_poker.HandEval.{Card}
use servers_poker.Table.{Table, GamePlayer, eliminated, put_player}
use servers_poker.Table.Seats.{active_players, next_active_index}
use servers_poker.Table.Street.{Engine, betting_round_loop}
use servers_poker.Table.Award.{award_pot, showdown}

-- The loop that resets the players.
unfoldable pub reset_player : GamePlayer → GamePlayer
reset_player p =
    let is_out : Bool = elim p.seat_status [ eliminated ↦ true | _ ↦ false ] in
    let fresh : Player = record (p.player) { folded = p.chips == 0 || is_out; all_in = false } in
    record p { player = fresh; hole_cards = [] }

-- The table at the start of a hand.
unfoldable pub reset_hand : Table → Table
unfolding reset_player
reset_hand t = record t {
  players = map reset_player t.players;
  hand_number = t.hand_number + 1;
  community_cards = [];
  pot_manager = new_pot_manager;
  last_aggressor_id = none;
}

-- `p.holeCards = [deck[di++], deck[di++]]` for the players who are in; the rest of the deck.
unfoldable pub deal : List Card → List GamePlayer → List GamePlayer × List Card
deal deck [] = ([], deck)
deal deck (p ∷ players) =
    let (dealt, rest) = deal (if p.folded then deck else drop 2 deck) players in
    ((if p.folded then p else record p { hole_cards = take 2 deck }) ∷ dealt, rest)

-- A player who has paid `amount` of his chips.
abbrev pub charge : Player → ℕ → Player
charge p amount =
    let chips = p.chips - amount in
    record p { chips = chips; all_in = if chips == 0 then true else p.all_in }

abbrev pub at_most : ℕ → ℕ → ℕ
at_most chips due = if ltb chips due then chips else due

-- The loop that posts the antes.
unfoldable pub post_ante_loop : ℕ → List GamePlayer → PotManager → List GamePlayer × PotManager
post_ante_loop ante [] m = ([], m)
post_ante_loop ante (p ∷ players) m =
    let amount = at_most p.chips ante in
    let (rest, m') = post_ante_loop ante players (if p.folded then m else add_bet m p.id amount) in
    ((if p.folded then p else record p { player = charge p.player amount }) ∷ rest, m')

-- `if (this.ante > 0n)`
unfoldable pub post_antes : Table → Table
unfolding post_ante_loop
post_antes t =
    let (players, m) = post_ante_loop t.ante t.players t.pot_manager in
    if ltb 0 t.ante then record t { players = players; pot_manager = m } else t

-- The table after the blinds, the seat that is first to act, and `betsThisRound`.
pub record Blinds : Type 0 where
  pub table : Table
  pub start_index : ℕ
  pub bets : Dict

-- The blinds of the players at two seats. Both amounts are fixed before either is paid; one player
-- may have to pay both.
unfoldable pub pay_blinds : Table → GamePlayer → GamePlayer → ℕ → Option Blinds
pay_blinds t sb bb bb_index =
    let sb_amt = at_most sb.chips t.small_blind in
    let bb_amt = at_most bb.chips t.big_blind in
    let one_seat = sb.id == bb.id in
    let sb' = charge sb.player sb_amt in
    let bb' = charge (if one_seat then sb' else bb.player) bb_amt in
    let t' : Table = record t {
      players = put_player bb' (put_player sb' t.players);
      pot_manager = add_bet (add_bet t.pot_manager sb.id sb_amt) bb.id bb_amt;
    } in
    let overdrawn : Bool = if one_seat then ltb sb.chips (sb_amt + bb_amt) else false in
    if overdrawn
    then none
    else some (record {
      table = t';
      start_index = next_active_index t' bb_index;
      bets = insert bb.id bb_amt (insert sb.id sb_amt []);
    })

-- The posting of the blinds: heads-up the dealer posts the small one.
unfoldable pub post_blinds : Table → Option Blinds
unfolding pay_blinds
post_blinds t =
    let sb_index : ℕ =
      if length (active_players t) == 2
      then t.dealer_index
      else next_active_index t t.dealer_index in
    let bb_index = next_active_index t sb_index in
    elim (get_elem? t.players sb_index) [
      | none ↦ none
      | some sb ↦ elim (get_elem? t.players bb_index) [
        | none ↦ none
        | some bb ↦ pay_blinds t sb bb bb_index
      ]
    ]

-- `if (this.activePlayers().length <= 1) return await this.awardPot()`, or the rest of the hand.
abbrev pub award_or : (Table → Option Table) → Table → Option Table
award_or rest t = if leb (length (active_players t)) 1 then award_pot t else rest t

-- A street after the flop, with its cards on the board.
unfoldable pub later_street : Engine → List Card → Table → Table
later_street engine cards t =
    let t' : Table = record t { community_cards = t.community_cards ++ cards } in
    betting_round_loop engine t' false (next_active_index t' t'.dealer_index) 0 []

-- From the river to the end.
unfoldable pub play_river : Engine → List Card → Table → Option Table
unfolding later_street
play_river engine deck t = award_or showdown (later_street engine (take 1 (drop 7 deck)) t)

unfoldable pub play_turn : Engine → List Card → Table → Option Table
unfolding later_street play_river
play_turn engine deck t =
    award_or (play_river engine deck) (later_street engine (take 1 (drop 5 deck)) t)

unfoldable pub play_flop : Engine → List Card → Table → Option Table
unfolding later_street play_turn
play_flop engine deck t =
    award_or (play_turn engine deck) (later_street engine (take 3 (drop 1 deck)) t)

-- `playHand`, with the shuffled deck. The message at the start, which reads the name of the dealer,
-- is left out with the other events.
unfoldable pub play_hand : Engine → List Card → Table → Option Table
unfolding reset_hand deal post_antes post_blinds play_flop
play_hand engine deck t =
    let fresh = reset_hand t in
    let (dealt, rest) = deal deck fresh.players in
    elim (post_blinds (post_antes (record fresh { players = dealt }))) [
      | none ↦ none
      | some b ↦
          award_or (play_flop engine rest)
            (betting_round_loop engine b.table true b.start_index b.table.big_blind b.bets)
    ]
