-- ===== src/Betting/Pots.antt =====
-- `PotManager` of domain/betting.ts: what each player has put in, and the split of it into a main
-- pot and side pots.
pub mod Levels
pub mod Conservation
pub mod Shares
pub mod Stakes
pub mod Folded
pub mod Seated
use servers_poker.Prelude.{
  ℕ, ◌+◌, ◌-◌, ◌*◌, Bool, true, false, not, ◌&&◌, Option, none, some, List, [], ◌∷◌, ◌++◌, map,
  length, filter, is_empty, includes, ltb, leb, if◌then◌else◌,
}
use servers_poker.Prelude.Dict.{Dict, lookup, insert, total}
use servers_poker.Betting.{Player, Pot}

-- `class PotManager`
pub record PotManager : Type 0 where
  pub pots : List Pot
  pub player_bets_this_round : Dict
  pub player_total_bets : Dict

-- The constructor.
abbrev pub new_pot_manager : PotManager
new_pot_manager = record {
  pots = record { amount = 0; eligible_player_ids = [] } ∷ [];
  player_bets_this_round = [];
  player_total_bets = [];
}

-- `resetRound`
unfoldable pub reset_round : PotManager → PotManager
reset_round m = record m { player_bets_this_round = [] }

-- `addBet`
unfoldable pub add_bet : PotManager → ℕ → ℕ → PotManager
add_bet m player_id amount = record m {
  player_bets_this_round =
      insert player_id (lookup player_id m.player_bets_this_round + amount)
        m.player_bets_this_round;
  player_total_bets =
      insert player_id (lookup player_id m.player_total_bets + amount) m.player_total_bets;
}

-- `getPlayerBetThisRound`
unfoldable pub get_player_bet_this_round : PotManager → ℕ → ℕ
get_player_bet_this_round m player_id = lookup player_id m.player_bets_this_round

-- `getPlayerTotalBet`
unfoldable pub get_player_total_bet : PotManager → ℕ → ℕ
get_player_total_bet m player_id = lookup player_id m.player_total_bets

-- `getTotalPot`
unfoldable pub get_total_pot : PotManager → ℕ
get_total_pot m = total m.player_total_bets

-- An entry of `activeBets`.
pub record ActiveBet : Type 0 where
  pub id : ℕ
  pub total : ℕ
  pub folded : Bool

-- One step of the stable `sort` by total.
unfoldable pub insert_bet : ActiveBet → List ActiveBet → List ActiveBet
insert_bet b [] = b ∷ []
insert_bet b (c ∷ bets) = if leb b.total c.total then b ∷ c ∷ bets else c ∷ insert_bet b bets

-- `.sort((a, b) => a.total < b.total ? -1 : a.total > b.total ? 1 : 0)`
unfoldable pub sort_bets : List ActiveBet → List ActiveBet
unfolding insert_bet
sort_bets [] = []
sort_bets (b ∷ bets) = insert_bet b (sort_bets bets)

-- `players.filter(...).map(...)`
unfoldable pub entries : Dict → List Player → List ActiveBet
entries totals players =
    map (λ (p : Player). record { id = p.id; total = lookup p.id totals; folded = p.folded })
      (filter (λ p. ltb 0 (lookup p.id totals)) players)

-- `activeBets`
unfoldable pub active_bets : Dict → List Player → List ActiveBet
unfolding sort_bets entries
active_bets totals players = sort_bets (entries totals players)

-- `[...new Set(totals)]`: the first occurrence of each, in order.
unfoldable pub unique_from : List ℕ → List ℕ → List ℕ
unique_from seen [] = []
unique_from seen (x ∷ xs) =
    let again = unique_from seen xs in
    let new = unique_from (x ∷ seen) xs in if includes x seen then again else x ∷ new

-- `allBetLevels`
unfoldable pub all_bet_levels : List ActiveBet → List ℕ
unfolding unique_from
all_bet_levels bets = unique_from [] (map (λ b. b.total) bets)

-- `eligible`
unfoldable pub eligible_at : ℕ → List ActiveBet → List ℕ
eligible_at level bets = map (λ b. b.id) (filter (λ b. leb level b.total && not b.folded) bets)

-- `potAmount`: the contribution times the number of contributors.
unfoldable pub pot_amount_at : ℕ → ℕ → List ActiveBet → ℕ
pot_amount_at previous level bets =
    (level - previous) * length (filter (λ b. leb level b.total) bets)

-- The loop over `i` from `pots.length - 1` down: the last pot that somebody can win takes the dead
-- money; `none` if there is no such pot (`merged` stays false).
unfoldable pub merge_dead : ℕ → List Pot → Option (List Pot)
merge_dead dead [] = none
merge_dead dead (p ∷ pots) = elim (merge_dead dead pots) [
  | some merged ↦ some (p ∷ merged)
  | none ↦
      if is_empty p.eligible_player_ids
      then none
      else some (record p { amount = p.amount + dead } ∷ pots)
]

-- What happens to a level that nobody can win.
unfoldable pub place_dead : ℕ → List Pot → List Pot
unfolding merge_dead
place_dead dead pots = elim (merge_dead dead pots) [
  | some merged ↦ merged
  | none ↦ pots ++ record { amount = dead; eligible_player_ids = [] } ∷ []
]

-- The body of the loop over the levels.
unfoldable pub add_level : List ActiveBet → ℕ → ℕ → List Pot → List Pot
unfolding eligible_at pot_amount_at place_dead
add_level bets previous level pots =
    let eligible = eligible_at level bets in
    let pot_amount = pot_amount_at previous level bets in
    if ltb 0 pot_amount
    then if is_empty eligible
      then place_dead pot_amount pots
      else (pots ++ record { amount = pot_amount; eligible_player_ids = eligible } ∷ [])
    else pots

unfoldable pub add_levels : List ActiveBet → ℕ → List ℕ → List Pot → List Pot
unfolding add_level
add_levels bets previous [] pots = pots
add_levels bets previous (level ∷ levels) pots =
    add_levels bets level levels (add_level bets previous level pots)

-- The loop over the bets of at least one player.
unfoldable pub split_pots : List ActiveBet → List Pot
unfolding all_bet_levels add_levels
split_pots bets = add_levels bets 0 (all_bet_levels bets) []

-- `calculatePots`
unfoldable pub calculate_pots : PotManager → List Player → PotManager
unfolding active_bets split_pots
calculate_pots m players =
    let bets = active_bets m.player_total_bets players in
    let pots = split_pots bets in
    if is_empty bets then m else record m {
      pots = if is_empty pots then record { amount = 0; eligible_player_ids = [] } ∷ [] else pots;
    }
