-- ===== src/Table/Rounds.antt =====
-- A street moves chips from the stacks to the pot, and none is lost or made.
use servers_poker.Prelude.{
  ℕ, zero, suc, ◌*◌, ◌≤◌, ◌≡◌, refl, sym, ap, subst, ◌⊎◌, inl, inr, Bool, true, false, ◌||◌, some,
  List, [], ◌∷◌, length, includes, get_elem?, if◌then◌else◌, arith, Member, Option-cases, if_cases,
}
use mathlib.Core.Option.{some-injective}
use servers_poker.Prelude.Dict.{Dict, lookup, total}
use servers_poker.Betting.{Player}
use servers_poker.Betting.Pots.{PotManager, get_total_pot, calculate_pots}
use servers_poker.Betting.Pots.Conservation.{IsSeated}
use servers_poker.Betting.Round.{ActionType, new_round, fold, check, can_check}
use servers_poker.Betting.Round.Queries.{is_betting_complete}
use servers_poker.Betting.Round.Limits.{IsBounded}
use servers_poker.Table.{Table, GamePlayer, sitting_out, betting_players}
use servers_poker.Table.Street.{
  Street, Engine, seat_turn, street_step, street_loop, open_round, betting_round_loop,
}
use servers_poker.Table.Moves.{chips_at, IsSound}
use servers_poker.Table.Conservation.{Keeps, auto_turn-Keeps, bot_turn-Keeps}

pub get_elem?-Member :
    (players : List GamePlayer) (i : ℕ) (p : GamePlayer)
    → get_elem? players i ≡ some p
    → Member p players
get_elem?-Member [] i p e = absurd (ground arith)
get_elem?-Member (q ∷ players) zero p e = inl (some-injective _ _ (sym e))
get_elem?-Member (q ∷ players) (suc i) p e = inr (get_elem?-Member players i p e)

seat_turn-Keeps :
    (engine : Engine) (s : Street) (p : GamePlayer)
    → Member p s.table.players
    → IsSound s.table s.round
    → Keeps (chips_at s.table) (seat_turn engine s p)
unfolding seat_turn
seat_turn-Keeps engine s p m sound =
    let t = s.table in
    let P = Keeps (chips_at t) in
    let checks : ActionType = if can_check s.round p.player then check else fold in
    let free : (checks ≡ check) ⊎ (checks ≡ fold) =
      if_cases (λ a. (a ≡ check) ⊎ (a ≡ fold)) (can_check s.round p.player) check fold (inl refl)
        (inr refl) in
    if_cases P (p.folded || p.all_in) _ _ (refl, sound)
      (if_cases P (includes p.id t.moving_players) _ _
        (auto_turn-Keeps t s.round p fold s.current_index m sound (inr refl))
        (if_cases P (elim p.seat_status [ sitting_out ↦ true | _ ↦ false ]) _ _
          (auto_turn-Keeps t s.round p checks s.current_index m sound free)
          (bot_turn-Keeps engine t s.round p s.current_index m sound)))

pub street_step-Keeps :
    (engine : Engine) (s : Street)
    → IsSound s.table s.round
    → Keeps (chips_at s.table) (street_step engine s)
unfolding street_step
street_step-Keeps engine s sound = elim (Option-cases (get_elem? s.table.players s.current_index)) [
  | inl nobody ↦ rw (nobody, street_step) (refl, sound)
  | inr (p, e) ↦
      rw (e, street_step)
        (seat_turn-Keeps engine s p (get_elem?-Member s.table.players s.current_index p e) sound)
]

street_loop-Keeps :
    (engine : Engine) (fuel : ℕ) (s : Street)
    → IsSound s.table s.round
    → Keeps (chips_at s.table) (street_loop engine fuel s)
unfolding street_loop
street_loop-Keeps engine zero s sound = (refl, sound)
street_loop-Keeps engine (suc fuel) s sound =
    let step = street_step-Keeps engine s sound in
    if_cases (Keeps (chips_at s.table)) (is_betting_complete s.round) _ _ (refl, sound)
      (subst (λ n. Keeps n (street_loop engine fuel (street_step engine s))) step.0
        (street_loop-Keeps engine fuel (street_step engine s) step.1))

calculate_pots-totals :
    (m : PotManager) (players : List Player)
    → (calculate_pots m players).player_total_bets ≡ m.player_total_bets
unfolding calculate_pots
calculate_pots-totals m players = ground arith

pub calculate_pots-total :
    (m : PotManager) (players : List Player)
    → get_total_pot (calculate_pots m players) ≡ get_total_pot m
unfolding get_total_pot
calculate_pots-total m players = ap total (calculate_pots-totals m players)

pub open_round-IsBounded :
    (t : Table) (is_pre_flop : Bool) (initial_bet : ℕ) (bets : Dict)
    → ((i : ℕ) → lookup i bets ≤ initial_bet)
    → IsBounded (open_round t is_pre_flop initial_bet bets)
unfolding open_round new_round
open_round-IsBounded t is_pre_flop initial_bet bets h = record { bets = h; delta = omega arith }

-- Where the totals are of players at the table, whose ids differ, then whatever the strategies
-- decide, a street that opens with no bet above the opening one leaves the chips at the table, in
-- the stacks and in the pot, as many as they were, and the totals those of players at the table.
pub betting_round_loop-chips_at :
    (engine : Engine) (t : Table) (is_pre_flop : Bool) (start_index initial_bet : ℕ) (bets : Dict)
    → IsSeated t.pot_manager.player_total_bets (betting_players t)
    → ((i : ℕ) → lookup i bets ≤ initial_bet)
    → let t' = betting_round_loop engine t is_pre_flop start_index initial_bet bets in
      (chips_at t' ≡ chips_at t) × IsSeated t'.pot_manager.player_total_bets (betting_players t')
unfolding betting_round_loop
betting_round_loop-chips_at engine t is_pre_flop start_index initial_bet bets s h =
    let start : Street = record {
      table = t;
      round = open_round t is_pre_flop initial_bet bets;
      current_index = start_index;
    } in
    let sound : IsSound t start.round = record {
      seated = s;
      bounded = open_round-IsBounded t is_pre_flop initial_bet bets h;
    } in
    let k = street_loop-Keeps engine (length t.players * 4) start sound in
    let end = (street_loop engine (length t.players * 4) start).table in
    let same = calculate_pots-totals end.pot_manager (betting_players end) in
    (
      omega (arith, calculate_pots-total end.pot_manager (betting_players end), k.0),
      subst (λ d. IsSeated d (betting_players end)) (sym same) k.1.seated,
    )
