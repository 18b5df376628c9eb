-- ===== src/Table/Conservation.antt =====
-- A turn moves chips from a stack to the pot, and none is lost or made.
use servers_poker.Prelude.{
  ℕ, ◌+◌, ◌≡◌, refl, sym, ap, ◌∙◌, subst, ◌⊎◌, inl, inr, true, some, List, map, includes, Distinct,
  if◌then◌else◌, arith, All, Member, sum_by, Bool-cases, Option-cases, ltb,
}
use servers_poker.Prelude.Int.{pos}
use servers_poker.Prelude.Dict.{Dict}
use servers_poker.Betting.{Player}
use servers_poker.Betting.Pots.{PotManager, get_total_pot}
use servers_poker.Betting.Pots.Conservation.{ids, keys, IsSeated}
use servers_poker.Betting.Pots.Seated.{add_bet-IsSeated, get_total_pot-add_bet}
use servers_poker.Betting.Round.{
  BettingRound, Action, ActionType, fold, check, call, raise, bet, all_in, other, apply_action,
  apply_fold, apply_check,
}
use servers_poker.Betting.Round.Actions.{apply_action-Conserves, apply_action-refused}
use servers_poker.Betting.Round.Limits.{IsBounded, apply_action-IsFair}
use servers_poker.Table.{Table, GamePlayer, betting_players, put_player, update_seat}
use servers_poker.Table.Street.{
  Street, Engine, plain, is_raise, add_amount, acted, auto_turn, take_turn, bot_turn,
  get_player_action_safe,
}
use servers_poker.Table.Payout.{seat_ids}
use servers_poker.Table.Moves.{
  chips_at, IsSound, Member-includes, put_player-stacks, put_player-seat_ids, update_seat-Member,
  update_seat-players, stacks-map, settled,
}

-- The street is sound and has `total` chips at its table.
abbrev pub Keeps : ℕ → Street → Type 0
Keeps total s = (chips_at s.table ≡ total) × IsSound s.table s.round

IsSeated-ids :
    (d : Dict) (players players' : List GamePlayer)
    → seat_ids players' ≡ seat_ids players
    → IsSeated d (map (λ (s : GamePlayer). s.player) players)
    → IsSeated d (map (λ (s : GamePlayer). s.player) players')
IsSeated-ids d players players' e s = record {
  distinct_keys = s.distinct_keys;
  distinct_ids = subst Distinct (sym e) s.distinct_ids;
  known = subst (λ is. All (λ k. includes k is ≡ true) (keys d)) (sym e) s.known;
}

acted-Keeps :
    (t : Table) (r : BettingRound) (p : GamePlayer) (new : Player) (n total index : ℕ)
    → Member p t.players
    → new.id ≡ p.id
    → new.chips + n ≡ p.chips
    → IsSound t r
    → chips_at t ≡ total + n
    → Keeps total (acted t r new index)
acted-Keeps t r p new n total index m e c s h = (
  omega (arith, put_player-stacks new p t.players s.seated.distinct_ids m e),
  record {
    seated =
        IsSeated-ids t.pot_manager.player_total_bets t.players (put_player new t.players)
          (put_player-seat_ids new t.players) s.seated;
    bounded = record { bets = s.bounded.bets; delta = s.bounded.delta };
  },
)

pub add_amount-total :
    (m : PotManager) (id n : ℕ) → get_total_pot (add_amount m id (pos n)) ≡ get_total_pot m + n
add_amount-total m id n = ground (arith, get_total_pot-add_bet m id n)

add_amount-IsSeated :
    (m : PotManager) (players : List Player) (id n : ℕ)
    → includes id (ids players) ≡ true
    → IsSeated m.player_total_bets players
    → IsSeated (add_amount m id (pos n)).player_total_bets players
add_amount-IsSeated m players id n h s = elim (Bool-cases (ltb 0 n)) [
  | inl some_bet ↦ rw some_bet (add_bet-IsSeated m players id n h s)
  | inr no_bet ↦ rw no_bet s
]

-- What is known of an action of a player at the table.
outcome_settled :
    (r : BettingRound) (p : Player) (a : Action)
    → IsBounded r
    → let (r', p', result) = apply_action r p a in
      (n : ℕ) × (result.amount_added ≡ pos n)
      × (p'.chips + n ≡ p.chips)
      × (p'.id ≡ p.id)
      × IsBounded r'
outcome_settled r p a b =
    let (same, left, _) = apply_action-Conserves r p a in
    let fair = apply_action-IsFair r p a b in
    let (n, e, c) = settled p.chips _ _ left fair.paid fair.afforded in
    (n, e, c, same, fair.bounded)

-- A check and a fold are free.
free_action :
    (r : BettingRound) (p : Player) (type : ActionType)
    → (type ≡ check) ⊎ (type ≡ fold)
    → (apply_action r p (plain type)).2.amount_added ≡ pos 0
unfolding apply_action apply_fold apply_check
free_action r p fold h = refl
free_action r p check h = ground arith
free_action r p call h = absurd (ground arith)
free_action r p raise h = absurd (ground arith)
free_action r p bet h = absurd (ground arith)
free_action r p all_in h = absurd (ground arith)
free_action r p other h = absurd (ground arith)

pub auto_turn-Keeps :
    (t : Table) (r : BettingRound) (p : GamePlayer) (type : ActionType) (index : ℕ)
    → Member p t.players
    → IsSound t r
    → (type ≡ check) ⊎ (type ≡ fold)
    → Keeps (chips_at t) (auto_turn t r p type index)
unfolding auto_turn
auto_turn-Keeps t r p type index m s h =
    let (n, e, c, same, b) = outcome_settled r p.player (plain type) s.bounded in
    let free : n ≡ 0 = zero (sym e ∙ free_action r p.player type h) in
    let (r', p', _) = apply_action r p.player (plain type) in
    acted-Keeps t r' p p' n (chips_at t) index m same c (record { seated = s.seated; bounded = b })
      (omega arith)
  where
    zero : {n : ℕ} → pos n ≡ pos 0 → n ≡ 0
    zero e = ground arith

pub take_turn-Keeps :
    (t : Table) (r : BettingRound) (p : GamePlayer) (a : Action) (index : ℕ)
    → Member p t.players
    → IsSound t r
    → Keeps (chips_at t) (take_turn t r p a index)
unfolding take_turn auto_turn
take_turn-Keeps t r p a index m s = elim (Bool-cases (apply_action r p.player a).2.valid) [
  | inl valid ↦
      let (r', p', result) = apply_action r p.player a in
      let (n, e, c, same, b) = outcome_settled r p.player a s.bounded in
      let known = Member-includes p t.players m in
      let pot = add_amount t.pot_manager p.id (pos n) in
      let t' : Table = record t {
        pot_manager = pot;
        last_aggressor_id = if is_raise a.type then some p.id else t.last_aggressor_id;
      } in
      let seated = add_amount-IsSeated t.pot_manager (betting_players t) p.id n known s.seated in
      let grown = add_amount-total t.pot_manager p.id n in
      rw (valid, e)
        (acted-Keeps t' r' p p' n (chips_at t) index m same c
          (record { seated = seated; bounded = b }) (omega (arith, grown)))
  | inr refused ↦
      let (r_same, p_same, _) = apply_action-refused r p.player a refused in
      rw (refused, r_same, p_same) (auto_turn-Keeps t r p fold index m s (inr refl))
]

-- The strategy touches strikes and status only.
pub get_player_action_safe-player :
    (engine : Engine) (t : Table) (r : BettingRound) (p : GamePlayer)
    → (get_player_action_safe engine t r p).0.player ≡ p.player
unfolding get_player_action_safe
get_player_action_safe-player engine t r p = elim (Option-cases (engine t r p)) [
  | inl thrown ↦ rw (thrown, get_player_action_safe)
  | inr (a, e) ↦ rw (e, get_player_action_safe)
]

pub bot_turn-Keeps :
    (engine : Engine) (t : Table) (r : BettingRound) (p : GamePlayer) (index : ℕ)
    → Member p t.players
    → IsSound t r
    → Keeps (chips_at t) (bot_turn engine t r p index)
unfolding bot_turn
bot_turn-Keeps engine t r p index m s =
    let (p', raw) = get_player_action_safe engine t r p in
    let same = get_player_action_safe-player engine t r p in
    let list_same = update_seat-players p' p t.players s.seated.distinct_ids m same in
    let t' : Table = record t { players = update_seat p' t.players } in
    let chips : chips_at t' ≡ chips_at t = omega (
      arith,
      stacks-map (update_seat p' t.players),
      stacks-map t.players,
      ap (sum_by (λ (q : Player). q.chips)) list_same,
    ) in
    subst (λ n. Keeps n (bot_turn engine t r p index)) chips
      (take_turn-Keeps t' r p' _ index (update_seat-Member p' p t.players m same) (record {
        seated = subst (IsSeated t.pot_manager.player_total_bets) (sym list_same) s.seated;
        bounded = s.bounded;
      }))
