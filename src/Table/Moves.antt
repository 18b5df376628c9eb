-- ===== src/Table/Moves.antt =====
-- One turn at the table: chips move from a stack to the pot, and none is lost.
use servers_poker.Prelude.{
  ℕ, ◌+◌, ◌≡◌, refl, ap, inl, inr, true, List, [], ◌∷◌, map, includes, Distinct, ◌==◌, arith,
  Member, sum_by, Bool-cases,
}
use servers_poker.Prelude.Int.{ℤ, pos, negsuc, ◌-ℤ◌, ◌≤ℤ◌}
use servers_poker.Betting.{Player}
use servers_poker.Betting.Pots.{get_total_pot}
use servers_poker.Betting.Pots.Conservation.{IsSeated}
use servers_poker.Betting.Round.{BettingRound}
use servers_poker.Betting.Round.Limits.{IsBounded}
use servers_poker.Table.{Table, GamePlayer, betting_players, put_player, update_seat}
use servers_poker.Table.Payout.{seat_ids, stacks}

-- The chips at the table: in the stacks and in the pot.
abbrev pub chips_at : Table → ℕ
chips_at t = stacks t.players + get_total_pot t.pot_manager

-- The totals are those of players at the table, whose ids differ, and no bet of the round exceeds
-- the current one.
pub record IsSound (t : Table) (r : BettingRound) : Type 0 where
  pub seated : IsSeated t.pot_manager.player_total_bets (betting_players t)
  pub bounded : IsBounded r

pub Member-includes :
    (p : GamePlayer) (players : List GamePlayer)
    → Member p players
    → includes p.id (seat_ids players) ≡ true
Member-includes p [] m = absurd m
Member-includes p (q ∷ players) (inl e) = ground (arith, ap (λ (s : GamePlayer). s.id) e)
Member-includes p (q ∷ players) (inr m) = ground (arith, Member-includes p players m)

-- The seat of a player is the only one with his id, so his new chips replace his old ones.
pub put_player-stacks :
    (new : Player) (p : GamePlayer) (players : List GamePlayer)
    → Distinct (seat_ids players)
    → Member p players
    → new.id ≡ p.id
    → stacks (put_player new players) + p.chips ≡ stacks players + new.chips
unfolding put_player
put_player-stacks new p [] u m e = absurd m
put_player-stacks new p (q ∷ players) u (inl s) e =
    ground (arith, ap (λ (s : GamePlayer). s.id) s, ap (λ (s : GamePlayer). s.chips) s)
put_player-stacks new p (q ∷ players) u (inr m) e =
    ground (arith, put_player-stacks new p players u.1 m e, Member-includes p players m, u.0)

pub put_player-seat_ids :
    (new : Player) (players : List GamePlayer)
    → seat_ids (put_player new players) ≡ seat_ids players
unfolding put_player
put_player-seat_ids new [] = refl
put_player-seat_ids new (q ∷ players) = elim (Bool-cases (new.id == q.id)) [
  | inl here ↦ rw here (ground (arith, here))
  | inr there ↦ rw (there, put_player-seat_ids new players)
]

-- A write of strikes or status.
pub update_seat-Member :
    (new p : GamePlayer) (players : List GamePlayer)
    → Member p players
    → new.player ≡ p.player
    → Member new (update_seat new players)
unfolding update_seat
update_seat-Member new p [] m e = m
update_seat-Member new p (q ∷ players) m e = elim (Bool-cases (new.id == q.id)) [
  | inl here ↦ rw here (inl refl)
  | inr there ↦ rw there (elim m [
    | inl s ↦
        absurd (ground (arith, there, ap (λ (s : Player). s.id) e, ap (λ (s : GamePlayer). s.id) s))
    | inr k ↦ inr (update_seat-Member new p players k e)
  ])
]

pub update_seat-players :
    (new p : GamePlayer) (players : List GamePlayer)
    → Distinct (seat_ids players)
    → Member p players
    → new.player ≡ p.player
    → map (λ (s : GamePlayer). s.player) (update_seat new players)
      ≡ map (λ (s : GamePlayer). s.player) players
unfolding update_seat
update_seat-players new p [] u m e = refl
update_seat-players new p (q ∷ players) u (inl s) e =
    ground (arith, ap (λ (s : Player). s.id) e, ap (λ (s : GamePlayer). s.player) s, e)
update_seat-players new p (q ∷ players) u (inr m) e = ground (
  arith,
  ap (λ (s : Player). s.id) e,
  update_seat-players new p players u.1 m e,
  Member-includes p players m,
  u.0,
)

-- The stacks are the chips of the players.
pub stacks-map :
    (players : List GamePlayer)
    → stacks players ≡ sum_by (λ (s : Player). s.chips) (map (λ (s : GamePlayer). s.player) players)
stacks-map [] = refl
stacks-map (p ∷ players) = omega (arith, stacks-map players)

-- A payment that is not negative and is covered.
pub settled :
    (chips left : ℕ) (amount : ℤ)
    → pos left ≡ pos chips -ℤ amount
    → pos 0 ≤ℤ amount
    → amount ≤ℤ pos chips
    → (n : ℕ) × (amount ≡ pos n) × (left + n ≡ chips)
settled chips left (pos n) e h k = (n, refl, ground arith)
settled chips left (negsuc n) e h k = absurd (omega arith)
