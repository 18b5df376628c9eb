-- ===== src/Table/Survivor.antt =====
-- A whole street keeps the chips and leaves somebody in.
use servers_poker.Prelude.{
  ℕ, zero, suc, ◌*◌, ◌≤◌, ◌≡◌, refl, subst, inl, inr, Bool, true, false, ◌||◌, includes, List,
  length, leb, if◌then◌else◌, arith, All-Member, Member, Bool-cases, Option-cases, if_cases,
  get_elem?,
}
use servers_poker.Prelude.Dict.{Dict, lookup}
use servers_poker.Betting.{Player}
use servers_poker.Betting.Pots.Conservation.{IsSeated}
use servers_poker.Betting.Round.{
  BettingRound, Action, new_round, get_call_amount, apply_action, fold, check, can_check,
}
use servers_poker.Betting.Round.Queries.{is_betting_complete}
use servers_poker.Betting.Round.Turns.{still_in}
use servers_poker.HandEval.{Card}
use servers_poker.Table.{Table, GamePlayer, sitting_out, betting_players, update_seat}
use servers_poker.Table.Street.{
  Street, Engine, auto_turn, take_turn, bot_turn, get_player_action_safe, normalize_raise_action,
  seat_turn, street_step, street_loop, open_round, betting_round_loop,
}
use servers_poker.Table.Moves.{IsSound}
use servers_poker.Table.Rounds.{
  street_step-Keeps, calculate_pots-total, open_round-IsBounded, get_elem?-Member,
}
use servers_poker.Table.Alive.{Alive, Turn, IsShutOut, auto_turn-Alive, bot_turn-Alive}

not_complete : (r : BettingRound) → is_betting_complete r ≡ false → 2 ≤ still_in r.players
unfolding is_betting_complete
not_complete r e = elim (Bool-cases (leb (still_in r.players) 1)) [
  | inl few ↦ absurd (true_false (rw few at e))
  | inr many ↦ ground (arith, many)
]
  where
    true_false : true ≡ false → ⊥
    true_false h = cc

seat_turn-Alive :
    (cards : List Card) (n : ℕ) (engine : Engine) (s : Street) (p : GamePlayer)
    → Member p s.table.players
    → IsSound s.table s.round
    → 2 ≤ still_in (betting_players s.table)
    → Alive cards n s.table
    → Alive cards n (seat_turn engine s p).table
unfolding seat_turn
seat_turn-Alive cards n engine s p m sound two a = elim (Bool-cases (p.folded || p.all_in)) [
  | inl out ↦ rw (out, seat_turn) a
  | inr playing ↦
      let t = s.table in
      let seat : IsShutOut p = All-Member IsShutOut p t.players a.shut_out m in
      let turn : Turn cards n t p = record {
        distinct = sound.seated.distinct_ids;
        seated = m;
        present = ground (arith, seat, playing);
        shut_out = a.shut_out;
        two = two;
        board = a.board;
        filled = a.filled;
      } in
      let P = λ (u : Street). Alive cards n u.table in
      rw (playing, seat_turn)
        (if_cases P (includes p.id t.moving_players) _ _
          (auto_turn-Alive cards n t s.round p fold s.current_index turn)
          (if_cases P (elim p.seat_status [ sitting_out ↦ true | _ ↦ false ]) _ _
            (auto_turn-Alive cards n t s.round p
              (if can_check s.round p.player then check else fold) s.current_index turn)
            (bot_turn-Alive cards n engine t s.round p s.current_index turn)))
]

street_step-Alive :
    (cards : List Card) (n : ℕ) (engine : Engine) (s : Street)
    → IsSound s.table s.round
    → 2 ≤ still_in (betting_players s.table)
    → Alive cards n s.table
    → Alive cards n (street_step engine s).table
unfolding street_step
street_step-Alive cards n engine s sound two a =
    elim (Option-cases (get_elem? s.table.players s.current_index)) [
      | inl nobody ↦ rw (nobody, street_step) a
      | inr (p, e) ↦
          rw (e, street_step)
            (seat_turn-Alive cards n engine s p
              (get_elem?-Member s.table.players s.current_index p e) sound two a)
    ]

-- The round has the table's players.
abbrev IsShared : Street → Type 0
IsShared s = s.round.players ≡ betting_players s.table

take_turn-IsShared :
    (t : Table) (r : BettingRound) (p : GamePlayer) (a : Action) (index : ℕ)
    → IsShared (take_turn t r p a index)
unfolding take_turn
take_turn-IsShared t r p a index =
    if_cases IsShared (apply_action r p.player a).2.valid _ _ refl refl

seat_turn-IsShared :
    (engine : Engine) (s : Street) (p : GamePlayer) → IsShared s → IsShared (seat_turn engine s p)
unfolding seat_turn auto_turn bot_turn
seat_turn-IsShared engine s p h =
    let safe = get_player_action_safe engine s.table s.round p in
    let t' : Table = record (s.table) { players = update_seat safe.0 s.table.players } in
    if_cases IsShared (p.folded || p.all_in) _ _ h (
      if_cases IsShared (includes p.id s.table.moving_players) _ _ refl (
        if_cases IsShared (elim p.seat_status [ sitting_out ↦ true | _ ↦ false ]) _ _ refl
          (take_turn-IsShared t' s.round safe.0
            (normalize_raise_action safe.1 s.round.last_raise_delta p.chips
              (get_call_amount s.round p.player))
            s.current_index)))

street_step-IsShared : (engine : Engine) (s : Street) → IsShared s → IsShared (street_step engine s)
unfolding street_step
street_step-IsShared engine s h = elim (Option-cases (get_elem? s.table.players s.current_index)) [
  | inl nobody ↦ rw (nobody, street_step) h
  | inr (p, e) ↦ rw (e, street_step) (seat_turn-IsShared engine s p h)
]

street_loop-Alive :
    (cards : List Card) (n : ℕ) (engine : Engine) (fuel : ℕ) (s : Street)
    → IsSound s.table s.round
    → IsShared s
    → Alive cards n s.table
    → Alive cards n (street_loop engine fuel s).table
unfolding street_loop
street_loop-Alive cards n engine zero s sound shared a = a
street_loop-Alive cards n engine (suc fuel) s sound shared a =
    elim (Bool-cases (is_betting_complete s.round)) [
      | inl done ↦ rw (done, street_loop) a
      | inr going ↦
          let two =
            subst (λ (l : List Player). 2 ≤ still_in l) shared (not_complete s.round going) in
          let step = street_step engine s in
          rw (going, street_loop)
            (street_loop-Alive cards n engine fuel step (street_step-Keeps engine s sound).1
              (street_step-IsShared engine s shared)
              (street_step-Alive cards n engine s sound two a))
    ]

-- Where somebody is in the hand, and only players at the table are, a street leaves somebody in: the
-- board is as it was, and no chips have left the pot.
pub betting_round_loop-Alive :
    (engine : Engine) (t : Table) (is_pre_flop : Bool) (start_index initial_bet : ℕ) (bets : Dict)
    → IsSeated t.pot_manager.player_total_bets (betting_players t)
    → ((i : ℕ) → lookup i bets ≤ initial_bet)
    → (cards : List Card) (n : ℕ) → Alive cards n t
    → Alive cards n (betting_round_loop engine t is_pre_flop start_index initial_bet bets)
unfolding betting_round_loop open_round new_round
betting_round_loop-Alive engine t is_pre_flop start_index initial_bet bets s h cards n a =
    let start : Street = record {
      table = t;
      round = open_round t is_pre_flop initial_bet bets;
      current_index = start_index;
    } in
    let sound : IsSound t start.round = record {
      seated = s;
      bounded = open_round-IsBounded t is_pre_flop initial_bet bets h;
    } in
    let k = street_loop-Alive cards n engine (length t.players * 4) start sound refl a in
    let end = (street_loop engine (length t.players * 4) start).table in
    record {
      shut_out = k.shut_out;
      somebody = k.somebody;
      board = k.board;
      filled = omega (arith, k.filled, calculate_pots-total end.pot_manager (betting_players end));
    }
