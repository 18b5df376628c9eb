-- ===== src/Table/Alive.antt =====
-- A street ends with somebody still in: the last player who is in never gets to fold.
use servers_poker.Prelude.{
  ℕ, ◌+◌, ◌≤◌, ◌<◌, ◌≡◌, sym, ap, ◌∙◌, subst, ◌⊎◌, inl, inr, true, false, some, List, [], ◌∷◌, map,
  Distinct, if◌then◌else◌, ◌==◌, arith, All, Member, Bool-cases, Option-cases, if_cases,
}
use servers_poker.Prelude.Int.{ℤ, pos, negsuc}
use servers_poker.Betting.{Player}
use servers_poker.Betting.Pots.{PotManager, get_total_pot}
use servers_poker.Betting.Round.{BettingRound, Action, ActionType, fold, apply_action}
use servers_poker.Betting.Round.Actions.{apply_action-Conserves}
use servers_poker.Betting.Round.Turns.{still_in}
use servers_poker.HandEval.{Card}
use servers_poker.Table.{Table, GamePlayer, betting_players, put_player, update_seat}
use servers_poker.Table.Street.{
  Street, Engine, plain, is_raise, add_amount, acted, auto_turn, take_turn, bot_turn,
  get_player_action_safe,
}
use servers_poker.Table.Payout.{seat_ids}
use servers_poker.Table.Moves.{Member-includes, update_seat-Member, update_seat-players}
use servers_poker.Table.Conservation.{get_player_action_safe-player, add_amount-total}

-- A player who has left the table is not in the hand.
abbrev pub IsShutOut : GamePlayer → Type 0
IsShutOut q = (q.disconnected ≡ false) ⊎ (q.folded ≡ true)

-- Somebody is in the hand, the board is `cards`, and the pot has at least `n` chips.
pub record Alive (cards : List Card) (n : ℕ) (t : Table) : Type 0 where
  pub shut_out : All IsShutOut t.players
  pub somebody : 0 < still_in (betting_players t)
  pub board : t.community_cards ≡ cards
  pub filled : n ≤ get_total_pot t.pot_manager

put_player-still_in :
    (new : Player) (players : List GamePlayer)
    → still_in (map (λ (q : GamePlayer). q.player) players)
      ≤ still_in (map (λ (q : GamePlayer). q.player) (put_player new players)) + 1
unfolding put_player
put_player-still_in new [] = omega arith
put_player-still_in new (q ∷ players) = ground (arith, put_player-still_in new players)

pub put_player-IsShutOut :
    (new : Player) (p : GamePlayer) (players : List GamePlayer)
    → Distinct (seat_ids players)
    → Member p players
    → new.id ≡ p.id
    → (p.disconnected ≡ false) ⊎ (new.folded ≡ true)
    → All IsShutOut players
    → All IsShutOut (put_player new players)
unfolding put_player
put_player-IsShutOut new p [] u m e d h = tt
put_player-IsShutOut new p (q ∷ players) u m e d h = elim (Bool-cases (new.id == q.id)) [
  | inl here ↦ rw here (elim m [
    | inl s ↦ (
      elim d [ inl a ↦ inl (sym (ap (λ (x : GamePlayer). x.disconnected) s) ∙ a) | inr f ↦ inr f ],
      h.1,
    )
    | inr k ↦ absurd (ground (arith, here, e, Member-includes p players k, u.0))
  ])
  | inr there ↦ rw there (elim m [
    | inl s ↦ absurd (ground (arith, there, e, ap (λ (x : GamePlayer). x.id) s))
    | inr k ↦ (h.0, put_player-IsShutOut new p players u.1 k e d h.1)
  ])
]

update_seat-IsShutOut :
    (new : GamePlayer) (players : List GamePlayer)
    → IsShutOut new
    → All IsShutOut players
    → All IsShutOut (update_seat new players)
unfolding update_seat
update_seat-IsShutOut new [] n h = tt
update_seat-IsShutOut new (q ∷ players) n h =
    if_cases (All IsShutOut) (new.id == q.id) _ _ (n, h.1)
      (h.0, update_seat-IsShutOut new players n h.1)

-- What a turn needs: two players are in, and `p` is one of them.
pub record Turn (cards : List Card) (n : ℕ) (t : Table) (p : GamePlayer) : Type 0 where
  pub distinct : Distinct (seat_ids t.players)
  pub seated : Member p t.players
  pub present : p.disconnected ≡ false
  pub shut_out : All IsShutOut t.players
  pub two : 2 ≤ still_in (betting_players t)
  pub board : t.community_cards ≡ cards
  pub filled : n ≤ get_total_pot t.pot_manager

acted-Alive :
    (cards : List Card) (n : ℕ) (t : Table) (r : BettingRound) (p : GamePlayer) (new : Player)
    (index : ℕ)
    → Turn cards n t p
    → new.id ≡ p.id
    → Alive cards n (acted t r new index).table
acted-Alive cards n t r p new index h e = record {
  shut_out = put_player-IsShutOut new p t.players h.distinct h.seated e (inl h.present) h.shut_out;
  somebody = omega (arith, put_player-still_in new t.players, h.two);
  board = h.board;
  filled = h.filled;
}

pub auto_turn-Alive :
    (cards : List Card) (n : ℕ) (t : Table) (r : BettingRound) (p : GamePlayer) (type : ActionType)
    (index : ℕ)
    → Turn cards n t p
    → Alive cards n (auto_turn t r p type index).table
unfolding auto_turn
auto_turn-Alive cards n t r p type index h =
    acted-Alive cards n t (apply_action r p.player (plain type)).0 p
      (apply_action r p.player (plain type)).1 index h
      (apply_action-Conserves r p.player (plain type)).0

add_amount-filled :
    (m : PotManager) (id : ℕ) (z : ℤ) → get_total_pot m ≤ get_total_pot (add_amount m id z)
add_amount-filled m id (pos n) = omega (arith, add_amount-total m id n)
add_amount-filled m id (negsuc n) = omega arith

take_turn-Alive :
    (cards : List Card) (n : ℕ) (t : Table) (r : BettingRound) (p : GamePlayer) (a : Action)
    (index : ℕ)
    → Turn cards n t p
    → Alive cards n (take_turn t r p a index).table
unfolding take_turn
take_turn-Alive cards n t r p a index h =
    let o = apply_action r p.player a in
    let o_fold = apply_action o.0 o.1 (plain fold) in
    let same = (apply_action-Conserves r p.player a).0 in
    let same_fold = (apply_action-Conserves o.0 o.1 (plain fold)).0 ∙ same in
    let t' : Table = record t {
      pot_manager = add_amount t.pot_manager p.id o.2.amount_added;
      last_aggressor_id = if is_raise a.type then some p.id else t.last_aggressor_id;
    } in
    let h' : Turn cards n t' p = record {
      distinct = h.distinct;
      seated = h.seated;
      present = h.present;
      shut_out = h.shut_out;
      two = h.two;
      board = h.board;
      filled = omega (arith, h.filled, add_amount-filled t.pot_manager p.id o.2.amount_added);
    } in
    if_cases (λ (s : Street). Alive cards n s.table) o.2.valid (acted t' o.0 o.1 index)
      (acted t o_fold.0 o_fold.1 index) (acted-Alive cards n t' o.0 p o.1 index h' same)
      (acted-Alive cards n t o_fold.0 p o_fold.1 index h same_fold)

get_player_action_safe-disconnected :
    (engine : Engine) (t : Table) (r : BettingRound) (p : GamePlayer)
    → (get_player_action_safe engine t r p).0.disconnected ≡ p.disconnected
unfolding get_player_action_safe
get_player_action_safe-disconnected engine t r p = elim (Option-cases (engine t r p)) [
  | inl thrown ↦ rw (thrown, get_player_action_safe)
  | inr (a, e) ↦ rw (e, get_player_action_safe)
]

pub bot_turn-Alive :
    (cards : List Card) (n : ℕ) (engine : Engine) (t : Table) (r : BettingRound) (p : GamePlayer)
    (index : ℕ)
    → Turn cards n t p
    → Alive cards n (bot_turn engine t r p index).table
unfolding bot_turn
bot_turn-Alive cards n engine t r p index h =
    let p' = (get_player_action_safe engine t r p).0 in
    let same = get_player_action_safe-player engine t r p in
    let here = get_player_action_safe-disconnected engine t r p ∙ h.present in
    let list_same = update_seat-players p' p t.players h.distinct h.seated same in
    let t' : Table = record t { players = update_seat p' t.players } in
    take_turn-Alive cards n t' r p' _ index (record {
      distinct =
          subst (λ (l : List Player). Distinct (map (λ (q : Player). q.id) l)) (sym list_same)
            h.distinct;
      seated = update_seat-Member p' p t.players h.seated same;
      present = here;
      shut_out = update_seat-IsShutOut p' t.players (inl here) h.shut_out;
      two = subst (λ (l : List Player). 2 ≤ still_in l) (sym list_same) h.two;
      board = h.board;
      filled = h.filled;
    })
