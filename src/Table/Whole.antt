-- ===== src/Table/Whole.antt =====
-- A whole hand, from the deal to the award.
use servers_poker.Prelude.{
  ℕ, zero, suc, ◌+◌, ◌≤◌, ◌<◌, ◌≡◌, refl, sym, ap, subst, inl, inr, false, not, ◌&&◌, Option, some,
  List, [], ◌∷◌, ◌++◌, length, length-append, map, filter, filter-Member, take, drop, leb, arith,
  All, Member, Bool-cases, if_cases, is_empty,
}
use servers_poker.Prelude.Dict.{lookup}
use servers_poker.Betting.Pots.{get_total_pot}
use servers_poker.Betting.Pots.Conservation.{IsSeated}
use servers_poker.Betting.Round.Turns.{still_in}
use servers_poker.HandEval.{Card}
use servers_poker.Table.{Table, GamePlayer, betting_players}
use servers_poker.Table.Seats.{active_players, next_active_index}
use servers_poker.Table.Street.{Engine}
use servers_poker.Table.Award.{award_pot, showdown, pay_out, cleared}
use servers_poker.Table.Hand.{award_or, later_street, play_river, play_turn, play_flop}
use servers_poker.Table.Payout.{stacks, pay_out-stacks}
use servers_poker.Table.Moves.{chips_at, Member-includes}
use servers_poker.Table.Showdown.{showdown-stacks}
use servers_poker.Table.Rounds.{betting_round_loop-chips_at}
use servers_poker.Table.Alive.{Alive, IsShutOut}
use servers_poker.Table.Survivor.{betting_round_loop-Alive}

-- The table in the middle of a hand, with a board and chips in the pot.
pub record InHand (cards : List Card) (t : Table) : Type 0 where
  pub seated : IsSeated t.pot_manager.player_total_bets (betting_players t)
  pub alive : Alive cards 1 t

-- The hand ends, and the chips at the table are all in the stacks.
abbrev pub Pays : ℕ → Option Table → Type 0
Pays chips o = (t' : Table) × (o ≡ some t') × (stacks t'.players ≡ chips)

active_players-is_empty :
    (players : List GamePlayer)
    → All IsShutOut players
    → 0 < still_in (map (λ (q : GamePlayer). q.player) players)
    → is_empty (filter (λ (p : GamePlayer). not p.folded && not p.disconnected) players) ≡ false
active_players-is_empty [] h k = absurd (omega arith)
active_players-is_empty (q ∷ players) h k = elim (Bool-cases q.folded) [
  | inl out ↦ ground (arith, out, active_players-is_empty players h.1)
  | inr playing ↦ ground (arith, playing, h.0)
]

List-cases {ℓ} :
    {A : Type ℓ} (xs : List A) → is_empty xs ≡ false → (x : A) × ((ys : List A) × (xs ≡ x ∷ ys))
List-cases [] h = absurd cc
List-cases (x ∷ xs) h = (x, (xs, refl))

award_pot-Pays : (cards : List Card) (t : Table) → InHand cards t → Pays (chips_at t) (award_pot t)
unfolding award_pot active_players
award_pot-Pays cards t h =
    let present = active_players-is_empty t.players h.alive.shut_out h.alive.somebody in
    let (w, (ws, e)) = List-cases (active_players t) present in
    let m =
      filter-Member (λ (p : GamePlayer). not p.folded && not p.disconnected) w t.players
        (subst (Member w) (sym e) (inl refl)) in
    (
      record t {
        players = pay_out w.id (get_total_pot t.pot_manager) t.players;
        pot_manager = cleared t.pot_manager;
      },
      rw (e, award_pot) refl,
      pay_out-stacks w.id (get_total_pot t.pot_manager) t.players (Member-includes w t.players m.0),
    )

showdown-Pays :
    (cards : List Card) (t : Table)
    → InHand cards t
    → 5 ≤ length cards
    → Pays (chips_at t) (showdown t)
unfolding active_players
showdown-Pays cards t h five =
    showdown-stacks t h.seated h.alive.filled
      (active_players-is_empty t.players h.alive.shut_out h.alive.somebody)
      (subst (λ (c : List Card). 5 ≤ length c) (sym h.alive.board) five)

pub award_or-Pays :
    (cards : List Card) (t : Table) (rest : Table → Option Table)
    → InHand cards t
    → Pays (chips_at t) (rest t)
    → Pays (chips_at t) (award_or rest t)
award_or-Pays cards t rest h k =
    if_cases (Pays (chips_at t)) (leb (length (active_players t)) 1) (award_pot t) (rest t)
      (award_pot-Pays cards t h) k

later_street-InHand :
    (engine : Engine) (more cards : List Card) (t : Table)
    → InHand cards t
    → (chips_at (later_street engine more t) ≡ chips_at t)
      × InHand (cards ++ more) (later_street engine more t)
unfolding later_street
later_street-InHand engine more cards t h =
    let t' : Table = record t { community_cards = t.community_cards ++ more } in
    let start = next_active_index t' t'.dealer_index in
    let none_bet : (i : ℕ) → lookup i [] ≤ 0 = λ i. omega arith in
    let alive : Alive (cards ++ more) 1 t' = record {
      shut_out = h.alive.shut_out;
      somebody = h.alive.somebody;
      board = ap (λ (c : List Card). c ++ more) h.alive.board;
      filled = h.alive.filled;
    } in
    let k = betting_round_loop-chips_at engine t' false start 0 [] h.seated none_bet in
    (
      k.0,
      record {
        seated = k.1;
        alive =
            betting_round_loop-Alive engine t' false start 0 [] h.seated none_bet (cards ++ more) 1
              alive;
      },
    )

length-take-drop {ℓ} :
    {A : Type ℓ} (n m : ℕ) (xs : List A) → n + m ≤ length xs → length (take n (drop m xs)) ≡ n
length-take-drop zero zero xs h = refl
length-take-drop (suc n) zero [] h = absurd (omega arith)
length-take-drop (suc n) zero (x ∷ xs) h = ap suc (length-take-drop n zero xs (omega arith))
length-take-drop zero (suc m) xs h = refl
length-take-drop (suc n) (suc m) [] h = absurd (omega arith)
length-take-drop (suc n) (suc m) (x ∷ xs) h = length-take-drop (suc n) m xs (omega arith)

-- A street, and the rest of the hand.
street_then :
    (engine : Engine) (more cards : List Card) (t : Table) (rest : Table → Option Table)
    → InHand cards t
    → ((u : Table) → InHand (cards ++ more) u → Pays (chips_at u) (rest u))
    → Pays (chips_at t) (award_or rest (later_street engine more t))
street_then engine more cards t rest h k =
    let (same, there) = later_street-InHand engine more cards t h in
    let u = later_street engine more t in
    subst (λ n. Pays n (award_or rest u)) same
      (award_or-Pays (cards ++ more) u rest there (k u there))

play_river-Pays :
    (engine : Engine) (deck cards : List Card) (t : Table)
    → InHand cards t
    → 4 ≤ length cards
    → 8 ≤ length deck
    → Pays (chips_at t) (play_river engine deck t)
unfolding play_river
play_river-Pays engine deck cards t h four deep =
    let more = take 1 (drop 7 deck) in
    street_then engine more cards t showdown h λ u there.
      showdown-Pays (cards ++ more) u there
        (omega (arith, length-append cards more, length-take-drop 1 7 deck deep))

play_turn-Pays :
    (engine : Engine) (deck cards : List Card) (t : Table)
    → InHand cards t
    → 3 ≤ length cards
    → 8 ≤ length deck
    → Pays (chips_at t) (play_turn engine deck t)
unfolding play_turn
play_turn-Pays engine deck cards t h three deep =
    let more = take 1 (drop 5 deck) in
    street_then engine more cards t (play_river engine deck) h λ u there.
      play_river-Pays engine deck (cards ++ more) u there
        (omega (arith, length-append cards more, length-take-drop 1 5 deck (omega arith))) deep

pub play_flop-Pays :
    (engine : Engine) (deck cards : List Card) (t : Table)
    → InHand cards t
    → 8 ≤ length deck
    → Pays (chips_at t) (play_flop engine deck t)
unfolding play_flop
play_flop-Pays engine deck cards t h deep =
    let more = take 3 (drop 1 deck) in
    street_then engine more cards t (play_turn engine deck) h λ u there.
      play_turn-Pays engine deck (cards ++ more) u there
        (omega (arith, length-append cards more, length-take-drop 3 1 deck (omega arith))) deep
