-- ===== src/Table/Deals.antt =====
-- The reset, the deal and the antes of a hand, and who is in after them.
use servers_poker.Prelude.{
  ℕ, ◌+◌, ◌*◌, ◌≤◌, ◌≡◌, refl, ap, ◌∙◌, ◌⊎◌, inl, inr, false, List, [], ◌∷◌, length, map, drop,
  take, ltb, if◌then◌else◌, arith, All, if_cases,
}
use servers_poker.Betting.Pots.{PotManager, add_bet}
use servers_poker.HandEval.{Card}
use servers_poker.Table.{Table, GamePlayer, eliminated}
use servers_poker.Table.Hand.{charge, at_most, post_ante_loop, post_antes, reset_player, deal}
use servers_poker.Table.Payout.{seat_ids, stacks}
use servers_poker.Table.Alive.{IsShutOut}
use servers_poker.Table.Opening.{SameIn}

-- A player has left exactly when he is eliminated: one half of it.
abbrev pub IsMarked : GamePlayer → Type 0
IsMarked p = (p.disconnected ≡ false) ⊎ (p.seat_status ≡ eliminated)

reset_player-IsShutOut : (p : GamePlayer) → IsMarked p → IsShutOut (reset_player p)
unfolding reset_player
reset_player-IsShutOut p (inl here) = inl here
reset_player-IsShutOut p (inr gone) = inr (rw gone (ground arith))

pub resets-IsShutOut :
    (players : List GamePlayer) → All IsMarked players → All IsShutOut (map reset_player players)
resets-IsShutOut [] h = tt
resets-IsShutOut (p ∷ players) h = (reset_player-IsShutOut p h.0, resets-IsShutOut players h.1)

pub resets-stacks : (players : List GamePlayer) → stacks (map reset_player players) ≡ stacks players
unfolding reset_player
resets-stacks [] = refl
resets-stacks (p ∷ players) = omega (arith, resets-stacks players)

pub resets-seat_ids :
    (players : List GamePlayer) → seat_ids (map reset_player players) ≡ seat_ids players
unfolding reset_player
resets-seat_ids [] = refl
resets-seat_ids (p ∷ players) = ap (λ l. p.id ∷ l) (resets-seat_ids players)

-- The deal changes the cards only.
pub deal-players :
    (deck : List Card) (players : List GamePlayer)
    → map (λ (q : GamePlayer). q.player) (deal deck players).0
      ≡ map (λ (q : GamePlayer). q.player) players
unfolding deal
deal-players deck [] = refl
deal-players deck (p ∷ players) =
    let deck' : List Card = if p.folded then deck else drop 2 deck in
    let head : (if p.folded then p else record p { hole_cards = take 2 deck }).player ≡ p.player =
      if_cases (λ (q : GamePlayer). q.player ≡ p.player) p.folded _ _ refl refl in
    ap (λ l. (if p.folded then p else record p { hole_cards = take 2 deck }).player ∷ l)
      (deal-players deck' players)
    ∙ ap (λ x. x ∷ map (λ (q : GamePlayer). q.player) players) head

pub deal-IsShutOut :
    (deck : List Card) (players : List GamePlayer)
    → All IsShutOut players
    → All IsShutOut (deal deck players).0
unfolding deal
deal-IsShutOut deck [] h = tt
deal-IsShutOut deck (p ∷ players) h =
    let deck' : List Card = if p.folded then deck else drop 2 deck in
    (
      if_cases IsShutOut p.folded p (record p { hole_cards = take 2 deck }) h.0 h.0,
      deal-IsShutOut deck' players h.1,
    )

length-drop_two : (deck : List Card) → length deck ≤ length (drop 2 deck) + 2
length-drop_two [] = omega arith
length-drop_two (c ∷ []) = omega arith
length-drop_two (c ∷ d ∷ deck) = omega arith

pub deal-length :
    (deck : List Card) (players : List GamePlayer)
    → length deck ≤ length (deal deck players).1 + 2 * length players
unfolding deal
deal-length deck [] = omega arith
deal-length deck (p ∷ players) =
    let deck' : List Card = if p.folded then deck else drop 2 deck in
    let left : length deck ≤ length deck' + 2 =
      if_cases (λ (d : List Card). length deck ≤ length d + 2) p.folded deck (drop 2 deck)
        (omega arith) (length-drop_two deck) in
    omega (arith, deal-length deck' players, left)

post_ante_loop-SameIn :
    (ante : ℕ) (players : List GamePlayer) (m : PotManager)
    → All IsShutOut players
    → SameIn players (post_ante_loop ante players m).0
unfolding post_ante_loop
post_ante_loop-SameIn ante [] m h = (tt, refl)
post_ante_loop-SameIn ante (p ∷ players) m h =
    let amount = at_most p.chips ante in
    let m' : PotManager = if p.folded then m else add_bet m p.id amount in
    let k = post_ante_loop-SameIn ante players m' h.1 in
    (
      (if_cases IsShutOut p.folded p (record p { player = charge p.player amount }) h.0 h.0, k.0),
      ground (arith, k.1),
    )

pub post_antes-SameIn :
    (t : Table) → All IsShutOut t.players → SameIn t.players (post_antes t).players
unfolding post_antes
post_antes-SameIn t h =
    if_cases (λ (u : Table). SameIn t.players u.players) (ltb 0 t.ante) _ t
      (post_ante_loop-SameIn t.ante t.players t.pot_manager h) (h, refl)

pub post_antes-board : (t : Table) → (post_antes t).community_cards ≡ t.community_cards
unfolding post_antes
post_antes-board t =
    if_cases (λ (u : Table). u.community_cards ≡ t.community_cards) (ltb 0 t.ante) _ t refl refl

pub post_antes-blinds :
    (t : Table)
    → ((post_antes t).small_blind ≡ t.small_blind) × ((post_antes t).big_blind ≡ t.big_blind)
unfolding post_antes
post_antes-blinds t =
    if_cases (λ (u : Table). (u.small_blind ≡ t.small_blind) × (u.big_blind ≡ t.big_blind))
      (ltb 0 t.ante) _ t (refl, refl) (refl, refl)
