-- ===== src/Table/Showdown.antt =====
-- A showdown pays out the whole pot.
use servers_poker.Prelude.{
  ℕ, ◌+◌, ◌≤◌, ◌<◌, ◌≡◌, refl, ap, ◌∙◌, inl, inr, true, false, Option, some, List, [], ◌∷◌, ◌++◌,
  map, length, filter, includes, is_empty, ◌==◌, if◌then◌else◌, arith, All, All-append, All-map_of,
  All-filter, sum_by-append, length-append, Bool-cases,
}
use servers_poker.Betting.{Pot}
use servers_poker.Betting.Pots.{calculate_pots, get_total_pot}
use servers_poker.Betting.Pots.Conservation.{in_pots, IsSeated, calculate_pots-get_total_pot}
use servers_poker.HandEval.{Card}
use servers_poker.HandEval.Best.{Contender, Scored, determine_winners}
use servers_poker.HandEval.Chosen.{determine_winners_nonempty}
use servers_poker.Table.{Table, GamePlayer, betting_players}
use servers_poker.Table.Seats.{active_players}
use servers_poker.Table.Award.{
  cleared, Payment, shares_of, contender, pot_payments, all_payments, pay_all, showdown,
}
use servers_poker.Table.Payout.{
  seat_ids, stacks, paid, AreSeated, pay_all-stacks, shares_of-paid, shares_of-AreSeated,
}

-- The players are at the table.
abbrev AreAt : List ℕ → List GamePlayer → Type 0
AreAt seats = All (λ p. includes p.id seats ≡ true)

contenders-deep :
    (community_cards : List Card) (players : List GamePlayer)
    → 5 ≤ length community_cards
    → All (λ (q : Contender). 5 ≤ length (q.hole_cards ++ community_cards)) (map contender players)
contenders-deep community_cards [] h = tt
contenders-deep community_cards (p ∷ players) h = (
  omega (arith, length-append p.hole_cards community_cards),
  contenders-deep community_cards players h,
)

contenders-seated :
    (seats : List ℕ) (players : List GamePlayer) (id : ℕ)
    → AreAt seats players
    → includes id (map (λ (q : Contender). q.id) (map contender players)) ≡ true
    → includes id seats ≡ true
contenders-seated seats [] id h m = cc
contenders-seated seats (p ∷ players) id h m = elim (Bool-cases (id == p.id)) [
  | inl here ↦ ground (arith, h.0, here)
  | inr there ↦ contenders-seated seats players id h.1 (rw there at m)
]

-- Somebody among the players wins.
winners_at :
    (seats : List ℕ) (players : List GamePlayer) (community_cards : List Card)
    → is_empty players ≡ false
    → 5 ≤ length community_cards
    → AreAt seats players
    → (winners : List Scored) × (determine_winners (map contender players) community_cards
        ≡ some winners)
      × (is_empty winners ≡ false)
      × All (λ w. includes w.player_id seats ≡ true) winners
winners_at seats [] community_cards n h k = absurd (ground arith)
winners_at seats (p ∷ players) community_cards n h k =
    let (winners, e, some_one, known) =
      determine_winners_nonempty (contender p) (map contender players) community_cards
        (contenders-deep community_cards (p ∷ players) h) in
    (
      winners,
      e,
      some_one,
      All-map_of _ winners (λ w m. contenders-seated seats (p ∷ players) w.player_id k m) known,
    )

-- What the payments of some pots have to do.
abbrev Pays : List ℕ → ℕ → Option (List Payment) → Type 0
Pays seats amount result =
    (ps : List Payment) × (result ≡ some ps) × (paid ps ≡ amount) × AreSeated seats ps

pot_payments_of :
    (active : List GamePlayer) (community_cards : List Card) (pot : Pot) (e : List GamePlayer)
    → (if is_empty (filter (λ (p : GamePlayer). includes p.id pot.eligible_player_ids) active)
        then active
        else filter (λ (p : GamePlayer). includes p.id pot.eligible_player_ids) active)
      ≡ e
    → (winners : List Scored) → is_empty e ≡ false
    → determine_winners (map contender e) community_cards ≡ some winners
    → pot_payments active community_cards pot ≡ some (shares_of pot.amount winners)
unfolding pot_payments
pot_payments_of active community_cards pot e same winners n w = rw (same, n, w, pot_payments)

-- A pot goes to players at the table, all of it.
pot_payments-Pays :
    (seats : List ℕ) (active : List GamePlayer) (community_cards : List Card) (pot : Pot)
    → is_empty active ≡ false
    → 5 ≤ length community_cards
    → AreAt seats active
    → Pays seats pot.amount (pot_payments active community_cards pot)
pot_payments-Pays seats active community_cards pot n h k =
    let test = λ (p : GamePlayer). includes p.id pot.eligible_player_ids in
    elim (Bool-cases (is_empty (filter test active))) [
      | inl nobody ↦
          let (winners, w, some_one, known) = winners_at seats active community_cards n h k in
          (
            shares_of pot.amount winners,
            pot_payments_of active community_cards pot active (rw nobody) winners n w,
            shares_of-paid pot.amount winners some_one,
            shares_of-AreSeated pot.amount seats winners known,
          )
      | inr someone ↦
          let (winners, w, some_one, known) =
            winners_at seats (filter test active) community_cards someone h
              (All-filter _ test active k) in
          (
            shares_of pot.amount winners,
            pot_payments_of active community_cards pot (filter test active) (rw someone) winners
                someone w,
            shares_of-paid pot.amount winners some_one,
            shares_of-AreSeated pot.amount seats winners known,
          )
    ]

all_payments-Pays :
    (seats : List ℕ) (active : List GamePlayer) (community_cards : List Card) (pots : List Pot)
    → is_empty active ≡ false
    → 5 ≤ length community_cards
    → AreAt seats active
    → Pays seats (in_pots pots) (all_payments active community_cards pots)
unfolding all_payments
all_payments-Pays seats active community_cards [] n h k = ([], refl, refl, tt)
all_payments-Pays seats active community_cards (pot ∷ pots) n h k =
    let (here, e, worth, at) = pot_payments-Pays seats active community_cards pot n h k in
    let (later, f, more, rest) = all_payments-Pays seats active community_cards pots n h k in
    (
      here ++ later,
      rw (e, f, all_payments),
      omega (arith, sum_by-append (λ (p : Payment). p.amount) here later, worth, more),
      All-append _ here later at rest,
    )

AreAt-cons :
    (a : ℕ) (seats : List ℕ) (players : List GamePlayer)
    → AreAt seats players
    → AreAt (a ∷ seats) players
AreAt-cons a seats players = All-map_of _ players (λ p h. ground (arith, h))

pub AreAt-all : (players : List GamePlayer) → AreAt (seat_ids players) players
AreAt-all [] = tt
AreAt-all (p ∷ players) =
    (ground arith, AreAt-cons p.id (seat_ids players) players (AreAt-all players))

-- With a full board, somebody still in, chips in the pot, and totals of players at the table, whose
-- ids differ, `showdown` returns, and the stacks have grown by exactly the chips that were in the
-- pot.
pub showdown-stacks :
    (t : Table)
    → IsSeated t.pot_manager.player_total_bets (betting_players t)
    → 0 < get_total_pot t.pot_manager
    → is_empty (active_players t) ≡ false
    → 5 ≤ length t.community_cards
    → (t' : Table) × (showdown t ≡ some t')
      × (stacks t'.players ≡ stacks t.players + get_total_pot t.pot_manager)
unfolding showdown active_players
showdown-stacks t s pos n h =
    let m = calculate_pots t.pot_manager (betting_players t) in
    let (ps, e, worth, at) =
      all_payments-Pays (seat_ids t.players) (active_players t) t.community_cards m.pots n h
        (All-filter _ _ t.players (AreAt-all t.players)) in
    (
      record t { players = pay_all ps t.players; pot_manager = cleared m },
      rw (e, showdown),
      pay_all-stacks ps t.players at
          ∙ ap (◌+◌ (stacks t.players))
              (worth ∙ calculate_pots-get_total_pot t.pot_manager (betting_players t) s pos),
    )
