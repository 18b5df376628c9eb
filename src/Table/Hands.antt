-- ===== src/Table/Hands.antt =====
-- A whole hand returns, and keeps the chips.
use servers_poker.Prelude.{
  ℕ, ◌+◌, ◌*◌, ◌≤◌, ◌<◌, ◌≡◌, sym, ap, ◌∙◌, subst, inl, inr, true, none, some, List, [], length,
  map, ◌==◌, if◌then◌else◌, arith, All, sum_by, length-map, Option-cases, get_elem?, Distinct,
}
use servers_poker.Betting.{Player}
use servers_poker.Betting.Pots.{get_total_pot}
use servers_poker.Betting.Pots.Conservation.{IsSeated}
use servers_poker.Betting.Round.Turns.{still_in}
use servers_poker.HandEval.{Card}
use servers_poker.Table.{Table, betting_players}
use servers_poker.Table.Seats.{active_players, next_active_index}
use servers_poker.Table.Street.{Engine, betting_round_loop}
use servers_poker.Table.Hand.{
  Blinds, post_blinds, post_antes, reset_player, reset_hand, deal, play_hand, play_flop, award_or,
}
use servers_poker.Table.Payout.{seat_ids, stacks}
use servers_poker.Table.Moves.{chips_at, stacks-map}
use servers_poker.Table.Rounds.{betting_round_loop-chips_at, get_elem?-Member}
use servers_poker.Table.Forced.{post_antes-chips_at}
use servers_poker.Table.Alive.{Alive, IsShutOut}
use servers_poker.Table.Survivor.{betting_round_loop-Alive}
use servers_poker.Table.Whole.{InHand, Pays, award_or-Pays, play_flop-Pays}
use servers_poker.Table.Opening.{SameIn, Opens, pay_blinds-Opens}
use servers_poker.Table.Deals.{
  IsMarked, resets-IsShutOut, resets-stacks, resets-seat_ids, deal-players, deal-IsShutOut,
  deal-length, post_antes-SameIn, post_antes-board, post_antes-blinds,
}

-- The table when the blinds are due.
abbrev pub opening : List Card → Table → Table
opening deck t =
    let fresh = reset_hand t in post_antes (record fresh { players = (deal deck fresh.players).0 })

post_blinds-Opens :
    (t : Table) (b : Blinds)
    → IsSeated t.pot_manager.player_total_bets (betting_players t)
    → All IsShutOut t.players
    → t.small_blind ≤ t.big_blind
    → post_blinds t ≡ some b
    → Opens t b
unfolding post_blinds
post_blinds-Opens t b s h small e =
    let sb_index : ℕ =
      if length (active_players t) == 2
      then t.dealer_index
      else next_active_index t t.dealer_index in
    let bb_index = next_active_index t sb_index in
    elim (Option-cases (get_elem? t.players sb_index)) [
      | inl missing ↦ absurd (nothing (rw (missing, post_blinds) at e))
      | inr (sb, f) ↦ elim (Option-cases (get_elem? t.players bb_index)) [
        | inl missing ↦ absurd (nothing (rw (f, missing, post_blinds) at e))
        | inr (bb, g) ↦
            pay_blinds-Opens t sb bb bb_index b s h (get_elem?-Member t.players sb_index sb f)
              (get_elem?-Member t.players bb_index bb g) small (rw (f, g, post_blinds) at e)
      ]
    ]
  where
    nothing : none ≡ some b → ⊥
    nothing k = cc

opening-blinds :
    (deck : List Card) (t : Table)
    → t.small_blind ≤ t.big_blind
    → (opening deck t).small_blind ≤ (opening deck t).big_blind
unfolding reset_hand
opening-blinds deck t h =
    let fresh = reset_hand t in
    let k = post_antes-blinds (record fresh { players = (deal deck fresh.players).0 }) in
    omega (arith, k.0, k.1, h)

-- What holds when the blinds are due.
opening-ready :
    (deck : List Card) (t : Table)
    → Distinct (seat_ids t.players)
    → All IsMarked t.players
    → (chips_at (opening deck t) ≡ stacks t.players)
      × IsSeated (opening deck t).pot_manager.player_total_bets (betting_players (opening deck t))
      × SameIn (reset_hand t).players (opening deck t).players
      × ((opening deck t).community_cards ≡ [])
unfolding reset_hand post_antes get_total_pot
opening-ready deck t u marked =
    let fresh = reset_hand t in
    let dealt : Table = record fresh { players = (deal deck fresh.players).0 } in
    let same = deal-players deck fresh.players in
    let ids_same : seat_ids dealt.players ≡ seat_ids t.players =
      ap (map (λ (q : Player). q.id)) same ∙ resets-seat_ids t.players in
    let s : IsSeated dealt.pot_manager.player_total_bets (betting_players dealt) = record {
      distinct_keys = tt;
      distinct_ids = subst (λ i. Distinct i) (sym ids_same) u;
      known = tt;
    } in
    let k = post_antes-chips_at dealt s in
    let shut = deal-IsShutOut deck fresh.players (resets-IsShutOut t.players marked) in
    let in_dealt = post_antes-SameIn dealt shut in
    (
      omega (
        arith,
        k.0,
        stacks-map dealt.players,
        stacks-map fresh.players,
        resets-stacks t.players,
        ap (sum_by (λ (q : Player). q.chips)) same,
      ),
      k.1,
      (in_dealt.0, in_dealt.1 ∙ ap still_in same),
      post_antes-board dealt,
    )

-- Where ids differ, only eliminated players have left, the small blind is not above the big one, and
-- the deck has two cards for each player and eight more, then a hand in which the blinds can be
-- posted, chips are in the pot and somebody is in returns, whatever the strategies decide; and the
-- stacks hold as many chips as before it.
pub play_hand-Pays :
    (engine : Engine) (deck : List Card) (t : Table) (b : Blinds)
    → Distinct (seat_ids t.players)
    → All IsMarked t.players
    → t.small_blind ≤ t.big_blind
    → 8 + 2 * length t.players ≤ length deck
    → 0 < still_in (betting_players (reset_hand t))
    → post_blinds (opening deck t) ≡ some b
    → 0 < get_total_pot b.table.pot_manager
    → Pays (stacks t.players) (play_hand engine deck t)
unfolding play_hand reset_hand
play_hand-Pays engine deck t b u marked small deep somebody posted filled =
    let fresh = reset_hand t in
    let (chips, seated, same_in, board) = opening-ready deck t u marked in
    let o =
      post_blinds-Opens (opening deck t) b seated same_in.0 (opening-blinds deck t small) posted in
    let alive : Alive [] 1 b.table = record {
      shut_out = o.same_in.0;
      somebody = omega (arith, o.same_in.1, same_in.1, somebody);
      board = o.board ∙ board;
      filled = filled;
    } in
    let rest = (deal deck fresh.players).1 in
    let rest_deep : 8 ≤ length rest =
      omega (arith, deal-length deck fresh.players, deep, length-map reset_player t.players) in
    let after = betting_round_loop engine b.table true b.start_index b.table.big_blind b.bets in
    let (same, seated') =
      betting_round_loop-chips_at engine b.table true b.start_index b.table.big_blind b.bets
        o.seated o.bets in
    let there : InHand [] after = record {
      seated = seated';
      alive =
          betting_round_loop-Alive engine b.table true b.start_index b.table.big_blind b.bets
            o.seated o.bets [] 1 alive;
    } in
    let paid =
      award_or-Pays [] after (play_flop engine rest) there
        (play_flop-Pays engine rest [] after there rest_deep) in
    rw (posted, play_hand)
      (subst (λ n. Pays n (award_or (play_flop engine rest) after)) (same ∙ o.chips ∙ chips) paid)
