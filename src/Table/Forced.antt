-- ===== src/Table/Forced.antt =====
-- The antes move chips from the stacks to the pot.
use servers_poker.Prelude.{
  ℕ, ◌+◌, ◌≤◌, ◌≡◌, refl, sym, ap, subst, true, List, [], ◌∷◌, includes, All, Distinct, arith, ltb,
  Bool-cases, inl, inr, if_cases,
}
use servers_poker.Prelude.Dict.{Dict}
use servers_poker.Betting.{Player}
use servers_poker.Betting.Pots.{PotManager, add_bet, get_total_pot}
use servers_poker.Betting.Pots.Conservation.{IsSeated, ids, keys}
use servers_poker.Betting.Pots.Seated.{add_bet-IsSeated, get_total_pot-add_bet}
use servers_poker.Table.{Table, GamePlayer, betting_players}
use servers_poker.Table.Hand.{post_ante_loop, post_antes, at_most}
use servers_poker.Table.Payout.{seat_ids, stacks}
use servers_poker.Table.Moves.{chips_at}
use servers_poker.Table.Showdown.{AreAt-all}

-- Only the ids of the players count.
pub same_ids : (d : Dict) (a b : List Player) → ids a ≡ ids b → IsSeated d a → IsSeated d b
same_ids d a b e s = record {
  distinct_keys = s.distinct_keys;
  distinct_ids = subst (λ i. Distinct i) e s.distinct_ids;
  known = subst (λ i. All (λ k. includes k i ≡ true) (keys d)) e s.known;
}

pub at_most-le : (chips due : ℕ) → at_most chips due ≤ chips
at_most-le chips due = ground arith

-- The antes of some of the players of a table.
post_ante_loop-stacks :
    (ante : ℕ) (all : List Player) (players : List GamePlayer) (m : PotManager)
    → IsSeated m.player_total_bets all
    → All (λ p. includes p.id (ids all) ≡ true) players
    → let o = post_ante_loop ante players m in
      (stacks o.0 + get_total_pot o.1 ≡ stacks players + get_total_pot m)
      × IsSeated o.1.player_total_bets all
      × (seat_ids o.0 ≡ seat_ids players)
unfolding post_ante_loop
post_ante_loop-stacks ante all [] m s h = (refl, s, refl)
post_ante_loop-stacks ante all (p ∷ players) m s h = elim (Bool-cases p.folded) [
  | inl out ↦
      let k = post_ante_loop-stacks ante all players m s h.1 in
      rw out (omega (arith, k.0), k.1, ap (λ i. p.id ∷ i) k.2)
  | inr in_hand ↦
      let amount = at_most p.chips ante in
      let m' = add_bet m p.id amount in
      let k =
        post_ante_loop-stacks ante all players m' (add_bet-IsSeated m all p.id amount h.0 s) h.1 in
      rw in_hand (
        omega (arith, k.0, get_total_pot-add_bet m p.id amount, at_most-le p.chips ante),
        k.1,
        ap (λ i. p.id ∷ i) k.2,
      )
]

-- Where the totals are of players at the table, whose ids differ, the antes leave the chips at the
-- table, in the stacks and in the pot, as many as they were, and the totals those of players at the
-- table.
pub post_antes-chips_at :
    (t : Table)
    → IsSeated t.pot_manager.player_total_bets (betting_players t)
    → (chips_at (post_antes t) ≡ chips_at t)
      × IsSeated (post_antes t).pot_manager.player_total_bets (betting_players (post_antes t))
unfolding post_antes
post_antes-chips_at t s =
    let k =
      post_ante_loop-stacks t.ante (betting_players t) t.players t.pot_manager s
        (AreAt-all t.players) in
    let P = λ (u : Table).
      (chips_at u ≡ chips_at t) × IsSeated u.pot_manager.player_total_bets (betting_players u) in
    if_cases P (ltb 0 t.ante) _ t (k.0, same_ids _ (betting_players t) _ (sym k.2) k.1) (refl, s)
