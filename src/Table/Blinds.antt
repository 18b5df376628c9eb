-- ===== src/Table/Blinds.antt =====
-- The blinds move chips from the stacks to the pot.
use servers_poker.Prelude.{
  ℕ, ◌+◌, ◌≤◌, ◌≡◌, ◌∙◌, refl, sym, ap, subst, true, false, some, List, [], ◌∷◌, map, includes,
  Distinct, Member, arith, ◌==◌, Bool-cases, inl, inr,
}
use servers_poker.Prelude.Dict.{lookup, insert, lookup-insert}
use servers_poker.Betting.{Player}
use servers_poker.Betting.Pots.{add_bet, get_total_pot}
use servers_poker.Betting.Pots.Conservation.{IsSeated}
use servers_poker.Betting.Pots.Seated.{add_bet-IsSeated, get_total_pot-add_bet}
use servers_poker.Table.{Table, GamePlayer, betting_players, put_player}
use servers_poker.Table.Seats.{next_active_index}
use servers_poker.Table.Hand.{Blinds, charge, at_most, pay_blinds}
use servers_poker.Table.Payout.{seat_ids, stacks}
use servers_poker.Table.Moves.{chips_at, Member-includes, put_player-stacks, put_player-seat_ids}
use servers_poker.Table.Forced.{same_ids, at_most-le}

pub put_player-Member :
    (new : Player) (p : GamePlayer) (players : List GamePlayer)
    → Member p players
    → new.id ≡ p.id
    → (q : GamePlayer) × (q.player ≡ new) × Member q (put_player new players)
unfolding put_player
put_player-Member new p [] m e = absurd m
put_player-Member new p (q ∷ players) m e = elim (Bool-cases (new.id == q.id)) [
  | inl here ↦ rw here (record q { player = new }, refl, inl refl)
  | inr there ↦ rw there (elim m [
    | inl s ↦ absurd (ground (arith, there, e, ap (λ (x : GamePlayer). x.id) s))
    | inr k ↦ let (x, g, n) = put_player-Member new p players k e in (x, g, inr n)
  ])
]

pub put_player-others :
    (new : Player) (p : GamePlayer) (players : List GamePlayer)
    → Member p players
    → (new.id == p.id) ≡ false
    → Member p (put_player new players)
unfolding put_player
put_player-others new p [] m e = m
put_player-others new p (q ∷ players) m e = elim (Bool-cases (new.id == q.id)) [
  | inl here ↦ rw here (elim m [
    | inl s ↦ absurd (ground (arith, here, e, ap (λ (x : GamePlayer). x.id) s))
    | inr k ↦ inr k
  ])
  | inr there ↦
      rw there (elim m [ inl s ↦ inl s | inr k ↦ inr (put_player-others new p players k e) ])
]

-- A player at the table turns into `new` by paying `amount`.
abbrev pub Covers : List GamePlayer → Player → ℕ → Type 0
Covers players new amount =
    (p : GamePlayer) × (p.id ≡ new.id)
    × Member p players
    × (new.chips + amount ≡ p.chips)
    × (new.folded ≡ p.folded)

covered-stacks :
    (players : List GamePlayer) (new : Player) (amount : ℕ)
    → Distinct (seat_ids players)
    → Covers players new amount
    → stacks (put_player new players) + amount ≡ stacks players
covered-stacks players new amount d (p, e, m, c, f) =
    omega (arith, put_player-stacks new p players d m (sym e), c)

-- Two players pay, or one player twice.
pub two_payments :
    (t : Table) (new new' : Player) (id id' amount amount' : ℕ)
    → new.id ≡ id
    → new'.id ≡ id'
    → IsSeated t.pot_manager.player_total_bets (betting_players t)
    → Covers t.players new amount
    → Covers (put_player new t.players) new' amount'
    → let m = add_bet (add_bet t.pot_manager id amount) id' amount' in
      let players = put_player new' (put_player new t.players) in
      (stacks players + get_total_pot m ≡ chips_at t)
      × IsSeated m.player_total_bets (map (λ p. p.player) players)
two_payments t new new' id id' amount amount' e e' s c c' =
    let players1 = put_player new t.players in
    let players2 = put_player new' players1 in
    let m1 = add_bet t.pot_manager id amount in
    let same1 = put_player-seat_ids new t.players in
    let same2 = put_player-seat_ids new' players1 in
    let d1 = subst (λ i. Distinct i) (sym same1) s.distinct_ids in
    let known : includes id (seat_ids t.players) ≡ true =
      subst (λ i. includes i (seat_ids t.players) ≡ true) (c.1 ∙ e)
        (Member-includes c.0 t.players c.2) in
    let known' : includes id' (seat_ids players1) ≡ true =
      subst (λ i. includes i (seat_ids players1) ≡ true) (c'.1 ∙ e')
        (Member-includes c'.0 players1 c'.2) in
    let s1 = add_bet-IsSeated t.pot_manager (betting_players t) id amount known s in
    let s1' =
      same_ids _ (betting_players t) (map (λ (p : GamePlayer). p.player) players1) (sym same1) s1 in
    let s2 =
      add_bet-IsSeated m1 (map (λ (p : GamePlayer). p.player) players1) id' amount' known' s1' in
    (
      omega (
        arith,
        covered-stacks t.players new amount s.distinct_ids c,
        covered-stacks players1 new' amount' d1 c',
        get_total_pot-add_bet t.pot_manager id amount,
        get_total_pot-add_bet m1 id' amount',
      ),
      same_ids _ (map (λ (p : GamePlayer). p.player) players1)
          (map (λ (p : GamePlayer). p.player) players2) (sym same2) s2,
    )

pub at_most-due : (chips due : ℕ) → at_most chips due ≤ due
at_most-due chips due = ground arith

pub bets_bounded :
    (small big limit sb bb i : ℕ)
    → small ≤ limit
    → big ≤ limit
    → lookup i (insert bb big (insert sb small [])) ≤ limit
bets_bounded small big limit sb bb i h k =
    ground (arith, h, k, lookup-insert i bb big (insert sb small []), lookup-insert i sb small [])

-- Where the totals are of players at the table, whose ids differ, and the small blind is not above
-- the big one, two different players at the table can always pay the blinds: the chips at the
-- table, in the stacks and in the pot, stay as many as they were, the totals stay those of players
-- at the table, and no bet exceeds the big blind.
pub pay_blinds-chips_at :
    (t : Table) (sb bb : GamePlayer) (bb_index : ℕ)
    → IsSeated t.pot_manager.player_total_bets (betting_players t)
    → Member sb t.players
    → Member bb t.players
    → (sb.id == bb.id) ≡ false
    → t.small_blind ≤ t.big_blind
    → (b : Blinds) × (pay_blinds t sb bb bb_index ≡ some b)
      × (chips_at b.table ≡ chips_at t)
      × IsSeated b.table.pot_manager.player_total_bets (betting_players b.table)
      × ((i : ℕ) → lookup i b.bets ≤ t.big_blind)
unfolding pay_blinds
pay_blinds-chips_at t sb bb bb_index s ms mb differ small =
    let sb_amt = at_most sb.chips t.small_blind in
    let bb_amt = at_most bb.chips t.big_blind in
    let sb_le = at_most-le sb.chips t.small_blind in
    let bb_le = at_most-le bb.chips t.big_blind in
    let sb' = charge sb.player sb_amt in
    let bb' = charge bb.player bb_amt in
    let c : Covers t.players sb' sb_amt = (sb, refl, ms, omega arith, refl) in
    let c' : Covers (put_player sb' t.players) bb' bb_amt =
      (bb, refl, put_player-others sb' bb t.players mb differ, omega arith, refl) in
    let k = two_payments t sb' bb' sb.id bb.id sb_amt bb_amt refl refl s c c' in
    let small_due = at_most-due sb.chips t.small_blind in
    let t' : Table = record t {
      players = put_player bb' (put_player sb' t.players);
      pot_manager = add_bet (add_bet t.pot_manager sb.id sb_amt) bb.id bb_amt;
    } in
    (
      record {
        table = t';
        start_index = next_active_index t' bb_index;
        bets = insert bb.id bb_amt (insert sb.id sb_amt []);
      },
      rw (differ, pay_blinds) refl,
      k.0,
      k.1,
      λ i.
          bets_bounded sb_amt bb_amt t.big_blind sb.id bb.id i (omega (arith, small_due, small))
            (at_most-due bb.chips t.big_blind),
    )
