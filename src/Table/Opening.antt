-- ===== src/Table/Opening.antt =====
-- The opening of a hand: who is in does not change with the deal, the antes and the blinds, and a
-- whole hand keeps the chips.
use servers_poker.Prelude.{
  ℕ, ◌+◌, ◌≤◌, ◌≡◌, refl, sym, ap, ◌∙◌, subst, inl, inr, none, some, List, [], ◌∷◌, map, ltb, ◌==◌,
  arith, All, All-Member, Member, Bool-cases, Distinct,
}
use mathlib.Core.Option.{some-injective}
use servers_poker.Prelude.Dict.{lookup, insert}
use servers_poker.Betting.{Player}
use servers_poker.Betting.Pots.{add_bet}
use servers_poker.Betting.Pots.Conservation.{IsSeated}
use servers_poker.Betting.Round.Turns.{still_in}
use servers_poker.Table.{Table, GamePlayer, betting_players, put_player}
use servers_poker.Table.Seats.{next_active_index}
use servers_poker.Table.Hand.{Blinds, charge, at_most, pay_blinds}
use servers_poker.Table.Payout.{seat_ids}
use servers_poker.Table.Moves.{chips_at, Member-includes, put_player-seat_ids}
use servers_poker.Table.Forced.{at_most-le}
use servers_poker.Table.Blinds.{
  Covers, two_payments, put_player-Member, put_player-others, at_most-due, bets_bounded,
}
use servers_poker.Table.Alive.{IsShutOut, put_player-IsShutOut}

-- Who is in, before and after: the same number, and nobody who has left.
abbrev pub SameIn : List GamePlayer → List GamePlayer → Type 0
SameIn players players' =
    All IsShutOut players'
    × (still_in (map (λ (q : GamePlayer). q.player) players')
        ≡ still_in (map (λ (q : GamePlayer). q.player) players))

put_player-SameIn :
    (new : Player) (p : GamePlayer) (players : List GamePlayer)
    → Distinct (seat_ids players)
    → Member p players
    → new.id ≡ p.id
    → new.folded ≡ p.folded
    → still_in (map (λ (q : GamePlayer). q.player) (put_player new players))
      ≡ still_in (map (λ (q : GamePlayer). q.player) players)
unfolding put_player
put_player-SameIn new p [] u m e f = absurd m
put_player-SameIn new p (q ∷ players) u (inl s) e f =
    ground (arith, ap (λ (x : GamePlayer). x.id) s, ap (λ (x : GamePlayer). x.folded) s)
put_player-SameIn new p (q ∷ players) u (inr m) e f =
    ground (arith, put_player-SameIn new p players u.1 m e f, Member-includes p players m, u.0)

covered-SameIn :
    (players : List GamePlayer) (new : Player) (amount : ℕ)
    → Distinct (seat_ids players)
    → Covers players new amount
    → All IsShutOut players
    → SameIn players (put_player new players)
covered-SameIn players new amount u (p, e, m, c, f) h =
    let seat : IsShutOut p = All-Member IsShutOut p players h m in
    (
      put_player-IsShutOut new p players u m (sym e)
          (elim seat [ inl a ↦ inl a | inr b ↦ inr (f ∙ b) ]) h,
      put_player-SameIn new p players u m (sym e) f,
    )

-- What the blinds keep.
pub record Opens (t : Table) (b : Blinds) : Type 0 where
  pub chips : chips_at b.table ≡ chips_at t
  pub seated : IsSeated b.table.pot_manager.player_total_bets (betting_players b.table)
  pub bets : (i : ℕ) → lookup i b.bets ≤ b.table.big_blind
  pub same_in : SameIn t.players b.table.players
  pub board : b.table.community_cards ≡ t.community_cards

-- The blinds, paid by two seats or by one twice.
paid_blinds : Table → Player → Player → ℕ → ℕ → ℕ → ℕ → ℕ → Blinds
paid_blinds t new new' id id' amount amount' bb_index =
    let t' : Table = record t {
      players = put_player new' (put_player new t.players);
      pot_manager = add_bet (add_bet t.pot_manager id amount) id' amount';
    } in
    record {
      table = t';
      start_index = next_active_index t' bb_index;
      bets = insert id' amount' (insert id amount []);
    }

paid_blinds-Opens :
    (t : Table) (new new' : Player) (id id' amount amount' bb_index : ℕ)
    → new.id ≡ id
    → new'.id ≡ id'
    → IsSeated t.pot_manager.player_total_bets (betting_players t)
    → All IsShutOut t.players
    → Covers t.players new amount
    → Covers (put_player new t.players) new' amount'
    → amount ≤ t.big_blind
    → amount' ≤ t.big_blind
    → Opens t (paid_blinds t new new' id id' amount amount' bb_index)
unfolding paid_blinds
paid_blinds-Opens t new new' id id' amount amount' bb_index e e' s h c c' low low' =
    let k = two_payments t new new' id id' amount amount' e e' s c c' in
    let first = covered-SameIn t.players new amount s.distinct_ids c h in
    let u = subst (λ i. Distinct i) (sym (put_player-seat_ids new t.players)) s.distinct_ids in
    let second = covered-SameIn (put_player new t.players) new' amount' u c' first.0 in
    record {
      chips = k.0;
      seated = k.1;
      bets = λ i. bets_bounded amount amount' t.big_blind id id' i low low';
      same_in = (second.0, second.1 ∙ first.1);
      board = refl;
    }

pub pay_blinds-Opens :
    (t : Table) (sb bb : GamePlayer) (bb_index : ℕ) (b : Blinds)
    → IsSeated t.pot_manager.player_total_bets (betting_players t)
    → All IsShutOut t.players
    → Member sb t.players
    → Member bb t.players
    → t.small_blind ≤ t.big_blind
    → pay_blinds t sb bb bb_index ≡ some b
    → Opens t b
unfolding pay_blinds paid_blinds
pay_blinds-Opens t sb bb bb_index b s h ms mb small e =
    let sb_amt = at_most sb.chips t.small_blind in
    let bb_amt = at_most bb.chips t.big_blind in
    let sb_le = at_most-le sb.chips t.small_blind in
    let bb_le = at_most-le bb.chips t.big_blind in
    let sb_due : sb_amt ≤ t.big_blind = omega (arith, at_most-due sb.chips t.small_blind, small) in
    let bb_due = at_most-due bb.chips t.big_blind in
    let sb' = charge sb.player sb_amt in
    let c : Covers t.players sb' sb_amt = (sb, refl, ms, omega arith, refl) in
    elim (Bool-cases (sb.id == bb.id)) [
      | inr differ ↦
          let bb' = charge bb.player bb_amt in
          let c' : Covers (put_player sb' t.players) bb' bb_amt =
            (bb, refl, put_player-others sb' bb t.players mb differ, omega arith, refl) in
          subst (Opens t) (some-injective _ _ (rw differ at e)) (
            paid_blinds-Opens t sb' bb' sb.id bb.id sb_amt bb_amt bb_index refl refl s h c c' sb_due
              bb_due)
      | inl one ↦ elim (Bool-cases (ltb sb.chips (sb_amt + bb_amt))) [
        | inl over ↦ absurd (nothing (rw (one, over) at e))
        | inr enough ↦
            let bb' = charge sb' bb_amt in
            let (q, g, m) = put_player-Member sb' sb t.players ms refl in
            let c' : Covers (put_player sb' t.players) bb' bb_amt = (
              q,
              ap (λ (x : Player). x.id) g,
              m,
              ground (arith, ap (λ (x : Player). x.chips) g, enough),
              sym (ap (λ (x : Player). x.folded) g),
            ) in
            subst (Opens t) (some-injective _ _ (rw (one, enough) at e)) (
              paid_blinds-Opens t sb' bb' sb.id bb.id sb_amt bb_amt bb_index refl
                (ground (arith, one)) s h c c' sb_due bb_due)
      ]
    ]
  where
    nothing : none ≡ some b → ⊥
    nothing k = cc
