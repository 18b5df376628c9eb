-- ===== src/Betting/Round/Limits.antt =====
-- The limits of a betting round: no bet exceeds the current one, no action costs more than the
-- player has, and raises keep to the minimum.
use servers_poker.Prelude.{
  ℕ, ◌+◌, ◌-◌, ◌≤◌, ◌<◌, ◌≡◌, inl, inr, false, arith, if◌then◌else◌, ltb, Bool-cases,
}
use servers_poker.Prelude.Int.{ℤ, pos, negsuc, sub_ℕ, ◌+ℤ◌, ◌-ℤ◌, ltb_ℤ, leb_ℤ, ◌≤ℤ◌}
use servers_poker.Prelude.Dict.{lookup, insert, lookup-insert}
use servers_poker.Betting.{Player, big_min}
use servers_poker.Betting.Round.{
  BettingRound, Action, ActionError, Outcome, to_call_of, apply_fold, apply_check, apply_call,
  record_raise, commit_raise, apply_action, refuse,
}
use servers_poker.Betting.Round.Actions.{raise_cases, action_cases}

-- No bet exceeds the current one, and the minimum raise is at least the big blind.
pub record IsBounded (r : BettingRound) : Type 0 where
  pub bets : (i : ℕ) → lookup i r.bets_this_round ≤ r.current_max_bet
  pub delta : r.big_blind ≤ r.last_raise_delta

-- The round is bounded, and what the player pays is not negative and not more than he has.
pub record IsFair (p : Player) (o : Outcome) : Type 0 where
  pub bounded : IsBounded o.0
  pub paid : pos 0 ≤ℤ o.2.amount_added
  pub afforded : o.2.amount_added ≤ℤ pos p.chips

refuse-IsFair :
    (r : BettingRound) (p : Player) (e : ActionError) → IsBounded r → IsFair p (refuse r p e)
refuse-IsFair r p e b = record { bounded = b; paid = omega arith; afforded = omega arith }

apply_fold-IsFair : (r : BettingRound) (p : Player) → IsBounded r → IsFair p (apply_fold r p)
unfolding apply_fold
apply_fold-IsFair r p b = record {
  bounded = record { bets = b.bets; delta = b.delta };
  paid = omega arith;
  afforded = omega arith;
}

apply_check-IsFair : (r : BettingRound) (p : Player) → IsBounded r → IsFair p (apply_check r p)
unfolding apply_check
apply_check-IsFair r p b = elim (Bool-cases (ltb_ℤ (pos 0) (to_call_of r p))) [
  | inl owes ↦ rw owes (record { bounded = b; paid = omega arith; afforded = omega arith })
  | inr even ↦ rw even (record {
    bounded = record { bets = b.bets; delta = b.delta };
    paid = omega arith;
    afforded = omega arith;
  })
]

-- What a player owes who has bet no more than the current bet.
pub owed : (max already : ℕ) → already ≤ max → sub_ℕ max already ≡ pos (max - already)
owed max already h = ground arith

pub call_amount : (a b : ℕ) → big_min (pos a) (pos b) ≡ pos (if ltb a b then a else b)
call_amount a b = ground arith

apply_call-IsFair : (r : BettingRound) (p : Player) → IsBounded r → IsFair p (apply_call r p)
unfolding apply_call
apply_call-IsFair r p b =
    let already = lookup p.id r.bets_this_round in
    let bound = b.bets p.id in
    let due = owed r.current_max_bet already bound in
    let amount = call_amount (r.current_max_bet - already) p.chips in
    rw (due, amount)
      (record {
        bounded = record {
          bets = λ i. ground (
            arith,
            b.bets i,
            lookup-insert i p.id
                (already
                  + (if ltb (r.current_max_bet - already) p.chips
                      then r.current_max_bet - already
                      else p.chips))
                r.bets_this_round,
          );
          delta = b.delta;
        };
        paid = omega arith;
        afforded = ground arith;
      })

record_raise-IsBounded :
    (r : BettingRound) (p : Player) (new_bet : ℕ)
    → ((i : ℕ)
        → lookup i r.bets_this_round
          ≤ (if ltb r.current_max_bet new_bet then new_bet else r.current_max_bet))
    → r.big_blind ≤ r.last_raise_delta
    → IsBounded (record_raise r p new_bet)
unfolding record_raise
record_raise-IsBounded r p new_bet h d = record {
  bets = λ i. ground (arith, h i);
  delta = ground arith;
}

-- The cost of a raise above the current bet.
pub raise_cost :
    (max already : ℕ) (raise_by : ℤ)
    → already ≤ max
    → leb_ℤ raise_by (pos 0) ≡ false
    → (n : ℕ) × (pos already +ℤ sub_ℕ max already +ℤ raise_by -ℤ pos already ≡ pos n)
      × (max < already + n)
      × (pos already +ℤ sub_ℕ max already +ℤ raise_by ≡ pos (already + n))
raise_cost max already (pos k) h good =
    (max - already + k, ground arith, ground arith, ground arith)
raise_cost max already (negsuc k) h good = absurd (ground arith)

commit_raise-IsFair :
    (r : BettingRound) (p : Player) (n : ℕ) → IsBounded r → IsFair p (commit_raise r p (pos n))
unfolding commit_raise
commit_raise-IsFair r p n b =
    let already = lookup p.id r.bets_this_round in
    let amount : ℕ = if ltb n p.chips then n else p.chips in
    let staked : BettingRound = record r {
      bets_this_round = insert p.id (already + amount) r.bets_this_round;
    } in
    let raised =
      record_raise-IsBounded staked p (already + amount)
        (λ i. ground (arith, b.bets i, lookup-insert i p.id (already + amount) r.bets_this_round))
        b.delta in
    rw (call_amount n p.chips) (record {
      bounded = record { bets = raised.bets; delta = raised.delta };
      paid = omega arith;
      afforded = ground arith;
    })

-- Every action keeps a bounded round bounded, refunds nothing and costs at most the player's
-- chips.
pub apply_action-IsFair :
    (r : BettingRound) (p : Player) (a : Action) → IsBounded r → IsFair p (apply_action r p a)
apply_action-IsFair r p a b =
    action_cases (IsFair p) r p a (apply_fold-IsFair r p b) (apply_check-IsFair r p b)
      (apply_call-IsFair r p b)
      (raise_cases (IsFair p) r p a.amount (λ e. refuse-IsFair r p e b)
        λ raise_by good long.
          let already = lookup p.id r.bets_this_round in
          let (n, e, _, _) = raise_cost r.current_max_bet already raise_by (b.bets p.id) good in
          rw e (commit_raise-IsFair r p n b))
      (λ e. refuse-IsFair r p e b)
