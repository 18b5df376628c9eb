-- ===== src/Betting/Round/Raises.antt =====
-- What an accepted raise does, and what it opens for the others.
use servers_poker.Prelude.{
  Bool-cases, leb→le, inl, inr, leb, ℕ, ◌+◌, ◌≤◌, ◌<◌, ◌≡◌, ◌⊎◌, true, false, ◌&&◌, Option, List,
  arith, if◌then◌else◌, ltb,
}
use servers_poker.Prelude.Int.{ℤ, pos, sub_ℕ, ◌+ℤ◌, ◌-ℤ◌, ltb_ℤ}
use servers_poker.Prelude.Dict.{lookup, insert}
use servers_poker.Betting.{Player}
use servers_poker.Betting.Round.{BettingRound, Outcome, record_raise, commit_raise, apply_raise}
use servers_poker.Betting.Round.Queries.{can_reraise}
use servers_poker.Betting.Round.Actions.{raise_cases}
use servers_poker.Betting.Round.Limits.{IsBounded, raise_cost, call_amount}

-- An accepted raise over the round `r`: the current bet is not lowered; a player who keeps chips has
-- raised by at least the minimum; a raise by the minimum counts as full, and a smaller one keeps the
-- minimum and lets nobody raise again.
pub record IsRaise (r : BettingRound) (o : Outcome) : Type 0 where
  pub current : r.current_max_bet ≤ o.0.current_max_bet
  pub full : (o.1.chips ≡ 0) ⊎ (r.current_max_bet + r.last_raise_delta ≤ o.0.current_max_bet)
  pub counted :
      (o.0.current_max_bet ≤ r.current_max_bet)
      ⊎ (o.0.current_max_bet < r.current_max_bet + r.last_raise_delta)
      ⊎ (o.0.last_raise_was_full ≡ true)
  pub closed :
      (i : ℕ)
      → (o.0.current_max_bet ≤ r.current_max_bet)
        ⊎ (r.current_max_bet + r.last_raise_delta ≤ o.0.current_max_bet)
        ⊎ ((can_reraise o.0 i ≡ false) × (o.0.last_raise_delta ≡ r.last_raise_delta))

abbrev RaiseOrRefusal : BettingRound → Outcome → Type 0
RaiseOrRefusal r o = o.2.valid ≡ true → IsRaise r o

record_raise-closed :
    (r : BettingRound) (p : Player) (new_bet i : ℕ) (players : List Player)
    → r.current_max_bet < new_bet
    → new_bet < r.current_max_bet + r.last_raise_delta
    → can_reraise (record (record_raise r p new_bet) { players = players }) i ≡ false
unfolding record_raise can_reraise
record_raise-closed r p new_bet i players h k = ground arith

record_raise_numbers :
    (r : BettingRound) (p : Player) (new_bet : ℕ)
    → let r' = record_raise r p new_bet in
      (r.current_max_bet ≤ r'.current_max_bet)
      × (new_bet ≤ r'.current_max_bet)
      × (r'.current_max_bet < r.current_max_bet + r.last_raise_delta
          → r'.last_raise_delta ≡ r.last_raise_delta)
      × (r.current_max_bet < r'.current_max_bet → r'.current_max_bet ≡ new_bet)
      × (r.current_max_bet < r'.current_max_bet
          → r.current_max_bet + r.last_raise_delta ≤ r'.current_max_bet
          → r'.last_raise_was_full ≡ true)
unfolding record_raise
record_raise_numbers r p new_bet =
    (ground arith, ground arith, ground arith, ground arith, ground arith)

order_cases : (a b : ℕ) → (a ≤ b) ⊎ (b < a)
order_cases a b = elim (Bool-cases (leb a b)) [
  | inl e ↦ inl (leb→le a b e)
  | inr e ↦ inr (ground (arith, e))
]

commit_raise-IsRaise :
    (r : BettingRound) (p : Player) (n : ℕ)
    → lookup p.id r.bets_this_round ≤ r.current_max_bet
    → (p.chips ≤ n) ⊎ (r.current_max_bet + r.last_raise_delta ≤ lookup p.id r.bets_this_round + n)
    → IsRaise r (commit_raise r p (pos n))
unfolding commit_raise
commit_raise-IsRaise r p n b h =
    let already = lookup p.id r.bets_this_round in
    let amount : ℕ = if ltb n p.chips then n else p.chips in
    let staked : BettingRound = record r {
      bets_this_round = insert p.id (already + amount) r.bets_this_round;
    } in
    let q = record_raise_numbers staked p (already + amount) in
    rw (call_amount n p.chips) (record {
      current = q.0;
      full = ground arith;
      counted =
          elim (order_cases (record_raise staked p (already + amount)).current_max_bet
            r.current_max_bet) [
              | inl same ↦ inl same
              | inr v ↦
                  elim (order_cases (r.current_max_bet + r.last_raise_delta)
                    (record_raise staked p (already + amount)).current_max_bet) [
                      | inl u ↦ inr (inr (q.4 v u))
                      | inr short ↦ inr (inl short)
                    ]
            ];
      closed = λ i.
          elim (order_cases (record_raise staked p (already + amount)).current_max_bet
            r.current_max_bet) [
              | inl same ↦ inl same
              | inr u ↦
                  elim (order_cases (r.current_max_bet + r.last_raise_delta)
                    (record_raise staked p (already + amount)).current_max_bet) [
                      | inl full ↦ inr (inl full)
                      | inr v ↦
                          let e = q.3 u in
                          inr (
                            inr (
                              record_raise-closed staked p (already + amount) i _ (omega arith)
                                  (omega arith),
                              q.2 v,
                            ))
                    ]
            ];
    })

-- A raise that is not too small is all-in or reaches the minimum.
long_enough :
    (max already delta chips : ℕ) (raise_by : ℤ) (n : ℕ)
    → pos already +ℤ sub_ℕ max already +ℤ raise_by ≡ pos (already + n)
    → (ltb_ℤ (pos already +ℤ sub_ℕ max already +ℤ raise_by) (pos (max + delta))
        && ltb_ℤ (pos already +ℤ sub_ℕ max already +ℤ raise_by -ℤ pos already) (pos chips))
      ≡ false
    → (chips ≤ n) ⊎ (max + delta ≤ already + n)
long_enough max already delta chips raise_by n e h = long (rw e at h)
  where
    long :
        (ltb_ℤ (pos (already + n)) (pos (max + delta))
            && ltb_ℤ (pos (already + n) -ℤ pos already) (pos chips))
          ≡ false
        → (chips ≤ n) ⊎ (max + delta ≤ already + n)
    long k = ground arith

-- In a bounded round an accepted raise never lowers the current bet; a raiser who keeps chips has
-- raised by at least the minimum; a raise by the minimum that lifts the current bet counts as full;
-- one by less, as an all-in may be, leaves the minimum as it was, and after it `canReraise` is false
-- for everybody.
pub apply_raise-IsRaise :
    (r : BettingRound) (p : Player) (amount : Option ℤ)
    → IsBounded r
    → (apply_raise r p amount).2.valid ≡ true
    → IsRaise r (apply_raise r p amount)
apply_raise-IsRaise r p amount b =
    raise_cases (RaiseOrRefusal r) r p amount (λ e v. cc)
      λ raise_by good long v.
        let already = lookup p.id r.bets_this_round in
        let (n, e, _, f) = raise_cost r.current_max_bet already raise_by (b.bets p.id) good in
        rw e (
          commit_raise-IsRaise r p n (b.bets p.id)
            (long_enough r.current_max_bet already r.last_raise_delta p.chips raise_by n f long))
