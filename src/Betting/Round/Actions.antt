-- ===== src/Betting/Round/Actions.antt =====
-- What each action does to the chips, the bets and the round.
use servers_poker.Prelude.{
  ℕ, ◌+◌, ◌≡◌, refl, ap, ◌∙◌, ◌⊎◌, inl, inr, Bool, true, false, ◌&&◌, Option, none, some, arith,
  Bool-cases,
}
use servers_poker.Prelude.Int.{ℤ, pos, negsuc, sub_ℕ, ◌+ℤ◌, ◌-ℤ◌, ltb_ℤ, leb_ℤ, ◌≤ℤ◌}
use servers_poker.Prelude.Dict.{lookup, insert, lookup-insert_self}
use servers_poker.Betting.{Player, big_min}
use servers_poker.Betting.Round.{
  BettingRound, ActionType, Action, Outcome, fold, check, call, raise, bet, all_in, other,
  to_call_of, take_chips, grow_bet, apply_fold, apply_check, apply_call, record_raise, commit_raise,
  apply_raise, apply_action, ActionError, refuse, not_positive, minimum_raise, unknown_action,
}

-- The chips that the action says it moves have left the player's stack and joined his bet.
abbrev pub Conserves : BettingRound → Player → Outcome → Type 0
Conserves r p (r', p', result) =
    (p'.id ≡ p.id)
    × (pos p'.chips ≡ pos p.chips -ℤ result.amount_added)
    × (pos (lookup p.id r'.bets_this_round)
        ≡ pos (lookup p.id r.bets_this_round) +ℤ result.amount_added)

apply_fold-Conserves : (r : BettingRound) (p : Player) → Conserves r p (apply_fold r p)
unfolding apply_fold
apply_fold-Conserves r p = (refl, ground arith, ground arith)

apply_check-Conserves : (r : BettingRound) (p : Player) → Conserves r p (apply_check r p)
unfolding apply_check
apply_check-Conserves r p = ground arith

-- A payment that does not exceed the chips and does not take the bet below 0.
payment :
    (chips already : ℕ) (amount : ℤ)
    → amount ≤ℤ pos chips
    → pos 0 ≤ℤ pos already +ℤ amount
    → (pos (take_chips chips amount) ≡ pos chips -ℤ amount)
      × (pos (grow_bet already amount) ≡ pos already +ℤ amount)
payment chips already (pos n) h k = ground arith
payment chips already (negsuc n) h k = ground arith

apply_call-Conserves : (r : BettingRound) (p : Player) → Conserves r p (apply_call r p)
unfolding apply_call
apply_call-Conserves r p =
    let already = lookup p.id r.bets_this_round in
    let amount = big_min (to_call_of r p) (pos p.chips) in
    ground (
      arith,
      payment p.chips already amount (ground arith) (ground arith),
      lookup-insert_self p.id (grow_bet already amount) r.bets_this_round,
    )

record_raise-bets :
    (r : BettingRound) (p : Player) (new_bet : ℕ)
    → (record_raise r p new_bet).bets_this_round ≡ r.bets_this_round
unfolding record_raise
record_raise-bets r p new_bet = ground arith

commit_raise-Conserves :
    (r : BettingRound) (p : Player) (additional : ℤ)
    → pos 0 ≤ℤ pos (lookup p.id r.bets_this_round) +ℤ additional
    → Conserves r p (commit_raise r p additional)
unfolding commit_raise
commit_raise-Conserves r p additional h =
    let already = lookup p.id r.bets_this_round in
    let amount = big_min additional (pos p.chips) in
    let new_bet = grow_bet already amount in
    let bets = insert p.id new_bet r.bets_this_round in
    let paid = payment p.chips already amount (ground arith) (ground arith) in
    (
      refl,
      paid.0,
      ap (λ d. pos (lookup p.id d))
            (record_raise-bets (record r { bets_this_round = bets }) p new_bet)
          ∙ ap pos (lookup-insert_self p.id new_bet r.bets_this_round)
          ∙ paid.1,
    )

-- The new total of a raise is the current bet and the raise, so it is positive.
pub raise_total :
    (max already : ℕ) (raise_by : ℤ)
    → leb_ℤ raise_by (pos 0) ≡ false
    → pos already +ℤ sub_ℕ max already +ℤ raise_by ≡ pos max +ℤ raise_by
raise_total max already (pos n) h = ground arith
raise_total max already (negsuc n) h = ground arith

raise_additional :
    (max already : ℕ) (raise_by : ℤ)
    → leb_ℤ raise_by (pos 0) ≡ false
    → pos 0 ≤ℤ pos already +ℤ (pos already +ℤ sub_ℕ max already +ℤ raise_by -ℤ pos already)
raise_additional max already (pos n) h = ground arith
raise_additional max already (negsuc n) h = ground arith

-- `newTotalAmount` and `additional`.
abbrev pub new_total_of : BettingRound → Player → ℤ → ℤ
new_total_of r p raise_by = pos (lookup p.id r.bets_this_round) +ℤ to_call_of r p +ℤ raise_by

abbrev pub additional_of : BettingRound → Player → ℤ → ℤ
additional_of r p raise_by = new_total_of r p raise_by -ℤ pos (lookup p.id r.bets_this_round)

-- The test that refuses a raise as too small.
abbrev pub is_short : BettingRound → Player → ℤ → Bool
is_short r p raise_by =
    ltb_ℤ (new_total_of r p raise_by) (pos (r.current_max_bet + r.last_raise_delta))
    && ltb_ℤ (additional_of r p raise_by) (pos p.chips)

-- A raise is refused, or its amount is positive, not too small, and committed.
pub raise_cases :
    (P : Outcome → Type 0) (r : BettingRound) (p : Player) (amount : Option ℤ)
    → ((e : ActionError) → P (refuse r p e))
    → ((raise_by : ℤ)
        → leb_ℤ raise_by (pos 0) ≡ false
        → is_short r p raise_by ≡ false
        → P (commit_raise r p (additional_of r p raise_by)))
    → P (apply_raise r p amount)
unfolding apply_raise
raise_cases P r p none refused committed = refused not_positive
raise_cases P r p (some raise_by) refused committed = elim (Bool-cases (leb_ℤ raise_by (pos 0))) [
  | inl bad ↦ rw bad (refused not_positive)
  | inr good ↦ elim (Bool-cases (is_short r p raise_by)) [
    | inl short ↦
        rw (good, short) (refused (minimum_raise (r.current_max_bet + r.last_raise_delta)))
    | inr long ↦ rw (good, long) (committed raise_by good long)
  ]
]

pub apply_raise-commit_raise :
    (r : BettingRound) (p : Player) (raise_by : ℤ)
    → leb_ℤ raise_by (pos 0) ≡ false
    → is_short r p raise_by ≡ false
    → apply_raise r p (some raise_by) ≡ commit_raise r p (additional_of r p raise_by)
unfolding apply_raise
apply_raise-commit_raise r p raise_by good long = rw (good, long)

-- The cases of an action.
pub action_cases :
    (P : Outcome → Type 0) (r : BettingRound) (p : Player) (a : Action)
    → P (apply_fold r p)
    → P (apply_check r p)
    → P (apply_call r p)
    → P (apply_raise r p a.amount)
    → ((e : ActionError) → P (refuse r p e))
    → P (apply_action r p a)
unfolding apply_action
action_cases P r p a f c l b e = go a.type
  where
    go :
        (t : ActionType)
        → P (elim t [
          | fold ↦ apply_fold r p
          | check ↦ apply_check r p
          | call ↦ apply_call r p
          | raise ↦ apply_raise r p a.amount
          | bet ↦ apply_raise r p a.amount
          | all_in ↦ refuse r p (unknown_action all_in)
          | other ↦ refuse r p (unknown_action other)
        ])
    go fold = f
    go check = c
    go call = l
    go raise = b
    go bet = b
    go all_in = e (unknown_action all_in)
    go other = e (unknown_action other)

refuse-Conserves : (r : BettingRound) (p : Player) (e : ActionError) → Conserves r p (refuse r p e)
refuse-Conserves r p e = (refl, ground arith, ground arith)

-- On every branch, also where it refuses, an action takes from the player's chips exactly the
-- amount that it reports, and adds exactly that to his bet.
pub apply_action-Conserves :
    (r : BettingRound) (p : Player) (a : Action) → Conserves r p (apply_action r p a)
apply_action-Conserves r p a =
    action_cases (Conserves r p) r p a (apply_fold-Conserves r p) (apply_check-Conserves r p)
      (apply_call-Conserves r p)
      (raise_cases (Conserves r p) r p a.amount (refuse-Conserves r p) λ raise_by good long.
        commit_raise-Conserves r p (additional_of r p raise_by)
          (raise_additional r.current_max_bet (lookup p.id r.bets_this_round) raise_by good))
      (refuse-Conserves r p)

-- A refused action changes nothing.
abbrev Unchanged : BettingRound → Player → Outcome → Type 0
Unchanged r p o = o.2.valid ≡ false → (o.0 ≡ r) × (o.1 ≡ p) × (o.2.amount_added ≡ pos 0)

-- An action that `applyAction` refuses leaves the round and the player as they were, and adds
-- nothing.
pub apply_action-refused :
    (r : BettingRound) (p : Player) (a : Action)
    → (apply_action r p a).2.valid ≡ false
    → ((apply_action r p a).0 ≡ r)
      × ((apply_action r p a).1 ≡ p)
      × ((apply_action r p a).2.amount_added ≡ pos 0)
unfolding apply_fold apply_check apply_call commit_raise
apply_action-refused r p a =
    action_cases (Unchanged r p) r p a (λ h. cc)
      (on_check (Bool-cases (ltb_ℤ (pos 0) (to_call_of r p)))) (λ h. cc)
      (raise_cases (Unchanged r p) r p a.amount (λ e h. (refl, refl, refl)) (λ n good long h. cc))
      (λ e h. (refl, refl, refl))
  where
    on_check :
        (ltb_ℤ (pos 0) (to_call_of r p) ≡ true) ⊎ (ltb_ℤ (pos 0) (to_call_of r p) ≡ false)
        → Unchanged r p (apply_check r p)
    on_check (inl owes) = rw owes (λ h. (refl, refl, refl))
    on_check (inr even) = rw even (λ h. cc)
