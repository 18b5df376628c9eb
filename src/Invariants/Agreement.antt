-- ===== src/Invariants/Agreement.antt =====
-- The checker of actions and the betting round agree.
use servers_poker.Prelude.{
  ℕ, ◌+◌, ◌≤◌, ◌<◌, ◌≡◌, ◌≢◌, refl, ap, ◌∙◌, Bool, true, false, Option, none, some, arith, ◌&&◌,
  if◌then◌else◌, Bool-cases, inl, inr,
}
use servers_poker.Prelude.Int.{ℤ, pos, negsuc, ◌+ℤ◌, ◌-ℤ◌, sub_ℕ, ltb_ℤ, leb_ℤ}
use servers_poker.Prelude.Dict.{lookup}
use servers_poker.Betting.{Player}
use servers_poker.Betting.Round.{
  BettingRound, Action, ActionType, fold, check, call, raise, bet, all_in, other, to_call_of,
  apply_action, apply_fold, apply_check, apply_call, apply_raise, commit_raise, Outcome,
}
use servers_poker.Betting.Round.Actions.{raise_total, is_short, apply_raise-commit_raise}
use servers_poker.Betting.Round.Limits.{IsBounded}
use servers_poker.Invariants.{
  cannot_check, ActionValidation, InvalidAction, validate_amount, validate_by_type, validate_action,
}

-- What the checker is told of an action in a round.
abbrev pub validation_of : BettingRound → Player → Action → ActionValidation
validation_of r p a = record {
  action = a.type;
  amount = a.amount;
  player_chips = pos p.chips;
  to_call = to_call_of r p;
  min_raise = pos r.last_raise_delta;
  current_bet = pos r.current_max_bet;
  player_bet = pos (lookup p.id r.bets_this_round);
}

passes :
    (a b c : Bool) (x y z : InvalidAction)
    → (if a then some x else if b then some y else if c then some z else none) ≡ none
    → (a ≡ false) × (b ≡ false)
passes true b c x y z h = absurd cc
passes false true c x y z h = absurd cc
passes false false c x y z h = (refl, refl)

-- The two tests of a raise that is too small.
short-agrees :
    (cur already delta chips k : ℕ)
    → already ≤ cur
    → (ltb_ℤ (pos k) (pos delta) && ltb_ℤ (sub_ℕ cur already +ℤ pos k) (pos chips)) ≡ false
    → (ltb_ℤ (pos cur +ℤ pos k) (pos (cur + delta))
        && ltb_ℤ (pos cur +ℤ pos k -ℤ pos already) (pos chips))
      ≡ false
short-agrees cur already delta chips k b h = ground arith

some_error : {e : InvalidAction} → some e ≡ none → ⊥
some_error h = absurd cc

raise-agrees :
    (r : BettingRound) (p : Player) (a : Action) (amount : Option ℤ)
    → IsBounded r
    → validate_amount (validation_of r p a) amount ≡ none
    → (apply_raise r p amount).2.valid ≡ true
unfolding validate_amount commit_raise
raise-agrees r p a none b h = absurd cc
raise-agrees r p a (some (negsuc n)) b h =
    let bad : leb_ℤ (negsuc n) (pos 0) ≡ true = ground arith in absurd (some_error (rw bad at h))
raise-agrees r p a (some (pos k)) b h =
    let t = passes _ _ _ _ _ _ h in
    let already = lookup p.id r.bets_this_round in
    let total = raise_total r.current_max_bet already (pos k) t.0 in
    let long : is_short r p (pos k) ≡ false =
      ap
        (λ n.
          ltb_ℤ n (pos (r.current_max_bet + r.last_raise_delta))
          && ltb_ℤ (n -ℤ pos already) (pos p.chips))
        total
      ∙ short-agrees r.current_max_bet already r.last_raise_delta p.chips k (b.bets p.id) t.1 in
    ap (λ (o : Outcome). o.2.valid) (apply_raise-commit_raise r p (pos k) t.0 long)

check-agrees :
    (r : BettingRound) (p : Player)
    → 0 < p.chips
    → (if ltb_ℤ (pos (lookup p.id r.bets_this_round)) (pos r.current_max_bet)
          && ltb_ℤ (pos 0) (pos p.chips)
        then some (cannot_check (to_call_of r p))
        else none)
      ≡ none
    → (apply_check r p).2.valid ≡ true
unfolding apply_check
check-agrees r p c h = elim (Bool-cases (ltb_ℤ (pos 0) (to_call_of r p))) [
  | inl owes ↦ absurd (owing _ _ _ _ c owes h)
  | inr even ↦ rw even refl
]
  where
    owing :
        (cur already chips : ℕ) (e : InvalidAction)
        → 0 < chips
        → ltb_ℤ (pos 0) (sub_ℕ cur already) ≡ true
        → (if ltb_ℤ (pos already) (pos cur) && ltb_ℤ (pos 0) (pos chips) then some e else none)
          ≡ none
        → ⊥
    owing cur already chips e c o h =
        let t : (ltb_ℤ (pos already) (pos cur) && ltb_ℤ (pos 0) (pos chips)) ≡ true =
          ground arith in
        absurd (some_error (rw t at h))

-- In a bounded round, an action of a player with chips, other than `all_in`, that `validateAction`
-- finds valid is accepted by `applyAction`.
pub validate_action-apply_action :
    (r : BettingRound) (p : Player) (a : Action)
    → IsBounded r
    → 0 < p.chips
    → a.type ≢ all_in
    → validate_action (validation_of r p a) ≡ none
    → (apply_action r p a).2.valid ≡ true
unfolding validate_action apply_action apply_fold apply_call
validate_action-apply_action r p a b c n h = by_type a.type refl (typed h)
  where
    typed :
        validate_action (validation_of r p a) ≡ none
        → validate_by_type (validation_of r p a) a.type ≡ none
    typed k = let t : ltb_ℤ (pos p.chips) (pos 0) ≡ false = ground arith in rw t at k

    by_type :
        (t : ActionType)
        → a.type ≡ t
        → validate_by_type (validation_of r p a) t ≡ none
        → (apply_action r p (record a { type = t })).2.valid ≡ true
    by_type fold e k = refl
    by_type check e k = check-agrees r p c k
    by_type call e k = refl
    by_type raise e k = raise-agrees r p a a.amount b k
    by_type bet e k = raise-agrees r p a a.amount b k
    by_type all_in e k = absurd (n e)
    by_type other e k = absurd cc
