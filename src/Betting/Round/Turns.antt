-- ===== src/Betting/Round/Turns.antt =====
-- When a street is over, and whether the actions that a player is offered are accepted.
use servers_poker.Prelude.{
  ℕ, ◌+◌, ◌≤◌, ◌<◌, ◌≡◌, refl, ap, ◌∙◌, ◌⊎◌, inl, inr, ◌↔◌, Bool, true, false, not, ◌&&◌, ◌||◌,
  some, List, [], ◌∷◌, arith, ◌==◌, if◌then◌else◌, leb, Bool-cases, All, every, filter, length,
  includes, Member, leb→le, le→leb, ◌++◌, ◌≢◌,
}
use servers_poker.Prelude.Int.{ℤ, pos, negsuc, ◌+ℤ◌, ◌-ℤ◌, ltb_ℤ, leb_ℤ}
use servers_poker.Prelude.Dict.{lookup}
use servers_poker.Betting.{Player, big_min}
use servers_poker.Betting.Round.{
  BettingRound, Action, Outcome, ActionType, fold, check, call, raise, bet, all_in, other,
  to_call_of, apply_fold, apply_check, apply_call, apply_raise, commit_raise, apply_action,
}
use servers_poker.Betting.Round.Queries.{
  is_betting_complete, can_act, is_settled, get_valid_actions_for_player,
}
use servers_poker.Betting.Round.Actions.{
  raise_total, apply_raise-commit_raise, is_short, new_total_of,
}
use servers_poker.Betting.Round.Limits.{IsBounded}

-- A player who can act has acted, and his bet is the current one.
abbrev pub HasMatched : BettingRound → Player → Type 0
HasMatched r p =
    can_act p ≡ true
    → (includes p.id r.acted_players ≡ true) × (lookup p.id r.bets_this_round ≡ r.current_max_bet)

-- The players who are still in.
abbrev pub still_in : List Player → ℕ
still_in players = length (filter (λ (p : Player). not p.folded) players)

settled-HasMatched :
    (r : BettingRound) (players : List Player)
    → IsBounded r
    → every (is_settled r) (filter can_act players) ≡ true
    → All (HasMatched r) players
settled-HasMatched r [] b h = tt
settled-HasMatched r (p ∷ players) b h = elim (Bool-cases (can_act p)) [
  | inl acts ↦
      let k : (is_settled r p && every (is_settled r) (filter can_act players)) ≡ true =
        rw acts at h in
      (ground (arith, k, b.bets p.id), settled-HasMatched r players b (ground (arith, k)))
  | inr rests ↦ (λ c. cc, settled-HasMatched r players b (rw rests at h))
]

HasMatched-settled :
    (r : BettingRound) (players : List Player)
    → All (HasMatched r) players
    → every (is_settled r) (filter can_act players) ≡ true
HasMatched-settled r [] h = refl
HasMatched-settled r (p ∷ players) h = elim (Bool-cases (can_act p)) [
  | inl acts ↦ rw acts (ground (arith, h.0 acts, HasMatched-settled r players h.1))
  | inr rests ↦ rw rests (HasMatched-settled r players h.1)
]

complete_iff :
    (few : Bool) (test : Player → Bool) (players : List Player)
    → ((if few then true else if length players == 0 then true else every test players) ≡ true)
      ↔ ((few ≡ true) ⊎ (every test players ≡ true))
complete_iff true test players = (λ e. inl refl, λ h. refl)
complete_iff false test [] = (λ e. inr refl, λ h. refl)
complete_iff false test (p ∷ players) = (λ e. inr (ground (arith, e)), λ h. ground (arith, h))

-- In a bounded round `isBettingComplete` is true exactly if at most one player is still in, or
-- every player who can act has acted and has bet the current bet.
pub is_betting_complete_iff :
    (r : BettingRound)
    → IsBounded r
    → (is_betting_complete r ≡ true) ↔ ((still_in r.players ≤ 1) ⊎ All (HasMatched r) r.players)
unfolding is_betting_complete
is_betting_complete_iff r b =
    let cases =
      complete_iff (leb (still_in r.players) 1) (is_settled r) (filter can_act r.players) in
    (
      λ e. elim (cases.0 e) [
        | inl few ↦ inl (leb→le _ _ few)
        | inr done ↦ inr (settled-HasMatched r r.players b done)
      ],
      λ h. cases.1 (elim h [
        | inl few ↦ inl (le→leb _ _ few)
        | inr done ↦ inr (HasMatched-settled r r.players done)
      ]),
    )

-- The action of a type, with the minimum raise as its amount.
abbrev pub least : BettingRound → ActionType → Action
least r t = record { type = t; amount = some (pos r.last_raise_delta) }

minimum-valid :
    (r : BettingRound) (p : Player)
    → IsBounded r
    → 0 < r.big_blind
    → (apply_raise r p (some (pos r.last_raise_delta))).2.valid ≡ true
unfolding commit_raise
minimum-valid r p b pos_blind =
    let raise_by = pos r.last_raise_delta in
    let d = b.delta in
    let good : leb_ℤ raise_by (pos 0) ≡ false = ground arith in
    let total = raise_total r.current_max_bet (lookup p.id r.bets_this_round) raise_by good in
    let long : is_short r p raise_by ≡ false = reached total in
    ap (λ (o : Outcome). o.2.valid) (apply_raise-commit_raise r p raise_by good long)
  where
    reached :
        new_total_of r p (pos r.last_raise_delta) ≡ pos r.current_max_bet +ℤ pos r.last_raise_delta
        → is_short r p (pos r.last_raise_delta) ≡ false
    reached e =
        ap
          (λ n.
            ltb_ℤ n (pos (r.current_max_bet + r.last_raise_delta))
            && ltb_ℤ (n -ℤ pos (lookup p.id r.bets_this_round)) (pos p.chips))
          e
        ∙ ground arith

offers :
    (t : ActionType) (checks calls can_raise all_ins : Bool)
    → Member t (
        fold
        ∷ ((if checks then check ∷ [] else if calls then call ∷ [] else [])
            ++ ((if can_raise then raise ∷ [] else []) ++ (if all_ins then all_in ∷ [] else []))))
    → (t ≡ fold) ⊎ ((t ≡ check) × (checks ≡ true)) ⊎ (t ≡ call) ⊎ (t ≡ raise) ⊎ (t ≡ all_in)
offers t checks calls can_raise all_ins m = ground arith

check-valid :
    (r : BettingRound) (p : Player)
    → IsBounded r
    → leb_ℤ (big_min (to_call_of r p) (pos p.chips)) (pos 0) ≡ true
    → 0 < p.chips
    → (apply_check r p).2.valid ≡ true
unfolding apply_check
check-valid r p b h c = elim (Bool-cases (ltb_ℤ (pos 0) (to_call_of r p))) [
  | inl owes ↦ absurd (owing (to_call_of r p) p.chips owes h c)
  | inr even ↦ rw even
]
  where
    owing :
        (due : ℤ) (chips : ℕ)
        → ltb_ℤ (pos 0) due ≡ true
        → leb_ℤ (big_min due (pos chips)) (pos 0) ≡ true
        → 0 < chips
        → ⊥
    owing (pos n) chips u v w = ground arith
    owing (negsuc n) chips u v w = ground arith

-- An offer is accepted, or it is `all_in` and refused.
abbrev pub IsAnswered : BettingRound → Player → ActionType → Type 0
IsAnswered r p t =
    ((t ≡ all_in) × ((apply_action r p (least r t)).2.valid ≡ false))
    ⊎ ((t ≢ all_in) × ((apply_action r p (least r t)).2.valid ≡ true))

offer-IsAnswered :
    (r : BettingRound) (p : Player) (t : ActionType)
    → IsBounded r
    → 0 < r.big_blind
    → ((t ≡ check) → (apply_check r p).2.valid ≡ true)
    → (t ≡ fold) ⊎ (t ≡ check) ⊎ (t ≡ call) ⊎ (t ≡ raise) ⊎ (t ≡ all_in)
    → IsAnswered r p t
unfolding apply_action apply_fold apply_call
offer-IsAnswered r p fold b blind c h = inr (λ e. cc, refl)
offer-IsAnswered r p check b blind c h = inr (λ e. cc, c refl)
offer-IsAnswered r p call b blind c h = inr (λ e. cc, refl)
offer-IsAnswered r p raise b blind c h = inr (λ e. cc, minimum-valid r p b blind)
offer-IsAnswered r p bet b blind c h = inr (λ e. cc, minimum-valid r p b blind)
offer-IsAnswered r p all_in b blind c h = inl (refl, refl)
offer-IsAnswered r p other b blind c h = absurd (ground arith)

-- In a bounded round with a positive big blind, every action that `getValidActionsForPlayer` offers
-- to a player with chips is accepted by `applyAction` (a raise, by the minimum amount), except
-- `all_in`, which is refused.
pub valid_actions-IsAnswered :
    (r : BettingRound) (p : Player) (t : ActionType)
    → IsBounded r
    → 0 < r.big_blind
    → 0 < p.chips
    → Member t (get_valid_actions_for_player r p)
    → IsAnswered r p t
unfolding get_valid_actions_for_player
valid_actions-IsAnswered r p t b blind chips m = elim (Bool-cases (p.folded || p.all_in)) [
  | inl out ↦ absurd (rw out at m)
  | inr in_hand ↦
      let h = offers t _ _ _ _ (rw in_hand at m) in
      offer-IsAnswered r p t b blind (λ e. check-valid r p b (ground (arith, h, e)) chips)
        (ground (arith, h))
]
