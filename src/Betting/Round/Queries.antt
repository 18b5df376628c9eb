-- ===== src/Betting/Round/Queries.antt =====
-- The questions that `BettingRound` of domain/betting.ts answers: who is done, who may raise again,
-- and what a player may do.
use servers_poker.Prelude.{
  ℕ, Bool, true, false, not, ◌&&◌, ◌||◌, Option, none, some, List, [], ◌∷◌, ◌++◌, filter, length,
  includes, find, every, ltb, leb, ◌==◌, if◌then◌else◌,
}
use servers_poker.Prelude.Int.{pos, ltb_ℤ, leb_ℤ}
use servers_poker.Prelude.Dict.{lookup}
use servers_poker.Betting.{Player}
use servers_poker.Betting.Round.{
  BettingRound, ActionType, fold, check, call, raise, all_in, get_call_amount,
}

-- `MAX_RAISES_PER_STREET`
abbrev pub max_raises_per_street : ℕ
max_raises_per_street = 5

-- The test `!p.folded && !p.allIn && p.chips > 0n` of a player who can act.
abbrev pub can_act : Player → Bool
can_act p = not p.folded && (not p.all_in && ltb 0 p.chips)

-- The loop body of `isBettingComplete`, for a player who can act: is he done?
abbrev pub is_settled : BettingRound → Player → Bool
is_settled r p =
    includes p.id r.acted_players
    && not (ltb (lookup p.id r.bets_this_round) r.current_max_bet && ltb 0 p.chips)

-- `isBettingComplete`
unfoldable pub is_betting_complete : BettingRound → Bool
is_betting_complete r =
    let not_folded = filter (λ (p : Player). not p.folded) r.players in
    let acting = filter can_act r.players in
    if leb (length not_folded) 1
    then true
    else if length acting == 0
    then true
    else every (is_settled r) acting

-- `canReraise`
unfoldable pub can_reraise : BettingRound → ℕ → Bool
can_reraise r player_id = elim (find (λ (p : Player). p.id == player_id) r.players) [
  | none ↦ false
  | some p ↦
      if p.folded || (p.all_in || p.chips == 0)
      then false
      else if leb max_raises_per_street r.raises_this_street
      then false
      else if not r.last_raise_was_full
      then false
      else includes player_id r.betting_reopened_for
]

-- `wasLastRaiseFull`
unfoldable pub was_last_raise_full : BettingRound → Bool
was_last_raise_full r = r.last_raise_was_full

abbrev is_unset : Option ℕ → Bool
is_unset none = true
is_unset (some i) = false

-- `getValidActionsForPlayer`: the strings, in the order of the pushes.
unfoldable pub get_valid_actions_for_player : BettingRound → Player → List ActionType
unfolding get_call_amount can_reraise
get_valid_actions_for_player r p =
    let to_call = get_call_amount r p in
    let checks : List ActionType =
      if leb_ℤ to_call (pos 0) && leb_ℤ (pos 0) to_call
      then check ∷ []
      else if leb_ℤ to_call (pos p.chips)
      then call ∷ []
      else [] in
    let can_bet_or_raise =
      ltb_ℤ to_call (pos p.chips)
      && (ltb r.raises_this_street max_raises_per_street
          && (is_unset r.last_raiser_index || can_reraise r p.id)) in
    let raises : List ActionType = if can_bet_or_raise then raise ∷ [] else [] in
    let all_ins : List ActionType =
      if ltb 0 p.chips && ltb_ℤ (pos 0) to_call then all_in ∷ [] else [] in
    if p.folded || p.all_in then [] else fold ∷ (checks ++ (raises ++ all_ins))
