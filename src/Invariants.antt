-- ===== src/Invariants.antt =====
-- src/game/invariants.ts: `ChipInvariantChecker`, which checks the chips of a game and the actions
-- of its players. Its amounts are numbers of either sign.
mod Agreement
mod Tests
use servers_poker.Prelude.{
  ℕ, Bool, true, false, not, ◌&&◌, ◌||◌, Option, none, some, List, [], ◌∷◌, if◌then◌else◌,
}
use servers_poker.Prelude.Int.{ℤ, pos, negsuc, ◌+ℤ◌, ltb_ℤ, leb_ℤ}
use servers_poker.Betting.Round.{ActionType, fold, check, call, raise, bet, all_in, other}

-- `interface ActionValidation`
pub record ActionValidation : Type 0 where
  pub action : ActionType
  pub amount : Option ℤ
  pub player_chips : ℤ
  pub to_call : ℤ
  pub min_raise : ℤ
  pub current_bet : ℤ
  pub player_bet : ℤ

pub data InvalidAction : Type 0 where
  negative_chips : InvalidAction
  cannot_check : ℤ → InvalidAction
  nothing_to_call : InvalidAction
  not_positive : InvalidAction
  minimum_raise : ℤ → InvalidAction
  insufficient_chips : ℤ → ℤ → InvalidAction
  no_chips : InvalidAction
  unknown_action : InvalidAction

-- The cases `"bet"` and `"raise"`, with the amount.
unfoldable pub validate_amount : ActionValidation → Option ℤ → Option InvalidAction
validate_amount v none = some not_positive
validate_amount v (some amount) =
    if leb_ℤ amount (pos 0)
    then some not_positive
    else if ltb_ℤ amount v.min_raise && ltb_ℤ (v.to_call +ℤ amount) v.player_chips
    then some (minimum_raise v.min_raise)
    else if ltb_ℤ v.player_chips (v.to_call +ℤ amount)
    then some (insufficient_chips (v.to_call +ℤ amount) v.player_chips)
    else none

-- The `switch` of `validateAction`.
unfoldable pub validate_by_type : ActionValidation → ActionType → Option InvalidAction
unfolding validate_amount
validate_by_type v fold = none
validate_by_type v check =
    if ltb_ℤ v.player_bet v.current_bet && ltb_ℤ (pos 0) v.player_chips
    then some (cannot_check v.to_call)
    else none
validate_by_type v call =
    if leb_ℤ v.to_call (pos 0) && ltb_ℤ (pos 0) v.player_chips then some nothing_to_call else none
validate_by_type v raise = validate_amount v v.amount
validate_by_type v bet = validate_amount v v.amount
validate_by_type v all_in = if leb_ℤ v.player_chips (pos 0) then some no_chips else none
validate_by_type v other = some unknown_action

-- `validateAction`: its error; `none` is `{ valid: true }`.
unfoldable pub validate_action : ActionValidation → Option InvalidAction
unfolding validate_by_type
validate_action v =
    if ltb_ℤ v.player_chips (pos 0) then some negative_chips else validate_by_type v v.action

-- `interface ChipHolder`, less the name.
pub record ChipHolder : Type 0 where
  pub id : ℕ
  pub chips : ℤ

-- `players.reduce((sum, p) => sum + p.chips, 0)`, from a sum on.
unfoldable pub in_stacks : ℤ → List ChipHolder → ℤ
in_stacks sum [] = sum
in_stacks sum (p ∷ players) = in_stacks (sum +ℤ p.chips) players

abbrev pub in_pot : Option ℤ → ℤ
in_pot none = pos 0
in_pot (some n) = n

-- `computeExpectedTotal`, with the total of the pot.
unfoldable pub compute_expected_total : List ChipHolder → Option ℤ → ℤ
unfolding in_stacks
compute_expected_total players pot = in_stacks (pos 0) players +ℤ in_pot pot

-- `assertChipConservation`: false where it throws.
unfoldable pub assert_chip_conservation : List ChipHolder → Option ℤ → ℤ → Bool
unfolding in_stacks
assert_chip_conservation players pot expected =
    let total = in_stacks (pos 0) players +ℤ in_pot pot in
    leb_ℤ total expected && leb_ℤ expected total

-- `assertNonNegativeChips`: false where it throws.
unfoldable pub assert_non_negative_chips : ChipHolder → Bool
assert_non_negative_chips p = not (ltb_ℤ p.chips (pos 0))
