-- ===== src/Betting.antt =====
-- src/domain/betting.ts: the players of a hand as the
-- betting code sees them, and the comparisons of amounts. Amounts are `bigint`s; those that the
-- code stores are never negative and are natural numbers, and their differences are integers.
-- Player ids are only compared, so they are numbers.
pub mod Pots
pub mod Round
mod Tests
use servers_poker.Prelude.{ℕ, Bool, List, ltb, if◌then◌else◌}
use servers_poker.Prelude.Int.{ℤ, ltb_ℤ}

-- `interface Player`
pub record Player : Type 0 where
  pub id : ℕ
  pub chips : ℕ
  pub folded : Bool
  pub all_in : Bool

-- `interface Pot`
pub record Pot : Type 0 where
  pub amount : ℕ
  pub eligible_player_ids : List ℕ

-- `bigMin`
abbrev pub big_min : ℤ → ℤ → ℤ
big_min a b = if ltb_ℤ a b then a else b

-- `bigMax`, on amounts
abbrev pub big_max : ℕ → ℕ → ℕ
big_max a b = if ltb b a then a else b
