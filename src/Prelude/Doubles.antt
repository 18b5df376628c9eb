-- ===== src/Prelude/Doubles.antt =====
-- `Number(n)` of a bigint: the nearest double, and of two that are as near the even one. Up to
-- `Number.MAX_SAFE_INTEGER` it is the number itself. A bigint from 2^1024 on, whose `Number` is
-- Infinity, is not modelled.
use Prim.Native.Nat.{ℕ, zero, suc, ◌+◌, ◌*◌, ◌/◌, ◌%◌, ◌≤◌}
use mathlib.Core.Path.{◌≡◌, refl}
use mathlib.Core.Bool.{true, false}
use native.Mathlib.Omega.{arith}
use servers_poker.Prelude.Tests.{ltb, if◌then◌else◌}

-- `Number.MAX_SAFE_INTEGER`, which is 2^53 - 1.
abbrev pub max_safe_integer : ℕ
max_safe_integer = 9007199254740991

-- The distance of the doubles at a number: 1 up to 2^53, and twice as much from each power of two
-- on. The fuel is how often it can double.
unfoldable unit_at : ℕ → ℕ → ℕ → ℕ
unit_at zero n unit = unit
unit_at (suc fuel) n unit = elim (ltb max_safe_integer (n / unit)) [
  | true ↦ unit_at fuel n (2 * unit)
  | false ↦ unit
]

-- A quotient with its remainder, to the nearest multiple.
unfoldable nearest : ℕ → ℕ → ℕ → ℕ
nearest unit q r =
    if ltb (2 * r) unit
    then q * unit
    else if ltb unit (2 * r)
    then (q + 1) * unit
    else (q + q % 2) * unit

unfoldable pub to_number : ℕ → ℕ
unfolding unit_at nearest
to_number n = let unit = unit_at 971 n 1 in nearest unit (n / unit) (n % unit)

unit_at-safe : (fuel n : ℕ) → n ≤ max_safe_integer → unit_at (suc fuel) n 1 ≡ 1
unfolding unit_at
unit_at-safe fuel n h =
    let small : ltb max_safe_integer (n / 1) ≡ false = ground (arith, h) in rw (small, unit_at) refl

-- A safe integer is not rounded.
pub to_number-safe : (n : ℕ) → n ≤ max_safe_integer → to_number n ≡ n
unfolding to_number nearest
to_number-safe n h = rw (unit_at-safe 970 n h, to_number) (ground arith)

-- 2^53 + 1 lies between two doubles, and the one with the even half is taken.
rounded : to_number 9007199254740993 ≡ 9007199254740992
unfolding to_number
rounded = refl

rounded_up : to_number 9007199254740995 ≡ 9007199254740996
unfolding to_number
rounded_up = refl
