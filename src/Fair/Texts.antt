-- ===== src/Fair/Texts.antt =====
-- The strings of src/services/provably-fair.service.ts: decimal numbers, hexadecimal bytes and the
-- comparison of lists of numbers.
use servers_poker.Prelude.{
  ℕ, zero, suc, ◌+◌, ◌-◌, ◌*◌, ◌/◌, ◌%◌, ◌≡◌, refl, Bool, true, false, ◌&&◌, Option, none, some,
  List, [], ◌∷◌, ◌++◌, ltb, leb, ◌==◌, if◌then◌else◌, arith,
}

abbrev pub Text : Type 0
Text = List ℕ

-- `n.toString()`, on fuel: each step drops a digit.
unfoldable pub decimal : ℕ → ℕ → Text
decimal zero n = []
decimal (suc fuel) n =
    let front = decimal fuel (n / 10) in
    if ltb n 10 then (48 + n) ∷ [] else front ++ (48 + n % 10) ∷ []

abbrev pub to_string : ℕ → Text
to_string n = decimal (suc n) n

-- The value of a hexadecimal digit.
abbrev pub hex_digit : ℕ → Option ℕ
hex_digit c =
    if leb 48 c && ltb c 58
    then some (c - 48)
    else if leb 97 c && ltb c 103
    then some (c - 87)
    else if leb 65 c && ltb c 71
    then some (c - 55)
    else none

-- `parseInt(s, 16)` of digits: it stops at the first other character. No digit gives 0, which is
-- what `<<` and `|` make of `NaN`. The white space and the sign that `parseInt` also accepts at the
-- start are not read; a hex digest has neither.
unfoldable pub parse_from : ℕ → Text → ℕ
parse_from value [] = value
parse_from value (c ∷ s) = elim (hex_digit c) [
  | none ↦ value
  | some d ↦ parse_from (16 * value + d) s
]

abbrev pub parse_hex : Text → ℕ
parse_hex s = parse_from 0 s

-- `===` on strings, and on the `JSON.stringify` of two lists of numbers.
abbrev pub same : List ℕ → List ℕ → Bool
same [] [] = true
same [] (y ∷ ys) = false
same (x ∷ xs) [] = false
same (x ∷ xs) (y ∷ ys) = x == y && same xs ys

pub same_refl : (xs : List ℕ) → same xs xs ≡ true
same_refl [] = refl
same_refl (x ∷ xs) = ground (arith, same_refl xs)

pub same_eq : (xs ys : List ℕ) → same xs ys ≡ true → xs ≡ ys
same_eq [] [] e = refl
same_eq [] (y ∷ ys) e = absurd cc
same_eq (x ∷ xs) [] e = absurd cc
same_eq (x ∷ xs) (y ∷ ys) e = grind (arith, same_eq xs ys)
