-- ===== src/HandEval.antt =====
-- src/domain/handEvaluator.ts: the value of five cards, the best five of seven, and who wins.
-- Suits are only compared, so they are numbers.
pub mod Compare
pub mod Best
pub mod Winners
pub mod Total
pub mod Chosen
mod Tests
use servers_poker.Prelude.{
  ℕ, zero, suc, ◌+◌, ◌-◌, Bool, true, false, ◌&&◌, Option, none, some, List, [], ◌∷◌, ◌++◌, map,
  take, length, filter, every, includes, ltb, leb, ◌==◌, if◌then◌else◌, max,
}
use servers_poker.Prelude.Int.{ℤ, pos, sub_ℕ, ltb_ℤ}
use mathlib.Core.List.{reverse}

-- `HAND_RANKS` and `HAND_NAMES`: a name and its number.
pub data HandName : Type 0 where
  high_card one_pair two_pair three_of_a_kind straight flush full_house : HandName
  four_of_a_kind straight_flush royal_flush : HandName

abbrev pub hand_rank : HandName → ℕ
hand_rank royal_flush = 9
hand_rank straight_flush = 8
hand_rank four_of_a_kind = 7
hand_rank full_house = 6
hand_rank flush = 5
hand_rank straight = 4
hand_rank three_of_a_kind = 3
hand_rank two_pair = 2
hand_rank one_pair = 1
hand_rank high_card = 0

-- `interface Card`
pub record Card : Type 0 where
  pub value : ℕ
  pub suit : ℕ

-- `interface HandResult`, less the `cards` that `bestHand` adds.
pub record HandResult : Type 0 where
  pub rank : ℕ
  pub tiebreakers : List ℕ
  pub name : HandName

abbrev result : HandName → List ℕ → HandResult
result name tiebreakers = record { rank = hand_rank name; tiebreakers = tiebreakers; name = name }

-- `getCombinations`
unfoldable pub get_combinations {ℓ} : {A : Type ℓ} → List A → ℕ → List (List A)
get_combinations [] zero = [] ∷ []
get_combinations (x ∷ xs) zero = [] ∷ []
get_combinations [] (suc k) = []
get_combinations (x ∷ xs) (suc k) =
    let with_first = map (λ c. x ∷ c) (get_combinations xs k) in
    let without_first = get_combinations xs (suc k) in
    if ltb (suc (length xs)) (suc k) then [] else with_first ++ without_first

-- `.sort((a, b) => b - a)`
unfoldable pub insert_desc : ℕ → List ℕ → List ℕ
insert_desc x [] = x ∷ []
insert_desc x (y ∷ ys) = if leb y x then x ∷ y ∷ ys else y ∷ insert_desc x ys

unfoldable pub sort_desc : List ℕ → List ℕ
unfolding insert_desc
sort_desc [] = []
sort_desc (x ∷ xs) = insert_desc x (sort_desc xs)

-- `[...new Set(values)]`
unfoldable pub unique_from : List ℕ → List ℕ → List ℕ
unique_from seen [] = []
unique_from seen (x ∷ xs) =
    let again = unique_from seen xs in
    let new = unique_from (x ∷ seen) xs in if includes x seen then again else x ∷ new

-- An entry of `groups`: a value, and how many cards have it.
pub record Group : Type 0 where
  pub val : ℕ
  pub cnt : ℕ

-- `counts[v]`
abbrev pub count : ℕ → List ℕ → ℕ
count v values = length (filter (λ w. w == v) values)

-- `.sort((a, b) => b.cnt - a.cnt || b.val - a.val)`
abbrev comes_first : Group → Group → Bool
comes_first g h = if g.cnt == h.cnt then leb h.val g.val else ltb h.cnt g.cnt

unfoldable pub insert_group : Group → List Group → List Group
insert_group g [] = g ∷ []
insert_group g (h ∷ groups) = if comes_first g h then g ∷ h ∷ groups else h ∷ insert_group g groups

unfoldable pub sort_groups : List Group → List Group
unfolding insert_group
sort_groups [] = []
sort_groups (g ∷ groups) = insert_group g (sort_groups groups)

-- `groups`. `Object.entries` lists integer keys in ascending order.
unfoldable pub groups_of : List ℕ → List Group
unfolding sort_groups sort_desc unique_from
groups_of values = sort_groups (
    map (λ v. record { val = v; cnt = count v values })
      (reverse (sort_desc (unique_from [] values))))

-- `isStraight` and `straightHigh`, of the distinct values in descending order; `none` if the values
-- are no straight.
unfoldable pub straight_high : List ℕ → Option ℕ
straight_high (v0 ∷ v1 ∷ v2 ∷ v3 ∷ v4 ∷ []) =
    if v0 == 14 && (v1 == 5 && v4 == 2) then some 5 else if v0 - v4 == 4 then some v0 else none
straight_high other = none

-- The tests after the straight flush, in the order of the source; the list holds the groups.
unfoldable pub rank_groups : List ℕ → Bool → Option ℕ → List Group → Option HandResult
rank_groups values is_flush straight_to [] = none
rank_groups values is_flush straight_to (g0 ∷ groups) =
    let vals = map (λ (g : Group). g.val) in
    let second_pair : Bool = elim groups [ [] ↦ false | g1 ∷ _ ↦ g1.cnt == 2 ] in
    let rest : HandResult =
      if g0.cnt == 3
      then result three_of_a_kind (take 3 (vals (g0 ∷ groups)))
      else if g0.cnt == 2 && second_pair
      then result two_pair (take 3 (vals (g0 ∷ groups)))
      else if g0.cnt == 2
      then result one_pair (take 4 (vals (g0 ∷ groups)))
      else result high_card values in
    some (
      if g0.cnt == 4
      then result four_of_a_kind (take 2 (vals (g0 ∷ groups)))
      else if g0.cnt == 3 && second_pair
      then result full_house (take 2 (vals (g0 ∷ groups)))
      else if is_flush
      then result flush values
      else elim straight_to [ some high ↦ result straight (high ∷ []) | none ↦ rest ])

-- `if (isFlush && isStraight)`, before the tests that `others` stands for.
unfoldable pub pick_hand : Bool → Option ℕ → Option HandResult → Option HandResult
pick_hand false straight_to others = others
pick_hand true none others = others
pick_hand true (some high) others =
    some (if high == 14 then result royal_flush (high ∷ []) else result straight_flush (high ∷ []))

-- `evaluateFiveCards`; `none` where there is no card, on which the source throws.
unfoldable pub evaluate_five_cards : List Card → Option HandResult
unfolding sort_desc unique_from groups_of straight_high rank_groups pick_hand
evaluate_five_cards [] = none
evaluate_five_cards (c ∷ cards) =
    let values = sort_desc (map (λ (d : Card). d.value) (c ∷ cards)) in
    let is_flush = every (λ (d : Card). d.suit == c.suit) (c ∷ cards) in
    let straight_to = straight_high (sort_desc (unique_from [] values)) in
    pick_hand is_flush straight_to (rank_groups values is_flush straight_to (groups_of values))

-- `tiebreakers[i] || 0`, for the first index.
abbrev pub head_or_zero : List ℕ → ℕ
head_or_zero [] = 0
head_or_zero (x ∷ xs) = x

abbrev pub tail : List ℕ → List ℕ
tail [] = []
tail (x ∷ xs) = xs

-- The loop of `compareHands` over `n` indices.
unfoldable pub compare_tiebreakers : ℕ → List ℕ → List ℕ → ℤ
compare_tiebreakers zero xs ys = pos 0
compare_tiebreakers (suc n) xs ys =
    let rest = compare_tiebreakers n (tail xs) (tail ys) in
    if head_or_zero xs == head_or_zero ys then rest else sub_ℕ (head_or_zero xs) (head_or_zero ys)

-- `compareHands`
unfoldable pub compare_hands : HandResult → HandResult → ℤ
unfolding compare_tiebreakers
compare_hands a b =
    if a.rank == b.rank
    then compare_tiebreakers (max (length a.tiebreakers) (length b.tiebreakers)) a.tiebreakers
        b.tiebreakers
    else sub_ℕ a.rank b.rank
