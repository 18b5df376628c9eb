-- ===== src/Deck.antt =====
-- src/domain/deck.ts: the deck and its two shuffles. Ranks and suits are numbered in the order of
-- `RANKS` and `SUITS`. The printing and the parsing of cards are left out.
pub mod Shuffled
mod Tests
use servers_poker.Prelude.{
  ℕ, zero, suc, ◌+◌, ◌-◌, Option, none, some, List, [], ◌∷◌, ◌++◌, map, length, get_elem?, set,
  ◌==◌, if◌then◌else◌,
}

-- `interface Card`
pub record Card : Type 0 where
  pub rank : ℕ
  pub suit : ℕ
  pub value : ℕ

-- `SUITS`
abbrev pub suits : List ℕ
suits = 0 ∷ 1 ∷ 2 ∷ 3 ∷ []

-- `RANKS`
abbrev pub ranks : List ℕ
ranks = 0 ∷ 1 ∷ 2 ∷ 3 ∷ 4 ∷ 5 ∷ 6 ∷ 7 ∷ 8 ∷ 9 ∷ 10 ∷ 11 ∷ 12 ∷ []

-- `RANK_VALUES`
abbrev pub rank_value : ℕ → ℕ
rank_value rank = rank + 2

-- The loops of `createDeck`.
unfoldable pub cards_of : List ℕ → List Card
cards_of [] = []
cards_of (suit ∷ suits) =
    map (λ rank. record { rank = rank; suit = suit; value = rank_value rank }) ranks
    ++ cards_of suits

-- `createDeck`
unfoldable pub create_deck : List Card
unfolding cards_of
create_deck = cards_of suits

-- `[d[i], d[j]] = [d[j], d[i]]`; `none` where an index is out of bounds.
unfoldable pub swap {ℓ} : {A : Type ℓ} → List A → ℕ → ℕ → Option (List A)
swap d i j = elim (get_elem? d i) [
  | none ↦ none
  | some x ↦ elim (get_elem? d j) [ none ↦ none | some y ↦ some (set (set d i y) j x) ]
]

-- The loop of `shuffle`, from `i` down to 1. The draw `random_int i` stands for `randomInt(0, i + 1)`.
unfoldable pub shuffle_from {ℓ} : {A : Type ℓ} → (ℕ → ℕ) → ℕ → List A → Option (List A)
unfolding swap
shuffle_from random_int zero d = some d
shuffle_from random_int (suc i) d = elim (swap d (suc i) (random_int (suc i))) [
  | none ↦ none
  | some d' ↦ shuffle_from random_int i d'
]

-- `shuffle`
unfoldable pub shuffle {ℓ} : {A : Type ℓ} → (ℕ → ℕ) → List A → Option (List A)
unfolding shuffle_from
shuffle random_int deck = shuffle_from random_int (length deck - 1) deck

-- `shuffleWithOrder`: none where it throws; a card that an index misses is `none`.
unfoldable pub shuffle_with_order {ℓ} : {A : Type ℓ} → List A → List ℕ → Option (List (Option A))
shuffle_with_order deck deck_order =
    if length deck_order == length deck then some (map (get_elem? deck) deck_order) else none
