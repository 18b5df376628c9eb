-- ===== src/Deck/Tests.antt =====
-- Runs of the deck and its shuffles, with an instance of each theorem about them.
use servers_poker.Prelude.{ℕ, ◌≡◌, refl, some, List, [], ◌∷◌, length, arith}
use servers_poker.Deck.{create_deck, shuffle, shuffle_with_order}
use servers_poker.Deck.Shuffled.{IsShuffled, shuffle-IsShuffled}

create_deck-length : length create_deck ≡ 52
unfolding create_deck
create_deck-length = refl

-- Every draw is 0: the last card goes to the front at each step.
abbrev no_luck : ℕ → ℕ
no_luck k = 0

shuffle_four : shuffle {A = ℕ} no_luck (1 ∷ 2 ∷ 3 ∷ 4 ∷ []) ≡ some (2 ∷ 3 ∷ 4 ∷ 1 ∷ [])
unfolding shuffle
shuffle_four = refl

order_three :
    shuffle_with_order {A = ℕ} (7 ∷ 8 ∷ 9 ∷ []) (2 ∷ 0 ∷ 1 ∷ [])
    ≡ some (some 9 ∷ some 7 ∷ some 8 ∷ [])
unfolding shuffle_with_order
order_three = refl

shuffle-IsShuffled_example :
    (shuffled : List ℕ) × (shuffle {A = ℕ} no_luck (1 ∷ 2 ∷ 3 ∷ 4 ∷ []) ≡ some shuffled)
    × IsShuffled (1 ∷ 2 ∷ 3 ∷ 4 ∷ []) shuffled
shuffle-IsShuffled_example = shuffle-IsShuffled no_luck (1 ∷ 2 ∷ 3 ∷ 4 ∷ []) (λ k. omega arith)
