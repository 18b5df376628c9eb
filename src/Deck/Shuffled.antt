-- ===== src/Deck/Shuffled.antt =====
-- A shuffled deck has the cards of the deck.
use servers_poker.Prelude.{
  ℕ, zero, suc, ◌+◌, ◌-◌, ◌≤◌, ◌<◌, ◌≡◌, refl, ◌∙◌, ap, inl, inr, ◌⊎◌, some, List, [], ◌∷◌, length,
  get_elem?, set, sum_by, length-set, arith,
}
use mathlib.Core.Option.{some-injective}
use servers_poker.Deck.{swap, shuffle_from, shuffle}

module _ {A : Type 0} where
  pub get_elem?-some : (d : List A) (i : ℕ) → i < length d → (x : A) × (get_elem? d i ≡ some x)
  get_elem?-some [] i h = absurd (omega arith)
  get_elem?-some (x ∷ d) zero h = (x, refl)
  get_elem?-some (x ∷ d) (suc i) h = get_elem?-some d i (omega arith)

  pub sum_by-set :
      (f : A → ℕ) (d : List A) (i : ℕ) (x v : A)
      → get_elem? d i ≡ some x
      → sum_by f (set d i v) + f x ≡ sum_by f d + f v
  sum_by-set f [] i x v e = absurd cc
  sum_by-set f (y ∷ d) zero x v e = omega (arith, ap f (some-injective y x e))
  sum_by-set f (y ∷ d) (suc i) x v e = omega (arith, sum_by-set f d i x v e)

  -- A write of the value that a place has leaves it there.
  pub get_elem?-set :
      (d : List A) (i j : ℕ) (y : A) → get_elem? d j ≡ some y → get_elem? (set d i y) j ≡ some y
  get_elem?-set [] i j y e = e
  get_elem?-set (x ∷ d) zero zero y e = refl
  get_elem?-set (x ∷ d) zero (suc j) y e = e
  get_elem?-set (x ∷ d) (suc i) zero y e = e
  get_elem?-set (x ∷ d) (suc i) (suc j) y e = get_elem?-set d i j y e

  -- The list has as many cards as `d`, and every sum over it is the sum over `d`.
  abbrev pub IsShuffled : List A → List A → Type 0
  IsShuffled d d' = (length d' ≡ length d) × ((f : A → ℕ) → sum_by f d' ≡ sum_by f d)

  pub swap-IsShuffled :
      (d : List A) (i j : ℕ)
      → i < length d
      → j < length d
      → (d' : List A) × (swap d i j ≡ some d') × IsShuffled d d'
  unfolding swap
  swap-IsShuffled d i j h k =
      let (x, e) = get_elem?-some d i h in
      let (y, g) = get_elem?-some d j k in
      let again = get_elem?-set d i j y g in
      (
        set (set d i y) j x,
        rw (e, g, swap) refl,
        (
          length-set (set d i y) j x ∙ length-set d i y,
          λ f. omega (arith, sum_by-set f d i x y e, sum_by-set f (set d i y) j y x again),
        ),
      )

  shuffle_from-IsShuffled :
      (random_int : ℕ → ℕ) (i : ℕ) (d : List A)
      → ((k : ℕ) → random_int k ≤ k)
      → (i ≡ 0) ⊎ (i < length d)
      → (d' : List A) × (shuffle_from random_int i d ≡ some d') × IsShuffled d d'
  unfolding shuffle_from
  shuffle_from-IsShuffled random_int zero d drawn h = (d, refl, (refl, λ f. refl))
  shuffle_from-IsShuffled random_int (suc i) d drawn h =
      let here : suc i < length d = ground (arith, h) in
      let there : random_int (suc i) < length d = omega (arith, drawn (suc i), here) in
      let (d1, e, s) = swap-IsShuffled d (suc i) (random_int (suc i)) here there in
      let (d2, g, t) =
        shuffle_from-IsShuffled random_int i d1 drawn (inr (omega (arith, here, s.0))) in
      (d2, rw (e, shuffle_from) g, (t.0 ∙ s.0, λ f. t.1 f ∙ s.1 f))

-- Where `randomInt(0, i + 1)` draws no number above `i`, `shuffle` returns a deck with as many cards,
-- over which every sum is what it is over the deck: it has the same cards, in some order.
pub shuffle-IsShuffled :
    {A : Type 0} (random_int : ℕ → ℕ) (deck : List A)
    → ((k : ℕ) → random_int k ≤ k)
    → (shuffled : List A) × (shuffle random_int deck ≡ some shuffled) × IsShuffled deck shuffled
unfolding shuffle
shuffle-IsShuffled random_int [] drawn =
    shuffle_from-IsShuffled random_int (0 - 1) [] drawn (inl (omega arith))
shuffle-IsShuffled random_int (c ∷ deck) drawn =
    shuffle_from-IsShuffled random_int (suc (length deck) - 1) (c ∷ deck) drawn (inr (omega arith))
