-- ===== src/Fair/Dealt.antt =====
-- The deck that a deck order deals.
use servers_poker.Prelude.{
  up_to, range_from, ℕ, zero, suc, ◌+◌, ◌<◌, ◌≤◌, ◌≡◌, refl, sym, ap, ◌∙◌, subst, Option, none,
  some, List, [], ◌∷◌, map, length, get_elem?, sum_by, ltb, if◌then◌else◌, arith, All,
}
use servers_poker.Deck.{shuffle_with_order}
use servers_poker.Deck.Shuffled.{IsShuffled, get_elem?-some}
use servers_poker.Fair.{
  Crypto, HandSeedData, seed_data, create_hand_seeds, pick_from, shuffle_deck_with_seeds,
  combine_seeds_hmac, seed_or,
}
use servers_poker.Fair.Texts.{Text}
use servers_poker.Fair.Order.{generate_deck_order-IsShuffled}

-- Where the sum of what is above a bound is 0, nothing is.
abbrev above : ℕ → ℕ → ℕ
above n k = if ltb k n then 0 else 1

above-range_from : (n i k : ℕ) → i + k ≤ n → sum_by (above n) (range_from i k) ≡ 0
above-range_from n i zero h = refl
above-range_from n i (suc k) h = ground (arith, above-range_from n (suc i) k (omega (arith, h)), h)

All-above : (n : ℕ) (order : List ℕ) → sum_by (above n) order ≡ 0 → All (λ k. k < n) order
All-above n [] e = tt
All-above n (k ∷ order) e = (ground (arith, e), All-above n order (omega (arith, e)))

module _ {A : Type 0} where
  -- What a place of the deck weighs.
  abbrev weight : (A → ℕ) → List A → ℕ → ℕ
  weight f deck k = elim (get_elem? deck k) [ none ↦ 0 | some a ↦ f a ]

  picks :
      (deck : List A) (order : List ℕ)
      → All (λ k. k < length deck) order
      → (d' : List A) × (map (get_elem? deck) order ≡ map some d')
        × (length d' ≡ length order)
        × ((f : A → ℕ) → sum_by f d' ≡ sum_by (weight f deck) order)
  picks deck [] h = ([], refl, refl, λ f. refl)
  picks deck (k ∷ order) h =
      let (x, e) = get_elem?-some deck k h.0 in
      let (d', g, l, w) = picks deck order h.1 in
      (
        x ∷ d',
        cc (e, g),
        ap suc l,
        λ f.
            omega (arith, w f, ap {B = ℕ} (λ (o : Option A). elim o [ none ↦ 0 | some a ↦ f a ]) e),
      )

  -- Behind `i` cards, the places from `i` on weigh what the cards there weigh.
  weight-shift :
      (f : A → ℕ) (c : A) (deck : List A) (i k : ℕ)
      → sum_by (weight f (c ∷ deck)) (range_from (suc i) k)
        ≡ sum_by (weight f deck) (range_from i k)
  weight-shift f c deck i zero = refl
  weight-shift f c deck i (suc k) = omega (arith, weight-shift f c deck (suc i) k)

  weight-up_to :
      (f : A → ℕ) (deck : List A) → sum_by (weight f deck) (up_to (length deck)) ≡ sum_by f deck
  weight-up_to f [] = refl
  weight-up_to f (c ∷ deck) =
      omega (arith, weight-shift f c deck 0 (length deck), weight-up_to f deck)

  -- From a place on where as many places as cards are left.
  pick_from-map :
      (deck : List A) (order : List ℕ) (rest : List A) (left : List ℕ) (i : ℕ)
      → ((k : ℕ) → get_elem? order (i + k) ≡ get_elem? left k)
      → length left ≡ length rest
      → pick_from deck order i rest ≡ map (get_elem? deck) left
  unfolding pick_from
  pick_from-map deck order [] [] i h l = refl
  pick_from-map deck order [] (k ∷ left) i h l = absurd (omega (arith, l))
  pick_from-map deck order (c ∷ rest) [] i h l = absurd (omega (arith, l))
  pick_from-map deck order (c ∷ rest) (k ∷ left) i h l =
      let next : (m : ℕ) → get_elem? order (suc i + m) ≡ get_elem? left m =
        λ m. subst (λ n. get_elem? order n ≡ get_elem? left m) (omega arith) (h (suc m)) in
      let here : get_elem? order i ≡ some k =
        subst (λ n. get_elem? order n ≡ some k) (omega arith) (h 0) in
      rw here (
        ap (λ r. get_elem? deck k ∷ r)
          (pick_from-map deck order rest left (suc i) next (omega (arith, l))))

-- The deck of a hand: any 52 cards, in the order of seeds that `createHandSeeds` returns, are dealt
-- without a missing card, and they are the cards of the deck, each as often as there. So deals
-- `shuffleWithOrder`, and `shuffleDeckWithSeeds` deals the same cards in the same order.
pub create_hand_seeds-deals :
    {A : Type 0} (c : Crypto) (random_server random_client : Text) (nonce : ℕ)
    (client_seed server_seed : Option Text) (deck : List A)
    → length deck ≡ 52
    → (s : HandSeedData) × (create_hand_seeds c random_server random_client nonce client_seed
          server_seed
        ≡ some s)
      × (d' : List A) × IsShuffled deck d'
      × (shuffle_with_order deck s.deck_order ≡ some (map some d'))
      × (shuffle_deck_with_seeds deck s ≡ map some d')
unfolding create_hand_seeds shuffle_with_order shuffle_deck_with_seeds seed_data
create_hand_seeds-deals c random_server random_client nonce client_seed server_seed deck full =
    let combined =
      combine_seeds_hmac c (seed_or server_seed random_server) (seed_or client_seed random_client)
        nonce in
    let (order, e, l, once, s) = generate_deck_order-IsShuffled c combined in
    let places : All (λ k. k < length deck) order =
      All-above (length deck) order
        (s.1 (above (length deck)) ∙ above-range_from (length deck) 0 52 (omega (arith, full))) in
    let (d', g, l', w) = picks deck order places in
    let same : length order ≡ length deck = l ∙ sym full in
    (
      seed_data c (seed_or server_seed random_server) (seed_or client_seed random_client) nonce
          order,
      rw (e, create_hand_seeds) refl,
      d',
      (
        l' ∙ same,
        λ f.
            w f
            ∙ s.1 (weight f deck)
            ∙ subst (λ n. sum_by (weight f deck) (up_to n) ≡ sum_by f deck) full
                (weight-up_to f deck),
      ),
      ground (arith, ap some g, same),
      pick_from-map deck order deck order 0 (λ k. ap (get_elem? order) (omega arith)) same ∙ g,
    )
