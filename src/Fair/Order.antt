-- ===== src/Fair/Order.antt =====
-- The deck order that a hash determines holds every place of the deck once.
use servers_poker.Prelude.{
  up_to, range_from, ℕ, zero, suc, ◌+◌, ◌*◌, ◌%◌, ◌≤◌, ◌<◌, ◌≡◌, refl, ap, ◌∙◌, ◌⊎◌, inl, inr, some,
  List, length, sum_by, arith, ◌==◌, if◌then◌else◌,
}
use servers_poker.Deck.Shuffled.{IsShuffled, swap-IsShuffled}
use servers_poker.Fair.{Crypto, get_next_byte, order_from, generate_deck_order}
use servers_poker.Fair.Texts.{Text}

order_from-IsShuffled :
    (c : Crypto) (h : Text) (i hash_index : ℕ) (order : List ℕ)
    → (i ≡ 0) ⊎ (i < length order)
    → (order' : List ℕ) × (order_from c h i hash_index order ≡ some order')
      × IsShuffled order order'
unfolding order_from
order_from-IsShuffled c h zero hash_index order l = (order, refl, (refl, λ f. refl))
order_from-IsShuffled c h (suc i) hash_index order l =
    let (high, index1) = get_next_byte c h hash_index in
    let (low, index2) = get_next_byte c h index1 in
    let j = (high * 256 + low) % (i + 2) in
    let here : suc i < length order = ground (arith, l) in
    let there : j < length order = omega (arith, here) in
    let (d1, e, s) = swap-IsShuffled order (suc i) j here there in
    let (d2, g, t) = order_from-IsShuffled c h i index2 d1 (inr (omega (arith, here, s.0))) in
    (d2, rw (e, order_from) g, (t.0 ∙ s.0, λ f. t.1 f ∙ s.1 f))

-- 1 where two numbers are equal.
abbrev pub one_at : ℕ → ℕ → ℕ
one_at n x = if x == n then 1 else 0

range_from-below : (n i k : ℕ) → n < i → sum_by (one_at n) (range_from i k) ≡ 0
range_from-below n i zero h = refl
range_from-below n i (suc k) h = ground (arith, range_from-below n (suc i) k (omega (arith, h)), h)

range_from-once : (n i k : ℕ) → i ≤ n → n < i + k → sum_by (one_at n) (range_from i k) ≡ 1
range_from-once n i zero h l = absurd (omega arith)
range_from-once n i (suc k) h l = elim (split h) [
  | inl e ↦ ground (arith, range_from-below n (suc i) k (omega (arith, e)), e)
  | inr g ↦ ground (arith, range_from-once n (suc i) k g (omega (arith, l)), g)
]
  where
    split : i ≤ n → (i ≡ n) ⊎ (suc i ≤ n)
    split h = ground arith

range_from-length : (i k : ℕ) → length (range_from i k) ≡ k
range_from-length i zero = refl
range_from-length i (suc k) = ap suc (range_from-length (suc i) k)

-- Whatever the hash, a deck order is found. It has 52 places, each number under 52 stands in it
-- once, and every sum over it is the sum over 0, 1, ..., 51.
pub generate_deck_order-IsShuffled :
    (c : Crypto) (combined_hash : Text)
    → (order : List ℕ) × (generate_deck_order c combined_hash ≡ some order)
      × (length order ≡ 52)
      × ((n : ℕ) → n < 52 → sum_by (one_at n) order ≡ 1)
      × IsShuffled (up_to 52) order
unfolding generate_deck_order
generate_deck_order-IsShuffled c h =
    let (order, e, s) =
      order_from-IsShuffled c h 51 0 (up_to 52) (inr (omega (arith, range_from-length 0 52))) in
    (
      order,
      e,
      s.0,
      (λ n l. s.1 (one_at n) ∙ range_from-once n 0 52 (omega arith) (omega (arith, l))),
      s,
    )
