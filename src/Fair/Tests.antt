-- ===== src/Fair/Tests.antt =====
-- A hand with made-up digests, with an instance of each theorem about the seeds of a hand.
use servers_poker.Prelude.{
  up_to, ℕ, zero, suc, ◌+◌, ◌%◌, ◌≡◌, ◌↔◌, ◌<◌, refl, true, none, some, List, [], ◌∷◌, ◌++◌, map,
  length, sum_by,
}
use servers_poker.Deck.{Card, create_deck, shuffle_with_order}
use servers_poker.Deck.Shuffled.{IsShuffled}
use servers_poker.Fair.{
  Crypto, HandSeedData, VerificationResult, hash_server_seed, combine_seeds_hmac, get_next_byte,
  generate_deck_order, create_hand_seeds, get_commitment, get_verification_data, verify_hand,
  shuffle_deck_with_seeds,
}
use servers_poker.Fair.Texts.{Text, to_string, parse_hex, decimal, parse_from}
use servers_poker.Fair.Order.{one_at, generate_deck_order-IsShuffled}
use servers_poker.Fair.Verified.{create_hand_seeds-verify_hand, verify_hand_iff}
use servers_poker.Fair.Dealt.{create_hand_seeds-deals}

-- 64 digits that depend on the sum of the codes.
abbrev digits_from : ℕ → ℕ → Text
digits_from zero n = []
digits_from (suc k) n = (48 + n % 10) ∷ digits_from k (n + 7)

abbrev made_up : Crypto
made_up = record {
  sha256 = λ s. digits_from 64 (sum_by (λ code. code) s);
  hmac_sha256 = λ key s. digits_from 64 (sum_by (λ code. code) (key ++ s));
}

to_string_407 : to_string 407 ≡ 52 ∷ 48 ∷ 55 ∷ []
unfolding decimal
to_string_407 = refl

parse_hex_7f : parse_hex (55 ∷ 102 ∷ []) ≡ 127
unfolding parse_from
parse_hex_7f = refl

-- Behind the last digit one byte of the longer hash is drawn, and then the first digits again.
get_next_byte_behind : (get_next_byte made_up (digits_from 64 0) 64).1 ≡ 0
unfolding get_next_byte
get_next_byte_behind = refl

generate_deck_order-IsShuffled_example :
    (order : List ℕ) × (generate_deck_order made_up (digits_from 64 3) ≡ some order)
    × (length order ≡ 52)
    × ((n : ℕ) → n < 52 → sum_by (one_at n) order ≡ 1)
    × IsShuffled (up_to 52) order
generate_deck_order-IsShuffled_example = generate_deck_order-IsShuffled made_up (digits_from 64 3)

create_hand_seeds-verify_hand_example :
    (s : HandSeedData) × (create_hand_seeds made_up (1 ∷ []) (2 ∷ []) 12 none (some (3 ∷ []))
      ≡ some s)
    × (r : VerificationResult) × (verify_hand made_up
          (get_verification_data s).server_seed
          (get_commitment s).server_seed_hash
          (get_commitment s).client_seed
          (get_commitment s).nonce
          (get_verification_data s).deck_order
        ≡ some r)
    × (r.valid ≡ true)
create_hand_seeds-verify_hand_example =
    create_hand_seeds-verify_hand made_up (1 ∷ []) (2 ∷ []) 12 none (some (3 ∷ []))

verify_hand_iff_example :
    (r : VerificationResult) × (verify_hand made_up (3 ∷ []) (4 ∷ []) (2 ∷ []) 12 (up_to 52)
      ≡ some r)
    × ((r.valid ≡ true) ↔ (
        (hash_server_seed made_up (3 ∷ []) ≡ 4 ∷ [])
        × (generate_deck_order made_up (combine_seeds_hmac made_up (3 ∷ []) (2 ∷ []) 12)
            ≡ some (up_to 52))))
verify_hand_iff_example = verify_hand_iff made_up (3 ∷ []) (4 ∷ []) (2 ∷ []) 12 (up_to 52)

full_deck : length create_deck ≡ 52
unfolding create_deck
full_deck = refl

create_hand_seeds-deals_example :
    (s : HandSeedData) × (create_hand_seeds made_up (1 ∷ []) (2 ∷ []) 12 none (some (3 ∷ []))
      ≡ some s)
    × (d' : List Card) × IsShuffled create_deck d'
    × (shuffle_with_order create_deck s.deck_order ≡ some (map some d'))
    × (shuffle_deck_with_seeds create_deck s ≡ map some d')
create_hand_seeds-deals_example =
    create_hand_seeds-deals made_up (1 ∷ []) (2 ∷ []) 12 none (some (3 ∷ [])) create_deck full_deck
