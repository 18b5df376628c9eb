-- ===== src/Fair/Verified.antt =====
-- The check of a hand: what was created is verified, and what is verified was created.
use servers_poker.Prelude.{
  ℕ, ◌≡◌, refl, sym, ap, ◌∙◌, inl, inr, ◌↔◌, true, false, Option, some, List, [], Bool-cases,
}
use mathlib.Core.Option.{some-injective}
use servers_poker.Fair.{
  Crypto, HandSeedData, VerificationResult, Details, seed_data, verified, order_refused,
  seed_refused, hash_server_seed, combine_seeds_hmac, generate_deck_order, create_hand_seeds,
  get_commitment, get_verification_data, verify_hand, seed_or,
}
use servers_poker.Fair.Texts.{Text, same, same_refl, same_eq}
use servers_poker.Fair.Order.{generate_deck_order-IsShuffled}

-- The seeds of a hand are always created. What is published after the hand is verified against the
-- commitment that was published before it.
pub create_hand_seeds-verify_hand :
    (c : Crypto) (random_server random_client : Text) (nonce : ℕ)
    (client_seed server_seed : Option Text)
    → (s : HandSeedData) × (create_hand_seeds c random_server random_client nonce client_seed
          server_seed
        ≡ some s)
      × (r : VerificationResult) × (verify_hand c
            (get_verification_data s).server_seed
            (get_commitment s).server_seed_hash
            (get_commitment s).client_seed
            (get_commitment s).nonce
            (get_verification_data s).deck_order
          ≡ some r)
      × (r.valid ≡ true)
unfolding create_hand_seeds verify_hand get_commitment seed_data get_verification_data
create_hand_seeds-verify_hand c random_server random_client nonce client_seed server_seed =
    let server = seed_or server_seed random_server in
    let client = seed_or client_seed random_client in
    let hash = hash_server_seed c server in
    let combined = combine_seeds_hmac c server client nonce in
    let (order, e, len, once, s) = generate_deck_order-IsShuffled c combined in
    (
      seed_data c server client nonce order,
      rw (e, create_hand_seeds) refl,
      verified,
      rw (same_refl hash, e, same_refl order) refl,
      refl,
    )

-- `verifyHand` always answers. It says valid exactly when the seed has the published hash and the
-- order is the one that the seeds determine.
pub verify_hand_iff :
    (c : Crypto) (server_seed server_seed_hash client_seed : Text) (nonce : ℕ) (expected : List ℕ)
    → (r : VerificationResult) × (verify_hand c server_seed server_seed_hash client_seed nonce
          expected
        ≡ some r)
      × ((r.valid ≡ true) ↔ (
          (hash_server_seed c server_seed ≡ server_seed_hash)
          × (generate_deck_order c (combine_seeds_hmac c server_seed client_seed nonce)
              ≡ some expected)))
unfolding verify_hand
verify_hand_iff c server_seed server_seed_hash client_seed nonce expected =
    let hash = hash_server_seed c server_seed in
    let (order, e, len, once, s) =
      generate_deck_order-IsShuffled c (combine_seeds_hmac c server_seed client_seed nonce) in
    let details : List ℕ → Details = λ order. record {
      provided_server_seed = server_seed;
      calculated_hash = hash;
      expected_hash = server_seed_hash;
      calculated_deck_order = order;
      expected_deck_order = expected;
    } in
    elim (Bool-cases (same hash server_seed_hash)) [
      | inl t ↦ elim (Bool-cases (same order expected)) [
        | inl u ↦ (
          verified,
          rw (t, e, u, verify_hand) refl,
          (
            λ v. (same_eq hash server_seed_hash t, e ∙ ap some (same_eq order expected u)),
            λ v. refl,
          ),
        )
        | inr f ↦ (
          order_refused (details order),
          rw (t, e, f, verify_hand) refl,
          (
            λ v. absurd cc,
            λ v. absurd (differ order f (some-injective order expected (sym e ∙ v.1))),
          ),
        )
      ]
      | inr f ↦ (
        seed_refused (details []),
        rw (f, verify_hand) refl,
        (λ v. absurd cc, λ v. absurd (unequal hash f v.0)),
      )
    ]
  where
    differ : (order : List ℕ) → same order expected ≡ false → order ≡ expected → ⊥
    differ order f g = cc (same_refl expected, ap (λ o. same o expected) g)

    unequal : (hash : Text) → same hash server_seed_hash ≡ false → hash ≡ server_seed_hash → ⊥
    unequal hash f g = cc (same_refl server_seed_hash, ap (λ o. same o server_seed_hash) g)
