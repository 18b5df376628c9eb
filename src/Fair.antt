-- ===== src/Fair.antt =====
-- src/services/provably-fair.service.ts: the deck order that the seeds of a hand determine, and its
-- check after the hand. A string is the list of its character codes. `crypto` is a parameter, as are
-- the two random seeds. The date and the URL are left out.
mod Texts
mod Order
mod Dealt
mod Verified
mod Tests
use servers_poker.Prelude.{
  up_to, ℕ, zero, suc, ◌+◌, ◌*◌, ◌%◌, Bool, true, false, Option, none, some, List, [], ◌∷◌, ◌++◌,
  length, get_elem?, take, drop, leb, is_empty, if◌then◌else◌,
}
use servers_poker.Deck.{swap}
use servers_poker.Fair.Texts.{Text, to_string, parse_hex, same}

-- What the service calls of `crypto`, with `digest("hex")`.
pub record Crypto : Type 0 where
  pub sha256 : Text → Text
  pub hmac_sha256 : Text → Text → Text

-- `interface HandSeedData`
pub record HandSeedData : Type 0 where
  pub server_seed : Text
  pub server_seed_hash : Text
  pub client_seed : Text
  pub nonce : ℕ
  pub combined_hash : Text
  pub deck_order : List ℕ

-- The three texts of `message`.
pub data Message : Type 0 where
  seed_was_modified : Message
  order_differs : Message
  hand_is_verified : Message

-- `details`
pub record Details : Type 0 where
  pub provided_server_seed : Text
  pub calculated_hash : Text
  pub expected_hash : Text
  pub calculated_deck_order : List ℕ
  pub expected_deck_order : List ℕ

-- `interface VerificationResult`
pub record VerificationResult : Type 0 where
  pub valid : Bool
  pub server_seed_hash_match : Bool
  pub deck_order_match : Bool
  pub message : Message
  pub details : Option Details

-- `interface HandCommitment`
pub record HandCommitment : Type 0 where
  pub server_seed_hash : Text
  pub client_seed : Text
  pub nonce : ℕ

-- `hashServerSeed`
unfoldable pub hash_server_seed : Crypto → Text → Text
hash_server_seed c server_seed = c.sha256 server_seed

-- `combineSeedsHmac`: the message is the client seed, a colon and the nonce.
unfoldable pub combine_seeds_hmac : Crypto → Text → Text → ℕ → Text
combine_seeds_hmac c server_seed client_seed nonce =
    c.hmac_sha256 server_seed (client_seed ++ 58 ∷ to_string nonce)

-- `getNextByte`: the byte and the next `hashIndex`. After the extended hash the index is 0.
unfoldable pub get_next_byte : Crypto → Text → ℕ → ℕ × ℕ
get_next_byte c combined_hash hash_index =
    if leb (length combined_hash) hash_index
    then (parse_hex (take 2 (c.sha256 (combined_hash ++ to_string hash_index))), 0)
    else (parse_hex (take 2 (drop hash_index combined_hash)), hash_index + 2)

-- The loop of `generateDeckOrder`, from `i` down to 1. A byte is under 256, so `<< 8` and `|` are a
-- product and a sum; `none` is an index out of bounds.
unfoldable pub order_from : Crypto → Text → ℕ → ℕ → List ℕ → Option (List ℕ)
unfolding swap get_next_byte
order_from c combined_hash zero hash_index order = some order
order_from c combined_hash (suc i) hash_index order =
    let (high, index1) = get_next_byte c combined_hash hash_index in
    let (low, index2) = get_next_byte c combined_hash index1 in
    elim (swap order (suc i) ((high * 256 + low) % (i + 2))) [
      | none ↦ none
      | some order' ↦ order_from c combined_hash i index2 order'
    ]

-- `generateDeckOrder`
unfoldable pub generate_deck_order : Crypto → Text → Option (List ℕ)
unfolding order_from
generate_deck_order c combined_hash = order_from c combined_hash 51 0 (up_to 52)

-- `seed || generated`
abbrev pub seed_or : Option Text → Text → Text
seed_or none generated = generated
seed_or (some seed) generated = if is_empty seed then generated else seed

-- What `createHandSeeds` returns.
unfoldable pub seed_data : Crypto → Text → Text → ℕ → List ℕ → HandSeedData
unfolding hash_server_seed combine_seeds_hmac
seed_data c server_seed client_seed nonce order = record {
  server_seed = server_seed;
  server_seed_hash = hash_server_seed c server_seed;
  client_seed = client_seed;
  nonce = nonce;
  combined_hash = combine_seeds_hmac c server_seed client_seed nonce;
  deck_order = order;
}

-- `createHandSeeds`, with the seeds that `generateServerSeed` and `generateClientSeed` would return.
unfoldable pub create_hand_seeds :
    Crypto → Text → Text → ℕ → Option Text → Option Text → Option HandSeedData
unfolding seed_data combine_seeds_hmac generate_deck_order
create_hand_seeds c random_server random_client nonce client_seed server_seed =
    let actual_server = seed_or server_seed random_server in
    let actual_client = seed_or client_seed random_client in
    elim (generate_deck_order c (combine_seeds_hmac c actual_server actual_client nonce)) [
      | none ↦ none
      | some order ↦ some (seed_data c actual_server actual_client nonce order)
    ]

-- `getCommitment`
unfoldable pub get_commitment : HandSeedData → HandCommitment
get_commitment s = record {
  server_seed_hash = s.server_seed_hash;
  client_seed = s.client_seed;
  nonce = s.nonce;
}

-- The result of `getVerificationData`, less the URL.
pub record VerificationData : Type 0 where
  pub server_seed : Text
  pub server_seed_hash : Text
  pub client_seed : Text
  pub nonce : ℕ
  pub combined_hash : Text
  pub deck_order : List ℕ

-- `getVerificationData`
unfoldable pub get_verification_data : HandSeedData → VerificationData
get_verification_data s = record {
  server_seed = s.server_seed;
  server_seed_hash = s.server_seed_hash;
  client_seed = s.client_seed;
  nonce = s.nonce;
  combined_hash = s.combined_hash;
  deck_order = s.deck_order;
}

-- The three results of `verifyHand`.
abbrev pub seed_refused : Details → VerificationResult
seed_refused details = record {
  valid = false;
  server_seed_hash_match = false;
  deck_order_match = false;
  message = seed_was_modified;
  details = some details;
}

abbrev pub order_refused : Details → VerificationResult
order_refused details = record {
  valid = false;
  server_seed_hash_match = true;
  deck_order_match = false;
  message = order_differs;
  details = some details;
}

abbrev pub verified : VerificationResult
verified = record {
  valid = true;
  server_seed_hash_match = true;
  deck_order_match = true;
  message = hand_is_verified;
  details = none;
}

-- `verifyHand`. `none` is the exception that `none` of `generate_deck_order` stands for.
unfoldable pub verify_hand : Crypto → Text → Text → Text → ℕ → List ℕ → Option VerificationResult
unfolding hash_server_seed combine_seeds_hmac generate_deck_order
verify_hand c server_seed server_seed_hash client_seed nonce expected =
    let calculated = hash_server_seed c server_seed in
    let details : List ℕ → Details = λ order. record {
      provided_server_seed = server_seed;
      calculated_hash = calculated;
      expected_hash = server_seed_hash;
      calculated_deck_order = order;
      expected_deck_order = expected;
    } in
    if same calculated server_seed_hash
    then elim (generate_deck_order c (combine_seeds_hmac c server_seed client_seed nonce)) [
      | none ↦ none
      | some order ↦ some (if same order expected then verified else order_refused (details order))
    ]
    else some (seed_refused (details []))

-- The loop of `shuffleDeckWithSeeds`, over the deck from an index on; `none` is `undefined`.
unfoldable pub pick_from {ℓ} : {A : Type ℓ} → List A → List ℕ → ℕ → List A → List (Option A)
pick_from deck order i [] = []
pick_from deck order i (c ∷ rest) =
    elim (get_elem? order i) [ none ↦ none | some k ↦ get_elem? deck k ]
    ∷ pick_from deck order (suc i) rest

-- `shuffleDeckWithSeeds`
unfoldable pub shuffle_deck_with_seeds {ℓ} : {A : Type ℓ} → List A → HandSeedData → List (Option A)
unfolding pick_from
shuffle_deck_with_seeds deck s = pick_from deck s.deck_order 0 deck
