-- ===== src/Betting/Pots/Seated.antt =====
-- `addBet`: the pot grows by the bet, and its keys stay ids of players.
use servers_poker.Prelude.{
  ℕ, ◌+◌, ◌≡◌, refl, true, ◌||◌, inl, inr, List, [], ◌∷◌, arith, includes, Distinct, All, ◌==◌,
  Bool-cases,
}
use servers_poker.Prelude.Dict.{Dict, lookup, insert, total-insert}
use servers_poker.Betting.{Player}
use servers_poker.Betting.Pots.{PotManager, add_bet, get_total_pot}
use servers_poker.Betting.Pots.Conservation.{keys, ids, IsSeated}

includes-keys-insert :
    (a k v : ℕ) (d : Dict) → includes a (keys (insert k v d)) ≡ (a == k || includes a (keys d))
includes-keys-insert a k v [] = refl
includes-keys-insert a k v ((j, w) ∷ d) = ground (arith, includes-keys-insert a k v d)

Distinct-keys-insert : (k v : ℕ) (d : Dict) → Distinct (keys d) → Distinct (keys (insert k v d))
Distinct-keys-insert k v [] h = (refl, tt)
Distinct-keys-insert k v ((j, w) ∷ d) h = elim (Bool-cases (k == j)) [
  | inl here ↦ rw here (ground (arith, h.0, here), h.1)
  | inr there ↦
      rw there
        (ground (arith, includes-keys-insert j k v d, h.0, there), Distinct-keys-insert k v d h.1)
]

All-keys-insert :
    (P : ℕ → Type 0) (k v : ℕ) (d : Dict) → P k → All P (keys d) → All P (keys (insert k v d))
All-keys-insert P k v [] p h = (p, tt)
All-keys-insert P k v ((j, w) ∷ d) p h = elim (Bool-cases (k == j)) [
  | inl here ↦ rw here (p, h.1)
  | inr there ↦ rw there (h.0, All-keys-insert P k v d p h.1)
]

-- A bet of a player at the table leaves the totals in order, and adds itself to the pot.
pub add_bet-IsSeated :
    (m : PotManager) (players : List Player) (id amount : ℕ)
    → includes id (ids players) ≡ true
    → IsSeated m.player_total_bets players
    → IsSeated (add_bet m id amount).player_total_bets players
unfolding add_bet
add_bet-IsSeated m players id amount known s =
    let v = lookup id m.player_total_bets + amount in
    record {
      distinct_keys = Distinct-keys-insert id v m.player_total_bets s.distinct_keys;
      distinct_ids = s.distinct_ids;
      known = All-keys-insert _ id v m.player_total_bets known s.known;
    }

pub get_total_pot-add_bet :
    (m : PotManager) (id amount : ℕ)
    → get_total_pot (add_bet m id amount) ≡ get_total_pot m + amount
unfolding get_total_pot add_bet
get_total_pot-add_bet m id amount =
    omega (arith, total-insert id (lookup id m.player_total_bets + amount) m.player_total_bets)
