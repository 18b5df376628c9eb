-- ===== src/Betting/Pots/Conservation.antt =====
-- No chip is lost or made by the split into pots.
use servers_poker.Prelude.{
  ℕ, ◌+◌, ◌≤◌, ◌<◌, ◌≡◌, refl, ◌∙◌, inl, inr, true, false, some, List, [], ◌∷◌, map, arith,
  includes, Distinct, All, All-map_of, sum_by, sum_by-append, Bool-cases, Option-cases, ◌==◌,
}
use servers_poker.Prelude.Dict.{Dict, lookup, total}
use servers_poker.Betting.{Player, Pot}
use servers_poker.Betting.Pots.{
  ActiveBet, PotManager, entries, active_bets, sort_bets, all_bet_levels, pot_amount_at, merge_dead,
  place_dead, add_level, add_levels, split_pots, calculate_pots, get_total_pot, eligible_at,
}
use servers_poker.Betting.Pots.Levels.{
  IsSorted, sort_bets-IsSorted, sum_by-sort_bets, Reaches, all_bet_levels-Reaches, matched,
  pot_amount_at-matched,
}

-- The chips in the pots.
abbrev pub in_pots : List Pot → ℕ
in_pots = sum_by (λ p. p.amount)

merge_dead-in_pots :
    (dead : ℕ) (pots merged : List Pot)
    → merge_dead dead pots ≡ some merged
    → in_pots merged ≡ in_pots pots + dead
unfolding merge_dead
merge_dead-in_pots dead [] merged e = cc
merge_dead-in_pots dead (p ∷ pots) merged e = elim (Option-cases (merge_dead dead pots)) [
  | inl n ↦ ground (arith, n)
  | inr (rest, m) ↦ ground (arith, m, merge_dead-in_pots dead pots rest m)
]

place_dead-in_pots :
    (dead : ℕ) (pots : List Pot) → in_pots (place_dead dead pots) ≡ in_pots pots + dead
unfolding place_dead
place_dead-in_pots dead pots = elim (Option-cases (merge_dead dead pots)) [
  | inl n ↦
      rw (n, place_dead)
        (omega (
          arith,
          sum_by-append (λ (p : Pot). p.amount) pots
              (record { amount = dead; eligible_player_ids = [] } ∷ []),
        ))
  | inr (merged, m) ↦ rw (m, place_dead) (merge_dead-in_pots dead pots merged m)
]

add_level-in_pots :
    (bets : List ActiveBet) (previous level : ℕ) (pots : List Pot)
    → in_pots (add_level bets previous level pots)
      ≡ in_pots pots + pot_amount_at previous level bets
unfolding add_level
add_level-in_pots bets previous level pots =
    let amount = pot_amount_at previous level bets in
    let pot : Pot = record { amount = amount; eligible_player_ids = eligible_at level bets } in
    ground
      (arith, place_dead-in_pots amount pots, sum_by-append (λ (p : Pot). p.amount) pots (pot ∷ []))

sum_total-matched :
    (previous : ℕ) (bets : List ActiveBet)
    → All (λ b. b.total ≤ previous) bets
    → matched previous bets ≡ sum_by (λ b. b.total) bets
sum_total-matched previous [] h = refl
sum_total-matched previous (b ∷ bets) h = omega (arith, sum_total-matched previous bets h.1, h.0)

-- Climbing through the levels puts all that the bets still hold into pots.
add_levels-in_pots :
    (bets : List ActiveBet) (levels : List ℕ) (previous : ℕ) (pots : List Pot)
    → All (λ b. Reaches previous levels b.total) bets
    → in_pots (add_levels bets previous levels pots) + matched previous bets
      ≡ in_pots pots + sum_by (λ b. b.total) bets
unfolding add_levels
add_levels-in_pots bets [] previous pots h = omega (arith, sum_total-matched previous bets h)
add_levels-in_pots [] (level ∷ levels) previous pots h = omega (
  arith,
  add_levels-in_pots [] levels level (add_level [] previous level pots) tt,
  add_level-in_pots [] previous level pots,
  pot_amount_at-matched previous level [],
)
add_levels-in_pots (b ∷ bets) (level ∷ levels) previous pots h = omega (
  arith,
  add_levels-in_pots (b ∷ bets) levels level (add_level (b ∷ bets) previous level pots)
      (All-map_of _ (b ∷ bets) (λ c r. r.2) h),
  add_level-in_pots (b ∷ bets) previous level pots,
  pot_amount_at-matched previous level (b ∷ bets) h.0.0 (All-map_of _ (b ∷ bets) (λ c r. r.1) h),
)

split_pots-in_pots :
    (bets : List ActiveBet)
    → IsSorted 0 bets
    → in_pots (split_pots bets) ≡ sum_by (λ b. b.total) bets
unfolding split_pots
split_pots-in_pots bets s = omega (
  arith,
  add_levels-in_pots bets (all_bet_levels bets) 0 [] (all_bet_levels-Reaches bets s),
  matched_zero bets,
)
  where
    matched_zero : (bets : List ActiveBet) → matched 0 bets ≡ 0
    matched_zero [] = refl
    matched_zero (b ∷ bets) = omega (arith, matched_zero bets)

entries-total :
    (totals : Dict) (players : List Player)
    → sum_by (λ b. b.total) (entries totals players) ≡ sum_by (λ p. lookup p.id totals) players
unfolding entries
entries-total totals [] = refl
entries-total totals (p ∷ players) = ground (arith, entries-total totals players)

-- The pots hold what the players have put in.
calculate_pots-stakes :
    (m : PotManager) (players : List Player)
    → 0 < sum_by (λ p. lookup p.id m.player_total_bets) players
    → in_pots (calculate_pots m players).pots
      ≡ sum_by (λ p. lookup p.id m.player_total_bets) players
unfolding calculate_pots active_bets
calculate_pots-stakes m players h =
    let bets = entries m.player_total_bets players in
    ground (
      arith,
      split_pots-in_pots (sort_bets bets) (sort_bets-IsSorted bets),
      sum_by-sort_bets (λ b. b.total) bets,
      entries-total m.player_total_bets players,
    )

-- The keys of the record, none of them twice.
abbrev pub keys : Dict → List ℕ
keys = map (λ e. e.0)

abbrev pub ids : List Player → List ℕ
ids = map (λ p. p.id)

-- Every key is the id of one player, and no two players share an id.
pub record IsSeated (totals : Dict) (players : List Player) : Type 0 where
  pub distinct_keys : Distinct (keys totals)
  pub distinct_ids : Distinct (ids players)
  pub known : All (λ k. includes k (ids players) ≡ true) (keys totals)

lookup_missing : (k : ℕ) (d : Dict) → includes k (keys d) ≡ false → lookup k d ≡ 0
lookup_missing k [] h = refl
lookup_missing k (e ∷ d) h = ground (arith, lookup_missing k d)

-- A write at the key of a player who is not there is not seen.
stakes_other :
    (k v : ℕ) (d : Dict) (players : List Player)
    → includes k (ids players) ≡ false
    → sum_by (λ p. lookup p.id ((k, v) ∷ d)) players ≡ sum_by (λ p. lookup p.id d) players
stakes_other k v d [] h = refl
stakes_other k v d (p ∷ players) h = ground (arith, stakes_other k v d players)

stakes_one :
    (k v : ℕ) (d : Dict) (players : List Player)
    → Distinct (ids players)
    → includes k (ids players) ≡ true
    → lookup k d ≡ 0
    → sum_by (λ p. lookup p.id ((k, v) ∷ d)) players ≡ v + sum_by (λ p. lookup p.id d) players
stakes_one k v d [] u h z = cc
stakes_one k v d (p ∷ players) u h z = elim (Bool-cases (k == p.id)) [
  | inl here ↦ ground (arith, stakes_other k v d players, u.0)
  | inr there ↦ ground (arith, stakes_one k v d players u.1, h)
]

pub stakes-total :
    (totals : Dict) (players : List Player)
    → IsSeated totals players
    → sum_by (λ p. lookup p.id totals) players ≡ total totals
stakes-total [] players s = zero players
  where
    zero : (players : List Player) → sum_by (λ p. lookup p.id []) players ≡ 0
    zero [] = refl
    zero (p ∷ players) = omega (arith, zero players)
stakes-total ((k, v) ∷ d) players s = omega (
  arith,
  stakes_one k v d players s.distinct_ids s.known.0 (lookup_missing k d s.distinct_keys.0),
  stakes-total d players (record {
    distinct_keys = s.distinct_keys.1;
    distinct_ids = s.distinct_ids;
    known = s.known.1;
  }),
)

-- When chips are in, all keys of the totals are ids of players and no id stands twice, the pots
-- that `calculatePots` makes hold exactly `getTotalPot`.
pub calculate_pots-get_total_pot :
    (m : PotManager) (players : List Player)
    → IsSeated m.player_total_bets players
    → 0 < get_total_pot m
    → in_pots (calculate_pots m players).pots ≡ get_total_pot m
unfolding get_total_pot
calculate_pots-get_total_pot m players s h =
    let e = stakes-total m.player_total_bets players s in
    calculate_pots-stakes m players (omega arith) ∙ e
