-- ===== src/Betting/Pots/Levels.antt =====
-- The bet levels of `calculatePots`: sorted, and reaching every bet.
use servers_poker.Prelude.{
  ℕ, ◌+◌, ◌-◌, ◌*◌, ◌≤◌, ◌≡◌, refl, sym, subst, ◌⊎◌, inl, inr, true, false, List, [], ◌∷◌, map,
  arith, length, filter, includes, leb→le, All, All-zip, All-map_of, leb, min, sum_by, Bool-cases,
}
use servers_poker.Betting.Pots.{
  ActiveBet, insert_bet, sort_bets, unique_from, all_bet_levels, pot_amount_at,
}

-- Bets in ascending order of their totals, from `low` on.
abbrev pub IsSorted : ℕ → List ActiveBet → Type 0
IsSorted low [] = Unit
IsSorted low (b ∷ bets) = (low ≤ b.total) × IsSorted b.total bets

insert_bet-IsSorted :
    (low : ℕ) (b : ActiveBet) (bets : List ActiveBet)
    → low ≤ b.total
    → IsSorted low bets
    → IsSorted low (insert_bet b bets)
unfolding insert_bet
insert_bet-IsSorted low b [] h s = (h, tt)
insert_bet-IsSorted low b (c ∷ bets) h s = ground (arith, insert_bet-IsSorted c.total b bets, s.1)

-- The sort sorts.
pub sort_bets-IsSorted : (bets : List ActiveBet) → IsSorted 0 (sort_bets bets)
unfolding sort_bets
sort_bets-IsSorted [] = tt
sort_bets-IsSorted (b ∷ bets) =
    insert_bet-IsSorted 0 b (sort_bets bets) (omega arith) (sort_bets-IsSorted bets)

sum_by-insert_bet :
    (f : ActiveBet → ℕ) (b : ActiveBet) (bets : List ActiveBet)
    → sum_by f (insert_bet b bets) ≡ f b + sum_by f bets
unfolding insert_bet
sum_by-insert_bet f b [] = refl
sum_by-insert_bet f b (c ∷ bets) = ground (arith, sum_by-insert_bet f b bets)

-- The sort keeps every sum over the bets.
pub sum_by-sort_bets :
    (f : ActiveBet → ℕ) (bets : List ActiveBet) → sum_by f (sort_bets bets) ≡ sum_by f bets
unfolding sort_bets
sum_by-sort_bets f [] = refl
sum_by-sort_bets f (b ∷ bets) =
    omega (arith, sum_by-insert_bet f b (sort_bets bets), sum_by-sort_bets f bets)

-- Climbing through `levels` from `previous`, no level passes strictly between a bet's total and
-- the level before, and the climb reaches the total.
abbrev pub Reaches : ℕ → List ℕ → ℕ → Type 0
Reaches previous [] t = t ≤ previous
Reaches previous (level ∷ levels) t =
    (previous ≤ level) × ((t ≤ previous) ⊎ (level ≤ t)) × Reaches level levels t

-- Every number seen so far is at most `low`.
abbrev SeenBelow : ℕ → List ℕ → Type 0
SeenBelow low seen = All (λ x. x ≤ low) seen

seen_below : (x low : ℕ) (seen : List ℕ) → SeenBelow low seen → includes x seen ≡ true → x ≤ low
seen_below x low [] h e = cc
seen_below x low (y ∷ seen) h e = ground (arith, seen_below x low seen h.1)

SeenBelow-mono :
    (low high : ℕ) (seen : List ℕ) → low ≤ high → SeenBelow low seen → SeenBelow high seen
SeenBelow-mono low high seen h = All-map_of (λ x. x ≤ high) seen (λ x k. omega arith)

IsSorted-le :
    (low high : ℕ) (bets : List ActiveBet) → low ≤ high → IsSorted high bets → IsSorted low bets
IsSorted-le low high [] h s = tt
IsSorted-le low high (b ∷ bets) h s = (omega arith, s.1)

IsSorted-All : (low : ℕ) (bets : List ActiveBet) → IsSorted low bets → All (λ b. low ≤ b.total) bets
IsSorted-All low [] s = tt
IsSorted-All low (b ∷ bets) s = (s.0, IsSorted-All low bets (IsSorted-le low b.total bets s.0 s.1))

-- A total that is already reached stays reached.
reached_below :
    (seen : List ℕ) (low t : ℕ) (bets : List ActiveBet)
    → IsSorted low bets
    → t ≤ low
    → Reaches low (unique_from seen (map (λ b. b.total) bets)) t
unfolding unique_from
reached_below seen low t [] s h = h
reached_below seen low t (b ∷ bets) s h = elim (Bool-cases (includes b.total seen)) [
  | inl old ↦ rw old (reached_below seen low t bets (IsSorted-le low b.total bets s.0 s.1) h)
  | inr new ↦ rw new (s.0, inl h, reached_below (b.total ∷ seen) b.total t bets s.1 (omega arith))
]

unique_from_old :
    (x : ℕ) (xs seen : List ℕ)
    → includes x seen ≡ true
    → unique_from seen (x ∷ xs) ≡ unique_from seen xs
unfolding unique_from
unique_from_old x xs seen e = rw e

unique_from_new :
    (x : ℕ) (xs seen : List ℕ)
    → includes x seen ≡ false
    → unique_from seen (x ∷ xs) ≡ x ∷ unique_from (x ∷ seen) xs
unfolding unique_from
unique_from_new x xs seen e = rw e

levels_reach :
    (seen : List ℕ) (low : ℕ) (bets : List ActiveBet)
    → IsSorted low bets
    → SeenBelow low seen
    → All (λ b. Reaches low (unique_from seen (map (λ b. b.total) bets)) b.total) bets
levels_reach seen low [] s h = tt
levels_reach seen low (b ∷ bets) s h = elim (Bool-cases (includes b.total seen)) [
  | inl old ↦
      let s' = IsSorted-le low b.total bets s.0 s.1 in
      subst (λ ls. All (λ c. Reaches low ls c.total) (b ∷ bets))
        (sym (unique_from_old b.total (map (λ b. b.total) bets) seen old))
        (
          reached_below seen low b.total bets s' (seen_below b.total low seen h old),
          levels_reach seen low bets s' h,
        )
  | inr new ↦
      let seen' = b.total ∷ seen in
      subst (λ ls. All (λ c. Reaches low ls c.total) (b ∷ bets))
        (sym (unique_from_new b.total (map (λ b. b.total) bets) seen new))
        (
          (s.0, inr (omega arith), reached_below seen' b.total b.total bets s.1 (omega arith)),
          All-zip _ bets (λ c le r. (s.0, inr le, r)) (IsSorted-All b.total bets s.1)
              (levels_reach seen' b.total bets s.1
                (omega arith, SeenBelow-mono low b.total seen s.0 h)),
        )
]

-- The levels of a sorted list of bets reach every bet.
pub all_bet_levels-Reaches :
    (bets : List ActiveBet)
    → IsSorted 0 bets
    → All (λ b. Reaches 0 (all_bet_levels bets) b.total) bets
unfolding all_bet_levels
all_bet_levels-Reaches bets s = levels_reach [] 0 bets s tt

-- What the bets hold up to a level.
abbrev pub matched : ℕ → List ActiveBet → ℕ
matched level = sum_by (λ b. min b.total level)

contributions :
    (previous d : ℕ) (bets : List ActiveBet)
    → All (λ b. (b.total ≤ previous) ⊎ (previous + d ≤ b.total)) bets
    → d * length (filter (λ b. leb (previous + d) b.total) bets) + matched previous bets
      ≡ matched (previous + d) bets
contributions previous d [] h = omega arith
contributions previous d (b ∷ bets) h = elim (Bool-cases (leb (previous + d) b.total)) [
  | inl e ↦ rw e (omega (arith, contributions previous d bets h.1, leb→le (previous + d) b.total e))
  | inr e ↦ rw e (ground (arith, contributions previous d bets h.1, h.0, e))
]

-- The pot of a level holds what the bets have between the level before and this one.
pub pot_amount_at-matched :
    (previous level : ℕ) (bets : List ActiveBet)
    → previous ≤ level
    → All (λ b. (b.total ≤ previous) ⊎ (level ≤ b.total)) bets
    → pot_amount_at previous level bets + matched previous bets ≡ matched level bets
unfolding pot_amount_at
pot_amount_at-matched previous level bets h k =
    let e : previous + (level - previous) ≡ level = omega arith in
    rw e at (contributions previous (level - previous) bets (rw e k))
