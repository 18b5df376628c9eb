-- ===== src/Betting/Pots/Stakes.antt =====
-- Table stakes: what `calculatePots` lets each player win, in terms of the players and their bets.
use servers_poker.Prelude.{
  ℕ, ◌≤◌, ◌<◌, ◌≡◌, refl, ap, ◌∙◌, subst, inl, inr, false, List, [], ◌∷◌, map, arith, includes, All,
  All-Member, All-of_Member, Member, is_empty, ltb, min, sum_by, Bool-cases, if◌then◌else◌, lt→ltb,
}
use servers_poker.Prelude.Dict.{Dict, lookup}
use servers_poker.Betting.{Player, Pot}
use servers_poker.Betting.Pots.{
  ActiveBet, PotManager, entries, active_bets, sort_bets, all_bet_levels, unique_from, split_pots,
  calculate_pots,
}
use servers_poker.Betting.Pots.Levels.{
  sort_bets-IsSorted, sum_by-sort_bets, all_bet_levels-Reaches, matched,
}
use servers_poker.Betting.Pots.Shares.{
  winnable, IsOnly, add_levels-winnable, Member-sort_bets, sort_bets-Member,
}

levels_bounded :
    (limit : ℕ) (seen : List ℕ) (bets : List ActiveBet)
    → All (λ c. c.total ≤ limit) bets
    → All (λ level. level ≤ limit) (unique_from seen (map (λ c. c.total) bets))
unfolding unique_from
levels_bounded limit seen [] h = tt
levels_bounded limit seen (c ∷ bets) h = elim (Bool-cases (includes c.total seen)) [
  | inl old ↦ rw old (levels_bounded limit seen bets h.1)
  | inr new ↦ rw new (h.0, levels_bounded limit (c.total ∷ seen) bets h.1)
]

-- The entry of a player.
abbrev pub entry : Dict → Player → ActiveBet
entry totals p = record { id = p.id; total = lookup p.id totals; folded = p.folded }

pub Member-entries :
    (totals : Dict) (p : Player) (players : List Player)
    → 0 < lookup p.id totals
    → Member p players
    → Member (entry totals p) (entries totals players)
unfolding entries
Member-entries totals p [] h m = m
Member-entries totals p (q ∷ players) h (inl e) =
    let pos : 0 < lookup q.id totals = subst (λ (r : Player). 0 < lookup r.id totals) e h in
    rw (lt→ltb _ _ pos) (inl (ap (entry totals) e))
Member-entries totals p (q ∷ players) h (inr m) = elim (Bool-cases (ltb 0 (lookup q.id totals))) [
  | inl t ↦ rw t (inr (Member-entries totals p players h m))
  | inr f ↦ rw f (Member-entries totals p players h m)
]

-- Every entry is of some player.
pub entries-All :
    (P : ActiveBet → Type 0) (totals : Dict) (players : List Player)
    → All (λ p. P (entry totals p)) players
    → All P (entries totals players)
unfolding entries
entries-All P totals [] h = tt
entries-All P totals (p ∷ players) h = elim (Bool-cases (ltb 0 (lookup p.id totals))) [
  | inl t ↦ rw t (h.0, entries-All P totals players h.1)
  | inr f ↦ rw f (entries-All P totals players h.1)
]

pub sort_bets-All :
    (P : ActiveBet → Type 0) (bets : List ActiveBet) → All P bets → All P (sort_bets bets)
sort_bets-All P bets h =
    All-of_Member P (sort_bets bets) (λ b m. All-Member P b bets h (sort_bets-Member b bets m))

entries-matched :
    (totals : Dict) (level : ℕ) (players : List Player)
    → matched level (entries totals players) ≡ sum_by (λ p. min (lookup p.id totals) level) players
unfolding entries
entries-matched totals level [] = refl
entries-matched totals level (p ∷ players) = elim (Bool-cases (ltb 0 (lookup p.id totals))) [
  | inl t ↦ rw t (omega (arith, entries-matched totals level players))
  | inr f ↦
      let z : lookup p.id totals ≡ 0 = ground (arith, f) in
      rw f (omega (arith, entries-matched totals level players, z))
]

-- `p` is still in with chips in the pot, and `top`, who is still in too, has put in at least as
-- much as everybody else.
pub record IsContested (totals : Dict) (players : List Player) (p top : Player) : Type 0 where
  pub seated : Member p players
  pub staked : 0 < lookup p.id totals
  pub live : p.folded ≡ false
  pub top_seated : Member top players
  pub top_live : top.folded ≡ false
  pub top_most : All (λ q. lookup q.id totals ≤ lookup top.id totals) players

matched_zero : (bets : List ActiveBet) → matched 0 bets ≡ 0
matched_zero [] = refl
matched_zero (b ∷ bets) = omega (arith, matched_zero bets)

split_pots-winnable :
    (bets : List ActiveBet) (b top : ActiveBet)
    → Member b (sort_bets bets)
    → IsOnly b (sort_bets bets)
    → b.folded ≡ false
    → Member top (sort_bets bets)
    → top.folded ≡ false
    → All (λ c. c.total ≤ top.total) (sort_bets bets)
    → winnable b.id (split_pots (sort_bets bets)) ≡ matched b.total (sort_bets bets)
unfolding split_pots all_bet_levels
split_pots-winnable bets b top mb only fb mt ft bounded =
    let sorted = sort_bets bets in
    let main =
      add_levels-winnable sorted b top (all_bet_levels sorted) 0 [] mb only fb mt ft
        (levels_bounded top.total [] sorted bounded)
        (all_bet_levels-Reaches sorted (sort_bets-IsSorted bets)) in
    let z : min b.total 0 ≡ 0 = omega arith in omega (arith, rw z at main, matched_zero sorted)

calculate_pots-split_pots :
    (m : PotManager) (players : List Player) (id : ℕ)
    → is_empty (active_bets m.player_total_bets players) ≡ false
    → winnable id (calculate_pots m players).pots
      ≡ winnable id (split_pots (active_bets m.player_total_bets players))
unfolding calculate_pots
calculate_pots-split_pots m players id h =
    ground (arith, pots_or_empty (split_pots (active_bets m.player_total_bets players)))
  where
    pots_or_empty :
        (pots : List Pot)
        → winnable id
            (if is_empty pots then record { amount = 0; eligible_player_ids = [] } ∷ [] else pots)
          ≡ winnable id pots
    pots_or_empty [] = refl
    pots_or_empty (p ∷ pots) = refl

pub not_empty_of_Member :
    (b : ActiveBet) (bets : List ActiveBet) → Member b bets → is_empty bets ≡ false
not_empty_of_Member b [] m = absurd m
not_empty_of_Member b (c ∷ bets) m = refl

-- Where the largest stake belongs to a player who is still in, the pots that a player `p` at the
-- table, still in and with chips in the pot, is eligible for hold exactly the sum, over all
-- players, of their stakes up to the stake of `p`.
pub calculate_pots-winnable :
    (m : PotManager) (players : List Player) (p top : Player)
    → IsContested m.player_total_bets players p top
    → winnable p.id (calculate_pots m players).pots
      ≡ sum_by
          (λ q. min (lookup q.id m.player_total_bets) (lookup p.id m.player_total_bets))
          players
unfolding active_bets
calculate_pots-winnable m players p top c =
    let totals = m.player_total_bets in
    let es = entries totals players in
    let b = entry totals p in
    let mb = Member-sort_bets b es (Member-entries totals p players c.staked c.seated) in
    let top_le = All-Member _ p players c.top_most c.seated in
    let mt =
      Member-sort_bets (entry totals top) es
        (Member-entries totals top players (omega arith) c.top_seated) in
    let only : IsOnly b (sort_bets es) = sort_bets-All _ es (
      entries-All _ totals players
        (All-of_Member _ players (λ q k e. ap (λ i. lookup i totals) e))) in
    let bounded =
      sort_bets-All _ es
        (entries-All (λ c. c.total ≤ lookup top.id totals) totals players c.top_most) in
    calculate_pots-split_pots m players p.id (not_empty_of_Member b (sort_bets es) mb)
    ∙ split_pots-winnable es b (entry totals top) mb only c.live mt c.top_live bounded
    ∙ sum_by-sort_bets (λ d. min d.total (lookup p.id totals)) es
    ∙ entries-matched totals (lookup p.id totals) players
