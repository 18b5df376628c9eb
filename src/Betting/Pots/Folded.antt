-- ===== src/Betting/Pots/Folded.antt =====
-- A player who has folded is eligible for no pot.
use servers_poker.Prelude.{
  ℕ, ◌≡◌, ◌<◌, ltb, refl, sym, ap, ◌∙◌, subst, true, false, none, some, List, [], ◌∷◌, includes,
  is_empty, All, All-append, Member, Distinct, arith, Option-cases, Bool-cases, if_cases, inl, inr,
}
use mathlib.Core.Option.{some-injective}
use servers_poker.Betting.{Player, Pot}
use servers_poker.Prelude.Dict.{lookup}
use servers_poker.Betting.Pots.{
  PotManager, ActiveBet, eligible_at, pot_amount_at, merge_dead, place_dead, add_level, add_levels,
  all_bet_levels, split_pots, calculate_pots, active_bets, entries,
}
use servers_poker.Betting.Pots.Conservation.{ids}
use servers_poker.Betting.Pots.Shares.{Member-sort_bets}
use servers_poker.Betting.Pots.Stakes.{
  entry, Member-entries, entries-All, sort_bets-All, not_empty_of_Member,
}

-- None of the pots lists the player as eligible.
abbrev pub IsShutOut : ℕ → List Pot → Type 0
IsShutOut id = All (λ q. includes id q.eligible_player_ids ≡ false)

-- Every entry with the id is of a folded player.
abbrev IsFolded : ℕ → List ActiveBet → Type 0
IsFolded id = All (λ b. b.id ≡ id → b.folded ≡ true)

eligible_at-includes :
    (id level : ℕ) (bets : List ActiveBet)
    → IsFolded id bets
    → includes id (eligible_at level bets) ≡ false
unfolding eligible_at
eligible_at-includes id level [] h = refl
eligible_at-includes id level (b ∷ bets) h =
    ground (arith, eligible_at-includes id level bets h.1, h.0)

no_pots : {pots : List Pot} → none ≡ some pots → ⊥
no_pots e = absurd cc

merge_dead-IsShutOut :
    (id dead : ℕ) (pots merged : List Pot)
    → IsShutOut id pots
    → merge_dead dead pots ≡ some merged
    → IsShutOut id merged
unfolding merge_dead
merge_dead-IsShutOut id dead [] merged h e = absurd cc
merge_dead-IsShutOut id dead (p ∷ pots) merged h e = elim (Option-cases (merge_dead dead pots)) [
  | inl n ↦ elim (Bool-cases (is_empty p.eligible_player_ids)) [
    | inl empty ↦ absurd (no_pots (rw (n, empty) at e))
    | inr taken ↦ subst (IsShutOut id) (some-injective _ _ (rw (n, taken) at e)) h
  ]
  | inr (rest, k) ↦
      subst (IsShutOut id) (some-injective _ _ (rw k at e))
        (h.0, merge_dead-IsShutOut id dead pots rest h.1 k)
]

place_dead-IsShutOut :
    (id dead : ℕ) (pots : List Pot) → IsShutOut id pots → IsShutOut id (place_dead dead pots)
unfolding place_dead
place_dead-IsShutOut id dead pots h = elim (Option-cases (merge_dead dead pots)) [
  | inl n ↦ rw (n, place_dead) (All-append _ pots _ h (refl, tt))
  | inr (merged, e) ↦ rw (e, place_dead) (merge_dead-IsShutOut id dead pots merged h e)
]

add_level-IsShutOut :
    (id previous level : ℕ) (bets : List ActiveBet) (pots : List Pot)
    → IsFolded id bets
    → IsShutOut id pots
    → IsShutOut id (add_level bets previous level pots)
unfolding add_level
add_level-IsShutOut id previous level bets pots f h =
    let amount = pot_amount_at previous level bets in
    let P = IsShutOut id in
    if_cases P (ltb 0 amount) _ pots
      (if_cases P (is_empty (eligible_at level bets)) (place_dead amount pots) _
        (place_dead-IsShutOut id amount pots h)
        (All-append _ pots _ h (eligible_at-includes id level bets f, tt)))
      h

add_levels-IsShutOut :
    (id previous : ℕ) (levels : List ℕ) (bets : List ActiveBet) (pots : List Pot)
    → IsFolded id bets
    → IsShutOut id pots
    → IsShutOut id (add_levels bets previous levels pots)
unfolding add_levels
add_levels-IsShutOut id previous [] bets pots f h = h
add_levels-IsShutOut id previous (level ∷ levels) bets pots f h =
    add_levels-IsShutOut id level levels bets (add_level bets previous level pots) f
      (add_level-IsShutOut id previous level bets pots f h)

-- Nobody else at the table has the id.
others :
    (id : ℕ) (players : List Player)
    → includes id (ids players) ≡ false
    → All (λ q. q.id ≡ id → q.folded ≡ true) players
others id [] h = tt
others id (q ∷ players) h =
    ((λ e. absurd (ground (arith, h, e))), others id players (ground (arith, h)))

Member-ids :
    (p : Player) (players : List Player) → Member p players → includes p.id (ids players) ≡ true
Member-ids p [] m = absurd m
Member-ids p (q ∷ players) (inl e) = ground (arith, ap (λ (s : Player). s.id) e)
Member-ids p (q ∷ players) (inr m) = ground (arith, Member-ids p players m)

only_player :
    (p : Player) (players : List Player)
    → Distinct (ids players)
    → Member p players
    → p.folded ≡ true
    → All (λ q. q.id ≡ p.id → q.folded ≡ true) players
only_player p [] d m f = tt
only_player p (q ∷ players) d (inl e) f = (
  (λ same. sym (ap (λ (s : Player). s.folded) e) ∙ f),
  subst (λ i. All (λ (s : Player). s.id ≡ i → s.folded ≡ true) players)
      (sym (ap (λ (s : Player). s.id) e)) (others q.id players d.0),
)
only_player p (q ∷ players) d (inr m) f = (
  (λ same. absurd (ground (arith, d.0, same, Member-ids p players m))),
  only_player p players d.1 m f,
)

split_pots-IsShutOut :
    (id : ℕ) (bets : List ActiveBet) → IsFolded id bets → IsShutOut id (split_pots bets)
unfolding split_pots
split_pots-IsShutOut id bets f = add_levels-IsShutOut id 0 (all_bet_levels bets) bets [] f tt

-- At a table where ids differ, a player who has folded with chips in the pot is eligible for none
-- of the pots that `calculatePots` makes, however much he has put in.
pub calculate_pots-IsShutOut :
    (m : PotManager) (players : List Player) (p : Player)
    → Distinct (ids players)
    → Member p players
    → p.folded ≡ true
    → 0 < lookup p.id m.player_total_bets
    → IsShutOut p.id (calculate_pots m players).pots
unfolding calculate_pots active_bets
calculate_pots-IsShutOut m players p d k f pos =
    let totals = m.player_total_bets in
    let folded =
      sort_bets-All (λ b. b.id ≡ p.id → b.folded ≡ true) (entries totals players)
        (entries-All (λ b. b.id ≡ p.id → b.folded ≡ true) totals players
          (only_player p players d k f)) in
    let bets = active_bets totals players in
    let filled : is_empty bets ≡ false = not_empty_of_Member (entry totals p) bets (
      Member-sort_bets (entry totals p) (entries totals players)
        (Member-entries totals p players pos k)) in
    let shut = split_pots-IsShutOut p.id bets folded in
    rw filled (if_cases (IsShutOut p.id) (is_empty (split_pots bets)) _ _ (refl, tt) shut)
