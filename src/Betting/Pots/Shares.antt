-- ===== src/Betting/Pots/Shares.antt =====
-- Who can win what: the side pots against the rule of table stakes.
use servers_poker.Prelude.{
  ℕ, ◌+◌, ◌≤◌, ◌<◌, ◌≡◌, refl, ap, ◌⊎◌, inl, inr, true, false, List, [], ◌∷◌, arith, includes, All,
  All-map_of, All-Member, Member, is_empty, leb, min, sum_by, sum_by-append, Bool-cases,
  if◌then◌else◌, leb→le,
}
use servers_poker.Betting.{Pot}
use servers_poker.Betting.Pots.{
  ActiveBet, insert_bet, sort_bets, pot_amount_at, add_level, add_levels, eligible_at,
}
use servers_poker.Betting.Pots.Levels.{Reaches, matched, pot_amount_at-matched}

-- The chips of the pots that a player is eligible for.
abbrev pub winnable : ℕ → List Pot → ℕ
winnable id = sum_by (λ p. if includes id p.eligible_player_ids then p.amount else 0)

Member-insert_bet :
    (x b : ActiveBet) (bets : List ActiveBet)
    → (x ≡ b) ⊎ Member x bets
    → Member x (insert_bet b bets)
unfolding insert_bet
Member-insert_bet x b [] h = h
Member-insert_bet x b (c ∷ bets) h = elim (Bool-cases (leb b.total c.total)) [
  | inl t ↦ rw t h
  | inr f ↦ rw f (elim h [
    | inl e ↦ inr (Member-insert_bet x b bets (inl e))
    | inr m ↦ elim m [ inl e ↦ inl e | inr k ↦ inr (Member-insert_bet x b bets (inr k)) ]
  ])
]

insert_bet-Member :
    (x b : ActiveBet) (bets : List ActiveBet)
    → Member x (insert_bet b bets)
    → (x ≡ b) ⊎ Member x bets
unfolding insert_bet
insert_bet-Member x b [] h = h
insert_bet-Member x b (c ∷ bets) h = elim (Bool-cases (leb b.total c.total)) [
  | inl t ↦ rw t at h
  | inr f ↦
      let h' : Member x (c ∷ insert_bet b bets) = rw f at h in
      elim h' [
        | inl e ↦ inr (inl e)
        | inr m ↦ elim (insert_bet-Member x b bets m) [ inl e ↦ inl e | inr k ↦ inr (inr k) ]
      ]
]

pub Member-sort_bets :
    (x : ActiveBet) (bets : List ActiveBet) → Member x bets → Member x (sort_bets bets)
unfolding sort_bets
Member-sort_bets x [] m = m
Member-sort_bets x (b ∷ bets) (inl e) = Member-insert_bet x b (sort_bets bets) (inl e)
Member-sort_bets x (b ∷ bets) (inr m) =
    Member-insert_bet x b (sort_bets bets) (inr (Member-sort_bets x bets m))

pub sort_bets-Member :
    (x : ActiveBet) (bets : List ActiveBet) → Member x (sort_bets bets) → Member x bets
unfolding sort_bets
sort_bets-Member x [] m = m
sort_bets-Member x (b ∷ bets) m = elim (insert_bet-Member x b (sort_bets bets) m) [
  | inl e ↦ inl e
  | inr k ↦ inr (sort_bets-Member x bets k)
]

-- No other entry has the id of `b`.
abbrev pub IsOnly : ActiveBet → List ActiveBet → Type 0
IsOnly b = All (λ c. c.id ≡ b.id → c.total ≡ b.total)

-- A player who is still in and has reached the level is eligible.
eligible_in :
    (b : ActiveBet) (level : ℕ) (bets : List ActiveBet)
    → Member b bets
    → b.folded ≡ false
    → level ≤ b.total
    → includes b.id (eligible_at level bets) ≡ true
unfolding eligible_at
eligible_in b level [] m f h = absurd m
eligible_in b level (c ∷ bets) (inl e) f h =
    let id_eq = ap (λ (d : ActiveBet). d.id) e in
    let total_eq = ap (λ (d : ActiveBet). d.total) e in
    let folded_eq = ap (λ (d : ActiveBet). d.folded) e in ground (arith, id_eq, total_eq, folded_eq)
eligible_in b level (c ∷ bets) (inr m) f h = ground (arith, eligible_in b level bets m f h)

-- A player who has not reached the level is not.
not_eligible :
    (b : ActiveBet) (level : ℕ) (bets : List ActiveBet)
    → IsOnly b bets
    → b.total < level
    → includes b.id (eligible_at level bets) ≡ false
unfolding eligible_at
not_eligible b level [] u h = refl
not_eligible b level (c ∷ bets) u h = ground (arith, not_eligible b level bets u.1 h, u.0)

-- With somebody eligible the level's pot goes to the end.
add_level-live :
    (bets : List ActiveBet) (previous level id : ℕ) (pots : List Pot)
    → is_empty (eligible_at level bets) ≡ false
    → winnable id (add_level bets previous level pots)
      ≡ winnable id pots
        + (if includes id (eligible_at level bets) then pot_amount_at previous level bets else 0)
unfolding add_level
add_level-live bets previous level id pots h =
    let pot : Pot = record {
      amount = pot_amount_at previous level bets;
      eligible_player_ids = eligible_at level bets;
    } in
    ground (
      arith,
      h,
      sum_by-append (λ (p : Pot). if includes id p.eligible_player_ids then p.amount else 0) pots
          (pot ∷ []),
    )

not_empty_of_includes : (a : ℕ) (xs : List ℕ) → includes a xs ≡ true → is_empty xs ≡ false
not_empty_of_includes a [] h = cc
not_empty_of_includes a (x ∷ xs) h = refl

-- One level: what a player can win grows by the pot exactly if his bet reaches the level.
add_level-winnable :
    (bets : List ActiveBet) (b top : ActiveBet) (previous level : ℕ) (pots : List Pot)
    → Member b bets
    → IsOnly b bets
    → b.folded ≡ false
    → Member top bets
    → top.folded ≡ false
    → level ≤ top.total
    → previous ≤ level
    → (b.total ≤ previous) ⊎ (level ≤ b.total)
    → All (λ c. (c.total ≤ previous) ⊎ (level ≤ c.total)) bets
    → winnable b.id (add_level bets previous level pots) + matched (min b.total previous) bets
      ≡ winnable b.id pots + matched (min b.total level) bets
add_level-winnable bets b top previous level pots mb ub fb mt ft ht hp hb hc =
    let live =
      not_empty_of_includes top.id (eligible_at level bets) (eligible_in top level bets mt ft ht) in
    let step = add_level-live bets previous level b.id pots live in
    elim (Bool-cases (leb level b.total)) [
      | inl reached ↦
          let le = leb→le level b.total reached in
          let low : min b.total previous ≡ previous = omega arith in
          let high : min b.total level ≡ level = omega arith in
          rw (low, high, step, eligible_in b level bets mb fb le)
            (omega (arith, pot_amount_at-matched previous level bets hp hc))
      | inr short ↦
          let lt : b.total < level = ground arith in
          let same : min b.total level ≡ min b.total previous = omega arith in
          rw (same, step, not_eligible b level bets ub lt) (omega arith)
    ]

-- With a player who is still in at the top, every player who is still in can win exactly what each
-- bet holds up to his own.
pub add_levels-winnable :
    (bets : List ActiveBet) (b top : ActiveBet) (levels : List ℕ) (previous : ℕ) (pots : List Pot)
    → Member b bets
    → IsOnly b bets
    → b.folded ≡ false
    → Member top bets
    → top.folded ≡ false
    → All (λ level. level ≤ top.total) levels
    → All (λ c. Reaches previous levels c.total) bets
    → winnable b.id (add_levels bets previous levels pots) + matched (min b.total previous) bets
      ≡ winnable b.id pots + matched b.total bets
unfolding add_levels
add_levels-winnable bets b top [] previous pots mb ub fb mt ft ht h =
    let le = All-Member _ b bets h mb in
    let same : min b.total previous ≡ b.total = omega arith in rw same
add_levels-winnable bets b top (level ∷ levels) previous pots mb ub fb mt ft ht h =
    let r = All-Member _ b bets h mb in
    let next = All-map_of (λ c. Reaches level levels c.total) bets (λ c k. k.2) h in
    let bounds = All-map_of (λ c. (c.total ≤ previous) ⊎ (level ≤ c.total)) bets (λ c k. k.1) h in
    omega (
      arith,
      add_level-winnable bets b top previous level pots mb ub fb mt ft ht.0 r.0 r.1 bounds,
      add_levels-winnable bets b top levels level (add_level bets previous level pots) mb ub fb mt
          ft ht.1 next,
    )
