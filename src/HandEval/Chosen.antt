-- ===== src/HandEval/Chosen.antt =====
-- `bestHand` returns a best combination whenever there are five cards.
use servers_poker.Prelude.{
  ◌≤◌, ◌≡◌, refl, sym, ap, ◌∙◌, ◌⊎◌, inl, inr, subst, Bool, true, false, Option, none, some, List,
  [], ◌∷◌, ◌++◌, map, arith, All, All-map_of, All-of_Member, ◌↔◌, Member, length, is_empty,
  includes, Bool-cases, if◌then◌else◌,
}
use mathlib.Core.Option.{some-injective}
use servers_poker.Prelude.Int.{pos, ltb_ℤ}
use servers_poker.HandEval.{Card, HandResult, compare_hands, evaluate_five_cards, get_combinations}
use servers_poker.HandEval.Best.{
  BestHand, better, best_of, best_hand, Contender, Scored, score_all, determine_winners, winners_of,
}
use servers_poker.HandEval.Compare.{compare_hands_trans}
use servers_poker.HandEval.Total.{get_combinations-length, get_combinations_some, evaluate_total}
use servers_poker.HandEval.Winners.{
  ◌≤ᴴ◌, le_self, not_above, below_of_above, winners_of_iff, winners_of_some,
}

-- A best hand among the combinations seen: it is one of them with its value, and no value that is
-- seen beats it.
pub record IsBest (combos : List (List Card)) (b : BestHand) : Type 0 where
  pub chosen : Member b.cards combos
  pub valued : evaluate_five_cards b.cards ≡ some b.hand
  pub unbeaten : All (λ c. (r : HandResult) → evaluate_five_cards c ≡ some r → r ≤ᴴ b.hand) combos

-- What the loop returns from a hand that is held.
abbrev Holds : BestHand → List (List Card) → BestHand → Type 0
Holds held combos b =
    (held.hand ≤ᴴ b.hand)
    × ((b ≡ held) ⊎ (Member b.cards combos × (evaluate_five_cards b.cards ≡ some b.hand)))
    × All (λ c. (r : HandResult) → evaluate_five_cards c ≡ some r → r ≤ᴴ b.hand) combos

best_of_next :
    (best : Option BestHand) (c : List Card) (combos : List (List Card)) (r : HandResult)
    → evaluate_five_cards c ≡ some r
    → best_of best (c ∷ combos) ≡ best_of (better best r c) combos
unfolding best_of
best_of_next best c combos r e = rw (e, best_of)

better_beats :
    (held : BestHand) (r : HandResult) (c : List Card) (beats : Bool)
    → ltb_ℤ (pos 0) (compare_hands r held.hand) ≡ beats
    → better (some held) r c ≡ (if beats then some (record { hand = r; cards = c }) else some held)
better_beats held r c beats e =
    ap (λ b. if b then some (record { hand = r; cards = c }) else some held) e

same_value :
    (c : List Card) (r s h : HandResult)
    → evaluate_five_cards c ≡ some r
    → r ≤ᴴ h
    → evaluate_five_cards c ≡ some s
    → s ≤ᴴ h
same_value c r s h e le f = subst (λ t. t ≤ᴴ h) (some-injective _ _ (sym e ∙ f)) le

best_of-Holds :
    (held : BestHand) (combos : List (List Card))
    → All (λ c. is_empty c ≡ false) combos
    → (b : BestHand) × (best_of (some held) combos ≡ some b) × Holds held combos b
unfolding best_of
best_of-Holds held [] h = (held, refl, (le_self held.hand, inl refl, tt))
best_of-Holds held (c ∷ combos) h =
    let (r, e) = evaluate_total c h.0 in
    let next = best_of_next (some held) c combos r e in
    let new : BestHand = record { hand = r; cards = c } in
    elim (Bool-cases (ltb_ℤ (pos 0) (compare_hands r held.hand))) [
      | inl beats ↦
          let (b, f, k) = best_of-Holds new combos h.1 in
          (
            b,
            next ∙ ap (λ o. best_of o combos) (better_beats held r c true beats) ∙ f,
            (
              compare_hands_trans held.hand r b.hand (below_of_above r held.hand beats) k.0,
              elim k.1 [
                | inl s ↦ inr (
                  inl (ap (λ (d : BestHand). d.cards) s),
                  subst (λ (d : BestHand). evaluate_five_cards d.cards ≡ some d.hand) (sym s) e,
                )
                | inr m ↦ inr (inr m.0, m.1)
              ],
              (λ s g. same_value c r s b.hand e k.0 g, k.2),
            ),
          )
      | inr stays ↦
          let (b, f, k) = best_of-Holds held combos h.1 in
          (
            b,
            next ∙ ap (λ o. best_of o combos) (better_beats held r c false stays) ∙ f,
            (
              k.0,
              elim k.1 [ inl s ↦ inl s | inr m ↦ inr (inr m.0, m.1) ],
              (
                λ s g.
                    same_value c r s b.hand e
                      (compare_hands_trans r held.hand b.hand (not_above _ stays) k.0) g,
                k.2,
              ),
            ),
          )
    ]

best_of-IsBest :
    (combos : List (List Card))
    → is_empty combos ≡ false
    → All (λ c. is_empty c ≡ false) combos
    → (b : BestHand) × (best_of none combos ≡ some b) × IsBest combos b
best_of-IsBest [] n h = absurd (ground arith)
best_of-IsBest (c ∷ combos) n h =
    let (r, e) = evaluate_total c h.0 in
    let new : BestHand = record { hand = r; cards = c } in
    let (b, f, k) = best_of-Holds new combos h.1 in
    (
      b,
      best_of_next none c combos r e ∙ f,
      record {
        chosen = elim k.1 [ inl s ↦ inl (ap (λ (d : BestHand). d.cards) s) | inr m ↦ inr m.0 ];
        valued = elim k.1 [
          | inl s ↦ subst (λ (d : BestHand). evaluate_five_cards d.cards ≡ some d.hand) (sym s) e
          | inr m ↦ m.1
        ];
        unbeaten = (λ s g. same_value c r s b.hand e k.0 g, k.2);
      },
    )

-- With five cards or more `bestHand` returns a hand: the value of one of the five-card
-- combinations, which the value of no other combination beats.
pub best_hand-IsBest :
    (hole_cards community_cards : List Card)
    → 5 ≤ length (hole_cards ++ community_cards)
    → (b : BestHand) × (best_hand hole_cards community_cards ≡ some b)
      × IsBest (get_combinations (hole_cards ++ community_cards) 5) b
unfolding best_hand
best_hand-IsBest hole_cards community_cards h =
    let cards = hole_cards ++ community_cards in
    best_of-IsBest (get_combinations cards 5) (get_combinations_some cards 5 h)
      (All-map_of _ _ nonempty (get_combinations-length cards 5))
  where
    nonempty : (c : List Card) → length c ≡ 5 → is_empty c ≡ false
    nonempty [] e = absurd (omega arith)
    nonempty (x ∷ c) e = refl

-- The hands that `determineWinners` compares: one for each player, in order, each a best one.
abbrev pub IsScored : List Card → List Contender → List Scored → Type 0
IsScored community_cards [] [] = Unit
IsScored community_cards [] (h ∷ hands) = ⊥
IsScored community_cards (p ∷ players) [] = ⊥
IsScored community_cards (p ∷ players) (h ∷ hands) =
    (h.player_id ≡ p.id)
    × ((b : BestHand) × (b.hand ≡ h.hand)
        × IsBest (get_combinations (p.hole_cards ++ community_cards) 5) b)
    × IsScored community_cards players hands

score_all-IsScored :
    (players : List Contender) (community_cards : List Card)
    → All (λ p. 5 ≤ length (p.hole_cards ++ community_cards)) players
    → (hands : List Scored) × (score_all players community_cards ≡ some hands)
      × IsScored community_cards players hands
unfolding score_all
score_all-IsScored [] community_cards h = ([], refl, tt)
score_all-IsScored (p ∷ players) community_cards h =
    let (b, e, best) = best_hand-IsBest p.hole_cards community_cards h.0 in
    let (hands, f, scored) = score_all-IsScored players community_cards h.1 in
    (
      record { player_id = p.id; hand = b.hand } ∷ hands,
      rw (e, f, score_all),
      (refl, (b, refl, best), scored),
    )

-- When every player has five cards to choose from, `determineWinners` returns; every player is
-- scored by a best hand, and the winners are exactly the scores that no other score beats.
pub determine_winners_correct :
    (players : List Contender) (community_cards : List Card)
    → All (λ p. 5 ≤ length (p.hole_cards ++ community_cards)) players
    → (hands : List Scored) × IsScored community_cards players hands
      × ((winners : List Scored) × (determine_winners players community_cards ≡ some winners)
          × ((w : Scored)
              → Member w winners ↔ (Member w hands × All (λ h. h.hand ≤ᴴ w.hand) hands)))
unfolding determine_winners
determine_winners_correct players community_cards h =
    let (hands, e, scored) = score_all-IsScored players community_cards h in
    (hands, scored, (winners_of hands, rw (e, determine_winners), λ w. winners_of_iff w hands))

-- With at least one player, all of them with five cards to choose from, somebody wins, and every
-- winner is one of the players.
pub determine_winners_nonempty :
    (p : Contender) (players : List Contender) (community_cards : List Card)
    → All (λ q. 5 ≤ length (q.hole_cards ++ community_cards)) (p ∷ players)
    → (winners : List Scored) × (determine_winners (p ∷ players) community_cards ≡ some winners)
      × (is_empty winners ≡ false)
      × All (λ w. includes w.player_id (map (λ q. q.id) (p ∷ players)) ≡ true) winners
unfolding determine_winners
determine_winners_nonempty p players community_cards h =
    let (hands, e, scored) = score_all-IsScored (p ∷ players) community_cards h in
    (
      winners_of hands,
      rw (e, determine_winners),
      somebody hands scored,
      All-of_Member _ (winners_of hands)
          (λ w m. known (p ∷ players) hands w scored ((winners_of_iff w hands).0 m).0),
    )
  where
    somebody :
        (hands : List Scored)
        → IsScored community_cards (p ∷ players) hands
        → is_empty (winners_of hands) ≡ false
    somebody [] s = absurd s
    somebody (h ∷ hands) s = nonempty _ _ (winners_of_some h hands).1
      where
        nonempty : (ws : List Scored) (w : Scored) → Member w ws → is_empty ws ≡ false
        nonempty [] w m = absurd m
        nonempty (v ∷ ws) w m = refl

    known :
        (qs : List Contender) (hands : List Scored) (w : Scored)
        → IsScored community_cards qs hands
        → Member w hands
        → includes w.player_id (map (λ q. q.id) qs) ≡ true
    known [] [] w s m = absurd m
    known [] (h ∷ hands) w s m = absurd s
    known (q ∷ qs) [] w s m = absurd m
    known (q ∷ qs) (h ∷ hands) w s (inl e) =
        ground (arith, ap (λ (v : Scored). v.player_id) e ∙ s.0)
    known (q ∷ qs) (h ∷ hands) w s (inr m) = ground (arith, known qs hands w s.2 m)
