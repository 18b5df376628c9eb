-- ===== src/HandEval/Winners.antt =====
-- Who wins: `bestHand` finds a best combination, and `determineWinners` exactly the best hands.
use servers_poker.Prelude.{
  ◌≡◌, refl, ap, ◌⊎◌, inl, inr, sym, subst, ◌↔◌, Bool, true, false, List, [], ◌∷◌, arith, All,
  All-map_of, All-Member, Member, filter-Member, Member-filter, Bool-cases, if◌then◌else◌,
}
use servers_poker.Prelude.Int.{ℤ, pos, negsuc, ltb_ℤ, ◌≤ℤ◌, ◌-ℤ◌}
use servers_poker.HandEval.{HandResult, compare_hands}
use servers_poker.HandEval.Best.{Scored, top_of, winners_of, is_tie}
use servers_poker.HandEval.Compare.{compare_hands_flip, compare_hands_trans}

-- `a` does not beat `b`.
infix 50 ◌≤ᴴ◌
abbrev pub ◌≤ᴴ◌ : HandResult → HandResult → Type 0
a ≤ᴴ b = compare_hands a b ≤ℤ pos 0

pub not_above : (d : ℤ) → ltb_ℤ (pos 0) d ≡ false → d ≤ℤ pos 0
not_above d h = ground arith

pub below_of_above : (a b : HandResult) → ltb_ℤ (pos 0) (compare_hands a b) ≡ true → b ≤ᴴ a
below_of_above a b h = rw (compare_hands_flip a b) (opposite (compare_hands a b) h)
  where
    opposite : (d : ℤ) → ltb_ℤ (pos 0) d ≡ true → pos 0 -ℤ d ≤ℤ pos 0
    opposite d k = ground arith

pub le_self : (a : HandResult) → a ≤ᴴ a
le_self a = zero (compare_hands a a) (compare_hands_flip a a)
  where
    zero : (d : ℤ) → d ≡ pos 0 -ℤ d → d ≤ℤ pos 0
    zero (pos n) e = ground arith
    zero (negsuc n) e = ground arith

-- `t` is `best` or one of the hands, and none of them beats it.
abbrev IsTop : Scored → List Scored → Scored → Type 0
IsTop best hands t =
    (best.hand ≤ᴴ t.hand) × All (λ h. h.hand ≤ᴴ t.hand) hands × ((t ≡ best) ⊎ Member t hands)

top_of_next :
    (best h : Scored) (hands : List Scored) (beats : Bool)
    → ltb_ℤ (pos 0) (compare_hands h.hand best.hand) ≡ beats
    → top_of best (h ∷ hands) ≡ top_of (if beats then h else best) hands
unfolding top_of
top_of_next best h hands beats e = ap (λ b. top_of (if b then h else best) hands) e

-- The scan ends at a hand that none beats.
top_of-IsTop : (best : Scored) (hands : List Scored) → IsTop best hands (top_of best hands)
unfolding top_of
top_of-IsTop best [] = (le_self best.hand, tt, inl refl)
top_of-IsTop best (h ∷ hands) = elim (Bool-cases (ltb_ℤ (pos 0) (compare_hands h.hand best.hand))) [
  | inl beats ↦
      let t = top_of h hands in
      let r = top_of-IsTop h hands in
      subst (IsTop best (h ∷ hands)) (sym (top_of_next best h hands true beats)) (
        compare_hands_trans best.hand h.hand t.hand (below_of_above h.hand best.hand beats) r.0,
        (r.0, r.1),
        elim r.2 [ inl e ↦ inr (inl e) | inr m ↦ inr (inr m) ],
      )
  | inr stays ↦
      let t = top_of best hands in
      let r = top_of-IsTop best hands in
      subst (IsTop best (h ∷ hands)) (sym (top_of_next best h hands false stays)) (
        r.0,
        (compare_hands_trans h.hand best.hand t.hand (not_above _ stays) r.0, r.1),
        elim r.2 [ inl e ↦ inl e | inr m ↦ inr (inr m) ],
      )
]

tie_le : (d : ℤ) → is_tie d ≡ true → (d ≤ℤ pos 0) × (pos 0 ≤ℤ d)
tie_le d h = ground arith

le_of_flip : (a b : HandResult) → pos 0 ≤ℤ compare_hands a b → b ≤ᴴ a
le_of_flip a b h = rw (compare_hands_flip a b) (opposite (compare_hands a b) h)
  where
    opposite : (d : ℤ) → pos 0 ≤ℤ d → pos 0 -ℤ d ≤ℤ pos 0
    opposite d k = ground arith

tie_of_le : (a b : HandResult) → a ≤ᴴ b → b ≤ᴴ a → is_tie (compare_hands a b) ≡ true
tie_of_le a b h k = tie (compare_hands a b) h (rw (compare_hands_flip a b) at k)
  where
    tie : (d : ℤ) → d ≤ℤ pos 0 → pos 0 -ℤ d ≤ℤ pos 0 → is_tie d ≡ true
    tie d u v = ground arith

-- The winners of the scored hands are exactly those that no hand beats.
pub winners_of_iff :
    (w : Scored) (hands : List Scored)
    → Member w (winners_of hands) ↔ (Member w hands × All (λ h. h.hand ≤ᴴ w.hand) hands)
unfolding winners_of
winners_of_iff w [] = (λ m. absurd m, λ m. absurd m.0)
winners_of_iff w (h ∷ hands) =
    let best = top_of h (h ∷ hands) in
    let top = top_of-IsTop h (h ∷ hands) in
    let test = λ (g : Scored). is_tie (compare_hands g.hand best.hand) in
    (
      λ m.
          let (k, e) = filter-Member test w (h ∷ hands) m in
          let equal = tie_le _ e in
          (
            k,
            All-map_of (λ g. g.hand ≤ᴴ w.hand) (h ∷ hands)
                (λ g le.
                  compare_hands_trans g.hand best.hand w.hand le
                    (le_of_flip w.hand best.hand equal.1))
                top.1,
          ),
      λ m.
          let best_in : Member best (h ∷ hands) = elim top.2 [ inl e ↦ inl e | inr k ↦ k ] in
          Member-filter test w (h ∷ hands)
            (tie_of_le w.hand best.hand
              (All-Member (λ g. g.hand ≤ᴴ best.hand) w (h ∷ hands) top.1 m.0)
              (All-Member (λ g. g.hand ≤ᴴ w.hand) best (h ∷ hands) m.1 best_in))
            m.0,
    )

-- With at least one hand there is a winner.
pub winners_of_some :
    (h : Scored) (hands : List Scored) → (w : Scored) × Member w (winners_of (h ∷ hands))
winners_of_some h hands =
    let best = top_of h (h ∷ hands) in
    let top = top_of-IsTop h (h ∷ hands) in
    let best_in : Member best (h ∷ hands) = elim top.2 [ inl e ↦ inl e | inr k ↦ k ] in
    (best, (winners_of_iff best (h ∷ hands)).1 (best_in, top.1))
