-- ===== src/Table/Payout.antt =====
-- The chips that `showdown` and `awardPot` pay out.
use servers_poker.Prelude.{
  ℕ, suc, ◌+◌, ◌*◌, ◌/◌, ◌≤◌, ◌≡◌, refl, sym, subst, inl, inr, true, false, List, [], ◌∷◌, map,
  length, includes, is_empty, ◌==◌, arith, All, sum_by, Bool-cases,
}
use servers_poker.Betting.Pots.Conservation.{ids}
use servers_poker.HandEval.Best.{Scored}
use servers_poker.Table.{GamePlayer}
use servers_poker.Table.Award.{pay_out, Payment, shares_of, pay_all}

-- The ids of the players at the table.
abbrev pub seat_ids : List GamePlayer → List ℕ
seat_ids players = ids (map (λ (p : GamePlayer). p.player) players)

-- The chips in the stacks.
abbrev pub stacks : List GamePlayer → ℕ
stacks = sum_by (λ p. p.chips)

pub pay_out-stacks :
    (id amount : ℕ) (players : List GamePlayer)
    → includes id (seat_ids players) ≡ true
    → stacks (pay_out id amount players) ≡ stacks players + amount
unfolding pay_out
pay_out-stacks id amount [] h = cc
pay_out-stacks id amount (q ∷ players) h = elim (Bool-cases (id == q.id)) [
  | inl here ↦ rw here (omega arith)
  | inr there ↦ rw there (omega (arith, pay_out-stacks id amount players (rw there at h)))
]

pub pay_out-seat_ids :
    (id amount : ℕ) (players : List GamePlayer)
    → seat_ids (pay_out id amount players) ≡ seat_ids players
unfolding pay_out
pay_out-seat_ids id amount [] = refl
pay_out-seat_ids id amount (q ∷ players) = elim (Bool-cases (id == q.id)) [
  | inl here ↦ rw here
  | inr there ↦ rw (there, pay_out-seat_ids id amount players)
]

-- What the payments are worth.
abbrev pub paid : List Payment → ℕ
paid = sum_by (λ p. p.amount)

-- Every payment is to a player at the table.
abbrev pub AreSeated : List ℕ → List Payment → Type 0
AreSeated seats = All (λ p. includes p.player_id seats ≡ true)

pub pay_all-stacks :
    (payments : List Payment) (players : List GamePlayer)
    → AreSeated (seat_ids players) payments
    → stacks (pay_all payments players) ≡ stacks players + paid payments
unfolding pay_all
pay_all-stacks [] players h = omega arith
pay_all-stacks (p ∷ payments) players h =
    let same = pay_out-seat_ids p.player_id p.amount players in
    omega (
      arith,
      pay_out-stacks p.player_id p.amount players h.0,
      pay_all-stacks payments (pay_out p.player_id p.amount players)
          (subst (λ s. AreSeated s payments) (sym same) h.1),
    )

equal_shares :
    (share : ℕ) (winners : List Scored)
    → paid (map (λ (v : Scored). record { player_id = v.player_id; amount = share }) winners)
      ≡ share * length winners
equal_shares share [] = omega arith
equal_shares share (w ∷ winners) = omega (arith, equal_shares share winners)

-- The shares of a pot add up to the pot.
pub shares_of-paid :
    (amount : ℕ) (winners : List Scored)
    → is_empty winners ≡ false
    → paid (shares_of amount winners) ≡ amount
unfolding shares_of
shares_of-paid amount [] h = cc
shares_of-paid amount (w ∷ winners) h =
    let n = length winners in
    let share = amount / suc n in
    let fits : share * suc n ≤ amount = grind arith in
    omega (arith, equal_shares share winners, fits)

pub shares_of-AreSeated :
    (amount : ℕ) (seats : List ℕ) (winners : List Scored)
    → All (λ (w : Scored). includes w.player_id seats ≡ true) winners
    → AreSeated seats (shares_of amount winners)
unfolding shares_of
shares_of-AreSeated amount seats [] h = tt
shares_of-AreSeated amount seats (w ∷ winners) h = (h.0, others _ winners h.1)
  where
    others :
        (share : ℕ) (ws : List Scored)
        → All (λ (w : Scored). includes w.player_id seats ≡ true) ws
        → AreSeated seats
            (map (λ (v : Scored). record { player_id = v.player_id; amount = share }) ws)
    others share [] h = tt
    others share (v ∷ ws) h = (h.0, others share ws h.1)
