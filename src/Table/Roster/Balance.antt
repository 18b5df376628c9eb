-- ===== src/Table/Roster/Balance.antt =====
-- The chips that a table expects are those that it has, whoever comes and goes between two hands.
use servers_poker.Prelude.{
  sum_by, sum_by-append, ℕ, zero, suc, ◌+◌, ◌≡◌, refl, sym, ◌∙◌, ap, true, false, ◌&&◌, Option,
  none, some, List, [], ◌∷◌, ◌++◌, find, subst, arith, Option-cases, Bool-cases, ltb, ◌==◌, length,
  inl, inr,
}
use mathlib.Core.Option.{some-injective}
use servers_poker.Prelude.Int.{ℤ, pos, negsuc, leb_ℤ}
use servers_poker.Prelude.Dict.{lookup, total}
use servers_poker.Betting.Pots.{PotManager, get_total_pot, get_player_total_bet}
use servers_poker.Table.{Table, GamePlayer, active, update_seat}
use servers_poker.Table.Payout.{stacks}
use servers_poker.Table.Roster.{
  Roster, Newcomer, Mutation, join, leave, find_player, new_player, removed, splice, seat_player,
  expect_more, expect_less, add_player_immediate, remove_player_immediate, mutate, mutate_all,
  drain_pending_mutations, assert_chip_conservation,
}

abbrev expected_of : Option ℤ → ℤ
expected_of none = pos 0
expected_of (some n) = n

-- No bets are in the pot, and the stacks hold what the table expects; nothing is expected of a table
-- that nobody has joined.
abbrev pub IsBalanced : Roster → Type 0
IsBalanced r =
    (r.table.pot_manager.player_total_bets ≡ [])
    × (expected_of r.expected_total_chips ≡ pos (stacks r.table.players))

module _ (f : GamePlayer → ℕ) where
  splice-sum :
      (n : ℕ) (p : GamePlayer) (players : List GamePlayer)
      → sum_by f (splice n p players) ≡ sum_by f players + f p
  unfolding splice
  splice-sum zero p players = omega arith
  splice-sum (suc n) p [] = omega arith
  splice-sum (suc n) p (q ∷ players) = omega (arith, splice-sum n p players)

  append-sum :
      (p : GamePlayer) (players : List GamePlayer)
      → sum_by f (players ++ p ∷ []) ≡ sum_by f players + f p
  append-sum p players = omega (arith, sum_by-append f players (p ∷ []))

  -- Wherever a player is seated, a sum over the players grows by what he adds.
  pub seat_player-sum :
      (t : Table) (p : GamePlayer) (at : Option ℤ)
      → sum_by f (seat_player t p at).players ≡ sum_by f t.players + f p
  unfolding seat_player
  seat_player-sum t p none = append-sum p t.players
  seat_player-sum t p (some (negsuc n)) = append-sum p t.players
  seat_player-sum t p (some (pos n)) = elim (Bool-cases (ltb n (length t.players))) [
    | inl e ↦ rw e (splice-sum n p t.players)
    | inr e ↦ rw e (append-sum p t.players)
  ]

pub seat_player-stacks :
    (t : Table) (p : GamePlayer) (at : Option ℤ)
    → stacks (seat_player t p at).players ≡ stacks t.players + p.chips
seat_player-stacks = seat_player-sum (λ p. p.chips)

seat_player-bets :
    (t : Table) (p : GamePlayer) (at : Option ℤ) → (seat_player t p at).pot_manager ≡ t.pot_manager
unfolding seat_player
seat_player-bets t p none = refl
seat_player-bets t p (some (negsuc n)) = refl
seat_player-bets t p (some (pos n)) = elim (Bool-cases (ltb n (length t.players))) [
  | inl e ↦ rw e refl
  | inr e ↦ rw e refl
]

same_id : (a b : ℕ) → (a == b) ≡ (b == a)
same_id a b = ground arith

-- The seat that `find` returns, written back with other chips.
pub found-stacks :
    (id : ℕ) (p p' : GamePlayer) (players : List GamePlayer)
    → p'.id ≡ id
    → find (λ (q : GamePlayer). q.id == id) players ≡ some p
    → stacks (update_seat p' players) + p.chips ≡ stacks players + p'.chips
unfolding update_seat
found-stacks id p p' [] same e = absurd cc
found-stacks id p p' (q ∷ players) same e = elim (Bool-cases (q.id == id)) [
  | inl h ↦
      let e' : some q ≡ some p = rw h at e in
      let k : (p'.id == q.id) ≡ true = ground arith in
      let c : q.chips ≡ p.chips = ap (λ (x : GamePlayer). x.chips) (some-injective q p e') in
      rw k (omega (arith, c))
  | inr h ↦
      let e' = rw h at e in
      let k : (p'.id == q.id) ≡ false = ground arith in
      rw k (omega (arith, found-stacks id p p' players same e'))
]

pub found-id :
    (id : ℕ) (p : GamePlayer) (players : List GamePlayer)
    → find (λ (q : GamePlayer). q.id == id) players ≡ some p
    → p.id ≡ id
found-id id p [] e = absurd cc
found-id id p (q ∷ players) e = elim (Bool-cases (q.id == id)) [
  | inl h ↦
      let e' : some q ≡ some p = rw h at e in
      ap (λ (x : GamePlayer). x.id) (sym (some-injective q p e')) ∙ ground arith
  | inr h ↦ found-id id p players (rw h at e)
]

expect_more-expected :
    (e : Option ℤ) (s s' c : ℕ)
    → expected_of e ≡ pos s
    → s' ≡ s + c
    → expected_of (expect_more e c) ≡ pos s'
expect_more-expected none s s' c h k = ground arith
expect_more-expected (some (pos n)) s s' c h k = ground arith
expect_more-expected (some (negsuc n)) s s' c h k = absurd cc

expect_less-expected :
    (e : Option ℤ) (s s' c d : ℕ)
    → expected_of e ≡ pos s
    → s' + c ≡ s
    → d ≡ 0
    → expected_of (expect_less e c d) ≡ pos s'
expect_less-expected none s s' c d h k z = ground arith
expect_less-expected (some (pos n)) s s' c d h k z = ground arith
expect_less-expected (some (negsuc n)) s s' c d h k z = absurd cc

nothing_added : {r : Roster} → none ≡ some r → ⊥
nothing_added e = absurd cc

-- A player who comes, or who comes back.
add_player_immediate-IsBalanced :
    (r r' : Roster) (c : Newcomer)
    → IsBalanced r
    → add_player_immediate r c ≡ some r'
    → IsBalanced r'
unfolding add_player_immediate
add_player_immediate-IsBalanced r r' c b e = elim (Option-cases (find_player r c.id)) [
  | inl n ↦
      let chips : ℕ = elim c.chips [ some n ↦ n | none ↦ r.starting_chips ] in
      let p = new_player c chips in
      let e' = rw (n, add_player_immediate) at e in
      subst IsBalanced (some-injective _ _ e') (
        ap (λ (m : PotManager). m.player_total_bets) (seat_player-bets r.table p c.insert_at) ∙ b.0,
        expect_more-expected r.expected_total_chips _ _ chips b.1
            (seat_player-stacks r.table p c.insert_at),
      )
  | inr (p, h) ↦
      let back : GamePlayer = record p {
        seat_status = active;
        disconnected = false;
        strikes = 0;
      } in
      let same = found-stacks c.id p back r.table.players (found-id c.id p r.table.players h) h in
      let e' = rw (h, add_player_immediate) at e in
      elim (Bool-cases p.disconnected) [
        | inl gone ↦
            subst IsBalanced (some-injective _ _ (rw gone at e')) (b.0, ground (arith, b.1, same))
        | inr seated ↦ absurd (nothing_added (rw seated at e'))
      ]
]

-- A player who goes takes what he has.
remove_player_immediate-IsBalanced :
    (r : Roster) (id : ℕ) → IsBalanced r → IsBalanced (remove_player_immediate r id)
unfolding remove_player_immediate get_player_total_bet
remove_player_immediate-IsBalanced r id b = elim (Option-cases (find_player r id)) [
  | inl n ↦ rw (n, remove_player_immediate) b
  | inr (p, h) ↦
      let same =
        found-stacks id p (removed p) r.table.players (found-id id p r.table.players h) h in
      rw (h, remove_player_immediate)
        (
          b.0,
          expect_less-expected r.expected_total_chips _ _ p.chips _ b.1 (omega (arith, same))
              (ap (lookup id) b.0),
        )
]

mutate-IsBalanced : (r : Roster) (m : Mutation) → IsBalanced r → IsBalanced (mutate r m)
unfolding mutate
mutate-IsBalanced r (join c) b = elim (Option-cases (add_player_immediate r c)) [
  | inl e ↦ rw (e, mutate) b
  | inr (r', e) ↦ rw (e, mutate) (add_player_immediate-IsBalanced r r' c b e)
]
mutate-IsBalanced r (leave id) b = remove_player_immediate-IsBalanced r id b

mutate_all-IsBalanced :
    (ms : List Mutation) (r : Roster) → IsBalanced r → IsBalanced (mutate_all ms r)
unfolding mutate_all
mutate_all-IsBalanced [] r b = b
mutate_all-IsBalanced (m ∷ ms) r b = mutate_all-IsBalanced ms (mutate r m) (mutate-IsBalanced r m b)

check-expected :
    (e : Option ℤ) (s in_pot : ℕ)
    → expected_of e ≡ pos s
    → in_pot ≡ 0
    → (elim e [ none ↦ true | some n ↦ leb_ℤ (pos (s + in_pot)) n && leb_ℤ n (pos (s + in_pot)) ])
      ≡ true
check-expected none s in_pot h z = refl
check-expected (some (pos n)) s in_pot h z = ground arith
check-expected (some (negsuc n)) s in_pot h z = absurd cc

balanced-assert : (r : Roster) → IsBalanced r → assert_chip_conservation r ≡ true
unfolding assert_chip_conservation get_total_pot
balanced-assert r b = check-expected r.expected_total_chips _ _ b.1 (ap total b.0)

-- Where no bets are in the pot and the table expects the chips that its stacks hold, both are still
-- so after `drainPendingMutations` has let any number of players come, come back and go, and
-- `assertChipConservation` does not throw.
pub drain_pending_mutations-IsBalanced :
    (r : Roster)
    → IsBalanced r
    → IsBalanced (drain_pending_mutations r)
      × (assert_chip_conservation (drain_pending_mutations r) ≡ true)
unfolding drain_pending_mutations
drain_pending_mutations-IsBalanced r b =
    let k = mutate_all-IsBalanced r.pending_mutations (record r { pending_mutations = [] }) b in
    (k, balanced-assert (drain_pending_mutations r) k)
