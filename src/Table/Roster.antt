-- ===== src/Table/Roster.antt =====
-- Who sits at a table: `addPlayer`, `removePlayer` and `reactivatePlayer` of `GameInstance`, the
-- changes that wait for the end of a hand, and the check of the chips after it.
pub mod Balance
mod Tests
use servers_poker.Prelude.{
  ℕ, zero, suc, ◌+◌, Bool, true, false, not, ◌&&◌, Option, none, some, List, [], ◌∷◌, ◌++◌, find,
  length, sum_by, ltb, leb, ◌==◌, if◌then◌else◌,
}
use servers_poker.Prelude.Int.{ℤ, pos, negsuc, ◌+ℤ◌, ◌-ℤ◌, leb_ℤ}
use servers_poker.Betting.{Player}
use servers_poker.Betting.Pots.{get_total_pot, get_player_total_bet}
use servers_poker.Table.{
  Table, GamePlayer, SeatStatus, active, sitting_out, eliminated, update_seat,
}
use servers_poker.Table.Payout.{stacks}

-- The argument of `addPlayer`, less the name and the strategy.
pub record Newcomer : Type 0 where
  pub id : ℕ
  pub chips : Option ℕ
  pub insert_at : Option ℤ

-- A closure in `pendingMutations`.
pub data Mutation : Type 0 where
  join : Newcomer → Mutation
  leave : ℕ → Mutation

-- The fields of `GameInstance` that these operations use. `none` is an `expectedTotalChips` of
-- undefined.
pub record Roster : Type 0 where
  pub table : Table
  pub starting_chips : ℕ
  pub expected_total_chips : Option ℤ
  pub hand_in_progress : Bool
  pub pending_mutations : List Mutation

-- `this.players.find((p) => p.id === playerId)`
abbrev pub find_player : Roster → ℕ → Option GamePlayer
find_player r id = find (λ (p : GamePlayer). p.id == id) r.table.players

abbrev pub put_seat : Roster → GamePlayer → Roster
put_seat r p = record r { table = record (r.table) { players = update_seat p r.table.players } }

-- `newPlayer`
abbrev pub new_player : Newcomer → ℕ → GamePlayer
new_player c chips = record {
  player = record { id = c.id; chips = chips; folded = true; all_in = false };
  hole_cards = [];
  strikes = 0;
  seat_status = active;
  disconnected = false;
}

-- `players.splice(index, 0, newPlayer)`
unfoldable pub splice : ℕ → GamePlayer → List GamePlayer → List GamePlayer
splice zero p players = p ∷ players
splice (suc n) p [] = p ∷ []
splice (suc n) p (q ∷ players) = q ∷ splice n p players

-- The table with the new player at the seat asked for, or at the end.
unfoldable pub seat_player : Table → GamePlayer → Option ℤ → Table
unfolding splice
seat_player t p (some (pos n)) =
    let inserted : Table = record t {
      players = splice n p t.players;
      dealer_index = if leb n t.dealer_index then t.dealer_index + 1 else t.dealer_index;
    } in
    if ltb n (length t.players) then inserted else record t { players = t.players ++ p ∷ [] }
seat_player t p (some (negsuc n)) = record t { players = t.players ++ p ∷ [] }
seat_player t p none = record t { players = t.players ++ p ∷ [] }

-- `expectedTotalChips` after the chips of a new player have come.
abbrev pub expect_more : Option ℤ → ℕ → Option ℤ
expect_more none chips = some (pos chips)
expect_more (some n) chips = some (n +ℤ pos chips)

-- `addPlayerImmediate`; `none` where it throws.
unfoldable pub add_player_immediate : Roster → Newcomer → Option Roster
unfolding seat_player
add_player_immediate r c = elim (find_player r c.id) [
  | some existing ↦
      if not existing.disconnected
      then none
      else some
          (put_seat r (record existing { seat_status = active; disconnected = false; strikes = 0 }))
  | none ↦
      let chips : ℕ = elim c.chips [ some n ↦ n | none ↦ r.starting_chips ] in
      some (record r {
        table = seat_player r.table (new_player c chips) c.insert_at;
        expected_total_chips = expect_more r.expected_total_chips chips;
      })
]

-- `expectedTotalChips - player.chips - chipsInPot`
abbrev pub expect_less : Option ℤ → ℕ → ℕ → Option ℤ
expect_less none chips in_pot = none
expect_less (some n) chips in_pot = some (n -ℤ pos chips -ℤ pos in_pot)

-- A player who has left, with no chips.
abbrev pub removed : GamePlayer → GamePlayer
removed p = record p {
  player = record (p.player) { chips = 0 };
  seat_status = eliminated;
  disconnected = true;
}

-- `removePlayerImmediate`
unfoldable pub remove_player_immediate : Roster → ℕ → Roster
remove_player_immediate r id = elim (find_player r id) [
  | none ↦ r
  | some p ↦
      let in_pot = get_player_total_bet r.table.pot_manager id in
      record (put_seat r (removed p)) {
        expected_total_chips = expect_less r.expected_total_chips p.chips in_pot;
      }
]

-- `addPlayer`; `none` where it throws.
unfoldable pub add_player : Roster → Newcomer → Option Roster
unfolding add_player_immediate
add_player r c =
    if r.hand_in_progress
    then some (record r { pending_mutations = r.pending_mutations ++ join c ∷ [] })
    else add_player_immediate r c

-- `removePlayer`
unfoldable pub remove_player : Roster → ℕ → Roster
unfolding remove_player_immediate
remove_player r id =
    let marked : Roster = elim (find_player r id) [
      | none ↦ r
      | some p ↦ put_seat r (record p { seat_status = eliminated; disconnected = true })
    ] in
    if r.hand_in_progress
    then record marked { pending_mutations = r.pending_mutations ++ leave id ∷ [] }
    else remove_player_immediate r id

-- `reactivatePlayer`
unfoldable pub reactivate_player : Roster → ℕ → Bool × Roster
reactivate_player r id = elim (find_player r id) [
  | none ↦ (false, r)
  | some p ↦ elim p.seat_status [
    | sitting_out ↦ (true, put_seat r (record p { seat_status = active; strikes = 0 }))
    | _ ↦ (false, r)
  ]
]

-- A mutation that throws is logged and changes nothing: the source throws before it writes.
unfoldable pub mutate : Roster → Mutation → Roster
unfolding add_player_immediate remove_player_immediate
mutate r (join c) = elim (add_player_immediate r c) [ none ↦ r | some r' ↦ r' ]
mutate r (leave id) = remove_player_immediate r id

-- The loop over the mutations.
unfoldable pub mutate_all : List Mutation → Roster → Roster
unfolding mutate
mutate_all [] r = r
mutate_all (mutation ∷ mutations) r = mutate_all mutations (mutate r mutation)

-- `drainPendingMutations`
unfoldable pub drain_pending_mutations : Roster → Roster
unfolding mutate_all
drain_pending_mutations r = mutate_all r.pending_mutations (record r { pending_mutations = [] })

-- `assertChipConservation`: false where it throws.
unfoldable pub assert_chip_conservation : Roster → Bool
assert_chip_conservation r =
    let total = pos (stacks r.table.players + get_total_pot r.table.pot_manager) in
    elim r.expected_total_chips [
      | none ↦ true
      | some expected ↦ leb_ℤ total expected && leb_ℤ expected total
    ]
