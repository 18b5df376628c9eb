-- ===== src/Tournament/Balancing/Joined.antt =====
-- The tables and their chips when a player goes or comes.
use servers_poker.Prelude.{
  ℕ, ◌+◌, ◌≤◌, ◌≡◌, ◌≢◌, refl, sym, ap, ◌∙◌, inl, inr, true, false, none, some, List, [], ◌∷◌, ◌++◌,
  ◌==◌, if◌then◌else◌, sum_by, Bool-cases, arith,
}
use mathlib.Core.Option.{some-injective}
use servers_poker.Prelude.Doubles.{max_safe_integer, to_number-safe}
use servers_poker.Table.{GamePlayer, active}
use servers_poker.Table.Payout.{stacks}
use servers_poker.Table.Roster.{
  Roster, Newcomer, join, find_player, new_player, removed, seat_player, expect_more, put_seat,
  add_player, remove_player, add_player_immediate, remove_player_immediate,
}
use servers_poker.Table.Roster.Balance.{seat_player-stacks, found-stacks, found-id}
use servers_poker.Tournament.State.{TableEntry}
use servers_poker.Tournament.Balancing.{get_table, put_game, newcomer}

abbrev pub chips_at : TableEntry → ℕ
chips_at e = stacks e.game.table.players

abbrev pub chips_of : List TableEntry → ℕ
chips_of = sum_by chips_at

-- A change of a game changes a sum over the tables by what it changes at the table.
pub put_game-sum :
    (f : TableEntry → ℕ) (id : ℕ) (game : Roster) (e : TableEntry) (tables : List TableEntry)
    → get_table id tables ≡ some e
    → sum_by f (put_game id game tables) + f e ≡ sum_by f tables + f (record e { game = game })
put_game-sum f id game e [] h = absurd cc
put_game-sum f id game e (k ∷ tables) h = elim (Bool-cases (k.id == id)) [
  | inl q ↦
      let same = some-injective k e (rw q at h) in
      rw q (omega (arith, ap f same, ap (λ (x : TableEntry). f (record x { game = game })) same))
  | inr q ↦ rw q (omega (arith, put_game-sum f id game e tables (rw q at h)))
]

pub get_table-put_game :
    (i j : ℕ) (game : Roster) (tables : List TableEntry)
    → i ≢ j
    → get_table j (put_game i game tables) ≡ get_table j tables
get_table-put_game i j game [] d = refl
get_table-put_game i j game (f ∷ tables) d = elim (Bool-cases (f.id == i)) [
  | inl q ↦ let other : (f.id == j) ≡ false = ground (arith, q, d) in rw (q, other) refl
  | inr q ↦ rw q (ap (λ o. if f.id == j then some f else o) (get_table-put_game i j game tables d))
]

pub get_table-id :
    (id : ℕ) (e : TableEntry) (tables : List TableEntry) → get_table id tables ≡ some e → e.id ≡ id
get_table-id id e [] h = absurd cc
get_table-id id e (f ∷ tables) h = elim (Bool-cases (f.id == id)) [
  | inl q ↦ ap (λ (x : TableEntry). x.id) (sym (some-injective f e (rw q at h))) ∙ ground (arith, q)
  | inr q ↦ get_table-id id e tables (rw q at h)
]

pub remove_player-stacks :
    (r : Roster) (id : ℕ) (p : GamePlayer)
    → r.hand_in_progress ≡ false
    → find_player r id ≡ some p
    → stacks (remove_player r id).table.players + p.chips ≡ stacks r.table.players
unfolding remove_player remove_player_immediate
remove_player-stacks r id p idle f =
    let same = found-stacks id p (removed p) r.table.players (found-id id p r.table.players f) f in
    rw (idle, f, remove_player, remove_player_immediate) (omega (arith, same))

add_player-idle :
    (r : Roster) (c : Newcomer)
    → r.hand_in_progress ≡ false
    → add_player r c ≡ add_player_immediate r c
unfolding add_player
add_player-idle r c idle =
    ap
      (λ b.
        if b
        then some (record r { pending_mutations = r.pending_mutations ++ join c ∷ [] })
        else add_player_immediate r c)
      idle

-- The roster with a new player, who brings chips.
abbrev joined_with : TableEntry → GamePlayer → ℕ → Roster
joined_with e p chips =
    let c = newcomer e p in
    record (e.game) {
      table = seat_player e.game.table (new_player c chips) c.insert_at;
      expected_total_chips = expect_more e.game.expected_total_chips chips;
    }

abbrev pub joined : TableEntry → GamePlayer → Roster
joined e p = joined_with e p p.chips

-- A player who has no seat at the table joins it. His chips are a safe integer, so `Number` keeps
-- them.
pub add_player-joined :
    (e : TableEntry) (p : GamePlayer)
    → e.game.hand_in_progress ≡ false
    → find_player e.game p.id ≡ none
    → p.chips ≤ max_safe_integer
    → add_player e.game (newcomer e p) ≡ some (joined e p)
unfolding add_player_immediate
add_player-joined e p idle f safe =
    add_player-idle e.game (newcomer e p) idle
    ∙ rw (f, add_player_immediate)
        (ap (λ n. some (joined_with e p n)) (to_number-safe p.chips safe))

-- A new player brings his chips.
pub joined-stacks :
    (e : TableEntry) (p : GamePlayer) → stacks (joined e p).table.players ≡ chips_at e + p.chips
joined-stacks e p =
    let c = newcomer e p in seat_player-stacks e.game.table (new_player c p.chips) c.insert_at

-- A player who comes back has the chips of his old seat.
pub add_player-back :
    (e : TableEntry) (p q : GamePlayer)
    → e.game.hand_in_progress ≡ false
    → find_player e.game p.id ≡ some q
    → q.disconnected ≡ true
    → (r : Roster) × (add_player e.game (newcomer e p) ≡ some r)
      × (stacks r.table.players ≡ chips_at e)
unfolding add_player_immediate
add_player-back e p q idle f gone =
    let back : GamePlayer = record q { seat_status = active; disconnected = false; strikes = 0 } in
    let same =
      found-stacks p.id q back e.game.table.players (found-id p.id q e.game.table.players f) f in
    (
      put_seat e.game back,
      add_player-idle e.game (newcomer e p) idle ∙ rw (f, gone, add_player_immediate) refl,
      omega (arith, same),
    )
