-- ===== src/Tournament/Balancing/Moved.antt =====
-- The chips of a player who is moved to another table.
use servers_poker.Prelude.{
  ℕ, ◌+◌, ◌≤◌, ◌≡◌, ◌≢◌, refl, sym, ap, ◌∙◌, subst, ◌⊎◌, inl, inr, Bool, true, false, not, none,
  some, List, [], ◌∷◌, find, includes, Distinct, leb, ◌==◌, Member, filter-Member, Bool-cases,
  Option-cases, arith,
}
use mathlib.Core.Option.{some-injective}
use servers_poker.Prelude.Doubles.{max_safe_integer}
use servers_poker.Table.{GamePlayer}
use servers_poker.Table.Payout.{seat_ids, stacks}
use servers_poker.Table.Roster.{Roster, find_player, add_player, remove_player}
use servers_poker.Tournament.State.{BotInfo, TableEntry, Tournament, is_playing, playing}
use servers_poker.Tournament.Balancing.{
  get_table, put_game, insert_stack, sort_stacks, player_to_move, newcomer, conflicts, move_player,
  move_player_for_balancing,
}
use servers_poker.Tournament.Balancing.Joined.{
  chips_at, chips_of, put_game-sum, get_table-put_game, get_table-id, remove_player-stacks, joined,
  add_player-joined, joined-stacks, add_player-back,
}
use servers_poker.Tournament.Balancing.Seated.{HasSeat, changed-HasSeat, put_game-changed}

find-Member : {A : Type 0} (f : A → Bool) (x : A) (xs : List A) → find f xs ≡ some x → Member x xs
find-Member f x [] e = absurd cc
find-Member f x (y ∷ xs) e = elim (Bool-cases (f y)) [
  | inl q ↦ inl (sym (some-injective y x (rw q at e)))
  | inr q ↦ inr (find-Member f x xs (rw q at e))
]

insert_stack-Member :
    (p q : GamePlayer) (players : List GamePlayer)
    → Member q (insert_stack p players)
    → (q ≡ p) ⊎ Member q players
unfolding insert_stack
insert_stack-Member p q [] m = m
insert_stack-Member p q (r ∷ players) m = elim (Bool-cases (leb r.chips p.chips)) [
  | inl e ↦ rw (e, insert_stack) at m
  | inr e ↦
      let m' : (q ≡ r) ⊎ Member q (insert_stack p players) = rw (e, insert_stack) at m in
      elim m' [
        | inl here ↦ inr (inl here)
        | inr there ↦ elim (insert_stack-Member p q players there) [
          | inl new ↦ inl new
          | inr old ↦ inr (inr old)
        ]
      ]
]

sort_stacks-Member :
    (q : GamePlayer) (players : List GamePlayer) → Member q (sort_stacks players) → Member q players
unfolding sort_stacks
sort_stacks-Member q [] m = m
sort_stacks-Member q (p ∷ players) m = elim (insert_stack-Member p q (sort_stacks players) m) [
  | inl new ↦ inl new
  | inr old ↦ inr (sort_stacks-Member q players old)
]

player_to_move-Member :
    (bots : List BotInfo) (e : TableEntry) (p : GamePlayer) (candidates : List GamePlayer)
    → player_to_move bots e candidates ≡ some p
    → Member p candidates
unfolding player_to_move
player_to_move-Member bots e p [] h = absurd cc
player_to_move-Member bots e p (c ∷ candidates) h =
    let test : GamePlayer → Bool = λ q. not (conflicts bots q e) in
    elim (Option-cases (find test (c ∷ candidates))) [
      | inl n ↦ inl (sym (some-injective c p (rw (n, player_to_move) at h)))
      | inr (q, f) ↦
          let same = some-injective q p (rw (f, player_to_move) at h) in
          subst (λ x. Member x (c ∷ candidates)) same (find-Member test q (c ∷ candidates) f)
    ]

includes-Member :
    (p : GamePlayer) (players : List GamePlayer)
    → Member p players
    → includes p.id (seat_ids players) ≡ true
includes-Member p [] m = absurd m
includes-Member p (q ∷ players) (inl e) =
    subst (λ (x : GamePlayer). includes x.id (seat_ids (q ∷ players)) ≡ true) (sym e) (ground arith)
includes-Member p (q ∷ players) (inr m) = ground (arith, includes-Member p players m)

-- Where ids differ, a player is found by his id.
pub find_player-Member :
    (p : GamePlayer) (players : List GamePlayer)
    → Distinct (seat_ids players)
    → Member p players
    → find (λ (q : GamePlayer). q.id == p.id) players ≡ some p
find_player-Member p [] d m = absurd m
find_player-Member p (q ∷ players) d (inl e) =
    subst (λ (x : GamePlayer). find (λ (r : GamePlayer). r.id == x.id) (q ∷ players) ≡ some x)
      (sym e) (ground arith)
find_player-Member p (q ∷ players) d (inr m) =
    let other : (q.id == p.id) ≡ false = ground (arith, d.0, includes-Member p players m) in
    rw other (find_player-Member p players d.1 m)

-- A move between two tables, by what the other table does with the chips.
move_player-chips :
    (from_id to_id : ℕ) (from_entry to_entry : TableEntry) (p : GamePlayer)
    (tables : List TableEntry) (r : Roster)
    → from_id ≢ to_id
    → get_table from_id tables ≡ some from_entry
    → get_table to_id tables ≡ some to_entry
    → from_entry.game.hand_in_progress ≡ false
    → find_player from_entry.game p.id ≡ some p
    → add_player to_entry.game (newcomer to_entry p) ≡ some r
    → (tables' : List TableEntry) × (move_player from_entry to_entry p tables ≡ some tables')
      × (chips_of tables' + chips_at to_entry + p.chips ≡ chips_of tables + stacks r.table.players)
      × Member (record to_entry { game = r }) tables'
unfolding move_player
move_player-chips from_id to_id from_entry to_entry p tables r d f g idle found added =
    let from_same = get_table-id from_id from_entry tables f in
    let to_same = get_table-id to_id to_entry tables g in
    let gone = remove_player from_entry.game p.id in
    let left = put_game from_entry.id gone tables in
    let f' : get_table from_entry.id tables ≡ some from_entry =
      ap (λ i. get_table i tables) from_same ∙ f in
    let apart : from_entry.id ≢ to_entry.id = λ e. d (sym from_same ∙ e ∙ to_same) in
    let g' : get_table to_entry.id left ≡ some to_entry =
      get_table-put_game from_entry.id to_entry.id gone tables apart
      ∙ ap (λ i. get_table i tables) to_same
      ∙ g in
    (
      put_game to_entry.id r left,
      rw (added, move_player) refl,
      omega (
        arith,
        put_game-sum chips_at from_entry.id gone from_entry tables f',
        put_game-sum chips_at to_entry.id r to_entry left g',
        remove_player-stacks from_entry.game p.id p idle found,
      ),
      put_game-changed to_entry.id r to_entry left g',
    )

-- The player who is to be moved plays at the table.
mover-Member :
    (bots : List BotInfo) (from_entry to_entry : TableEntry) (p : GamePlayer)
    → player_to_move bots to_entry (sort_stacks (playing from_entry)) ≡ some p
    → Member p from_entry.game.table.players × (is_playing p ≡ true)
mover-Member bots from_entry to_entry p h =
    let there =
      sort_stacks-Member p (playing from_entry)
        (player_to_move-Member bots to_entry p (sort_stacks (playing from_entry)) h) in
    filter-Member is_playing p from_entry.game.table.players there

-- He is found by his id.
mover-found :
    (bots : List BotInfo) (from_entry to_entry : TableEntry) (p : GamePlayer)
    → Distinct (seat_ids from_entry.game.table.players)
    → player_to_move bots to_entry (sort_stacks (playing from_entry)) ≡ some p
    → find_player from_entry.game p.id ≡ some p
mover-found bots from_entry to_entry p d h =
    find_player-Member p from_entry.game.table.players d
      (mover-Member bots from_entry to_entry p h).0

-- Between hands, a move for balancing between two different tables returns, and all tables together
-- have the chips that they had, and the player that it picks plays at one of them with his, where he
-- was not at the other table before and his chips are a safe integer.
pub move_player_for_balancing-chips :
    (t : Tournament) (from_id to_id : ℕ) (from_entry to_entry : TableEntry) (p : GamePlayer)
    → from_id ≢ to_id
    → get_table from_id t.tables ≡ some from_entry
    → get_table to_id t.tables ≡ some to_entry
    → from_entry.game.hand_in_progress ≡ false
    → to_entry.game.hand_in_progress ≡ false
    → Distinct (seat_ids from_entry.game.table.players)
    → player_to_move t.active_bots to_entry (sort_stacks (playing from_entry)) ≡ some p
    → find_player to_entry.game p.id ≡ none
    → p.chips ≤ max_safe_integer
    → (t' : Tournament) × (move_player_for_balancing t from_id to_id ≡ some t')
      × (chips_of t'.tables ≡ chips_of t.tables)
      × HasSeat t'.tables p
unfolding move_player_for_balancing
move_player_for_balancing-chips t from_id to_id from_entry to_entry p d f g idle idle' distinct h
      new safe =
    let found = mover-found t.active_bots from_entry to_entry p distinct h in
    let r = joined to_entry p in
    let added = add_player-joined to_entry p idle' new safe in
    let (tables, moved, chips, changed) =
      move_player-chips from_id to_id from_entry to_entry p t.tables r d f g idle found added in
    (
      record t { tables = tables },
      rw (f, g, h, moved, move_player_for_balancing) refl,
      omega (arith, chips, joined-stacks to_entry p),
      changed-HasSeat to_entry p tables (mover-Member t.active_bots from_entry to_entry p h).1
          changed,
    )

-- Between hands, a move for balancing between two different tables, where the player that it picks
-- was at the other table before and was taken off it: it returns, and his chips are lost.
pub move_player_for_balancing-back :
    (t : Tournament) (from_id to_id : ℕ) (from_entry to_entry : TableEntry) (p q : GamePlayer)
    → from_id ≢ to_id
    → get_table from_id t.tables ≡ some from_entry
    → get_table to_id t.tables ≡ some to_entry
    → from_entry.game.hand_in_progress ≡ false
    → to_entry.game.hand_in_progress ≡ false
    → Distinct (seat_ids from_entry.game.table.players)
    → player_to_move t.active_bots to_entry (sort_stacks (playing from_entry)) ≡ some p
    → find_player to_entry.game p.id ≡ some q
    → q.disconnected ≡ true
    → (t' : Tournament) × (move_player_for_balancing t from_id to_id ≡ some t')
      × (chips_of t'.tables + p.chips ≡ chips_of t.tables)
unfolding move_player_for_balancing
move_player_for_balancing-back t from_id to_id from_entry to_entry p q d f g idle idle' distinct h
      old gone =
    let found = mover-found t.active_bots from_entry to_entry p distinct h in
    let (r, added, back) = add_player-back to_entry p q idle' old gone in
    let (tables, moved, chips, changed) =
      move_player-chips from_id to_id from_entry to_entry p t.tables r d f g idle found added in
    (
      record t { tables = tables },
      rw (f, g, h, moved, move_player_for_balancing) refl,
      omega (arith, chips, back),
    )
