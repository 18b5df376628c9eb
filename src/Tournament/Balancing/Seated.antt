-- ===== src/Tournament/Balancing/Seated.antt =====
-- Where a player sits when others are seated at the tables.
use servers_poker.Prelude.{
  ℕ, zero, suc, ◌≡◌, refl, subst, ◌⊎◌, inl, inr, true, some, Option, none, List, [], ◌∷◌, ◌++◌,
  length, ltb, ◌==◌, All, Member, All-of_Member, filter-Member, Bool-cases, arith,
}
use mathlib.Core.Option.{some-injective}
use servers_poker.Prelude.Int.{ℤ, pos, negsuc}
use servers_poker.Table.{Table, GamePlayer}
use servers_poker.Table.Roster.{Roster, new_player, splice, seat_player}
use servers_poker.Tournament.State.{TableEntry, is_playing, playing}
use servers_poker.Tournament.Balancing.{get_table, put_game, newcomer}
use servers_poker.Tournament.Balancing.Joined.{joined}

-- A player plays at one of the tables, with his chips.
abbrev pub HasSeat : List TableEntry → GamePlayer → Type 0
HasSeat tables p =
    (e : TableEntry) × (q : GamePlayer) × Member e tables
    × Member q e.game.table.players
    × (q.id ≡ p.id)
    × (q.chips ≡ p.chips)
    × (is_playing q ≡ true)

-- All who play at tables do so at other ones as well, with their chips.
abbrev pub IsKept : List TableEntry → List TableEntry → Type 0
IsKept tables tables' =
    All (λ (e : TableEntry). All (λ (p : GamePlayer). HasSeat tables' p) (playing e)) tables

splice-Member :
    (n : ℕ) (p q : GamePlayer) (players : List GamePlayer)
    → (q ≡ p) ⊎ Member q players
    → Member q (splice n p players)
unfolding splice
splice-Member zero p q players m = m
splice-Member (suc n) p q [] m = m
splice-Member (suc n) p q (r ∷ players) (inl e) = inr (splice-Member n p q players (inl e))
splice-Member (suc n) p q (r ∷ players) (inr (inl e)) = inl e
splice-Member (suc n) p q (r ∷ players) (inr (inr m)) = inr (splice-Member n p q players (inr m))

append-Member :
    (p q : GamePlayer) (players : List GamePlayer)
    → (q ≡ p) ⊎ Member q players
    → Member q (players ++ p ∷ [])
append-Member p q [] m = m
append-Member p q (r ∷ players) (inl e) = inr (append-Member p q players (inl e))
append-Member p q (r ∷ players) (inr (inl e)) = inl e
append-Member p q (r ∷ players) (inr (inr m)) = inr (append-Member p q players (inr m))

-- Wherever a player is seated, he and those who were there have a seat.
seat_player-Member :
    (t : Table) (p q : GamePlayer) (at : Option ℤ)
    → (q ≡ p) ⊎ Member q t.players
    → Member q (seat_player t p at).players
unfolding seat_player
seat_player-Member t p q none m = append-Member p q t.players m
seat_player-Member t p q (some (negsuc n)) m = append-Member p q t.players m
seat_player-Member t p q (some (pos n)) m = elim (Bool-cases (ltb n (length t.players))) [
  | inl e ↦ rw e (splice-Member n p q t.players m)
  | inr e ↦ rw e (append-Member p q t.players m)
]

-- The table with the changed game is there, and so is every other table.
pub put_game-changed :
    (id : ℕ) (game : Roster) (e : TableEntry) (tables : List TableEntry)
    → get_table id tables ≡ some e
    → Member (record e { game = game }) (put_game id game tables)
put_game-changed id game e [] h = absurd cc
put_game-changed id game e (f ∷ tables) h = elim (Bool-cases (f.id == id)) [
  | inl q ↦
      let same = some-injective f e (rw q at h) in
      rw q (
        inl (
          subst (λ (x : TableEntry). record x { game = game } ≡ record f { game = game }) same
            refl))
  | inr q ↦ rw q (inr (put_game-changed id game e tables (rw q at h)))
]

put_game-Member :
    (id : ℕ) (game : Roster) (e f : TableEntry) (tables : List TableEntry)
    → get_table id tables ≡ some e
    → Member f tables
    → (f ≡ e) ⊎ Member f (put_game id game tables)
put_game-Member id game e f [] h m = absurd m
put_game-Member id game e f (k ∷ tables) h m = elim (Bool-cases (k.id == id)) [
  | inl q ↦ elim m [
    | inl here ↦ inl (subst (λ x. f ≡ x) (some-injective k e (rw q at h)) here)
    | inr there ↦ inr (rw q (inr there))
  ]
  | inr q ↦ elim m [
    | inl here ↦ inr (rw q (inl here))
    | inr there ↦ elim (put_game-Member id game e f tables (rw q at h) there) [
      | inl same ↦ inl same
      | inr still ↦ inr (rw q (inr still))
    ]
  ]
]

-- Who joins a table has a seat.
pub changed-HasSeat :
    (e : TableEntry) (p : GamePlayer) (tables : List TableEntry)
    → is_playing p ≡ true
    → Member (record e { game = joined e p }) tables
    → HasSeat tables p
changed-HasSeat e p tables h m =
    let c = newcomer e p in
    let q = new_player c p.chips in
    let chips : ltb 0 p.chips ≡ true = ground (arith, h) in
    (
      record e { game = joined e p },
      q,
      m,
      seat_player-Member e.game.table q q c.insert_at (inl refl),
      refl,
      refl,
      chips,
    )

pub joined-HasSeat :
    (e : TableEntry) (p : GamePlayer) (tables : List TableEntry)
    → get_table e.id tables ≡ some e
    → is_playing p ≡ true
    → HasSeat (put_game e.id (joined e p) tables) p
joined-HasSeat e p tables g h =
    changed-HasSeat e p (put_game e.id (joined e p) tables) h
      (put_game-changed e.id (joined e p) e tables g)

-- Who had a seat keeps it.
pub HasSeat-joined :
    (e : TableEntry) (p q : GamePlayer) (tables : List TableEntry)
    → get_table e.id tables ≡ some e
    → HasSeat tables q
    → HasSeat (put_game e.id (joined e p) tables) q
HasSeat-joined e p q tables g (f, r, m, n, same_id, same_chips, plays) =
    elim (put_game-Member e.id (joined e p) e f tables g m) [
      | inl same ↦
          let c = newcomer e p in
          let there = subst (λ (x : TableEntry). Member r x.game.table.players) same n in
          (
            record e { game = joined e p },
            r,
            put_game-changed e.id (joined e p) e tables g,
            seat_player-Member e.game.table (new_player c p.chips) r c.insert_at (inr there),
            same_id,
            same_chips,
            plays,
          )
      | inr still ↦ (f, r, still, n, same_id, same_chips, plays)
    ]

pub playing-IsKept :
    (tables tables' : List TableEntry)
    → ((p : GamePlayer) → HasSeat tables p → HasSeat tables' p)
    → IsKept tables tables'
playing-IsKept tables tables' keep =
    All-of_Member (λ (e : TableEntry). All (λ (p : GamePlayer). HasSeat tables' p) (playing e))
      tables
      (λ e m.
        All-of_Member (λ (p : GamePlayer). HasSeat tables' p) (playing e)
          (λ p k.
            let (there, plays) = filter-Member is_playing p e.game.table.players k in
            keep p (e, p, m, there, refl, refl, plays)))
