-- ===== src/Tournament/Balancing/Free.antt =====
-- Seats at the tables that remain when a table is broken.
use servers_poker.Prelude.{
  ℕ, suc, ◌<◌, ◌≡◌, ◌≢◌, refl, sym, ap, subst, inl, inr, Bool, true, false, none, some, List, [],
  ◌∷◌, filter, find, length, includes, Distinct, ltb, ◌==◌, if◌then◌else◌, sum_by, All, Member,
  filter-Member, Bool-cases, if_cases, arith,
}
use mathlib.Core.Option.{some-injective}
use servers_poker.Table.{GamePlayer}
use servers_poker.Table.Roster.{Roster, new_player}
use servers_poker.Table.Roster.Balance.{seat_player-sum}
use servers_poker.Tournament.State.{BotInfo, TableEntry, is_playing, playing, table_ids}
use servers_poker.Tournament.Balancing.{
  get_table, put_game, newcomer, goes_before, first_table, target_table, available_seats,
}
use servers_poker.Tournament.Balancing.Joined.{joined}

-- How many seats of a table have an id.
abbrev pub seats_with : ℕ → TableEntry → ℕ
seats_with id e = sum_by (λ (q : GamePlayer). if q.id == id then 1 else 0) e.game.table.players

pub seats_with-find :
    (id : ℕ) (players : List GamePlayer)
    → sum_by (λ (q : GamePlayer). if q.id == id then 1 else 0) players ≡ 0
    → find (λ (q : GamePlayer). q.id == id) players ≡ none
seats_with-find id [] h = refl
seats_with-find id (q ∷ players) h = elim (Bool-cases (q.id == id)) [
  | inl e ↦ absurd (taken e)
  | inr e ↦ rw e (seats_with-find id players (ground (arith, h, e)))
]
  where
    taken : (q.id == id) ≡ true → ⊥
    taken e = ground (arith, e, h)

length-filter :
    (f : GamePlayer → Bool) (players : List GamePlayer)
    → length (filter f players) ≡ sum_by (λ q. if f q then 1 else 0) players
length-filter f [] = refl
length-filter f (q ∷ players) = ground (arith, length-filter f players)

-- A player with chips who joins plays.
pub joined-playing :
    (e : TableEntry) (p : GamePlayer)
    → is_playing p ≡ true
    → length (playing (record e { game = joined e p })) ≡ suc (length (playing e))
joined-playing e p h =
    let c = newcomer e p in
    let test : GamePlayer → ℕ = λ q. if is_playing q then 1 else 0 in
    let chips : ltb 0 p.chips ≡ true = ground (arith, h) in
    let plays : test (new_player c p.chips) ≡ 1 = ground (arith, chips) in
    omega (
      arith,
      length-filter is_playing (joined e p).table.players,
      length-filter is_playing e.game.table.players,
      plays,
      seat_player-sum test e.game.table (new_player c p.chips) c.insert_at,
    )

pub joined-seats_with :
    (e : TableEntry) (p : GamePlayer) (id : ℕ)
    → (p.id == id) ≡ false
    → seats_with id (record e { game = joined e p }) ≡ seats_with id e
joined-seats_with e p id h =
    let c = newcomer e p in
    let test : GamePlayer → ℕ = λ q. if q.id == id then 1 else 0 in
    let apart : test (new_player c p.chips) ≡ 0 = ground (arith, h) in
    omega (arith, apart, seat_player-sum test e.game.table (new_player c p.chips) c.insert_at)

-- What holds of all tables holds after a change of a game, if it holds of the changed table.
pub put_game-All :
    (P : TableEntry → Type 0) (id : ℕ) (game : Roster) (e : TableEntry) (tables : List TableEntry)
    → get_table id tables ≡ some e
    → P (record e { game = game })
    → All P tables
    → All P (put_game id game tables)
put_game-All P id game e [] h k a = tt
put_game-All P id game e (f ∷ tables) h k a = elim (Bool-cases (f.id == id)) [
  | inl q ↦
      let same = some-injective f e (rw q at h) in
      rw q (subst (λ (x : TableEntry). P (record x { game = game })) (sym same) k, a.1)
  | inr q ↦ rw q (a.0, put_game-All P id game e tables (rw q at h) k a.1)
]

pub put_game-table_ids :
    (id : ℕ) (game : Roster) (tables : List TableEntry)
    → table_ids (put_game id game tables) ≡ table_ids tables
put_game-table_ids id game [] = refl
put_game-table_ids id game (f ∷ tables) =
    if_cases (λ l. table_ids l ≡ table_ids (f ∷ tables)) (f.id == id) _ _ refl
      (ap (λ l. f.id ∷ l) (put_game-table_ids id game tables))

includes-table_ids :
    (e : TableEntry) (tables : List TableEntry)
    → Member e tables
    → includes e.id (table_ids tables) ≡ true
includes-table_ids e [] m = absurd m
includes-table_ids e (f ∷ tables) (inl h) =
    subst (λ (x : TableEntry). includes x.id (table_ids (f ∷ tables)) ≡ true) (sym h) (ground arith)
includes-table_ids e (f ∷ tables) (inr m) = ground (arith, includes-table_ids e tables m)

pub get_table-Member :
    (e : TableEntry) (tables : List TableEntry)
    → Distinct (table_ids tables)
    → Member e tables
    → get_table e.id tables ≡ some e
get_table-Member e [] d m = absurd m
get_table-Member e (f ∷ tables) d (inl h) =
    subst (λ (x : TableEntry). get_table x.id (f ∷ tables) ≡ some x) (sym h) (ground arith)
get_table-Member e (f ∷ tables) d (inr m) =
    let other : (f.id == e.id) ≡ false = ground (arith, d.0, includes-table_ids e tables m) in
    rw other (get_table-Member e tables d.1 m)

first_table-Member :
    (bots : List BotInfo) (p : GamePlayer) (e : TableEntry) (tables : List TableEntry)
    → Member (first_table bots p e tables) (e ∷ tables)
unfolding first_table
first_table-Member bots p e [] = inl refl
first_table-Member bots p e (f ∷ tables) =
    let best = if goes_before bots p f e then f else e in
    elim (first_table-Member bots p best tables) [
      | inl h ↦
          if_cases
            (λ x.
              first_table bots p best tables ≡ x
              → Member (first_table bots p best tables) (e ∷ f ∷ tables))
            (goes_before bots p f e) f e (λ k. inr (inl k)) (λ k. inl k) h
      | inr m ↦ inr (inr m)
    ]

abbrev has_seat : ℕ → TableEntry → Bool
has_seat seats e = ltb (length (playing e)) seats

has_seat-some :
    (seats : ℕ) (tables : List TableEntry)
    → 0 < available_seats seats tables
    → filter (has_seat seats) tables ≢ []
has_seat-some seats [] h e = absurd (omega (arith, h))
has_seat-some seats (f ∷ tables) h e = elim (Bool-cases (has_seat seats f)) [
  | inl q ↦ nil_cons (rw q at e)
  | inr q ↦ has_seat-some seats tables (ground (arith, h, q)) (rw q at e)
]
  where
    nil_cons : f ∷ filter (has_seat seats) tables ≡ [] → ⊥
    nil_cons k = cc

-- Where there is room, a table with a seat is found.
pub target_table-some :
    (seats : ℕ) (bots : List BotInfo) (p : GamePlayer) (tables : List TableEntry)
    → 0 < available_seats seats tables
    → (e : TableEntry) × (target_table seats bots p tables ≡ some e)
      × Member e tables
      × (length (playing e) < seats)
unfolding target_table
target_table-some seats bots p tables h =
    go (filter (has_seat seats) tables) refl (has_seat-some seats tables h)
  where
    go :
        (l : List TableEntry)
        → filter (has_seat seats) tables ≡ l
        → filter (has_seat seats) tables ≢ []
        → (e : TableEntry) × (target_table seats bots p tables ≡ some e)
          × Member e tables
          × (length (playing e) < seats)
    go [] e n = absurd (n e)
    go (f ∷ l) e n =
        let best = first_table bots p f l in
        let m =
          filter-Member (has_seat seats) best tables
            (subst (λ k. Member best k) (sym e) (first_table-Member bots p f l)) in
        (best, rw (e, target_table) refl, m.0, ground (arith, m.1))
