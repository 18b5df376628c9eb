-- ===== src/Tournament/Balancing/Broken.antt =====
-- The players of a table that is broken all find a seat.
use servers_poker.Prelude.{
  ℕ, ◌+◌, ◌-◌, ◌≤◌, ◌<◌, ◌≡◌, refl, sym, ◌∙◌, subst, true, false, not, some, List, [], ◌∷◌, filter,
  length, includes, Distinct, Member, ltb, ◌==◌, sum_by, All, All-Member, arith,
}
use servers_poker.Prelude.Doubles.{max_safe_integer}
use servers_poker.Table.{GamePlayer}
use servers_poker.Table.Payout.{seat_ids, stacks}
use servers_poker.Tournament.State.{BotInfo, TableEntry, Tournament, is_playing, playing, table_ids}
use servers_poker.Tournament.Balancing.{
  get_table, put_game, redistribute, available_seats, break_table,
}
use servers_poker.Tournament.Balancing.Joined.{
  chips_at, chips_of, put_game-sum, joined, add_player-joined, joined-stacks,
}
use servers_poker.Tournament.Balancing.Free.{
  seats_with, seats_with-find, joined-playing, joined-seats_with, put_game-All, put_game-table_ids,
  get_table-Member, target_table-some,
}
use servers_poker.Tournament.Balancing.Seated.{
  HasSeat, IsKept, joined-HasSeat, HasSeat-joined, playing-IsKept,
}

-- Players that can be seated: they play and are different, their chips are safe integers, no table
-- knows them, and there is room. The tables are different and between hands.
pub record IsReady (seats : ℕ) (players : List GamePlayer) (tables : List TableEntry) : Type 0 where
  pub idle : All (λ (e : TableEntry). e.game.hand_in_progress ≡ false) tables
  pub ids : Distinct (table_ids tables)
  pub bounded : All (λ (e : TableEntry). length (playing e) ≤ seats) tables
  pub room : length players ≤ available_seats seats tables
  pub unknown :
      All (λ (p : GamePlayer). All (λ (e : TableEntry). seats_with p.id e ≡ 0) tables) players
  pub distinct : Distinct (seat_ids players)
  pub plays : All (λ (p : GamePlayer). is_playing p ≡ true) players
  pub safe : All (λ (p : GamePlayer). p.chips ≤ max_safe_integer) players

-- Each of the players plays at one of the tables with his chips, and so do all who played at them
-- before. The chips of the tables, and the players there who play, are as many as those that were
-- there and theirs together, and no table has more players than seats.
pub record IsSettled (seats : ℕ) (players : List GamePlayer) (tables tables' : List TableEntry)
    : Type 0 where
  pub seated : All (λ (p : GamePlayer). HasSeat tables' p) players
  pub kept : IsKept tables tables'
  pub chips : chips_of tables' ≡ chips_of tables + stacks players
  pub number :
      sum_by (λ (e : TableEntry). length (playing e)) tables'
      ≡ sum_by (λ (e : TableEntry). length (playing e)) tables + length players
  pub bounded : All (λ (e : TableEntry). length (playing e) ≤ seats) tables'
  pub ids : table_ids tables' ≡ table_ids tables

-- The others are still unknown when one player has been seated.
still_unknown :
    (p : GamePlayer) (players : List GamePlayer) (e : TableEntry) (tables : List TableEntry)
    → get_table e.id tables ≡ some e
    → includes p.id (seat_ids players) ≡ false
    → All (λ (q : GamePlayer). seats_with q.id e ≡ 0) players
    → All (λ (q : GamePlayer). All (λ (f : TableEntry). seats_with q.id f ≡ 0) tables) players
    → All
        (λ (q : GamePlayer).
          All (λ (f : TableEntry). seats_with q.id f ≡ 0) (put_game e.id (joined e p) tables))
        players
still_unknown p [] e tables g n h k = tt
still_unknown p (q ∷ players) e tables g n h k =
    let apart : (p.id == q.id) ≡ false = ground (arith, n) in
    (
      put_game-All (λ (f : TableEntry). seats_with q.id f ≡ 0) e.id (joined e p) e tables g
          (joined-seats_with e p q.id apart ∙ h.0) k.0,
      still_unknown p players e tables g (ground (arith, n)) h.1 k.1,
    )

unknown_at :
    (players : List GamePlayer) (e : TableEntry) (tables : List TableEntry)
    → Member e tables
    → All (λ (q : GamePlayer). All (λ (f : TableEntry). seats_with q.id f ≡ 0) tables) players
    → All (λ (q : GamePlayer). seats_with q.id e ≡ 0) players
unknown_at [] e tables m k = tt
unknown_at (q ∷ players) e tables m k = (
  All-Member (λ (f : TableEntry). seats_with q.id f ≡ 0) e tables k.0 m,
  unknown_at players e tables m k.1,
)

seat_one :
    (seats : ℕ) (p : GamePlayer) (players : List GamePlayer) (e : TableEntry)
    (tables : List TableEntry)
    → IsReady seats (p ∷ players) tables
    → Member e tables
    → length (playing e) < seats
    → IsReady seats players (put_game e.id (joined e p) tables)
seat_one seats p players e tables r m free =
    let g = get_table-Member e tables r.ids m in
    let more = joined-playing e p r.plays.0 in
    let space =
      put_game-sum (λ (f : TableEntry). seats - length (playing f)) e.id (joined e p) e tables g in
    record {
      idle =
          put_game-All (λ (f : TableEntry). f.game.hand_in_progress ≡ false) e.id (joined e p) e
            tables g
            (All-Member (λ (f : TableEntry). f.game.hand_in_progress ≡ false) e tables r.idle m)
            r.idle;
      ids = subst (λ l. Distinct l) (sym (put_game-table_ids e.id (joined e p) tables)) r.ids;
      bounded =
          put_game-All (λ (f : TableEntry). length (playing f) ≤ seats) e.id (joined e p) e tables g
            (omega (arith, more, free)) r.bounded;
      room = omega (arith, space, more, free, r.room);
      unknown =
          still_unknown p players e tables g r.distinct.0
            (unknown_at players e tables m r.unknown.1) r.unknown.1;
      distinct = r.distinct.1;
      plays = r.plays.1;
      safe = r.safe.1;
    }

redistribute-IsSettled :
    (seats : ℕ) (bots : List BotInfo) (players : List GamePlayer) (tables : List TableEntry)
    → IsReady seats players tables
    → (tables' : List TableEntry) × (redistribute seats bots players tables ≡ some tables')
      × IsSettled seats players tables tables'
      × ((q : GamePlayer) → HasSeat tables q → HasSeat tables' q)
unfolding redistribute
redistribute-IsSettled seats bots [] tables r = (
  tables,
  refl,
  record {
    seated = tt;
    kept = playing-IsKept tables tables (λ p h. h);
    chips = omega arith;
    number = omega arith;
    bounded = r.bounded;
    ids = refl;
  },
  λ q h. h,
)
redistribute-IsSettled seats bots (p ∷ players) tables r =
    let (e, target, m, free) = target_table-some seats bots p tables (omega (arith, r.room)) in
    let g = get_table-Member e tables r.ids m in
    let unseen =
      seats_with-find p.id e.game.table.players
        (All-Member (λ (f : TableEntry). seats_with p.id f ≡ 0) e tables r.unknown.0 m) in
    let added =
      add_player-joined e p
        (All-Member (λ (f : TableEntry). f.game.hand_in_progress ≡ false) e tables r.idle m) unseen
        r.safe.0 in
    let (tables', done, s, later) =
      redistribute-IsSettled seats bots players (put_game e.id (joined e p) tables)
        (seat_one seats p players e tables r m free) in
    let keep : (q : GamePlayer) → HasSeat tables q → HasSeat tables' q =
      λ q h. later q (HasSeat-joined e p q tables g h) in
    (
      tables',
      rw (target, added, redistribute) done,
      record {
        seated = (later p (joined-HasSeat e p tables g r.plays.0), s.seated);
        kept = playing-IsKept tables tables' keep;
        chips =
            omega (
              arith,
              s.chips,
              put_game-sum chips_at e.id (joined e p) e tables g,
              joined-stacks e p,
            );
        number = omega (
          arith,
          s.number,
          put_game-sum (λ (f : TableEntry). length (playing f)) e.id (joined e p) e tables g,
          joined-playing e p r.plays.0,
        );
        bounded = s.bounded;
        ids = s.ids ∙ put_game-table_ids e.id (joined e p) tables;
      },
      keep,
    )

-- The tables that remain when one is broken.
abbrev pub remaining_tables : ℕ → List TableEntry → List TableEntry
remaining_tables table_id = filter (λ (e : TableEntry). not (e.id == table_id))

-- Where the other tables are between hands and know none of the players of a table, and have a seat
-- for each, and the chips of each are a safe integer, `breakTable` returns and the table is gone.
-- Every player of the table who plays then plays at one of the other tables with his chips, and
-- those who played there still do with theirs. The other tables then have as many chips and as many
-- players who play as they and the table had together, and none more players than seats.
pub break_table-IsSettled :
    (seats : ℕ) (t : Tournament) (table_id : ℕ) (entry : TableEntry)
    → get_table table_id t.tables ≡ some entry
    → IsReady seats (playing entry) (remaining_tables table_id t.tables)
    → (t' : Tournament) × (break_table seats t table_id ≡ some t')
      × IsSettled seats (playing entry) (remaining_tables table_id t.tables) t'.tables
unfolding break_table
break_table-IsSettled seats t table_id entry g r =
    let remaining = remaining_tables table_id t.tables in
    let fits : ltb (available_seats seats remaining) (length (playing entry)) ≡ false =
      ground (arith, r.room) in
    let (tables, done, s, later) =
      redistribute-IsSettled seats t.active_bots (playing entry) remaining r in
    (
      record t {
        tables = tables;
        table_hand_numbers = filter (λ (n : ℕ × ℕ). not (n.0 == table_id)) t.table_hand_numbers;
      },
      rw (g, fits, done, break_table) refl,
      s,
    )
