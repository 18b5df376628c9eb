-- ===== src/Tournament/Seeding.antt =====
-- Who starts at which table: `createInitialTables` of `ActiveTournament`, with its helper
-- `hasDuplicateOwner`, and the free seat that `nextAvailableSeatNumber` finds. The creation of the
-- tables in the database is left out.
pub mod Exchanges
pub mod Everybody
pub mod Sized
mod Tests
use servers_poker.Prelude.{
  up_to, ℕ, zero, suc, ◌+◌, ◌-◌, ◌/◌, Bool, true, false, not, ◌&&◌, ◌||◌, Option, none, some, List,
  [], ◌∷◌, ◌++◌, get_elem?, set, length, includes, ltb, leb, ◌==◌, if◌then◌else◌,
}
use servers_poker.Tournament.State.{BotInfo}
use servers_poker.Tournament.Balancing.{same_user}

-- `numTables`: the quotient, rounded up.
abbrev pub num_tables : ℕ → ℕ → ℕ
num_tables seats bots = (bots + (seats - 1)) / seats

-- The sort by ELO, the highest first; it is stable.
unfoldable pub insert_elo : BotInfo → List BotInfo → List BotInfo
insert_elo b [] = b ∷ []
insert_elo b (c ∷ bots) = if leb c.elo b.elo then b ∷ c ∷ bots else c ∷ insert_elo b bots

unfoldable pub sort_elo : List BotInfo → List BotInfo
unfolding insert_elo
sort_elo [] = []
sort_elo (b ∷ bots) = insert_elo b (sort_elo bots)

-- `tables[idx].push(bot)`
unfoldable pub push_at : ℕ → BotInfo → List (List BotInfo) → List (List BotInfo)
push_at idx b [] = []
push_at zero b (row ∷ tables) = (row ++ b ∷ []) ∷ tables
push_at (suc idx) b (row ∷ tables) = row ∷ push_at idx b tables

-- The next `idx` and `dir`, where true is up. At an end the index stays.
abbrev pub turn : ℕ → ℕ → Bool → ℕ × Bool
turn count idx true = if leb count (idx + 1) then (idx, false) else (idx + 1, true)
turn count zero false = (zero, true)
turn count (suc idx) false = (idx, false)

-- The loop of the snake seeding.
unfoldable pub snake : ℕ → ℕ → Bool → List BotInfo → List (List BotInfo) → List (List BotInfo)
unfolding push_at
snake count idx up [] tables = tables
snake count idx up (b ∷ bots) tables =
    let (idx', up') = turn count idx up in snake count idx' up' bots (push_at idx b tables)

-- `Array.from({ length: numTables }, () => [])`
abbrev pub empty_tables : ℕ → List (List BotInfo)
empty_tables zero = []
empty_tables (suc n) = [] ∷ empty_tables n

-- The tables after the seeding.
unfoldable pub seed_tables : ℕ → List BotInfo → List (List BotInfo)
unfolding snake
seed_tables count ranked =
    if count == 1 then ranked ∷ [] else snake count 0 true ranked (empty_tables count)

-- `hasDuplicateOwner`, with the owners seen so far.
unfoldable pub duplicate_from : List ℕ → List BotInfo → Bool
duplicate_from seen [] = false
duplicate_from seen (b ∷ bots) = elim b.user_id [
  | none ↦ duplicate_from seen bots
  | some u ↦ includes u seen || duplicate_from (u ∷ seen) bots
]

abbrev pub has_duplicate_owner : List BotInfo → Bool
has_duplicate_owner bots = duplicate_from [] bots

-- `findIndex`: another place with the same owner, from a place on.
unfoldable pub conflict_from : ℕ → BotInfo → ℕ → List BotInfo → Option ℕ
conflict_from i bot j [] = none
conflict_from i bot j (b ∷ bots) =
    if not (j == i) && same_user b.user_id bot.user_id
    then some j
    else conflict_from i bot (suc j) bots

-- `filter((_, k) => k !== i)`
unfoldable pub without : ℕ → List BotInfo → List BotInfo
without i [] = []
without zero (b ∷ bots) = bots
without (suc i) (b ∷ bots) = b ∷ without i bots

-- The exchange of two bots of two tables, if it leaves no owner twice at either.
unfoldable pub try_swap : ℕ → ℕ → ℕ → ℕ → List (List BotInfo) → Option (List (List BotInfo))
unfolding without duplicate_from
try_swap t i t2 j tables = elim (get_elem? tables t) [
  | none ↦ none
  | some row ↦ elim (get_elem? row i) [
    | none ↦ none
    | some b ↦ elim (get_elem? tables t2) [
      | none ↦ none
      | some row2 ↦ elim (get_elem? row2 j) [
        | none ↦ none
        | some c ↦
            if not (t2 == t)
              && not (has_duplicate_owner (without i row ++ c ∷ []))
              && not (has_duplicate_owner (without j row2 ++ b ∷ []))
            then some (set (set tables t (set row i c)) t2 (set row2 j b))
            else none
      ]
    ]
  ]
]

-- The loop over the places of another table, and the one over the tables: the first exchange that
-- can be made.
unfoldable pub swap_row : ℕ → ℕ → ℕ → List ℕ → List (List BotInfo) → Option (List (List BotInfo))
unfolding try_swap
swap_row t i t2 [] tables = none
swap_row t i t2 (j ∷ places) tables = elim (try_swap t i t2 j tables) [
  | none ↦ swap_row t i t2 places tables
  | some tables' ↦ some tables'
]

abbrev pub places_at : ℕ → List (List BotInfo) → List ℕ
places_at t tables = elim (get_elem? tables t) [ none ↦ [] | some row ↦ up_to (length row) ]

unfoldable pub swap_any : ℕ → ℕ → List ℕ → List (List BotInfo) → Option (List (List BotInfo))
unfolding swap_row
swap_any t i [] tables = none
swap_any t i (t2 ∷ others) tables = elim (swap_row t i t2 (places_at t2 tables) tables) [
  | none ↦ swap_any t i others tables
  | some tables' ↦ some tables'
]

-- The body of the loop over the places of a table; where no exchange can be made, a warning is
-- logged.
unfoldable pub isolate_one : ℕ → ℕ → List (List BotInfo) → List (List BotInfo)
unfolding conflict_from swap_any
isolate_one t i tables = elim (get_elem? tables t) [
  | none ↦ tables
  | some row ↦ elim (get_elem? row i) [
    | none ↦ tables
    | some b ↦ elim (conflict_from i b 0 row) [
      | none ↦ tables
      | some k ↦ elim (swap_any t k (up_to (length tables)) tables) [
        | none ↦ tables
        | some tables' ↦ tables'
      ]
    ]
  ]
]

unfoldable pub isolate_row : ℕ → List ℕ → List (List BotInfo) → List (List BotInfo)
unfolding isolate_one
isolate_row t [] tables = tables
isolate_row t (i ∷ places) tables = isolate_row t places (isolate_one t i tables)

unfoldable pub isolate_all : List ℕ → List (List BotInfo) → List (List BotInfo)
unfolding isolate_row
isolate_all [] tables = tables
isolate_all (t ∷ ts) tables = isolate_all ts (isolate_row t (places_at t tables) tables)

-- `createInitialTables`
unfoldable pub create_initial_tables : ℕ → List BotInfo → List (List BotInfo)
unfolding sort_elo seed_tables isolate_all
create_initial_tables seats bots =
    let count = num_tables seats (length bots) in
    isolate_all (up_to count) (seed_tables count (sort_elo bots))

-- The loop of `nextAvailableSeatNumber`, over `left` numbers from `n` on; the occupied seats are
-- a set.
unfoldable pub seat_from : List ℕ → ℕ → ℕ → ℕ
seat_from occupied n zero = length occupied + 1
seat_from occupied n (suc left) = if includes n occupied then seat_from occupied (suc n) left else n

-- `occupied`: the numbers of the seats that are not busted, each once.
abbrev pub occupied_of : List (ℕ × Bool) → List ℕ
occupied_of [] = []
occupied_of ((n, busted) ∷ seats) =
    let rest = occupied_of seats in if busted || includes n rest then rest else n ∷ rest

-- `nextAvailableSeatNumber`, with the seats of the table in the database.
unfoldable pub next_available_seat_number : List (ℕ × Bool) → ℕ → ℕ
unfolding seat_from
next_available_seat_number seats max_seats = seat_from (occupied_of seats) 1 max_seats
