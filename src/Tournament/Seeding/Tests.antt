-- ===== src/Tournament/Seeding/Tests.antt =====
-- A field of five at tables of two, with an instance of each theorem about the seeding.
use servers_poker.Prelude.{
  ℕ, ◌≡◌, ◌≤◌, refl, true, false, some, List, [], ◌∷◌, map, length, All, arith,
}
use servers_poker.Tournament.State.{BotInfo}
use servers_poker.Tournament.Seeding.{create_initial_tables, next_available_seat_number}
use servers_poker.Tournament.Seeding.Exchanges.{weight, sizes}
use servers_poker.Tournament.Seeding.Everybody.{create_initial_tables-weight}
use servers_poker.Tournament.Seeding.Sized.{create_initial_tables-sizes}

abbrev entrant : ℕ → ℕ → ℕ → BotInfo
entrant id owner elo = record { bot_id = id; user_id = some owner; elo = elo }

-- The snake puts 5 at the first table, 4 and 1 at the second, and 3 and 2 at the third.
abbrev field : List BotInfo
field = entrant 1 7 10 ∷ entrant 2 8 20 ∷ entrant 3 9 30 ∷ entrant 4 6 40 ∷ entrant 5 5 50 ∷ []

field-tables :
    map (map (λ (b : BotInfo). b.bot_id)) (create_initial_tables 2 field)
    ≡ (5 ∷ []) ∷ (4 ∷ 1 ∷ []) ∷ (3 ∷ 2 ∷ []) ∷ []
unfolding create_initial_tables
field-tables = refl

-- The owner of 6 also has 2, which changes seats with 5.
abbrev family : List BotInfo
family =
    entrant 1 1 10
    ∷ entrant 2 7 20
    ∷ entrant 3 9 30
    ∷ entrant 4 8 40
    ∷ entrant 5 5 50
    ∷ entrant 6 7 60
    ∷ []

family-tables :
    map (map (λ (b : BotInfo). b.bot_id)) (create_initial_tables 3 family)
    ≡ (6 ∷ 3 ∷ 5 ∷ []) ∷ (2 ∷ 4 ∷ 1 ∷ []) ∷ []
unfolding create_initial_tables
family-tables = refl

next_seat : next_available_seat_number ((1, false) ∷ (2, true) ∷ (3, false) ∷ []) 9 ≡ 2
unfolding next_available_seat_number
next_seat = refl

create_initial_tables-weight_example :
    (weight (λ b. b.elo) (create_initial_tables 2 field) ≡ 150)
    × (length (create_initial_tables 2 field) ≡ 3)
create_initial_tables-weight_example =
    create_initial_tables-weight (λ b. b.elo) 2 field (omega arith) (omega arith)

create_initial_tables-sizes_example : All (λ n. n ≤ 2) (sizes (create_initial_tables 2 field))
create_initial_tables-sizes_example =
    create_initial_tables-sizes 2 field (omega arith) (omega arith)
