-- ===== src/Tournament/Seeding/Everybody.antt =====
-- Everybody starts at one table.
use servers_poker.Prelude.{
  up_to, ℕ, zero, suc, ◌+◌, ◌-◌, ◌*◌, ◌/◌, ◌<◌, ◌≡◌, refl, sym, ap, ◌∙◌, inl, inr, Bool, true,
  false, List, [], ◌∷◌, length, length-map, leb, ◌==◌, sum_by, sum_by-append, Bool-cases, if_cases,
  arith,
}
use native.Mathlib.Nat.{div-add-mod, mod-lt, mul-zero}
use servers_poker.Tournament.State.{BotInfo}
use servers_poker.Tournament.Seeding.{
  num_tables, insert_elo, sort_elo, push_at, turn, snake, empty_tables, seed_tables,
  create_initial_tables,
}
use servers_poker.Tournament.Seeding.Exchanges.{weight, isolate_all-Keeps}

module _ (f : BotInfo → ℕ) where
  insert_elo-sum :
      (b : BotInfo) (bots : List BotInfo) → sum_by f (insert_elo b bots) ≡ f b + sum_by f bots
  unfolding insert_elo
  insert_elo-sum b [] = refl
  insert_elo-sum b (c ∷ bots) =
      if_cases (λ l. sum_by f l ≡ f b + (f c + sum_by f bots)) (leb c.elo b.elo) _ _ refl
        (omega (arith, insert_elo-sum b bots))

  pub sort_elo-sum : (bots : List BotInfo) → sum_by f (sort_elo bots) ≡ sum_by f bots
  unfolding sort_elo
  sort_elo-sum [] = refl
  sort_elo-sum (b ∷ bots) = insert_elo-sum b (sort_elo bots) ∙ ap (λ n. f b + n) (sort_elo-sum bots)

  push_at-weight :
      (idx : ℕ) (b : BotInfo) (tables : List (List BotInfo))
      → idx < length tables
      → weight f (push_at idx b tables) ≡ weight f tables + f b
  unfolding push_at
  push_at-weight idx b [] h = absurd (omega (arith, h))
  push_at-weight zero b (row ∷ tables) h = omega (arith, sum_by-append f row (b ∷ []))
  push_at-weight (suc idx) b (row ∷ tables) h =
      omega (arith, push_at-weight idx b tables (omega (arith, h)))

  pub push_at-length :
      (idx : ℕ) (b : BotInfo) (tables : List (List BotInfo))
      → length (push_at idx b tables) ≡ length tables
  unfolding push_at
  push_at-length idx b [] = refl
  push_at-length zero b (row ∷ tables) = refl
  push_at-length (suc idx) b (row ∷ tables) = ap suc (push_at-length idx b tables)

  pub turn-lt : (count idx : ℕ) (up : Bool) → idx < count → (turn count idx up).0 < count
  turn-lt count idx true h = ground arith
  turn-lt count zero false h = h
  turn-lt count (suc idx) false h = omega (arith, h)

  snake-weight :
      (count idx : ℕ) (up : Bool) (bots : List BotInfo) (tables : List (List BotInfo))
      → length tables ≡ count
      → idx < count
      → (weight f (snake count idx up bots tables) ≡ weight f tables + sum_by f bots)
        × (length (snake count idx up bots tables) ≡ count)
  unfolding snake
  snake-weight count idx up [] tables l h = (omega arith, l)
  snake-weight count idx up (b ∷ bots) tables l h =
      let next = turn count idx up in
      let rest =
        snake-weight count next.0 next.1 bots (push_at idx b tables)
          (push_at-length idx b tables ∙ l) (turn-lt count idx up h) in
      (omega (arith, rest.0, push_at-weight idx b tables (omega (arith, l, h))), rest.1)

  empty_tables-weight : (n : ℕ) → (weight f (empty_tables n) ≡ 0) × (length (empty_tables n) ≡ n)
  empty_tables-weight zero = (refl, refl)
  empty_tables-weight (suc n) =
      (omega (arith, (empty_tables-weight n).0), ap suc (empty_tables-weight n).1)

  seed_tables-weight :
      (count : ℕ) (bots : List BotInfo)
      → 0 < count
      → (weight f (seed_tables count bots) ≡ sum_by f bots)
        × (length (seed_tables count bots) ≡ count)
  unfolding seed_tables
  seed_tables-weight count bots h = elim (Bool-cases (count == 1)) [
    | inl e ↦ rw (e, seed_tables) (omega arith, ground (arith, e))
    | inr e ↦
        let empty = empty_tables-weight count in
        let s = snake-weight count 0 true bots (empty_tables count) empty.1 h in
        rw (e, seed_tables) (omega (arith, s.0, empty.0), s.1)
  ]

pub num_tables_pos : (seats n : ℕ) → 0 < seats → 0 < n → 0 < num_tables seats n
num_tables_pos seats n h k = elim (Bool-cases (num_tables seats n == 0)) [
  | inl e ↦
      let none_full : (n + (seats - 1)) / seats ≡ 0 = ground (arith, e) in
      absurd (
        omega (
          arith,
          div-add-mod (n + (seats - 1)) seats,
          mod-lt (n + (seats - 1)) h,
          ap (λ q. seats * q) none_full,
          mul-zero seats,
          h,
          k,
        ))
  | inr e ↦ ground (arith, e)
]

-- When somebody enters, `createInitialTables` makes as many tables as the seats call for, rounded up,
-- and whatever the bots weigh, the tables together weigh as much: with the snake seeding and the
-- exchanges everybody starts at one table.
pub create_initial_tables-weight :
    (f : BotInfo → ℕ) (seats : ℕ) (bots : List BotInfo)
    → 0 < seats
    → 0 < length bots
    → (weight f (create_initial_tables seats bots) ≡ sum_by f bots)
      × (length (create_initial_tables seats bots) ≡ num_tables seats (length bots))
unfolding create_initial_tables
create_initial_tables-weight f seats bots h k =
    let count = num_tables seats (length bots) in
    let seeded =
      seed_tables-weight f count (sort_elo bots) (num_tables_pos seats (length bots) h k) in
    let isolated = isolate_all-Keeps f (up_to count) (seed_tables count (sort_elo bots)) in
    let same_number : length (create_initial_tables seats bots)
        ≡ length (seed_tables count (sort_elo bots)) =
      sym (length-map length (create_initial_tables seats bots))
      ∙ ap length isolated.1
      ∙ length-map length (seed_tables count (sort_elo bots)) in
    (isolated.0 ∙ seeded.0 ∙ sort_elo-sum f bots, same_number ∙ seeded.1)
