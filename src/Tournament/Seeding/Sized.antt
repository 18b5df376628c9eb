-- ===== src/Tournament/Seeding/Sized.antt =====
-- No table starts with more players than it has seats.
use servers_poker.Prelude.{
  up_to, ℕ, zero, suc, ◌+◌, ◌-◌, ◌*◌, ◌≤◌, ◌<◌, ◌≡◌, refl, sym, ap, ◌∙◌, subst, inl, inr, Bool,
  true, false, List, [], ◌∷◌, length, length-append, ltb, leb, ◌==◌, if◌then◌else◌, sum_by, All,
  Bool-cases, arith,
}
use native.Mathlib.Nat.{div-add-mod, mod-lt, mul-le-mul_left, mul-add, mul-zero, mul_comm}
use servers_poker.Tournament.State.{BotInfo}
use servers_poker.Tournament.Seeding.{
  num_tables, sort_elo, push_at, turn, snake, empty_tables, seed_tables, create_initial_tables,
}
use servers_poker.Tournament.Seeding.Exchanges.{sizes, isolate_all-Keeps}
use servers_poker.Tournament.Seeding.Everybody.{
  num_tables_pos, push_at-length, turn-lt, sort_elo-sum,
}

-- The table at place `j` has `g j` bots, from a place on.
abbrev HasSizes : (ℕ → ℕ) → ℕ → List (List BotInfo) → Type 0
HasSizes g j [] = Unit
HasSizes g j (row ∷ tables) = (length row ≡ g j) × HasSizes g (suc j) tables

-- In a turn of the snake, each table has `m` bots, and those that it has passed one more.
abbrev size_at : ℕ → ℕ → Bool → ℕ → ℕ
size_at m idx true j = if ltb j idx then suc m else m
size_at m idx false j = if ltb idx j then suc m else m

HasSizes-congr :
    (g h : ℕ → ℕ) (j count : ℕ) (tables : List (List BotInfo))
    → j + length tables ≡ count
    → ((k : ℕ) → k < count → g k ≡ h k)
    → HasSizes g j tables
    → HasSizes h j tables
HasSizes-congr g h j count [] l e s = tt
HasSizes-congr g h j count (row ∷ tables) l e s =
    (s.0 ∙ e j (omega (arith, l)), HasSizes-congr g h (suc j) count tables (omega (arith, l)) e s.1)

push_at-HasSizes :
    (g : ℕ → ℕ) (idx j k : ℕ) (b : BotInfo) (tables : List (List BotInfo))
    → j + k ≡ idx
    → HasSizes g j tables
    → HasSizes (λ i. if i == idx then suc (g i) else g i) j (push_at k b tables)
unfolding push_at
push_at-HasSizes g idx j k b [] e s = tt
push_at-HasSizes g idx j zero b (row ∷ tables) e s = (
  ground (arith, length-append row (b ∷ []), s.0, e),
  above (suc j) tables (omega (arith, e)) s.1,
)
  where
    above :
        (i : ℕ) (rows : List (List BotInfo))
        → idx < i
        → HasSizes g i rows
        → HasSizes (λ n. if n == idx then suc (g n) else g n) i rows
    above i [] l h = tt
    above i (r ∷ rows) l h = (ground (arith, l, h.0), above (suc i) rows (omega (arith, l)) h.1)
push_at-HasSizes g idx j (suc k) b (row ∷ tables) e s =
    (ground (arith, s.0, e), push_at-HasSizes g idx (suc j) k b tables (omega (arith, e)) s.1)

-- The round and the place in it, after one more bot.
abbrev next_round : ℕ → ℕ → ℕ → Bool → ℕ
next_round m count idx true = if leb count (idx + 1) then suc m else m
next_round m count zero false = suc m
next_round m count (suc idx) false = m

-- How many bots have been seated in this turn.
abbrev in_turn : ℕ → ℕ → Bool → ℕ
in_turn count idx true = idx
in_turn count idx false = count - 1 - idx

next-size_at :
    (m count idx j : ℕ) (up : Bool)
    → idx < count
    → j < count
    → (if j == idx then suc (size_at m idx up j) else size_at m idx up j)
      ≡ size_at (next_round m count idx up) (turn count idx up).0 (turn count idx up).1 j
next-size_at m count idx j true h l = elim (Bool-cases (leb count (idx + 1))) [
  | inl e ↦ rw e (ground (arith, e, h, l))
  | inr e ↦ rw e (ground (arith, e, h, l))
]
next-size_at m count zero j false h l = ground (arith, h, l)
next-size_at m count (suc idx) j false h l = ground (arith, h, l)

next-in_turn :
    (m count idx : ℕ) (up : Bool)
    → idx < count
    → count * next_round m count idx up + in_turn count (turn count idx up).0 (turn count idx up).1
      ≡ count * m + suc (in_turn count idx up)
next-in_turn m count idx true h = elim (Bool-cases (leb count (idx + 1))) [
  | inl e ↦ rw e (ground (arith, e, h, mul-add count m 1))
  | inr e ↦ rw e (ground (arith, e, h))
]
next-in_turn m count zero false h = omega (arith, h, mul-add count m 1)
next-in_turn m count (suc idx) false h = omega (arith, h)

snake-HasSizes :
    (count m idx : ℕ) (up : Bool) (bots : List BotInfo) (tables : List (List BotInfo))
    → length tables ≡ count
    → idx < count
    → HasSizes (size_at m idx up) 0 tables
    → (m' : ℕ) × (idx' : ℕ) × (up' : Bool) × (idx' < count)
      × HasSizes (size_at m' idx' up') 0 (snake count idx up bots tables)
      × (count * m' + in_turn count idx' up' ≡ count * m + in_turn count idx up + length bots)
      × (length (snake count idx up bots tables) ≡ count)
unfolding snake
snake-HasSizes count m idx up [] tables l h s = (m, idx, up, h, s, omega arith, l)
snake-HasSizes count m idx up (b ∷ bots) tables l h s =
    let next = turn count idx up in
    let m1 = next_round m count idx up in
    let l1 : length (push_at idx b tables) ≡ count = push_at-length (λ c. 0) idx b tables ∙ l in
    let s1 =
      HasSizes-congr _ (size_at m1 next.0 next.1) 0 count (push_at idx b tables) (omega (arith, l1))
        (λ j k. next-size_at m count idx j up h k)
        (push_at-HasSizes (size_at m idx up) idx 0 idx b tables (omega arith) s) in
    let (m', idx', up', h', s', e', l') =
      snake-HasSizes count m1 next.0 next.1 bots (push_at idx b tables) l1
        (turn-lt (λ c. 0) count idx up h) s1 in
    (m', idx', up', h', s', omega (arith, e', next-in_turn m count idx up h), l')

empty_tables-HasSizes : (n j : ℕ) → HasSizes (size_at 0 0 true) j (empty_tables n)
empty_tables-HasSizes zero j = tt
empty_tables-HasSizes (suc n) j = (ground arith, empty_tables-HasSizes n (suc j))

empty_tables-length : (n : ℕ) → length (empty_tables n) ≡ n
empty_tables-length zero = refl
empty_tables-length (suc n) = ap suc (empty_tables-length n)

-- A product that is smaller has a smaller factor.
factor-lt : (count m seats : ℕ) → count * m < count * seats → m < seats
factor-lt count m seats h = elim (Bool-cases (ltb m seats)) [
  | inl e ↦ ground (arith, e)
  | inr e ↦
      let k : count * seats ≤ count * m = mul-le-mul_left count (ground (arith, e)) in
      absurd (omega (arith, h, k))
]

factor-le : (count m seats : ℕ) → 0 < count → count * m ≤ count * seats → m ≤ seats
factor-le count m seats p h =
    let k = factor-lt count m (suc seats) (omega (arith, p, h, mul-add count seats 1)) in
    omega (arith, k)

size_at-le :
    (count m idx seats j : ℕ) (up : Bool)
    → idx < count
    → j < count
    → count * m + in_turn count idx up ≤ count * seats
    → size_at m idx up j ≤ seats
size_at-le count m idx seats j true h l e = elim (Bool-cases (ltb j idx)) [
  | inl q ↦ rw q (factor-lt count m seats (ground (arith, q, e)))
  | inr q ↦ rw q (factor-le count m seats (omega (arith, h)) (omega (arith, e)))
]
size_at-le count m idx seats j false h l e = elim (Bool-cases (ltb idx j)) [
  | inl q ↦ rw q (factor-lt count m seats (ground (arith, q, e, l)))
  | inr q ↦ rw q (factor-le count m seats (omega (arith, h)) (omega (arith, e)))
]

HasSizes-All :
    (g : ℕ → ℕ) (j count seats : ℕ) (tables : List (List BotInfo))
    → j + length tables ≡ count
    → ((k : ℕ) → k < count → g k ≤ seats)
    → HasSizes g j tables
    → All (λ n. n ≤ seats) (sizes tables)
HasSizes-All g j count seats [] l h s = tt
HasSizes-All g j count seats (row ∷ tables) l h s = (
  omega (arith, s.0, h j (omega (arith, l))),
  HasSizes-All g (suc j) count seats tables (omega (arith, l)) h s.1,
)

seed_tables-sizes :
    (count seats : ℕ) (bots : List BotInfo)
    → 0 < count
    → length bots ≤ count * seats
    → All (λ n. n ≤ seats) (sizes (seed_tables count bots))
unfolding seed_tables
seed_tables-sizes count seats bots p h = elim (Bool-cases (count == 1)) [
  | inl e ↦
      let one : count ≡ 1 = ground (arith, e) in
      let fits : length bots ≤ seats = omega (arith, h, ap (λ n. n * seats) one) in
      rw (e, seed_tables) (fits, tt)
  | inr e ↦
      let (m, idx, up, l, s, total, number) =
        snake-HasSizes count 0 0 true bots (empty_tables count) (empty_tables-length count) p
          (empty_tables-HasSizes count 0) in
      rw (e, seed_tables)
        (HasSizes-All (size_at m idx up) 0 count seats
          (snake count 0 true bots (empty_tables count)) (omega (arith, number))
          (λ j k. size_at-le count m idx seats j up l k (omega (arith, total, h, mul-zero count)))
          s)
]

length-sum : (bots : List BotInfo) → length bots ≡ sum_by (λ b. 1) bots
length-sum [] = refl
length-sum (b ∷ bots) = omega (arith, length-sum bots)

sort_elo-length : (bots : List BotInfo) → length (sort_elo bots) ≡ length bots
sort_elo-length bots =
    length-sum (sort_elo bots) ∙ sort_elo-sum (λ b. 1) bots ∙ sym (length-sum bots)

-- The tables have a seat for everybody.
num_tables-enough : (seats n : ℕ) → 0 < seats → n ≤ num_tables seats n * seats
num_tables-enough seats n h = omega (
  arith,
  div-add-mod (n + (seats - 1)) seats,
  mod-lt (n + (seats - 1)) h,
  mul_comm seats (num_tables seats n),
  h,
)

-- When somebody enters, no table of `createInitialTables` has more players than it has seats.
pub create_initial_tables-sizes :
    (seats : ℕ) (bots : List BotInfo)
    → 0 < seats
    → 0 < length bots
    → All (λ n. n ≤ seats) (sizes (create_initial_tables seats bots))
unfolding create_initial_tables
create_initial_tables-sizes seats bots h k =
    let count = num_tables seats (length bots) in
    let seeded =
      seed_tables-sizes count seats (sort_elo bots) (num_tables_pos seats (length bots) h k)
        (omega (arith, num_tables-enough seats (length bots) h, sort_elo-length bots)) in
    let isolated = isolate_all-Keeps (λ b. 0) (up_to count) (seed_tables count (sort_elo bots)) in
    subst (λ l. All (λ n. n ≤ seats) l) (sym isolated.1) seeded
