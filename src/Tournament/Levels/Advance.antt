-- ===== src/Tournament/Levels/Advance.antt =====
-- The levels advance by the hands that were played.
use servers_poker.Prelude.{
  ℕ, zero, suc, ◌+◌, ◌-◌, ◌*◌, ◌≤◌, ◌<◌, ◌≡◌, ◌≢◌, refl, sym, ◌∙◌, subst, inl, inr, false, some,
  List, [], ◌∷◌, map, length, min, leb, arith, includes, Distinct, sum_by, if◌then◌else◌, All,
  Bool-cases, leb→le,
}
use native.Mathlib.Nat.{suc-mul, mul-add, mul_comm}
use servers_poker.Deck.Shuffled.{get_elem?-some}
use servers_poker.Prelude.Dict.{Dict, lookup, insert, lookup-insert_ne, lookup-insert_self}
use servers_poker.Tournament.Config.{BlindLevel, get_blind_level, blind_levels}
use servers_poker.Tournament.State.{Tournament, TableEntry, table_ids}
use servers_poker.Tournament.Levels.{
  hands_since, count_hands, start_blind_level, with_blinds, level_up, advance_levels, add_hands,
  check_blind_level_advance,
}

-- Every level from 1 on has blinds.
get_blind_level-some : (level : ℕ) → (b : BlindLevel) × (get_blind_level (suc level) ≡ some b)
unfolding get_blind_level
get_blind_level-some level =
    get_elem?-some blind_levels (min level (length blind_levels - 1)) (omega arith)

-- The table has the blinds and the ante of the level.
abbrev pub HasBlinds : ℕ → TableEntry → Type 0
HasBlinds level e =
    (b : BlindLevel) × (get_blind_level level ≡ some b)
    × (e.game.table.small_blind ≡ b.small_blind)
    × (e.game.table.big_blind ≡ b.big_blind)
    × (e.game.table.ante ≡ b.ante)

with_blinds-HasBlinds :
    (level : ℕ) (b : BlindLevel) (tables : List TableEntry)
    → get_blind_level level ≡ some b
    → All (HasBlinds level) (map (with_blinds b) tables)
with_blinds-HasBlinds level b [] e = tt
with_blinds-HasBlinds level b (t ∷ tables) e =
    ((b, e, refl, refl, refl), with_blinds-HasBlinds level b tables e)

-- All hands of the tournament, where levels last `n` hands.
abbrev pub hands_played : ℕ → Tournament → ℕ
hands_played n t = t.current_level * n + t.hands_this_level

level_up-lem :
    (n : ℕ) (t : Tournament)
    → n ≤ t.hands_this_level
    → (t' : Tournament) × (level_up n t ≡ some t')
      × (hands_played n t' ≡ hands_played n t)
      × (t'.hands_this_level + n ≡ t.hands_this_level)
      × (t'.table_hand_numbers ≡ t.table_hand_numbers)
      × All (HasBlinds t'.current_level) t'.tables
unfolding level_up start_blind_level
level_up-lem n t h =
    let (b, e) = get_blind_level-some t.current_level in
    let next : suc t.current_level ≡ t.current_level + 1 = omega arith in
    let e' : get_blind_level (t.current_level + 1) ≡ some b =
      subst (λ l. get_blind_level l ≡ some b) next e in
    (
      record (start_blind_level t (t.current_level + 1)) {
        hands_this_level = t.hands_this_level - n;
        tables = map (with_blinds b) t.tables;
      },
      rw (e', level_up) refl,
      omega (
        arith,
        suc-mul t.current_level n,
        mul-add n t.current_level 1,
        mul_comm n (t.current_level + 1),
        mul_comm n t.current_level,
      ),
      omega arith,
      refl,
      with_blinds-HasBlinds (t.current_level + 1) b t.tables e',
    )

-- What the loop leaves: the same number of hands, fewer than a level in this one, the numbers that
-- were noted, and the blinds of the level at every table.
pub record Advanced (n : ℕ) (t t' : Tournament) : Type 0 where
  pub same_hands : hands_played n t' ≡ hands_played n t
  pub few : t'.hands_this_level < n
  pub numbers : t'.table_hand_numbers ≡ t.table_hand_numbers
  pub blinds : All (HasBlinds t'.current_level) t'.tables

advance_levels-lem :
    (fuel n : ℕ) (t : Tournament)
    → 0 < n
    → t.hands_this_level < fuel
    → All (HasBlinds t.current_level) t.tables
    → (t' : Tournament) × (advance_levels fuel n t ≡ some t') × Advanced n t t'
unfolding advance_levels
advance_levels-lem zero n t p h b = absurd (omega (arith, h))
advance_levels-lem (suc fuel) n t p h b = elim (Bool-cases (leb n t.hands_this_level)) [
  | inl e ↦
      let (t1, up, same, left, noted, blinds) = level_up-lem n t (leb→le n t.hands_this_level e) in
      let (t2, go, a) = advance_levels-lem fuel n t1 p (omega (arith, left, h, p)) blinds in
      (
        t2,
        rw (e, up, advance_levels) go,
        record {
          same_hands = a.same_hands ∙ same;
          few = a.few;
          numbers = a.numbers ∙ noted;
          blinds = a.blinds;
        },
      )
  | inr e ↦ (
    t,
    rw (e, advance_levels) refl,
    record { same_hands = refl; few = ground (arith, e); numbers = refl; blinds = b },
  )
]

-- What a table has completed since its number was noted: the hands above that number, or all of
-- them where its game was recreated and counts from the start.
abbrev pub new_hands : Dict → TableEntry → ℕ
new_hands numbers e =
    let noted = lookup e.id numbers in
    let played = e.game.table.hand_number in if leb noted played then played - noted else played

new_hands-insert :
    (id n : ℕ) (tables : List TableEntry) (numbers : Dict)
    → includes id (table_ids tables) ≡ false
    → sum_by (new_hands (insert id n numbers)) tables ≡ sum_by (new_hands numbers) tables
new_hands-insert id n [] numbers h = refl
new_hands-insert id n (e ∷ tables) numbers h =
    let other : e.id ≢ id = λ q. absurd (ground (arith, h, q)) in
    let rest = new_hands-insert id n tables numbers (ground (arith, h)) in
    rw (lookup-insert_ne e.id id n numbers other, rest) refl

count_hands-new_hands :
    (tables : List TableEntry) (numbers : Dict)
    → Distinct (table_ids tables)
    → (count_hands tables numbers).0 ≡ sum_by (new_hands numbers) tables
unfolding count_hands
count_hands-new_hands [] numbers d = refl
count_hands-new_hands (e ∷ tables) numbers d =
    let played = e.game.table.hand_number in
    let here : hands_since played (lookup e.id numbers) ≡ new_hands numbers e = ground arith in
    omega (
      arith,
      here,
      count_hands-new_hands tables (insert e.id played numbers) d.1,
      new_hands-insert e.id played tables numbers d.0,
    )

count_hands-lookup :
    (id : ℕ) (tables : List TableEntry) (numbers : Dict)
    → includes id (table_ids tables) ≡ false
    → lookup id (count_hands tables numbers).1 ≡ lookup id numbers
unfolding count_hands
count_hands-lookup id [] numbers h = refl
count_hands-lookup id (e ∷ tables) numbers h =
    let played = e.game.table.hand_number in
    let other : id ≢ e.id = λ q. absurd (ground (arith, h, q)) in
    count_hands-lookup id tables (insert e.id played numbers) (ground (arith, h))
    ∙ lookup-insert_ne id e.id played numbers other

-- The number of hands of the table is noted.
abbrev pub IsNoted : Dict → TableEntry → Type 0
IsNoted numbers e = lookup e.id numbers ≡ e.game.table.hand_number

count_hands-IsNoted :
    (tables : List TableEntry) (numbers : Dict)
    → Distinct (table_ids tables)
    → All (IsNoted (count_hands tables numbers).1) tables
unfolding count_hands
count_hands-IsNoted [] numbers d = tt
count_hands-IsNoted (e ∷ tables) numbers d =
    let played = e.game.table.hand_number in
    (
      count_hands-lookup e.id tables (insert e.id played numbers) d.0
          ∙ lookup-insert_self e.id played numbers,
      count_hands-IsNoted tables (insert e.id played numbers) d.1,
    )

-- Where levels last at least one hand, the tables are different and every table has the blinds of
-- the current level, `checkBlindLevelAdvance` returns. It adds, for every table, the hands that it
-- has completed since its number was noted, and notes the number that it has now, from which the
-- next call counts: the levels that are over and the current one hold all hands played before and
-- those. Fewer hands than a level remain in the current one, and every table has the blinds and the
-- ante of the current level.
pub check_blind_level_advance-counts :
    (hands_per_level : ℕ) (t : Tournament)
    → 0 < hands_per_level
    → Distinct (table_ids t.tables)
    → All (HasBlinds t.current_level) t.tables
    → (t' : Tournament) × (check_blind_level_advance hands_per_level t ≡ some t')
      × (hands_played hands_per_level t'
          ≡ hands_played hands_per_level t + sum_by (new_hands t.table_hand_numbers) t.tables)
      × All (IsNoted t'.table_hand_numbers) t.tables
      × (t'.hands_this_level < hands_per_level)
      × All (HasBlinds t'.current_level) t'.tables
unfolding check_blind_level_advance add_hands
check_blind_level_advance-counts n t p d b =
    let counted = add_hands t in
    let (t', e, a) =
      advance_levels-lem (suc counted.hands_this_level) n counted p (omega arith) b in
    (
      t',
      e,
      omega (arith, a.same_hands, count_hands-new_hands t.tables t.table_hand_numbers d),
      subst (λ numbers. All (IsNoted numbers) t.tables) (sym a.numbers)
          (count_hands-IsNoted t.tables t.table_hand_numbers d),
      a.few,
      a.blinds,
    )
