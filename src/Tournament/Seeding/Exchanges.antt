-- ===== src/Tournament/Seeding/Exchanges.antt =====
-- The exchanges between tables move nobody away and change no size.
use servers_poker.Prelude.{
  up_to, ℕ, zero, suc, ◌≡◌, ◌≢◌, refl, sym, ap, ◌∙◌, subst, inl, inr, Bool, not, ◌&&◌, Option, none,
  some, List, [], ◌∷◌, ◌++◌, get_elem?, set, map, length, length-set, ◌==◌, if◌then◌else◌, sum_by,
  Bool-cases, Option-cases, arith,
}
use mathlib.Core.Option.{some-injective}
use servers_poker.Deck.Shuffled.{sum_by-set}
use servers_poker.Tournament.State.{BotInfo}
use servers_poker.Tournament.Seeding.{
  has_duplicate_owner, without, conflict_from, try_swap, swap_row, places_at, swap_any, isolate_one,
  isolate_row, isolate_all,
}

get_elem?-set_ne :
    {A : Type 0} (d : List A) (i j : ℕ) (v : A) → i ≢ j → get_elem? (set d i v) j ≡ get_elem? d j
get_elem?-set_ne [] i j v h = refl
get_elem?-set_ne (x ∷ d) zero zero v h = absurd (h refl)
get_elem?-set_ne (x ∷ d) zero (suc j) v h = refl
get_elem?-set_ne (x ∷ d) (suc i) zero v h = refl
get_elem?-set_ne (x ∷ d) (suc i) (suc j) v h = get_elem?-set_ne d i j v (λ e. h (ap suc e))

-- The sizes of the tables.
abbrev pub sizes : List (List BotInfo) → List ℕ
sizes = map length

sizes-set :
    (tables : List (List BotInfo)) (t : ℕ) (row row' : List BotInfo)
    → get_elem? tables t ≡ some row
    → length row' ≡ length row
    → sizes (set tables t row') ≡ sizes tables
sizes-set [] t row row' e h = refl
sizes-set (r ∷ tables) zero row row' e h =
    ap (λ n. n ∷ sizes tables) (h ∙ sym (ap length (some-injective r row e)))
sizes-set (r ∷ tables) (suc t) row row' e h =
    ap (λ l. length r ∷ l) (sizes-set tables t row row' e h)

module _ (f : BotInfo → ℕ) where
  -- What all bots at the tables weigh.
  abbrev pub weight : List (List BotInfo) → ℕ
  weight = sum_by (sum_by f)

  -- An exchange of two bots keeps the weight.
  try_swap-weight :
      (t i t2 j : ℕ) (tables tables' : List (List BotInfo))
      → try_swap t i t2 j tables ≡ some tables'
      → (weight tables' ≡ weight tables) × (sizes tables' ≡ sizes tables)
  unfolding try_swap
  try_swap-weight t i t2 j tables tables' e = elim (Option-cases (get_elem? tables t)) [
    | inl n ↦ absurd (nothing (rw (n, try_swap) at e))
    | inr (row, r) ↦ elim (Option-cases (get_elem? row i)) [
      | inl n ↦ absurd (nothing (rw (r, n, try_swap) at e))
      | inr (b, q) ↦ elim (Option-cases (get_elem? tables t2)) [
        | inl n ↦ absurd (nothing (rw (r, q, n, try_swap) at e))
        | inr (row2, r2) ↦ elim (Option-cases (get_elem? row2 j)) [
          | inl n ↦ absurd (nothing (rw (r, q, r2, n, try_swap) at e))
          | inr (c, q2) ↦
              let fine : Bool =
                not (t2 == t)
                && not (has_duplicate_owner (without i row ++ c ∷ []))
                && not (has_duplicate_owner (without j row2 ++ b ∷ [])) in
              let done = set (set tables t (set row i c)) t2 (set row2 j b) in
              let e' : (if fine then some done else none) ≡ some tables' =
                rw (r, q, r2, q2, try_swap) at e in
              elim (Bool-cases fine) [
                | inl y ↦
                    let apart : t ≢ t2 = ground (arith, y) in
                    let r2' : get_elem? (set tables t (set row i c)) t2 ≡ some row2 =
                      get_elem?-set_ne tables t t2 (set row i c) apart ∙ r2 in
                    let same = some-injective done tables' (rw y at e') in
                    (
                      omega (
                        arith,
                        ap weight same,
                        sum_by-set (sum_by f) tables t row (set row i c) r,
                        sum_by-set (sum_by f) (set tables t (set row i c)) t2 row2 (set row2 j b)
                            r2',
                        sum_by-set f row i b c q,
                        sum_by-set f row2 j c b q2,
                      ),
                      ap sizes (sym same)
                          ∙ sizes-set (set tables t (set row i c)) t2 row2 (set row2 j b) r2'
                              (length-set row2 j b)
                          ∙ sizes-set tables t row (set row i c) r (length-set row i c),
                    )
                | inr n ↦ absurd (nothing (rw n at e'))
              ]
        ]
      ]
    ]
  ]
    where
      nothing : none ≡ some tables' → ⊥
      nothing k = cc

  abbrev Keeps : List (List BotInfo) → List (List BotInfo) → Type 0
  Keeps tables tables' = (weight tables' ≡ weight tables) × (sizes tables' ≡ sizes tables)

  abbrev KeepsIfSome : List (List BotInfo) → Option (List (List BotInfo)) → Type 0
  KeepsIfSome tables none = Unit
  KeepsIfSome tables (some tables') = Keeps tables tables'

  swap_row-Keeps :
      (t i t2 : ℕ) (places : List ℕ) (tables : List (List BotInfo))
      → KeepsIfSome tables (swap_row t i t2 places tables)
  unfolding swap_row
  swap_row-Keeps t i t2 [] tables = tt
  swap_row-Keeps t i t2 (j ∷ places) tables = elim (Option-cases (try_swap t i t2 j tables)) [
    | inl n ↦ rw (n, swap_row) (swap_row-Keeps t i t2 places tables)
    | inr (tables', e) ↦ rw (e, swap_row) (try_swap-weight t i t2 j tables tables' e)
  ]

  swap_any-Keeps :
      (t i : ℕ) (others : List ℕ) (tables : List (List BotInfo))
      → KeepsIfSome tables (swap_any t i others tables)
  unfolding swap_any
  swap_any-Keeps t i [] tables = tt
  swap_any-Keeps t i (t2 ∷ others) tables =
      let places = places_at t2 tables in
      let row = swap_row-Keeps t i t2 places tables in
      elim (Option-cases (swap_row t i t2 places tables)) [
        | inl n ↦ rw (n, swap_any) (swap_any-Keeps t i others tables)
        | inr (tables', e) ↦ rw (e, swap_any) (subst (KeepsIfSome tables) e row)
      ]

  isolate_one-Keeps :
      (t i : ℕ) (tables : List (List BotInfo)) → Keeps tables (isolate_one t i tables)
  unfolding isolate_one
  isolate_one-Keeps t i tables = elim (Option-cases (get_elem? tables t)) [
    | inl n ↦ rw (n, isolate_one) (refl, refl)
    | inr (row, r) ↦ elim (Option-cases (get_elem? row i)) [
      | inl n ↦ rw (r, n, isolate_one) (refl, refl)
      | inr (b, q) ↦ elim (Option-cases (conflict_from i b 0 row)) [
        | inl n ↦ rw (r, q, n, isolate_one) (refl, refl)
        | inr (k, c) ↦
            let swapped = swap_any-Keeps t k (up_to (length tables)) tables in
            elim (Option-cases (swap_any t k (up_to (length tables)) tables)) [
              | inl n ↦ rw (r, q, c, n, isolate_one) (refl, refl)
              | inr (tables', e) ↦
                  rw (r, q, c, e, isolate_one) (subst (KeepsIfSome tables) e swapped)
            ]
      ]
    ]
  ]

  isolate_row-Keeps :
      (t : ℕ) (places : List ℕ) (tables : List (List BotInfo))
      → Keeps tables (isolate_row t places tables)
  unfolding isolate_row
  isolate_row-Keeps t [] tables = (refl, refl)
  isolate_row-Keeps t (i ∷ places) tables =
      let one = isolate_one-Keeps t i tables in
      let rest = isolate_row-Keeps t places (isolate_one t i tables) in
      (rest.0 ∙ one.0, rest.1 ∙ one.1)

  pub isolate_all-Keeps :
      (ts : List ℕ) (tables : List (List BotInfo)) → Keeps tables (isolate_all ts tables)
  unfolding isolate_all
  isolate_all-Keeps [] tables = (refl, refl)
  isolate_all-Keeps (t ∷ ts) tables =
      let places = places_at t tables in
      let row = isolate_row-Keeps t places tables in
      let rest = isolate_all-Keeps ts (isolate_row t places tables) in
      (rest.0 ∙ row.0, rest.1 ∙ row.1)
