-- ===== src/Tournament/Busts/Places.antt =====
-- The places of the players who are out in the same hand.
use servers_poker.Prelude.{
  ℕ, zero, suc, ◌+◌, ◌≤◌, ◌<◌, ◌≡◌, refl, sym, ap, ◌∙◌, subst, true, false, List, [], ◌∷◌, ◌++◌,
  map, length, ltb, if◌then◌else◌, All, All-append, All-map_of, sum_by-append, length-append, arith,
}
use servers_poker.Prelude.Int.{ℤ}
use servers_poker.Tournament.State.{Tournament}
use servers_poker.Tournament.Busts.{
  Bust, Placed, placed_at, sort_busts, group_size, place_groups, bust_record, bust_player,
  bust_players,
}
use servers_poker.Tournament.Busts.Sorted.{
  how_many, had_more, had_as_many, how_many-all, how_many-none, Descends, split-IsGroup,
  sort_busts-Descends, sort_busts-sum, group_size_pos,
}

-- A bust with the place that its chips give it among all of a hand.
abbrev pub placed_among : List Bust → Bust → Placed
placed_among all b = placed_at (how_many (had_more b) all) (ltb 1 (how_many (had_as_many b) all)) b

map-congr :
    {A B : Type 0} (f g : A → B) (xs : List A) → All (λ x. f x ≡ g x) xs → map f xs ≡ map g xs
map-congr f g [] h = refl
map-congr f g (x ∷ xs) h = cc (h.0, map-congr f g xs h.1)

pub map-append :
    {A B : Type 0} (f : A → B) (xs ys : List A) → map f (xs ++ ys) ≡ map f xs ++ map f ys
map-append f [] ys = refl
map-append f (x ∷ xs) ys = ap (λ l. f x ∷ l) (map-append f xs ys)

pub append_assoc : {A : Type 0} (xs ys zs : List A) → (xs ++ ys) ++ zs ≡ xs ++ (ys ++ zs)
append_assoc [] ys zs = refl
append_assoc (x ∷ xs) ys zs = ap (λ l. x ∷ l) (append_assoc xs ys zs)

-- In front of a group, all had more; behind it, all had fewer.
placed_among-group :
    (chips : ℕ) (front group rest : List Bust) (b : Bust)
    → All (λ f. chips < f.chips_at_start) front
    → All (λ c. c.chips_at_start ≡ chips) group
    → All (λ r. r.chips_at_start < chips) rest
    → b.chips_at_start ≡ chips
    → placed_at (length front) (ltb 1 (length group)) b ≡ placed_among (front ++ (group ++ rest)) b
placed_among-group chips front group rest b f g r e =
    let more = had_more b in
    let equal = had_as_many b in
    let more_all : how_many more (front ++ (group ++ rest)) ≡ length front = omega (
      arith,
      sum_by-append (λ c. if more c then 1 else 0) front (group ++ rest),
      sum_by-append (λ c. if more c then 1 else 0) group rest,
      how_many-all more front
          (All-map_of (λ c. more c ≡ true) front (λ c h. ground (arith, h, e)) f),
      how_many-none more group
          (All-map_of (λ c. more c ≡ false) group (λ c h. ground (arith, h, e)) g),
      how_many-none more rest
          (All-map_of (λ c. more c ≡ false) rest (λ c h. ground (arith, h, e)) r),
    ) in
    let equal_all : how_many equal (front ++ (group ++ rest)) ≡ length group = omega (
      arith,
      sum_by-append (λ c. if equal c then 1 else 0) front (group ++ rest),
      sum_by-append (λ c. if equal c then 1 else 0) group rest,
      how_many-none equal front
          (All-map_of (λ c. equal c ≡ false) front (λ c h. ground (arith, h, e)) f),
      how_many-all equal group
          (All-map_of (λ c. equal c ≡ true) group (λ c h. ground (arith, h, e)) g),
      how_many-none equal rest
          (All-map_of (λ c. equal c ≡ false) rest (λ c h. ground (arith, h, e)) r),
    ) in
    cc (more_all, equal_all)

All-append_right : {A : Type 0} (P : A → Type 0) (xs ys : List A) → All P (xs ++ ys) → All P ys
All-append_right P [] ys h = h
All-append_right P (x ∷ xs) ys h = All-append_right P xs ys h.1

-- Every member of one list has fewer chips than every member of the other.
abbrev AllBelow : List Bust → List Bust → Type 0
AllBelow xs front =
    All (λ (f : Bust). All (λ (x : Bust). x.chips_at_start < f.chips_at_start) xs) front

place_groups-among :
    (fuel : ℕ) (front xs : List Bust)
    → length xs ≤ fuel
    → Descends xs
    → AllBelow xs front
    → place_groups fuel (length front) xs ≡ map (placed_among (front ++ xs)) xs
unfolding place_groups
place_groups-among zero front [] l h f = refl
place_groups-among zero front (b ∷ xs) l h f = absurd (omega (arith, l))
place_groups-among (suc fuel) front [] l h f = refl
place_groups-among (suc fuel) front (b ∷ xs) l h f =
    let chips = b.chips_at_start in
    let size = group_size chips (b ∷ xs) in
    let g = split-IsGroup chips (b ∷ xs) h (omega arith, h.0) in
    let all = placed_among (front ++ b ∷ xs) in
    let above : AllBelow g.rest (front ++ g.group) =
      All-append (λ (c : Bust). All (λ (x : Bust). x.chips_at_start < c.chips_at_start) g.rest)
        front g.group
        (All-map_of (λ (c : Bust). All (λ (x : Bust). x.chips_at_start < c.chips_at_start) g.rest)
          front
          (λ c k.
            All-append_right (λ (x : Bust). x.chips_at_start < c.chips_at_start) g.group g.rest
              (subst (λ k. All (λ (x : Bust). x.chips_at_start < c.chips_at_start) k) (sym g.whole)
                k))
          f)
        (All-map_of (λ (c : Bust). All (λ (x : Bust). x.chips_at_start < c.chips_at_start) g.rest)
          g.group
          (λ c e. subst (λ n. All (λ (x : Bust). x.chips_at_start < n) g.rest) (sym e) g.fewer)
          g.same) in
    let fits : length g.rest ≤ fuel =
      omega
        (arith, ap length g.whole, length-append g.group g.rest, g.size, group_size_pos b xs, l) in
    let rest = place_groups-among fuel (front ++ g.group) g.rest fits g.descends above in
    let here : map (placed_at (length front) (ltb 1 (length g.group))) g.group
        ≡ map (placed_among (front ++ (g.group ++ g.rest))) g.group =
      map-congr _ _ g.group (
        All-map_of _ g.group
          (λ c e.
            placed_among-group chips front g.group g.rest c
              (All-map_of (λ (k : Bust). chips < k.chips_at_start) front (λ k q. q.0) f) g.same
              g.fewer e)
          g.same) in
    let there : place_groups fuel (length front + size) g.rest ≡ map all g.rest =
      ap (λ n. place_groups fuel n g.rest) (omega (arith, length-append front g.group, g.size))
      ∙ rest
      ∙ ap (λ k. map (placed_among k) g.rest)
          (append_assoc front g.group g.rest ∙ ap (λ k. front ++ k) g.whole) in
    cc (g.taken, g.dropped, g.size, here, there, g.whole, map-append all g.group g.rest)

pub append_nil : {A : Type 0} (xs : List A) → xs ++ [] ≡ xs
append_nil [] = refl
append_nil (x ∷ xs) = ap (λ l. x ∷ l) (append_nil xs)

pub bust_players-bust_order :
    (base : ℤ) (t : Tournament) (placed : List Placed)
    → (bust_players base t placed).bust_order ≡ t.bust_order ++ map (bust_record t base) placed
unfolding bust_players bust_player
bust_players-bust_order base t [] = sym (append_nil t.bust_order)
bust_players-bust_order base t (p ∷ placed) =
    bust_players-bust_order base (bust_player base t p) placed
    ∙ append_assoc t.bust_order (bust_record t base p ∷ []) (map (bust_record t base) placed)

sort_busts-placed_among :
    (busts : List Bust) (xs : List Bust)
    → map (placed_among (sort_busts busts)) xs ≡ map (placed_among busts) xs
sort_busts-placed_among busts [] = refl
sort_busts-placed_among busts (b ∷ xs) = cc (
  sort_busts-sum (λ c. if had_more b c then 1 else 0) busts,
  sort_busts-sum (λ c. if had_as_many b c then 1 else 0) busts,
  sort_busts-placed_among busts xs,
)

-- The groups are placed by what the chips of all the busts say.
pub sort_busts-place_groups :
    (busts : List Bust)
    → place_groups (length (sort_busts busts)) 0 (sort_busts busts)
      ≡ map (placed_among busts) (sort_busts busts)
sort_busts-place_groups busts =
    place_groups-among (length (sort_busts busts)) [] (sort_busts busts) (omega arith)
      (sort_busts-Descends busts) tt
    ∙ sort_busts-placed_among busts (sort_busts busts)
