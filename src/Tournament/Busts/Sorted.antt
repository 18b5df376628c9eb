-- ===== src/Tournament/Busts/Sorted.antt =====
-- The players who are out in the same hand, sorted by the chips that they had.
use servers_poker.Prelude.{
  ℕ, suc, ◌+◌, ◌≤◌, ◌<◌, ◌≡◌, refl, ap, ◌∙◌, inl, inr, Bool, true, false, List, [], ◌∷◌, ◌++◌, map,
  length, take, drop, ltb, leb, ◌==◌, if◌then◌else◌, All, All-map_of, sum_by, Bool-cases, if_cases,
  includes, Distinct, ◌||◌, arith,
}
use servers_poker.Tournament.Busts.{Bust, insert_bust, sort_busts, group_size}

-- How many satisfy a test.
abbrev pub how_many : (Bust → Bool) → List Bust → ℕ
how_many p = sum_by (λ b. if p b then 1 else 0)

-- Had more chips, and as many chips, as a player.
abbrev pub had_more : Bust → Bust → Bool
had_more b c = ltb b.chips_at_start c.chips_at_start

abbrev pub had_as_many : Bust → Bust → Bool
had_as_many b c = c.chips_at_start == b.chips_at_start

pub how_many-all :
    (p : Bust → Bool) (xs : List Bust) → All (λ x. p x ≡ true) xs → how_many p xs ≡ length xs
how_many-all p [] h = refl
how_many-all p (x ∷ xs) h = ground (arith, h.0, how_many-all p xs h.1)

pub how_many-none :
    (p : Bust → Bool) (xs : List Bust) → All (λ x. p x ≡ false) xs → how_many p xs ≡ 0
how_many-none p [] h = refl
how_many-none p (x ∷ xs) h = ground (arith, h.0, how_many-none p xs h.1)

-- The most chips first.
abbrev pub Descends : List Bust → Type 0
Descends [] = Unit
Descends (x ∷ xs) = All (λ y. y.chips_at_start ≤ x.chips_at_start) xs × Descends xs

insert_bust-All :
    (P : Bust → Type 0) (b : Bust) (xs : List Bust) → P b → All P xs → All P (insert_bust b xs)
unfolding insert_bust
insert_bust-All P b [] h k = (h, tt)
insert_bust-All P b (x ∷ xs) h k =
    if_cases (λ l. All P l) (leb x.chips_at_start b.chips_at_start) _ _ (h, k)
      (k.0, insert_bust-All P b xs h k.1)

insert_bust-Descends : (b : Bust) (xs : List Bust) → Descends xs → Descends (insert_bust b xs)
unfolding insert_bust
insert_bust-Descends b [] h = (tt, tt)
insert_bust-Descends b (x ∷ xs) h = elim (Bool-cases (leb x.chips_at_start b.chips_at_start)) [
  | inl e ↦
      let less : x.chips_at_start ≤ b.chips_at_start = ground (arith, e) in
      rw (e, insert_bust)
        (
          (
            less,
            All-map_of (λ y. y.chips_at_start ≤ b.chips_at_start) xs (λ y l. omega (arith, less, l))
                h.0,
          ),
          h,
        )
  | inr e ↦
      rw (e, insert_bust)
        (
          insert_bust-All (λ y. y.chips_at_start ≤ x.chips_at_start) b xs (ground (arith, e)) h.0,
          insert_bust-Descends b xs h.1,
        )
]

pub sort_busts-Descends : (xs : List Bust) → Descends (sort_busts xs)
unfolding sort_busts
sort_busts-Descends [] = tt
sort_busts-Descends (x ∷ xs) = insert_bust-Descends x (sort_busts xs) (sort_busts-Descends xs)

insert_bust-sum :
    (f : Bust → ℕ) (b : Bust) (xs : List Bust) → sum_by f (insert_bust b xs) ≡ f b + sum_by f xs
unfolding insert_bust
insert_bust-sum f b [] = refl
insert_bust-sum f b (x ∷ xs) =
    if_cases (λ l. sum_by f l ≡ f b + (f x + sum_by f xs)) (leb x.chips_at_start b.chips_at_start) _
      _ refl (omega (arith, insert_bust-sum f b xs))

-- The sort keeps every sum.
pub sort_busts-sum : (f : Bust → ℕ) (xs : List Bust) → sum_by f (sort_busts xs) ≡ sum_by f xs
unfolding sort_busts
sort_busts-sum f [] = refl
sort_busts-sum f (x ∷ xs) =
    insert_bust-sum f x (sort_busts xs) ∙ ap (λ n. f x + n) (sort_busts-sum f xs)

-- A descending list is the group with the given chips, and the rest, which has fewer.
pub record IsGroup (chips : ℕ) (xs : List Bust) : Type 0 where
  pub group : List Bust
  pub rest : List Bust
  pub taken : take (group_size chips xs) xs ≡ group
  pub dropped : drop (group_size chips xs) xs ≡ rest
  pub whole : group ++ rest ≡ xs
  pub size : length group ≡ group_size chips xs
  pub same : All (λ x. x.chips_at_start ≡ chips) group
  pub fewer : All (λ x. x.chips_at_start < chips) rest
  pub descends : Descends rest

pub split-IsGroup :
    (chips : ℕ) (xs : List Bust)
    → Descends xs
    → All (λ x. x.chips_at_start ≤ chips) xs
    → IsGroup chips xs
unfolding group_size
split-IsGroup chips [] h l = record {
  group = [];
  rest = [];
  taken = refl;
  dropped = refl;
  whole = refl;
  size = refl;
  same = tt;
  fewer = tt;
  descends = tt;
}
split-IsGroup chips (x ∷ xs) h l = elim (Bool-cases (x.chips_at_start == chips)) [
  | inl e ↦
      let g = split-IsGroup chips xs h.1 l.1 in
      record {
        group = x ∷ g.group;
        rest = g.rest;
        taken = rw (e, group_size) (ap (λ k. x ∷ k) g.taken);
        dropped = rw (e, group_size) g.dropped;
        whole = ap (λ k. x ∷ k) g.whole;
        size = rw (e, group_size) (ap suc g.size);
        same = (ground (arith, e), g.same);
        fewer = g.fewer;
        descends = g.descends;
      }
  | inr e ↦
      let below : x.chips_at_start < chips = ground (arith, e, l.0) in
      record {
        group = [];
        rest = x ∷ xs;
        taken = rw (e, group_size) refl;
        dropped = rw (e, group_size) refl;
        whole = refl;
        size = rw (e, group_size) refl;
        same = tt;
        fewer = (
          below,
          All-map_of (λ y. y.chips_at_start < chips) xs (λ y k. omega (arith, k, below)) h.0,
        );
        descends = h;
      }
]

-- A group holds its first player.
pub group_size_pos : (b : Bust) (xs : List Bust) → 0 < group_size b.chips_at_start (b ∷ xs)
unfolding group_size
group_size_pos b xs = ground arith

pub sort_busts-All : (P : Bust → Type 0) (xs : List Bust) → All P xs → All P (sort_busts xs)
unfolding sort_busts
sort_busts-All P [] h = tt
sort_busts-All P (x ∷ xs) h = insert_bust-All P x (sort_busts xs) h.0 (sort_busts-All P xs h.1)

-- The bots of busts.
abbrev pub bust_ids : List Bust → List ℕ
bust_ids = map (λ (b : Bust). b.bot_id)

insert_bust-includes :
    (id : ℕ) (b : Bust) (xs : List Bust)
    → includes id (bust_ids (insert_bust b xs)) ≡ (id == b.bot_id || includes id (bust_ids xs))
unfolding insert_bust
insert_bust-includes id b [] = refl
insert_bust-includes id b (x ∷ xs) = ground (arith, insert_bust-includes id b xs)

insert_bust-Distinct :
    (b : Bust) (xs : List Bust)
    → includes b.bot_id (bust_ids xs) ≡ false
    → Distinct (bust_ids xs)
    → Distinct (bust_ids (insert_bust b xs))
unfolding insert_bust
insert_bust-Distinct b [] e h = (refl, tt)
insert_bust-Distinct b (x ∷ xs) e h =
    if_cases (λ l. Distinct (bust_ids l)) (leb x.chips_at_start b.chips_at_start) _ _ (e, h)
      (
        insert_bust-includes x.bot_id b xs ∙ ground (arith, e, h.0),
        insert_bust-Distinct b xs (ground (arith, e)) h.1,
      )

pub sort_busts-includes :
    (id : ℕ) (xs : List Bust) → includes id (bust_ids (sort_busts xs)) ≡ includes id (bust_ids xs)
unfolding sort_busts
sort_busts-includes id [] = refl
sort_busts-includes id (x ∷ xs) =
    insert_bust-includes id x (sort_busts xs)
    ∙ ap (λ b. id == x.bot_id || b) (sort_busts-includes id xs)

pub sort_busts-Distinct :
    (xs : List Bust) → Distinct (bust_ids xs) → Distinct (bust_ids (sort_busts xs))
unfolding sort_busts
sort_busts-Distinct [] h = tt
sort_busts-Distinct (x ∷ xs) h =
    insert_bust-Distinct x (sort_busts xs) (sort_busts-includes x.bot_id xs ∙ h.0)
      (sort_busts-Distinct xs h.1)

insert_bust-length : (b : Bust) (xs : List Bust) → length (insert_bust b xs) ≡ suc (length xs)
unfolding insert_bust
insert_bust-length b [] = refl
insert_bust-length b (x ∷ xs) = ground (arith, insert_bust-length b xs)

pub sort_busts-length : (xs : List Bust) → length (sort_busts xs) ≡ length xs
unfolding sort_busts
sort_busts-length [] = refl
sort_busts-length (x ∷ xs) = insert_bust-length x (sort_busts xs) ∙ ap suc (sort_busts-length xs)
