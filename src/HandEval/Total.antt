-- ===== src/HandEval/Total.antt =====
-- There are five-card combinations of five cards or more, and each has a value.
use servers_poker.Prelude.{
  ℕ, zero, suc, ◌≤◌, ◌≡◌, refl, ap, inl, inr, Bool, true, false, Option, none, some, List, [], ◌∷◌,
  ◌++◌, map, arith, All, All-append, length, is_empty, ltb, Bool-cases, every, ◌==◌,
}
use mathlib.Core.List.{reverse, reverse-cons}
use servers_poker.HandEval.{
  Card, HandResult, Group, evaluate_five_cards, get_combinations, insert_desc, sort_desc,
  unique_from, insert_group, sort_groups, groups_of, rank_groups, straight_high, pick_hand,
}

-- Every combination has `k` members.
pub get_combinations-length {ℓ} :
    {A : Type ℓ} (xs : List A) (k : ℕ) → All (λ c. length c ≡ k) (get_combinations xs k)
unfolding get_combinations
get_combinations-length [] zero = (refl, tt)
get_combinations-length (x ∷ xs) zero = (refl, tt)
get_combinations-length [] (suc k) = tt
get_combinations-length {A = A} (x ∷ xs) (suc k) =
    elim (Bool-cases (ltb (suc (length xs)) (suc k))) [
      | inl few ↦ rw few tt
      | inr enough ↦ rw enough (
          All-append (λ c. length c ≡ suc k) _ _
            (with_first x (get_combinations xs k) (get_combinations-length xs k))
            (get_combinations-length xs (suc k)))
    ]
  where
    with_first :
        (x : A) (cs : List (List A))
        → All (λ c. length c ≡ k) cs
        → All (λ c. length c ≡ suc k) (map (λ c. x ∷ c) cs)
    with_first x [] h = tt
    with_first x (c ∷ cs) h = (ap suc h.0, with_first x cs h.1)

-- There is one if there are `k` to choose from.
pub get_combinations_some {ℓ} :
    {A : Type ℓ} (xs : List A) (k : ℕ) → k ≤ length xs → is_empty (get_combinations xs k) ≡ false
unfolding get_combinations
get_combinations_some [] zero h = refl
get_combinations_some (x ∷ xs) zero h = refl
get_combinations_some [] (suc k) h = absurd (omega arith)
get_combinations_some {A = A} (x ∷ xs) (suc k) h =
    let enough : ltb (suc (length xs)) (suc k) ≡ false = ground arith in
    rw enough (
      first (get_combinations xs k) (get_combinations xs (suc k))
        (get_combinations_some xs k (omega arith)))
  where
    first :
        (cs ds : List (List A)) → is_empty cs ≡ false → is_empty (map (λ c. x ∷ c) cs ++ ds) ≡ false
    first [] ds h = cc
    first (c ∷ cs) ds h = refl

insert_desc-is_empty : (x : ℕ) (xs : List ℕ) → is_empty (insert_desc x xs) ≡ false
unfolding insert_desc
insert_desc-is_empty x [] = refl
insert_desc-is_empty x (y ∷ ys) = ground arith

insert_group-is_empty : (g : Group) (gs : List Group) → is_empty (insert_group g gs) ≡ false
unfolding insert_group
insert_group-is_empty g [] = refl
insert_group-is_empty g (h ∷ gs) = ground arith

sort_desc-is_empty : (xs : List ℕ) → is_empty xs ≡ false → is_empty (sort_desc xs) ≡ false
unfolding sort_desc
sort_desc-is_empty [] h = h
sort_desc-is_empty (x ∷ xs) h = insert_desc-is_empty x (sort_desc xs)

sort_groups-is_empty : (gs : List Group) → is_empty gs ≡ false → is_empty (sort_groups gs) ≡ false
unfolding sort_groups
sort_groups-is_empty [] h = h
sort_groups-is_empty (g ∷ gs) h = insert_group-is_empty g (sort_groups gs)

unique_from-is_empty : (xs : List ℕ) → is_empty xs ≡ false → is_empty (unique_from [] xs) ≡ false
unfolding unique_from
unique_from-is_empty [] h = h
unique_from-is_empty (x ∷ xs) h = refl

map-is_empty :
    (f : ℕ → Group) (xs : List ℕ) → is_empty xs ≡ false → is_empty (map f (reverse xs)) ≡ false
map-is_empty f [] h = cc
map-is_empty f (x ∷ xs) h = rw (reverse-cons x xs) (last (reverse xs))
  where
    last : (ys : List ℕ) → is_empty (map f (ys ++ x ∷ [])) ≡ false
    last [] = refl
    last (y ∷ ys) = refl

groups_of-is_empty : (xs : List ℕ) → is_empty xs ≡ false → is_empty (groups_of xs) ≡ false
unfolding groups_of
groups_of-is_empty xs h =
    sort_groups-is_empty _ (map-is_empty _ _ (sort_desc-is_empty _ (unique_from-is_empty xs h)))

rank_groups_total :
    (values : List ℕ) (is_flush : Bool) (straight_to : Option ℕ) (gs : List Group)
    → is_empty gs ≡ false
    → (r : HandResult) × (rank_groups values is_flush straight_to gs ≡ some r)
unfolding rank_groups
rank_groups_total values is_flush straight_to [] h = absurd (ground arith)
rank_groups_total values is_flush straight_to (g ∷ gs) h = (_, refl)

pick_hand_total :
    (is_flush : Bool) (straight_to : Option ℕ) (others : Option HandResult) (r : HandResult)
    → others ≡ some r
    → (s : HandResult) × (pick_hand is_flush straight_to others ≡ some s)
unfolding pick_hand
pick_hand_total false straight_to others r h = (r, h)
pick_hand_total true none others r h = (r, h)
pick_hand_total true (some high) others r h = (_, refl)

-- Cards always have a value.
pub evaluate_total :
    (cards : List Card)
    → is_empty cards ≡ false
    → (r : HandResult) × (evaluate_five_cards cards ≡ some r)
unfolding evaluate_five_cards
evaluate_total [] h = absurd (ground arith)
evaluate_total (c ∷ cards) h =
    let values = sort_desc (map (λ (d : Card). d.value) (c ∷ cards)) in
    let is_flush = every (λ (d : Card). d.suit == c.suit) (c ∷ cards) in
    let straight_to = straight_high (sort_desc (unique_from [] values)) in
    let (r, e) = rank_groups_total values is_flush straight_to (groups_of values) (
      groups_of-is_empty values
        (sort_desc-is_empty (map (λ (d : Card). d.value) (c ∷ cards)) refl)) in
    pick_hand_total is_flush straight_to _ r e
