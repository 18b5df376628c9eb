-- ===== src/Prelude/Lists.antt =====
-- Lists measured and indexed by native numbers, filtered by Boolean tests, and a predicate on
-- all members.
use Prim.Native.Nat.{ℕ, zero, suc, ◌+◌}
use mathlib.Core.Path.{◌≡◌, refl, sym, ap, subst, ◌∙◌}
use mathlib.Core.Logic.{◌⊎◌, inl, inr}
use mathlib.Core.Bool.{Bool, true, false, ◌&&◌, ◌||◌}
use mathlib.Core.List.{List, [], ◌∷◌, ◌++◌, map}
use mathlib.Core.Option.{Option, none, some}
use native.Mathlib.Omega.{arith}
use servers_poker.Prelude.Tests.{if◌then◌else◌, ◌==◌, Bool-cases}

module _ {ℓ} {A : Type ℓ} where
  abbrev pub length : List A → ℕ
  length [] = 0
  length (x ∷ xs) = suc (length xs)

  abbrev pub get_elem? : List A → ℕ → Option A
  get_elem? [] i = none
  get_elem? (x ∷ xs) zero = some x
  get_elem? (x ∷ xs) (suc i) = get_elem? xs i

  -- A write out of bounds changes nothing.
  abbrev pub set : List A → ℕ → A → List A
  set [] i v = []
  set (x ∷ xs) zero v = v ∷ xs
  set (x ∷ xs) (suc i) v = x ∷ set xs i v

  abbrev pub take : ℕ → List A → List A
  take zero xs = []
  take (suc n) [] = []
  take (suc n) (x ∷ xs) = x ∷ take n xs

  abbrev pub drop : ℕ → List A → List A
  drop zero xs = xs
  drop (suc n) [] = []
  drop (suc n) (x ∷ xs) = drop n xs

  -- `Array.prototype.filter`
  abbrev pub filter : (A → Bool) → List A → List A
  filter p [] = []
  filter p (x ∷ xs) = if p x then x ∷ filter p xs else filter p xs

  -- `Array.prototype.find`
  abbrev pub find : (A → Bool) → List A → Option A
  find p [] = none
  find p (x ∷ xs) = if p x then some x else find p xs

  -- `Array.prototype.every`
  abbrev pub every : (A → Bool) → List A → Bool
  every p [] = true
  every p (x ∷ xs) = p x && every p xs

  -- `Array.prototype.some`
  abbrev pub any : (A → Bool) → List A → Bool
  any p [] = false
  any p (x ∷ xs) = p x || any p xs

  abbrev pub is_empty : List A → Bool
  is_empty [] = true
  is_empty (x ∷ xs) = false

  pub length-append : (xs ys : List A) → length (xs ++ ys) ≡ length xs + length ys
  length-append [] ys = omega arith
  length-append (x ∷ xs) ys = omega (arith, length-append xs ys)

  pub length-set : (xs : List A) (i : ℕ) (v : A) → length (set xs i v) ≡ length xs
  length-set [] i v = refl
  length-set (x ∷ xs) zero v = refl
  length-set (x ∷ xs) (suc i) v = ap suc (length-set xs i v)

module _ {ℓ κ} {A : Type ℓ} where
  abbrev pub All : (A → Type κ) → List A → Type κ
  All P [] = Unit
  All P (x ∷ xs) = P x × All P xs

  pub All-filter : (P : A → Type κ) (p : A → Bool) (xs : List A) → All P xs → All P (filter p xs)
  All-filter P p [] h = tt
  All-filter P p (x ∷ xs) h = ground (arith, All-filter P p xs h.1)

  pub All-append : (P : A → Type κ) (xs ys : List A) → All P xs → All P ys → All P (xs ++ ys)
  All-append P [] ys h k = k
  All-append P (x ∷ xs) ys h k = (h.0, All-append P xs ys h.1 k)

  pub All-map_of :
      {Q : A → Type κ} (P : A → Type κ) (xs : List A) → ((x : A) → Q x → P x) → All Q xs → All P xs
  All-map_of P [] f h = tt
  All-map_of P (x ∷ xs) f h = (f x h.0, All-map_of P xs f h.1)

pub length-map {ℓ κ} :
    {A : Type ℓ} {B : Type κ} (f : A → B) (xs : List A) → length (map f xs) ≡ length xs
length-map f [] = refl
length-map f (x ∷ xs) = ap suc (length-map f xs)

-- `Array.prototype.includes` and `Set.prototype.has`, on numbers.
abbrev pub includes : ℕ → List ℕ → Bool
includes a [] = false
includes a (x ∷ xs) = a == x || includes a xs

-- `Array.from({ length: n }, (_, i) => i)`
abbrev pub range_from : ℕ → ℕ → List ℕ
range_from i zero = []
range_from i (suc n) = i ∷ range_from (suc i) n

abbrev pub up_to : ℕ → List ℕ
up_to n = range_from 0 n

-- No number stands twice.
abbrev pub Distinct : List ℕ → Type 0
Distinct [] = Unit
Distinct (x ∷ xs) = (includes x xs ≡ false) × Distinct xs

module _ {ℓ κ} {A : Type ℓ} {P Q : A → Type κ} where
  pub All-zip :
      (R : A → Type κ) (xs : List A) → ((x : A) → P x → Q x → R x) → All P xs → All Q xs → All R xs
  All-zip R [] f h k = tt
  All-zip R (x ∷ xs) f h k = (f x h.0 k.0, All-zip R xs f h.1 k.1)

module _ {A : Type 0} where
  -- `x` stands in the list.
  abbrev pub Member : A → List A → Type 0
  Member x [] = ⊥
  Member x (y ∷ ys) = (x ≡ y) ⊎ Member x ys

  pub All-Member : (P : A → Type 0) (x : A) (xs : List A) → All P xs → Member x xs → P x
  All-Member P x [] h m = absurd m
  All-Member P x (y ∷ xs) h (inl e) = subst P (sym e) h.0
  All-Member P x (y ∷ xs) h (inr m) = All-Member P x xs h.1 m

  pub All-of_Member : (P : A → Type 0) (xs : List A) → ((x : A) → Member x xs → P x) → All P xs
  All-of_Member P [] f = tt
  All-of_Member P (x ∷ xs) f = (f x (inl refl), All-of_Member P xs (λ y m. f y (inr m)))

  pub Member-filter :
      (p : A → Bool) (x : A) (xs : List A) → p x ≡ true → Member x xs → Member x (filter p xs)
  Member-filter p x [] e m = m
  Member-filter p x (y ∷ xs) e m = elim (Bool-cases (p y)) [
    | inl t ↦ rw t (elim m [ inl h ↦ inl h | inr k ↦ inr (Member-filter p x xs e k) ])
    | inr f ↦ rw f (elim m [ inl h ↦ absurd (differ h f) | inr k ↦ Member-filter p x xs e k ])
  ]
    where
      differ : x ≡ y → p y ≡ false → ⊥
      differ h f = cc (ap p h)

  pub filter-Member :
      (p : A → Bool) (x : A) (xs : List A) → Member x (filter p xs) → Member x xs × (p x ≡ true)
  filter-Member p x [] m = absurd m
  filter-Member p x (y ∷ xs) m = elim (Bool-cases (p y)) [
    | inl t ↦
        let m' : Member x (y ∷ filter p xs) = rw t at m in
        elim m' [
          | inl e ↦ (inl e, ap p e ∙ t)
          | inr k ↦ let r = filter-Member p x xs k in (inr r.0, r.1)
        ]
    | inr f ↦ let r = filter-Member p x xs (rw f at m) in (inr r.0, r.1)
  ]
