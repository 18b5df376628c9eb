-- ===== src/Tournament/Barrier/Held.antt =====
-- Tables are held until the last of them has come, and no longer.
use servers_poker.Prelude.{
  ℕ, suc, ◌+◌, ◌<◌, ◌≡◌, refl, sym, ap, ◌∙◌, subst, ◌⊎◌, inl, inr, true, false, ◌||◌, List, [], ◌∷◌,
  ◌++◌, includes, Distinct, length, length-append, leb, if◌then◌else◌, arith, Bool-cases,
}
use servers_poker.Tournament.Barrier.{
  Barrier, new_barrier, release, check_in, Step, arrives, is_released, Reaches, at_start, after,
  check_in_all,
}

-- The tables that are held are those that have checked in, each once, and some table is missing.
pub record IsHeld (total_tables : ℕ) (b : Barrier) : Type 0 where
  pub same : b.waiters ≡ b.checked_in
  pub distinct : Distinct b.waiters
  pub few : length b.waiters < total_tables

includes-append :
    (id : ℕ) (xs ys : List ℕ) → includes id (xs ++ ys) ≡ (includes id xs || includes id ys)
includes-append id [] ys = refl
includes-append id (x ∷ xs) ys = ground (arith, includes-append id xs ys)

Distinct-append_one :
    (id : ℕ) (xs : List ℕ) → Distinct xs → includes id xs ≡ false → Distinct (xs ++ id ∷ [])
Distinct-append_one id [] h e = (refl, tt)
Distinct-append_one id (x ∷ xs) h e = (
  includes-append x xs (id ∷ []) ∙ ground (arith, h.0, e),
  Distinct-append_one id xs h.1 (ground (arith, e)),
)

-- A table that comes to a barrier is held, or it is the last one, and then all go on.
check_in-cases :
    (n id : ℕ) (b : Barrier)
    → IsHeld n b
    → includes id b.waiters ≡ false
    → (let p = check_in id n b in
        ((suc (length b.waiters) ≡ n)
          × (p.barrier ≡ new_barrier)
          × (p.goes_on ≡ true)
          × (p.resolved ≡ b.waiters))
        ⊎ ((suc (length b.waiters) < n)
            × IsHeld n p.barrier
            × (p.barrier.waiters ≡ b.waiters ++ id ∷ [])
            × (p.goes_on ≡ false)
            × (p.resolved ≡ [])))
unfolding check_in release
check_in-cases n id b h new =
    let fresh : includes id b.checked_in ≡ false = subst (λ l. includes id l ≡ false) h.same new in
    let count : length (b.checked_in ++ id ∷ []) ≡ suc (length b.waiters) =
      omega (arith, length-append b.checked_in (id ∷ []), ap length h.same) in
    elim (Bool-cases (leb n (length (b.checked_in ++ id ∷ [])))) [
      | inl e ↦
          let few = h.few in
          inl (
            ground (arith, e, count, few),
            rw (fresh, e, check_in) refl,
            rw (fresh, e, check_in) refl,
            rw (fresh, e, check_in) refl,
          )
      | inr e ↦
          let few = h.few in
          inr (
            ground (arith, e, count, few),
            rw (fresh, e, check_in)
                (record {
                  same = ap (λ l. l ++ id ∷ []) h.same;
                  distinct = Distinct-append_one id b.waiters h.distinct new;
                  few = ground (arith, e, count, length-append b.waiters (id ∷ []));
                }),
            rw (fresh, e, check_in) refl,
            rw (fresh, e, check_in) refl,
            rw (fresh, e, check_in) refl,
          )
    ]

new_barrier-IsHeld : (n : ℕ) → 0 < n → IsHeld n new_barrier
new_barrier-IsHeld n p = record { same = refl; distinct = tt; few = p }

Step-IsHeld : (n : ℕ) (b b' : Barrier) → 0 < n → Step n b b' → IsHeld n b → IsHeld n b'
unfolding release
Step-IsHeld n _ _ p (arrives id b new) h = elim (check_in-cases n id b h new) [
  | inl last ↦ subst (λ c. IsHeld n c) (sym last.1) (new_barrier-IsHeld n p)
  | inr held ↦ held.1
]
Step-IsHeld n _ _ p (is_released b) h = new_barrier-IsHeld n p

-- Whatever tables that are not held check in, in whatever order, and whenever the barrier is
-- released: exactly the tables that have checked in are held, each once, and they are never all.
pub Reaches-IsHeld :
    (total_tables : ℕ) (b : Barrier)
    → 0 < total_tables
    → Reaches total_tables b
    → IsHeld total_tables b
Reaches-IsHeld n _ p at_start = new_barrier-IsHeld n p
Reaches-IsHeld n _ p (after a b r s) = Step-IsHeld n a b p s (Reaches-IsHeld n a p r)

append_one_append : (id : ℕ) (xs ys : List ℕ) → (xs ++ id ∷ []) ++ ys ≡ xs ++ id ∷ ys
append_one_append id [] ys = refl
append_one_append id (x ∷ xs) ys = ap (λ l. x ∷ l) (append_one_append id xs ys)

Distinct-append_new : (id : ℕ) (xs ys : List ℕ) → Distinct (xs ++ id ∷ ys) → includes id xs ≡ false
Distinct-append_new id [] ys h = refl
Distinct-append_new id (x ∷ xs) ys h =
    ground (arith, Distinct-append_new id xs ys h.1, includes-append x xs (id ∷ ys), h.0)

append_nil : (xs : List ℕ) → xs ++ [] ≡ xs
append_nil [] = refl
append_nil (x ∷ xs) = ap (λ l. x ∷ l) (append_nil xs)

length_zero : (xs : List ℕ) → length xs ≡ 0 → xs ≡ []
length_zero [] e = refl
length_zero (x ∷ xs) e = absurd (omega (arith, e))

-- What holds after some tables have come to a barrier where others are held.
abbrev Arrived : ℕ → List ℕ → Barrier → Type 0
Arrived n ids b =
    let run = check_in_all n ids b in
    (length b.waiters + length ids < n → (run.0.waiters ≡ b.waiters ++ ids) × (run.1 ≡ []))
    × (length b.waiters + length ids ≡ n → (run.0 ≡ new_barrier) × (run.1 ≡ b.waiters ++ ids))

check_in_all-Arrived :
    (n : ℕ) (ids : List ℕ) (b : Barrier)
    → IsHeld n b
    → Distinct (b.waiters ++ ids)
    → Arrived n ids b
unfolding check_in_all
check_in_all-Arrived n [] b h d =
    (λ l. (sym (append_nil b.waiters), refl), λ e. absurd (full h.few e))
  where
    full : length b.waiters < n → length b.waiters + 0 ≡ n → ⊥
    full l e = omega arith
check_in_all-Arrived n (id ∷ ids) b h d =
    let Goes : Barrier → ℕ → List ℕ → Type 0 = λ b id l.
      let p = check_in id n b in
      let run = check_in_all n l p.barrier in
      (run.0 ≡ new_barrier)
      × (p.resolved ++ (if p.goes_on then id ∷ run.1 else run.1) ≡ b.waiters ++ id ∷ l) in
    elim (check_in-cases n id b h (Distinct-append_new id b.waiters ids d)) [
      | inl last ↦ (
        λ l. absurd (omega (arith, l, last.0)),
        λ e.
            subst (Goes b id) (sym (length_zero ids (omega (arith, e, last.0))))
              (last.1, rw (last.2, last.3) refl),
      )
      | inr held ↦
          let p = check_in id n b in
          let next : p.barrier.waiters ++ ids ≡ b.waiters ++ id ∷ ids =
            ap (λ l. l ++ ids) held.2 ∙ append_one_append id b.waiters ids in
          let rest =
            check_in_all-Arrived n ids p.barrier held.1 (subst (λ l. Distinct l) (sym next) d) in
          let count : length p.barrier.waiters ≡ suc (length b.waiters) =
            omega (arith, ap length held.2, length-append b.waiters (id ∷ [])) in
          (
            λ l. let r = rest.0 (omega (arith, l, count)) in (r.0 ∙ next, rw (held.3, held.4) r.1),
            λ e.
                let r = rest.1 (omega (arith, e, count)) in (r.0, rw (held.3, held.4) (r.1 ∙ next)),
          )
    ]

-- From every barrier that can be reached, let different tables come that are not held. When all
-- tables have then come, those that were held and those that came all go on, and the barrier is as
-- new.
pub check_in_all-releases :
    (total_tables : ℕ) (b : Barrier) (ids : List ℕ)
    → 0 < total_tables
    → Reaches total_tables b
    → Distinct (b.waiters ++ ids)
    → length b.waiters + length ids ≡ total_tables
    → ((check_in_all total_tables ids b).0 ≡ new_barrier)
      × ((check_in_all total_tables ids b).1 ≡ b.waiters ++ ids)
check_in_all-releases n b ids p r d e =
    (check_in_all-Arrived n ids b (Reaches-IsHeld n b p r) d).1 e

-- From every barrier that can be reached, let different tables come that are not held. While some
-- table is still missing, nobody goes on, and all that have come are held.
pub check_in_all-holds :
    (total_tables : ℕ) (b : Barrier) (ids : List ℕ)
    → 0 < total_tables
    → Reaches total_tables b
    → Distinct (b.waiters ++ ids)
    → length b.waiters + length ids < total_tables
    → ((check_in_all total_tables ids b).0.waiters ≡ b.waiters ++ ids)
      × ((check_in_all total_tables ids b).1 ≡ [])
check_in_all-holds n b ids p r d l = (check_in_all-Arrived n ids b (Reaches-IsHeld n b p r) d).0 l
