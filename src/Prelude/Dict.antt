-- ===== src/Prelude/Dict.antt =====
-- A `Record<string, bigint>`: an association list in insertion order, a missing key read as 0n.
-- Keys are only compared, so they are numbers.
use Prim.Native.Nat.{ℕ, ◌+◌}
use mathlib.Core.Path.{◌≡◌, refl}
use mathlib.Core.Logic.{◌≢◌}
use mathlib.Core.List.{List, [], ◌∷◌}
use native.Mathlib.Omega.{arith}
use servers_poker.Prelude.Tests.{◌==◌, if◌then◌else◌}
use servers_poker.Prelude.Sums.{sum_by}

abbrev pub Dict : Type 0
Dict = List (ℕ × ℕ)

-- `d[k] ?? 0n`
abbrev pub lookup : ℕ → Dict → ℕ
lookup k [] = 0
lookup k ((j, v) ∷ d) = if k == j then v else lookup k d

-- `d[k] = v`
abbrev pub insert : ℕ → ℕ → Dict → Dict
insert k v [] = (k, v) ∷ []
insert k v ((j, w) ∷ d) = if k == j then (k, v) ∷ d else (j, w) ∷ insert k v d

-- The sum of `Object.values(d)`.
abbrev pub total : Dict → ℕ
total = sum_by (λ e. e.1)

pub lookup-insert :
    (j k v : ℕ) (d : Dict) → lookup j (insert k v d) ≡ (if j == k then v else lookup j d)
lookup-insert j k v [] = refl
lookup-insert j k v ((i, w) ∷ d) = ground (arith, lookup-insert j k v d)

pub lookup-insert_self : (k v : ℕ) (d : Dict) → lookup k (insert k v d) ≡ v
lookup-insert_self k v d = ground (arith, lookup-insert k k v d)

pub lookup-insert_ne : (j k v : ℕ) (d : Dict) → j ≢ k → lookup j (insert k v d) ≡ lookup j d
lookup-insert_ne j k v d h = ground (arith, lookup-insert j k v d)

-- A write changes the total by what it changes at its key.
pub total-insert : (k v : ℕ) (d : Dict) → total (insert k v d) + lookup k d ≡ total d + v
total-insert k v [] = omega arith
total-insert k v ((i, w) ∷ d) = ground (arith, total-insert k v d)
