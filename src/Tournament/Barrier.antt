-- ===== src/Tournament/Barrier.antt =====
-- `class BarrierCoordinator` of src/modules/tournaments/tournament-director.service.ts: the tables
-- that wait for each other in hand-for-hand play. A waiter is the table whose `checkIn` is held; the
-- timer is whether the timeout is armed. Log lines and the callback on stuck tables are left out.
pub mod Held
use servers_poker.Prelude.{
  ℕ, Bool, true, false, List, [], ◌∷◌, ◌++◌, ◌≡◌, includes, length, leb, ◌==◌, if◌then◌else◌,
}

-- The private fields of `BarrierCoordinator`.
pub record Barrier : Type 0 where
  pub checked_in : List ℕ
  pub waiters : List ℕ
  pub timer : Bool

-- The fields of a new coordinator.
abbrev pub new_barrier : Barrier
new_barrier = record { checked_in = []; waiters = []; timer = false }

-- What a call leaves: the barrier, whether the caller goes on, and the waiters that are resolved.
pub record Passage : Type 0 where
  pub barrier : Barrier
  pub goes_on : Bool
  pub resolved : List ℕ

-- `release`: the barrier and the waiters that are resolved.
unfoldable pub release : Barrier → Barrier × List ℕ
release b = (record b { checked_in = []; waiters = []; timer = false }, b.waiters)

-- `this.checkedIn.add(tableId)`
abbrev pub add_table : ℕ → List ℕ → List ℕ
add_table id ids = if includes id ids then ids else ids ++ id ∷ []

-- `checkIn`
unfoldable pub check_in : ℕ → ℕ → Barrier → Passage
unfolding release
check_in id total_tables b =
    let checked_in = add_table id b.checked_in in
    let timer : Bool = if length checked_in == 1 then true else b.timer in
    let added : Barrier = record b { checked_in = checked_in; timer = timer } in
    if leb total_tables (length checked_in)
    then record { barrier = (release added).0; goes_on = true; resolved = (release added).1 }
    else record {
      barrier = record added { waiters = b.waiters ++ id ∷ [] };
      goes_on = false;
      resolved = [];
    }

-- The check that the timeout fires: the tables that have not checked in.
unfoldable pub stuck_tables : List ℕ → Barrier → List ℕ
stuck_tables [] b = []
stuck_tables (id ∷ all_table_ids) b =
    if includes id b.checked_in
    then stuck_tables all_table_ids b
    else id ∷ stuck_tables all_table_ids b

-- A table that is not held checks in, or the barrier is released, by the timeout or from outside.
pub data Step (total_tables : ℕ) : Barrier → Barrier → Type 0 where
  arrives :
      (id : ℕ) (b : Barrier)
      → includes id b.waiters ≡ false
      → Step total_tables b (check_in id total_tables b).barrier
  is_released : (b : Barrier) → Step total_tables b (release b).0

-- The barriers that can be reached from a new one.
pub data Reaches (total_tables : ℕ) : Barrier → Type 0 where
  at_start : Reaches total_tables new_barrier
  after :
      (b b' : Barrier) → Reaches total_tables b → Step total_tables b b' → Reaches total_tables b'

-- Tables that check in one after the other: the barrier, and who goes on, in order.
unfoldable pub check_in_all : ℕ → List ℕ → Barrier → Barrier × List ℕ
unfolding check_in
check_in_all total_tables [] b = (b, [])
check_in_all total_tables (id ∷ ids) b =
    let p = check_in id total_tables b in
    let (b', rest) = check_in_all total_tables ids p.barrier in
    (b', p.resolved ++ (if p.goes_on then id ∷ rest else rest))
